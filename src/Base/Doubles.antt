-- ===== src/Base/Doubles.antt =====
-- The doubles of JavaScript as far as whole numbers need them: a sum or a product is rounded to the
-- nearest double, to an even one between two.
use Prim.Native.Nat.{ℕ, zero, suc, ◌+◌, ◌*◌, ◌/◌, ◌%◌, ◌≤◌, ◌<◌}
use native.Mathlib.Nat.{div-add-mod, mod-lt, mul_comm}
use mathlib.Core.Path.{◌≡◌, refl}
use mathlib.Core.Logic.{◌⊎◌, inl, inr}
use mathlib.Core.Bool.{true, ◌&&◌, ◌||◌}
use native.Mathlib.Omega.{arith}
use tetr_d.Base.Tests.{if◌then◌else◌, ltb, leb, ◌==◌, le→leb, not_leb→lt, Bool-cases}
use tetr_d.Base.Int.{ℤ, pos, negsuc, pos_part, neg_part, sub_ℕ, leb_ℤ, ltb_ℤ}

-- `2 ** 53`, up to which every whole number is a double.
abbrev pub exact_limit : ℕ
exact_limit = 9007199254740992

-- The distance of the doubles round `n`, a power of 2 from `unit` on. Sixty-four doublings go past
-- the product of two safe integers.
unfoldable pub spacing : ℕ → ℕ → ℕ → ℕ
spacing zero n unit = unit
spacing (suc fuel) n unit =
    let wider = spacing fuel n (unit * 2) in if leb n (exact_limit * unit) then unit else wider

unfoldable pub to_multiple : ℕ → ℕ → ℕ
to_multiple unit n =
    let below = n / unit in
    let past = n % unit in
    if ltb unit (past * 2) || ((past * 2 == unit) && (below % 2 == 1))
    then (below + 1) * unit
    else below * unit

unfoldable pub to_double : ℕ → ℕ
to_double n = if leb n exact_limit then n else to_multiple (spacing 64 n 1) n

pub to_double_lem : (n : ℕ) → n ≤ exact_limit → to_double n ≡ n
unfolding to_double
to_double_lem n h = let small = le→leb n exact_limit h in rw small refl

-- The same for a number of either sign.
unfoldable pub to_double_ℤ : ℤ → ℤ
to_double_ℤ a = sub_ℕ (to_double (pos_part a)) (to_double (neg_part a))

pub to_double_ℤ-pos : (n : ℕ) → n ≤ exact_limit → to_double_ℤ (pos n) ≡ pos n
unfolding to_double_ℤ
to_double_ℤ-pos n h = rw (to_double_lem n h, to_double_lem 0 (omega arith)) (natural n)
  where
    natural : (n : ℕ) → sub_ℕ n 0 ≡ pos n
    natural n = ground arith

pub to_double_ℤ-near : (a : ℤ) → pos_part a + neg_part a ≤ exact_limit → to_double_ℤ a ≡ a
unfolding to_double_ℤ
to_double_ℤ-near a h =
    rw (to_double_lem (pos_part a) (omega arith), to_double_lem (neg_part a) (omega arith))
      (parts a)
  where
    parts : (a : ℤ) → sub_ℕ (pos_part a) (neg_part a) ≡ a
    parts (pos n) = ground arith
    parts (negsuc n) = ground arith

-- Halfway between two doubles: down to the even one, and up to it.
halfway_down : to_double 9007199254740993 ≡ 9007199254740992
unfolding to_double spacing to_multiple
halfway_down = refl

halfway_up : to_double 9007199254740995 ≡ 9007199254740996
unfolding to_double spacing to_multiple
halfway_up = refl

-- Beyond `2 ** 54` the doubles are multiples of 4.
large_double : to_double 18014398509481987 ≡ 18014398509481988
unfolding to_double spacing to_multiple
large_double = refl

spacing-le :
    (fuel n unit : ℕ) → (spacing fuel n unit * exact_limit ≤ n * 2) ⊎ (spacing fuel n unit ≡ unit)
unfolding spacing
spacing-le zero n unit = inr refl
spacing-le (suc fuel) n unit = elim (Bool-cases (leb n (exact_limit * unit))) [
  | inl e ↦ rw e (inr refl)
  | inr e ↦
      let past = not_leb→lt n (exact_limit * unit) e in
      rw e (elim (spacing-le fuel n (unit * 2)) [
        | inl le ↦ inl le
        | inr same ↦ inl (rw same (omega (arith, past)))
      ])
]

spacing-positive : (fuel n unit : ℕ) → 0 < unit → 0 < spacing fuel n unit
unfolding spacing
spacing-positive zero n unit h = h
spacing-positive (suc fuel) n unit h = elim (Bool-cases (leb n (exact_limit * unit))) [
  | inl e ↦ rw e h
  | inr e ↦ rw e (spacing-positive fuel n (unit * 2) (omega (arith, h)))
]

to_multiple-le : (unit n : ℕ) → 0 < unit → n ≤ to_multiple unit n + unit
unfolding to_multiple
to_multiple-le unit n positive =
    let whole = div-add-mod n unit in
    let rest = mod-lt n positive in
    elim (Bool-cases
      (ltb unit ((n % unit) * 2) || (((n % unit) * 2 == unit) && ((n / unit) % 2 == 1)))) [
        | inl e ↦ rw e (bound (n / unit) (n % unit) whole rest)
        | inr e ↦ rw e (bound_down (n / unit) (n % unit) whole rest)
      ]
  where
    bound_down : (q r : ℕ) → unit * q + r ≡ n → r < unit → n ≤ q * unit + unit
    bound_down q r e lt = omega (arith, e, lt, mul_comm q unit)

    bound : (q r : ℕ) → unit * q + r ≡ n → r < unit → n ≤ (q + 1) * unit + unit
    bound q r e lt = omega (arith, e, lt, mul_comm q unit)

to_multiple-large :
    (unit n : ℕ)
    → exact_limit < n
    → 0 < unit
    → (unit * exact_limit ≤ n * 2) ⊎ (unit ≡ 1)
    → 4503599627370496 ≤ to_multiple unit n
to_multiple-large unit n past positive (inl le) =
    let near = to_multiple-le unit n positive in omega (arith, near, past, le)
to_multiple-large unit n past positive (inr same) =
    let near = to_multiple-le unit n positive in omega (arith, near, past, same)

-- A number is its own double, or the double is a large one.
pub to_double-cases : (n : ℕ) → (to_double n ≡ n) ⊎ (4503599627370496 ≤ to_double n)
unfolding to_double
to_double-cases n = elim (Bool-cases (leb n exact_limit)) [
  | inl e ↦ rw e (inl refl)
  | inr e ↦ rw e (
      inr (
        to_multiple-large (spacing 64 n 1) n (not_leb→lt n exact_limit e)
          (spacing-positive 64 n 1 (omega arith)) (spacing-le 64 n 1)))
]

-- A double in a range of small numbers is that of the number itself.
pub to_double_ℤ-range :
    (a : ℤ) (limit : ℕ)
    → limit ≤ 4503599627370496
    → leb_ℤ (pos 0) (to_double_ℤ a) ≡ true
    → ltb_ℤ (to_double_ℤ a) (pos limit) ≡ true
    → to_double_ℤ a ≡ a
unfolding to_double_ℤ
to_double_ℤ-range (pos n) limit small low high =
    let none : to_double 0 ≡ 0 = to_double_lem 0 (omega arith) in
    elim (to_double-cases n) [
      | inl same ↦ rw (same, none) (ground arith)
      | inr large ↦ absurd (ground (arith, none, large, small, high))
    ]
to_double_ℤ-range (negsuc n) limit small low high =
    let none : to_double 0 ≡ 0 = to_double_lem 0 (omega arith) in
    elim (to_double-cases (suc n)) [
      | inl same ↦ rw (none, same) (ground arith)
      | inr large ↦ absurd (ground (arith, none, large, low))
    ]
