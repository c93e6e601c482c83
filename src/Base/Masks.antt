-- ===== src/Base/Masks.antt =====
-- Row masks: ten columns in the low bits of a number. The laws of the bit operations on them are
-- tables over all masks, checked by evaluation.
use Prim.Native.Nat.{ℕ, zero, suc, ◌+◌, ◌/◌, ◌%◌, ◌^◌, ◌<◌, bit_and, bit_or, bit_xor}
use mathlib.Core.Path.{◌≡◌, refl}
use mathlib.Core.Bool.{Bool, true, false, not, ◌&&◌, ◌||◌}
use native.Mathlib.Omega.{arith}
use tetr_d.Base.Tests.{ltb, ltb→lt, ◌==◌, ==_iff, &&_iff}

-- `1 << x`
abbrev pub shift_one : ℕ → ℕ
shift_one x = 2 ^ x

-- How many of the ten columns are occupied.
unfoldable pub popcount : ℕ → ℕ
popcount r =
    r % 2
    + r / 2 % 2
    + r / 4 % 2
    + r / 8 % 2
    + r / 16 % 2
    + r / 32 % 2
    + r / 64 % 2
    + r / 128 % 2
    + r / 256 % 2
    + r / 512 % 2

-- Whether a test passes on each number under a limit.
pub holds_under : (limit : ℕ) → (ℕ → Bool) → Bool
holds_under zero test = true
holds_under (suc limit) test = holds_under limit test && test limit

pub holds_under_lem :
    (limit : ℕ) (test : ℕ → Bool) (k : ℕ)
    → holds_under limit test ≡ true
    → k < limit
    → test k ≡ true
unfolding holds_under
holds_under_lem zero test k passed lt = absurd (omega arith)
holds_under_lem (suc limit) test k passed lt = ground (arith, holds_under_lem limit test k)

-- A test of all masks and all columns.
all_cells : (ℕ → ℕ → Bool) → Bool
unfolding holds_under
all_cells p = holds_under 1024 (λ r. holds_under 10 (p r))

all_cells_sound :
    (p : ℕ → ℕ → Bool) (r x : ℕ) → all_cells p ≡ true → r < 1024 → x < 10 → p r x ≡ true
unfolding all_cells
all_cells_sound p r x h lr lx =
    holds_under_lem 10 (p r) x (holds_under_lem 1024 (λ r. holds_under 10 (p r)) r h lr) lx

or_fits_table : all_cells (λ r x. ltb (bit_or r (shift_one x)) 1024) ≡ true
unfolding all_cells
or_fits_table = refl

or_pos_table : all_cells (λ r x. ltb 0 (bit_or r (shift_one x))) ≡ true
unfolding all_cells
or_pos_table = refl

-- `(row & (1 << x)) !== 0`
unfoldable pub has_bit : ℕ → ℕ → Bool
has_bit r x = not (bit_and r (shift_one x) == 0)

or_count_table :
    all_cells (λ r x. has_bit r x || (popcount (bit_or r (shift_one x)) == popcount r + 1)) ≡ true
unfolding all_cells has_bit popcount
or_count_table = refl

bool_eq : Bool → Bool → Bool
bool_eq true b = b
bool_eq false b = not b

bool_eq→eq : (a b : Bool) → bool_eq a b ≡ true → a ≡ b
unfolding bool_eq
bool_eq→eq a b h = ground arith

or_bits_table :
    all_cells (λ r x.
      holds_under 10 (λ y. bool_eq (has_bit (bit_or r (shift_one x)) y) (x == y || has_bit r y)))
    ≡ true
unfolding all_cells has_bit bool_eq
or_bits_table = refl

hole_table :
    holds_under 10 (λ h.
      ltb (bit_xor 1023 (shift_one h)) 1023
      && (popcount (bit_xor 1023 (shift_one h)) == 9)
      && holds_under 10 (λ x. bool_eq (has_bit (bit_xor 1023 (shift_one h)) x) (not (x == h))))
    ≡ true
unfolding holds_under has_bit bool_eq popcount
hole_table = refl

popcount_pos_table : holds_under 1024 (λ r. r == 0 || ltb 0 (popcount r)) ≡ true
unfolding holds_under popcount
popcount_pos_table = refl

module _ (r x : ℕ) (fits : r < 1024) (column : x < 10) where
  -- Setting a bit keeps the mask within ten columns.
  pub or-lt : bit_or r (shift_one x) < 1024
  or-lt =
      ltb→lt _ _
        (all_cells_sound (λ r x. ltb (bit_or r (shift_one x)) 1024) r x or_fits_table fits column)

  pub or_pos : 0 < bit_or r (shift_one x)
  or_pos =
      ltb→lt _ _
        (all_cells_sound (λ r x. ltb 0 (bit_or r (shift_one x))) r x or_pos_table fits column)

  -- Setting a clear bit adds one cell.
  pub popcount-or : has_bit r x ≡ false → popcount (bit_or r (shift_one x)) ≡ popcount r + 1
  popcount-or clear =
      let table =
        all_cells_sound
          (λ r x. has_bit r x || (popcount (bit_or r (shift_one x)) == popcount r + 1)) r x
          or_count_table fits column in
      (==_iff _ _).0 (rw clear at table)

  -- Setting a bit changes that column alone.
  pub has_bit-or : (y : ℕ) → y < 10 → has_bit (bit_or r (shift_one x)) y ≡ (x == y || has_bit r y)
  has_bit-or y ly = bool_eq→eq _ _ (
      holds_under_lem 10 (λ y. bool_eq (has_bit (bit_or r (shift_one x)) y) (x == y || has_bit r y))
        y
        (all_cells_sound
          (λ r x.
            holds_under 10
              (λ y. bool_eq (has_bit (bit_or r (shift_one x)) y) (x == y || has_bit r y)))
          r x or_bits_table fits column)
        ly)

-- A garbage row: every column but the hole.
module _ (h : ℕ) (column : h < 10) where
  hole_row :
      (ltb (bit_xor 1023 (shift_one h)) 1023
        && (popcount (bit_xor 1023 (shift_one h)) == 9)
        && holds_under 10 (λ x. bool_eq (has_bit (bit_xor 1023 (shift_one h)) x) (not (x == h))))
      ≡ true
  hole_row =
      holds_under_lem 10
        (λ h.
          ltb (bit_xor 1023 (shift_one h)) 1023
          && (popcount (bit_xor 1023 (shift_one h)) == 9)
          && holds_under 10 (λ x. bool_eq (has_bit (bit_xor 1023 (shift_one h)) x) (not (x == h))))
        h hole_table column

  pub hole-lt : bit_xor 1023 (shift_one h) < 1023
  hole-lt = ltb→lt _ _ ((&&_iff _ _).0 ((&&_iff _ _).0 hole_row).0).0

  pub popcount-hole : popcount (bit_xor 1023 (shift_one h)) ≡ 9
  popcount-hole = (==_iff _ _).0 ((&&_iff _ _).0 ((&&_iff _ _).0 hole_row).0).1

  pub has_bit-hole : (x : ℕ) → x < 10 → has_bit (bit_xor 1023 (shift_one h)) x ≡ not (x == h)
  has_bit-hole x lx = bool_eq→eq _ _ (
      holds_under_lem 10 (λ x. bool_eq (has_bit (bit_xor 1023 (shift_one h)) x) (not (x == h))) x
        ((&&_iff _ _).0 hole_row).1 lx)

  pub hole_pos : 0 < bit_xor 1023 (shift_one h)
  unfolding popcount
  hole_pos = ground (arith, popcount-hole)
