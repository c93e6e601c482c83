-- ===== src/Room/Spectators/Counting.antt =====
-- How the number of members without a seat changes with the members and the seats.
use tetr_d.Base.{
  ℕ, suc, ◌+◌, ◌≤◌, ◌≡◌, inl, inr, refl, sym, ap, ◌∙◌, Bool, true, false, not, Option, none, some,
  [], ◌∷◌, count_if, arith, Bool-cases,
}
use tetr_d.Base.Texts.{Text, same_text, same_text_sound}
use tetr_d.Room.{Pair, RoomMember, Members, RoomState}
use tetr_d.Room.Validation.{
  own_member, set_member, without_member, is_some, seat_among, spectator_count,
}
use tetr_d.Room.Lookup.{HasDistinctKeys, same_text_sym}

unfoldable pub is_seated : Pair (Option Text) → Text → Bool
is_seated seats key = is_some (seat_among seats key)

abbrev pub weight : Bool → ℕ
weight true = 0
weight false = 1

-- The members without a seat, one by one.
unfoldable pub watching : Pair (Option Text) → Members → ℕ
watching seats [] = 0
watching seats ((k, m) ∷ rest) = weight (is_seated seats k) + watching seats rest

counted_one :
    (b : Bool) (n m : ℕ) → n ≡ m → elim (not b) [ true ↦ suc n | false ↦ n ] ≡ weight b + m
counted_one true n m e = omega (arith, e)
counted_one false n m e = omega (arith, e)

counted_watching :
    (seats : Pair (Option Text)) (ms : Members)
    → count_if (λ e. not (is_some (seat_among seats e.0))) ms ≡ watching seats ms
unfolding watching is_seated
counted_watching seats [] = refl
counted_watching seats ((k, m) ∷ rest) =
    counted_one (is_some (seat_among seats k)) _ _ (counted_watching seats rest)

pub spectator_count-watching : (s : RoomState) → spectator_count s ≡ watching s.seats s.members
unfolding spectator_count
spectator_count-watching s = counted_watching s.seats s.members

-- Whoever sits before still sits.
abbrev pub KeepsSeat : Pair (Option Text) → Pair (Option Text) → Text → Type 0
KeepsSeat before after key = is_seated before key ≡ true → is_seated after key ≡ true

weight-keeps : (before after : Bool) → (before ≡ true → after ≡ true) → weight after ≤ weight before
weight-keeps true after keeps = rw (keeps refl) (omega arith)
weight-keeps false true keeps = omega arith
weight-keeps false false keeps = omega arith

pub watching-seats :
    (before after : Pair (Option Text)) (ms : Members)
    → ((key : Text) → KeepsSeat before after key)
    → watching after ms ≤ watching before ms
unfolding watching
watching-seats before after [] keeps = omega arith
watching-seats before after ((k, m) ∷ rest) keeps =
    let later = watching-seats before after rest keeps in
    let here = weight-keeps (is_seated before k) (is_seated after k) (keeps k) in
    omega (arith, later, here)

pub watching-set_found :
    (seats : Pair (Option Text)) (ms : Members) (key : Text) (m v : RoomMember)
    → own_member ms key ≡ some v
    → watching seats (set_member ms key m) ≡ watching seats ms
unfolding own_member set_member watching
watching-set_found seats [] key m v found = cc
watching-set_found seats ((k, w) ∷ rest) key m v found = elim (Bool-cases (same_text k key)) [
  | inl e ↦ rw e refl
  | inr e ↦
      let there : own_member rest key ≡ some v = ground (arith, found, e) in
      rw e (ap (λ n. weight (is_seated seats k) + n) (watching-set_found seats rest key m v there))
]

pub watching-set_le :
    (seats : Pair (Option Text)) (ms : Members) (key : Text) (m : RoomMember)
    → watching seats (set_member ms key m) ≤ watching seats ms + weight (is_seated seats key)
unfolding set_member watching
watching-set_le seats [] key m = omega arith
watching-set_le seats ((k, w) ∷ rest) key m = elim (Bool-cases (same_text k key)) [
  | inl e ↦ rw e (omega arith)
  | inr e ↦ let later = watching-set_le seats rest key m in rw e (omega (arith, later))
]

-- What happens to the one who leaves does not count.
pub watching-without :
    (before after : Pair (Option Text)) (ms : Members) (key : Text)
    → ((other : Text) → same_text key other ≡ false → KeepsSeat before after other)
    → watching after (without_member ms key) ≤ watching before ms
unfolding without_member watching
watching-without before after [] key keeps = omega arith
watching-without before after ((k, m) ∷ rest) key keeps =
    let later = watching-without before after rest key keeps in
    elim (Bool-cases (same_text k key)) [
      | inl e ↦ rw e (omega (arith, later))
      | inr e ↦
          let here =
            weight-keeps (is_seated before k) (is_seated after k)
              (keeps k (same_text_sym k key e)) in
          rw e (omega (arith, later, here))
    ]

none_of-key :
    (before after : Pair (Option Text)) (ms : Members) (key : Text)
    → own_member ms key ≡ none
    → ((other : Text) → same_text key other ≡ false → KeepsSeat before after other)
    → watching after ms ≤ watching before ms
unfolding own_member watching
none_of-key before after [] key gone keeps = omega arith
none_of-key before after ((k, m) ∷ rest) key gone keeps = elim (Bool-cases (same_text k key)) [
  | inl e ↦ absurd (ground (arith, gone, e))
  | inr e ↦
      let later = none_of-key before after rest key (ground (arith, gone, e)) keeps in
      let here =
        weight-keeps (is_seated before k) (is_seated after k) (keeps k (same_text_sym k key e)) in
      omega (arith, later, here)
]

weight-le : (b : Bool) → weight b ≤ 1
weight-le true = omega arith
weight-le false = omega arith

-- One member at most stands up.
pub watching-stands :
    (before after : Pair (Option Text)) (ms : Members) (key : Text)
    → HasDistinctKeys ms
    → ((other : Text) → same_text key other ≡ false → KeepsSeat before after other)
    → watching after ms ≤ watching before ms + 1
unfolding watching
watching-stands before after [] key distinct keeps = omega arith
watching-stands before after ((k, m) ∷ rest) key (new, distinct) keeps =
    elim (Bool-cases (same_text k key)) [
      | inl e ↦
          let gone : own_member rest key ≡ none =
            ap (own_member rest) (sym (same_text_sound k key e)) ∙ new in
          let later = none_of-key before after rest key gone keeps in
          let here = weight-le (is_seated after k) in omega (arith, later, here)
      | inr e ↦
          let later = watching-stands before after rest key distinct keeps in
          let here =
            weight-keeps (is_seated before k) (is_seated after k)
              (keeps k (same_text_sym k key e)) in
          omega (arith, later, here)
    ]
