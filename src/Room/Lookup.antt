-- ===== src/Room/Lookup.antt =====
-- Look-up in the members of packages/room-core/src/validation.ts after an entry is set or deleted.
use tetr_d.Base.{
  ◌≡◌, ◌⊎◌, inl, inr, refl, ap, ◌∙◌, Bool, false, none, some, [], ◌∷◌, arith, any, Bool-cases,
}
use tetr_d.Base.Texts.{Text, same_text, same_text_refl, same_text_sound}
use tetr_d.Room.{RoomMember, Members}
use tetr_d.Room.Validation.{own_member, set_member, without_member}

pub same_text_sym : (a b : Text) → same_text a b ≡ false → same_text b a ≡ false
same_text_sym a b h = elim (Bool-cases (same_text b a)) [
  | inl e ↦ absurd (let same = same_text_sound b a e in let self = same_text_refl a in cc)
  | inr e ↦ e
]

-- Two texts, as one or as different ones.
pub text-cases : (a b : Text) → (a ≡ b) ⊎ (same_text a b ≡ false)
text-cases a b = elim (Bool-cases (same_text a b)) [
  | inl e ↦ inl (same_text_sound a b e)
  | inr e ↦ inr e
]

pub own_member-set_same :
    (ms : Members) (key : Text) (m : RoomMember) → own_member (set_member ms key m) key ≡ some m
unfolding own_member set_member
own_member-set_same [] key m = rw (same_text_refl key)
own_member-set_same ((k, v) ∷ rest) key m = elim (Bool-cases (same_text k key)) [
  | inl e ↦ rw (e, e)
  | inr e ↦ rw (e, e) (own_member-set_same rest key m)
]

pub own_member-set_other :
    (ms : Members) (key : Text) (m : RoomMember) (other : Text)
    → same_text key other ≡ false
    → own_member (set_member ms key m) other ≡ own_member ms other
unfolding own_member set_member
own_member-set_other [] key m other h = rw h
own_member-set_other ((k, v) ∷ rest) key m other h = elim (Bool-cases (same_text k key)) [
  | inl e ↦
      let apart : same_text k other ≡ false =
        ap (λ t. same_text t other) (same_text_sound k key e) ∙ h in
      rw (e, apart)
  | inr e ↦ rw (e, own_member-set_other rest key m other h)
]

pub own_member-without_same :
    (ms : Members) (key : Text) → own_member (without_member ms key) key ≡ none
unfolding own_member without_member
own_member-without_same [] key = refl
own_member-without_same ((k, v) ∷ rest) key = elim (Bool-cases (same_text k key)) [
  | inl e ↦ rw e (own_member-without_same rest key)
  | inr e ↦ rw (e, e) (own_member-without_same rest key)
]

pub own_member-without_other :
    (ms : Members) (key other : Text)
    → same_text key other ≡ false
    → own_member (without_member ms key) other ≡ own_member ms other
unfolding own_member without_member
own_member-without_other [] key other h = refl
own_member-without_other ((k, v) ∷ rest) key other h = elim (Bool-cases (same_text k key)) [
  | inl e ↦
      let apart : same_text k other ≡ false =
        ap (λ t. same_text t other) (same_text_sound k key e) ∙ h in
      rw (e, apart) (own_member-without_other rest key other h)
  | inr e ↦ rw (e, own_member-without_other rest key other h)
]

-- No key stands twice.
abbrev pub HasDistinctKeys : Members → Type 0
HasDistinctKeys [] = Unit
HasDistinctKeys ((k, m) ∷ rest) = (own_member rest k ≡ none) × HasDistinctKeys rest

pub set_member-HasDistinctKeys :
    (ms : Members) (key : Text) (m : RoomMember)
    → HasDistinctKeys ms
    → HasDistinctKeys (set_member ms key m)
unfolding set_member own_member
set_member-HasDistinctKeys [] key m h = (refl, tt)
set_member-HasDistinctKeys ((k, v) ∷ rest) key m (new, h) = elim (Bool-cases (same_text k key)) [
  | inl e ↦ rw e (new, h)
  | inr e ↦ rw e (
    own_member-set_other rest key m k (same_text_sym k key e) ∙ new,
    set_member-HasDistinctKeys rest key m h,
  )
]

pub without_member-HasDistinctKeys :
    (ms : Members) (key : Text) → HasDistinctKeys ms → HasDistinctKeys (without_member ms key)
unfolding without_member
without_member-HasDistinctKeys [] key h = tt
without_member-HasDistinctKeys ((k, v) ∷ rest) key (new, h) = elim (Bool-cases (same_text k key)) [
  | inl e ↦ rw e (without_member-HasDistinctKeys rest key h)
  | inr e ↦ rw e (
    own_member-without_other rest key k (same_text_sym k key e) ∙ new,
    without_member-HasDistinctKeys rest key h,
  )
]

-- An entry of the tail is found in the whole.
pub own_member-tail :
    (k : Text) (v : RoomMember) (rest : Members) (key : Text) (m : RoomMember)
    → own_member rest k ≡ none
    → own_member rest key ≡ some m
    → own_member ((k, v) ∷ rest) key ≡ some m
unfolding own_member
own_member-tail k v rest key m new found = elim (Bool-cases (same_text k key)) [
  | inl e ↦ absurd (let same = same_text_sound k key e in cc)
  | inr e ↦ rw (e, found)
]

pub own_member-head :
    (k : Text) (v : RoomMember) (rest : Members) → own_member ((k, v) ∷ rest) k ≡ some v
unfolding own_member
own_member-head k v rest = rw (same_text_refl k)

-- A test of all entries that fails at every entry found fails altogether.
any_entry-none :
    (p : RoomMember → Bool) (ms : Members)
    → HasDistinctKeys ms
    → ((key : Text) (m : RoomMember) → own_member ms key ≡ some m → p m ≡ false)
    → any (λ e. p e.1) ms ≡ false
any_entry-none p [] keys h = refl
any_entry-none p ((k, v) ∷ rest) (new, keys) h =
    let rest_fails =
      any_entry-none p rest keys
        (λ key m found. h key m (own_member-tail k v rest key m new found)) in
    rw (h k v (own_member-head k v rest)) rest_fails

-- The other way round.
pub any_entry-found :
    (p : RoomMember → Bool) (ms : Members) (key : Text) (m : RoomMember)
    → any (λ e. p e.1) ms ≡ false
    → own_member ms key ≡ some m
    → p m ≡ false
unfolding own_member
any_entry-found p [] key m h found = cc
any_entry-found p ((k, v) ∷ rest) key m h found = elim (Bool-cases (same_text k key)) [
  | inl e ↦ ground (arith, e)
  | inr e ↦ any_entry-found p rest key m (ground arith) (ground (arith, e))
]
