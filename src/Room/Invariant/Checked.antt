-- ===== src/Room/Invariant/Checked.antt =====
-- The assertion of packages/room-core/src/invariants.ts passes on a room whose fields are in order.
use tetr_d.Base.{
  ℕ, ◌+◌, ◌≤◌, ◌≡◌, inl, inr, refl, sym, ap, ◌∙◌, true, false, some, List, [], ◌∷◌, arith, any,
  le→leb, ==_iff, ◌==◌, Bool-cases,
}
use tetr_d.Base.Texts.{Text, same_text, same_text_refl, same_text_sound, includes_text}
use tetr_d.Board.{max_safe_integer}
use tetr_d.Room.{RoomMember, RoomConnection, online, offline, Members, RoomState}
use tetr_d.Room.Validation.{safe_id, room_code_test, own_member}
use tetr_d.Room.Checks.{
  identity_ok, times_ok, members_ok, connection_epoch, connection_ok, seen_after,
}
use tetr_d.Room.Handlers.PresenceCommands.{has_connection_id}
use tetr_d.Room.Lookup.{own_member-head, own_member-tail}
use tetr_d.Room.Invariant.Entries.{AreMembers, IsConnection}

-- The identity and the times of a room.
pub record Facts (s : RoomState) : Type 0 where
  pub named : safe_id s.room_id ≡ true
  pub coded : room_code_test s.room_code ≡ true
  pub revised : 1 ≤ s.revision
  pub revision_low : s.revision ≤ s.presence_sequence
  pub sequence_safe : s.presence_sequence ≤ max_safe_integer
  pub updated_safe : s.updated_at_ms ≤ max_safe_integer
  pub expiry_safe : s.expires_at_ms ≤ max_safe_integer
  pub limit_safe : s.absolute_expires_at_ms ≤ max_safe_integer
  pub created_first : s.created_at_ms ≤ s.updated_at_ms
  pub created_before : s.created_at_ms ≤ s.absolute_expires_at_ms

pub identity_ok-true : (s : RoomState) → Facts s → identity_ok s ≡ true
unfolding identity_ok
identity_ok-true s f =
    let a = f.named in
    let b = f.coded in
    let c = f.revised in
    let d = f.revision_low in let e = f.sequence_safe in ground (arith, a, b, c, d, e)

pub times_ok-true : (s : RoomState) → Facts s → times_ok s ≡ true
unfolding times_ok
times_ok-true s f =
    let a = f.updated_safe in
    let b = f.expiry_safe in
    let c = f.limit_safe in
    let d = f.created_first in let e = f.created_before in ground (arith, a, b, c, d, e)

-- The ordinals and the connection IDs seen before are none of these members.
pub record IsUnseen (ordinals : List ℕ) (seen : List Text) (m : RoomMember) : Type 0 where
  pub new_ordinal : any (λ n. n == m.joined_ordinal) ordinals ≡ false
  pub new_connection :
      (id : Text) → has_connection_id m.connection id ≡ true → includes_text seen id ≡ false

connection_ok-true :
    (seen : List Text) (c : RoomConnection)
    → IsConnection c
    → ((id : Text) → has_connection_id c id ≡ true → includes_text seen id ≡ false)
    → connection_ok seen c ≡ true
connection_ok-true seen (online id epoch) safe new =
    let unseen = new id (same_text_refl id) in ground (arith, safe, unseen)
connection_ok-true seen (offline epoch deadline requested) safe new = le→leb _ _ safe

seen_after-new :
    (seen : List Text) (c : RoomConnection) (id : Text)
    → includes_text seen id ≡ false
    → has_connection_id c id ≡ false
    → includes_text (seen_after seen c) id ≡ false
seen_after-new seen (offline epoch deadline requested) id new other = new
seen_after-new seen (online own epoch) id new other = elim (Bool-cases (same_text id own)) [
  | inl e ↦ absurd (
      let same = same_text_sound id own e in
      let self = sym (ap (λ t. same_text t id) same) ∙ same_text_refl id in
      let both = sym other ∙ self in cc)
  | inr e ↦ rw e new
]

tail-AreMembers :
    (count next : ℕ) (k : Text) (v : RoomMember) (rest : Members)
    → AreMembers count next ((k, v) ∷ rest)
    → AreMembers count next rest
tail-AreMembers count next k v rest h =
    let (new, distinct) = h.keys in
    record {
      keys = distinct;
      each = λ key m found. h.each key m (own_member-tail k v rest key m new found);
      ordinals = λ a b u w x y.
          h.ordinals a b u w (own_member-tail k v rest a u new x)
            (own_member-tail k v rest b w new y);
      connections = λ a b u w x y.
          h.connections a b u w (own_member-tail k v rest a u new x)
            (own_member-tail k v rest b w new y);
    }

IsUnseen-seen_after :
    (count next : ℕ) (k : Text) (v : RoomMember) (rest : Members) (ordinals : List ℕ)
    (seen : List Text) (key : Text) (m : RoomMember)
    → AreMembers count next ((k, v) ∷ rest)
    → IsUnseen ordinals seen m
    → own_member rest key ≡ some m
    → IsUnseen (v.joined_ordinal ∷ ordinals) (seen_after seen v.connection) m
IsUnseen-seen_after count next k v rest ordinals seen key m h unseen found =
    let new = h.keys.0 in
    let there = own_member-tail k v rest key m new found in
    let here = own_member-head k v rest in
    let apart : k ≡ key → ⊥ =
      λ e. let gone = sym (ap (own_member rest) e) ∙ new in let both = sym found ∙ gone in cc in
    let earlier = unseen.new_ordinal in
    record {
      new_ordinal = elim (Bool-cases (v.joined_ordinal == m.joined_ordinal)) [
        | inl e ↦ absurd (apart (h.ordinals k key v m here there ((==_iff _ _).0 e)))
        | inr e ↦ rw e earlier
      ];
      new_connection = λ id own.
          seen_after-new seen v.connection id (unseen.new_connection id own)
            (elim (Bool-cases (has_connection_id v.connection id)) [
              | inl e ↦ absurd (apart (h.connections k key v m here there (id, e, own)))
              | inr e ↦ e
            ]);
    }

pub members_ok-true :
    (count next : ℕ) (ms : Members) (ordinals : List ℕ) (seen : List Text)
    → count ≤ max_safe_integer
    → next ≤ count + 1
    → AreMembers count next ms
    → ((key : Text) (m : RoomMember) → own_member ms key ≡ some m → IsUnseen ordinals seen m)
    → members_ok ordinals seen ms ≡ true
unfolding members_ok
members_ok-true count next [] ordinals seen few low h unseen = refl
members_ok-true count next ((k, v) ∷ rest) ordinals seen few low h unseen =
    let here = own_member-head k v rest in
    let e = h.each k v here in
    let now = unseen k v here in
    let rest_ok =
      members_ok-true count next rest (v.joined_ordinal ∷ ordinals) (seen_after seen v.connection)
        few low (tail-AreMembers count next k v rest h)
        (λ key m found.
          IsUnseen-seen_after count next k v rest ordinals seen key m h
            (unseen key m (own_member-tail k v rest key m h.keys.0 found)) found) in
    let a = e.own_key in
    let b = e.is_player in
    let c = e.from_one in
    let d = e.below_next in
    let f = e.few_epochs in
    let g = connection_ok-true seen v.connection e.is_connection now.new_connection in
    let i = now.new_ordinal in
    let j = le→leb (connection_epoch v.connection) max_safe_integer (omega (arith, f, few)) in
    let l = le→leb v.joined_ordinal max_safe_integer (omega (arith, d, few, low)) in
    let o = le→leb 1 v.joined_ordinal c in rw (a, b, l, o, i, j, g) rest_ok
