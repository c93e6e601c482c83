-- ===== src/Room/Invariant/Entries.antt =====
-- The members of a room: valid players under their own IDs, each with an ordinal and a connection ID
-- of its own.
use tetr_d.Base.{
  ℕ, ◌+◌, ◌≤◌, ◌<◌, ◌≡◌, ◌⊎◌, inl, inr, sym, ap, ◌∙◌, subst, true, false, some, arith,
}
use tetr_d.Base.Texts.{Text, same_text}
use tetr_d.Board.{max_safe_integer}
use tetr_d.Room.{RoomMember, RoomConnection, online, offline, Members}
use tetr_d.Room.Validation.{own_member, set_member, without_member, is_valid_player, safe_id}
use tetr_d.Room.Checks.{connection_epoch}
use tetr_d.Room.Handlers.PresenceCommands.{has_connection_id, is_used}
use tetr_d.Room.Lookup.{
  HasDistinctKeys, set_member-HasDistinctKeys, without_member-HasDistinctKeys, text-cases,
  own_member-set_same, own_member-set_other, any_entry-found,
}
use tetr_d.Room.Invariant.Hosts.{without_member-found}

abbrev pub IsConnection : RoomConnection → Type 0
IsConnection (online id epoch) = safe_id id ≡ true
IsConnection (offline epoch deadline requested) = deadline ≤ max_safe_integer

-- An entry, with the number of commits so far and the next ordinal.
pub record IsMember (count next : ℕ) (key : Text) (m : RoomMember) : Type 0 where
  pub own_key : same_text key m.player.player_id ≡ true
  pub is_player : is_valid_player m.player ≡ true
  pub from_one : 1 ≤ m.joined_ordinal
  pub below_next : m.joined_ordinal < next
  pub few_epochs : connection_epoch m.connection ≤ count
  pub is_connection : IsConnection m.connection

-- Two entries are apart in what `f` says of them.
abbrev SharesNone : Members → (RoomMember → RoomMember → Type 0) → Type 0
SharesNone ms Shares =
    (key other : Text) (m v : RoomMember)
    → own_member ms key ≡ some m
    → own_member ms other ≡ some v
    → Shares m v
    → key ≡ other

abbrev SharesOrdinal : RoomMember → RoomMember → Type 0
SharesOrdinal m v = m.joined_ordinal ≡ v.joined_ordinal

abbrev SharesConnection : RoomMember → RoomMember → Type 0
SharesConnection m v =
    (id : Text) × (has_connection_id m.connection id ≡ true)
    × (has_connection_id v.connection id ≡ true)

pub record AreMembers (count next : ℕ) (ms : Members) : Type 0 where
  pub keys : HasDistinctKeys ms
  pub each : (key : Text) (m : RoomMember) → own_member ms key ≡ some m → IsMember count next key m
  pub ordinals : SharesNone ms SharesOrdinal
  pub connections : SharesNone ms SharesConnection

-- A lookup after an entry is set: the entry, or what was there.
set_member-found :
    (ms : Members) (key other : Text) (m v : RoomMember)
    → own_member (set_member ms key m) other ≡ some v
    → ((key ≡ other) × (m ≡ v)) ⊎ (own_member ms other ≡ some v)
set_member-found ms key other m v found = elim (text-cases key other) [
  | inl e ↦
      let here : some m ≡ some v =
        sym (own_member-set_same ms key m) ∙ ap (own_member (set_member ms key m)) e ∙ found in
      inl (e, cc)
  | inr e ↦ inr (sym (own_member-set_other ms key m other e) ∙ found)
]

set_member-SharesNone :
    (ms : Members) (key : Text) (m : RoomMember) (Shares : RoomMember → RoomMember → Type 0)
    → ((a b : RoomMember) → Shares a b → Shares b a)
    → ((other : Text) (v : RoomMember) → own_member ms other ≡ some v → Shares m v → key ≡ other)
    → SharesNone ms Shares
    → SharesNone (set_member ms key m) Shares
set_member-SharesNone ms key m Shares turned new h a b u v found_a found_b shared =
    elim (set_member-found ms key a m u found_a) [
      | inl (here, same) ↦ elim (set_member-found ms key b m v found_b) [
        | inl (there, same_too) ↦ sym here ∙ there
        | inr was ↦ sym here ∙ new b v was (subst (λ x. Shares x v) (sym same) shared)
      ]
      | inr was_a ↦ elim (set_member-found ms key b m v found_b) [
        | inl (there, same) ↦
            sym (new a u was_a (turned u m (subst (Shares u) (sym same) shared))) ∙ there
        | inr was ↦ h a b u v was_a was shared
      ]
    ]

set_member-AreMembers :
    (count next : ℕ) (ms : Members) (key : Text) (m : RoomMember)
    → IsMember count next key m
    → ((other : Text) (v : RoomMember)
        → own_member ms other ≡ some v
        → SharesOrdinal m v
        → key ≡ other)
    → ((other : Text) (v : RoomMember)
        → own_member ms other ≡ some v
        → SharesConnection m v
        → key ≡ other)
    → AreMembers count next ms
    → AreMembers count next (set_member ms key m)
set_member-AreMembers count next ms key m fits by_ordinal by_connection h = record {
  keys = set_member-HasDistinctKeys ms key m h.keys;
  each = λ other v found. elim (set_member-found ms key other m v found) [
    | inl (here, same) ↦
        subst (λ k. IsMember count next k v) here (subst (IsMember count next key) same fits)
    | inr was ↦ h.each other v was
  ];
  ordinals = set_member-SharesNone ms key m SharesOrdinal (λ a b e. sym e) by_ordinal h.ordinals;
  connections =
      set_member-SharesNone ms key m SharesConnection (λ a b (id, x, y). (id, y, x)) by_connection
        h.connections;
}

pub without_member-AreMembers :
    (count next : ℕ) (ms : Members) (key : Text)
    → AreMembers count next ms
    → AreMembers count next (without_member ms key)
without_member-AreMembers count next ms key h = record {
  keys = without_member-HasDistinctKeys ms key h.keys;
  each = λ other v found. h.each other v (without_member-found ms key other v found);
  ordinals = λ a b u v x y.
      h.ordinals a b u v (without_member-found ms key a u x) (without_member-found ms key b v y);
  connections = λ a b u v x y.
      h.connections a b u v (without_member-found ms key a u x) (without_member-found ms key b v y);
}

-- The bounds grow with the room.
pub weaken-AreMembers :
    (count more next later : ℕ) (ms : Members)
    → count ≤ more
    → next ≤ later
    → AreMembers count next ms
    → AreMembers more later ms
weaken-AreMembers count more next later ms le lt h = record {
  keys = h.keys;
  each = λ key m found.
      let e = h.each key m found in
      record {
        own_key = e.own_key;
        is_player = e.is_player;
        from_one = e.from_one;
        below_next = let b = e.below_next in omega (arith, b);
        few_epochs = let b = e.few_epochs in omega (arith, b);
        is_connection = e.is_connection;
      };
  ordinals = h.ordinals;
  connections = h.connections;
}

-- A member with a new connection, which is no other's.
pub reconnected-AreMembers :
    (count next : ℕ) (ms : Members) (key : Text) (m : RoomMember) (c : RoomConnection)
    → own_member ms key ≡ some m
    → connection_epoch c ≤ count
    → IsConnection c
    → ((id : Text) → has_connection_id c id ≡ true → is_used ms id ≡ false)
    → AreMembers count next ms
    → AreMembers count next (set_member ms key (record m { connection = c }))
reconnected-AreMembers count next ms key m c found few fits new h =
    let e = h.each key m found in
    set_member-AreMembers count next ms key (record m { connection = c })
      (record {
        own_key = e.own_key;
        is_player = e.is_player;
        from_one = e.from_one;
        below_next = e.below_next;
        few_epochs = few;
        is_connection = fits;
      })
      (λ other v was shared. h.ordinals key other m v found was shared)
      (λ other v was (id, own, theirs). absurd (
        let unused =
          any_entry-found (λ u. has_connection_id u.connection id) ms other v (new id own) was in
        let both = sym theirs ∙ unused in cc))
      h

pub added-AreMembers :
    (count next : ℕ) (ms : Members) (key : Text) (m : RoomMember)
    → IsMember count (next + 1) key m
    → m.joined_ordinal ≡ next
    → ((id : Text) → has_connection_id m.connection id ≡ true → is_used ms id ≡ false)
    → AreMembers count next ms
    → AreMembers count (next + 1) (set_member ms key m)
added-AreMembers count next ms key m fits is_next new h =
    set_member-AreMembers count (next + 1) ms key m fits
      (λ other v was shared.
        absurd
          (let e = h.each other v was in let b = e.below_next in omega (arith, b, shared, is_next)))
      (λ other v was (id, own, theirs). absurd (
        let unused =
          any_entry-found (λ u. has_connection_id u.connection id) ms other v (new id own) was in
        let both = sym theirs ∙ unused in cc))
      (weaken-AreMembers count count next (next + 1) ms (omega arith) (omega arith) h)
