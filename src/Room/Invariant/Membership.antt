-- ===== src/Room/Invariant/Membership.antt =====
-- What a step does to the members of a room, and what the assertion tests of them.
use tetr_d.Base.{
  ℕ, ◌+◌, ◌≤◌, ◌≡◌, inl, inr, refl, sym, ap, subst, Bool, true, false, Option, none, some, [],
  arith, Option-cases,
}
use tetr_d.Base.Texts.{Text, same_text_refl, same_text_sound}
use tetr_d.Board.{max_safe_integer}
use tetr_d.Room.{
  RoomPolicy, RoomMember, RoomConnection, online, offline, Members, RoomState, JoinRequest,
}
use tetr_d.Room.Validation.{own_member, set_member, is_valid_player, safe_id}
use tetr_d.Room.Checks.{connection_epoch}
use tetr_d.Room.Handlers.RoomCommands.{new_member}
use tetr_d.Room.Handlers.MatchCommands.{renewed, renewed_for, renewed_as}
use tetr_d.Room.Handlers.PresenceCommands.{has_connection_id, is_used}
use tetr_d.Room.Invariant.Parting.{of_removal}
use tetr_d.Room.Invariant.Entries.{
  AreMembers, IsConnection, without_member-AreMembers, weaken-AreMembers, reconnected-AreMembers,
  added-AreMembers,
}
use tetr_d.Room.Steps.{
  Step, watches, plays, parts, stands, sits, readies, begins_series, continues_series, cancels,
  votes_for, sets, hands_over, drops, drops_and_cancels, resumes, replaces, forfeits, starts,
  finishes, closes, CanJoin,
}

-- The members of a room after `count` commits at most.
pub record MembersOf (count : ℕ) (s : RoomState) : Type 0 where
  pub members_fit : AreMembers count s.next_joined_ordinal s.members
  pub few_ordinals : s.next_joined_ordinal ≤ count + 1
  pub some_ordinal : 1 ≤ s.next_joined_ordinal

pub joined-AreMembers :
    (count next : ℕ) (ms : Members) (q : JoinRequest)
    → 1 ≤ next
    → is_valid_player q.player ≡ true
    → safe_id q.connection_id ≡ true
    → is_used ms q.connection_id ≡ false
    → AreMembers count next ms
    → AreMembers count (next + 1) (set_member ms q.player.player_id (new_member q next))
joined-AreMembers count next ms q from_one player safe new h =
    added-AreMembers count next ms q.player.player_id (new_member q next)
      (record {
        own_key = same_text_refl q.player.player_id;
        is_player = player;
        from_one = from_one;
        below_next = omega arith;
        few_epochs = omega arith;
        is_connection = safe;
      })
      refl
      (λ id own. subst (λ i. is_used ms i ≡ false) (same_text_sound q.connection_id id own) new) h

joins-MembersOf :
    (count : ℕ) (s : RoomState) (q : JoinRequest)
    → CanJoin s q
    → is_used s.members q.connection_id ≡ false
    → MembersOf count s
    → AreMembers
        (count + 1)
        (s.next_joined_ordinal + 1)
        (set_member s.members q.player.player_id (new_member q s.next_joined_ordinal))
joins-MembersOf count s q can new h =
    weaken-AreMembers count (count + 1) (s.next_joined_ordinal + 1) (s.next_joined_ordinal + 1) _
      (omega arith) (omega arith)
      (joined-AreMembers count s.next_joined_ordinal s.members q h.some_ordinal can.names_player
        can.names_connection new h.members_fit)

-- A step that leaves the next ordinal alone.
keeps-MembersOf :
    (count : ℕ) (s t : RoomState)
    → t.next_joined_ordinal ≡ s.next_joined_ordinal
    → AreMembers (count + 1) s.next_joined_ordinal t.members
    → MembersOf count s
    → MembersOf (count + 1) t
keeps-MembersOf count s t same fits h =
    let few = h.few_ordinals in
    let one = h.some_ordinal in
    record {
      members_fit = subst (λ n. AreMembers (count + 1) n t.members) (sym same) fits;
      few_ordinals = omega (arith, few, same);
      some_ordinal = omega (arith, one, same);
    }

grown :
    (count : ℕ) (s : RoomState)
    → MembersOf count s
    → AreMembers (count + 1) s.next_joined_ordinal s.members
grown count s h =
    weaken-AreMembers count (count + 1) s.next_joined_ordinal s.next_joined_ordinal s.members
      (omega arith) (omega arith) h.members_fit

not_offline :
    (epoch deadline : ℕ) (requested : Bool) (id : Text)
    → has_connection_id (offline epoch deadline requested) id ≡ true
    → ⊥
not_offline epoch deadline requested id h = cc

renewed-AreMembers :
    (count next : ℕ) (ms : Members) (key : Text) (deadline : ℕ)
    → deadline ≤ max_safe_integer
    → AreMembers count next ms
    → AreMembers count next (renewed ms key deadline)
renewed-AreMembers count next ms key deadline soon h = elim (Option-cases (own_member ms key)) [
  | inl e ↦ subst (λ o. AreMembers count next (renewed_for ms key deadline o)) (sym e) h
  | inr (m, e) ↦
      subst (λ o. AreMembers count next (renewed_for ms key deadline o)) (sym e)
        (renewed_as-AreMembers count next ms key deadline m m.connection e refl soon h)
]
  where
    renewed_as-AreMembers :
        (count next : ℕ) (ms : Members) (key : Text) (deadline : ℕ) (m : RoomMember)
        (c : RoomConnection)
        → own_member ms key ≡ some m
        → m.connection ≡ c
        → deadline ≤ max_safe_integer
        → AreMembers count next ms
        → AreMembers count next (renewed_as ms key deadline m c)
    renewed_as-AreMembers count next ms key deadline m (online id epoch) found was soon h = h
    renewed_as-AreMembers count next ms key deadline m (offline epoch old requested) found was soon
          h =
        reconnected-AreMembers count next ms key m (offline epoch deadline false) found
          (subst (λ c. connection_epoch c ≤ count) was (h.each key m found).few_epochs) soon
          (λ id own. absurd (not_offline epoch deadline false id own)) h

no_entry : (key : Text) (m : RoomMember) → own_member [] key ≡ some m → ⊥
unfolding own_member
no_entry key m found = cc

pub empty-AreMembers : (count next : ℕ) → AreMembers count next []
empty-AreMembers count next = record {
  keys = tt;
  each = λ key m found. absurd (no_entry key m found);
  ordinals = λ a b u v x y e. absurd (no_entry a u x);
  connections = λ a b u v x y e. absurd (no_entry a u x);
}

-- A connected member who goes offline, or one offline whose deadline stays safe.
set_offline-MembersOf :
    (count : ℕ) (s : RoomState) (key : Text) (m : RoomMember) (epoch deadline : ℕ)
    (requested : Bool)
    → own_member s.members key ≡ some m
    → connection_epoch m.connection ≡ epoch
    → deadline ≤ max_safe_integer
    → MembersOf count s
    → AreMembers
        (count + 1)
        s.next_joined_ordinal
        (set_member s.members key (record m { connection = offline epoch deadline requested }))
set_offline-MembersOf count s key m epoch deadline requested found was soon h =
    let g = grown count s h in
    reconnected-AreMembers (count + 1) s.next_joined_ordinal s.members key m
      (offline epoch deadline requested) found
      (subst (λ e. e ≤ count + 1) was (g.each key m found).few_epochs) soon
      (λ id own. absurd (not_offline epoch deadline requested id own)) g

-- A member with a new connection in the next epoch.
set_online-MembersOf :
    (count : ℕ) (s : RoomState) (key : Text) (m : RoomMember) (id : Text) (epoch : ℕ)
    → own_member s.members key ≡ some m
    → connection_epoch m.connection ≡ epoch
    → safe_id id ≡ true
    → is_used s.members id ≡ false
    → MembersOf count s
    → AreMembers
        (count + 1)
        s.next_joined_ordinal
        (set_member s.members key (record m { connection = online id (epoch + 1) }))
set_online-MembersOf count s key m id epoch found was safe new h =
    let fits = h.members_fit.each key m found in
    let few = fits.few_epochs in
    reconnected-AreMembers (count + 1) s.next_joined_ordinal s.members key m (online id (epoch + 1))
      found (omega (arith, few, was)) safe
      (λ i own. subst (λ k. is_used s.members k ≡ false) (same_text_sound id i own) new)
      (grown count s h)

abbrev pub JoinsNew : Members → Option Text → Type 0
JoinsNew ms none = Unit
JoinsNew ms (some id) = is_used ms id ≡ false

-- Every step of a room keeps its members in order, where a player joins with an unused connection ID
-- and the deadlines are safe integers.
pub Step-MembersOf :
    {s : RoomState} {policy : RoomPolicy} {joins : Option Text} {at_ms : ℕ} {t : RoomState}
    → Step s policy joins at_ms t
    → (count : ℕ) → JoinsNew s.members joins
    → at_ms + policy.match_reconnect_grace_ms + policy.lobby_reconnect_grace_ms ≤ max_safe_integer
    → MembersOf count s
    → MembersOf (count + 1) t
Step-MembersOf {s} (watches q brings can few) count new soon h =
    let unused = subst (JoinsNew s.members) brings new in
    let room = h.few_ordinals in
    record {
      members_fit = joins-MembersOf count s q can unused h;
      few_ordinals = omega (arith, room);
      some_ordinal = omega arith;
    }
Step-MembersOf {s} (plays q seat brings can place free) count new soon h =
    let unused = subst (JoinsNew s.members) brings new in
    let room = h.few_ordinals in
    record {
      members_fit = joins-MembersOf count s q can unused h;
      few_ordinals = omega (arith, room);
      some_ordinal = omega arith;
    }
Step-MembersOf {s} (parts key m denies found) count new soon h =
    let fits =
      without_member-AreMembers (count + 1) s.next_joined_ordinal s.members key (grown count s h) in
    of_removal (MembersOf (count + 1)) s key denies
      (λ host e. keeps-MembersOf count s _ refl fits h)
      (λ host e. keeps-MembersOf count s _ refl fits h)
Step-MembersOf {s} (stands key m found place few) count new soon h =
    keeps-MembersOf count s _ refl (grown count s h) h
Step-MembersOf {s} (sits key m seat found place free) count new soon h =
    keeps-MembersOf count s _ refl (grown count s h) h
Step-MembersOf {s} (readies seat is_ready allowed linked) count new soon h =
    keeps-MembersOf count s _ refl (grown count s h) h
Step-MembersOf {s} (begins_series origin ready votes roster l r linked e) count new soon h =
    keeps-MembersOf count s _ refl (grown count s h) h
Step-MembersOf {s} (continues_series ready votes series l r linked e place) count new soon h =
    keeps-MembersOf count s _ refl (grown count s h) h
Step-MembersOf {s} (cancels place) count new soon h =
    keeps-MembersOf count s _ refl (grown count s h) h
Step-MembersOf {s} (votes_for seat accepted) count new soon h =
    keeps-MembersOf count s _ refl (grown count s h) h
Step-MembersOf {s} (sets patch place wins few) count new soon h =
    keeps-MembersOf count s _ refl (grown count s h) h
Step-MembersOf {s} (hands_over target linked place) count new soon h =
    keeps-MembersOf count s _ refl (grown count s h) h
Step-MembersOf {s} (drops key m id epoch deadline found was near still) count new soon h =
    keeps-MembersOf count s _ refl
      (set_offline-MembersOf count s key m epoch deadline false found (ap connection_epoch was)
        (omega arith) h)
      h
Step-MembersOf {s} (drops_and_cancels key m id epoch deadline found was near) count new soon h =
    keeps-MembersOf count s _ refl
      (set_offline-MembersOf count s key m epoch deadline false found (ap connection_epoch was)
        (omega arith) h)
      h
Step-MembersOf {s} (resumes key m id epoch deadline requested found was safe unused) count new soon
      h =
    keeps-MembersOf count s _ refl
      (set_online-MembersOf count s key m id epoch found (ap connection_epoch was) safe unused h) h
Step-MembersOf {s} (replaces key m own id epoch found was safe unused) count new soon h =
    keeps-MembersOf count s _ refl
      (set_online-MembersOf count s key m id epoch found (ap connection_epoch was) safe unused h) h
Step-MembersOf {s} (forfeits key m active epoch deadline requested found was e now) count new soon
      h =
    let old = subst IsConnection was (h.members_fit.each key m found).is_connection in
    keeps-MembersOf count s _ refl
      (set_offline-MembersOf count s key m epoch deadline true found (ap connection_epoch was) old
        h)
      h
Step-MembersOf {s} (starts match_id c roster e k l linked) count new soon h =
    keeps-MembersOf count s _ refl (grown count s h) h
Step-MembersOf {s} {policy = policy} (finishes q active series now e k fits) count new soon h =
    let deadline = q.at_ms + policy.lobby_reconnect_grace_ms in
    let near : deadline ≤ max_safe_integer = omega (arith, now, soon) in
    keeps-MembersOf count s _ refl
      (renewed-AreMembers (count + 1) s.next_joined_ordinal
        (renewed s.members active.participants.left deadline) active.participants.right deadline
        near
        (renewed-AreMembers (count + 1) s.next_joined_ordinal s.members active.participants.left
          deadline near (grown count s h)))
      h
Step-MembersOf {s} (closes reason) count new soon h =
    keeps-MembersOf count s _ refl (empty-AreMembers (count + 1) s.next_joined_ordinal) h
