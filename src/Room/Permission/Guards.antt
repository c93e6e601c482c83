-- ===== src/Room/Permission/Guards.antt =====
-- What is known of the tests of packages/room-core/src/operations.ts once a command has committed.
use tetr_d.Base.{
  ℕ, ◌≡◌, ◌⊎◌, inl, inr, refl, Bool, true, false, not, Option, none, some, List, if◌then◌else◌,
  ◌==◌, ==_iff, arith, ap, sym, ◌∙◌,
}
use tetr_d.Base.Texts.{Text, same_text_sound}
use tetr_d.Base.Result.{ok, Result}
use tetr_d.Room.{
  SeatIndex, RoomMember, RoomState, RoomEffect, RoomErrorCode, StaleReason, RoomTransition,
  committed, VersionedRequest, RoomConnection, online, offline, RoomPhase, lobby, in_countdown,
  playing, between_games, series_complete, closed, revision_conflict, not_in_room, not_connected,
  not_host,
}
use tetr_d.Room.Validation.{is_some, own_member, connected, is_online, is_id, seat_of}
use tetr_d.Room.Operations.{reject, version_error, actor_error, host_error}
use tetr_d.Room.Handlers.{refuse, pass_over, unless_error, is_open}
use tetr_d.Room.Handlers.RoomCommands.{at_own_seat}
use tetr_d.Room.Handlers.PresenceCommands.{if_member}
use tetr_d.Room.Permission.{IsActor, IsHostActor, IsOpenPhase}

pub is_online-online :
    (c : RoomConnection) → is_online c ≡ true → (id : Text) × (epoch : ℕ) × (c ≡ online id epoch)
is_online-online (online id epoch) h = (id, epoch, refl)
is_online-online (offline epoch deadline requested) h = cc

pub is_open-IsOpenPhase : (s : RoomState) → is_open s.phase ≡ true → IsOpenPhase s
is_open-IsOpenPhase s h = found s.phase h
  where
    found : (p : RoomPhase) → is_open p ≡ true → (p ≡ lobby) ⊎ (p ≡ series_complete)
    found lobby h = inl refl
    found series_complete h = inr refl
    found in_countdown h = cc
    found playing h = cc
    found between_games h = cc
    found closed h = cc

is_id-some : (o : Option Text) (key : Text) → is_id o key ≡ true → o ≡ some key
is_id-some none key h = cc
is_id-some (some id) key h = cong_some (same_text_sound id key h)
  where
    cong_some : {a b : Text} → a ≡ b → some a ≡ some b
    cong_some e = rw e refl

-- The test of the host comes after the one of the actor.
unless_error-host :
    (s : RoomState) (o : Option RoomTransition) (b : Bool) (r : Result RoomTransition)
    → unless_error
        (elim o as (λ _. Option RoomTransition) [
          | some t ↦ some t
          | none ↦ if b then none else some (reject s not_host)
        ])
        r
      ≡ unless_error o (unless_error (if b then none else some (reject s not_host)) r)
unless_error-host s none b r = refl
unless_error-host s (some t) b r = refl

-- `t` and `effects` are what the command commits.
module _ (s : RoomState) {t : RoomState} {effects : List RoomEffect} where
  pub past_refusal :
      (b : Bool) (code : RoomErrorCode) {r : Result RoomTransition}
      → (if b then refuse s code else r) ≡ ok (committed t effects)
      → (b ≡ false) × (r ≡ ok (committed t effects))
  past_refusal true code h = cc
  past_refusal false code h = (refl, h)

  pub past_stale :
      (b : Bool) (reason : StaleReason) {r : Result RoomTransition}
      → (if b then pass_over s reason else r) ≡ ok (committed t effects)
      → (b ≡ false) × (r ≡ ok (committed t effects))
  past_stale true reason h = cc
  past_stale false reason h = (refl, h)

  -- `if (test) return reject(state, code);` of a helper that returns the error.
  past_error :
      (b : Bool) (code : RoomErrorCode) {r : Result RoomTransition}
      → unless_error (if b then none else some (reject s code)) r ≡ ok (committed t effects)
      → (b ≡ true) × (r ≡ ok (committed t effects))
  past_error true code h = (refl, h)
  past_error false code h = cc

  past_member_error :
      (o : Option RoomMember) {r : Result RoomTransition}
      → unless_error
          (if not (is_some o)
            then some (reject s not_in_room)
            else if not (connected o)
            then some (reject s not_connected)
            else none)
          r
        ≡ ok (committed t effects)
      → ((m : RoomMember) × (o ≡ some m) × (is_online m.connection ≡ true))
        × (r ≡ ok (committed t effects))
  past_member_error none h = cc
  past_member_error (some m) {r} h = by_connection m.connection refl h
    where
      by_connection :
          (c : RoomConnection)
          → m.connection ≡ c
          → unless_error (if not (is_online c) then some (reject s not_connected) else none) r
            ≡ ok (committed t effects)
          → ((n : RoomMember) × (some m ≡ some n) × (is_online n.connection ≡ true))
            × (r ≡ ok (committed t effects))
      by_connection (online id epoch) e h = ((m, refl, rw e refl), h)
      by_connection (offline epoch deadline requested) e h = cc

  pub actor_error-IsActor :
      (q : VersionedRequest) {r : Result RoomTransition}
      → unless_error
          (version_error s q.expected_revision)
          (unless_error (actor_error s q.actor_player_id) r)
        ≡ ok (committed t effects)
      → IsActor s q × (r ≡ ok (committed t effects))
  actor_error-IsActor q {r} h =
      let (current, h1) = past_error (q.expected_revision == s.revision) revision_conflict h in
      let ((m, found, is_on), h2) = past_member_error (own_member s.members q.actor_player_id) h1 in
      let (id, epoch, connection) = is_online-online m.connection is_on in
      (
        record {
          current = (==_iff _ _).0 current;
          member = m;
          found = found;
          id = id;
          epoch = epoch;
          connection = connection;
        },
        h2,
      )

  pub host_error-IsHostActor :
      (q : VersionedRequest) {r : Result RoomTransition}
      → unless_error
          (version_error s q.expected_revision)
          (unless_error (host_error s q.actor_player_id) r)
        ≡ ok (committed t effects)
      → IsHostActor s q × (r ≡ ok (committed t effects))
  host_error-IsHostActor q {r} h =
      let is_host = is_id s.host_player_id q.actor_player_id in
      let same = unless_error-host s (actor_error s q.actor_player_id) is_host r in
      let (actor, h1) =
        actor_error-IsActor q
          (ap (unless_error (version_error s q.expected_revision)) (sym same) ∙ h) in
      let (host, h2) = past_error is_host not_host h1 in
      (record { actor = actor; host = is_id-some s.host_player_id q.actor_player_id host }, h2)

  pub past_open :
      (code : RoomErrorCode) {r : Result RoomTransition}
      → (if not (is_open s.phase) then refuse s code else r) ≡ ok (committed t effects)
      → IsOpenPhase s × (r ≡ ok (committed t effects))
  past_open code h =
      let (is_open_at, h1) = past_refusal (not (is_open s.phase)) code h in
      (is_open-IsOpenPhase s (ground arith), h1)

  pub past_seat :
      (actor : Text) {go : SeatIndex → Result RoomTransition}
      → at_own_seat s (seat_of s actor) go ≡ ok (committed t effects)
      → (seat : SeatIndex) × (seat_of s actor ≡ some seat) × (go seat ≡ ok (committed t effects))
  past_seat actor {go} h = found (seat_of s actor) h
    where
      found :
          (o : Option SeatIndex)
          → at_own_seat s o go ≡ ok (committed t effects)
          → (seat : SeatIndex) × (o ≡ some seat) × (go seat ≡ ok (committed t effects))
      found none h = cc
      found (some seat) h = (seat, refl, h)

  pub past_member :
      (key : Text) {go : RoomMember → Result RoomTransition}
      → if_member s (own_member s.members key) go ≡ ok (committed t effects)
      → (m : RoomMember) × (own_member s.members key ≡ some m) × (go m ≡ ok (committed t effects))
  past_member key {go} h = found (own_member s.members key) h
    where
      found :
          (o : Option RoomMember)
          → if_member s o go ≡ ok (committed t effects)
          → (m : RoomMember) × (o ≡ some m) × (go m ≡ ok (committed t effects))
      found none h = cc
      found (some m) h = (m, refl, h)
