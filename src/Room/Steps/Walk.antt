-- ===== src/Room/Steps/Walk.antt =====
-- The tests of packages/room-core/src/operations.ts before a handler goes on, and what it then knows.
use tetr_d.Base.{
  none, some, not, refl, ltb, leb, not_leb→lt, lt→ltb, ℕ, ◌≡◌, inl, inr, Bool, true, false, Option,
  Bool-cases, Option-cases, if◌then◌else◌, ◌==◌,
}
use tetr_d.Base.Texts.{Text}
use tetr_d.Base.Result.{ok, Result}
use tetr_d.Room
use tetr_d.Room.{
  RoomPolicy, SeatIndex, RoomMember, RoomState, RoomErrorCode, revision_conflict, not_in_room,
  not_connected, not_host, RoomTransition,
}
use tetr_d.Room.Validation.{is_some, own_member, connected, is_id, seat_of}
use tetr_d.Room.Operations.{version_error, actor_error, host_error}
use tetr_d.Room.Handlers.{refuse, unless_error}
use tetr_d.Room.Handlers.RoomCommands.{at_own_seat}
use tetr_d.Room.Handlers.PresenceCommands.{if_member}
use tetr_d.Room.{not_seated, stale_connection}
use tetr_d.Room.Steps.{Follows, refuses, passes}

module _ {s : RoomState} {policy : RoomPolicy} {joins : Option Text} {at_ms : ℕ} where
  pub branch :
      (b : Bool) {r t : Result RoomTransition}
      → (b ≡ true → Follows s policy joins at_ms r)
      → (b ≡ false → Follows s policy joins at_ms t)
      → Follows s policy joins at_ms (if b then r else t)
  branch true on_true on_false = on_true refl
  branch false on_true on_false = on_false refl

  -- `if (test) return reject(state, code);`
  pub refuse_if :
      (b : Bool) (code : RoomErrorCode) {r : Result RoomTransition}
      → (b ≡ false → Follows s policy joins at_ms r)
      → Follows s policy joins at_ms (if b then refuse s code else r)
  refuse_if b code rest = branch b (λ _. refuses code) rest

  pub past_version :
      (expected : ℕ) {r : Result RoomTransition}
      → Follows s policy joins at_ms r
      → Follows s policy joins at_ms (unless_error (version_error s expected) r)
  past_version expected {r} rest = elim (Bool-cases (expected == s.revision)) [
    | inl e ↦ rw e rest
    | inr e ↦ rw e (refuses revision_conflict)
  ]

  -- The member found is connected.
  pub past_actor :
      (actor : Text) {r : Result RoomTransition}
      → ((m : RoomMember)
          → own_member s.members actor ≡ some m
          → connected (some m) ≡ true
          → Follows s policy joins at_ms r)
      → Follows s policy joins at_ms (unless_error (actor_error s actor) r)
  past_actor actor {r} rest = elim (Option-cases (own_member s.members actor)) [
    | inl e ↦ rw e (refuses not_in_room)
    | inr (m, e) ↦ elim (Bool-cases (connected (some m))) [
      | inl c ↦ rw (e, c) (rest m e c)
      | inr c ↦ rw (e, c) (refuses not_connected)
    ]
  ]

  pub past_host :
      (actor : Text) {r : Result RoomTransition}
      → ((m : RoomMember) → own_member s.members actor ≡ some m → Follows s policy joins at_ms r)
      → Follows s policy joins at_ms (unless_error (host_error s actor) r)
  past_host actor {r} rest = elim (Option-cases (own_member s.members actor)) [
    | inl e ↦ rw (unless_error, e) (refuses not_in_room)
    | inr (m, e) ↦ elim (Bool-cases (connected (some m))) [
      | inl c ↦ elim (Bool-cases (is_id s.host_player_id actor)) [
        | inl h ↦ rw (unless_error, e, c, h) (rest m e)
        | inr h ↦ rw (unless_error, e, c, h) (refuses not_host)
      ]
      | inr c ↦ rw (unless_error, e, c) (refuses not_connected)
    ]
  ]

  pub past_seat :
      (actor : Text) {go : SeatIndex → Result RoomTransition}
      → ((seat : SeatIndex) → seat_of s actor ≡ some seat → Follows s policy joins at_ms (go seat))
      → Follows s policy joins at_ms (at_own_seat s (seat_of s actor) go)
  past_seat actor {go} rest = elim (Option-cases (seat_of s actor)) [
    | inl e ↦ rw e (refuses not_seated)
    | inr (seat, e) ↦ rw e (rest seat e)
  ]

  pub past_member :
      (key : Text) {go : RoomMember → Result RoomTransition}
      → ((m : RoomMember) → own_member s.members key ≡ some m → Follows s policy joins at_ms (go m))
      → Follows s policy joins at_ms (if_member s (own_member s.members key) go)
  past_member key {go} rest = elim (Option-cases (own_member s.members key)) [
    | inl e ↦ rw e (passes stale_connection)
    | inr (m, e) ↦ rw e (rest m e)
  ]

pub is_some→none {ℓ} : {A : Type ℓ} (o : Option A) → is_some o ≡ false → o ≡ none
is_some→none none h = refl
is_some→none (some a) h = cc

pub not_is_some→some {ℓ} :
    {A : Type ℓ} (o : Option A) → not (is_some o) ≡ false → (a : A) × (o ≡ some a)
not_is_some→some none h = cc
not_is_some→some (some a) h = (a, refl)

pub not_leb→ltb : (a b : ℕ) → leb a b ≡ false → ltb b a ≡ true
not_leb→ltb a b h = lt→ltb b a (not_leb→lt a b h)

pub pass_if :
    {s : RoomState} {policy : RoomPolicy} {joins : Option Text} {at_ms : ℕ} (b : Bool)
    (reason : Room.StaleReason) {r : Result RoomTransition}
    → (b ≡ false → Follows s policy joins at_ms r)
    → Follows s policy joins at_ms (if b then ok (Room.ignored s reason) else r)
pass_if b reason rest = branch b (λ _. passes reason) rest
