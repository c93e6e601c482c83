-- ===== src/Room/Spectators.antt =====
-- The limit on the spectators of a room in packages/room-core.
pub mod Counting
use tetr_d.Base.{
  ℕ, ◌+◌, ◌≤◌, ◌<◌, ◌≡◌, ◌⊎◌, inl, inr, refl, sym, ap, ◌∙◌, subst, Bool, true, false, Option, none,
  some, List, [], ◌∷◌, ◌++◌, arith, ltb, ltb→lt, Bool-cases, Option-cases, if◌then◌else◌,
}
use tetr_d.Base.Texts.{Text, same_text, same_text_refl, same_text_sound}
use tetr_d.Base.Result.{Result, ok, >>=-eq-ok, ok-injective}
use tetr_d.Room.{
  Pair, SeatIndex, seat0, seat1, RoomPolicy, RoomMember, online, offline, Members, RoomState,
  RoomEffect, state_changed, RoomTransition, committed, RoomCommand, CreateRoomInput,
}
use tetr_d.Room.Validation.{
  own_member, set_member, is_some, is_id, seat_among, at_seat, with_seat, spectator_count,
}
use tetr_d.Room.Checks.{assert_room_invariants}
use tetr_d.Room.Operations.{commit, stamped, vacated}
use tetr_d.Room.Handlers.RoomCommands.{is_free, new_member}
use tetr_d.Room.Handlers.MatchCommands.{renewed, renewed_for, renewed_as}
use tetr_d.Room.Lookup.{HasDistinctKeys, text-cases}
use tetr_d.Room.Transition.{transition_room, first_state}
use tetr_d.Room.Invariant.Seats.{is_id→≡}
use tetr_d.Room.Invariant.Parting.{of_removal}
use tetr_d.Room.Spectators.Counting.{
  is_seated, weight, watching, spectator_count-watching, KeepsSeat, watching-seats,
  watching-set_found, watching-set_le, watching-without, watching-stands,
}
use tetr_d.Room.Steps.{
  Step, watches, plays, parts, stands, sits, readies, begins_series, continues_series, cancels,
  votes_for, sets, hands_over, drops, drops_and_cancels, resumes, replaces, forfeits, starts,
  finishes, closes, Follows, refuses, passes, commits,
}
use tetr_d.Room.Steps.Commands.{transition_room-Follows}
use tetr_d.Room.Opening.{create_room-IsRoom}
use tetr_d.Room.Safety.{room_of, Reachable, opened, moved, Reachable-IsRoom}

vacated_keeps :
    (seats : Pair (Option Text)) (key other : Text)
    → same_text key other ≡ false
    → KeepsSeat seats (vacated seats (seat_among seats key)) other
unfolding is_seated
vacated_keeps seats key other apart h = elim (Bool-cases (is_id seats.left key)) [
  | inl e ↦
      let not_left : is_id seats.left other ≡ false =
        ap (λ o. is_id o other) (is_id→≡ seats.left key e) ∙ apart in
      rw e (ground (arith, h, not_left))
  | inr e ↦ elim (Bool-cases (is_id seats.right key)) [
    | inl k ↦
        let not_right : is_id seats.right other ≡ false =
          ap (λ o. is_id o other) (is_id→≡ seats.right key k) ∙ apart in
        rw (e, k) (ground (arith, h, not_right))
    | inr k ↦ rw (e, k) h
  ]
]

is_free-is_id : (o : Option Text) (key : Text) → is_free o ≡ true → is_id o key ≡ false
is_free-is_id none key h = refl
is_free-is_id (some id) key h = cc

taken_keeps :
    (seats : Pair (Option Text)) (seat : SeatIndex) (key other : Text)
    → is_free (at_seat seats seat) ≡ true
    → KeepsSeat seats (with_seat seats seat (some key)) other
unfolding is_seated
taken_keeps seats seat0 key other free h =
    let nobody = is_free-is_id seats.left other free in ground (arith, h, nobody)
taken_keeps seats seat1 key other free h =
    let nobody = is_free-is_id seats.right other free in ground (arith, h, nobody)

taken-is_seated :
    (seats : Pair (Option Text)) (seat : SeatIndex) (key : Text)
    → is_seated (with_seat seats seat (some key)) key ≡ true
unfolding is_seated
taken-is_seated seats seat0 key = rw (same_text_refl key) refl
taken-is_seated seats seat1 key = ground (arith, same_text_refl key)

vacated-is_free :
    (seats : Pair (Option Text)) (gone : Option SeatIndex) (seat : SeatIndex)
    → is_free (at_seat seats seat) ≡ true
    → is_free (at_seat (vacated seats gone) seat) ≡ true
vacated-is_free seats none seat h = h
vacated-is_free seats (some seat0) seat0 h = refl
vacated-is_free seats (some seat0) seat1 h = h
vacated-is_free seats (some seat1) seat0 h = h
vacated-is_free seats (some seat1) seat1 h = refl

sits_keeps :
    (seats : Pair (Option Text)) (seat : SeatIndex) (key : Text)
    → is_free (at_seat seats seat) ≡ true
    → (other : Text)
    → KeepsSeat seats (with_seat (vacated seats (seat_among seats key)) seat (some key)) other
sits_keeps seats seat key free other h = elim (text-cases key other) [
  | inl e ↦
      subst
        (λ k. is_seated (with_seat (vacated seats (seat_among seats key)) seat (some key)) k ≡ true)
        e (taken-is_seated (vacated seats (seat_among seats key)) seat key)
  | inr e ↦
      taken_keeps (vacated seats (seat_among seats key)) seat key other
        (vacated-is_free seats (seat_among seats key) seat free) (vacated_keeps seats key other e h)
]

renewed-watching :
    (seats : Pair (Option Text)) (ms : Members) (key : Text) (deadline : ℕ)
    → watching seats (renewed ms key deadline) ≡ watching seats ms
renewed-watching seats ms key deadline = elim (Option-cases (own_member ms key)) [
  | inl e ↦ ap (λ o. watching seats (renewed_for ms key deadline o)) e
  | inr (m, e) ↦
      ap (λ o. watching seats (renewed_for ms key deadline o)) e
      ∙ elim m.connection
          as (λ c. watching seats (renewed_as ms key deadline m c) ≡ watching seats ms) [
            | online id epoch ↦ refl
            | offline epoch old requested ↦ watching-set_found seats ms key _ m e
          ]
]

abbrev WatchersOf : RoomPolicy → RoomState → Type 0
WatchersOf policy s = watching s.seats s.members ≤ policy.max_spectators

nobody_watching : (seats : Pair (Option Text)) → watching seats [] ≡ 0
unfolding watching
nobody_watching seats = refl

below_limit :
    (s : RoomState) (limit : ℕ)
    → ltb (spectator_count s) limit ≡ true
    → watching s.seats s.members + 1 ≤ limit
below_limit s limit h =
    let lt = ltb→lt (spectator_count s) limit h in
    let same = spectator_count-watching s in omega (arith, lt, same)

set_found-limit :
    (s : RoomState) (policy : RoomPolicy) (key : Text) (m v : RoomMember)
    → own_member s.members key ≡ some v
    → WatchersOf policy s
    → watching s.seats (set_member s.members key m) ≤ policy.max_spectators
set_found-limit s policy key m v found h =
    let same = watching-set_found s.seats s.members key m v found in omega (arith, same, h)

weight_up : (b : Bool) → weight b ≤ 1
weight_up true = omega arith
weight_up false = omega arith

-- Every step of a room keeps the spectators within the limit.
Step-WatchersOf :
    {s : RoomState} {policy : RoomPolicy} {joins : Option Text} {at_ms : ℕ} {t : RoomState}
    → Step s policy joins at_ms t
    → HasDistinctKeys s.members
    → WatchersOf policy s
    → WatchersOf policy t
Step-WatchersOf {s} {policy} (watches q brings can few) distinct h =
    let more =
      watching-set_le s.seats s.members q.player.player_id (new_member q s.next_joined_ordinal) in
    let room = below_limit s policy.max_spectators few in
    let one = weight_up (is_seated s.seats q.player.player_id) in omega (arith, more, room, one)
Step-WatchersOf {s} {policy} (plays q seat brings can place free) distinct h =
    let key = q.player.player_id in
    let after = with_seat s.seats seat (some key) in
    let more = watching-set_le after s.members key (new_member q s.next_joined_ordinal) in
    let same =
      watching-seats s.seats after s.members (λ other. taken_keeps s.seats seat key other free) in
    let sits_now = ap weight (taken-is_seated s.seats seat key) in
    omega (arith, more, same, sits_now, h)
Step-WatchersOf {s} {policy} (parts key m denies found) distinct h =
    let fewer =
      watching-without s.seats (vacated s.seats (seat_among s.seats key)) s.members key
        (vacated_keeps s.seats key) in
    of_removal (WatchersOf policy) s key denies (λ host e. omega (arith, fewer, h))
      (λ host e. omega (arith, fewer, h))
Step-WatchersOf {s} {policy} (stands key m found place few) distinct h =
    let more =
      watching-stands s.seats (vacated s.seats (seat_among s.seats key)) s.members key distinct
        (vacated_keeps s.seats key) in
    let room = below_limit s policy.max_spectators few in omega (arith, more, room)
Step-WatchersOf {s} {policy} (sits key m seat found place free) distinct h =
    let fewer =
      watching-seats s.seats (with_seat (vacated s.seats (seat_among s.seats key)) seat (some key))
        s.members (sits_keeps s.seats seat key free) in
    omega (arith, fewer, h)
Step-WatchersOf (readies seat is_ready allowed linked) distinct h = h
Step-WatchersOf (begins_series origin ready votes roster l r linked e) distinct h = h
Step-WatchersOf (continues_series ready votes series l r linked e place) distinct h = h
Step-WatchersOf (cancels place) distinct h = h
Step-WatchersOf (votes_for seat accepted) distinct h = h
Step-WatchersOf (sets patch place wins few) distinct h = h
Step-WatchersOf (hands_over target linked place) distinct h = h
Step-WatchersOf {s} {policy} (drops key m id epoch deadline found was soon still) distinct h =
    set_found-limit s policy key _ m found h
Step-WatchersOf {s} {policy} (drops_and_cancels key m id epoch deadline found was soon) distinct h =
    set_found-limit s policy key _ m found h
Step-WatchersOf {s} {policy} (resumes key m id epoch deadline requested found was safe unused)
      distinct h =
    set_found-limit s policy key _ m found h
Step-WatchersOf {s} {policy} (replaces key m own id epoch found was safe unused) distinct h =
    set_found-limit s policy key _ m found h
Step-WatchersOf {s} {policy} (forfeits key m active epoch deadline requested found was e now)
      distinct h =
    set_found-limit s policy key _ m found h
Step-WatchersOf (starts match_id c roster e k l linked) distinct h = h
Step-WatchersOf {s} {policy} (finishes q active series now e k fits) distinct h =
    let deadline = q.at_ms + policy.lobby_reconnect_grace_ms in
    let first = renewed-watching s.seats s.members active.participants.left deadline in
    let second =
      renewed-watching s.seats (renewed s.members active.participants.left deadline)
        active.participants.right deadline in
    omega (arith, first, second, h)
Step-WatchersOf {s} (closes reason) distinct h =
    let nobody = nobody_watching (record { left = none; right = none }) in omega (arith, nobody)

commit-room :
    (s u : RoomState) (at_ms : ℕ) (effects : List RoomEffect) (policy : RoomPolicy) (control : Bool)
    (t : RoomTransition)
    → commit s u at_ms effects policy control ≡ ok t
    → room_of t ≡ stamped s u at_ms policy control
unfolding commit
commit-room s u at_ms effects policy control t returned =
    let next = stamped s u at_ms policy control in
    let (done, passed, end) =
      >>=-eq-ok (assert_room_invariants next)
        (λ _.
          ok (committed next (effects ++ state_changed next.revision next.presence_sequence ∷ [])))
        returned in
    ap room_of (sym (ok-injective end))

Follows-WatchersOf :
    {s : RoomState} {policy : RoomPolicy} {joins : Option Text} {at_ms : ℕ}
    {r : Result RoomTransition}
    → Follows s policy joins at_ms r
    → (t : RoomTransition) → r ≡ ok t
    → HasDistinctKeys s.members
    → WatchersOf policy s
    → WatchersOf policy (room_of t)
Follows-WatchersOf {policy = policy} (refuses code) t e distinct h =
    subst (λ v. WatchersOf policy (room_of v)) (ok-injective e) h
Follows-WatchersOf {policy = policy} (passes reason) t e distinct h =
    subst (λ v. WatchersOf policy (room_of v)) (ok-injective e) h
Follows-WatchersOf {s} {policy} {joins} {at_ms} (commits u effects control step) t e distinct h =
    subst (WatchersOf policy) (sym (commit-room s u at_ms effects policy control t e))
      (Step-WatchersOf step distinct h)

first-watching :
    (q : CreateRoomInput) (policy : RoomPolicy)
    → watching (first_state q policy).seats (first_state q policy).members ≡ 0
unfolding watching is_seated
first-watching q policy = rw (same_text_refl q.creator.player_id) refl

reached-WatchersOf :
    {policy : RoomPolicy} {s : RoomState} → Reachable policy s → WatchersOf policy s
reached-WatchersOf {policy} (opened q s can made) =
    let (first, order) = create_room-IsRoom q policy can in
    let none_yet = first-watching q policy in
    subst (WatchersOf policy) (ok-injective (sym first ∙ made)) (omega (arith, none_yet))
reached-WatchersOf {policy} (moved s c t before fits made) =
    Follows-WatchersOf (transition_room-Follows s c policy) t made
      (Reachable-IsRoom before).members_order.members_fit.keys (reached-WatchersOf before)

-- In every room that creation and admissible commands lead to, no more members are without a seat
-- than the policy allows spectators.
pub Reachable-spectator_count :
    {policy : RoomPolicy} (s : RoomState)
    → Reachable policy s
    → spectator_count s ≤ policy.max_spectators
Reachable-spectator_count s r =
    let same = spectator_count-watching s in
    let few = reached-WatchersOf r in omega (arith, same, few)
