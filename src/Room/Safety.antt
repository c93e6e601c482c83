-- ===== src/Room/Safety.antt =====
-- The rooms that packages/room-core can reach pass their assertions, and no command throws on them.
use tetr_d.Base.{
  ℕ, ◌+◌, ◌≤◌, ◌≡◌, ◌⊎◌, inl, inr, refl, sym, ap, ◌∙◌, subst, Bool, Option, none, some, List, [],
  ◌∷◌, ◌++◌, arith,
}
use tetr_d.Base.Texts.{Text}
use tetr_d.Base.Result.{Result, ok, ok-injective, ◌>>◌}
use tetr_d.Board.{max_safe_integer}
use tetr_d.Room
use tetr_d.Room.{
  RoomPolicy, RoomMember, online, RoomState, CreateRoomInput, RoomEffect, state_changed,
  RoomTransition, committed, rejected, ignored, RoomCommand, RoomPhase, lobby, in_countdown,
  playing, between_games, series_complete, closed, Pair, RoomSeries,
}
use tetr_d.Room.Validation.{
  safe_id, is_valid_player, is_target_wins, is_valid_policy, own_member, roster_among,
}
use tetr_d.Room.Checks.{assert_room_invariants}
use tetr_d.Room.Operations.{commit, stamped}
use tetr_d.Room.Transition.{create_room, transition_room, time_of}
use tetr_d.Room.Invariant.Membership.{Step-MembersOf, JoinsNew}
use tetr_d.Room.Invariant.Seats.{Step-SeatsOf}
use tetr_d.Room.Invariant.Hosts.{Step-HostOf}
use tetr_d.Room.Invariant.Readies.{Step-ReadyOf}
use tetr_d.Room.Invariant.Denials.{Step-DeniedOf}
use tetr_d.Room.Invariant.Series.{Step-SeriesOf}
use tetr_d.Room.Invariant.Phases.{Stage, IsShape, HasPlayers, stage}
use tetr_d.Room.Invariant.Turns.{Step-PhaseOf}
use tetr_d.Room.Invariant.Checked.{Facts}
use tetr_d.Room.Invariant.Asserted.{IsRoom, IsRoom-passes}
use tetr_d.Room.Opening.{IsCreatable, create_room-IsRoom}
use tetr_d.Room.Commits.{IsSame, Step-IsSame, expiry_for-bound, revision_low, revision_high}
use tetr_d.Room.Steps.{Step, Follows, refuses, passes, commits}
use tetr_d.Room.Steps.Commands.{joining, transition_room-Follows}

-- The room in a transition.
abbrev pub room_of : RoomTransition → RoomState
room_of (committed t effects) = t
room_of (rejected t code revision) = t
room_of (ignored t reason) = t

-- What a command must respect: one commit is left below the largest safe integer, its time and the
-- deadlines after it are safe integers, and a player joins with a connection ID not in use.
pub record IsAdmissible (s : RoomState) (c : RoomCommand) (policy : RoomPolicy) : Type 0 where
  pub commit_left : s.presence_sequence + 1 ≤ max_safe_integer
  pub deadlines_safe :
      time_of c + policy.match_reconnect_grace_ms + policy.lobby_reconnect_grace_ms
      ≤ max_safe_integer
  pub new_connection : JoinsNew s.members (joining c)

stamped-Facts :
    (s u : RoomState) (at_ms : ℕ) (policy : RoomPolicy) (control : Bool)
    → IsSame s u
    → s.presence_sequence + 1 ≤ max_safe_integer
    → at_ms ≤ max_safe_integer
    → Facts s
    → Facts (stamped s u at_ms policy control)
stamped-Facts s u at_ms policy control (id, code, created, limit) left soon f =
    let next = stamped s u at_ms policy control in
    let low = revision_low s.revision control in
    let high = revision_high s.revision control in
    let a = f.revised in
    let b = f.revision_low in
    let c = f.updated_safe in
    let d = f.limit_safe in
    let e = f.created_first in
    let g = f.created_before in
    let bound = expiry_for-bound u next.updated_at_ms policy in
    record {
      named = ap safe_id id ∙ f.named;
      coded = ap Room.Validation.room_code_test code ∙ f.coded;
      revised = omega (arith, a, low);
      revision_low = omega (arith, b, high);
      sequence_safe = left;
      updated_safe = omega (arith, c, soon);
      expiry_safe = omega (arith, bound, c, soon, d, limit);
      limit_safe = omega (arith, d, limit);
      created_first = omega (arith, e, created);
      created_before = omega (arith, g, created, limit);
    }

-- A step that is committed.
pub stamped-IsRoom :
    {s : RoomState} {policy : RoomPolicy} {joins : Option Text} {at_ms : ℕ} {u : RoomState}
    → Step s policy joins at_ms u
    → (control : Bool) → s.presence_sequence + 1 ≤ max_safe_integer
    → at_ms + policy.match_reconnect_grace_ms + policy.lobby_reconnect_grace_ms ≤ max_safe_integer
    → JoinsNew s.members joins
    → IsRoom s
    → IsRoom (stamped s u at_ms policy control)
stamped-IsRoom {s} {policy} {joins} {at_ms} {u} step control left soon new h =
    let order = h.members_order in
    let members = Step-MembersOf step s.presence_sequence new soon order in
    let phase = Step-PhaseOf step h.phase_order in
    record {
      facts =
          stamped-Facts s u at_ms policy control (Step-IsSame step) left (omega (arith, soon))
            h.facts;
      members_order = record {
        members_fit = members.members_fit;
        few_ordinals = members.few_ordinals;
        some_ordinal = members.some_ordinal;
      };
      seats_order = Step-SeatsOf step h.seats_order;
      host_order =
          Step-HostOf step order.members_fit.keys
            (λ key m found. (order.members_fit.each key m found).own_key) h.host_order;
      ready_order = Step-ReadyOf step h.seats_order h.ready_order;
      denied_order = Step-DeniedOf step order.members_fit h.denied_order;
      series_order = Step-SeriesOf step h.seats_order h.series_order;
      phase_order = record { shape = phase.shape; emptiness = phase.emptiness };
    }

pub commit-passes :
    (s u : RoomState) (at_ms : ℕ) (effects : List RoomEffect) (policy : RoomPolicy) (control : Bool)
    → assert_room_invariants (stamped s u at_ms policy control) ≡ ok tt
    → commit s u at_ms effects policy control
      ≡ ok (
          committed (stamped s u at_ms policy control) (
            effects
            ++ state_changed (stamped s u at_ms policy control).revision (s.presence_sequence + 1)
              ∷ []))
unfolding commit
commit-passes s u at_ms effects policy control passed =
    ap
      (λ r.
        r
        >> ok (
            committed (stamped s u at_ms policy control) (
              effects
              ++ state_changed (stamped s u at_ms policy control).revision (s.presence_sequence + 1)
                ∷ [])))
      passed

Follows-IsRoom :
    {s : RoomState} {policy : RoomPolicy} {joins : Option Text} {at_ms : ℕ}
    {r : Result RoomTransition}
    → Follows s policy joins at_ms r
    → s.presence_sequence + 1 ≤ max_safe_integer
    → at_ms + policy.match_reconnect_grace_ms + policy.lobby_reconnect_grace_ms ≤ max_safe_integer
    → JoinsNew s.members joins
    → IsRoom s
    → (t : RoomTransition) × (r ≡ ok t) × IsRoom (room_of t)
Follows-IsRoom (refuses code) left soon new h = (_, refl, h)
Follows-IsRoom (passes reason) left soon new h = (_, refl, h)
Follows-IsRoom {s} {policy} {joins} {at_ms} (commits u effects control step) left soon new h =
    let next = stamped s u at_ms policy control in
    let after = stamped-IsRoom step control left soon new h in
    (
      committed next (effects ++ state_changed next.revision next.presence_sequence ∷ []),
      commit-passes s u at_ms effects policy control (IsRoom-passes next after),
      after,
    )

-- On a room in order, with all that `assertRoomInvariants` asks and the players of a series in its
-- seats, no command throws while one more commit keeps the sequence number a safe integer, the
-- deadlines after the command's time are safe integers, and a player joins with a connection ID not
-- in use: it comes to a transition, and the room of that transition is in order again.
pub transition_room-IsRoom :
    (s : RoomState) (c : RoomCommand) (policy : RoomPolicy)
    → IsRoom s
    → IsAdmissible s c policy
    → (t : RoomTransition) × (transition_room s c policy ≡ ok t) × IsRoom (room_of t)
transition_room-IsRoom s c policy h a =
    Follows-IsRoom (transition_room-Follows s c policy) a.commit_left a.deadlines_safe
      a.new_connection h

-- The rooms that creation and the transitions of admissible commands lead to.
pub data Reachable (policy : RoomPolicy) : RoomState → Type 0 where
  opened :
      (q : CreateRoomInput) (s : RoomState)
      → IsCreatable q policy
      → create_room q policy ≡ ok s
      → Reachable policy s
  moved :
      (s : RoomState) (c : RoomCommand) (t : RoomTransition)
      → Reachable policy s
      → IsAdmissible s c policy
      → transition_room s c policy ≡ ok t
      → Reachable policy (room_of t)

pub Reachable-IsRoom : {policy : RoomPolicy} {s : RoomState} → Reachable policy s → IsRoom s
Reachable-IsRoom {policy} (opened q s can made) =
    let (first, order) = create_room-IsRoom q policy can in
    subst IsRoom (ok-injective (sym first ∙ made)) order
Reachable-IsRoom {policy} (moved s c t before fits made) =
    let (u, done, order) = transition_room-IsRoom s c policy (Reachable-IsRoom before) fits in
    subst (λ v. IsRoom (room_of v)) (ok-injective (sym done ∙ made)) order

-- Between the games of a series and in a game, nobody but the two players of the series sits, each
-- in the seat that the series gives: in every room that a valid creation and commands lead to, each
-- within the bounds on sequence number, time and connection ID.
pub Reachable-roster :
    {policy : RoomPolicy} (s : RoomState)
    → Reachable policy s
    → (s.phase ≡ playing) ⊎ (s.phase ≡ between_games)
    → (r : RoomSeries) × (s.series ≡ some r)
      × (s.seats.left ≡ some r.roster.left)
      × (s.seats.right ≡ some r.roster.right)
Reachable-roster s reached during =
    let (r, series, seated) =
      shape-HasPlayers s.phase (stage s) s.ready during
        (Reachable-IsRoom reached).phase_order.shape in
    let (left, right) = roster_among-some s.seats.left s.seats.right r.roster seated in
    (r, series, left, right)
  where
    shape-HasPlayers :
        (p : RoomPhase) (g : Stage) (ready : Pair Bool)
        → (p ≡ playing) ⊎ (p ≡ between_games)
        → IsShape p g ready
        → HasPlayers g.series g.seated
    shape-HasPlayers playing g ready during h = let (_, _, _, _, players, _) = h in players
    shape-HasPlayers between_games g ready during h = let (_, _, _, _, players) = h in players
    shape-HasPlayers lobby g ready (inl e) h = cc
    shape-HasPlayers lobby g ready (inr e) h = cc
    shape-HasPlayers in_countdown g ready (inl e) h = cc
    shape-HasPlayers in_countdown g ready (inr e) h = cc
    shape-HasPlayers series_complete g ready (inl e) h = cc
    shape-HasPlayers series_complete g ready (inr e) h = cc
    shape-HasPlayers closed g ready (inl e) h = cc
    shape-HasPlayers closed g ready (inr e) h = cc

    roster_among-some :
        (a b : Option Text) (roster : Pair Text)
        → roster_among a b ≡ some roster
        → (a ≡ some roster.left) × (b ≡ some roster.right)
    roster_among-some none b roster h = cc
    roster_among-some (some a) none roster h = cc
    roster_among-some (some a) (some b) roster h =
        let either : (f : Pair Text → Text) → f (record { left = a; right = b }) ≡ f roster =
          λ f. ap (λ o. elim o [ none ↦ a | some r ↦ f r ]) h in
        (ap some (either (λ r. r.left)), ap some (either (λ r. r.right)))
