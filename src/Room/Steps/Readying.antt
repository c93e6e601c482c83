-- ===== src/Room/Steps/Readying.antt =====
-- The handlers of packages/room-core/src/handlers/roomCommands.ts follow the step relation: who is
-- ready, or votes for a rematch.
use tetr_d.Base.{
  ℕ, ◌+◌, ◌≡◌, inl, inr, refl, ap, sym, subst, ◌∙◌, Bool, true, not, ◌&&◌, Option, none, some, List,
  arith, Bool-cases, Option-cases,
}
use tetr_d.Base.Texts.{Text, same_text_sound}
use tetr_d.Base.Result.{Result, ok, ◌>>=◌}
use tetr_d.Room.{
  RoomPolicy, Pair, SeatIndex, seat0, seat1, RoomMember, RoomPhase, RoomState, JoinRequest,
  as_player, as_spectator, Participation, VersionedRequest, CountdownOrigin, from_lobby,
  from_between_games, from_series_complete, lobby, in_countdown, playing, between_games,
  series_complete, closed, RoomEffect, RoomSettingsPatch, RoomTransition,
}
use tetr_d.Room
use tetr_d.Room.Validation.{
  own_member, connected, is_id, seat_of, at_seat, seat_among, roster_among, with_seat,
}
use tetr_d.Room.Checks.{is_closed, connected_id, same_flag}
use tetr_d.Room.Operations.{
  commit, begin_countdown, fresh_countdown, series_or_throw, counting_down, continued_or_fresh,
}
use tetr_d.Room.Handlers.RoomCommands.{
  set_ready, ready_in, change_ready, all_connected, is_series_complete, is_finished_series, vote,
  rematch,
}
use tetr_d.Room.Steps.{
  allows_ready, readies, begins_series, continues_series, cancels, votes_for, Follows, refuses,
  commits,
}
use tetr_d.Room.Steps.Walk.{branch, refuse_if, past_version, past_actor, past_seat}

both_seated :
    (s : RoomState) (left right : Option Text)
    → (connected_id s.members left && connected_id s.members right) ≡ true
    → (roster : Pair Text) × (roster_among left right ≡ some roster)
both_seated s none right h = cc
both_seated s (some a) none h = absurd (ground arith)
both_seated s (some a) (some b) h = (_, refl)

lobby_origin : from_lobby ≡ from_between_games → ⊥
lobby_origin h = cc

complete_origin : from_series_complete ≡ from_between_games → ⊥
complete_origin h = cc

-- A handler that begins a countdown commits it, of a new series or of the one that goes on.
begins-Follows :
    {joins : Option Text} (s : RoomState) (policy : RoomPolicy) (at_ms : ℕ)
    (origin : CountdownOrigin) (ready votes : Pair Bool) (effects : List RoomEffect)
    → ready.left ≡ true
    → ready.right ≡ true
    → all_connected s ≡ true
    → (origin ≡ from_between_games → s.phase ≡ between_games)
    → Follows s policy joins at_ms (
        begin_countdown (record s { ready = ready; rematch_votes = votes }) at_ms origin policy
        >>= λ t. commit s t at_ms effects policy true)
begins-Follows {joins = joins} s policy at_ms origin ready votes effects left right linked place =
    let proposed : RoomState = record s { ready = ready; rematch_votes = votes } in
    let next : Result RoomState → Result RoomTransition =
      λ r. r >>= λ t. commit s t at_ms effects policy true in
    let go : Result RoomState → Type 0 = λ r. Follows s policy joins at_ms (next r) in
    let (roster, e) = both_seated s s.seats.left s.seats.right linked in
    let starts : (o : CountdownOrigin) → go (fresh_countdown proposed at_ms o policy) = λ o.
      subst
        (λ r. go (
          series_or_throw proposed r >>= λ series.
          ok (counting_down proposed at_ms o policy series (s.next_series_number + 1))))
        (sym e) (commits _ effects true (begins_series o ready votes roster left right linked e)) in
    elim origin
        as (λ o.
          (o ≡ from_between_games → s.phase ≡ between_games)
          → go (begin_countdown proposed at_ms o policy)) [
            | from_lobby ↦ λ _. starts from_lobby
            | from_series_complete ↦ λ _. starts from_series_complete
            | from_between_games ↦ λ here. elim (Option-cases s.series) [
              | inl is_none ↦
                  subst (λ o. go (continued_or_fresh proposed at_ms policy o)) (sym is_none)
                    (starts from_between_games)
              | inr (series, is_series) ↦
                  subst (λ o. go (continued_or_fresh proposed at_ms policy o)) (sym is_series)
                    (commits _ effects true
                      (continues_series ready votes series left right linked is_series (here refl)))
            ]
          ]
      place

is_id→≡ : (o : Option Text) (key : Text) → is_id o key ≡ true → o ≡ some key
is_id→≡ none key h = cc
is_id→≡ (some id) key h = ap some (same_text_sound id key h)

-- The one who asks is connected and sits there.
seat_among-at :
    (seats : Pair (Option Text)) (key : Text) (seat : SeatIndex)
    → seat_among seats key ≡ some seat
    → at_seat seats seat ≡ some key
seat_among-at seats key seat h = elim (Bool-cases (is_id seats.left key)) [
  | inl e ↦ ground (arith, is_id→≡ seats.left key e)
  | inr e ↦ elim (Bool-cases (is_id seats.right key)) [
    | inl k ↦ ground (arith, is_id→≡ seats.right key k)
    | inr k ↦ ground arith
  ]
]

connected_at :
    (s : RoomState) (actor : Text) (m : RoomMember) (seat : SeatIndex)
    → own_member s.members actor ≡ some m
    → connected (some m) ≡ true
    → seat_of s actor ≡ some seat
    → connected_id s.members (at_seat s.seats seat) ≡ true
connected_at s actor m seat found linked sits_there =
    ap (connected_id s.members) (seat_among-at s.seats actor seat sits_there)
    ∙ ap connected found
    ∙ linked

with_seat-both :
    (flags : Pair Bool) (seat : SeatIndex) (v : Bool) (linked : Bool)
    → ((with_seat flags seat v).left && (with_seat flags seat v).right && linked) ≡ true
    → ((with_seat flags seat v).left ≡ true)
      × ((with_seat flags seat v).right ≡ true)
      × (linked ≡ true)
with_seat-both flags seat0 v linked h = ground arith
with_seat-both flags seat1 v linked h = ground arith

change_ready-Follows :
    {joins : Option Text} (s : RoomState) (policy : RoomPolicy) (q : VersionedRequest)
    (is_ready : Bool) (seat : SeatIndex) (origin : CountdownOrigin)
    → connected_id s.members (at_seat s.seats seat) ≡ true
    → (origin ≡ from_between_games → s.phase ≡ between_games)
    → allows_ready s.phase ≡ true
    → Follows s policy joins q.at_ms (change_ready s policy q is_ready seat origin)
change_ready-Follows s policy q is_ready seat origin linked place allowed =
    refuse_if (same_flag (at_seat s.ready seat) is_ready) _ (λ h.
      branch
        ((with_seat s.ready seat is_ready).left
          && (with_seat s.ready seat is_ready).right
          && all_connected s)
        (λ b.
          begins-Follows s policy q.at_ms origin (with_seat s.ready seat is_ready) s.rematch_votes _
            (ground arith) (ground arith) (ground arith) place)
        (λ b. commits _ _ true (readies seat is_ready allowed linked)))

ready_in-Follows :
    (p : RoomPhase) {joins : Option Text} (s : RoomState) (policy : RoomPolicy)
    (q : VersionedRequest) (is_ready : Bool) (seat : SeatIndex)
    → s.phase ≡ p
    → connected_id s.members (at_seat s.seats seat) ≡ true
    → Follows s policy joins q.at_ms (ready_in p s policy q is_ready seat)
ready_in-Follows lobby s policy q is_ready seat e linked =
    change_ready-Follows s policy q is_ready seat from_lobby linked (λ h. absurd (lobby_origin h))
      (ap allows_ready e)
ready_in-Follows between_games s policy q is_ready seat e linked =
    change_ready-Follows s policy q is_ready seat from_between_games linked (λ h. e)
      (ap allows_ready e)
ready_in-Follows in_countdown s policy q is_ready seat e linked =
    refuse_if (is_ready) _ (λ h. commits _ _ true (cancels (ap is_closed e)))
ready_in-Follows playing s policy q is_ready seat e linked = refuses Room.invalid_room_phase
ready_in-Follows series_complete s policy q is_ready seat e linked = refuses Room.invalid_room_phase
ready_in-Follows closed s policy q is_ready seat e linked = refuses Room.invalid_room_phase

pub set_ready-Follows :
    {joins : Option Text} (s : RoomState) (policy : RoomPolicy) (q : VersionedRequest)
    (is_ready : Bool)
    → Follows s policy joins q.at_ms (set_ready s policy q is_ready)
unfolding set_ready
set_ready-Follows s policy q is_ready = past_version q.expected_revision (
    past_actor q.actor_player_id (λ m found c. past_seat q.actor_player_id (λ seat here.
      ready_in-Follows s.phase s policy q is_ready seat refl
        (connected_at s q.actor_player_id m seat found c here))))

vote-Follows :
    {joins : Option Text} (s : RoomState) (policy : RoomPolicy) (q : VersionedRequest)
    (accepted : Bool) (seat : SeatIndex)
    → Follows s policy joins q.at_ms (vote s policy q accepted seat)
vote-Follows s policy q accepted seat =
    refuse_if (not (is_series_complete s.phase && is_finished_series s.series)) _ (λ h.
      refuse_if (same_flag (at_seat s.rematch_votes seat) accepted) _ (λ h2.
        branch
          ((with_seat s.rematch_votes seat accepted).left
            && (with_seat s.rematch_votes seat accepted).right
            && all_connected s)
          (λ b.
            begins-Follows s policy q.at_ms from_series_complete
              (record { left = true; right = true }) (with_seat s.rematch_votes seat accepted) _
              refl refl (with_seat-both s.rematch_votes seat accepted (all_connected s) b).2
              (λ h. absurd (complete_origin h)))
          (λ b. commits _ _ true (votes_for seat accepted))))

pub rematch-Follows :
    {joins : Option Text} (s : RoomState) (policy : RoomPolicy) (q : VersionedRequest)
    (accepted : Bool)
    → Follows s policy joins q.at_ms (rematch s policy q accepted)
unfolding rematch
rematch-Follows s policy q accepted = past_version q.expected_revision (
    past_actor q.actor_player_id (λ m found c.
      past_seat q.actor_player_id (λ seat here. vote-Follows s policy q accepted seat)))
