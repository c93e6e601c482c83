-- ===== src/Room/Operations.antt =====
-- packages/room-core/src/operations.ts: how a command is committed or refused, and the steps that
-- the handlers share.
use tetr_d.Base.{
  ℕ, ◌+◌, ◌-◌, Bool, true, false, not, ◌&&◌, Option, none, some, List, [], ◌∷◌, ◌++◌, length, drop,
  min, max, ◌==◌, if◌then◌else◌,
}
use tetr_d.Base.Texts.{Text, includes_text, decimal}
use tetr_d.Base.Result.{Result, ok, err, plain_error, ◌>>=◌, ◌>>◌}
use tetr_d.Room.{
  Pair, SeatIndex, seat0, seat1, RoomPhase, lobby, in_countdown, playing, between_games,
  series_complete, closed, RoomPolicy, CountdownOrigin, from_lobby, from_between_games,
  from_series_complete, RoomCountdown, RoomSeries, RoomClosedReason, draft, locked, RoomState,
  RoomErrorCode, revision_conflict, not_in_room, not_connected, not_host, CancelReason,
  roster_changed, RoomEffect, state_changed, countdown_schedule, countdown_cancel, StaleReason,
  RoomTransition, committed, rejected, ignored,
}
use tetr_d.Room.Validation.{
  own_member, connected, is_id, is_some, seat_of, roster_of, without_member, choose_host,
}
use tetr_d.Room.Checks.{assert_room_invariants, any_online, is_closed, max_denied_player_ids}

-- The time to live, `none` for the absolute limit alone.
abbrev pub ttl_for : RoomPhase → Bool → RoomPolicy → Option ℕ
ttl_for phase false policy = some policy.empty_ttl_ms
ttl_for series_complete true policy = some policy.series_complete_ttl_ms
ttl_for playing true policy = none
ttl_for _ true policy = some policy.lobby_idle_ttl_ms

abbrev pub expiry_by : ℕ → ℕ → Option ℕ → ℕ
expiry_by absolute now none = absolute
expiry_by absolute now (some ttl) = min absolute (now + ttl)

unfoldable pub expiry_for : RoomState → ℕ → RoomPolicy → ℕ
expiry_for s now policy =
    if is_closed s.phase
    then now
    else expiry_by s.absolute_expires_at_ms now (ttl_for s.phase (any_online s.members) policy)

-- The proposed state with the counters and times of its commit.
abbrev pub stamped : RoomState → RoomState → ℕ → RoomPolicy → Bool → RoomState
stamped previous proposed at_ms policy control_revision =
    let now = max previous.updated_at_ms at_ms in
    record proposed {
      revision = previous.revision + (if control_revision then 1 else 0);
      presence_sequence = previous.presence_sequence + 1;
      updated_at_ms = now;
      expires_at_ms = expiry_for proposed now policy;
    }

unfoldable pub commit :
    RoomState → RoomState → ℕ → List RoomEffect → RoomPolicy → Bool → Result RoomTransition
commit previous proposed at_ms effects policy control_revision =
    let s = stamped previous proposed at_ms policy control_revision in
    assert_room_invariants s
    >> ok (committed s (effects ++ state_changed s.revision s.presence_sequence ∷ []))

abbrev pub reject : RoomState → RoomErrorCode → RoomTransition
reject s code = rejected s code s.revision

abbrev pub ignore : RoomState → StaleReason → RoomTransition
ignore s reason = ignored s reason

abbrev pub version_error : RoomState → ℕ → Option RoomTransition
version_error s expected =
    if expected == s.revision then none else some (reject s revision_conflict)

abbrev pub actor_error : RoomState → Text → Option RoomTransition
actor_error s actor =
    if not (is_some (own_member s.members actor))
    then some (reject s not_in_room)
    else if not (connected (own_member s.members actor))
    then some (reject s not_connected)
    else none

abbrev pub host_error : RoomState → Text → Option RoomTransition
host_error s actor = elim (actor_error s actor) [
  | some t ↦ some t
  | none ↦ if is_id s.host_player_id actor then none else some (reject s not_host)
]

abbrev cancel_effect : Option RoomCountdown → CancelReason → List RoomEffect
cancel_effect none reason = []
cancel_effect (some c) reason = countdown_cancel c.countdown_id reason ∷ []

abbrev pub countdown_cancel_effect : RoomState → CancelReason → List RoomEffect
countdown_cancel_effect s reason = cancel_effect s.countdown reason

abbrev pub neither : Pair Bool
neither = record { left = false; right = false }

abbrev pub reset_competition : RoomState → RoomState
reset_competition s = record s {
  phase = lobby;
  ready = neither;
  rematch_votes = neither;
  rules_status = draft;
  countdown = none;
  series = none;
  active_match = none;
}

abbrev pub began_between_games : Option RoomCountdown → Bool
began_between_games none = false
began_between_games (some c) = elim c.origin [
  | from_between_games ↦ true
  | from_lobby ↦ false
  | from_series_complete ↦ false
]

abbrev pub is_unfinished : Option RoomSeries → Bool
is_unfinished none = false
is_unfinished (some r) = not r.completed

abbrev pub returns_between_games : RoomState → Bool
returns_between_games s = began_between_games s.countdown && is_unfinished s.series

-- The state of `cancelCountdown`; its effects are `countdown_cancel_effect`.
abbrev pub cancel_countdown : RoomState → RoomState
cancel_countdown s =
    let back = returns_between_games s in
    record s {
      phase = if back then between_games else lobby;
      ready = neither;
      rematch_votes = neither;
      rules_status = if back then locked else draft;
      countdown = none;
      series = if back then s.series else none;
      active_match = none;
    }

-- `:series:`
abbrev series_tag : Text
series_tag = 58 ∷ 115 ∷ 101 ∷ 114 ∷ 105 ∷ 101 ∷ 115 ∷ 58 ∷ []

abbrev pub series_for : RoomState → Pair Text → RoomSeries
series_for s roster = record {
  series_id = s.room_id ++ series_tag ++ decimal s.next_series_number;
  roster = roster;
  target_wins = s.settings.target_wins;
  wins = record { left = 0; right = 0 };
  games_played = 0;
  completed = false;
  winner_player_id = none;
}

abbrev pub series_or_throw : RoomState → Option (Pair Text) → Result RoomSeries
series_or_throw s none = err plain_error
series_or_throw s (some roster) = ok (series_for s roster)

abbrev create_series : RoomState → Result RoomSeries
create_series s = series_or_throw s (roster_of s)

-- The countdown of a series; `series_number` is the number for the next series after it.
abbrev pub counting_down : RoomState → ℕ → CountdownOrigin → RoomPolicy → RoomSeries → ℕ → RoomState
counting_down s at_ms origin policy series series_number = record s {
  phase = in_countdown;
  rules_status = locked;
  countdown = some (record {
    countdown_id = s.next_countdown_number;
    starts_at_ms = at_ms + policy.countdown_ms;
    origin = origin;
    game_number = series.games_played + 1;
  });
  series = some series;
  active_match = none;
  rematch_votes = neither;
  next_countdown_number = s.next_countdown_number + 1;
  next_series_number = series_number;
}

abbrev pub fresh_countdown : RoomState → ℕ → CountdownOrigin → RoomPolicy → Result RoomState
fresh_countdown s at_ms origin policy = create_series s >>= λ series.
    ok (counting_down s at_ms origin policy series (s.next_series_number + 1))

abbrev pub continued_or_fresh : RoomState → ℕ → RoomPolicy → Option RoomSeries → Result RoomState
continued_or_fresh s at_ms policy (some series) =
    ok (counting_down s at_ms from_between_games policy series s.next_series_number)
continued_or_fresh s at_ms policy none = fresh_countdown s at_ms from_between_games policy

-- The state of `beginCountdown`.
abbrev pub begin_countdown : RoomState → ℕ → CountdownOrigin → RoomPolicy → Result RoomState
begin_countdown s at_ms from_between_games policy = continued_or_fresh s at_ms policy s.series
begin_countdown s at_ms from_lobby policy = fresh_countdown s at_ms from_lobby policy
begin_countdown s at_ms from_series_complete policy =
    fresh_countdown s at_ms from_series_complete policy

-- The effects of `beginCountdown`.
abbrev pub countdown_effects : RoomState → ℕ → RoomPolicy → List RoomEffect
countdown_effects s at_ms policy =
    countdown_schedule s.next_countdown_number (at_ms + policy.countdown_ms) ∷ []

-- `texts.slice(-MAX_DENIED_PLAYER_IDS)`
abbrev pub last_denied : List Text → List Text
last_denied ids = drop (length ids - max_denied_player_ids) ids

abbrev pub vacated : Pair (Option Text) → Option SeatIndex → Pair (Option Text)
vacated seats none = seats
vacated seats (some seat0) = record seats { left = none }
vacated seats (some seat1) = record seats { right = none }

abbrev pub unlisted : RoomState → Text → Bool → RoomState
unlisted s key deny = record s {
  members = without_member s.members key;
  seats = vacated s.seats (seat_of s key);
  denied_player_ids =
      if deny && not (includes_text s.denied_player_ids key)
      then last_denied (s.denied_player_ids ++ key ∷ [])
      else s.denied_player_ids;
}

-- The state of `removeMemberState`.
abbrev pub remove_member_state : RoomState → Text → Bool → RoomState
remove_member_state s key deny =
    let listed = unlisted s key deny in
    let proposed = if is_some (seat_of s key) then reset_competition listed else listed in
    if is_id s.host_player_id key
    then record proposed { host_player_id = choose_host proposed }
    else proposed

-- The effects of `removeMemberState`.
abbrev pub removal_effects : RoomState → Text → List RoomEffect
removal_effects s key =
    if is_some (seat_of s key) then countdown_cancel_effect s roster_changed else []

abbrev pub close_state : RoomState → RoomClosedReason → RoomState
close_state s reason = record s {
  phase = closed;
  members = [];
  seats = record { left = none; right = none };
  host_player_id = none;
  ready = neither;
  rematch_votes = neither;
  rules_status = draft;
  countdown = none;
  series = none;
  active_match = none;
  closed_reason = some reason;
}
