-- ===== src/Room/Handlers/MatchCommands.antt =====
-- packages/room-core/src/handlers/matchCommands.ts: the start and the end of a game.
use tetr_d.Base.{
  ℕ, ◌+◌, Bool, true, false, not, ◌&&◌, ◌||◌, Option, none, some, List, [], ◌∷◌, ◌++◌, ltb, leb,
  ◌==◌, if◌then◌else◌,
}
use tetr_d.Base.Texts.{Text, same_text}
use tetr_d.Base.Result.{Result}
use tetr_d.Board.{max_safe_integer}
use tetr_d.Room.{
  Pair, playing, between_games, series_complete, RoomPolicy, online, offline, RoomConnection,
  RoomMember, Members, RoomCountdown, RoomSeries, ActiveRoomMatch, draft, locked, RoomState,
  MatchResult, FinishReason, topout, forfeit, disconnect_timeout, simultaneous_topout, draw,
  roster_changed, RoomEffect, match_start, member_reconnect_deadline, stale_timer, stale_match,
  RoomTransition, invalid_command,
}
use tetr_d.Room.Validation.{safe_id, own_member, connected, is_some, roster_of, set_member}
use tetr_d.Room.Checks.{has_won}
use tetr_d.Room.Operations.{commit, cancel_countdown, countdown_cancel_effect, neither}
use tetr_d.Room.Handlers.{refuse, pass_over}
use tetr_d.Room.Handlers.PresenceCommands.{is_in_countdown}
use tetr_d.Room.Handlers.RoomCommands.{is_playing}

abbrev pub in_match : RoomState → Text → ℕ → ℕ → Pair Text → RoomState
in_match s match_id game_number at_ms roster = record s {
  phase = playing;
  ready = neither;
  countdown = none;
  active_match = some (record {
    match_id = match_id;
    game_number = game_number;
    participants = roster;
    started_at_ms = at_ms;
    resolution_requested = false;
  });
}

abbrev commit_match :
    RoomState
    → RoomPolicy
    → Text
    → ℕ
    → RoomCountdown
    → Pair Text
    → RoomSeries
    → Result RoomTransition
commit_match s policy match_id at_ms c roster series =
    commit s (in_match s match_id c.game_number at_ms roster) at_ms
      (match_start match_id series.series_id c.game_number roster ∷ []) policy true

abbrev commit_cancelled : RoomState → RoomPolicy → ℕ → Result RoomTransition
commit_cancelled s policy at_ms =
    commit s (cancel_countdown s) at_ms (countdown_cancel_effect s roster_changed) policy true

abbrev pub both_connected : Members → Pair Text → Bool
both_connected members roster =
    connected (own_member members roster.left) && connected (own_member members roster.right)

-- The roster and the series are there and ready, or the countdown is cancelled.
abbrev pub start_or_cancel :
    RoomState
    → RoomPolicy
    → Text
    → ℕ
    → RoomCountdown
    → Option (Pair Text)
    → Option RoomSeries
    → Result RoomTransition
start_or_cancel s policy match_id at_ms c (some roster) (some series) =
    if not s.ready.left || not s.ready.right || not (both_connected s.members roster)
    then commit_cancelled s policy at_ms
    else if not (safe_id match_id)
    then refuse s invalid_command
    else commit_match s policy match_id at_ms c roster series
start_or_cancel s policy match_id at_ms c none series = commit_cancelled s policy at_ms
start_or_cancel s policy match_id at_ms c (some roster) none = commit_cancelled s policy at_ms

abbrev pub counted_down :
    RoomState → RoomPolicy → ℕ → Text → ℕ → Option RoomCountdown → Result RoomTransition
counted_down s policy id match_id at_ms none = pass_over s stale_timer
counted_down s policy id match_id at_ms (some c) =
    if not (c.countdown_id == id)
    then pass_over s stale_timer
    else if ltb at_ms c.starts_at_ms
    then pass_over s stale_timer
    else start_or_cancel s policy match_id at_ms c (roster_of s) s.series

unfoldable pub countdown_elapsed : RoomState → RoomPolicy → ℕ → Text → ℕ → Result RoomTransition
countdown_elapsed s policy id match_id at_ms =
    if not (is_in_countdown s.phase)
    then pass_over s stale_timer
    else counted_down s policy id match_id at_ms s.countdown

-- The winners that a reason to finish allows.
abbrev reason_ok : FinishReason → Option Text → Bool
reason_ok draw winner = not (is_some winner)
reason_ok simultaneous_topout winner = not (is_some winner)
reason_ok topout winner = is_some winner
reason_ok forfeit winner = is_some winner
reason_ok disconnect_timeout winner = true

abbrev takes_part : Pair Text → Option Text → Bool
takes_part participants none = true
takes_part participants (some id) =
    same_text id participants.left || same_text id participants.right

abbrev pub result_ok : MatchResult → Pair Text → Bool
result_ok q participants =
    leb q.server_frame max_safe_integer
    && reason_ok q.reason q.winner_player_id
    && takes_part participants q.winner_player_id

-- The wins with one added for the winner, who sits left or else right.
abbrev pub wins_after : RoomSeries → Option Text → Pair ℕ
wins_after r none = r.wins
wins_after r (some id) =
    if same_text r.roster.left id
    then record { left = r.wins.left + 1; right = r.wins.right }
    else record { left = r.wins.left; right = r.wins.right + 1 }

abbrev pub leader : RoomSeries → Option Text
leader r =
    if not (has_won r)
    then none
    else some (if leb r.target_wins r.wins.left then r.roster.left else r.roster.right)

abbrev pub counted : RoomSeries → Option Text → RoomSeries
counted r winner = record r { wins = wins_after r winner; games_played = r.games_played + 1 }

abbrev pub series_after : RoomSeries → Option Text → RoomSeries
series_after r winner =
    let next = counted r winner in
    record next { completed = has_won next; winner_player_id = leader next }

-- A disconnected participant gets a new deadline.
abbrev pub renewed_as : Members → Text → ℕ → RoomMember → RoomConnection → Members
renewed_as members key deadline m (online id epoch) = members
renewed_as members key deadline m (offline epoch old requested) =
    set_member members key (record m { connection = offline epoch deadline false })

abbrev pub renewed_for : Members → Text → ℕ → Option RoomMember → Members
renewed_for members key deadline none = members
renewed_for members key deadline (some m) = renewed_as members key deadline m m.connection

abbrev pub renewed : Members → Text → ℕ → Members
renewed members key deadline = renewed_for members key deadline (own_member members key)

abbrev is_offline : Option RoomMember → Bool
is_offline none = false
is_offline (some m) = elim m.connection [
  | online id epoch ↦ false
  | offline epoch deadline requested ↦ true
]

abbrev deadline_effect : Members → Text → ℕ → List RoomEffect
deadline_effect members key deadline =
    if is_offline (own_member members key) then member_reconnect_deadline key deadline ∷ [] else []

abbrev pub after_match :
    RoomState → MatchResult → RoomPolicy → ActiveRoomMatch → RoomSeries → RoomState
after_match s q policy active series =
    let deadline = q.at_ms + policy.lobby_reconnect_grace_ms in
    let next = series_after series q.winner_player_id in
    record s {
      members =
          renewed (renewed s.members active.participants.left deadline) active.participants.right
            deadline;
      phase = if next.completed then series_complete else between_games;
      ready = neither;
      rematch_votes = neither;
      rules_status = if next.completed then draft else locked;
      countdown = none;
      series = some next;
      active_match = none;
    }

abbrev finish_effects : RoomState → MatchResult → RoomPolicy → ActiveRoomMatch → List RoomEffect
finish_effects s q policy active =
    let deadline = q.at_ms + policy.lobby_reconnect_grace_ms in
    let first = active.participants.left in
    deadline_effect s.members first deadline
    ++ deadline_effect (renewed s.members first deadline) active.participants.right deadline

abbrev pub finished_by :
    RoomState
    → RoomPolicy
    → MatchResult
    → Option ActiveRoomMatch
    → Option RoomSeries
    → Result RoomTransition
finished_by s policy q (some active) (some series) =
    if not (same_text active.match_id q.match_id)
    then pass_over s stale_match
    else if not (result_ok q active.participants)
    then refuse s invalid_command
    else commit s (after_match s q policy active series) q.at_ms (finish_effects s q policy active)
        policy true
finished_by s policy q none series = pass_over s stale_match
finished_by s policy q (some active) none = pass_over s stale_match

unfoldable pub finish_match : RoomState → RoomPolicy → MatchResult → Result RoomTransition
finish_match s policy q =
    if not (is_playing s.phase)
    then pass_over s stale_match
    else finished_by s policy q s.active_match s.series
