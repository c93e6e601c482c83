-- ===== src/Room/Steps/Commands.antt =====
-- `transitionRoom` of packages/room-core/src/room.ts follows the step relation.
use tetr_d.Base.{not, ◌&&◌, Option, none, some, leb}
use tetr_d.Base.Texts.{Text}
use tetr_d.Room.{
  RoomPolicy, Pair, SeatIndex, RoomConnection, online, offline, RoomMember, RoomCountdown,
  RoomSeries, ActiveRoomMatch, RoomState, RoomTransition, ConnectionReplacement, MatchResult,
  RoomCommand, stale_connection, stale_timer, stale_match, RoomClosedReason, expired,
  invalid_command, in_countdown,
}
use tetr_d.Room
use tetr_d.Room.Validation.{is_safe_time, is_valid_policy}
use tetr_d.Room.Checks.{is_closed}
use tetr_d.Room.Handlers.RoomCommands.{is_playing}
use tetr_d.Room.Transition.{transition_room, dispatch, time_of, has_request_id, closes_itself}
use tetr_d.Room.Steps.{closes, Follows, commits}
use tetr_d.Room.Steps.Walk.{branch, refuse_if}
use tetr_d.Room.Steps.Joining.{join-Follows, leave-Follows, set_seat-Follows}
use tetr_d.Room.Steps.Readying.{set_ready-Follows, rematch-Follows}
use tetr_d.Room.Steps.Hosting.{
  update_settings-Follows, transfer_host-Follows, kick-Follows, close_room-Follows,
}
use tetr_d.Room.Steps.Presence.{
  connection_lost_by-Follows, connection_resumed_by-Follows, connection_replaced-Follows,
  reconnect_elapsed-Follows, room_expired-Follows, close_by_admin-Follows,
}
use tetr_d.Room.Steps.Matches.{countdown_elapsed-Follows, finish_match-Follows}

-- The connection ID that `member.join` brings.
abbrev pub joining : RoomCommand → Option Text
joining (Room.member_join q) = some q.connection_id
joining _ = none

dispatch-Follows :
    (s : RoomState) (c : RoomCommand) (policy : RoomPolicy)
    → Follows s policy (joining c) (time_of c) (dispatch s c policy)
dispatch-Follows s (Room.member_join q) policy = join-Follows s policy q
dispatch-Follows s (Room.member_leave q) policy = leave-Follows s policy q
dispatch-Follows s (Room.room_close q) policy = close_room-Follows s policy q
dispatch-Follows s (Room.seat_set q seat) policy = set_seat-Follows s policy q seat
dispatch-Follows s (Room.ready_set q is_ready) policy = set_ready-Follows s policy q is_ready
dispatch-Follows s (Room.series_rematch q accepted) policy = rematch-Follows s policy q accepted
dispatch-Follows s (Room.settings_update q patch) policy = update_settings-Follows s policy q patch
dispatch-Follows s (Room.host_transfer q target) policy = transfer_host-Follows s policy q target
dispatch-Follows s (Room.member_kick q target) policy = kick-Follows s policy q target
dispatch-Follows s (Room.connection_lost key id epoch at_ms) policy =
    connection_lost_by-Follows s policy key id epoch at_ms
dispatch-Follows s (Room.connection_resumed key epoch id at_ms) policy =
    connection_resumed_by-Follows s policy key epoch id at_ms
dispatch-Follows s (Room.connection_replace q) policy = connection_replaced-Follows s policy q
dispatch-Follows s (Room.timer_reconnect_elapsed key epoch at_ms) policy =
    reconnect_elapsed-Follows s policy key epoch at_ms
dispatch-Follows s (Room.timer_countdown_elapsed id match_id at_ms) policy =
    countdown_elapsed-Follows s policy id match_id at_ms
dispatch-Follows s (Room.match_finished q) policy = finish_match-Follows s policy q
dispatch-Follows s (Room.timer_room_expired at_ms) policy = room_expired-Follows s policy at_ms
dispatch-Follows s (Room.admin_close at_ms) policy = close_by_admin-Follows s policy at_ms

-- Every command on every room is refused with a code, passed over with a reason, or commits a step
-- of the relation, with what its handler has tested.
pub transition_room-Follows :
    (s : RoomState) (c : RoomCommand) (policy : RoomPolicy)
    → Follows s policy (joining c) (time_of c) (transition_room s c policy)
unfolding transition_room
transition_room-Follows s c policy =
    refuse_if (not (is_safe_time (time_of c) && is_valid_policy policy)) _ (λ h.
      refuse_if (is_closed s.phase && has_request_id c) _ (λ h2.
        branch
          (not (is_closed s.phase)
            && not (is_playing s.phase)
            && not (closes_itself c)
            && leb s.expires_at_ms (time_of c))
          (λ h3. commits _ _ _ (closes expired)) (λ h3. dispatch-Follows s c policy)))
