-- ===== src/Room/Transition.antt =====
-- packages/room-core/src/room.ts and createRoom.ts: how a room begins, and what each command does.
use tetr_d.Base.{
  ℕ, ◌+◌, Bool, true, false, not, ◌&&◌, Option, none, some, [], ◌∷◌, leb, min, if◌then◌else◌,
}
use tetr_d.Base.Result.{Result, ok, type_error, guard, ◌>>◌}
use tetr_d.Room.{
  lobby, RoomPolicy, online, RoomState, CreateRoomInput, RoomCommand, member_join, member_leave,
  room_close, seat_set, ready_set, series_rematch, settings_update, host_transfer, member_kick,
  connection_lost, connection_resumed, connection_replace, timer_reconnect_elapsed,
  timer_countdown_elapsed, match_finished, timer_room_expired, admin_close, expired, draft,
  RoomTransition, invalid_command, room_closed,
}
use tetr_d.Room.Validation.{
  safe_id, room_code_test, is_valid_player, is_safe_time, is_target_wins, is_valid_policy,
}
use tetr_d.Room.Checks.{assert_room_invariants, is_closed}
use tetr_d.Room.Operations.{neither}
use tetr_d.Room.Handlers.{refuse}
use tetr_d.Room.Handlers.RoomCommands.{
  join, leave, set_seat, set_ready, update_settings, transfer_host, kick, rematch, close_room,
  or_default, is_playing,
}
use tetr_d.Room.Handlers.PresenceCommands.{
  connection_lost_by, connection_resumed_by, connection_replaced, reconnect_elapsed, room_expired,
  close_by_admin, close_for,
}
use tetr_d.Room.Handlers.MatchCommands.{countdown_elapsed, finish_match}

abbrev pub first_state : CreateRoomInput → RoomPolicy → RoomState
first_state q policy =
    let absolute = q.now_ms + policy.absolute_ttl_ms in
    record {
      room_id = q.room_id;
      room_code = q.room_code;
      revision = 1;
      presence_sequence = 1;
      phase = lobby;
      members =
          (
            q.creator.player_id,
            record {
              player = q.creator;
              joined_ordinal = 1;
              connection = online q.connection_id 0;
            },
          )
          ∷ [];
      seats = record { left = some q.creator.player_id; right = none };
      host_player_id = some q.creator.player_id;
      ready = neither;
      rematch_votes = neither;
      settings = record {
        target_wins = or_default q.settings.target_wins 3;
        allow_spectators = or_default q.settings.allow_spectators false;
      };
      rules_status = draft;
      countdown = none;
      series = none;
      active_match = none;
      denied_player_ids = [];
      next_joined_ordinal = 2;
      next_countdown_number = 1;
      next_series_number = 1;
      created_at_ms = q.now_ms;
      updated_at_ms = q.now_ms;
      expires_at_ms = min absolute (q.now_ms + policy.lobby_idle_ttl_ms);
      absolute_expires_at_ms = absolute;
      closed_reason = none;
    }

abbrev pub is_valid_input : CreateRoomInput → RoomPolicy → Bool
is_valid_input q policy =
    safe_id q.room_id
    && room_code_test q.room_code
    && is_valid_player q.creator
    && safe_id q.connection_id
    && is_safe_time q.now_ms
    && is_valid_policy policy

unfoldable pub create_room : CreateRoomInput → RoomPolicy → Result RoomState
create_room q policy = do
  guard (is_valid_input q policy) type_error
  guard (is_target_wins (or_default q.settings.target_wins 3)) type_error
  assert_room_invariants (first_state q policy)
  ok (first_state q policy)

-- `command.atMs`
abbrev pub time_of : RoomCommand → ℕ
time_of (member_join q) = q.at_ms
time_of (member_leave q) = q.at_ms
time_of (room_close q) = q.at_ms
time_of (seat_set q seat) = q.at_ms
time_of (ready_set q ready) = q.at_ms
time_of (series_rematch q accepted) = q.at_ms
time_of (settings_update q patch) = q.at_ms
time_of (host_transfer q target) = q.at_ms
time_of (member_kick q target) = q.at_ms
time_of (connection_lost key id epoch at_ms) = at_ms
time_of (connection_resumed key epoch id at_ms) = at_ms
time_of (connection_replace q) = q.at_ms
time_of (timer_reconnect_elapsed key epoch at_ms) = at_ms
time_of (timer_countdown_elapsed id match_id at_ms) = at_ms
time_of (match_finished q) = q.at_ms
time_of (timer_room_expired at_ms) = at_ms
time_of (admin_close at_ms) = at_ms

-- `"requestId" in command`
abbrev pub has_request_id : RoomCommand → Bool
has_request_id (connection_lost key id epoch at_ms) = false
has_request_id (connection_resumed key epoch id at_ms) = false
has_request_id (connection_replace q) = false
has_request_id (timer_reconnect_elapsed key epoch at_ms) = false
has_request_id (timer_countdown_elapsed id match_id at_ms) = false
has_request_id (match_finished q) = false
has_request_id (timer_room_expired at_ms) = false
has_request_id (admin_close at_ms) = false
has_request_id _ = true

-- Expiry and the shut-down of the server are not overtaken by the expiry of the room.
abbrev pub closes_itself : RoomCommand → Bool
closes_itself (timer_room_expired at_ms) = true
closes_itself (admin_close at_ms) = true
closes_itself _ = false

abbrev handle_room_command : RoomState → RoomCommand → RoomPolicy → Option (Result RoomTransition)
handle_room_command s (member_join q) policy = some (join s policy q)
handle_room_command s (member_leave q) policy = some (leave s policy q)
handle_room_command s (seat_set q seat) policy = some (set_seat s policy q seat)
handle_room_command s (ready_set q ready) policy = some (set_ready s policy q ready)
handle_room_command s (settings_update q patch) policy = some (update_settings s policy q patch)
handle_room_command s (host_transfer q target) policy = some (transfer_host s policy q target)
handle_room_command s (member_kick q target) policy = some (kick s policy q target)
handle_room_command s (series_rematch q accepted) policy = some (rematch s policy q accepted)
handle_room_command s (room_close q) policy = some (close_room s policy q)
handle_room_command s _ policy = none

abbrev handle_presence_command :
    RoomState → RoomCommand → RoomPolicy → Option (Result RoomTransition)
handle_presence_command s (connection_lost key id epoch at_ms) policy =
    some (connection_lost_by s policy key id epoch at_ms)
handle_presence_command s (connection_resumed key epoch id at_ms) policy =
    some (connection_resumed_by s policy key epoch id at_ms)
handle_presence_command s (connection_replace q) policy = some (connection_replaced s policy q)
handle_presence_command s (timer_reconnect_elapsed key epoch at_ms) policy =
    some (reconnect_elapsed s policy key epoch at_ms)
handle_presence_command s (timer_room_expired at_ms) policy = some (room_expired s policy at_ms)
handle_presence_command s (admin_close at_ms) policy = some (close_by_admin s policy at_ms)
handle_presence_command s _ policy = none

abbrev handle_match_command : RoomState → RoomCommand → RoomPolicy → Option (Result RoomTransition)
handle_match_command s (timer_countdown_elapsed id match_id at_ms) policy =
    some (countdown_elapsed s policy id match_id at_ms)
handle_match_command s (match_finished q) policy = some (finish_match s policy q)
handle_match_command s _ policy = none

-- `a ?? b`
abbrev or_else {ℓ} : {A : Type ℓ} → Option A → A → A
or_else none b = b
or_else (some a) b = a

abbrev pub dispatch : RoomState → RoomCommand → RoomPolicy → Result RoomTransition
dispatch s c policy = or_else (handle_room_command s c policy) (
    or_else (handle_presence_command s c policy)
      (or_else (handle_match_command s c policy) (refuse s invalid_command)))

unfoldable pub transition_room : RoomState → RoomCommand → RoomPolicy → Result RoomTransition
transition_room s c policy =
    if not (is_safe_time (time_of c) && is_valid_policy policy)
    then refuse s invalid_command
    else if is_closed s.phase && has_request_id c
    then refuse s room_closed
    else if not (is_closed s.phase)
        && not (is_playing s.phase)
        && not (closes_itself c)
        && leb s.expires_at_ms (time_of c)
    then close_for s policy expired (time_of c)
    else dispatch s c policy
