-- ===== src/Room/Permission/Commands.antt =====
-- `transitionRoom` of packages/room-core/src/room.ts: no command gets past its tests.
use tetr_d.Base.{
  ◌≡◌, ◌≢◌, ◌≤◌, ◌⊎◌, inl, inr, refl, Bool, true, false, not, ◌&&◌, none, some, List, if◌then◌else◌,
  leb, leb→le, arith,
}
use tetr_d.Base.Result.{ok}
use tetr_d.Room.{
  closed, playing, RoomPolicy, RoomState, RoomCommand, member_join, member_leave, room_close,
  seat_set, ready_set, series_rematch, settings_update, host_transfer, member_kick, connection_lost,
  connection_resumed, connection_replace, timer_reconnect_elapsed, timer_countdown_elapsed,
  match_finished, timer_room_expired, admin_close, RoomEffect, expired, committed, invalid_command,
  room_closed,
}
use tetr_d.Room.Validation.{is_valid_policy, is_safe_time}
use tetr_d.Room.Checks.{is_closed}
use tetr_d.Room.Handlers.RoomCommands.{is_playing}
use tetr_d.Room.Handlers.PresenceCommands.{close_for}
use tetr_d.Room.Transition.{transition_room, dispatch, time_of, has_request_id, closes_itself}
use tetr_d.Room.Permission.{IsPermitted}
use tetr_d.Room.Permission.Guards.{past_refusal}
use tetr_d.Room.Permission.Asked.{
  apart, join-IsJoiner, leave-permitted, sit-permitted, stand-permitted, set_ready-permitted,
  rematch-permitted, update_settings-permitted, transfer_host-permitted, kick-CanKick,
  close_room-permitted,
}
use tetr_d.Room.Permission.Served.{
  connection_lost_by-HasConnection, connection_resumed_by-CanResume, connection_replaced-permitted,
  reconnect_elapsed-HasTimedOut, room_expired-permitted, close_by_admin-permitted,
  countdown_elapsed-HasCountedDown, finish_match-HasFinished,
}

-- A room that is to close instead, whatever is asked of it.
pub record IsDue (s : RoomState) (c : RoomCommand) : Type 0 where
  pub not_closed : s.phase ≢ closed
  pub not_playing : s.phase ≢ playing
  pub due : s.expires_at_ms ≤ time_of c

dispatch-IsPermitted :
    (s : RoomState) {t : RoomState} {effects : List RoomEffect} (policy : RoomPolicy)
    (c : RoomCommand)
    → dispatch s c policy ≡ ok (committed t effects)
    → IsPermitted s policy c
dispatch-IsPermitted s policy (member_join q) h = join-IsJoiner s policy q h
dispatch-IsPermitted s policy (member_leave q) h = leave-permitted s policy q h
dispatch-IsPermitted s policy (room_close q) h = close_room-permitted s policy q h
dispatch-IsPermitted s policy (seat_set q none) h = stand-permitted s policy q h
dispatch-IsPermitted s policy (seat_set q (some seat)) h = sit-permitted s policy q seat h
dispatch-IsPermitted s policy (ready_set q ready) h = set_ready-permitted s policy q ready h
dispatch-IsPermitted s policy (series_rematch q accepted) h =
    rematch-permitted s policy q accepted h
dispatch-IsPermitted s policy (settings_update q patch) h =
    update_settings-permitted s policy q patch h
dispatch-IsPermitted s policy (host_transfer q target) h =
    transfer_host-permitted s policy q target h
dispatch-IsPermitted s policy (member_kick q target) h = kick-CanKick s policy q target h
dispatch-IsPermitted s policy (connection_lost key id epoch at_ms) h =
    connection_lost_by-HasConnection s policy key id epoch at_ms h
dispatch-IsPermitted s policy (connection_resumed key epoch id at_ms) h =
    connection_resumed_by-CanResume s policy key epoch id at_ms h
dispatch-IsPermitted s policy (connection_replace q) h = connection_replaced-permitted s policy q h
dispatch-IsPermitted s policy (timer_reconnect_elapsed key epoch at_ms) h =
    reconnect_elapsed-HasTimedOut s policy key epoch at_ms h
dispatch-IsPermitted s policy (timer_countdown_elapsed id match_id at_ms) h =
    countdown_elapsed-HasCountedDown s policy id match_id at_ms h
dispatch-IsPermitted s policy (match_finished q) h = finish_match-HasFinished s policy q h
dispatch-IsPermitted s policy (timer_room_expired at_ms) h = room_expired-permitted s policy at_ms h
dispatch-IsPermitted s policy (admin_close at_ms) h = close_by_admin-permitted s policy at_ms h

-- No command changes a room without permission. Unless the room's time is up and it is neither
-- closed nor in a match, a command that commits finds what it needs. Whoever joins is new, was not
-- kicked, and finds a room not closed that is open to players or has a place for a spectator. A
-- member's request comes from a connected member who saw the current revision, and from the host
-- for closing, settings, handing over and kicking; closing, settings, handing over and seats wait
-- for the lobby or the end of a series. A seated player does not leave while a game is on and is
-- kicked by another only in a draft outside of countdown, game and pause; ready and rematch take a
-- seat and a phase for it. Connections are named by their ID and epoch and resumed before the
-- deadline; timers have elapsed; a result is a valid one of the running match.
pub transition_room-IsPermitted :
    (s : RoomState) (c : RoomCommand) (policy : RoomPolicy) (t : RoomState)
    (effects : List RoomEffect)
    → transition_room s c policy ≡ ok (committed t effects)
    → IsDue s c ⊎ IsPermitted s policy c
unfolding transition_room
transition_room-IsPermitted s c policy t effects h =
    let (_, h1) =
      past_refusal s (not (is_safe_time (time_of c) && is_valid_policy policy)) invalid_command h in
    let (_, h2) = past_refusal s (is_closed s.phase && has_request_id c) room_closed h1 in
    by_expiry
      (not (is_closed s.phase)
        && not (is_playing s.phase)
        && not (closes_itself c)
        && leb s.expires_at_ms (time_of c))
      refl h2
  where
    by_expiry :
        (b : Bool)
        → (not (is_closed s.phase)
            && not (is_playing s.phase)
            && not (closes_itself c)
            && leb s.expires_at_ms (time_of c))
          ≡ b
        → (if b then close_for s policy expired (time_of c) else dispatch s c policy)
          ≡ ok (committed t effects)
        → IsDue s c ⊎ IsPermitted s policy c
    by_expiry true e h = inl (record {
      not_closed = apart is_closed s.phase closed (ground (arith, e)) refl;
      not_playing = apart is_playing s.phase playing (ground (arith, e)) refl;
      due = leb→le _ _ (ground (arith, e));
    })
    by_expiry false e h = inr (dispatch-IsPermitted s policy c h)
