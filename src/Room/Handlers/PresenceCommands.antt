-- ===== src/Room/Handlers/PresenceCommands.antt =====
-- packages/room-core/src/handlers/presenceCommands.ts: connections, their timers, and closing.
use tetr_d.Base.{
  ℕ, ◌+◌, Bool, true, false, not, ◌&&◌, ◌||◌, Option, none, some, List, [], ◌∷◌, ◌++◌, any, ltb,
  leb, ◌==◌, if◌then◌else◌,
}
use tetr_d.Base.Texts.{Text, same_text}
use tetr_d.Base.Result.{Result}
use tetr_d.Room.{
  Pair, SeatIndex, seat0, seat1, RoomPhase, in_countdown, RoomPolicy, RoomConnection, online,
  offline, RoomMember, Members, ActiveRoomMatch, RoomClosedReason, expired, server_shutdown,
  RoomState, ConnectionReplacement, disconnect, RoomEffect, match_clear_input,
  match_disconnect_forfeit, member_reconnect_deadline, member_reconnect_expired, room_closed_for,
  stale_connection, stale_timer, RoomTransition, invalid_command, resume_expired,
}
use tetr_d.Room.Validation.{safe_id, own_member, is_some, at_seat, with_seat, seat_of, set_member}
use tetr_d.Room.Checks.{is_closed, connected_id}
use tetr_d.Room.Operations.{
  commit, cancel_countdown, countdown_cancel_effect, remove_member_state, removal_effects,
  close_state,
}
use tetr_d.Room.Handlers.{refuse, pass_over}
use tetr_d.Room.Handlers.RoomCommands.{hosted, is_playing, is_series_complete}

abbrev pub is_in_countdown : RoomPhase → Bool
is_in_countdown in_countdown = true
is_in_countdown _ = false

-- `{ ...member, connection }` in the members.
abbrev pub reconnected : RoomState → Text → RoomMember → RoomConnection → RoomState
reconnected s key m connection = record s {
  members = set_member s.members key (record m { connection = connection });
}

abbrev pub cleared_at : Pair Bool → Option SeatIndex → Pair Bool
cleared_at flags none = flags
cleared_at flags (some seat) = if at_seat flags seat then with_seat flags seat false else flags

-- The proposed state of a lost connection before a countdown is cancelled.
abbrev pub without_connection : RoomState → Text → RoomMember → RoomConnection → RoomState
without_connection s key m connection =
    let seat = seat_of s key in
    record (reconnected s key m connection) {
      ready = cleared_at s.ready seat;
      rematch_votes =
          if is_series_complete s.phase then cleared_at s.rematch_votes seat else s.rematch_votes;
    }

abbrev pub lost : RoomState → RoomPolicy → Text → RoomMember → ℕ → ℕ → Result RoomTransition
lost s policy key m epoch at_ms =
    let is_seated = is_some (seat_of s key) in
    let deadline =
      at_ms
      + (if is_seated && is_playing s.phase
          then policy.match_reconnect_grace_ms
          else policy.lobby_reconnect_grace_ms) in
    let proposed = without_connection s key m (offline epoch deadline false) in
    let told : List RoomEffect = member_reconnect_deadline key deadline ∷ [] in
    if is_in_countdown s.phase && is_seated
    then commit s (cancel_countdown proposed) at_ms
        (told ++ countdown_cancel_effect proposed disconnect) policy is_seated
    else commit s proposed at_ms
        (if is_playing s.phase && is_seated then told ++ match_clear_input key ∷ [] else told)
        policy is_seated

abbrev pub lost_by :
    RoomState
    → RoomPolicy
    → Text
    → Text
    → ℕ
    → ℕ
    → RoomMember
    → RoomConnection
    → Result RoomTransition
lost_by s policy key connection_id expected at_ms m (offline epoch deadline requested) =
    pass_over s stale_connection
lost_by s policy key connection_id expected at_ms m (online id epoch) =
    if not (same_text id connection_id) || not (epoch == expected)
    then pass_over s stale_connection
    else lost s policy key m epoch at_ms

-- `if (!member) return ignore(state, "stale_connection");`
abbrev pub if_member :
    RoomState → Option RoomMember → (RoomMember → Result RoomTransition) → Result RoomTransition
if_member s none go = pass_over s stale_connection
if_member s (some m) go = go m

unfoldable pub connection_lost_by :
    RoomState → RoomPolicy → Text → Text → ℕ → ℕ → Result RoomTransition
connection_lost_by s policy key connection_id expected at_ms =
    if_member s (own_member s.members key)
      (λ m. lost_by s policy key connection_id expected at_ms m m.connection)

abbrev pub has_connection_id : RoomConnection → Text → Bool
has_connection_id (offline epoch deadline requested) id = false
has_connection_id (online own epoch) id = same_text own id

-- Whether a connected member has the connection ID.
abbrev pub is_used : Members → Text → Bool
is_used members id = any (λ e. has_connection_id e.1.connection id) members

abbrev gains_host : RoomState → Bool
gains_host s = not (is_some s.host_player_id)

abbrev pub resumed_by :
    RoomState
    → RoomPolicy
    → Text
    → ℕ
    → Text
    → ℕ
    → RoomMember
    → RoomConnection
    → Result RoomTransition
resumed_by s policy key expected id at_ms m (online own epoch) = pass_over s stale_connection
resumed_by s policy key expected id at_ms m (offline epoch deadline requested) =
    if not (epoch == expected)
    then pass_over s stale_connection
    else if leb deadline at_ms || requested
    then refuse s resume_expired
    else if not (safe_id id)
    then refuse s invalid_command
    else if is_used s.members id
    then refuse s invalid_command
    else commit s (hosted (reconnected s key m (online id (epoch + 1))) key) at_ms [] policy
        (is_some (seat_of s key) || gains_host s)

unfoldable pub connection_resumed_by :
    RoomState → RoomPolicy → Text → ℕ → Text → ℕ → Result RoomTransition
connection_resumed_by s policy key expected id at_ms =
    if_member s (own_member s.members key)
      (λ m. resumed_by s policy key expected id at_ms m m.connection)

abbrev pub replaced_by :
    RoomState
    → RoomPolicy
    → ConnectionReplacement
    → RoomMember
    → RoomConnection
    → Result RoomTransition
replaced_by s policy q m (offline epoch deadline requested) = pass_over s stale_connection
replaced_by s policy q m (online own epoch) =
    if not (same_text own q.expected_connection_id) || not (epoch == q.expected_connection_epoch)
    then pass_over s stale_connection
    else if not (safe_id q.new_connection_id)
        || same_text q.new_connection_id q.expected_connection_id
        || is_used s.members q.new_connection_id
    then refuse s invalid_command
    else commit s (reconnected s q.player_id m (online q.new_connection_id (epoch + 1))) q.at_ms
        (if is_playing s.phase && is_some (seat_of s q.player_id)
          then match_clear_input q.player_id ∷ []
          else [])
        policy false

unfoldable pub connection_replaced :
    RoomState → RoomPolicy → ConnectionReplacement → Result RoomTransition
connection_replaced s policy q =
    if_member s (own_member s.members q.player_id) (λ m. replaced_by s policy q m m.connection)

abbrev pub opposite : SeatIndex → SeatIndex
opposite seat0 = seat1
opposite seat1 = seat0

abbrev winner_by_default : RoomState → SeatIndex → Option Text
winner_by_default s seat =
    if connected_id s.members (at_seat s.seats (opposite seat))
    then at_seat s.seats (opposite seat)
    else none

abbrev pub forfeited : RoomState → Text → RoomMember → ActiveRoomMatch → ℕ → ℕ → RoomState
forfeited s key m active epoch deadline =
    record (reconnected s key m (offline epoch deadline true)) {
      active_match = some (record active { resolution_requested = true });
    }

-- A reconnect timer that has run out, in a match for a seated player, or else.
abbrev pub timed_out :
    RoomState
    → RoomPolicy
    → Text
    → RoomMember
    → ℕ
    → ℕ
    → Bool
    → ℕ
    → Option SeatIndex
    → Option ActiveRoomMatch
    → Bool
    → Result RoomTransition
timed_out s policy key m epoch deadline requested at_ms (some seat) (some active) true =
    if requested || active.resolution_requested
    then pass_over s stale_timer
    else commit s (forfeited s key m active epoch deadline) at_ms
        (match_disconnect_forfeit active.match_id key (winner_by_default s seat) ∷ []) policy true
timed_out s policy key m epoch deadline requested at_ms _ _ _ =
    commit s (remove_member_state s key false) at_ms
      (removal_effects s key ++ member_reconnect_expired key ∷ []) policy true

abbrev pub elapsed_by :
    RoomState → RoomPolicy → Text → ℕ → ℕ → RoomMember → RoomConnection → Result RoomTransition
elapsed_by s policy key expected at_ms m (online own epoch) = pass_over s stale_connection
elapsed_by s policy key expected at_ms m (offline epoch deadline requested) =
    if not (epoch == expected)
    then pass_over s stale_connection
    else if ltb at_ms deadline
    then pass_over s stale_timer
    else timed_out s policy key m epoch deadline requested at_ms (seat_of s key) s.active_match
        (is_playing s.phase)

unfoldable pub reconnect_elapsed : RoomState → RoomPolicy → Text → ℕ → ℕ → Result RoomTransition
reconnect_elapsed s policy key expected at_ms =
    if_member s (own_member s.members key)
      (λ m. elapsed_by s policy key expected at_ms m m.connection)

abbrev pub close_for : RoomState → RoomPolicy → RoomClosedReason → ℕ → Result RoomTransition
close_for s policy reason at_ms =
    commit s (close_state s reason) at_ms (room_closed_for reason ∷ []) policy true

unfoldable pub room_expired : RoomState → RoomPolicy → ℕ → Result RoomTransition
room_expired s policy at_ms =
    if is_closed s.phase || ltb at_ms s.expires_at_ms
    then pass_over s stale_timer
    else close_for s policy expired at_ms

unfoldable pub close_by_admin : RoomState → RoomPolicy → ℕ → Result RoomTransition
close_by_admin s policy at_ms =
    if is_closed s.phase then pass_over s stale_timer else close_for s policy server_shutdown at_ms
