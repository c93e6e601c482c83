-- ===== src/Room/Handlers/RoomCommands.antt =====
-- packages/room-core/src/handlers/roomCommands.ts: what members ask for.
use tetr_d.Base.{
  ℕ, ◌+◌, Bool, true, false, not, ◌&&◌, ◌||◌, Option, none, some, [], ◌∷◌, ◌++◌, ltb, leb, ◌==◌,
  if◌then◌else◌,
}
use tetr_d.Base.Texts.{Text, same_text, includes_text}
use tetr_d.Base.Result.{Result, ◌>>=◌}
use tetr_d.Room
use tetr_d.Room.{
  Pair, SeatIndex, seat0, seat1, RoomPhase, lobby, in_countdown, playing, between_games,
  series_complete, closed, RoomPolicy, online, RoomMember, CountdownOrigin, from_lobby,
  from_between_games, from_series_complete, RoomSettings, RoomSettingsPatch, RoomState, JoinRequest,
  as_player, as_spectator, Participation, VersionedRequest, RoomEffect, member_kicked,
  room_closed_for, host_closed, unready, roster_changed, RoomTransition, room_closed,
  invalid_command, room_kicked, already_in_room, spectating_disabled, spectator_limit,
  invalid_room_phase, seat_occupied, room_full, active_match_running, no_change, not_seated,
  rules_locked, rules_invalid, target_not_member, target_not_connected, cannot_kick_self,
  cannot_kick_active_player, series_not_complete,
}
use tetr_d.Room.Validation.{
  safe_id, is_valid_player, is_target_wins, own_member, has_member, is_some, is_id, connected,
  at_seat, with_seat, seat_of, spectator_count, set_member,
}
use tetr_d.Room.Checks.{is_closed, is_draft, connected_id, same_flag}
use tetr_d.Room.Operations.{
  commit, version_error, actor_error, host_error, countdown_cancel_effect, reset_competition,
  cancel_countdown, begin_countdown, countdown_effects, remove_member_state, removal_effects,
  close_state, vacated,
}
use tetr_d.Room.Handlers.{refuse, unless_error, is_open}

abbrev pub new_member : JoinRequest → ℕ → RoomMember
new_member q ordinal = record {
  player = q.player;
  joined_ordinal = ordinal;
  connection = online q.connection_id 0;
}

abbrev pub joined : RoomState → JoinRequest → RoomState
joined s q = record s {
  members = set_member s.members q.player.player_id (new_member q s.next_joined_ordinal);
  next_joined_ordinal = s.next_joined_ordinal + 1;
}

-- `if (proposed.hostPlayerId === null) proposed = { ...proposed, hostPlayerId: playerId };`
abbrev pub hosted : RoomState → Text → RoomState
hosted s key = record s {
  host_player_id = elim s.host_player_id [ none ↦ some key | some h ↦ some h ];
}

abbrev pub is_free : Option Text → Bool
is_free none = true
is_free (some id) = false

abbrev pub preferred_taken : RoomState → Option SeatIndex → Bool
preferred_taken s none = false
preferred_taken s (some seat) = not (is_free (at_seat s.seats seat))

abbrev pub target_seat : RoomState → Option SeatIndex → SeatIndex
target_seat s (some seat) = seat
target_seat s none = if is_free s.seats.left then seat0 else seat1

abbrev pub seated : RoomState → JoinRequest → SeatIndex → RoomState
seated s q seat =
    reset_competition
      (record (joined s q) { seats = with_seat s.seats seat (some q.player.player_id) })

abbrev pub join_as : RoomState → RoomPolicy → JoinRequest → Participation → Result RoomTransition
join_as s policy q as_spectator =
    if not s.settings.allow_spectators
    then refuse s spectating_disabled
    else if leb policy.max_spectators (spectator_count s)
    then refuse s spectator_limit
    else commit s (hosted (joined s q) q.player.player_id) q.at_ms [] policy true
join_as s policy q as_player =
    if not (is_open s.phase)
    then refuse s invalid_room_phase
    else if preferred_taken s q.preferred_seat
    then refuse s seat_occupied
    else if not (is_free (at_seat s.seats (target_seat s q.preferred_seat)))
    then refuse s room_full
    else commit s (hosted (seated s q (target_seat s q.preferred_seat)) q.player.player_id) q.at_ms
        (countdown_cancel_effect s roster_changed) policy true

unfoldable pub join : RoomState → RoomPolicy → JoinRequest → Result RoomTransition
join s policy q =
    if is_closed s.phase
    then refuse s room_closed
    else if not (is_valid_player q.player && safe_id q.connection_id)
    then refuse s invalid_command
    else if includes_text s.denied_player_ids q.player.player_id
    then refuse s room_kicked
    else if has_member s.members q.player.player_id
    then refuse s already_in_room
    else join_as s policy q q.participation

abbrev pub is_playing : RoomPhase → Bool
is_playing playing = true
is_playing _ = false

unfoldable pub leave : RoomState → RoomPolicy → VersionedRequest → Result RoomTransition
leave s policy q = unless_error (version_error s q.expected_revision) (
    unless_error (actor_error s q.actor_player_id) (
      if is_some (seat_of s q.actor_player_id) && is_playing s.phase
      then refuse s active_match_running
      else commit s (remove_member_state s q.actor_player_id false) q.at_ms
          (removal_effects s q.actor_player_id) policy true))

abbrev pub same_seat : Option SeatIndex → Option SeatIndex → Bool
same_seat none none = true
same_seat (some seat0) (some seat0) = true
same_seat (some seat1) (some seat1) = true
same_seat _ _ = false

abbrev pub reseated : RoomState → Text → Option SeatIndex → Pair (Option Text)
reseated s actor none = vacated s.seats (seat_of s actor)
reseated s actor (some seat) = with_seat (vacated s.seats (seat_of s actor)) seat (some actor)

abbrev commit_seats :
    RoomState → RoomPolicy → VersionedRequest → Option SeatIndex → Result RoomTransition
commit_seats s policy q seat =
    commit s (reset_competition (record s { seats = reseated s q.actor_player_id seat })) q.at_ms
      (countdown_cancel_effect s roster_changed) policy true

abbrev pub change_seat :
    RoomState → RoomPolicy → VersionedRequest → Option SeatIndex → Result RoomTransition
change_seat s policy q none =
    if not (is_some (seat_of s q.actor_player_id))
    then refuse s no_change
    else if not s.settings.allow_spectators
    then refuse s spectating_disabled
    else if leb policy.max_spectators (spectator_count s)
    then refuse s spectator_limit
    else commit_seats s policy q none
change_seat s policy q (some seat) =
    if not (is_free (at_seat s.seats seat))
    then refuse s seat_occupied
    else commit_seats s policy q (some seat)

unfoldable pub set_seat :
    RoomState → RoomPolicy → VersionedRequest → Option SeatIndex → Result RoomTransition
set_seat s policy q seat = unless_error (version_error s q.expected_revision) (
    unless_error (actor_error s q.actor_player_id) (
      if not (is_open s.phase)
      then refuse s invalid_room_phase
      else if same_seat (seat_of s q.actor_player_id) seat
      then refuse s no_change
      else change_seat s policy q seat))

abbrev pub all_connected : RoomState → Bool
all_connected s = connected_id s.members s.seats.left && connected_id s.members s.seats.right

-- The branch in which the readiness of a seat changes; a countdown begins once both are ready.
abbrev pub change_ready :
    RoomState
    → RoomPolicy
    → VersionedRequest
    → Bool
    → SeatIndex
    → CountdownOrigin
    → Result RoomTransition
change_ready s policy q ready seat origin =
    let proposed = record s { ready = with_seat s.ready seat ready } in
    if same_flag (at_seat s.ready seat) ready
    then refuse s no_change
    else if proposed.ready.left && proposed.ready.right && all_connected proposed
    then (begin_countdown proposed q.at_ms origin policy >>= λ started.
        commit s started q.at_ms (countdown_effects proposed q.at_ms policy) policy true)
    else commit s proposed q.at_ms [] policy true

abbrev pub ready_in :
    RoomPhase → RoomState → RoomPolicy → VersionedRequest → Bool → SeatIndex → Result RoomTransition
ready_in lobby s policy q ready seat = change_ready s policy q ready seat from_lobby
ready_in between_games s policy q ready seat = change_ready s policy q ready seat from_between_games
ready_in in_countdown s policy q ready seat =
    if ready
    then refuse s no_change
    else commit s (cancel_countdown s) q.at_ms (countdown_cancel_effect s unready) policy true
ready_in _ s policy q ready seat = refuse s invalid_room_phase

abbrev pub at_own_seat :
    RoomState → Option SeatIndex → (SeatIndex → Result RoomTransition) → Result RoomTransition
at_own_seat s none go = refuse s not_seated
at_own_seat s (some seat) go = go seat

unfoldable pub set_ready : RoomState → RoomPolicy → VersionedRequest → Bool → Result RoomTransition
set_ready s policy q ready = unless_error (version_error s q.expected_revision) (
    unless_error (actor_error s q.actor_player_id)
      (at_own_seat s (seat_of s q.actor_player_id) (ready_in s.phase s policy q ready)))

abbrev pub or_default {ℓ} : {A : Type ℓ} → Option A → A → A
or_default none a = a
or_default (some a) b = a

abbrev pub patched : RoomSettings → RoomSettingsPatch → RoomSettings
patched settings patch = record {
  target_wins = or_default patch.target_wins settings.target_wins;
  allow_spectators = or_default patch.allow_spectators settings.allow_spectators;
}

abbrev pub wins_patch_ok : Option ℕ → Bool
wins_patch_ok none = true
wins_patch_ok (some n) = is_target_wins n

unfoldable pub update_settings :
    RoomState → RoomPolicy → VersionedRequest → RoomSettingsPatch → Result RoomTransition
update_settings s policy q patch =
    let settings = patched s.settings patch in
    unless_error (version_error s q.expected_revision) (
      unless_error (host_error s q.actor_player_id) (
        if not (is_open s.phase)
        then refuse s rules_locked
        else if not (wins_patch_ok patch.target_wins)
        then refuse s rules_invalid
        else if not settings.allow_spectators && ltb 0 (spectator_count s)
        then refuse s rules_invalid
        else if (settings.target_wins == s.settings.target_wins)
            && same_flag settings.allow_spectators s.settings.allow_spectators
        then refuse s no_change
        else commit s (reset_competition (record s { settings = settings })) q.at_ms [] policy
            true))

unfoldable pub transfer_host :
    RoomState → RoomPolicy → VersionedRequest → Text → Result RoomTransition
transfer_host s policy q target = unless_error (version_error s q.expected_revision) (
    unless_error (host_error s q.actor_player_id) (
      if not (is_open s.phase)
      then refuse s invalid_room_phase
      else if not (has_member s.members target)
      then refuse s target_not_member
      else if not (connected (own_member s.members target))
      then refuse s target_not_connected
      else if is_id s.host_player_id target
      then refuse s no_change
      else commit s (record s { host_player_id = some target }) q.at_ms [] policy true))

abbrev pub is_locked_phase : RoomPhase → Bool
is_locked_phase in_countdown = true
is_locked_phase playing = true
is_locked_phase between_games = true
is_locked_phase _ = false

unfoldable pub kick : RoomState → RoomPolicy → VersionedRequest → Text → Result RoomTransition
kick s policy q target = unless_error (version_error s q.expected_revision) (
    unless_error (host_error s q.actor_player_id) (
      if same_text target q.actor_player_id
      then refuse s cannot_kick_self
      else if not (has_member s.members target)
      then refuse s target_not_member
      else if is_some (seat_of s target)
          && (not (is_draft s.rules_status) || is_locked_phase s.phase)
      then refuse s cannot_kick_active_player
      else commit s (remove_member_state s target true) q.at_ms
          (removal_effects s target ++ member_kicked target ∷ []) policy true))

abbrev pub is_series_complete : RoomPhase → Bool
is_series_complete series_complete = true
is_series_complete _ = false

abbrev pub is_finished_series : Option Room.RoomSeries → Bool
is_finished_series none = false
is_finished_series (some r) = r.completed

abbrev pub vote :
    RoomState → RoomPolicy → VersionedRequest → Bool → SeatIndex → Result RoomTransition
vote s policy q accepted seat =
    let proposed = record s { rematch_votes = with_seat s.rematch_votes seat accepted } in
    let agreed = record proposed { ready = record { left = true; right = true } } in
    if not (is_series_complete s.phase && is_finished_series s.series)
    then refuse s series_not_complete
    else if same_flag (at_seat s.rematch_votes seat) accepted
    then refuse s no_change
    else if proposed.rematch_votes.left && proposed.rematch_votes.right && all_connected s
    then (begin_countdown agreed q.at_ms from_series_complete policy >>= λ started.
        commit s started q.at_ms (countdown_effects agreed q.at_ms policy) policy true)
    else commit s proposed q.at_ms [] policy true

unfoldable pub rematch : RoomState → RoomPolicy → VersionedRequest → Bool → Result RoomTransition
rematch s policy q accepted = unless_error (version_error s q.expected_revision) (
    unless_error (actor_error s q.actor_player_id)
      (at_own_seat s (seat_of s q.actor_player_id) (vote s policy q accepted)))

unfoldable pub close_room : RoomState → RoomPolicy → VersionedRequest → Result RoomTransition
close_room s policy q = unless_error (version_error s q.expected_revision) (
    unless_error (host_error s q.actor_player_id) (
      if not (is_open s.phase)
      then refuse s active_match_running
      else commit s (close_state s host_closed) q.at_ms (room_closed_for host_closed ∷ []) policy
          true))
