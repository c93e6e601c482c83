-- ===== src/Room/Permission.antt =====
-- What a command of packages/room-core needs before it changes a room, written per command and apart
-- from the handlers.
pub mod Guards
pub mod Asked
pub mod Served
pub mod Commands
use tetr_d.Base.{ℕ, ◌≡◌, ◌≢◌, ◌≤◌, ◌<◌, ◌⊎◌, Bool, true, false, Option, none, some, any}
use tetr_d.Base.Texts.{Text, includes_text}
use tetr_d.Room.{
  SeatIndex, lobby, in_countdown, playing, between_games, series_complete, closed, RoomPolicy,
  online, offline, RoomMember, draft, RoomCountdown, ActiveRoomMatch, RoomSeries, RoomState,
  JoinRequest, as_player, as_spectator, VersionedRequest, ConnectionReplacement, MatchResult,
  RoomCommand, member_join, member_leave, room_close, seat_set, ready_set, series_rematch,
  settings_update, host_transfer, member_kick, connection_lost, connection_resumed,
  connection_replace, timer_reconnect_elapsed, timer_countdown_elapsed, match_finished,
  timer_room_expired, admin_close,
}
use tetr_d.Room.Validation.{own_member, at_seat, seat_of, spectator_count}
use tetr_d.Room.Handlers.PresenceCommands.{is_used}
use tetr_d.Room.Handlers.MatchCommands.{result_ok}

-- A connected member who saw the room as it is.
pub record IsActor (s : RoomState) (q : VersionedRequest) : Type 0 where
  pub current : q.expected_revision ≡ s.revision
  pub member : RoomMember
  pub found : own_member s.members q.actor_player_id ≡ some member
  pub id : Text
  pub epoch : ℕ
  pub connection : member.connection ≡ online id epoch

pub record IsHostActor (s : RoomState) (q : VersionedRequest) : Type 0 where
  pub actor : IsActor s q
  pub host : s.host_player_id ≡ some q.actor_player_id

abbrev pub IsOpenPhase : RoomState → Type 0
IsOpenPhase s = (s.phase ≡ lobby) ⊎ (s.phase ≡ series_complete)

abbrev pub IsMember : RoomState → Text → Type 0
IsMember s key = (m : RoomMember) × (own_member s.members key ≡ some m)

abbrev pub IsSeated : RoomState → Text → Type 0
IsSeated s key = (seat : SeatIndex) × (seat_of s key ≡ some seat)

-- A place for one more who only watches.
abbrev pub CanWatch : RoomState → RoomPolicy → Type 0
CanWatch s policy =
    (s.settings.allow_spectators ≡ true) × (spectator_count s < policy.max_spectators)

pub record IsJoiner (s : RoomState) (policy : RoomPolicy) (q : JoinRequest) : Type 0 where
  pub not_closed : s.phase ≢ closed
  pub allowed : includes_text s.denied_player_ids q.player.player_id ≡ false
  pub new : own_member s.members q.player.player_id ≡ none
  pub place :
      ((q.participation ≡ as_player) × IsOpenPhase s)
      ⊎ ((q.participation ≡ as_spectator) × CanWatch s policy)

-- A seated player leaves or is removed only while no game is on.
abbrev pub NotSeated : RoomState → Text → Type 0
NotSeated s key = seat_of s key ≡ none

pub record CanKick (s : RoomState) (q : VersionedRequest) (target : Text) : Type 0 where
  pub host : IsHostActor s q
  pub other : target ≢ q.actor_player_id
  pub member : IsMember s target
  pub idle :
      NotSeated s target
      ⊎ ((s.rules_status ≡ draft)
          × (s.phase ≢ in_countdown)
          × (s.phase ≢ playing)
          × (s.phase ≢ between_games))

abbrev pub HasConnection : RoomState → Text → Text → ℕ → Type 0
HasConnection s key id epoch =
    (m : RoomMember) × (own_member s.members key ≡ some m) × (m.connection ≡ online id epoch)

-- An offline member of the epoch, whose deadline comes after `at_ms` and is still open.
abbrev pub CanResume : RoomState → Text → ℕ → ℕ → Type 0
CanResume s key epoch at_ms =
    (m : RoomMember) × (deadline : ℕ) × (own_member s.members key ≡ some m)
    × (m.connection ≡ offline epoch deadline false)
    × (at_ms < deadline)

-- An offline member of the epoch whose deadline has come.
abbrev pub HasTimedOut : RoomState → Text → ℕ → ℕ → Type 0
HasTimedOut s key epoch at_ms =
    (m : RoomMember) × (deadline : ℕ) × (requested : Bool) × (own_member s.members key ≡ some m)
    × (m.connection ≡ offline epoch deadline requested)
    × (deadline ≤ at_ms)

abbrev pub HasFinished : RoomState → MatchResult → Type 0
HasFinished s q =
    (active : ActiveRoomMatch) × (s.phase ≡ playing)
    × (s.active_match ≡ some active)
    × (active.match_id ≡ q.match_id)
    × (result_ok q active.participants ≡ true)

abbrev pub HasCountedDown : RoomState → ℕ → ℕ → Type 0
HasCountedDown s id at_ms =
    (c : RoomCountdown) × (s.phase ≡ in_countdown)
    × (s.countdown ≡ some c)
    × (c.countdown_id ≡ id)
    × (c.starts_at_ms ≤ at_ms)

abbrev pub IsPermitted : RoomState → RoomPolicy → RoomCommand → Type 0
IsPermitted s policy (member_join q) = IsJoiner s policy q
IsPermitted s policy (member_leave q) =
    IsActor s q × (NotSeated s q.actor_player_id ⊎ (s.phase ≢ playing))
IsPermitted s policy (room_close q) = IsHostActor s q × IsOpenPhase s
IsPermitted s policy (seat_set q none) =
    IsActor s q × IsOpenPhase s × IsSeated s q.actor_player_id × CanWatch s policy
IsPermitted s policy (seat_set q (some seat)) =
    IsActor s q × IsOpenPhase s × (at_seat s.seats seat ≡ none)
IsPermitted s policy (ready_set q ready) =
    IsActor s q
    × IsSeated s q.actor_player_id
    × ((s.phase ≡ lobby) ⊎ (s.phase ≡ between_games) ⊎ ((s.phase ≡ in_countdown) × (ready ≡ false)))
IsPermitted s policy (series_rematch q accepted) =
    IsActor s q × IsSeated s q.actor_player_id × (s.phase ≡ series_complete)
IsPermitted s policy (settings_update q patch) = IsHostActor s q × IsOpenPhase s
IsPermitted s policy (host_transfer q target) =
    IsHostActor s q × IsOpenPhase s × ((id : Text) × (epoch : ℕ) × HasConnection s target id epoch)
IsPermitted s policy (member_kick q target) = CanKick s q target
IsPermitted s policy (connection_lost key id epoch at_ms) = HasConnection s key id epoch
IsPermitted s policy (connection_resumed key epoch id at_ms) =
    CanResume s key epoch at_ms × (is_used s.members id ≡ false)
IsPermitted s policy (connection_replace q) =
    HasConnection s q.player_id q.expected_connection_id q.expected_connection_epoch
    × (is_used s.members q.new_connection_id ≡ false)
IsPermitted s policy (timer_reconnect_elapsed key epoch at_ms) = HasTimedOut s key epoch at_ms
IsPermitted s policy (timer_countdown_elapsed id match_id at_ms) = HasCountedDown s id at_ms
IsPermitted s policy (match_finished q) = HasFinished s q
IsPermitted s policy (timer_room_expired at_ms) = (s.phase ≢ closed) × (s.expires_at_ms ≤ at_ms)
IsPermitted s policy (admin_close at_ms) = s.phase ≢ closed
