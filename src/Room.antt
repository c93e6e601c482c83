-- ===== src/Room.antt =====
-- packages/room-core/src/model.ts: a room for two players and spectators, its commands and what
-- they come to. An object keyed by player IDs is a list of its entries; no code depends on the order
-- of the keys.
pub mod Validation
pub mod Checks
pub mod Operations
pub mod Handlers
pub mod Transition
pub mod Lookup
pub mod Steps
pub mod Invariant
pub mod Commits
pub mod Opening
pub mod Safety
pub mod Spectators
pub mod Closing
pub mod Permission
mod Tests
use tetr_d.Base.{ℕ, Bool, Option, List}
use tetr_d.Base.Texts.{Text}

-- A pair indexed by the two seats.
pub record Pair {ℓ} (A : Type ℓ) : Type ℓ where
  pub left : A
  pub right : A

pub data SeatIndex : Type 0 where
  seat0 seat1 : SeatIndex

pub data RoomPhase : Type 0 where
  lobby in_countdown playing between_games series_complete closed : RoomPhase

pub record RoomPolicy : Type 0 where
  pub countdown_ms : ℕ
  pub max_spectators : ℕ
  pub match_reconnect_grace_ms : ℕ
  pub lobby_reconnect_grace_ms : ℕ
  pub empty_ttl_ms : ℕ
  pub lobby_idle_ttl_ms : ℕ
  pub series_complete_ttl_ms : ℕ
  pub absolute_ttl_ms : ℕ

abbrev pub default_room_policy : RoomPolicy
default_room_policy = record {
  countdown_ms = 3000;
  max_spectators = 6;
  match_reconnect_grace_ms = 15000;
  lobby_reconnect_grace_ms = 60000;
  empty_ttl_ms = 120000;
  lobby_idle_ttl_ms = 1800000;
  series_complete_ttl_ms = 900000;
  absolute_ttl_ms = 21600000;
}

pub record PublicRoomPlayer : Type 0 where
  pub player_id : Text
  pub display_name : Text

-- Connected with a connection ID and an epoch, or disconnected with an epoch, the deadline for a
-- reconnect, and whether a forfeit has been requested.
pub data RoomConnection : Type 0 where
  online : Text → ℕ → RoomConnection
  offline : ℕ → ℕ → Bool → RoomConnection

pub record RoomMember : Type 0 where
  pub player : PublicRoomPlayer
  pub joined_ordinal : ℕ
  pub connection : RoomConnection

abbrev pub Members : Type 0
Members = List (Text × RoomMember)

pub record RoomSettings : Type 0 where
  pub target_wins : ℕ
  pub allow_spectators : Bool

pub data CountdownOrigin : Type 0 where
  from_lobby from_between_games from_series_complete : CountdownOrigin

pub record RoomCountdown : Type 0 where
  pub countdown_id : ℕ
  pub starts_at_ms : ℕ
  pub origin : CountdownOrigin
  pub game_number : ℕ

pub record RoomSeries : Type 0 where
  pub series_id : Text
  pub roster : Pair Text
  pub target_wins : ℕ
  pub wins : Pair ℕ
  pub games_played : ℕ
  pub completed : Bool
  pub winner_player_id : Option Text

pub record ActiveRoomMatch : Type 0 where
  pub match_id : Text
  pub game_number : ℕ
  pub participants : Pair Text
  pub started_at_ms : ℕ
  pub resolution_requested : Bool

pub data RoomClosedReason : Type 0 where
  expired host_closed server_shutdown : RoomClosedReason

pub data RulesStatus : Type 0 where
  draft locked : RulesStatus

pub record RoomState : Type 0 where
  pub room_id : Text
  pub room_code : Text
  pub revision : ℕ
  pub presence_sequence : ℕ
  pub phase : RoomPhase
  pub members : Members
  pub seats : Pair (Option Text)
  pub host_player_id : Option Text
  pub ready : Pair Bool
  pub rematch_votes : Pair Bool
  pub settings : RoomSettings
  pub rules_status : RulesStatus
  pub countdown : Option RoomCountdown
  pub series : Option RoomSeries
  pub active_match : Option ActiveRoomMatch
  pub denied_player_ids : List Text
  pub next_joined_ordinal : ℕ
  pub next_countdown_number : ℕ
  pub next_series_number : ℕ
  pub created_at_ms : ℕ
  pub updated_at_ms : ℕ
  pub expires_at_ms : ℕ
  pub absolute_expires_at_ms : ℕ
  pub closed_reason : Option RoomClosedReason

pub record RoomSettingsPatch : Type 0 where
  pub target_wins : Option ℕ
  pub allow_spectators : Option Bool

pub record CreateRoomInput : Type 0 where
  pub room_id : Text
  pub room_code : Text
  pub creator : PublicRoomPlayer
  pub connection_id : Text
  pub now_ms : ℕ
  pub settings : RoomSettingsPatch

pub data Participation : Type 0 where
  as_player as_spectator : Participation

pub record JoinRequest : Type 0 where
  pub request_id : Text
  pub player : PublicRoomPlayer
  pub connection_id : Text
  pub participation : Participation
  pub preferred_seat : Option SeatIndex
  pub at_ms : ℕ

-- `VersionedRequestBase`
pub record VersionedRequest : Type 0 where
  pub request_id : Text
  pub actor_player_id : Text
  pub at_ms : ℕ
  pub expected_revision : ℕ

pub record ConnectionReplacement : Type 0 where
  pub player_id : Text
  pub expected_connection_id : Text
  pub expected_connection_epoch : ℕ
  pub new_connection_id : Text
  pub at_ms : ℕ

pub data FinishReason : Type 0 where
  topout forfeit disconnect_timeout simultaneous_topout draw : FinishReason

pub record MatchResult : Type 0 where
  pub match_id : Text
  pub winner_player_id : Option Text
  pub reason : FinishReason
  pub server_frame : ℕ
  pub at_ms : ℕ

-- The fields of a command in the order of its declaration, the time last.
pub data RoomCommand : Type 0 where
  member_join : JoinRequest → RoomCommand
  member_leave room_close : VersionedRequest → RoomCommand
  seat_set : VersionedRequest → Option SeatIndex → RoomCommand
  ready_set series_rematch : VersionedRequest → Bool → RoomCommand
  settings_update : VersionedRequest → RoomSettingsPatch → RoomCommand
  host_transfer member_kick : VersionedRequest → Text → RoomCommand
  connection_lost : Text → Text → ℕ → ℕ → RoomCommand
  connection_resumed : Text → ℕ → Text → ℕ → RoomCommand
  connection_replace : ConnectionReplacement → RoomCommand
  timer_reconnect_elapsed : Text → ℕ → ℕ → RoomCommand
  timer_countdown_elapsed : ℕ → Text → ℕ → RoomCommand
  match_finished : MatchResult → RoomCommand
  timer_room_expired admin_close : ℕ → RoomCommand

pub data RoomErrorCode : Type 0 where
  invalid_command request_id_reused revision_conflict room_closed room_full : RoomErrorCode
  room_kicked already_in_room not_in_room not_connected not_seated not_host : RoomErrorCode
  target_not_member target_not_connected cannot_kick_self : RoomErrorCode
  cannot_kick_active_player seat_occupied spectating_disabled spectator_limit : RoomErrorCode
  rules_invalid rules_locked invalid_room_phase active_match_running : RoomErrorCode
  match_not_active series_not_complete no_change resume_expired : RoomErrorCode

pub data CancelReason : Type 0 where
  unready disconnect roster_changed : CancelReason

pub data RoomEffect : Type 0 where
  state_changed : ℕ → ℕ → RoomEffect
  countdown_schedule : ℕ → ℕ → RoomEffect
  countdown_cancel : ℕ → CancelReason → RoomEffect
  match_start : Text → Text → ℕ → Pair Text → RoomEffect
  match_clear_input : Text → RoomEffect
  match_disconnect_forfeit : Text → Text → Option Text → RoomEffect
  member_reconnect_deadline : Text → ℕ → RoomEffect
  member_reconnect_expired member_kicked : Text → RoomEffect
  room_closed_for : RoomClosedReason → RoomEffect

pub data StaleReason : Type 0 where
  stale_connection stale_timer stale_match : StaleReason

pub data RoomTransition : Type 0 where
  committed : RoomState → List RoomEffect → RoomTransition
  rejected : RoomState → RoomErrorCode → ℕ → RoomTransition
  ignored : RoomState → StaleReason → RoomTransition
