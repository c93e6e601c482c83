-- ===== src/Room/Steps.antt =====
-- The changes that the handlers of packages/room-core propose, as a step relation on the room, with
-- what each handler has tested before it commits.

pub mod Walk
pub mod Joining
pub mod Readying
pub mod Hosting
pub mod Presence
pub mod Matches
pub mod Commands
use tetr_d.Base.{
  ℕ, ◌+◌, ◌≡◌, ◌≤◌, Bool, true, false, not, ◌&&◌, ◌||◌, Option, none, some, List, ltb, leb,
}
use tetr_d.Base.Texts.{Text, same_text, includes_text}
use tetr_d.Base.Result.{Result, ok}
use tetr_d.Board.{max_safe_integer}
use tetr_d.Room.{
  Pair, SeatIndex, RoomPhase, lobby, between_games, from_between_games, in_countdown, playing,
  series_complete, RoomPolicy, online, offline, RoomMember, CountdownOrigin, RoomCountdown,
  RoomSeries, ActiveRoomMatch, RoomClosedReason, RoomSettingsPatch, RoomState, JoinRequest,
  MatchResult, RoomErrorCode, StaleReason, RoomEffect, RoomTransition,
}
use tetr_d.Room.Validation.{
  safe_id, is_valid_player, is_target_wins, own_member, connected, is_some, at_seat, with_seat,
  seat_of, roster_of, spectator_count,
}
use tetr_d.Room.Checks.{is_closed, connected_id}
use tetr_d.Room.Operations.{
  commit, reject, ignore, reset_competition, cancel_countdown, begin_countdown, counting_down,
  series_for, remove_member_state, close_state,
}
use tetr_d.Room.Handlers.{is_open}
use tetr_d.Room.Handlers.RoomCommands.{
  is_playing, joined, hosted, seated, is_free, reseated, all_connected, patched, wins_patch_ok,
}
use tetr_d.Room.Handlers.PresenceCommands.{
  is_in_countdown, reconnected, without_connection, is_used, forfeited,
}
use tetr_d.Room.Handlers.MatchCommands.{in_match, both_connected, result_ok, after_match}

-- What `member.join` has tested.
pub record CanJoin (s : RoomState) (q : JoinRequest) : Type 0 where
  pub is_not_closed : is_closed s.phase ≡ false
  pub names_player : is_valid_player q.player ≡ true
  pub names_connection : safe_id q.connection_id ≡ true
  pub is_allowed : includes_text s.denied_player_ids q.player.player_id ≡ false
  pub is_new : own_member s.members q.player.player_id ≡ none

-- The phases in which a player turns ready, but for a countdown.
abbrev pub allows_ready : RoomPhase → Bool
allows_ready lobby = true
allows_ready between_games = true
allows_ready _ = false

-- `joins` is the connection ID that a command to join brings.
pub data Step (s : RoomState) (policy : RoomPolicy) (joins : Option Text) (at_ms : ℕ)
    : RoomState → Type 0 where
  watches :
      (q : JoinRequest)
      → joins ≡ some q.connection_id
      → CanJoin s q
      → ltb (spectator_count s) policy.max_spectators ≡ true
      → Step s policy joins at_ms (hosted (joined s q) q.player.player_id)
  plays :
      (q : JoinRequest) (seat : SeatIndex)
      → joins ≡ some q.connection_id
      → CanJoin s q
      → is_open s.phase ≡ true
      → is_free (at_seat s.seats seat) ≡ true
      → Step s policy joins at_ms (hosted (seated s q seat) q.player.player_id)
  parts :
      (key : Text) (m : RoomMember) (denies : Bool)
      → own_member s.members key ≡ some m
      → Step s policy joins at_ms (remove_member_state s key denies)
  stands :
      (key : Text) (m : RoomMember)
      → own_member s.members key ≡ some m
      → is_open s.phase ≡ true
      → ltb (spectator_count s) policy.max_spectators ≡ true
      → Step s policy joins at_ms (reset_competition (record s { seats = reseated s key none }))
  sits :
      (key : Text) (m : RoomMember) (seat : SeatIndex)
      → own_member s.members key ≡ some m
      → is_open s.phase ≡ true
      → is_free (at_seat s.seats seat) ≡ true
      → Step s policy joins at_ms
          (reset_competition (record s { seats = reseated s key (some seat) }))
  readies :
      (seat : SeatIndex) (is_ready : Bool)
      → allows_ready s.phase ≡ true
      → connected_id s.members (at_seat s.seats seat) ≡ true
      → Step s policy joins at_ms (record s { ready = with_seat s.ready seat is_ready })
  begins_series :
      (origin : CountdownOrigin) (ready votes : Pair Bool) (roster : Pair Text)
      → ready.left ≡ true
      → ready.right ≡ true
      → all_connected s ≡ true
      → roster_of s ≡ some roster
      → Step s policy joins at_ms (
          counting_down
            (record s { ready = ready; rematch_votes = votes })
            at_ms
            origin
            policy
            (series_for (record s { ready = ready; rematch_votes = votes }) roster)
            (s.next_series_number + 1))
  continues_series :
      (ready votes : Pair Bool) (series : RoomSeries)
      → ready.left ≡ true
      → ready.right ≡ true
      → all_connected s ≡ true
      → s.series ≡ some series
      → s.phase ≡ between_games
      → Step s policy joins at_ms (
          counting_down
            (record s { ready = ready; rematch_votes = votes })
            at_ms
            from_between_games
            policy
            series
            s.next_series_number)
  cancels : is_closed s.phase ≡ false → Step s policy joins at_ms (cancel_countdown s)
  votes_for :
      (seat : SeatIndex) (accepted : Bool)
      → Step s policy joins at_ms
          (record s { rematch_votes = with_seat s.rematch_votes seat accepted })
  sets :
      (patch : RoomSettingsPatch)
      → is_open s.phase ≡ true
      → wins_patch_ok patch.target_wins ≡ true
      → (not (patched s.settings patch).allow_spectators && ltb 0 (spectator_count s)) ≡ false
      → Step s policy joins at_ms
          (reset_competition (record s { settings = patched s.settings patch }))
  hands_over :
      (target : Text)
      → connected (own_member s.members target) ≡ true
      → is_open s.phase ≡ true
      → Step s policy joins at_ms (record s { host_player_id = some target })
  drops :
      (key : Text) (m : RoomMember) (id : Text) (epoch deadline : ℕ)
      → own_member s.members key ≡ some m
      → m.connection ≡ online id epoch
      → deadline ≤ at_ms + policy.match_reconnect_grace_ms + policy.lobby_reconnect_grace_ms
      → (is_in_countdown s.phase && is_some (seat_of s key)) ≡ false
      → Step s policy joins at_ms (without_connection s key m (offline epoch deadline false))
  drops_and_cancels :
      (key : Text) (m : RoomMember) (id : Text) (epoch deadline : ℕ)
      → own_member s.members key ≡ some m
      → m.connection ≡ online id epoch
      → deadline ≤ at_ms + policy.match_reconnect_grace_ms + policy.lobby_reconnect_grace_ms
      → Step s policy joins at_ms
          (cancel_countdown (without_connection s key m (offline epoch deadline false)))
  resumes :
      (key : Text) (m : RoomMember) (id : Text) (epoch deadline : ℕ) (requested : Bool)
      → own_member s.members key ≡ some m
      → m.connection ≡ offline epoch deadline requested
      → safe_id id ≡ true
      → is_used s.members id ≡ false
      → Step s policy joins at_ms (hosted (reconnected s key m (online id (epoch + 1))) key)
  replaces :
      (key : Text) (m : RoomMember) (own id : Text) (epoch : ℕ)
      → own_member s.members key ≡ some m
      → m.connection ≡ online own epoch
      → safe_id id ≡ true
      → is_used s.members id ≡ false
      → Step s policy joins at_ms (reconnected s key m (online id (epoch + 1)))
  forfeits :
      (key : Text) (m : RoomMember) (active : ActiveRoomMatch) (epoch deadline : ℕ)
      (requested : Bool)
      → own_member s.members key ≡ some m
      → m.connection ≡ offline epoch deadline requested
      → s.active_match ≡ some active
      → is_playing s.phase ≡ true
      → Step s policy joins at_ms (forfeited s key m active epoch deadline)
  starts :
      (match_id : Text) (c : RoomCountdown) (roster : Pair Text)
      → s.countdown ≡ some c
      → roster_of s ≡ some roster
      → is_some s.series ≡ true
      → both_connected s.members roster ≡ true
      → Step s policy joins at_ms (in_match s match_id c.game_number at_ms roster)
  finishes :
      (q : MatchResult) (active : ActiveRoomMatch) (series : RoomSeries)
      → q.at_ms ≡ at_ms
      → s.active_match ≡ some active
      → s.series ≡ some series
      → result_ok q active.participants ≡ true
      → Step s policy joins at_ms (after_match s q policy active series)
  closes : (reason : RoomClosedReason) → Step s policy joins at_ms (close_state s reason)

-- What a command comes to: the state as it was with a reason, or the commit of a step.
pub data Follows (s : RoomState) (policy : RoomPolicy) (joins : Option Text) (at_ms : ℕ)
    : Result RoomTransition → Type 0 where
  refuses : (code : RoomErrorCode) → Follows s policy joins at_ms (ok (reject s code))
  passes : (reason : StaleReason) → Follows s policy joins at_ms (ok (ignore s reason))
  commits :
      (t : RoomState) (effects : List RoomEffect) (control_revision : Bool)
      → Step s policy joins at_ms t
      → Follows s policy joins at_ms (commit s t at_ms effects policy control_revision)
