-- ===== src/Room/Steps/Hosting.antt =====
-- The handlers of packages/room-core/src/handlers/roomCommands.ts follow the step relation: what the
-- host asks for.
use tetr_d.Base.{true, not, ◌&&◌, ◌||◌, Option, arith, ltb, ◌==◌}
use tetr_d.Base.Texts.{Text, same_text}
use tetr_d.Room.{
  RoomPolicy, Pair, SeatIndex, seat0, seat1, RoomMember, RoomPhase, RoomState, JoinRequest,
  as_player, as_spectator, Participation, VersionedRequest, CountdownOrigin, from_lobby,
  from_between_games, from_series_complete, lobby, in_countdown, playing, between_games,
  series_complete, closed, RoomEffect, RoomSettingsPatch, RoomTransition,
}
use tetr_d.Room
use tetr_d.Room.Validation.{
  own_member, connected, is_some, is_id, seat_of, spectator_count, has_member,
}
use tetr_d.Room.Checks.{same_flag, is_draft}
use tetr_d.Room.Handlers.{is_open}
use tetr_d.Room.Handlers.RoomCommands.{
  wins_patch_ok, patched, is_locked_phase, update_settings, transfer_host, kick, close_room,
}
use tetr_d.Room.Steps.{parts, sets, hands_over, closes, Follows, commits}
use tetr_d.Room.Steps.Walk.{refuse_if, past_version, past_host}
use tetr_d.Room.Steps.Walk.{not_is_some→some}

pub update_settings-Follows :
    {joins : Option Text} (s : RoomState) (policy : RoomPolicy) (q : VersionedRequest)
    (patch : RoomSettingsPatch)
    → Follows s policy joins q.at_ms (update_settings s policy q patch)
unfolding update_settings
update_settings-Follows s policy q patch = past_version q.expected_revision (
    past_host q.actor_player_id (λ m found. refuse_if (not (is_open s.phase)) _ (λ unlocked.
      refuse_if (not (wins_patch_ok patch.target_wins)) _ (λ wins.
        refuse_if (not (patched s.settings patch).allow_spectators && ltb 0 (spectator_count s)) _
          (λ few.
            refuse_if
              (((patched s.settings patch).target_wins == s.settings.target_wins)
                && same_flag (patched s.settings patch).allow_spectators
                    s.settings.allow_spectators)
              _ (λ h. commits _ _ true (sets patch (ground arith) (ground arith) few)))))))

pub transfer_host-Follows :
    {joins : Option Text} (s : RoomState) (policy : RoomPolicy) (q : VersionedRequest)
    (target : Text)
    → Follows s policy joins q.at_ms (transfer_host s policy q target)
unfolding transfer_host
transfer_host-Follows s policy q target = past_version q.expected_revision (
    past_host q.actor_player_id (λ m found. refuse_if (not (is_open s.phase)) _ (λ unlocked.
      refuse_if (not (has_member s.members target)) _ (λ h.
        refuse_if (not (connected (own_member s.members target))) _ (λ linked.
          refuse_if (is_id s.host_player_id target) _
            (λ h2. commits _ _ true (hands_over target (ground arith) (ground arith))))))))

pub kick-Follows :
    {joins : Option Text} (s : RoomState) (policy : RoomPolicy) (q : VersionedRequest)
    (target : Text)
    → Follows s policy joins q.at_ms (kick s policy q target)
unfolding kick
kick-Follows s policy q target = past_version q.expected_revision (
    past_host q.actor_player_id (λ m found. refuse_if (same_text target q.actor_player_id) _ (λ h.
      refuse_if (not (has_member s.members target)) _ (λ is_member.
        refuse_if
          (is_some (seat_of s target) && (not (is_draft s.rules_status) || is_locked_phase s.phase))
          _
          (λ h2.
            let (t, e) = not_is_some→some (own_member s.members target) is_member in
            commits _ _ true (parts target t true e))))))

pub close_room-Follows :
    {joins : Option Text} (s : RoomState) (policy : RoomPolicy) (q : VersionedRequest)
    → Follows s policy joins q.at_ms (close_room s policy q)
unfolding close_room
close_room-Follows s policy q = past_version q.expected_revision (
    past_host q.actor_player_id (λ m found.
      refuse_if (not (is_open s.phase)) _ (λ unlocked. commits _ _ true (closes Room.host_closed))))
