-- ===== src/Room/Steps/Joining.antt =====
-- The handlers of packages/room-core/src/handlers/roomCommands.ts follow the step relation: who joins,
-- leaves and sits where.
use tetr_d.Base.{◌≡◌, refl, true, false, not, ◌&&◌, Option, none, some, arith, leb}
use tetr_d.Base.Texts.{Text, includes_text}
use tetr_d.Room.{
  RoomPolicy, SeatIndex, RoomMember, RoomState, JoinRequest, as_player, as_spectator, Participation,
  VersionedRequest,
}
use tetr_d.Room.Validation.{
  own_member, is_some, seat_of, at_seat, spectator_count, safe_id, is_valid_player, has_member,
}
use tetr_d.Room.Checks.{is_closed}
use tetr_d.Room.Handlers.{is_open}
use tetr_d.Room.Handlers.RoomCommands.{
  join, join_as, leave, set_seat, change_seat, preferred_taken, target_seat, is_free, is_playing,
  same_seat,
}
use tetr_d.Room.Steps.{watches, plays, parts, stands, sits, CanJoin, Follows, commits}
use tetr_d.Room.Steps.Walk.{refuse_if, past_version, past_actor}
use tetr_d.Room.Steps.Walk.{is_some→none, not_leb→ltb}

join_as-Follows :
    (s : RoomState) (policy : RoomPolicy) (q : JoinRequest) (p : Participation)
    → CanJoin s q
    → Follows s policy (some q.connection_id) q.at_ms (join_as s policy q p)
join_as-Follows s policy q as_spectator can =
    refuse_if (not s.settings.allow_spectators) _ (λ allowed.
      refuse_if (leb policy.max_spectators (spectator_count s)) _
        (λ room. commits _ _ true (watches q refl can (not_leb→ltb _ _ room))))
join_as-Follows s policy q as_player can = refuse_if (not (is_open s.phase)) _ (λ h.
    refuse_if (preferred_taken s q.preferred_seat) _ (λ h2.
      refuse_if (not (is_free (at_seat s.seats (target_seat s q.preferred_seat)))) _
        (λ h3. commits _ _ true (plays q _ refl can (ground arith) (ground arith)))))

pub join-Follows :
    (s : RoomState) (policy : RoomPolicy) (q : JoinRequest)
    → Follows s policy (some q.connection_id) q.at_ms (join s policy q)
unfolding join
join-Follows s policy q = refuse_if (is_closed s.phase) _ (λ unlocked.
    refuse_if (not (is_valid_player q.player && safe_id q.connection_id)) _ (λ named.
      refuse_if (includes_text s.denied_player_ids q.player.player_id) _ (λ allowed.
        refuse_if (has_member s.members q.player.player_id) _ (λ new.
          join_as-Follows s policy q q.participation (record {
            is_not_closed = unlocked;
            names_player = ground arith;
            names_connection = ground arith;
            is_allowed = allowed;
            is_new = is_some→none _ new;
          })))))

pub leave-Follows :
    {joins : Option Text} (s : RoomState) (policy : RoomPolicy) (q : VersionedRequest)
    → Follows s policy joins q.at_ms (leave s policy q)
unfolding leave
leave-Follows s policy q = past_version q.expected_revision (
    past_actor q.actor_player_id (λ m found c.
      refuse_if (is_some (seat_of s q.actor_player_id) && is_playing s.phase) _
        (λ h. commits _ _ true (parts q.actor_player_id m false found))))

change_seat-Follows :
    {joins : Option Text} (s : RoomState) (policy : RoomPolicy) (q : VersionedRequest)
    (seat : Option SeatIndex) (m : RoomMember)
    → own_member s.members q.actor_player_id ≡ some m
    → is_open s.phase ≡ true
    → Follows s policy joins q.at_ms (change_seat s policy q seat)
change_seat-Follows s policy q none m found unlocked =
    refuse_if (not (is_some (seat_of s q.actor_player_id))) _ (λ h.
      refuse_if (not s.settings.allow_spectators) _ (λ h2.
        refuse_if (leb policy.max_spectators (spectator_count s)) _ (λ room.
          commits _ _ true (stands q.actor_player_id m found unlocked (not_leb→ltb _ _ room)))))
change_seat-Follows s policy q (some seat) m found unlocked =
    refuse_if (not (is_free (at_seat s.seats seat))) _
      (λ h. commits _ _ true (sits q.actor_player_id m seat found unlocked (ground arith)))

pub set_seat-Follows :
    {joins : Option Text} (s : RoomState) (policy : RoomPolicy) (q : VersionedRequest)
    (seat : Option SeatIndex)
    → Follows s policy joins q.at_ms (set_seat s policy q seat)
unfolding set_seat
set_seat-Follows s policy q seat = past_version q.expected_revision (
    past_actor q.actor_player_id (λ m found c. refuse_if (not (is_open s.phase)) _ (λ unlocked.
      refuse_if (same_seat (seat_of s q.actor_player_id) seat) _
        (λ h. change_seat-Follows s policy q seat m found (ground arith)))))
