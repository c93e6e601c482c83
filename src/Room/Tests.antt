-- ===== src/Room/Tests.antt =====
-- A room, a player who joins it, and what its theorems say of them.
mod Playing
use tetr_d.Base.{ℕ, true, false, inl, List, ◌≤◌, ◌≡◌, ◌≢◌, ◌⊎◌, refl, none, some, [], ◌∷◌, arith}
use tetr_d.Base.Texts.{Text, same_text, distinct_texts}
use tetr_d.Base.Result.{ok, err, plain_error}
use tetr_d.Room
use tetr_d.Room.{
  CreateRoomInput, JoinRequest, RoomState, RoomCommand, RoomTransition, RoomEffect, committed,
  default_room_policy, as_player,
}
use tetr_d.Room.Validation.{
  safe_id, room_code_test, is_valid_player, character_count, is_valid_policy, own_member,
  set_member, spectator_count, without_member,
}
use tetr_d.Room.Checks.{
  assert_room_invariants, identity_ok, times_ok, members_ok, seats_ok, host_ok, ready_ok, denied_ok,
  shape_ok,
}
use tetr_d.Room.Operations.{
  expiry_for, commit, stamped, remove_member_state, counting_down, series_for,
}
use tetr_d.Room.Handlers.RoomCommands.{join, kick, set_ready, hosted, seated}
use tetr_d.Room.Handlers.MatchCommands.{countdown_elapsed, in_match}
use tetr_d.Room.Transition.{first_state, create_room, transition_room}
use tetr_d.Room.Permission.{IsPermitted}
use tetr_d.Room.Permission.Commands.{IsDue, transition_room-IsPermitted}
use tetr_d.Room.Invariant.Asserted.{IsRoom}
use tetr_d.Room.Opening.{IsCreatable, create_room-IsRoom}
use tetr_d.Room.Commits.{IsOutcome, transition_room-IsOutcome}
use tetr_d.Room.Closing.{IsOver, IsKept, transition_room-IsOver}
use tetr_d.Room.Spectators.{Reachable-spectator_count}
use tetr_d.Room.Safety.{
  Reachable, IsAdmissible, opened, moved, room_of, transition_room-IsRoom, Reachable-roster,
}

-- `ann` opens the room `r1` under the code `ABC234`.
abbrev ann : Text
ann = 97 ∷ 110 ∷ 110 ∷ []

abbrev bob : Text
bob = 98 ∷ 111 ∷ 98 ∷ []

abbrev input : CreateRoomInput
input = record {
  room_id = 114 ∷ 49 ∷ [];
  room_code = 65 ∷ 66 ∷ 67 ∷ 50 ∷ 51 ∷ 52 ∷ [];
  creator = record { player_id = ann; display_name = ann };
  connection_id = 99 ∷ 49 ∷ [];
  now_ms = 1000;
  settings = record { target_wins = some 2; allow_spectators = none };
}

abbrev joins_with : Text → ℕ → RoomCommand
joins_with id at_ms = Room.member_join (record {
  request_id = 113 ∷ 49 ∷ [];
  player = record { player_id = bob; display_name = bob };
  connection_id = id;
  participation = as_player;
  preferred_seat = none;
  at_ms = at_ms;
})

abbrev bob_joins : RoomCommand
bob_joins = joins_with (99 ∷ 50 ∷ []) 2000

abbrev room : RoomState
room = first_state input default_room_policy

input-IsCreatable : IsCreatable input default_room_policy
unfolding safe_id room_code_test is_valid_player character_count is_valid_policy same_text
input-IsCreatable = record { valid = refl; targets = refl; limit = omega arith }

create_room-IsRoom_example : (create_room input default_room_policy ≡ ok room) × IsRoom room
create_room-IsRoom_example = create_room-IsRoom input default_room_policy input-IsCreatable

bob_joins-IsAdmissible : IsAdmissible room bob_joins default_room_policy
unfolding same_text
bob_joins-IsAdmissible = record {
  commit_left = omega arith;
  deadlines_safe = omega arith;
  new_connection = refl;
}

transition_room-IsRoom_example :
    (t : RoomTransition) × (transition_room room bob_joins default_room_policy ≡ ok t)
    × IsRoom (room_of t)
transition_room-IsRoom_example =
    transition_room-IsRoom room bob_joins default_room_policy
      (create_room-IsRoom input default_room_policy input-IsCreatable).1 bob_joins-IsAdmissible

after_join :
    (t : RoomTransition) × (transition_room room bob_joins default_room_policy ≡ ok t)
    × IsRoom (room_of t)
after_join =
    transition_room-IsRoom room bob_joins default_room_policy
      (create_room-IsRoom input default_room_policy input-IsCreatable).1 bob_joins-IsAdmissible

transition_room-IsOutcome_example : IsOutcome room 2000 after_join.0
transition_room-IsOutcome_example =
    transition_room-IsOutcome room bob_joins default_room_policy after_join.0 after_join.1

-- A player who joins with the connection ID of another makes the assertion throw.
join_again :
    transition_room room (joins_with (99 ∷ 49 ∷ []) 2000) default_room_policy ≡ err plain_error
unfolding transition_room join commit safe_id room_code_test is_valid_player character_count
    is_valid_policy same_text own_member set_member spectator_count expiry_for
    assert_room_invariants identity_ok times_ok members_ok
join_again = refl

Reachable-spectator_count_example :
    spectator_count (room_of after_join.0) ≤ default_room_policy.max_spectators
Reachable-spectator_count_example = Reachable-spectator_count (room_of after_join.0) (
    moved room bob_joins after_join.0
      (opened input room input-IsCreatable
        (create_room-IsRoom input default_room_policy input-IsCreatable).0)
      bob_joins-IsAdmissible after_join.1)

-- Half an hour later the room has expired.
abbrev late_join : RoomCommand
late_join = joins_with (99 ∷ 50 ∷ []) 2000000

late_join-IsAdmissible : IsAdmissible room late_join default_room_policy
unfolding same_text
late_join-IsAdmissible = record {
  commit_left = omega arith;
  deadlines_safe = omega arith;
  new_connection = refl;
}

default_room_policy-is_valid_policy : is_valid_policy default_room_policy ≡ true
unfolding is_valid_policy
default_room_policy-is_valid_policy = refl

lobby-unclosed : Room.lobby ≢ Room.closed
lobby-unclosed e = cc

lobby-idle : Room.lobby ≢ Room.playing
lobby-idle e = cc

transition_room-IsOver_example :
    (t : RoomState) × (effects : List RoomEffect) × (transition_room room late_join
        default_room_policy
      ≡ ok (committed t effects))
    × IsOver room Room.expired t effects
    × IsKept t bob_joins default_room_policy
transition_room-IsOver_example =
    transition_room-IsOver room late_join bob_joins default_room_policy default_room_policy
      (create_room-IsRoom input default_room_policy input-IsCreatable).1 late_join-IsAdmissible
      default_room_policy-is_valid_policy lobby-unclosed lobby-idle (omega arith)

-- `bob` watches, and `ann` removes him.
abbrev watched : RoomState
watched = record room {
  members =
      (
        ann,
        record {
          player = record { player_id = ann; display_name = ann };
          joined_ordinal = 1;
          connection = Room.online (99 ∷ 49 ∷ []) 0;
        },
      )
      ∷ (
        bob,
        record {
          player = record { player_id = bob; display_name = bob };
          joined_ordinal = 2;
          connection = Room.online (99 ∷ 50 ∷ []) 0;
        },
      )
      ∷ [];
  settings = record { target_wins = 2; allow_spectators = true };
  next_joined_ordinal = 3;
}

abbrev kicks_bob : RoomCommand
kicks_bob =
    Room.member_kick
      (record {
        request_id = 113 ∷ 50 ∷ [];
        actor_player_id = ann;
        at_ms = 2000;
        expected_revision = 1;
      })
      bob

abbrev without_bob : RoomState
without_bob = stamped watched (remove_member_state watched bob true) 2000 default_room_policy true

abbrev bob_effects : List RoomEffect
bob_effects = Room.member_kicked bob ∷ Room.state_changed 2 2 ∷ []

bob_kicked :
    transition_room watched kicks_bob default_room_policy ≡ ok (committed without_bob bob_effects)
unfolding transition_room kick commit safe_id room_code_test is_valid_player character_count
    is_valid_policy same_text own_member set_member spectator_count expiry_for
    assert_room_invariants identity_ok times_ok members_ok without_member seats_ok distinct_texts
    host_ok ready_ok denied_ok shape_ok
bob_kicked = refl

transition_room-IsPermitted_example :
    IsDue watched kicks_bob ⊎ IsPermitted watched default_room_policy kicks_bob
transition_room-IsPermitted_example =
    transition_room-IsPermitted watched kicks_bob default_room_policy without_bob bob_effects
      bob_kicked
