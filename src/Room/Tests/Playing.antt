-- ===== src/Room/Tests/Playing.antt =====
-- A first game of packages/room-core, reached from the creation of its room.
use tetr_d.Base.{ℕ, true, false, inl, List, ◌≡◌, refl, none, some, [], ◌∷◌, arith}
use tetr_d.Base.Texts.{Text, same_text, distinct_texts}
use tetr_d.Base.Result.{ok}
use tetr_d.Room
use tetr_d.Room.{
  CreateRoomInput, JoinRequest, RoomState, RoomCommand, RoomTransition, RoomEffect, committed,
  default_room_policy, as_player,
}
use tetr_d.Room.Validation.{
  safe_id, room_code_test, is_valid_player, character_count, is_valid_policy, own_member,
  set_member, spectator_count, without_member,
}
use tetr_d.Room.Checks.{
  assert_room_invariants, identity_ok, times_ok, members_ok, seats_ok, host_ok, ready_ok, denied_ok,
  shape_ok,
}
use tetr_d.Room.Operations.{expiry_for, commit, stamped, counting_down, series_for}
use tetr_d.Room.Handlers.RoomCommands.{join, set_ready, hosted, seated}
use tetr_d.Room.Handlers.MatchCommands.{countdown_elapsed, in_match}
use tetr_d.Room.Transition.{transition_room}
use tetr_d.Room.Opening.{create_room-IsRoom}
use tetr_d.Room.Safety.{Reachable, IsAdmissible, opened, moved, Reachable-roster}
use tetr_d.Room.Tests.{ann, bob, input, bob_joins, room, input-IsCreatable, bob_joins-IsAdmissible}

-- `bob` sits down, both turn ready, and after the countdown their first game begins.
abbrev by : Text → ℕ → ℕ → Room.VersionedRequest
by key at_ms revision = record {
  request_id = 113 ∷ 50 ∷ [];
  actor_player_id = key;
  at_ms = at_ms;
  expected_revision = revision;
}

abbrev both_sit : RoomState
both_sit =
    stamped room
      (hosted
        (seated room
          (record {
            request_id = 113 ∷ 49 ∷ [];
            player = record { player_id = bob; display_name = bob };
            connection_id = 99 ∷ 50 ∷ [];
            participation = as_player;
            preferred_seat = none;
            at_ms = 2000;
          })
          Room.seat1)
        bob)
      2000 default_room_policy true

abbrev ann_ready : RoomState
ann_ready =
    stamped both_sit (record both_sit { ready = record { left = true; right = false } }) 3000
      default_room_policy true

abbrev both_ready : RoomState
both_ready = record ann_ready { ready = record { left = true; right = true } }

abbrev counting : RoomState
counting =
    stamped ann_ready
      (counting_down both_ready 4000 Room.from_lobby default_room_policy
        (series_for both_ready (record { left = ann; right = bob })) 2)
      4000 default_room_policy true

abbrev started : List RoomEffect
started =
    Room.match_start (109 ∷ 49 ∷ [])
      (series_for both_ready (record { left = ann; right = bob })).series_id 1
      (record { left = ann; right = bob })
    ∷ Room.state_changed 5 5
    ∷ []

abbrev first_game : RoomState
first_game =
    stamped counting (in_match counting (109 ∷ 49 ∷ []) 1 9000 (record { left = ann; right = bob }))
      9000 default_room_policy true

room-Reachable : Reachable default_room_policy room
room-Reachable =
    opened input room input-IsCreatable
      (create_room-IsRoom input default_room_policy input-IsCreatable).0

-- Each command in turn.
bob_sits :
    transition_room room bob_joins default_room_policy
    ≡ ok (committed both_sit (Room.state_changed 2 2 ∷ []))
unfolding transition_room join set_ready countdown_elapsed commit safe_id room_code_test
    is_valid_player character_count is_valid_policy same_text own_member set_member spectator_count
    expiry_for assert_room_invariants identity_ok times_ok members_ok without_member seats_ok
    distinct_texts host_ok ready_ok denied_ok shape_ok
bob_sits = refl

ann_turns_ready :
    transition_room both_sit (Room.ready_set (by ann 3000 2) true) default_room_policy
    ≡ ok (committed ann_ready (Room.state_changed 3 3 ∷ []))
unfolding transition_room join set_ready countdown_elapsed commit safe_id room_code_test
    is_valid_player character_count is_valid_policy same_text own_member set_member spectator_count
    expiry_for assert_room_invariants identity_ok times_ok members_ok without_member seats_ok
    distinct_texts host_ok ready_ok denied_ok shape_ok
ann_turns_ready = refl

bob_turns_ready :
    transition_room ann_ready (Room.ready_set (by bob 4000 3) true) default_room_policy
    ≡ ok (committed counting (Room.countdown_schedule 1 7000 ∷ Room.state_changed 4 4 ∷ []))
unfolding transition_room join set_ready countdown_elapsed commit safe_id room_code_test
    is_valid_player character_count is_valid_policy same_text own_member set_member spectator_count
    expiry_for assert_room_invariants identity_ok times_ok members_ok without_member seats_ok
    distinct_texts host_ok ready_ok denied_ok shape_ok
bob_turns_ready = refl

countdown_ends :
    transition_room counting
      (Room.timer_countdown_elapsed 1 (109 ∷ 49 ∷ []) 9000)
      default_room_policy
    ≡ ok (committed first_game started)
unfolding transition_room join set_ready countdown_elapsed commit safe_id room_code_test
    is_valid_player character_count is_valid_policy same_text own_member set_member spectator_count
    expiry_for assert_room_invariants identity_ok times_ok members_ok without_member seats_ok
    distinct_texts host_ok ready_ok denied_ok shape_ok
countdown_ends = refl

ann_ready-IsAdmissible :
    IsAdmissible both_sit (Room.ready_set (by ann 3000 2) true) default_room_policy
ann_ready-IsAdmissible = record {
  commit_left = omega arith;
  deadlines_safe = omega arith;
  new_connection = tt;
}

bob_ready-IsAdmissible :
    IsAdmissible ann_ready (Room.ready_set (by bob 4000 3) true) default_room_policy
bob_ready-IsAdmissible = record {
  commit_left = omega arith;
  deadlines_safe = omega arith;
  new_connection = tt;
}

countdown-IsAdmissible :
    IsAdmissible counting (Room.timer_countdown_elapsed 1 (109 ∷ 49 ∷ []) 9000) default_room_policy
countdown-IsAdmissible = record {
  commit_left = omega arith;
  deadlines_safe = omega arith;
  new_connection = tt;
}

first_game-Reachable : Reachable default_room_policy first_game
first_game-Reachable =
    moved counting _ _
      (moved ann_ready _ _
        (moved both_sit _ _ (moved room _ _ room-Reachable bob_joins-IsAdmissible bob_sits)
          ann_ready-IsAdmissible ann_turns_ready)
        bob_ready-IsAdmissible bob_turns_ready)
      countdown-IsAdmissible countdown_ends

Reachable-roster_example :
    (r : Room.RoomSeries) × (first_game.series ≡ some r)
    × (first_game.seats.left ≡ some r.roster.left)
    × (first_game.seats.right ≡ some r.roster.right)
Reachable-roster_example = Reachable-roster first_game first_game-Reachable (inl refl)
