-- ===== src/Room/Opening.antt =====
-- The room that `createRoom` of packages/room-core/src/createRoom.ts begins with.
use tetr_d.Base.{◌+◌, ◌≤◌, ◌≡◌, inl, refl, ap, Bool, true, none, [], ◌∷◌, arith}
use tetr_d.Base.Texts.{Text, same_text_refl, distinct_texts}
use tetr_d.Base.Result.{Result, ok, type_error, guard, ◌>>◌}
use tetr_d.Board.{max_safe_integer}
use tetr_d.Room
use tetr_d.Room.{RoomPolicy, RoomMember, online, RoomState, CreateRoomInput, JoinRequest}
use tetr_d.Room.Validation.{is_target_wins, own_member, set_member, is_some}
use tetr_d.Room.Handlers.RoomCommands.{or_default}
use tetr_d.Room.Transition.{first_state, is_valid_input, create_room}
use tetr_d.Room.Invariant.Entries.{AreMembers}
use tetr_d.Room.Invariant.Membership.{joined-AreMembers, empty-AreMembers}
use tetr_d.Room.Invariant.Checked.{Facts}
use tetr_d.Room.Invariant.Asserted.{IsRoom, IsRoom-passes}

-- What `createRoom` requires, and an absolute limit that is a safe integer.
pub record IsCreatable (q : CreateRoomInput) (policy : RoomPolicy) : Type 0 where
  pub valid : is_valid_input q policy ≡ true
  pub targets : is_target_wins (or_default q.settings.target_wins 3) ≡ true
  pub limit : q.now_ms + policy.absolute_ttl_ms ≤ max_safe_integer

creator_joins : CreateRoomInput → JoinRequest
creator_joins q = record {
  request_id = [];
  player = q.creator;
  connection_id = q.connection_id;
  participation = Room.as_player;
  preferred_seat = none;
  at_ms = q.now_ms;
}

first-AreMembers :
    (q : CreateRoomInput) (policy : RoomPolicy)
    → IsCreatable q policy
    → AreMembers 1 2 (first_state q policy).members
unfolding set_member creator_joins
first-AreMembers q policy h =
    let valid = h.valid in
    joined-AreMembers 1 1 [] (creator_joins q) (omega arith) (ground (arith, valid))
      (ground (arith, valid)) refl (empty-AreMembers 1 1)

own_member-one : (key : Text) (m : RoomMember) → is_some (own_member ((key, m) ∷ []) key) ≡ true
unfolding own_member
own_member-one key m = rw (same_text_refl key) refl

first-Facts :
    (q : CreateRoomInput) (policy : RoomPolicy)
    → IsCreatable q policy
    → Facts (first_state q policy)
first-Facts q policy h =
    let valid = h.valid in
    let limit = h.limit in
    record {
      named = ground (arith, valid);
      coded = ground (arith, valid);
      revised = omega arith;
      revision_low = omega arith;
      sequence_safe = omega arith;
      updated_safe = omega (arith, limit);
      expiry_safe = omega (arith, limit);
      limit_safe = limit;
      created_first = omega arith;
      created_before = omega arith;
    }

none_twice : distinct_texts [] ≡ true
unfolding distinct_texts
none_twice = refl

first-IsRoom :
    (q : CreateRoomInput) (policy : RoomPolicy)
    → IsCreatable q policy
    → IsRoom (first_state q policy)
first-IsRoom q policy h = record {
  facts = first-Facts q policy h;
  members_order = record {
    members_fit = first-AreMembers q policy h;
    few_ordinals = omega arith;
    some_ordinal = omega arith;
  };
  seats_order = record {
    left_present = own_member-one q.creator.player_id _;
    right_present = tt;
    apart = tt;
  };
  host_order = own_member-one q.creator.player_id _;
  ready_order = record { left_ready = inl refl; right_ready = inl refl };
  denied_order = record { few = omega arith; distinct = none_twice; each = tt };
  series_order = record { targets = h.targets; series_fits = tt };
  phase_order = record { shape = (refl, refl, refl, refl); emptiness = tt };
}

past_input :
    {rest : Result RoomState} (b : Bool) {end : Result RoomState}
    → b ≡ true
    → rest ≡ end
    → (guard b type_error >> rest) ≡ end
past_input b h after = rw h after

-- A room is created, and is in order, where the input is valid and the limit a safe integer.
pub create_room-IsRoom :
    (q : CreateRoomInput) (policy : RoomPolicy)
    → IsCreatable q policy
    → (create_room q policy ≡ ok (first_state q policy)) × IsRoom (first_state q policy)
unfolding create_room
create_room-IsRoom q policy h =
    let order = first-IsRoom q policy h in
    (
      past_input _ h.valid (
          past_input _ h.targets (
            ap (λ r. r >> ok (first_state q policy)) (IsRoom-passes (first_state q policy) order))),
      order,
    )
