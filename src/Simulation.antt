-- ===== src/Simulation.antt =====
-- packages/game-core/src/playerSimulation.ts, in part: how the active piece moves and turns within a
-- frame. The state has the fields that these methods read or write. A `while` loop over moves runs
-- on fuel, which Simulation/Dropping shows to be enough.
pub mod Dropping
pub mod Manipulating
mod Tests
use tetr_d.Base.{
  ℕ, zero, suc, ◌+◌, Bool, true, false, not, ◌&&◌, Option, none, some, ltb, if◌then◌else◌,
}
use tetr_d.Base.Int.{ℤ, pos, negsuc, ◌+ℤ◌, ◌-ℤ◌}
use tetr_d.Base.Result.{Result, ok, ◌>>=◌}
use tetr_d.Pieces.{RotationDirection, ActivePiece}
use tetr_d.Board.{Board, is_piece_placement_valid}
use tetr_d.Rotation.{RotationResult, rotated, not_rotated, board_as_playfield, try_rotate}
use tetr_d.Spin.{LastSuccessfulRotation}
use tetr_d.Generation.Requests.{Side, left, right}

pub record MotionState : Type 0 where
  pub board : Board
  pub active : Option ActivePiece
  pub lock_frames : ℕ
  pub lock_resets : ℕ
  pub last_rotation : Option LastSuccessfulRotation
  pub lock_reset_limit : ℕ

-- Whether the method returned true, and the state after it.
abbrev pub Moved : Type 0
Moved = Result (Bool × MotionState)

abbrev pub lowered : ActivePiece → ActivePiece
lowered p = record p { y = p.y +ℤ negsuc 0 }

unfoldable pub move_vertical : MotionState → Moved
move_vertical s = elim s.active [
  | none ↦ ok (false, s)
  | some p ↦
      is_piece_placement_valid s.board (lowered p)
      >>= (λ valid. ok (valid, if valid then record s { active = some (lowered p) } else s))
]

-- The fields after an accepted manipulation.
abbrev pub manipulated :
    MotionState → ActivePiece → Option LastSuccessfulRotation → Bool → MotionState
manipulated s candidate rotation was_grounded =
    let resets = was_grounded && ltb s.lock_resets s.lock_reset_limit in
    record s {
      active = some candidate;
      last_rotation = rotation;
      lock_frames = if resets then 0 else s.lock_frames;
      lock_resets = if resets then s.lock_resets + 1 else s.lock_resets;
    }

unfoldable pub accept_manipulation :
    MotionState → ActivePiece → Option LastSuccessfulRotation → Moved
accept_manipulation s candidate rotation = elim s.active [
  | none ↦ ok (false, s)
  | some p ↦ is_piece_placement_valid s.board candidate >>= (λ valid.
      if not valid
      then ok (false, s)
      else is_piece_placement_valid s.board (record p { y = p.y -ℤ pos 1 })
        >>= (λ below. ok (true, manipulated s candidate rotation (not below))))
]

abbrev pub side_step : Side → ℤ
side_step left = negsuc 0
side_step right = pos 1

unfoldable pub move_horizontal : MotionState → Side → Moved
move_horizontal s direction = elim s.active [
  | none ↦ ok (false, s)
  | some p ↦ accept_manipulation s (record p { x = p.x +ℤ side_step direction }) none
]

abbrev pub after_rotation : MotionState → RotationDirection → RotationResult → Result MotionState
after_rotation s direction (not_rotated piece) = ok s
after_rotation s direction (rotated piece kick kick_index) =
    accept_manipulation s piece (some (record { direction = direction; kick_index = kick_index }))
    >>= (λ moved. ok moved.1)

unfoldable pub rotate_active : MotionState → RotationDirection → Result MotionState
rotate_active s direction = elim s.active [
  | none ↦ ok s
  | some p ↦ board_as_playfield s.board >>= λ playfield.
      try_rotate playfield p direction >>= λ result. after_rotation s direction result
]

-- `while (this.#moveVertical(-1)) {}`
unfoldable pub drop_on : ℕ → MotionState → Result MotionState
drop_on zero s = ok s
drop_on (suc fuel) s =
    move_vertical s >>= (λ moved. elim moved.0 [ false ↦ ok moved.1 | true ↦ drop_on fuel moved.1 ])
