-- ===== src/Simulation/Tests.antt =====
-- The theorems on the moves of packages/game-core/src/playerSimulation.ts at a piece over a slot.
use tetr_d.Base.{◌≡◌, refl, Bool, true, none, some}
use tetr_d.Base.Doubles.{to_double, to_double_ℤ}
use tetr_d.Base.Int.{pos, ◌+ℤ◌}
use tetr_d.Base.Masks.{has_bit}
use tetr_d.Base.Result.{ok}
use tetr_d.Pieces.{
  t_piece, rotation0, cw, ActivePiece, world_cells_for, local_cells_for, turn_cells, spawn_cells,
}
use tetr_d.Board.{fits, is_cell_free, occupied_at}
use tetr_d.Board.Samples.{slot, slot-IsBoard}
use tetr_d.Generation.Requests.{left}
use tetr_d.Simulation.{MotionState, drop_on, move_horizontal, rotate_active}
use tetr_d.Simulation.Dropping.{IsDrop, drop_on-lands}
use tetr_d.Simulation.Manipulating.{
  IsManipulated, IsStep, move_horizontal-IsStep, rotate_active-IsManipulated,
}

abbrev falling : ActivePiece
falling = record { kind = t_piece; rotation = rotation0; x = pos 3; y = pos 17 }

abbrev motion : MotionState
motion = record {
  board = slot;
  active = some falling;
  lock_frames = 3;
  lock_resets = 1;
  last_rotation = none;
  lock_reset_limit = 15;
}

falling-fits : fits slot.rows falling ≡ true
unfolding fits is_cell_free occupied_at has_bit world_cells_for local_cells_for turn_cells
    spawn_cells ◌+ℤ◌ to_double_ℤ to_double
falling-fits = refl

drop_on-lands_example : (t : MotionState) × (drop_on 48 motion ≡ ok t) × IsDrop motion falling t
drop_on-lands_example = drop_on-lands motion falling refl slot-IsBoard falling-fits

move_horizontal-IsStep_example :
    (moved : Bool) × (t : MotionState) × (move_horizontal motion left ≡ ok (moved, t))
    × IsStep motion falling left moved t
move_horizontal-IsStep_example =
    move_horizontal-IsStep motion falling left refl slot-IsBoard falling-fits

rotate_active-IsManipulated_example :
    (t : MotionState) × (rotate_active motion cw ≡ ok t) × IsManipulated motion falling t
rotate_active-IsManipulated_example =
    rotate_active-IsManipulated motion falling cw refl slot-IsBoard falling-fits
