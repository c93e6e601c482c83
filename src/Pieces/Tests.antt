-- ===== src/Pieces/Tests.antt =====
-- Tests of packages/game-core/src/pieces.ts, and its theorems at concrete pieces.
use tetr_d.Base.{◌≡◌, refl, [], ◌∷◌, length, All}
use tetr_d.Base.Int.{ℤ, pos, ◌+ℤ◌, ◌-ℤ◌}
use tetr_d.Pieces.{
  i_piece, t_piece, rotation1, Cell, local_cells_for, turn_cells, rotate_cell_clockwise,
  spawn_cells, pivots,
}
use tetr_d.Pieces.Shapes.{InBox, IsDistinct, local_cells_for_shape}

abbrev point : ℤ → ℤ → Cell
point x y = record { x = x; y = y }

-- The T pointing right.
t_right :
    local_cells_for t_piece rotation1
    ≡ point (pos 2) (pos 1)
      ∷ point (pos 1) (pos 2)
      ∷ point (pos 1) (pos 1)
      ∷ point (pos 1) (pos 0)
      ∷ []
unfolding local_cells_for turn_cells rotate_cell_clockwise spawn_cells pivots ◌+ℤ◌ ◌-ℤ◌
t_right = refl

local_cells_for_shape_example :
    (length (local_cells_for i_piece rotation1) ≡ 4)
    × All InBox (local_cells_for i_piece rotation1)
    × IsDistinct (local_cells_for i_piece rotation1)
local_cells_for_shape_example = local_cells_for_shape i_piece rotation1
