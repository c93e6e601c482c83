-- ===== src/Pieces.antt =====
-- packages/game-core/src/types.ts and pieces.ts: the seven kinds, their spawn cells and pivots, and
-- the cells that a piece covers. Coordinates are signed; a pivot is kept in half units, so that 1.5
-- is `pos 3`, and `Math.round` of a number of half units rounds a half up.
pub mod Shapes
mod Tests
use tetr_d.Base.{ℕ, zero, suc, ◌≡◌, refl, Bool, true, false, ◌&&◌, List, [], ◌∷◌, map, length}
use tetr_d.Base.Doubles.{to_double_ℤ}
use tetr_d.Base.Int.{ℤ, pos, negsuc, ◌+ℤ◌, ◌-ℤ◌, half_floor}

pub data PieceKind : Type 0 where
  i_piece j_piece l_piece o_piece s_piece t_piece z_piece : PieceKind

-- `PIECE_KINDS`
abbrev pub piece_kinds : List PieceKind
piece_kinds = i_piece ∷ j_piece ∷ l_piece ∷ o_piece ∷ s_piece ∷ t_piece ∷ z_piece ∷ []

-- The states 0 (spawn), 1 (R), 2 (reverse) and 3 (L).
pub data RotationState : Type 0 where
  rotation0 rotation1 rotation2 rotation3 : RotationState

abbrev pub rotation_index : RotationState → ℕ
rotation_index rotation0 = 0
rotation_index rotation1 = 1
rotation_index rotation2 = 2
rotation_index rotation3 = 3

pub data RotationDirection : Type 0 where
  cw ccw half_turn : RotationDirection

pub record Cell : Type 0 where
  pub x : ℤ
  pub y : ℤ

pub record ActivePiece : Type 0 where
  pub kind : PieceKind
  pub rotation : RotationState
  pub x : ℤ
  pub y : ℤ

-- A cell at natural coordinates, as the tables write them.
abbrev pub cell : ℕ → ℕ → Cell
cell a b = record { x = pos a; y = pos b }

unfoldable pub spawn_cells : PieceKind → List Cell
spawn_cells i_piece = cell 0 2 ∷ cell 1 2 ∷ cell 2 2 ∷ cell 3 2 ∷ []
spawn_cells j_piece = cell 0 2 ∷ cell 0 1 ∷ cell 1 1 ∷ cell 2 1 ∷ []
spawn_cells l_piece = cell 2 2 ∷ cell 0 1 ∷ cell 1 1 ∷ cell 2 1 ∷ []
spawn_cells o_piece = cell 1 2 ∷ cell 2 2 ∷ cell 1 1 ∷ cell 2 1 ∷ []
spawn_cells s_piece = cell 1 2 ∷ cell 2 2 ∷ cell 0 1 ∷ cell 1 1 ∷ []
spawn_cells t_piece = cell 1 2 ∷ cell 0 1 ∷ cell 1 1 ∷ cell 2 1 ∷ []
spawn_cells z_piece = cell 0 2 ∷ cell 1 2 ∷ cell 1 1 ∷ cell 2 1 ∷ []

-- In half units.
unfoldable pub pivots : PieceKind → Cell
pivots i_piece = cell 3 3
pivots o_piece = cell 3 3
pivots _ = cell 2 2

abbrev pub double : ℤ → ℤ
double a = a +ℤ a

-- `Math.round` of a number of half units.
unfoldable pub round_half : ℤ → ℤ
round_half a = half_floor (a +ℤ pos 1)

-- Exact, like the code's doubles, for the half units of the 4x4 box, the only cells that it turns.
unfoldable pub rotate_cell_clockwise : Cell → Cell → Cell
unfolding round_half half_floor ◌+ℤ◌ ◌-ℤ◌
rotate_cell_clockwise c pivot =
    let relative_x = double c.x -ℤ pivot.x in
    let relative_y = double c.y -ℤ pivot.y in
    record { x = round_half (pivot.x +ℤ relative_y); y = round_half (pivot.y -ℤ relative_x) }

-- The loop `for (turn = 0; turn < rotation; turn += 1)`, on the turns left.
unfoldable pub turn_cells : ℕ → Cell → List Cell → List Cell
unfolding rotate_cell_clockwise
turn_cells zero pivot cells = cells
turn_cells (suc turns) pivot cells =
    turn_cells turns pivot (map (λ c. rotate_cell_clockwise c pivot) cells)

unfoldable pub local_cells_for : PieceKind → RotationState → List Cell
unfolding turn_cells spawn_cells pivots
local_cells_for kind rotation =
    turn_cells (rotation_index rotation) (pivots kind) (spawn_cells kind)

-- The sums are rounded as doubles are.
abbrev pub translate : ℤ → ℤ → Cell → Cell
translate origin_x origin_y c = record {
  x = to_double_ℤ (origin_x +ℤ c.x);
  y = to_double_ℤ (origin_y +ℤ c.y);
}

unfoldable pub world_cells_for : PieceKind → RotationState → ℤ → ℤ → List Cell
unfolding local_cells_for
world_cells_for kind rotation origin_x origin_y =
    map (translate origin_x origin_y) (local_cells_for kind rotation)
