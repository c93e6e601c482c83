-- ===== src/Rotation/Tests.antt =====
-- Tests of packages/game-core/src/rotation.ts, and its theorems at concrete positions.
use tetr_d.Base.{arith, ◌≡◌, refl, List, [], ◌∷◌, any}
use tetr_d.Base.Int.{pos, negsuc}
use tetr_d.Base.Result.{ok}
use tetr_d.Pieces.{i_piece, rotation0, cw, Cell, ActivePiece}
use tetr_d.Kicks.{get_kick_tests, target_rotation}
use tetr_d.Board.{fits}
use tetr_d.Board.Samples.{holed, holed-IsBoard}
use tetr_d.Rotation.{
  Playfield, RotationResult, is_placement_valid, try_rotate, create_playfield, has_encoded,
}
use tetr_d.Rotation.Kicked.{Explains, try_rotate-Explains}
use tetr_d.Rotation.Playfields.{
  board_playfield, is_placement_valid-board, create_playfield-is_occupied, same_cell,
}

-- An I piece lying on the floor beside the block.
abbrev on_floor : ActivePiece
on_floor = record { kind = i_piece; rotation = rotation0; x = pos 2; y = negsuc 1 }

abbrev block : Cell
block = record { x = pos 1; y = pos 2 }

abbrev blocks : Playfield
blocks = record { width = 4; height = 6; is_occupied = λ x y. ok (has_encoded 4 (block ∷ []) x y) }

blocks_made : create_playfield (block ∷ []) 4 6 ≡ ok blocks
unfolding create_playfield
blocks_made = refl

try_rotate-Explains_example :
    (kicks : List Cell) × (r : RotationResult) × (get_kick_tests i_piece rotation0 cw ≡ ok kicks)
    × (try_rotate (board_playfield holed) on_floor cw ≡ ok r)
    × Explains holed.rows on_floor (target_rotation rotation0 cw) 0 kicks r
try_rotate-Explains_example = try_rotate-Explains holed on_floor cw holed-IsBoard

is_placement_valid-board_example :
    is_placement_valid (board_playfield holed) on_floor ≡ ok (fits holed.rows on_floor)
is_placement_valid-board_example = is_placement_valid-board on_floor holed-IsBoard

create_playfield-is_occupied_example :
    (blocks.width ≡ 4)
    × (blocks.height ≡ 6)
    × (blocks.is_occupied (pos 1) (pos 2) ≡ ok (any (same_cell (pos 1) (pos 2)) (block ∷ [])))
create_playfield-is_occupied_example =
    create_playfield-is_occupied (block ∷ []) 4 6 blocks (pos 1) (pos 2) (omega arith) blocks_made
      refl
