-- ===== src/Board/Tests.antt =====
-- Tests of packages/game-core/src/board.ts, and its theorems at concrete boards.
use tetr_d.Base.{
  ℕ, ◌+◌, ◌*◌, ◌≤◌, ◌≡◌, ◌↔◌, refl, true, false, List, [], ◌∷◌, ◌++◌, replicate, arith,
}
use tetr_d.Base.Doubles.{to_double, to_double_ℤ}
use tetr_d.Base.Int.{pos, negsuc, ◌+ℤ◌}
use tetr_d.Base.Masks.{has_bit}
use tetr_d.Base.Result.{ok, err, range_error}
use tetr_d.Pieces.{i_piece, o_piece, rotation0, ActivePiece, world_cells_for}
use tetr_d.Board.{
  Board, LockPieceResult, create_board, assert_board, assert_rows, occupied_at,
  is_piece_placement_valid, lock_piece, insert_garbage, fits, is_cell_free, fill_cells, fill_cell,
  sift_rows, settle, is_perfect_clear, garbage_row, is_board_cell_occupied, has_blocks_at_or_above,
  is_piece_locked_out,
}
use tetr_d.Board.Valid.{IsBoard, assert_board_iff, create_board-IsBoard}
use tetr_d.Board.Occupancy.{cell_count, full_count}
use tetr_d.Board.Sifting.{lock_result, settled}
use tetr_d.Board.Locking.{
  lock_piece_iff, cell_count-lock_piece, lock_piece-cleared_le, IsLocked, lock_piece-IsLocked,
}
use tetr_d.Board.Insertion.{insert_result, cell_count-insert_garbage, insert_garbage-occupied_at}

-- Names what a run of the board's functions unfolds.
board_code : Unit {0}
unfolding assert_board assert_rows create_board is_board_cell_occupied is_piece_placement_valid fits
    is_cell_free occupied_at has_bit lock_piece fill_cells fill_cell sift_rows settle
    is_perfect_clear insert_garbage garbage_row has_blocks_at_or_above is_piece_locked_out
    world_cells_for lock_result settled insert_result ◌+ℤ◌ to_double_ℤ to_double
board_code = tt

-- A garbage row with a hole of four columns, and a block above it.
abbrev holed : Board
holed = record { rows = 903 ∷ 1 ∷ replicate 38 0; garbage_rows = true ∷ false ∷ replicate 38 false }

-- An I piece lying in the hole.
abbrev plug : ActivePiece
plug = record { kind = i_piece; rotation = rotation0; x = pos 3; y = negsuc 1 }

abbrev off_board : ActivePiece
off_board = record { kind = o_piece; rotation = rotation0; x = pos 8; y = pos 5 }

plug_fits : is_piece_placement_valid holed plug ≡ ok true
unfolding board_code
plug_fits = refl

off_board_refused : lock_piece holed off_board ≡ err range_error
unfolding board_code
off_board_refused = refl

plug_locked : lock_piece holed plug ≡ ok (lock_result holed plug)
unfolding board_code
plug_locked = refl

plug_result :
    ((lock_result holed plug).cleared_line_count ≡ 1)
    × ((lock_result holed plug).cleared_garbage_line_count ≡ 1)
    × ((lock_result holed plug).board.rows ≡ 1 ∷ replicate 39 0)
unfolding board_code
plug_result = (refl, refl, refl)

abbrev two_holes : List ℕ
two_holes = 4 ∷ 9 ∷ []

garbage_inserted : insert_garbage holed two_holes ≡ ok (insert_result holed two_holes)
unfolding board_code
garbage_inserted = refl

garbage_result :
    ((insert_result holed two_holes).board.rows ≡ 1007 ∷ 511 ∷ 903 ∷ 1 ∷ replicate 36 0)
    × ((insert_result holed two_holes).overflowed ≡ false)
unfolding board_code
garbage_result = (refl, refl)

created : create_board (903 ∷ 1 ∷ []) (true ∷ []) ≡ ok holed
unfolding board_code
created = refl

cell_queries :
    (is_board_cell_occupied holed (pos 3) (pos 0) ≡ ok false)
    × (is_board_cell_occupied holed (pos 0) (pos 1) ≡ ok true)
    × (is_board_cell_occupied holed (pos 10) (pos 0) ≡ err range_error)
    × (has_blocks_at_or_above holed 2 ≡ ok false)
    × (is_piece_locked_out plug 20 ≡ ok false)
unfolding board_code
cell_queries = (refl, refl, refl, refl, refl)

assert_board_iff_example : (assert_board holed ≡ ok tt) ↔ IsBoard holed
assert_board_iff_example = assert_board_iff holed

create_board-IsBoard_example :
    IsBoard holed
    × (holed.rows ≡ (903 ∷ 1 ∷ []) ++ replicate 38 0)
    × (holed.garbage_rows ≡ (true ∷ []) ++ replicate 39 false)
create_board-IsBoard_example = create_board-IsBoard (903 ∷ 1 ∷ []) (true ∷ []) holed created

lock_piece_iff_example :
    ((r : LockPieceResult) × (lock_piece holed plug ≡ ok r))
    ↔ (is_piece_placement_valid holed plug ≡ ok true)
lock_piece_iff_example = lock_piece_iff holed plug

cell_count-lock_piece_example :
    cell_count (lock_result holed plug).board.rows
      + 10 * (lock_result holed plug).cleared_line_count
    ≡ cell_count holed.rows + 4
cell_count-lock_piece_example =
    cell_count-lock_piece holed plug (lock_result holed plug) plug_locked

lock_piece-cleared_le_example :
    ((lock_result holed plug).cleared_line_count ≤ 4)
    × ((lock_result holed plug).cleared_garbage_line_count
        ≤ (lock_result holed plug).cleared_line_count)
unfolding full_count
lock_piece-cleared_le_example =
    lock_piece-cleared_le holed plug (lock_result holed plug) plug_locked refl

lock_piece-IsLocked_example : (rows : List ℕ) × IsLocked holed plug (lock_result holed plug) rows
lock_piece-IsLocked_example = lock_piece-IsLocked holed plug (lock_result holed plug) plug_locked

cell_count-insert_garbage_example :
    cell_count (insert_result holed two_holes).board.rows ≡ cell_count holed.rows + 18
unfolding board_code
cell_count-insert_garbage_example =
    cell_count-insert_garbage holed two_holes (insert_result holed two_holes) garbage_inserted refl

insert_garbage-occupied_at_example :
    occupied_at (insert_result holed two_holes).board.rows 4 2 ≡ occupied_at holed.rows 4 0
insert_garbage-occupied_at_example =
    insert_garbage-occupied_at holed two_holes (insert_result holed two_holes) garbage_inserted 4 2
      (omega arith) (omega arith)
