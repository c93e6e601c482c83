-- ===== src/Board.antt =====
-- packages/game-core/src/board.ts: the 10x40 matrix as bottom-up row masks with a garbage flag for
-- each row. Values that TypeScript's types rule out (a row that is no number) are not modelled; a
-- row is a natural number of any size, a coordinate an integer of any size.
pub mod Valid
pub mod Occupancy
pub mod Sifting
pub mod Reach
pub mod Locking
pub mod Insertion
pub mod Samples
mod Tests
use tetr_d.Base.{
  ℕ, zero, suc, ◌+◌, ◌-◌, ◌≤◌, ◌≡◌, Bool, true, false, not, ◌&&◌, Option, some, none, List, [], ◌∷◌,
  ◌++◌, map, length, take, drop, replicate, get_or, set, all, any, ltb, leb, ◌==◌, if◌then◌else◌,
  bit_or, bit_xor,
}
use tetr_d.Base.Int.{ℤ, pos, pos_part, neg_part, ltb_ℤ, leb_ℤ, to_ℕ}
use tetr_d.Base.Masks.{shift_one, has_bit}
use tetr_d.Base.Result.{range_error, Result, ok, err, guard, ◌>>=◌, ◌>>◌}
use tetr_d.Pieces.{Cell, ActivePiece, world_cells_for}

abbrev pub board_width : ℕ
board_width = 10

abbrev pub board_height : ℕ
board_height = 40

abbrev pub visible_board_height : ℕ
visible_board_height = 20

-- `(1 << BOARD_WIDTH) - 1`
abbrev pub full_row_mask : ℕ
full_row_mask = 1023

-- `Number.MAX_SAFE_INTEGER`
abbrev pub max_safe_integer : ℕ
max_safe_integer = 9007199254740991

abbrev pub is_safe_integer : ℤ → Bool
is_safe_integer a = leb (pos_part a) max_safe_integer && leb (neg_part a) max_safe_integer

pub record Board : Type 0 where
  pub rows : List ℕ
  pub garbage_rows : List Bool

pub record LockPieceResult : Type 0 where
  pub board : Board
  pub cleared_line_count : ℕ
  pub cleared_garbage_line_count : ℕ
  pub cleared_garbage : Bool
  pub cleared_row_indices : List ℕ
  pub perfect_clear : Bool

pub record GarbageInsertResult : Type 0 where
  pub board : Board
  pub overflowed : Bool

-- The loop over the rows in `assertBoard` and `createBoard`.
pub assert_rows : List ℕ → List Bool → Result (Unit {0})
assert_rows (row ∷ rows) (is_garbage ∷ flags) = do
  guard (leb row full_row_mask) range_error
  guard (not (is_garbage && (row == 0))) range_error
  assert_rows rows flags
assert_rows rows flags = ok tt

pub assert_board : Board → Result (Unit {0})
assert_board b = do
  guard ((length b.rows == board_height) && (length b.garbage_rows == board_height)) range_error
  assert_rows b.rows b.garbage_rows

-- Kind and rotation are right by their types.
abbrev pub assert_piece : ActivePiece → Result (Unit {0})
assert_piece p = guard (is_safe_integer p.x && is_safe_integer p.y) range_error

-- On the board's 10x40 cells.
abbrev pub in_matrix : ℤ → ℤ → Bool
in_matrix x y =
    leb_ℤ (pos 0) x && ltb_ℤ x (pos board_width) && leb_ℤ (pos 0) y && ltb_ℤ y (pos board_height)

abbrev pub assert_cell_coordinate : ℤ → ℤ → Result (Unit {0})
assert_cell_coordinate x y =
    guard (is_safe_integer x && is_safe_integer y && in_matrix x y) range_error

-- `Array.from({ length: n }, (_, y) => values[y] ?? fallback)`
abbrev pub normalized {ℓ} : {A : Type ℓ} → ℕ → List A → A → List A
normalized zero values fallback = []
normalized (suc n) [] fallback = fallback ∷ normalized n [] fallback
normalized (suc n) (v ∷ values) fallback = v ∷ normalized n values fallback

unfoldable pub create_board : List ℕ → List Bool → Result Board
unfolding assert_rows
create_board rows garbage_rows = do
  guard (leb (length rows) board_height && leb (length garbage_rows) (length rows)) range_error
  let normalized_rows = normalized board_height rows 0
  let normalized_garbage = normalized board_height garbage_rows false
  assert_rows normalized_rows normalized_garbage
  ok (record { rows = normalized_rows; garbage_rows = normalized_garbage })

-- `(board.rows[y] & (1 << x)) !== 0`
unfoldable pub occupied_at : List ℕ → ℕ → ℕ → Bool
occupied_at rows x y = has_bit (get_or rows y 0) x

unfoldable pub is_board_cell_occupied : Board → ℤ → ℤ → Result Bool
unfolding assert_board occupied_at
is_board_cell_occupied b x y = do
  assert_board b
  assert_cell_coordinate x y
  ok (occupied_at b.rows (to_ℕ x) (to_ℕ y))

-- The test of one cell in `isPiecePlacementValid`.
unfoldable pub is_cell_free : List ℕ → Cell → Bool
is_cell_free rows c = in_matrix c.x c.y && not (occupied_at rows (to_ℕ c.x) (to_ℕ c.y))

abbrev pub piece_cells : ActivePiece → List Cell
piece_cells p = world_cells_for p.kind p.rotation p.x p.y

unfoldable pub fits : List ℕ → ActivePiece → Bool
fits rows p = all (is_cell_free rows) (piece_cells p)

unfoldable pub is_piece_placement_valid : Board → ActivePiece → Result Bool
is_piece_placement_valid b p = do assert_board b; assert_piece p; ok (fits b.rows p)

-- `lockedRows[y] = lockedRows[y] | (1 << x)`
unfoldable pub fill_cell : List ℕ → Cell → List ℕ
fill_cell rows c = set rows (to_ℕ c.y) (bit_or (get_or rows (to_ℕ c.y) 0) (shift_one (to_ℕ c.x)))

unfoldable pub fill_cells : List ℕ → List Cell → List ℕ
fill_cells rows [] = rows
fill_cells rows (c ∷ cs) = fill_cells (fill_cell rows c) cs

pub record Sifted : Type 0 where
  pub remaining_rows : List ℕ
  pub remaining_garbage : List Bool
  pub cleared_row_indices : List ℕ
  pub cleared_garbage_line_count : ℕ

-- The loop of `lockPiece` from row `y` upwards.
unfoldable pub sift_rows : ℕ → List ℕ → List Bool → Sifted
sift_rows y (row ∷ rows) (is_garbage ∷ flags) =
    let rest = sift_rows (y + 1) rows flags in
    if row == full_row_mask
    then record rest {
      cleared_row_indices = y ∷ rest.cleared_row_indices;
      cleared_garbage_line_count = (if is_garbage then 1 else 0) + rest.cleared_garbage_line_count;
    }
    else record rest {
      remaining_rows = row ∷ rest.remaining_rows;
      remaining_garbage = is_garbage ∷ rest.remaining_garbage;
    }
sift_rows y rows flags = record {
  remaining_rows = [];
  remaining_garbage = [];
  cleared_row_indices = [];
  cleared_garbage_line_count = 0;
}

-- `while (values.length < BOARD_HEIGHT) values.push(v)`
abbrev pub refill {ℓ} : {A : Type ℓ} → List A → A → List A
refill values v = values ++ replicate (board_height - length values) v

abbrev is_empty_row : ℕ → Bool
is_empty_row row = row == 0

abbrev is_occupied_row : ℕ → Bool
is_occupied_row row = not (row == 0)

unfoldable pub is_perfect_clear : Board → Result Bool
unfolding assert_board
is_perfect_clear b = do assert_board b; ok (all is_empty_row b.rows)

-- The board after the loop, before the result is built.
unfoldable pub settle : Sifted → Board
settle s = record {
  rows = refill s.remaining_rows 0;
  garbage_rows = refill s.remaining_garbage false;
}

unfoldable pub lock_piece : Board → ActivePiece → Result LockPieceResult
lock_piece b p = do
  valid ← is_piece_placement_valid b p
  guard valid range_error
  let sifted = sift_rows 0 (fill_cells b.rows (piece_cells p)) b.garbage_rows
  perfect ← is_perfect_clear (settle sifted)
  ok (record {
    board = settle sifted;
    cleared_line_count = length sifted.cleared_row_indices;
    cleared_garbage_line_count = sifted.cleared_garbage_line_count;
    cleared_garbage = ltb 0 sifted.cleared_garbage_line_count;
    cleared_row_indices = sifted.cleared_row_indices;
    perfect_clear = perfect;
  })

-- `FULL_ROW_MASK ^ (1 << hole)`
unfoldable pub garbage_row : ℕ → ℕ
garbage_row hole = bit_xor full_row_mask (shift_one hole)

abbrev pub is_hole : ℕ → Bool
is_hole hole = ltb hole board_width

unfoldable pub insert_garbage : Board → List ℕ → Result GarbageInsertResult
unfolding garbage_row
insert_garbage b holes = do
  assert_board b
  guard (leb (length holes) board_height) range_error
  guard (all is_hole holes) range_error
  let count = length holes
  if count == 0
      then ok (record { board = b; overflowed = false })
      else ok (record {
        board = record {
          rows = map garbage_row holes ++ take (board_height - count) b.rows;
          garbage_rows = replicate count true ++ take (board_height - count) b.garbage_rows;
        };
        overflowed = any is_occupied_row (drop (board_height - count) b.rows);
      })

unfoldable pub has_blocks_at_or_above : Board → ℕ → Result Bool
has_blocks_at_or_above b y = do
  assert_board b
  guard (leb y board_height) range_error
  ok (any is_occupied_row (drop y b.rows))

unfoldable pub is_piece_locked_out : ActivePiece → ℕ → Result Bool
is_piece_locked_out p visible_height = do
  assert_piece p
  guard (leb visible_height board_height) range_error
  ok (all (λ c. leb_ℤ (pos visible_height) c.y) (piece_cells p))
