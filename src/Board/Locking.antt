-- ===== src/Board/Locking.antt =====
-- `lockPiece` of packages/game-core/src/board.ts: what a lock accepts, adds, clears and keeps.
use tetr_d.Base.{
  ℕ, ◌+◌, ◌-◌, ◌*◌, ◌≤◌, ◌%◌, ◌≡◌, ◌↔◌, sym, subst, ◌∙◌, true, ◌||◌, List, ◌++◌, length, get_or,
  replicate, any, arith, ◌==◌,
}
use tetr_d.Base.Result.{ok, range_error, guard, >>=-eq-ok, guard-eq-ok, ok-injective}
use tetr_d.Pieces.{ActivePiece}
use tetr_d.Board.Reach.{piece_cells-IsDistinct}
use tetr_d.Board.Valid.{IsBoard, assert_board-ok}
use tetr_d.Board.Occupancy.{
  cell_count, full_count, Filled, fill_cells-Filled, fill_cells-occupied_at, covers,
}
use tetr_d.Board.Sifting.{
  kept_rows, full_count-kept_rows, IsSifted, sift_rows-IsSifted, sift_rows-reported, reported,
  settle-IsBoard, cell_count-settle, merged, settled, lock_result, is_piece_placement_valid_sound,
  fits-All-IsFree,
}
use tetr_d.Board.{
  Board, LockPieceResult, settle, fits, piece_cells, occupied_at, is_perfect_clear,
  is_piece_placement_valid, lock_piece,
}

module _ (b : Board) (p : ActivePiece) (v : IsBoard b) (fit : fits b.rows p ≡ true) where
  merged-Filled : Filled b.garbage_rows b.rows (piece_cells p) (merged b p)
  merged-Filled =
      fill_cells-Filled b.garbage_rows b.rows (piece_cells p) v.fit v.height
        (piece_cells-IsDistinct b.rows p fit).1 (fits-All-IsFree b.rows p fit)

  settled-IsSifted : IsSifted 0 (merged b p) b.garbage_rows (settled b p)
  unfolding settled
  settled-IsSifted = sift_rows-IsSifted 0 (merged b p) b.garbage_rows merged-Filled.fit

  settled-IsBoard : IsBoard (settle (settled b p))
  settled-IsBoard = settle-IsBoard (settled b p) settled-IsSifted merged-Filled.high

-- A valid placement is locked, and the result is `lock_result`.
pub lock_piece_lem :
    (b : Board) (p : ActivePiece)
    → is_piece_placement_valid b p ≡ ok true
    → lock_piece b p ≡ ok (lock_result b p)
unfolding lock_piece lock_result settled is_perfect_clear
lock_piece_lem b p valid =
    let (v, fit) = is_piece_placement_valid_sound b p valid in
    rw (valid, assert_board-ok (settled-IsBoard b p v fit))

lock_piece-valid :
    (b : Board) (p : ActivePiece) {r : LockPieceResult}
    → lock_piece b p ≡ ok r
    → is_piece_placement_valid b p ≡ ok true
unfolding lock_piece
lock_piece-valid b p h =
    let (valid, tested, h') = >>=-eq-ok (is_piece_placement_valid b p) _ h in
    let (u, passed, _) = >>=-eq-ok (guard valid range_error) _ h' in
    rw (← guard-eq-ok valid range_error passed) tested

-- Locking succeeds exactly on a valid placement.
pub lock_piece_iff :
    (b : Board) (p : ActivePiece)
    → ((r : LockPieceResult) × (lock_piece b p ≡ ok r)) ↔ (is_piece_placement_valid b p ≡ ok true)
lock_piece_iff b p =
    (λ h. lock_piece-valid b p h.1, λ valid. (lock_result b p, lock_piece_lem b p valid))

-- A successful lock returns `lock_result`.
pub lock_piece-result :
    (b : Board) (p : ActivePiece) {r : LockPieceResult}
    → lock_piece b p ≡ ok r
    → lock_result b p ≡ r
lock_piece-result b p h = ok-injective (sym (lock_piece_lem b p (lock_piece-valid b p h)) ∙ h)

module _ (b : Board) (p : ActivePiece) (r : LockPieceResult) (h : lock_piece b p ≡ ok r) where
  v : IsBoard b
  v = (is_piece_placement_valid_sound b p (lock_piece-valid b p h)).0

  fit : fits b.rows p ≡ true
  fit = (is_piece_placement_valid_sound b p (lock_piece-valid b p h)).1

  is_result : lock_result b p ≡ r
  is_result = lock_piece-result b p h

  -- The board after a lock that succeeds is well formed.
  pub lock_piece-IsBoard : IsBoard r.board
  unfolding lock_result
  lock_piece-IsBoard = rw (← is_result) (settled-IsBoard b p v fit)

  -- A lock adds the piece's four cells and takes ten away for each cleared row.
  pub cell_count-lock_piece :
      cell_count r.board.rows + 10 * r.cleared_line_count ≡ cell_count b.rows + 4
  unfolding lock_result
  cell_count-lock_piece = rw (← is_result) (
      omega (
        arith,
        cell_count-settle (settled b p) (settled-IsSifted b p v fit) (merged-Filled b p v fit).high,
        (merged-Filled b p v fit).counted,
        (piece_cells-IsDistinct b.rows p fit).0,
      ))

  settled_rows : r.board.rows ≡ kept_rows (merged b p) ++ replicate r.cleared_line_count 0
  unfolding lock_result settle
  settled_rows =
      let sifted = settled-IsSifted b p v fit in
      let left : 40 - length (settled b p).remaining_rows
          ≡ length (settled b p).cleared_row_indices =
        omega (arith, sifted.partition, (merged-Filled b p v fit).high) in
      rw (← is_result, left, sifted.kept)

  -- After a lock no row is full.
  pub full_count-lock_piece : full_count r.board.rows ≡ 0
  full_count-lock_piece = rw settled_rows (full_count-kept_rows (merged b p) r.cleared_line_count)

  -- On a board without full rows a lock clears at most four lines, of which the garbage lines are
  -- some.
  pub lock_piece-cleared_le :
      full_count b.rows ≡ 0
      → (r.cleared_line_count ≤ 4) × (r.cleared_garbage_line_count ≤ r.cleared_line_count)
  unfolding lock_result
  lock_piece-cleared_le none_full =
      let sifted = settled-IsSifted b p v fit in
      let filled = merged-Filled b p v fit in
      let four = (piece_cells-IsDistinct b.rows p fit).0 in
      rw (← is_result) (omega (arith, sifted.full, filled.completed, four), sifted.garbage)

-- What a lock does, cell by cell: the piece's cells and the old ones are occupied, then the full
-- rows go and empty ones come in on top. Columns are read modulo 10 and rows modulo 40.
pub record IsLocked (b : Board) (p : ActivePiece) (r : LockPieceResult) (rows : List ℕ)
    : Type 0 where
  pub height : length rows ≡ 40
  pub cells :
      (x y : ℕ)
      → occupied_at rows (x % 10) y
        ≡ (any (covers (x % 10) y) (piece_cells p) || occupied_at b.rows (x % 10) y)
  pub cleared : (n : ℕ) → reported (n % 40) r.cleared_row_indices ≡ (get_or rows (n % 40) 0 == 1023)
  pub settled : r.board.rows ≡ kept_rows rows ++ replicate r.cleared_line_count 0

-- A lock that succeeds occupies the piece's cells beside the old ones, reports the rows that are then
-- full, and moves the other rows down, with empty ones on top.
pub lock_piece-IsLocked :
    (b : Board) (p : ActivePiece) (r : LockPieceResult)
    → lock_piece b p ≡ ok r
    → (rows : List ℕ) × IsLocked b p r rows
lock_piece-IsLocked b p r h =
    let w = v b p r h in
    let fitting = fit b p r h in
    let filled = merged-Filled b p w fitting in
    (
      merged b p,
      record {
        height = filled.high;
        cells = λ x y.
            fill_cells-occupied_at b.garbage_rows b.rows (piece_cells p) (x % 10) y w.fit w.height
              (piece_cells-IsDistinct b.rows p fitting).1 (fits-All-IsFree b.rows p fitting)
              (omega arith);
        cleared = λ n.
            subst
              (λ q.
                reported (n % 40) q.cleared_row_indices ≡ (get_or (merged b p) (n % 40) 0 == 1023))
              (is_result b p r h)
              (unfold lock_result in
                sift_rows-reported 0 (merged b p) b.garbage_rows (n % 40) (n % 40) (omega arith)
                  filled.fit (omega (arith, filled.high)));
        settled = settled_rows b p r h;
      },
    )
