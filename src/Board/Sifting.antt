-- ===== src/Board/Sifting.antt =====
-- The row loop of `lockPiece` in packages/game-core/src/board.ts, and the result built from it.
use tetr_d.Base.{
  ℕ, zero, suc, ◌+◌, ◌-◌, ◌*◌, ◌≤◌, ◌<◌, ◌≡◌, inl, inr, refl, ap, ◌∙◌, Bool, true, false, ◌&&◌,
  List, [], ◌∷◌, ◌++◌, length, get_or, replicate, all, any, arith, All, all_sound, length-append,
  length-replicate, Bool-cases, ◌==◌, ==_iff, ltb, if◌then◌else◌,
}
use tetr_d.Base.Result.{ok, range_error, guard, >>=-eq-ok, ok-injective}
use tetr_d.Base.Masks.{popcount}
use tetr_d.Pieces.{Cell, ActivePiece}
use tetr_d.Board.Valid.{RowsFit, RowsFit-length, IsBoard, assert_board_iff, assert_board-ok}
use tetr_d.Board.Occupancy.{cell_count, full_count, IsFree, is_cell_free_iff_sound}
use tetr_d.Board.{
  Board, LockPieceResult, Sifted, sift_rows, settle, fits, piece_cells, fill_cells, is_cell_free,
  is_piece_placement_valid, assert_board, is_safe_integer,
}

-- The rows that are not full, in order.
pub kept_rows : List ℕ → List ℕ
kept_rows [] = []
kept_rows (r ∷ rs) = if r == 1023 then kept_rows rs else r ∷ kept_rows rs

-- The loop of `lockPiece` over rows and flags of equal length.
pub record IsSifted (y : ℕ) (rs : List ℕ) (gs : List Bool) (s : Sifted) : Type 0 where
  pub fit : RowsFit s.remaining_rows s.remaining_garbage
  pub kept : s.remaining_rows ≡ kept_rows rs
  pub partition : length s.remaining_rows + length s.cleared_row_indices ≡ length rs
  pub cells : cell_count s.remaining_rows + 10 * length s.cleared_row_indices ≡ cell_count rs
  pub full : length s.cleared_row_indices ≡ full_count rs
  pub garbage : s.cleared_garbage_line_count ≤ length s.cleared_row_indices

popcount-full : popcount 1023 ≡ 10
unfolding popcount
popcount-full = refl

pub sift_rows-IsSifted :
    (y : ℕ) (rs : List ℕ) (gs : List Bool) → RowsFit rs gs → IsSifted y rs gs (sift_rows y rs gs)
unfolding sift_rows cell_count full_count kept_rows
sift_rows-IsSifted y [] [] h = record {
  fit = tt;
  kept = refl;
  partition = refl;
  cells = omega arith;
  full = refl;
  garbage = omega arith;
}
sift_rows-IsSifted y [] (g ∷ gs) h = absurd h
sift_rows-IsSifted y (r ∷ rs) [] h = absurd h
sift_rows-IsSifted y (r ∷ rs) (g ∷ gs) h =
    let rest = sift_rows-IsSifted (y + 1) rs gs h.2 in
    elim (Bool-cases (r == 1023)) [
      | inl e ↦
          let is_full : r ≡ 1023 = (==_iff _ _).0 e in
          let ten : popcount r ≡ 10 = rw is_full popcount-full in
          rw e (record {
            fit = rest.fit;
            kept = rw e rest.kept;
            partition = omega (arith, rest.partition);
            cells = omega (arith, rest.cells, ten);
            full = rw e (omega (arith, rest.full));
            garbage = ground (arith, rest.garbage);
          })
      | inr e ↦ rw e (record {
        fit = (h.0, h.1, rest.fit);
        kept = rw e (ap (λ k. r ∷ k) rest.kept);
        partition = omega (arith, rest.partition);
        cells = omega (arith, rest.cells);
        full = rw e rest.full;
        garbage = rest.garbage;
      })
    ]

sift_rows-above :
    (y m : ℕ) (rs : List ℕ) (gs : List Bool)
    → m ≤ y
    → All (λ k. m ≤ k) (sift_rows y rs gs).cleared_row_indices
unfolding sift_rows
sift_rows-above y m [] gs h = tt
sift_rows-above y m (r ∷ rs) [] h = tt
sift_rows-above y m (r ∷ rs) (g ∷ gs) h = elim (Bool-cases (r == 1023)) [
  | inl e ↦ rw e (h, sift_rows-above (y + 1) m rs gs (omega arith))
  | inr e ↦ rw e (sift_rows-above (y + 1) m rs gs (omega arith))
]

any_above : (m : ℕ) (ks : List ℕ) → All (λ k. m + 1 ≤ k) ks → any (λ k. k == m) ks ≡ false
any_above m [] h = refl
any_above m (k ∷ ks) h = ground (arith, any_above m ks h.1)

-- Number `m` is in the list.
abbrev pub reported : ℕ → List ℕ → Bool
reported m ks = any (λ k. k == m) ks

-- The row with number `m = y + n` is reported as cleared exactly when it is full.
pub sift_rows-reported :
    (y : ℕ) (rs : List ℕ) (gs : List Bool) (n m : ℕ)
    → m ≡ y + n
    → RowsFit rs gs
    → n < length rs
    → reported m (sift_rows y rs gs).cleared_row_indices ≡ (get_or rs n 0 == 1023)
unfolding sift_rows
sift_rows-reported y [] gs n m e h lt = absurd (omega arith)
sift_rows-reported y (r ∷ rs) [] n m e h lt = absurd h
sift_rows-reported y (r ∷ rs) (g ∷ gs) zero m e h lt =
    let later : any (λ k. k == m) (sift_rows (y + 1) rs gs).cleared_row_indices ≡ false =
      any_above m _ (sift_rows-above (y + 1) (m + 1) rs gs (omega arith)) in
    elim (Bool-cases (r == 1023)) [ inl full ↦ rw full (ground arith) | inr kept ↦ rw kept later ]
sift_rows-reported y (r ∷ rs) (g ∷ gs) (suc n) m e h lt =
    let later = sift_rows-reported (y + 1) rs gs n m (omega arith) h.2 (omega arith) in
    elim (Bool-cases (r == 1023)) [
      | inl full ↦ rw full (ground (arith, later))
      | inr kept ↦ rw kept later
    ]

refill-RowsFit :
    (n : ℕ) (rs : List ℕ) (gs : List Bool)
    → RowsFit rs gs
    → RowsFit (rs ++ replicate n 0) (gs ++ replicate n false)
refill-RowsFit zero [] [] h = tt
refill-RowsFit (suc n) [] [] h = (omega arith, inl refl, refill-RowsFit n [] [] tt)
refill-RowsFit n [] (g ∷ gs) h = absurd h
refill-RowsFit n (r ∷ rs) [] h = absurd h
refill-RowsFit n (r ∷ rs) (g ∷ gs) h = (h.0, h.1, refill-RowsFit n rs gs h.2)

cell_count-refill : (n : ℕ) (rs : List ℕ) → cell_count (rs ++ replicate n 0) ≡ cell_count rs
unfolding cell_count popcount
cell_count-refill zero [] = refl
cell_count-refill (suc n) [] = omega (arith, cell_count-refill n [])
cell_count-refill n (r ∷ rs) = omega (arith, cell_count-refill n rs)

module _ (s : Sifted) {y : ℕ} {rs : List ℕ} {gs : List Bool} (v : IsSifted y rs gs s)
    (high : length rs ≡ 40) where
  flags_length : length s.remaining_garbage ≡ length s.remaining_rows
  flags_length = RowsFit-length s.remaining_rows s.remaining_garbage v.fit

  pub settle-IsBoard : IsBoard (settle s)
  unfolding settle
  settle-IsBoard = record {
    height =
        length-append s.remaining_rows _
        ∙ omega (arith, length-replicate {A = ℕ} (40 - length s.remaining_rows) 0, v.partition);
    fit =
        rw flags_length (
          refill-RowsFit (40 - length s.remaining_rows) s.remaining_rows s.remaining_garbage v.fit);
  }

  pub cell_count-settle :
      cell_count (settle s).rows + 10 * length s.cleared_row_indices ≡ cell_count rs
  unfolding settle
  cell_count-settle =
      omega (arith, cell_count-refill (40 - length s.remaining_rows) s.remaining_rows, v.cells)

pub full_count-kept_rows : (rs : List ℕ) (n : ℕ) → full_count (kept_rows rs ++ replicate n 0) ≡ 0
unfolding full_count kept_rows
full_count-kept_rows [] zero = refl
full_count-kept_rows [] (suc n) = full_count-kept_rows [] n
full_count-kept_rows (r ∷ rs) n = elim (Bool-cases (r == 1023)) [
  | inl e ↦ rw e (full_count-kept_rows rs n)
  | inr e ↦ rw (e, full_count, e) (full_count-kept_rows rs n)
]

-- The board with the piece's cells filled and nothing cleared yet.
abbrev pub merged : Board → ActivePiece → List ℕ
merged b p = fill_cells b.rows (piece_cells p)

unfoldable pub settled : Board → ActivePiece → Sifted
settled b p = sift_rows 0 (merged b p) b.garbage_rows

-- The result that `lockPiece` returns.
unfoldable pub lock_result : Board → ActivePiece → LockPieceResult
unfolding settled
lock_result b p = record {
  board = settle (settled b p);
  cleared_line_count = length (settled b p).cleared_row_indices;
  cleared_garbage_line_count = (settled b p).cleared_garbage_line_count;
  cleared_garbage = ltb 0 (settled b p).cleared_garbage_line_count;
  cleared_row_indices = (settled b p).cleared_row_indices;
  perfect_clear = all (λ row. row == 0) (settle (settled b p)).rows;
}

-- On a well-formed board with safe coordinates a placement test gives an answer.
pub is_piece_placement_valid-eq :
    {b : Board} (p : ActivePiece)
    → IsBoard b
    → (is_safe_integer p.x && is_safe_integer p.y) ≡ true
    → is_piece_placement_valid b p ≡ ok (fits b.rows p)
unfolding is_piece_placement_valid
is_piece_placement_valid-eq {b} p v safe = rw (assert_board-ok v, safe)

-- A placement found valid is on a well-formed board and fits.
pub is_piece_placement_valid_sound :
    (b : Board) (p : ActivePiece)
    → is_piece_placement_valid b p ≡ ok true
    → IsBoard b × (fits b.rows p ≡ true)
unfolding is_piece_placement_valid
is_piece_placement_valid_sound b p h =
    let (u, asserted, h') = >>=-eq-ok (assert_board b) _ h in
    let (w, safe, h'') =
      >>=-eq-ok (guard (is_safe_integer p.x && is_safe_integer p.y) range_error) _ h' in
    ((assert_board_iff b).0 asserted, ok-injective h'')

frees_of :
    (rows : List ℕ) (cs : List Cell)
    → All (λ c. is_cell_free rows c ≡ true) cs
    → All (IsFree rows) cs
frees_of rows [] h = tt
frees_of rows (c ∷ cs) (h, hs) = (is_cell_free_iff_sound rows c h, frees_of rows cs hs)

-- The cells of a piece that fits are free.
pub fits-All-IsFree :
    (rows : List ℕ) (p : ActivePiece) → fits rows p ≡ true → All (IsFree rows) (piece_cells p)
unfolding fits
fits-All-IsFree rows p h =
    frees_of rows (piece_cells p) (all_sound (is_cell_free rows) (piece_cells p) h)
