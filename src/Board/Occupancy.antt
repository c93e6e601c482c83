-- ===== src/Board/Occupancy.antt =====
-- The cells of a board of packages/game-core/src/board.ts, and what filling some of them does.
use tetr_d.Base.{
  ℕ, zero, suc, ◌+◌, ◌≤◌, ◌<◌, ◌≡◌, ◌⊎◌, inl, inr, refl, ap, sym, ◌∙◌, Bool, true, false, ◌&&◌,
  ◌||◌, List, [], ◌∷◌, length, set, get_or, any, arith, All, length-set, Bool-cases, ◌==◌, ==_iff,
  bit_or, if◌then◌else◌,
}
use tetr_d.Base.Int.{pos, to_ℕ}
use tetr_d.Base.Masks.{has_bit, popcount, shift_one, or-lt, or_pos, popcount-or, has_bit-or}
use tetr_d.Pieces.{Cell}
use tetr_d.Pieces.Shapes.{SameCell, IsDistinct}
use tetr_d.Board.Valid.{RowsFit}
use tetr_d.Board.{occupied_at, is_cell_free, fill_cell, fill_cells}

-- How many cells are occupied.
unfoldable pub cell_count : List ℕ → ℕ
cell_count [] = 0
cell_count (r ∷ rs) = popcount r + cell_count rs

-- Cell `c` stands at column `x` of row `y`.
abbrev pub covers : ℕ → ℕ → Cell → Bool
covers x y c = (to_ℕ c.x == x) && (to_ℕ c.y == y)

-- How many rows are full.
unfoldable pub full_count : List ℕ → ℕ
full_count [] = 0
full_count (r ∷ rs) = if r == 1023 then suc (full_count rs) else full_count rs

-- What the test of a cell establishes.
pub record IsFree (rows : List ℕ) (c : Cell) : Type 0 where
  pub column : to_ℕ c.x < 10
  pub row : to_ℕ c.y < 40
  pub x_natural : c.x ≡ pos (to_ℕ c.x)
  pub y_natural : c.y ≡ pos (to_ℕ c.y)
  pub clear : occupied_at rows (to_ℕ c.x) (to_ℕ c.y) ≡ false

pub is_cell_free_iff_sound : (rows : List ℕ) (c : Cell) → is_cell_free rows c ≡ true → IsFree rows c
unfolding is_cell_free
is_cell_free_iff_sound rows c h = record {
  column = ground arith;
  row = ground arith;
  x_natural = ground arith;
  y_natural = ground arith;
  clear = ground arith;
}

-- Setting one bit of one row.
module _ (x : ℕ) (column : x < 10) where
  abbrev fill_row : List ℕ → ℕ → List ℕ
  fill_row rows y = set rows y (bit_or (get_or rows y 0) (shift_one x))

  fill_row-RowsFit :
      (rows : List ℕ) (gs : List Bool) (y : ℕ) → RowsFit rows gs → RowsFit (fill_row rows y) gs
  fill_row-RowsFit [] gs y h = h
  fill_row-RowsFit (r ∷ rs) [] y h = absurd h
  fill_row-RowsFit (r ∷ rs) (g ∷ gs) zero h =
      (or-lt r x h.0 column, inr (or_pos r x h.0 column), h.2)
  fill_row-RowsFit (r ∷ rs) (g ∷ gs) (suc y) h = (h.0, h.1, fill_row-RowsFit rs gs y h.2)

  cell_count-fill_row :
      (rows : List ℕ) (gs : List Bool) (y : ℕ)
      → RowsFit rows gs
      → y < length rows
      → has_bit (get_or rows y 0) x ≡ false
      → cell_count (fill_row rows y) ≡ cell_count rows + 1
  unfolding cell_count
  cell_count-fill_row [] gs y h lt clear = absurd (omega arith)
  cell_count-fill_row (r ∷ rs) [] y h lt clear = absurd h
  cell_count-fill_row (r ∷ rs) (g ∷ gs) zero h lt clear =
      omega (arith, popcount-or r x h.0 column clear)
  cell_count-fill_row (r ∷ rs) (g ∷ gs) (suc y) h lt clear =
      omega (arith, cell_count-fill_row rs gs y h.2 (omega arith) clear)

  full_count-fill_row : (rows : List ℕ) (y : ℕ) → full_count (fill_row rows y) ≤ full_count rows + 1
  unfolding full_count
  full_count-fill_row [] y = omega arith
  full_count-fill_row (r ∷ rs) zero = ground arith
  full_count-fill_row (r ∷ rs) (suc y) = ground (arith, full_count-fill_row rs y)

  -- Exactly that cell changes.
  has_bit-fill_row :
      (rows : List ℕ) (gs : List Bool) (y x' y' : ℕ)
      → RowsFit rows gs
      → y < length rows
      → x' < 10
      → has_bit (get_or (fill_row rows y) y' 0) x'
        ≡ ((x == x') && (y == y') || has_bit (get_or rows y' 0) x')
  has_bit-fill_row [] gs y x' y' h lt lx = absurd (omega arith)
  has_bit-fill_row (r ∷ rs) [] y x' y' h lt lx = absurd h
  has_bit-fill_row (r ∷ rs) (g ∷ gs) zero x' zero h lt lx =
      rw (has_bit-or r x h.0 column x' lx) (ground arith)
  has_bit-fill_row (r ∷ rs) (g ∷ gs) zero x' (suc y') h lt lx = ground arith
  has_bit-fill_row (r ∷ rs) (g ∷ gs) (suc y) x' zero h lt lx = ground arith
  has_bit-fill_row (r ∷ rs) (g ∷ gs) (suc y) x' (suc y') h lt lx =
      rw (has_bit-fill_row rs gs y x' y' h.2 (omega arith) lx) (ground arith)

module _ (gs : List Bool) where
  -- Filling a free cell leaves the other free cells free.
  fill_cell-IsFree :
      (rows : List ℕ) (c d : Cell)
      → RowsFit rows gs
      → length rows ≡ 40
      → IsFree rows c
      → ¬ SameCell c d
      → IsFree rows d
      → IsFree (fill_cell rows c) d
  unfolding fill_cell occupied_at
  fill_cell-IsFree rows c d fit high f other k = record {
    column = k.column;
    row = k.row;
    x_natural = k.x_natural;
    y_natural = k.y_natural;
    clear =
        rw
          (has_bit-fill_row (to_ℕ c.x) f.column rows gs (to_ℕ c.y) (to_ℕ d.x) (to_ℕ d.y) fit
            (omega (arith, f.row)) k.column)
          (apart (Bool-cases (to_ℕ c.x == to_ℕ d.x)) (Bool-cases (to_ℕ c.y == to_ℕ d.y)));
  }
    where
      apart :
          ((to_ℕ c.x == to_ℕ d.x) ≡ true) ⊎ ((to_ℕ c.x == to_ℕ d.x) ≡ false)
          → ((to_ℕ c.y == to_ℕ d.y) ≡ true) ⊎ ((to_ℕ c.y == to_ℕ d.y) ≡ false)
          → ((to_ℕ c.x == to_ℕ d.x) && (to_ℕ c.y == to_ℕ d.y)
              || has_bit (get_or rows (to_ℕ d.y) 0) (to_ℕ d.x))
            ≡ false
      apart (inl ex) (inl ey) = absurd (
          other (
            f.x_natural ∙ ap pos ((==_iff _ _).0 ex) ∙ sym k.x_natural,
            f.y_natural ∙ ap pos ((==_iff _ _).0 ey) ∙ sym k.y_natural,
          ))
      apart (inl ex) (inr ny) = rw (ex, ny) k.clear
      apart (inr nx) e = rw nx k.clear

  fill_cell-All-IsFree :
      (rows : List ℕ) (c : Cell) (cs : List Cell)
      → RowsFit rows gs
      → length rows ≡ 40
      → IsFree rows c
      → All (λ d. ¬ SameCell c d) cs
      → All (IsFree rows) cs
      → All (IsFree (fill_cell rows c)) cs
  fill_cell-All-IsFree rows c [] fit high f others frees = tt
  fill_cell-All-IsFree rows c (d ∷ cs) fit high f (other, others) (free, frees) = (
    fill_cell-IsFree rows c d fit high f other free,
    fill_cell-All-IsFree rows c cs fit high f others frees,
  )

  -- Different free cells, filled one after another.
  pub record Filled (rows : List ℕ) (cs : List Cell) (rows' : List ℕ) : Type 0 where
    pub fit : RowsFit rows' gs
    pub high : length rows' ≡ 40
    pub counted : cell_count rows' ≡ cell_count rows + length cs
    pub completed : full_count rows' ≤ full_count rows + length cs

  pub fill_cells-Filled :
      (rows : List ℕ) (cs : List Cell)
      → RowsFit rows gs
      → length rows ≡ 40
      → IsDistinct cs
      → All (IsFree rows) cs
      → Filled rows cs (fill_cells rows cs)
  unfolding fill_cells
  fill_cells-Filled rows [] fit high distinct frees = record {
    fit = fit;
    high = high;
    counted = omega arith;
    completed = omega arith;
  }
  fill_cells-Filled rows (c ∷ cs) fit high (others, distinct) (free, frees) =
      let fit' : RowsFit (fill_cell rows c) gs =
        unfold fill_cell in fill_row-RowsFit (to_ℕ c.x) free.column rows gs (to_ℕ c.y) fit in
      let high' : length (fill_cell rows c) ≡ 40 =
        unfold fill_cell in length-set rows (to_ℕ c.y) _ ∙ high in
      let one : cell_count (fill_cell rows c) ≡ cell_count rows + 1 =
        unfold fill_cell occupied_at in
        cell_count-fill_row (to_ℕ c.x) free.column rows gs (to_ℕ c.y) fit (omega (arith, free.row))
          free.clear in
      let more : full_count (fill_cell rows c) ≤ full_count rows + 1 =
        unfold fill_cell in full_count-fill_row (to_ℕ c.x) free.column rows (to_ℕ c.y) in
      let rest =
        fill_cells-Filled (fill_cell rows c) cs fit' high' distinct
          (fill_cell-All-IsFree rows c cs fit high free others frees) in
      record {
        fit = rest.fit;
        high = rest.high;
        counted = omega (arith, rest.counted);
        completed = omega (arith, rest.completed);
      }

  -- After filling, a cell is occupied when it was, or when it is one of the cells filled.
  pub fill_cells-occupied_at :
      (rows : List ℕ) (cs : List Cell) (x y : ℕ)
      → RowsFit rows gs
      → length rows ≡ 40
      → IsDistinct cs
      → All (IsFree rows) cs
      → x < 10
      → occupied_at (fill_cells rows cs) x y ≡ (any (covers x y) cs || occupied_at rows x y)
  unfolding fill_cells
  fill_cells-occupied_at rows [] x y fit high distinct frees lx = refl
  fill_cells-occupied_at rows (c ∷ cs) x y fit high (others, distinct) (free, frees) lx =
      let fit' : RowsFit (fill_cell rows c) gs =
        unfold fill_cell in fill_row-RowsFit (to_ℕ c.x) free.column rows gs (to_ℕ c.y) fit in
      let high' : length (fill_cell rows c) ≡ 40 =
        unfold fill_cell in length-set rows (to_ℕ c.y) _ ∙ high in
      let one : occupied_at (fill_cell rows c) x y ≡ (covers x y c || occupied_at rows x y) =
        unfold fill_cell occupied_at in
        has_bit-fill_row (to_ℕ c.x) free.column rows gs (to_ℕ c.y) x y fit (omega (arith, free.row))
          lx in
      let rest =
        fill_cells-occupied_at (fill_cell rows c) cs x y fit' high' distinct
          (fill_cell-All-IsFree rows c cs fit high free others frees) lx in
      rest ∙ rw one (swap_or (any (covers x y) cs) (covers x y c) (occupied_at rows x y))
    where
      swap_or : (a b c : Bool) → (a || (b || c)) ≡ ((b || a) || c)
      swap_or a b c = ground arith
