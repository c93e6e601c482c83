-- ===== src/Board/Insertion.antt =====
-- `insertGarbage` of packages/game-core/src/board.ts: rows come in at the floor.
use tetr_d.Base.{
  ℕ, zero, suc, ◌+◌, ◌-◌, ◌*◌, ◌≤◌, ◌<◌, ◌≡◌, inl, inr, refl, ap, sym, ◌∙◌, Bool, true, false, not,
  List, [], ◌∷◌, ◌++◌, map, length, take, drop, get_or, replicate, all, any, arith, All,
  length-append, length-map, length-take, take-all, drop-all, get_or-take, get_or-append_right,
  Bool-cases, ◌==◌, leb, ltb, le→leb, leb→le, ltb→lt, not_ltb→le, if◌then◌else◌,
}
use tetr_d.Base.Result.{ok, range_error, guard, >>=-eq-ok, guard-eq-ok, ok-injective}
use tetr_d.Base.Masks.{has_bit, popcount, hole-lt, hole_pos, popcount-hole, has_bit-hole}
use tetr_d.Board.Valid.{RowsFit, RowsFit-length, IsBoard, assert_board_iff, assert_board-ok}
use tetr_d.Board.Occupancy.{cell_count, full_count}
use tetr_d.Board.{
  Board, GarbageInsertResult, garbage_row, insert_garbage, occupied_at, assert_board, is_hole,
}

abbrev pub is_block : ℕ → Bool
is_block row = not (row == 0)

-- What `insertGarbage` returns, also for no holes at all.
unfoldable pub insert_result : Board → List ℕ → GarbageInsertResult
insert_result b holes = record {
  board = record {
    rows = map garbage_row holes ++ take (40 - length holes) b.rows;
    garbage_rows = replicate (length holes) true ++ take (40 - length holes) b.garbage_rows;
  };
  overflowed = any is_block (drop (40 - length holes) b.rows);
}

abbrev pub AllHoles : List ℕ → Type 0
AllHoles = All (λ h. h < 10)

holes-all : (holes : List ℕ) → AllHoles holes → all is_hole holes ≡ true
holes-all [] h = refl
holes-all (x ∷ xs) (h, hs) = ground (arith, holes-all xs hs)

all-holes : (holes : List ℕ) → all is_hole holes ≡ true → AllHoles holes
all-holes [] h = tt
all-holes (x ∷ xs) h = (ground arith, all-holes xs (ground arith))

no_rows :
    {b : Board}
    → IsBoard b
    → length b.garbage_rows ≡ 40
    → record { board = b; overflowed = false } ≡ insert_result b []
unfolding insert_result
no_rows {b} v flags = rw (
  take-all 40 b.rows (omega (arith, v.height)),
  take-all 40 b.garbage_rows (omega (arith, flags)),
  drop-all 40 b.rows (omega (arith, v.height)),
)

some_rows : (n : ℕ) → (suc n == 0) ≡ false
some_rows n = ground arith

-- On a well-formed board at most forty holes, each within a row, are inserted.
pub insert_garbage_lem :
    (b : Board) (holes : List ℕ)
    → IsBoard b
    → length holes ≤ 40
    → AllHoles holes
    → insert_garbage b holes ≡ ok (insert_result b holes)
unfolding insert_garbage insert_result
insert_garbage_lem b [] v le hs =
    rw (assert_board-ok v)
      (ap ok (no_rows v (RowsFit-length b.rows b.garbage_rows v.fit ∙ v.height)))
insert_garbage_lem b (h ∷ holes) v le hs =
    rw (assert_board-ok v, holes-all (h ∷ holes) hs, le→leb _ _ le, some_rows (length holes))

insert_garbage-valid :
    (b : Board) (holes : List ℕ) {r : GarbageInsertResult}
    → insert_garbage b holes ≡ ok r
    → IsBoard b × (length holes ≤ 40) × AllHoles holes
unfolding insert_garbage
insert_garbage-valid b holes h =
    let (u, asserted, h') = >>=-eq-ok (assert_board b) _ h in
    let (u', counted, h'') = >>=-eq-ok (guard (leb (length holes) 40) range_error) _ h' in
    let (u'', checked, _) = >>=-eq-ok (guard (all is_hole holes) range_error) _ h'' in
    (
      (assert_board_iff b).0 asserted,
      leb→le _ _ (guard-eq-ok _ range_error counted),
      all-holes holes (guard-eq-ok _ range_error checked),
    )

garbage_rows-RowsFit :
    (holes : List ℕ) (rs : List ℕ) (gs : List Bool)
    → AllHoles holes
    → RowsFit rs gs
    → RowsFit (map garbage_row holes ++ rs) (replicate (length holes) true ++ gs)
unfolding garbage_row
garbage_rows-RowsFit [] rs gs hs fit = fit
garbage_rows-RowsFit (h ∷ holes) rs gs (lt, hs) fit =
    (omega (arith, hole-lt h lt), inr (hole_pos h lt), garbage_rows-RowsFit holes rs gs hs fit)

RowsFit-take :
    (n : ℕ) (rs : List ℕ) (gs : List Bool) → RowsFit rs gs → RowsFit (take n rs) (take n gs)
RowsFit-take zero rs gs h = tt
RowsFit-take (suc n) [] [] h = tt
RowsFit-take (suc n) [] (g ∷ gs) h = absurd h
RowsFit-take (suc n) (r ∷ rs) [] h = absurd h
RowsFit-take (suc n) (r ∷ rs) (g ∷ gs) h = (h.0, h.1, RowsFit-take n rs gs h.2)

cell_count-garbage :
    (holes rs : List ℕ)
    → AllHoles holes
    → cell_count (map garbage_row holes ++ rs) ≡ 9 * length holes + cell_count rs
unfolding cell_count garbage_row
cell_count-garbage [] rs hs = omega arith
cell_count-garbage (h ∷ holes) rs (lt, hs) =
    omega (arith, popcount-hole h lt, cell_count-garbage holes rs hs)

full_count-garbage :
    (holes rs : List ℕ) → AllHoles holes → full_count (map garbage_row holes ++ rs) ≡ full_count rs
unfolding full_count garbage_row
full_count-garbage [] rs hs = refl
full_count-garbage (h ∷ holes) rs (lt, hs) =
    ground (arith, hole-lt h lt, full_count-garbage holes rs hs)

cell_count-split :
    (n : ℕ) (rs : List ℕ) → cell_count (take n rs) + cell_count (drop n rs) ≡ cell_count rs
unfolding cell_count
cell_count-split zero rs = omega arith
cell_count-split (suc n) [] = omega arith
cell_count-split (suc n) (r ∷ rs) = omega (arith, cell_count-split n rs)

full_count-take : (n : ℕ) (rs : List ℕ) → full_count (take n rs) ≤ full_count rs
unfolding full_count
full_count-take zero rs = omega arith
full_count-take (suc n) [] = omega arith
full_count-take (suc n) (r ∷ rs) = ground (arith, full_count-take n rs)

no_block-cell_count : (rs : List ℕ) → any is_block rs ≡ false → cell_count rs ≡ 0
unfolding cell_count popcount
no_block-cell_count [] h = refl
no_block-cell_count (r ∷ rs) h = ground (arith, no_block-cell_count rs)

garbage_row-has_bit :
    (holes rs : List ℕ) (x y : ℕ)
    → AllHoles holes
    → x < 10
    → y < length holes
    → has_bit (get_or (map garbage_row holes ++ rs) y 0) x ≡ not (x == get_or holes y 0)
unfolding garbage_row
garbage_row-has_bit [] rs x y hs lx ly = absurd (omega arith)
garbage_row-has_bit (h ∷ holes) rs x zero (lt, hs) lx ly = has_bit-hole h lt x lx
garbage_row-has_bit (h ∷ holes) rs x (suc y) (lt, hs) lx ly =
    garbage_row-has_bit holes rs x y hs lx (omega arith)

module _ (b : Board) (holes : List ℕ) (r : GarbageInsertResult)
    (made : insert_garbage b holes ≡ ok r) where
  v : IsBoard b
  v = (insert_garbage-valid b holes made).0

  counted : length holes ≤ 40
  counted = (insert_garbage-valid b holes made).1

  holed : AllHoles holes
  holed = (insert_garbage-valid b holes made).2

  is_result : insert_result b holes ≡ r
  is_result = ok-injective (sym (insert_garbage_lem b holes v counted holed) ∙ made)

  -- The board after an insertion is well formed.
  pub insert_garbage-IsBoard : IsBoard r.board
  unfolding insert_result
  insert_garbage-IsBoard = rw (← is_result) (record {
    height =
        length-append (map garbage_row holes) _
        ∙ omega (
          arith,
          counted,
          length-map garbage_row holes,
          length-take (40 - length holes) b.rows,
          v.height,
        );
    fit =
        garbage_rows-RowsFit holes _ _ holed
          (RowsFit-take (40 - length holes) b.rows b.garbage_rows v.fit);
  })

  -- An insertion completes no row.
  pub full_count-insert_garbage : full_count r.board.rows ≤ full_count b.rows
  unfolding insert_result
  full_count-insert_garbage = rw (← is_result) (
      omega (
        arith,
        full_count-garbage holes (take (40 - length holes) b.rows) holed,
        full_count-take (40 - length holes) b.rows,
      ))

  -- Without overflow nothing is lost, and each row brings nine cells.
  pub cell_count-insert_garbage :
      r.overflowed ≡ false → cell_count r.board.rows ≡ cell_count b.rows + 9 * length holes
  unfolding insert_result
  cell_count-insert_garbage = rw (← is_result) (λ kept. omega (
    arith,
    cell_count-garbage holes (take (40 - length holes) b.rows) holed,
    cell_count-split (40 - length holes) b.rows,
    no_block-cell_count (drop (40 - length holes) b.rows) kept,
  ))

  -- The rows at the floor are full but for their holes, the first hole lowest, and each old row
  -- that stays moves up by the number of holes.
  pub insert_garbage-occupied_at :
      (x y : ℕ)
      → x < 10
      → y < 40
      → occupied_at r.board.rows x y ≡ (
          if ltb y (length holes)
          then not (x == get_or holes y 0)
          else occupied_at b.rows x (y - length holes))
  unfolding insert_result occupied_at
  insert_garbage-occupied_at x y lx ly =
      rw (← is_result) (elim (Bool-cases (ltb y (length holes))) [
        | inl low ↦ rw low (
            garbage_row-has_bit holes (take (40 - length holes) b.rows) x y holed lx
              (ltb→lt _ _ low))
        | inr high ↦ rw high (ap (λ row. has_bit row x) (moved high))
      ])
    where
      moved :
          ltb y (length holes) ≡ false
          → get_or (map garbage_row holes ++ take (40 - length holes) b.rows) y 0
            ≡ get_or b.rows (y - length holes) 0
      moved high =
          let le : length holes ≤ y = not_ltb→le _ _ high in
          get_or-append_right (map garbage_row holes) _ y (y - length holes) 0
            (omega (arith, length-map garbage_row holes))
          ∙ get_or-take (40 - length holes) (y - length holes) b.rows 0 (omega arith)
