-- ===== src/Board/Valid.antt =====
-- What `assertBoard` and `createBoard` of packages/game-core/src/board.ts accept.
use tetr_d.Base.{
  ℕ, zero, suc, ◌-◌, ◌≤◌, ◌<◌, ◌≡◌, ◌↔◌, ◌⊎◌, refl, Bool, true, false, List, [], ◌∷◌, ◌++◌, length,
  replicate, arith, All, ap, leb, ◌&&◌, sym, ◌∙◌,
}
use tetr_d.Base.Result.{ok, range_error, guard, >>=-eq-ok, guard-eq-ok, ok-injective}
use tetr_d.Board.{Board, assert_rows, assert_board, create_board, normalized}

-- Ten columns to a row, and a garbage flag only on an occupied row.
abbrev pub RowsFit : List ℕ → List Bool → Type 0
RowsFit [] [] = Unit
RowsFit [] (g ∷ gs) = ⊥
RowsFit (r ∷ rs) [] = ⊥
RowsFit (r ∷ rs) (g ∷ gs) = (r < 1024) × ((g ≡ false) ⊎ (0 < r)) × RowsFit rs gs

pub record IsBoard (b : Board) : Type 0 where
  pub height : length b.rows ≡ 40
  pub fit : RowsFit b.rows b.garbage_rows

pub RowsFit-length : (rs : List ℕ) (gs : List Bool) → RowsFit rs gs → length gs ≡ length rs
RowsFit-length [] [] h = refl
RowsFit-length [] (g ∷ gs) h = absurd h
RowsFit-length (r ∷ rs) [] h = absurd h
RowsFit-length (r ∷ rs) (g ∷ gs) h = omega (arith, RowsFit-length rs gs h.2)

pub RowsFit-lt : (rs : List ℕ) (gs : List Bool) → RowsFit rs gs → All (λ r. r < 1024) rs
RowsFit-lt [] gs h = tt
RowsFit-lt (r ∷ rs) [] h = absurd h
RowsFit-lt (r ∷ rs) (g ∷ gs) h = (h.0, RowsFit-lt rs gs h.2)

assert_rows-ok : (rs : List ℕ) (gs : List Bool) → RowsFit rs gs → assert_rows rs gs ≡ ok tt
unfolding assert_rows
assert_rows-ok [] [] h = refl
assert_rows-ok [] (g ∷ gs) h = absurd h
assert_rows-ok (r ∷ rs) [] h = absurd h
assert_rows-ok (r ∷ rs) (g ∷ gs) h = ground (arith, assert_rows-ok rs gs h.2)

pub assert_rows-RowsFit :
    (rs : List ℕ) (gs : List Bool)
    → length gs ≡ length rs
    → assert_rows rs gs ≡ ok tt
    → RowsFit rs gs
unfolding assert_rows
assert_rows-RowsFit [] [] e h = tt
assert_rows-RowsFit [] (g ∷ gs) e h = absurd (omega arith)
assert_rows-RowsFit (r ∷ rs) [] e h = absurd (omega arith)
assert_rows-RowsFit (r ∷ rs) (g ∷ gs) e h =
    (ground arith, ground arith, assert_rows-RowsFit rs gs (omega arith) (ground arith))

-- `assertBoard` passes exactly the well-formed boards.
pub assert_board_iff : (b : Board) → (assert_board b ≡ ok tt) ↔ IsBoard b
unfolding assert_board
assert_board_iff b = (accepted, passes)
  where
    accepted : assert_board b ≡ ok tt → IsBoard b
    accepted h = record {
      height = ground arith;
      fit = assert_rows-RowsFit b.rows b.garbage_rows (ground arith) (ground arith);
    }

    passes : IsBoard b → assert_board b ≡ ok tt
    passes v = ground (
      arith,
      v.height,
      RowsFit-length b.rows b.garbage_rows v.fit,
      assert_rows-ok b.rows b.garbage_rows v.fit,
    )

pub assert_board-ok : {b : Board} → IsBoard b → assert_board b ≡ ok tt
assert_board-ok {b} v = (assert_board_iff b).1 v

length-normalized {ℓ} : {A : Type ℓ} (n : ℕ) (vs : List A) (d : A) → length (normalized n vs d) ≡ n
length-normalized zero vs d = refl
length-normalized (suc n) [] d = ap suc (length-normalized n [] d)
length-normalized (suc n) (v ∷ vs) d = ap suc (length-normalized n vs d)

normalized-nil {ℓ} : {A : Type ℓ} (n : ℕ) (d : A) → normalized n [] d ≡ replicate n d
normalized-nil zero d = refl
normalized-nil (suc n) d = ap (λ r. d ∷ r) (normalized-nil n d)

normalized-eq-append {ℓ} :
    {A : Type ℓ} (n : ℕ) (vs : List A) (d : A)
    → length vs ≤ n
    → normalized n vs d ≡ vs ++ replicate (n - length vs) d
normalized-eq-append n [] d h = ground (arith, normalized-nil n d)
normalized-eq-append zero (v ∷ vs) d h = absurd (omega arith)
normalized-eq-append (suc n) (v ∷ vs) d h =
    ground (arith, normalized-eq-append n vs d (omega arith))

abbrev sized : List ℕ → List Bool → Bool
sized rows flags = leb (length rows) 40 && leb (length flags) (length rows)

sized-le :
    (rows : List ℕ) (flags : List Bool)
    → sized rows flags ≡ true
    → (length rows ≤ 40) × (length flags ≤ 40)
sized-le rows flags h = ground arith

abbrev padded : List ℕ → List Bool → Board
padded rows flags = record { rows = normalized 40 rows 0; garbage_rows = normalized 40 flags false }

-- A created board is well formed and is its inputs, padded with empty rows on top.
pub create_board-IsBoard :
    (rows : List ℕ) (flags : List Bool) (b : Board)
    → create_board rows flags ≡ ok b
    → IsBoard b
      × (b.rows ≡ rows ++ replicate (40 - length rows) 0)
      × (b.garbage_rows ≡ flags ++ replicate (40 - length flags) false)
unfolding create_board
create_board-IsBoard rows flags b h =
    let (_, counted, h') = >>=-eq-ok (guard (sized rows flags) range_error) _ h in
    let within = guard-eq-ok (sized rows flags) range_error counted in
    let (u, passed, made) =
      >>=-eq-ok (assert_rows (normalized 40 rows 0) (normalized 40 flags false)) _ h' in
    let e : b ≡ padded rows flags = sym (ok-injective made) in
    rw e (
      record {
        height = length-normalized 40 rows 0;
        fit =
            assert_rows-RowsFit (normalized 40 rows 0) (normalized 40 flags false)
              (length-normalized 40 flags false ∙ sym (length-normalized 40 rows 0)) passed;
      },
      normalized-eq-append 40 rows 0 (sized-le rows flags within).0,
      normalized-eq-append 40 flags false (sized-le rows flags within).1,
    )
