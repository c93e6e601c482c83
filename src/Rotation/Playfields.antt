-- ===== src/Rotation/Playfields.antt =====
-- The two playfields: a board's, and the one that `createPlayfield` of
-- packages/game-core/src/rotation.ts builds from a list of cells.
use native.Mathlib.Nat.{mul-le-mul_right, mul_comm}
use tetr_d.Base.{
  ℕ, zero, suc, ◌+◌, ◌*◌, ◌≤◌, ◌<◌, ◌≡◌, refl, ap, sym, ◌∙◌, Bool, true, false, not, ◌&&◌, List, [],
  ◌∷◌, all, arith, leb, ltb, All, all_sound, Bool-cases, ◌==◌, ==_iff, if◌then◌else◌, inl, inr, ◌≢◌,
  ◌⊎◌, any,
}
use tetr_d.Base.Doubles.{exact_limit, to_double_ℤ, to_double_ℤ-pos}
use tetr_d.Base.Int.{sub_ℕ, ℤ, pos, to_ℕ, ◌+ℤ◌, leb_ℤ, ltb_ℤ, eqb_ℤ}
use tetr_d.Base.Result.{Result, ok, range_error, guard, >>=-eq-ok, guard-eq-ok, ok-injective}
use tetr_d.Pieces.{Cell, ActivePiece}
use tetr_d.Board.Valid.{IsBoard, assert_board-ok}
use tetr_d.Board.{
  Board, fits, is_cell_free, occupied_at, is_board_cell_occupied, piece_cells, is_safe_integer,
  max_safe_integer, in_matrix,
}
use tetr_d.Rotation.{
  Playfield, board_as_playfield, every_cell_free, is_placement_valid, create_playfield, has_encoded,
  encode, is_valid_occupied,
}

abbrev pub board_playfield : Board → Playfield
board_playfield b = record { width = 10; height = 40; is_occupied = is_board_cell_occupied b }

pub board_as_playfield-ok : {b : Board} → IsBoard b → board_as_playfield b ≡ ok (board_playfield b)
unfolding board_as_playfield
board_as_playfield-ok v = rw (assert_board-ok v)

in_matrix-safe :
    (x y : ℤ)
    → in_matrix x y ≡ true
    → (is_safe_integer x && is_safe_integer y && in_matrix x y) ≡ true
in_matrix-safe x y h = ground arith

-- Within the matrix a board's test of a cell gives its occupancy.
is_board_cell_occupied-eq :
    {b : Board} (x y : ℤ)
    → IsBoard b
    → in_matrix x y ≡ true
    → is_board_cell_occupied b x y ≡ ok (occupied_at b.rows (to_ℕ x) (to_ℕ y))
unfolding is_board_cell_occupied
is_board_cell_occupied-eq {b} x y v h = rw (assert_board-ok v, in_matrix-safe x y h)

unless_occupied :
    (occupied : Bool) {rest : Result Bool} {free : Bool}
    → rest ≡ ok free
    → (if occupied then ok false else rest) ≡ ok (not occupied && free)
unless_occupied true h = refl
unless_occupied false h = h

every_cell_free-board :
    {b : Board} (cs : List Cell)
    → IsBoard b
    → every_cell_free (board_playfield b) cs ≡ ok (all (is_cell_free b.rows) cs)
unfolding every_cell_free is_cell_free
every_cell_free-board [] v = refl
every_cell_free-board {b} (c ∷ cs) v = elim (Bool-cases (in_matrix c.x c.y)) [
  | inl e ↦
      rw (e, is_board_cell_occupied-eq c.x c.y v e) (unless_occupied _ (every_cell_free-board cs v))
  | inr e ↦ rw e
]

-- On a well-formed board the placement test of a rotation is the one of `board.ts`.
pub is_placement_valid-board :
    {b : Board} (p : ActivePiece)
    → IsBoard b
    → is_placement_valid (board_playfield b) p ≡ ok (fits b.rows p)
unfolding is_placement_valid fits
is_placement_valid-board p v = every_cell_free-board (piece_cells p) v

-- A cell whose coordinates are in range, as numbers.
record IsWithin (width height : ℕ) (x y : ℤ) : Type 0 where
  x_natural : x ≡ pos (to_ℕ x)
  y_natural : y ≡ pos (to_ℕ y)
  column : to_ℕ x < width
  row : to_ℕ y < height

abbrev pub in_range : ℕ → ℕ → ℤ → ℤ → Bool
in_range width height x y =
    leb_ℤ (pos 0) x && ltb_ℤ x (pos width) && leb_ℤ (pos 0) y && ltb_ℤ y (pos height)

in_range-IsWithin : (w h : ℕ) (x y : ℤ) → in_range w h x y ≡ true → IsWithin w h x y
in_range-IsWithin w h x y e = record {
  x_natural = ground arith;
  y_natural = ground arith;
  column = ground arith;
  row = ground arith;
}

-- Row and column of an encoded cell are determined.
encode_lem : (w x y x' y' : ℕ) → x < w → x' < w → y * w + x ≡ y' * w + x' → (x ≡ x') × (y ≡ y')
encode_lem w x zero x' zero l l' e = omega arith
encode_lem w x zero x' (suc y') l l' e = absurd (omega arith)
encode_lem w x (suc y) x' zero l l' e = absurd (omega arith)
encode_lem w x (suc y) x' (suc y') l l' e =
    let (ex, ey) = encode_lem w x y x' y' l l' (omega arith) in (ex, ap suc ey)

abbrev pub same_cell : ℤ → ℤ → Cell → Bool
same_cell x y c = eqb_ℤ c.x x && eqb_ℤ c.y y

natural_sum : (a b : ℕ) → pos a +ℤ pos b ≡ pos (a + b)
unfolding ◌+ℤ◌
natural_sum a b = ground arith

natural_product : (y w : ℕ) → sub_ℕ (y * w) (0 * w) ≡ pos (y * w)
natural_product y w = ground arith

-- The code of a cell is computed without rounding while it is a safe integer.
encode-pos : (w x y : ℕ) → y * w + x ≤ exact_limit → encode w (pos x) (pos y) ≡ pos (y * w + x)
encode-pos w x y h =
    ap (λ a. to_double_ℤ (to_double_ℤ a +ℤ pos x)) (natural_product y w)
    ∙ ap (λ a. to_double_ℤ (a +ℤ pos x)) (to_double_ℤ-pos (y * w) (omega (arith, h)))
    ∙ ap to_double_ℤ (natural_sum (y * w) x)
    ∙ to_double_ℤ-pos (y * w + x) h

-- The codes of the cells of a playfield stay below its area.
below_area : (w h x y : ℕ) → x < w → y < h → y * w + x < w * h
below_area w h x y column row =
    let rows : suc y * w ≤ h * w = mul-le-mul_right w row in omega (arith, rows, mul_comm w h)

encoded_apart : (a b : ℕ) → a ≢ b → eqb_ℤ (pos a) (pos b) ≡ false
encoded_apart a b h = ground arith

eqb_pos : (a b : ℕ) → eqb_ℤ (pos a) (pos b) ≡ (a == b)
eqb_pos a b = ground arith

==_refl : (a : ℕ) → (a == a) ≡ true
==_refl a = ground arith

-- On cells within the width the code of a cell is as good as the cell.
encoded_natural :
    (w x y x' y' : ℕ) → x < w → x' < w → (y * w + x == y' * w + x') ≡ (x == x' && y == y')
encoded_natural w x y x' y' l l' = elim (Bool-cases (y * w + x == y' * w + x')) [
  | inl e ↦
      let (ex, ey) = encode_lem w x y x' y' l l' ((==_iff _ _).0 e) in
      e ∙ sym (rw (ex, ey, ==_refl x', ==_refl y'))
  | inr e ↦ e ∙ sym (differ (Bool-cases (x == x')) (Bool-cases (y == y')) e)
]
  where
    differ :
        ((x == x') ≡ true) ⊎ ((x == x') ≡ false)
        → ((y == y') ≡ true) ⊎ ((y == y') ≡ false)
        → (y * w + x == y' * w + x') ≡ false
        → (x == x' && y == y') ≡ false
    differ (inl ex) (inl ey) e =
        let code : y * w + x ≡ y' * w + x' =
          ap (λ t. t * w + x) ((==_iff _ _).0 ey) ∙ ap (λ t. y' * w + t) ((==_iff _ _).0 ex) in
        let same = (==_iff _ _).1 code in cc
    differ (inl ex) (inr ny) e = rw (ex, ny)
    differ (inr nx) other e = rw nx

module _ (w h : ℕ) (small : w * h ≤ max_safe_integer) (x y : ℤ)
    (target : in_range w h x y ≡ true) where
  encoded_eq :
      (c : Cell)
      → is_valid_occupied w h c ≡ true
      → eqb_ℤ (encode w c.x c.y) (encode w x y) ≡ same_cell x y c
  encoded_eq c valid =
      let a = in_range-IsWithin w h c.x c.y (ground arith) in
      let b = in_range-IsWithin w h x y target in
      let given = below_area w h (to_ℕ c.x) (to_ℕ c.y) a.column a.row in
      let asked = below_area w h (to_ℕ x) (to_ℕ y) b.column b.row in
      rw
        (
          a.x_natural,
          a.y_natural,
          b.x_natural,
          b.y_natural,
          encode-pos w (to_ℕ c.x) (to_ℕ c.y) (omega (arith, given, small)),
          encode-pos w (to_ℕ x) (to_ℕ y) (omega (arith, asked, small)),
          eqb_pos,
          eqb_pos,
          eqb_pos,
        )
        (encoded_natural w (to_ℕ c.x) (to_ℕ c.y) (to_ℕ x) (to_ℕ y) a.column b.column)

  has_encoded-eq :
      (cs : List Cell)
      → All (λ c. is_valid_occupied w h c ≡ true) cs
      → has_encoded w cs x y ≡ any (same_cell x y) cs
  unfolding has_encoded
  has_encoded-eq [] hs = refl
  has_encoded-eq (c ∷ cs) (valid, hs) = rw (encoded_eq c valid, has_encoded-eq cs hs)

-- In a playfield of at most 2^53 - 1 cells that `createPlayfield` builds, a cell in range is occupied
-- exactly when it is one of the given cells, although the doubles that encode the cells are compared.
pub create_playfield-is_occupied :
    (occupied : List Cell) (w h : ℕ) (f : Playfield) (x y : ℤ)
    → w * h ≤ max_safe_integer
    → create_playfield occupied w h ≡ ok f
    → in_range w h x y ≡ true
    → (f.width ≡ w) × (f.height ≡ h) × (f.is_occupied x y ≡ ok (any (same_cell x y) occupied))
unfolding create_playfield
create_playfield-is_occupied occupied w h f x y small made target =
    let (_, _, made') = >>=-eq-ok (guard (leb w max_safe_integer && ltb 0 w) range_error) _ made in
    let (_, _, made'') =
      >>=-eq-ok (guard (leb h max_safe_integer && ltb 0 h) range_error) _ made' in
    let (_, valid, built) =
      >>=-eq-ok (guard (all (is_valid_occupied w h) occupied) range_error) _ made'' in
    let cells = all_sound (is_valid_occupied w h) occupied (guard-eq-ok _ range_error valid) in
    rw (← ok-injective built)
      (refl, refl, ap ok (has_encoded-eq w h small x y target occupied cells))
