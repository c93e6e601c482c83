-- ===== src/Board/Reach.antt =====
-- How far from the matrix a piece that fits can stand, and that its cells differ.
use tetr_d.Base.{
  ℕ, ◌+◌, ◌≤◌, ◌<◌, ◌≡◌, true, List, [], ◌∷◌, length, all, All, map, arith, &&_iff, subst,
}
use tetr_d.Base.Doubles.{to_double_ℤ, to_double_ℤ-range}
use tetr_d.Base.Int.{ℤ, pos, negsuc, pos_part, neg_part, ◌+ℤ◌, ◌≤ℤ◌, leb_ℤ, ltb_ℤ}
use tetr_d.Pieces.{Cell, ActivePiece, local_cells_for, translate, world_cells_for}
use tetr_d.Pieces.Shapes.{InBox, IsDistinct, local_cells_for_shape, world_cells_for-IsDistinct}
use tetr_d.Board.{in_matrix, fits, is_cell_free, piece_cells}

-- A coordinate that is in range once a cell of the box is added.
axis :
    (v d : ℤ) (limit : ℕ)
    → pos 0 ≤ℤ d
    → d ≤ℤ pos 3
    → leb_ℤ (pos 0) (v +ℤ d) ≡ true
    → ltb_ℤ (v +ℤ d) (pos limit) ≡ true
    → (neg_part v ≤ 3) × (pos_part v < limit + 1)
unfolding ◌+ℤ◌
axis (pos n) (pos m) limit d0 d3 low high = ground arith
axis (negsuc n) (pos m) limit d0 d3 low high = ground arith
axis v (negsuc m) limit d0 d3 low high = absurd (omega arith)

-- The same of the rounded sum.
rounded-axis :
    (v d : ℤ) (limit : ℕ)
    → limit ≤ 100
    → pos 0 ≤ℤ d
    → d ≤ℤ pos 3
    → leb_ℤ (pos 0) (to_double_ℤ (v +ℤ d)) ≡ true
    → ltb_ℤ (to_double_ℤ (v +ℤ d)) (pos limit) ≡ true
    → (neg_part v ≤ 3) × (pos_part v < limit + 1)
rounded-axis v d limit small d0 d3 low high =
    let exact = to_double_ℤ-range (v +ℤ d) limit (omega (arith, small)) low high in
    axis v d limit d0 d3 (subst (λ a. leb_ℤ (pos 0) a ≡ true) exact low)
      (subst (λ a. ltb_ℤ a (pos limit) ≡ true) exact high)

-- In bounds for a piece that covers a free cell.
abbrev pub InReach : ActivePiece → Type 0
InReach p = (neg_part p.x ≤ 3) × (pos_part p.x < 11) × (neg_part p.y ≤ 3) × (pos_part p.y < 41)

in_matrix-InReach :
    (x y dx dy : ℤ)
    → (pos 0 ≤ℤ dx) × (dx ≤ℤ pos 3) × (pos 0 ≤ℤ dy) × (dy ≤ℤ pos 3)
    → in_matrix (to_double_ℤ (x +ℤ dx)) (to_double_ℤ (y +ℤ dy)) ≡ true
    → (neg_part x ≤ 3) × (pos_part x < 11) × (neg_part y ≤ 3) × (pos_part y < 41)
in_matrix-InReach x y dx dy (x0, x3, y0, y3) h =
    let (abc, d) = (&&_iff _ _).0 h in
    let (ab, c) = (&&_iff _ _).0 abc in
    let (a, b) = (&&_iff _ _).0 ab in
    let (n1, p1) = rounded-axis x dx 10 (omega arith) x0 x3 a b in
    let (n2, p2) = rounded-axis y dy 40 (omega arith) y0 y3 c d in (n1, p1, n2, p2)

some_cell-InReach :
    (rows : List ℕ) (p : ActivePiece) (cells : List Cell)
    → length cells ≡ 4
    → All InBox cells
    → all (is_cell_free rows) (map (translate p.x p.y) cells) ≡ true
    → InReach p
unfolding is_cell_free
some_cell-InReach rows p [] four boxed free = absurd (omega arith)
some_cell-InReach rows p (c ∷ cs) four (boxed, more) free =
    in_matrix-InReach p.x p.y c.x c.y boxed ((&&_iff _ _).0 ((&&_iff _ _).0 free).0).0

pub fits-InReach : (rows : List ℕ) (p : ActivePiece) → fits rows p ≡ true → InReach p
unfolding fits world_cells_for
fits-InReach rows p h =
    let (four, boxed, distinct) = local_cells_for_shape p.kind p.rotation in
    some_cell-InReach rows p (local_cells_for p.kind p.rotation) four boxed h

-- A piece that fits covers four different cells.
pub piece_cells-IsDistinct :
    (rows : List ℕ) (p : ActivePiece)
    → fits rows p ≡ true
    → (length (piece_cells p) ≡ 4) × IsDistinct (piece_cells p)
piece_cells-IsDistinct rows p h =
    let (x0, x1, y0, y1) = fits-InReach rows p h in
    world_cells_for-IsDistinct p.kind p.rotation p.x p.y (omega arith) (omega arith)
