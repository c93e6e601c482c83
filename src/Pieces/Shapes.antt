-- ===== src/Pieces/Shapes.antt =====
-- The shapes of packages/game-core/src/pieces.ts.
use tetr_d.Base.{
  ◌≡◌, ◌≤◌, ◌+◌, refl, ap, Bool, true, ◌&&◌, List, [], ◌∷◌, map, length, arith, All, not, all, ◌∙◌,
  length-map,
}
use tetr_d.Base.Doubles.{to_double_ℤ, to_double_ℤ-near}
use tetr_d.Base.Int.{ℤ, pos, ◌+ℤ◌, ◌≤ℤ◌, int_laws, pos_part, neg_part, eqb_ℤ}
use tetr_d.Pieces.{
  PieceKind, i_piece, j_piece, RotationState, rotation0, rotation1, rotation2, rotation3, Cell,
  local_cells_for, world_cells_for, translate,
}

-- Within the 4x4 box at the origin.
abbrev pub InBox : Cell → Type 0
InBox c = (pos 0 ≤ℤ c.x) × (c.x ≤ℤ pos 3) × (pos 0 ≤ℤ c.y) × (c.y ≤ℤ pos 3)

abbrev pub SameCell : Cell → Cell → Type 0
SameCell c d = (c.x ≡ d.x) × (c.y ≡ d.y)

-- No two entries are the same cell.
abbrev pub IsDistinct : List Cell → Type 0
IsDistinct [] = Unit
IsDistinct (c ∷ cs) = All (λ d. ¬ SameCell c d) cs × IsDistinct cs

eq_cell : Cell → Cell → Bool
eq_cell c d = eqb_ℤ c.x d.x && eqb_ℤ c.y d.y

all_distinct : List Cell → Bool
unfolding eq_cell
all_distinct [] = true
all_distinct (c ∷ cs) = all (λ d. not (eq_cell c d)) cs && all_distinct cs

others_sound :
    (c : Cell) (cs : List Cell)
    → all (λ d. not (eq_cell c d)) cs ≡ true
    → All (λ d. ¬ SameCell c d) cs
unfolding eq_cell
others_sound c [] h = tt
others_sound c (d ∷ cs) h = (λ same. ground arith, others_sound c cs (ground arith))

all_distinct_sound : (cs : List Cell) → all_distinct cs ≡ true → IsDistinct cs
unfolding all_distinct
all_distinct_sound [] h = tt
all_distinct_sound (c ∷ cs) h =
    (others_sound c cs (ground arith), all_distinct_sound cs (ground arith))

abbrev Shape : PieceKind → RotationState → Type 0
Shape k r =
    (length (local_cells_for k r) ≡ 4)
    × All InBox (local_cells_for k r)
    × (all_distinct (local_cells_for k r) ≡ true)

cells_table : (k : PieceKind) (r : RotationState) → Shape k r
unfolding local_cells_for all_distinct
cells_table i_piece rotation0 = (refl, omega arith, refl)
cells_table i_piece rotation1 = (refl, omega arith, refl)
cells_table i_piece rotation2 = (refl, omega arith, refl)
cells_table i_piece rotation3 = (refl, omega arith, refl)
cells_table j_piece rotation0 = (refl, omega arith, refl)
cells_table _ rotation0 = (refl, omega arith, refl)
cells_table _ rotation1 = (refl, omega arith, refl)
cells_table _ rotation2 = (refl, omega arith, refl)
cells_table _ rotation3 = (refl, omega arith, refl)

-- Every piece in every rotation covers four different cells of its 4x4 box.
pub local_cells_for_shape :
    (k : PieceKind) (r : RotationState)
    → (length (local_cells_for k r) ≡ 4)
      × All InBox (local_cells_for k r)
      × IsDistinct (local_cells_for k r)
local_cells_for_shape k r =
    let (four, boxed, distinct) = cells_table k r in
    (four, boxed, all_distinct_sound (local_cells_for k r) distinct)

-- The exact sums.
abbrev shift : ℤ → ℤ → Cell → Cell
shift origin_x origin_y c = record { x = origin_x +ℤ c.x; y = origin_y +ℤ c.y }

module _ (origin_x origin_y : ℤ) where
  shift-SameCell :
      (c d : Cell) → SameCell (shift origin_x origin_y c) (shift origin_x origin_y d) → SameCell c d
  shift-SameCell c d (ex, ey) = (same c.x d.x origin_x ex, same c.y d.y origin_y ey)
    where
      same : (a b o : ℤ) → o +ℤ a ≡ o +ℤ b → a ≡ b
      same a b o e = omega (int_laws, ap pos_part e, ap neg_part e)

  map-shift-others :
      (c : Cell) (cs : List Cell)
      → All (λ d. ¬ SameCell c d) cs
      → All (λ d. ¬ SameCell (shift origin_x origin_y c) d) (map (shift origin_x origin_y) cs)
  map-shift-others c [] h = tt
  map-shift-others c (d ∷ cs) (h, hs) =
      (λ same. h (shift-SameCell c d same), map-shift-others c cs hs)

  map-shift-IsDistinct :
      (cs : List Cell) → IsDistinct cs → IsDistinct (map (shift origin_x origin_y) cs)
  map-shift-IsDistinct [] h = tt
  map-shift-IsDistinct (c ∷ cs) (h, hs) = (map-shift-others c cs h, map-shift-IsDistinct cs hs)

-- An origin within the safe integers by a margin. The sums are exact then.
near-sum :
    (a d : ℤ)
    → pos_part a + neg_part a ≤ 1000
    → pos 0 ≤ℤ d
    → d ≤ℤ pos 3
    → to_double_ℤ (a +ℤ d) ≡ a +ℤ d
unfolding ◌+ℤ◌
near-sum a d near d0 d3 = to_double_ℤ-near (a +ℤ d) (ground arith)

map-translate :
    (origin_x origin_y : ℤ) (cs : List Cell)
    → pos_part origin_x + neg_part origin_x ≤ 1000
    → pos_part origin_y + neg_part origin_y ≤ 1000
    → All InBox cs
    → map (translate origin_x origin_y) cs ≡ map (shift origin_x origin_y) cs
map-translate origin_x origin_y [] nx ny boxed = refl
map-translate origin_x origin_y (c ∷ cs) nx ny ((x0, x3, y0, y3), more) =
    rw
      (
        near-sum origin_x c.x nx x0 x3,
        near-sum origin_y c.y ny y0 y3,
        map-translate origin_x origin_y cs nx ny more,
      )
      refl

-- Near the matrix a piece covers four different cells.
pub world_cells_for-IsDistinct :
    (k : PieceKind) (r : RotationState) (origin_x origin_y : ℤ)
    → pos_part origin_x + neg_part origin_x ≤ 1000
    → pos_part origin_y + neg_part origin_y ≤ 1000
    → (length (world_cells_for k r origin_x origin_y) ≡ 4)
      × IsDistinct (world_cells_for k r origin_x origin_y)
unfolding world_cells_for
world_cells_for-IsDistinct k r origin_x origin_y nx ny =
    let (four, boxed, distinct) = local_cells_for_shape k r in
    rw (map-translate origin_x origin_y (local_cells_for k r) nx ny boxed) (
      length-map (shift origin_x origin_y) (local_cells_for k r) ∙ four,
      map-shift-IsDistinct origin_x origin_y (local_cells_for k r) distinct,
    )
