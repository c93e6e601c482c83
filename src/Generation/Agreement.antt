-- ===== src/Generation/Agreement.antt =====
-- The plain spawn of packages/game-core/src/pieceSpawn.ts and the generation of
-- pieceGenerationController.ts search the same rows.
use tetr_d.Base.{
  ℕ, zero, suc, ◌+◌, ◌<◌, ◌≡◌, refl, sym, ap, ◌∙◌, Bool, true, false, Option, none, some, length,
  arith, if◌then◌else◌,
}
use tetr_d.Base.Int.{pos, ◌+ℤ◌, ◌-ℤ◌, to_ℕ}
use tetr_d.Base.Result.{Result, ok, err, ◌>>=◌}
use tetr_d.Pieces.{PieceKind, ActivePiece}
use tetr_d.Board.{is_piece_placement_valid}
use tetr_d.Generation.{
  PieceSpawnOptions, PieceSpawnPlacement, lift_from, rows_above, find_piece_spawn_placement,
  PieceGenerationOptions, GeneratedPlacement, placed, plain_placement, placement_at, placed_or,
  generate_from, rows_tried, generated_placement,
}
use tetr_d.Generation.Spawning.{raised, spawn_rows, find_piece_spawn_placement-lift_from}

-- The options of a plain spawn of the same kind.
abbrev pub spawn_options : PieceGenerationOptions → PieceKind → PieceSpawnOptions
spawn_options o kind = record {
  board = o.board;
  kind = kind;
  spawn_x = o.spawn_x;
  spawn_y = o.spawn_y;
  allow_clutch_lift = o.allow_clutch_lift;
}

abbrev pub as_generated : Option PieceSpawnPlacement → GeneratedPlacement
as_generated none = placed none 0
as_generated (some p) = placed (some p.piece) p.lifted_rows

-- One row of either loop.
same_row :
    (p : ActivePiece) (n : ℕ) (tested : Result Bool) (lifts : Result (Option PieceSpawnPlacement))
    (rest : Result GeneratedPlacement)
    → rest ≡ (lifts >>= λ r. ok (as_generated r))
    → (tested
        >>= (λ valid. ok (placed (if valid then some p else none) n))
        >>= (λ g. placed_or g rest))
      ≡ (tested
          >>= (λ valid. if valid then ok (some (record { piece = p; lifted_rows = n })) else lifts)
          >>= λ r. ok (as_generated r))
same_row p n (err e) lifts rest h = refl
same_row p n (ok true) lifts rest h = refl
same_row p n (ok false) lifts rest h = h

generate_from-lift_from :
    (o : PieceGenerationOptions) (kind : PieceKind) (n left : ℕ)
    → generate_from o kind none n left
      ≡ (lift_from (spawn_options o kind) n left >>= λ r. ok (as_generated r))
unfolding generate_from lift_from placement_at plain_placement
generate_from-lift_from o kind n zero = refl
generate_from-lift_from o kind n (suc left) =
    same_row (raised kind o.spawn_x o.spawn_y n) n
      (is_piece_placement_valid o.board (raised kind o.spawn_x o.spawn_y n))
      (lift_from (spawn_options o kind) (n + 1) left) (generate_from o kind none (n + 1) left)
      (generate_from-lift_from o kind (n + 1) left)

rows_tried-eq :
    (lift : Bool) (row : ℕ)
    → row < 40
    → (if lift then to_ℕ (pos 40 -ℤ pos row) else 1)
      ≡ (if lift then suc (rows_above (pos row)) else 1)
unfolding ◌+ℤ◌ ◌-ℤ◌
rows_tried-eq lift row lt = ground arith

rows_tried-spawn_rows :
    (o : PieceGenerationOptions) (kind : PieceKind) (row : ℕ)
    → length o.board.rows ≡ 40
    → o.spawn_y ≡ pos row
    → row < 40
    → rows_tried o ≡ spawn_rows (spawn_options o kind)
unfolding rows_tried
rows_tried-spawn_rows o kind row height at lt =
    ap (λ n. if o.allow_clutch_lift then to_ℕ (pos n -ℤ o.spawn_y) else 1) height
    ∙ ap (λ y. if o.allow_clutch_lift then to_ℕ (pos 40 -ℤ y) else 1) at
    ∙ rows_tried-eq o.allow_clutch_lift row lt
    ∙ ap (λ y. if o.allow_clutch_lift then suc (rows_above y) else 1) (sym at)

-- Without a buffered rotation the two searches agree, errors included, when the spawn row lies in
-- a matrix of forty rows.
pub generated_placement-find_piece_spawn_placement :
    (o : PieceGenerationOptions) (kind : PieceKind) (row : ℕ)
    → length o.board.rows ≡ 40
    → o.spawn_y ≡ pos row
    → row < 40
    → generated_placement o kind none
      ≡ (find_piece_spawn_placement (spawn_options o kind) >>= λ r. ok (as_generated r))
unfolding generated_placement
generated_placement-find_piece_spawn_placement o kind row height at lt =
    ap (generate_from o kind none 0) (rows_tried-spawn_rows o kind row height at lt)
    ∙ generate_from-lift_from o kind 0 (spawn_rows (spawn_options o kind))
    ∙ ap (λ m. m >>= λ r. ok (as_generated r))
        (sym (find_piece_spawn_placement-lift_from (spawn_options o kind)))
