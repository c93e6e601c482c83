-- ===== src/Generation/Spawning.antt =====
-- `findPieceSpawnPlacement` of packages/game-core/src/pieceSpawn.ts: the lowest row that fits.
use tetr_d.Base.{
  ℕ, zero, suc, ◌+◌, ◌≤◌, ◌≡◌, inl, inr, refl, sym, ap, ◌∙◌, Bool, true, false, not, ◌&&◌, Option,
  none, some, arith, Bool-cases, if◌then◌else◌,
}
use tetr_d.Base.Int.{ℤ, pos, negsuc, pos_part, neg_part, ◌+ℤ◌, ◌-ℤ◌, int_laws, +ℤ_parts}
use tetr_d.Base.Result.{Result, ok, ◌>>=◌}
use tetr_d.Board.{Board, is_piece_placement_valid, fits, is_safe_integer, max_safe_integer}
use tetr_d.Board.Valid.{IsBoard}
use tetr_d.Board.Sifting.{is_piece_placement_valid-eq}
use tetr_d.Pieces.{PieceKind, ActivePiece}
use tetr_d.Generation.{
  PieceSpawnOptions, PieceSpawnPlacement, upright, lift_from, rows_above,
  find_piece_spawn_placement,
}

-- Spawn coordinates in the matrix.
pub record IsSpawn (x y : ℤ) : Type 0 where
  pub column : pos_part x + neg_part x ≤ max_safe_integer
  pub row : pos_part y + neg_part y ≤ 40

-- An upright piece of the kind, `n` rows above the spawn row.
abbrev pub raised : PieceKind → ℤ → ℤ → ℕ → ActivePiece
raised kind x y n = upright kind x (y +ℤ pos n)

-- A property of the `count` numbers from `n` on.
abbrev pub Each : (ℕ → Type 0) → ℕ → ℕ → Type 0
Each P n zero = Unit
Each P n (suc count) = P n × Each P (n + 1) count

-- None of the `count` rows from `n` above the spawn row has room for the kind.
abbrev pub Blocked : Board → PieceKind → ℤ → ℤ → ℕ → ℕ → Type 0
Blocked b kind x y n count = Each (λ m. fits b.rows (raised kind x y m) ≡ false) n count

pub raised-safe :
    (kind : PieceKind) (x y : ℤ) (n : ℕ)
    → IsSpawn x y
    → n ≤ 100
    → (is_safe_integer (raised kind x y n).x && is_safe_integer (raised kind x y n).y) ≡ true
raised-safe kind x y n s le = ground (arith, +ℤ_parts y (pos n), s.column, s.row)

-- A search through `left` rows from `n` on takes the first one with room, or finds none.
abbrev pub IsLowest : PieceSpawnOptions → ℕ → ℕ → Option PieceSpawnPlacement → Type 0
IsLowest o n left none = Blocked o.board o.kind o.spawn_x o.spawn_y n left
IsLowest o n left (some placement) =
    (count : ℕ) × (suc count ≤ left)
    × (placement.lifted_rows ≡ n + count)
    × (placement.piece ≡ raised o.kind o.spawn_x o.spawn_y placement.lifted_rows)
    × (fits o.board.rows placement.piece ≡ true)
    × Blocked o.board o.kind o.spawn_x o.spawn_y n count

abbrev Found : PieceSpawnOptions → ℕ → ℕ → Type 0
Found o n left =
    (r : Option PieceSpawnPlacement) × (lift_from o n left ≡ ok r) × IsLowest o n left r

IsLowest-next :
    (o : PieceSpawnOptions) (n left : ℕ) (r : Option PieceSpawnPlacement)
    → fits o.board.rows (raised o.kind o.spawn_x o.spawn_y n) ≡ false
    → IsLowest o (n + 1) left r
    → IsLowest o n (suc left) r
IsLowest-next o n left none miss rest = (miss, rest)
IsLowest-next o n left (some placement) miss (count, le, lifted, same, fit, blocked) =
    (suc count, omega arith, omega arith, same, fit, (miss, blocked))

lift_from-IsLowest :
    (o : PieceSpawnOptions) (n left : ℕ)
    → IsBoard o.board
    → IsSpawn o.spawn_x o.spawn_y
    → n + left ≤ 100
    → Found o n left
unfolding lift_from
lift_from-IsLowest o n zero v s le = (none, refl, tt)
lift_from-IsLowest o n (suc left) v s le =
    let tested =
      is_piece_placement_valid-eq (raised o.kind o.spawn_x o.spawn_y n) v
        (raised-safe o.kind o.spawn_x o.spawn_y n s (omega arith)) in
    elim (Bool-cases (fits o.board.rows (raised o.kind o.spawn_x o.spawn_y n))) [
      | inl e ↦ (
        some (record { piece = raised o.kind o.spawn_x o.spawn_y n; lifted_rows = n }),
        rw (tested, e),
        (0, omega arith, omega arith, refl, e, tt),
      )
      | inr e ↦
          let (r, made, w) = lift_from-IsLowest o (n + 1) left v s (omega arith) in
          (r, rw (tested, e) made, IsLowest-next o n left r e w)
    ]

-- The rows that a spawn may use: its own and, when it may be lifted, all above it.
abbrev pub spawn_rows : PieceSpawnOptions → ℕ
spawn_rows o = if o.allow_clutch_lift then suc (rows_above o.spawn_y) else 1

pub +ℤ_zero : (y : ℤ) → y +ℤ pos 0 ≡ y
+ℤ_zero y = omega int_laws

rows_above-le : (y : ℤ) → pos_part y + neg_part y ≤ 40 → rows_above y ≤ 80
unfolding ◌+ℤ◌ ◌-ℤ◌
rows_above-le (pos n) h = ground arith
rows_above-le (negsuc n) h = ground arith

-- A spawn is the search from its own row on.
pub find_piece_spawn_placement-lift_from :
    (o : PieceSpawnOptions) → find_piece_spawn_placement o ≡ lift_from o 0 (spawn_rows o)
unfolding find_piece_spawn_placement lift_from
find_piece_spawn_placement-lift_from o =
    ap (λ y. search (upright o.kind o.spawn_x y) o.allow_clutch_lift (rows_above o.spawn_y))
      (sym (+ℤ_zero o.spawn_y))
    ∙ one_search o.allow_clutch_lift (rows_above o.spawn_y)
  where
    search : ActivePiece → Bool → ℕ → Result (Option PieceSpawnPlacement)
    search piece lift n = is_piece_placement_valid o.board piece >>= (λ valid.
        if valid
        then ok (some (record { piece = piece; lifted_rows = 0 }))
        else if not lift
        then ok none
        else lift_from o 1 n)

    one_search :
        (lift : Bool) (n : ℕ)
        → search (raised o.kind o.spawn_x o.spawn_y 0) lift n
          ≡ lift_from o 0 (if lift then suc n else 1)
    one_search true n = refl
    one_search false n = refl

spawn_rows-le : (o : PieceSpawnOptions) → IsSpawn o.spawn_x o.spawn_y → spawn_rows o ≤ 81
spawn_rows-le o s = ground (arith, rows_above-le o.spawn_y s.row)

-- On a well-formed board a spawn does not throw. The piece appears upright in the lowest row with
-- room, of its own row and, when it may be lifted, the rows above; no piece appears only if none of
-- these rows has room.
pub find_piece_spawn_placement-IsLowest :
    (o : PieceSpawnOptions)
    → IsBoard o.board
    → IsSpawn o.spawn_x o.spawn_y
    → (r : Option PieceSpawnPlacement) × (find_piece_spawn_placement o ≡ ok r)
      × IsLowest o 0 (spawn_rows o) r
find_piece_spawn_placement-IsLowest o v s =
    let (r, made, w) =
      lift_from-IsLowest o 0 (spawn_rows o) v s (omega (arith, spawn_rows-le o s)) in
    (r, find_piece_spawn_placement-lift_from o ∙ made, w)
