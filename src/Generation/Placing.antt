-- ===== src/Generation/Placing.antt =====
-- The loop over rows of packages/game-core/src/pieceGenerationController.ts: where a piece is placed.
use tetr_d.Base.{
  ℕ, zero, suc, ◌+◌, ◌≤◌, ◌<◌, ◌≡◌, inl, inr, refl, ap, Bool, true, false, ◌&&◌, List, Option, none,
  some, arith, All, get_elem?, take, Bool-cases,
}
use tetr_d.Base.Int.{◌-ℤ◌}
use tetr_d.Base.Result.{Result, ok}
use tetr_d.Pieces.{PieceKind, Cell, RotationDirection, ActivePiece}
use tetr_d.Kicks.{target_rotation, get_kick_tests}
use tetr_d.Board.{Board, fits, is_safe_integer}
use tetr_d.Board.Valid.{IsBoard}
use tetr_d.Board.Sifting.{is_piece_placement_valid-eq}
use tetr_d.Rotation.{RotationResult, rotated, not_rotated, kicked}
use tetr_d.Rotation.Kicked.{Explains, try_rotate-Explains}
use tetr_d.Rotation.Playfields.{board_as_playfield-ok}
use tetr_d.Generation.{
  PieceGenerationOptions, GeneratedPlacement, placed, plain_placement, placement_at, placed_or,
  rotated_or, generate_from, rows_tried,
}
use tetr_d.Generation.Spawning.{IsSpawn, raised, raised-safe}

-- No kick of the turn that was buffered fits.
abbrev pub IsTurnBlocked : List ℕ → ActivePiece → Option RotationDirection → Type 0
IsTurnBlocked rows base none = Unit
IsTurnBlocked rows base (some d) =
    (kicks : List Cell) × (get_kick_tests base.kind base.rotation d ≡ ok kicks)
    × All (λ kick. fits rows (kicked base (target_rotation base.rotation d) kick) ≡ false) kicks

-- The upright piece `base`, in which case no turn was buffered or none fits; or the piece turned by
-- the direction that was buffered and moved by the first kick that fits.
abbrev pub IsOriented :
    List ℕ → Option RotationDirection → ActivePiece → ActivePiece → Bool → Type 0
IsOriented rows rotation base q false = (q ≡ base) × IsTurnBlocked rows base rotation
IsOriented rows rotation base q true =
    (d : RotationDirection) × (kicks : List Cell) × (m : ℕ) × (kick : Cell) × (rotation ≡ some d)
    × (get_kick_tests base.kind base.rotation d ≡ ok kicks)
    × (get_elem? kicks m ≡ some kick)
    × (q ≡ kicked base (target_rotation base.rotation d) kick)
    × All (λ other. fits rows (kicked base (target_rotation base.rotation d) other) ≡ false)
        (take m kicks)

-- A row that takes the piece neither turned nor upright.
abbrev pub IsMissed : List ℕ → Option RotationDirection → ActivePiece → Type 0
IsMissed rows rotation base = (fits rows base ≡ false) × IsTurnBlocked rows base rotation

-- What a placement in one row says.
abbrev IsHere :
    Board
    → ActivePiece
    → Option RotationDirection
    → ℕ
    → GeneratedPlacement
    → Option ActivePiece
    → Type 0
IsHere b base rotation n g none = IsMissed b.rows rotation base
IsHere b base rotation n g (some q) =
    (g.lifted_rows ≡ n)
    × (fits b.rows q ≡ true)
    × (q.kind ≡ base.kind)
    × IsOriented b.rows rotation base q g.used_irs

abbrev Here :
    Board → ActivePiece → Option RotationDirection → ℕ → Result GeneratedPlacement → Type 0
Here b base rotation n r =
    (g : GeneratedPlacement) × (r ≡ ok g) × IsHere b base rotation n g g.active

plain_placement-IsHere :
    {b : Board} (base : ActivePiece) (rotation : Option RotationDirection) (n : ℕ)
    → IsBoard b
    → (is_safe_integer base.x && is_safe_integer base.y) ≡ true
    → IsTurnBlocked b.rows base rotation
    → Here b base rotation n (plain_placement b base n)
unfolding plain_placement
plain_placement-IsHere {b} base rotation n v safe unturned =
    let tested = is_piece_placement_valid-eq base v safe in
    elim (Bool-cases (fits b.rows base)) [
      | inl e ↦ (placed (some base) n, rw (tested, e), (refl, e, refl, (refl, unturned)))
      | inr e ↦ (placed none n, rw (tested, e), (e, unturned))
    ]

turned_or_plain :
    (b : Board) (base : ActivePiece) (d : RotationDirection) (n : ℕ) (kicks : List Cell)
    (r : RotationResult)
    → get_kick_tests base.kind base.rotation d ≡ ok kicks
    → Explains b.rows base (target_rotation base.rotation d) 0 kicks r
    → (IsTurnBlocked b.rows base (some d) → Here b base (some d) n (plain_placement b base n))
    → Here b base (some d) n (rotated_or r n (plain_placement b base n))
turned_or_plain b base d n kicks (rotated q kick k) tests (m, at, found, same, fit, before) plain =
    (
      record { active = some q; lifted_rows = n; used_irs = true; irs_kick_index = some k },
      refl,
      (refl, fit, ap (λ p. p.kind) same, (d, kicks, m, kick, refl, tests, found, same, before)),
    )
turned_or_plain b base d n kicks (not_rotated q) tests (same, misses) plain =
    plain (kicks, tests, misses)

placement_at-IsHere :
    {b : Board} (base : ActivePiece) (rotation : Option RotationDirection) (n : ℕ)
    → IsBoard b
    → (is_safe_integer base.x && is_safe_integer base.y) ≡ true
    → Here b base rotation n (placement_at b base rotation n)
unfolding placement_at
placement_at-IsHere base none n v safe = plain_placement-IsHere base none n v safe tt
placement_at-IsHere {b} base (some d) n v safe =
    let (kicks, r, tests, made, w) = try_rotate-Explains b base d v in
    rw (board_as_playfield-ok v, made)
      (turned_or_plain b base d n kicks r tests w (plain_placement-IsHere base (some d) n v safe))

-- `count` rows from `n` on that do not take the piece.
abbrev pub AllMissed :
    PieceGenerationOptions → PieceKind → Option RotationDirection → ℕ → ℕ → Type 0
AllMissed o kind rotation n zero = Unit
AllMissed o kind rotation n (suc count) =
    IsMissed o.board.rows rotation (raised kind o.spawn_x o.spawn_y n)
    × AllMissed o kind rotation (n + 1) count

-- The piece stands in the lowest of `left` rows from `n` on that takes it; without a piece no row
-- has room.
abbrev pub IsGenerated :
    PieceGenerationOptions
    → PieceKind
    → Option RotationDirection
    → ℕ
    → ℕ
    → ℕ
    → Bool
    → Option ActivePiece
    → Type 0
IsGenerated o kind rotation n left lifted used_irs none = AllMissed o kind rotation n left
IsGenerated o kind rotation n left lifted used_irs (some q) =
    (count : ℕ) × (count < left)
    × (lifted ≡ n + count)
    × (fits o.board.rows q ≡ true)
    × (q.kind ≡ kind)
    × IsOriented o.board.rows rotation (raised kind o.spawn_x o.spawn_y lifted) q used_irs
    × AllMissed o kind rotation n count

IsGenerated-next :
    (o : PieceGenerationOptions) (kind : PieceKind) (rotation : Option RotationDirection)
    (n left lifted : ℕ) (used_irs : Bool) (active : Option ActivePiece)
    → IsMissed o.board.rows rotation (raised kind o.spawn_x o.spawn_y n)
    → IsGenerated o kind rotation (n + 1) left lifted used_irs active
    → IsGenerated o kind rotation n (suc left) lifted used_irs active
IsGenerated-next o kind rotation n left lifted used_irs none miss rest = (miss, rest)
IsGenerated-next o kind rotation n left lifted used_irs (some q) miss
      (count, lt, e, fit, same, oriented, blocked) =
    (suc count, omega arith, omega arith, fit, same, oriented, (miss, blocked))

abbrev Generated :
    PieceGenerationOptions
    → PieceKind
    → Option RotationDirection
    → ℕ
    → ℕ
    → Result GeneratedPlacement
    → Type 0
Generated o kind rotation n left r =
    (g : GeneratedPlacement) × (r ≡ ok g)
    × IsGenerated o kind rotation n left g.lifted_rows g.used_irs g.active

here_or_above :
    (o : PieceGenerationOptions) (kind : PieceKind) (rotation : Option RotationDirection)
    (n left : ℕ) (g : GeneratedPlacement) (rest : Result GeneratedPlacement)
    (active : Option ActivePiece)
    → g.active ≡ active
    → IsHere o.board (raised kind o.spawn_x o.spawn_y n) rotation n g active
    → Generated o kind rotation (n + 1) left rest
    → Generated o kind rotation n (suc left) (placed_or g rest)
here_or_above o kind rotation n left g rest none e miss (above, made, w) =
    (above, rw e made, IsGenerated-next o kind rotation n left _ _ above.active miss w)
here_or_above o kind rotation n left g rest (some q) e (level, fit, same, oriented) above =
    (g, rw e, rw (e, level) (0, omega arith, omega arith, fit, same, oriented, tt))

pub generate_from-IsGenerated :
    (o : PieceGenerationOptions) (kind : PieceKind) (rotation : Option RotationDirection)
    (n left : ℕ)
    → IsBoard o.board
    → IsSpawn o.spawn_x o.spawn_y
    → n + left ≤ 100
    → Generated o kind rotation n left (generate_from o kind rotation n left)
unfolding generate_from
generate_from-IsGenerated o kind rotation n zero v s le = (placed none 0, refl, tt)
generate_from-IsGenerated o kind rotation n (suc left) v s le =
    let base = raised kind o.spawn_x o.spawn_y n in
    let (g, made, here) =
      placement_at-IsHere base rotation n v
        (raised-safe kind o.spawn_x o.spawn_y n s (omega arith)) in
    rw made (
      here_or_above o kind rotation n left g _ g.active refl here
        (generate_from-IsGenerated o kind rotation (n + 1) left v s (omega arith)))

pub rows_tried-le :
    (o : PieceGenerationOptions) → IsBoard o.board → IsSpawn o.spawn_x o.spawn_y → rows_tried o ≤ 80
unfolding rows_tried ◌-ℤ◌
rows_tried-le o v s = ground (arith, v.height, s.row)
