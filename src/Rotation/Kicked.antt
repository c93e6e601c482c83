-- ===== src/Rotation/Kicked.antt =====
-- `tryRotate` of packages/game-core/src/rotation.ts on a board: the first kick that fits wins.
use tetr_d.Base.{
  ℕ, suc, ◌+◌, ◌≡◌, inl, inr, refl, true, false, some, List, [], ◌∷◌, get_elem?, take, arith, All,
  Bool-cases, if◌then◌else◌,
}
use tetr_d.Base.Int.{pos}
use tetr_d.Base.Result.{ok}
use tetr_d.Pieces.{Cell, ActivePiece, RotationState, RotationDirection}
use tetr_d.Kicks.{target_rotation, get_kick_tests, offset}
use tetr_d.Kicks.Symmetry.{get_kick_tests_total}
use tetr_d.Board.Valid.{IsBoard}
use tetr_d.Board.{Board, fits}
use tetr_d.Rotation.{RotationResult, rotated, not_rotated, kicked, try_kicks, try_rotate}
use tetr_d.Rotation.Playfields.{board_playfield, is_placement_valid-board}

-- The search among kicks on a board's rows.
unfoldable pub first_kick : List ℕ → ActivePiece → RotationState → ℕ → List Cell → RotationResult
first_kick rows p rotation n [] = not_rotated p
first_kick rows p rotation n (kick ∷ kicks) =
    if fits rows (kicked p rotation kick)
    then rotated (kicked p rotation kick) kick n
    else first_kick rows p rotation (n + 1) kicks

try_kicks-eq :
    {b : Board} (p : ActivePiece) (rotation : RotationState) (n : ℕ) (kicks : List Cell)
    → IsBoard b
    → try_kicks (board_playfield b) p rotation n kicks ≡ ok (first_kick b.rows p rotation n kicks)
unfolding try_kicks first_kick
try_kicks-eq p rotation n [] v = refl
try_kicks-eq {b} p rotation n (kick ∷ kicks) v =
    rw (is_placement_valid-board (kicked p rotation kick) v)
      (elim (Bool-cases (fits b.rows (kicked p rotation kick))) [
        | inl e ↦ rw e
        | inr e ↦ rw e (try_kicks-eq p rotation (n + 1) kicks v)
      ])

-- What the two outcomes promise of the kicks from number `n` on.
abbrev pub Explains : List ℕ → ActivePiece → RotationState → ℕ → List Cell → RotationResult → Type 0
Explains rows p rotation n kicks (rotated q kick k) =
    (m : ℕ) × (k ≡ n + m)
    × (get_elem? kicks m ≡ some kick)
    × (q ≡ kicked p rotation kick)
    × (fits rows q ≡ true)
    × All (λ other. fits rows (kicked p rotation other) ≡ false) (take m kicks)
Explains rows p rotation n kicks (not_rotated q) =
    (q ≡ p) × All (λ kick. fits rows (kicked p rotation kick) ≡ false) kicks

Explains-cons :
    (rows : List ℕ) (p : ActivePiece) (rotation : RotationState) (n : ℕ) (kick : Cell)
    (kicks : List Cell) (r : RotationResult)
    → fits rows (kicked p rotation kick) ≡ false
    → Explains rows p rotation (n + 1) kicks r
    → Explains rows p rotation n (kick ∷ kicks) r
Explains-cons rows p rotation n kick kicks (not_rotated q) miss (same, misses) =
    (same, (miss, misses))
Explains-cons rows p rotation n kick kicks (rotated q hit k) miss
      (m, at, found, placed, fit, before) =
    (suc m, omega arith, found, placed, fit, (miss, before))

first_kick-Explains :
    (rows : List ℕ) (p : ActivePiece) (rotation : RotationState) (n : ℕ) (kicks : List Cell)
    → Explains rows p rotation n kicks (first_kick rows p rotation n kicks)
unfolding first_kick
first_kick-Explains rows p rotation n [] = (refl, tt)
first_kick-Explains rows p rotation n (kick ∷ kicks) =
    elim (Bool-cases (fits rows (kicked p rotation kick))) [
      | inl e ↦ rw e (0, omega arith, refl, refl, e, tt)
      | inr e ↦ rw e (
          Explains-cons rows p rotation n kick kicks _ e
            (first_kick-Explains rows p rotation (n + 1) kicks))
    ]

-- On a well-formed board a rotation always answers. It takes the first kick of the kind's list at
-- which the turned piece fits, and reports that kick and its number; if none fits the piece stays.
pub try_rotate-Explains :
    (b : Board) (p : ActivePiece) (d : RotationDirection)
    → IsBoard b
    → (kicks : List Cell) × (r : RotationResult) × (get_kick_tests p.kind p.rotation d ≡ ok kicks)
      × (try_rotate (board_playfield b) p d ≡ ok r)
      × Explains b.rows p (target_rotation p.rotation d) 0 kicks r
unfolding try_rotate
try_rotate-Explains b p d v =
    let (rest, tests, short) = get_kick_tests_total p.kind p.rotation d in
    let kicks = offset (pos 0) (pos 0) ∷ rest in
    (
      kicks,
      first_kick b.rows p (target_rotation p.rotation d) 0 kicks,
      tests,
      rw tests (try_kicks-eq p (target_rotation p.rotation d) 0 kicks v),
      first_kick-Explains b.rows p (target_rotation p.rotation d) 0 kicks,
    )
