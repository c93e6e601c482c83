-- ===== src/Simulation/Dropping.antt =====
-- The drop of packages/game-core/src/playerSimulation.ts: straight down to the first obstacle.
use tetr_d.Base.{
  ℕ, zero, suc, ◌+◌, ◌≤◌, ◌≡◌, inl, inr, refl, ap, true, false, ◌&&◌, some, arith, Bool-cases,
  if◌then◌else◌,
}
use tetr_d.Base.Int.{ℤ, negsuc, pos_part, neg_part, ◌+ℤ◌, +ℤ_parts}
use tetr_d.Base.Result.{ok}
use tetr_d.Pieces.{ActivePiece}
use tetr_d.Board.{fits, is_safe_integer}
use tetr_d.Board.Reach.{InReach, fits-InReach}
use tetr_d.Board.Valid.{IsBoard}
use tetr_d.Board.Sifting.{is_piece_placement_valid-eq}
use tetr_d.Simulation.{MotionState, lowered, move_vertical, drop_on}

lowered-safe :
    (p : ActivePiece)
    → InReach p
    → (is_safe_integer (lowered p).x && is_safe_integer (lowered p).y) ≡ true
unfolding ◌+ℤ◌
lowered-safe p (x0, x1, y0, y1) = ground arith

-- The piece `k` rows further down.
abbrev pub dropped : ActivePiece → ℕ → ActivePiece
dropped p zero = p
dropped p (suc k) = dropped (lowered p) k

move_vertical-eq :
    (s : MotionState) (p : ActivePiece)
    → s.active ≡ some p
    → IsBoard s.board
    → fits s.board.rows p ≡ true
    → move_vertical s
      ≡ ok (
        fits s.board.rows (lowered p),
        if fits s.board.rows (lowered p) then record s { active = some (lowered p) } else s,
      )
unfolding move_vertical
move_vertical-eq s p active v fit = rw (
  active,
  is_piece_placement_valid-eq (lowered p) v (lowered-safe p (fits-InReach s.board.rows p fit)),
)

-- A drop by `k` rows that ends on the ground.
pub record IsDrop (s : MotionState) (p : ActivePiece) (t : MotionState) : Type 0 where
  pub rows : ℕ
  pub moved : t ≡ record s { active = some (dropped p rows) }
  pub fit : fits s.board.rows (dropped p rows) ≡ true
  pub grounded : fits s.board.rows (lowered (dropped p rows)) ≡ false

lower_height :
    (y : ℤ) (fuel : ℕ)
    → pos_part y + 4 ≤ suc fuel + neg_part y
    → pos_part (y +ℤ negsuc 0) + 4 ≤ fuel + neg_part (y +ℤ negsuc 0)
lower_height y fuel h = omega (arith, +ℤ_parts y (negsuc 0))

drop_on-IsDrop :
    (fuel : ℕ) (s : MotionState) (p : ActivePiece)
    → s.active ≡ some p
    → IsBoard s.board
    → fits s.board.rows p ≡ true
    → pos_part p.y + 4 ≤ fuel + neg_part p.y
    → (t : MotionState) × (drop_on fuel s ≡ ok t) × IsDrop s p t
unfolding drop_on
drop_on-IsDrop zero s p active v fit enough =
    let (x0, x1, y0, y1) = fits-InReach s.board.rows p fit in absurd (omega arith)
drop_on-IsDrop (suc fuel) s p active v fit enough =
    elim (Bool-cases (fits s.board.rows (lowered p))) [
      | inl e ↦
          let (t, made, w) =
            drop_on-IsDrop fuel (record s { active = some (lowered p) }) (lowered p) refl v e
              (lower_height p.y fuel enough) in
          (
            t,
            rw (move_vertical-eq s p active v fit, e) made,
            record { rows = suc w.rows; moved = w.moved; fit = w.fit; grounded = w.grounded },
          )
      | inr e ↦ (
        s,
        rw (move_vertical-eq s p active v fit, e),
        record {
          rows = 0;
          moved = ap (λ a. record s { active = a }) active;
          fit = fit;
          grounded = e;
        },
      )
    ]

-- On a well-formed board the drop of a piece that fits ends within 48 moves and without an error:
-- the piece stands some rows further down, fits there and would not fit one row lower, and nothing
-- else changes.
pub drop_on-lands :
    (s : MotionState) (p : ActivePiece)
    → s.active ≡ some p
    → IsBoard s.board
    → fits s.board.rows p ≡ true
    → (t : MotionState) × (drop_on 48 s ≡ ok t) × IsDrop s p t
drop_on-lands s p active v fit =
    let (x0, x1, y0, y1) = fits-InReach s.board.rows p fit in
    drop_on-IsDrop 48 s p active v fit (omega arith)
