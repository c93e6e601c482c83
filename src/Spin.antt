-- ===== src/Spin.antt =====
-- packages/game-core/src/spinDetection.ts: how a piece about to lock is classified.
pub mod Classes
mod Tests
use tetr_d.Base.{
  ℕ, ◌≡◌, Bool, true, false, not, ◌&&◌, ◌||◌, Option, some, none, List, [], ◌∷◌, get_or, all,
  count_if, leb, ◌==◌, if◌then◌else◌,
}
use tetr_d.Base.Int.{ℤ, pos, negsuc, ◌+ℤ◌, ◌-ℤ◌, ltb_ℤ, leb_ℤ, to_ℕ}
use tetr_d.Base.Masks.{has_bit}
use tetr_d.Base.Result.{Result, ok, ◌>>=◌}
use tetr_d.Pieces.{
  PieceKind, t_piece, RotationState, rotation0, rotation1, rotation2, rotation3, RotationDirection,
  half_turn, Cell, ActivePiece,
}
use tetr_d.Board.{Board, is_piece_placement_valid}

pub data SpinClassification : Type 0 where
  no_spin mini full : SpinClassification

pub record LastSuccessfulRotation : Type 0 where
  pub direction : RotationDirection
  pub kick_index : ℕ

unfoldable pub occupied_or_boundary : Board → ℤ → ℤ → Bool
occupied_or_boundary b x y =
    (ltb_ℤ x (pos 0) || leb_ℤ (pos 10) x || ltb_ℤ y (pos 0) || leb_ℤ (pos 40) y)
    || has_bit (get_or b.rows (to_ℕ y) 0) (to_ℕ x)

abbrev pub delta : ℤ → ℤ → Cell
delta dx dy = record { x = dx; y = dy }

abbrev minus_one : ℤ
minus_one = negsuc 0

abbrev pub front_offsets : RotationState → List Cell
front_offsets rotation0 = delta minus_one (pos 1) ∷ delta (pos 1) (pos 1) ∷ []
front_offsets rotation1 = delta (pos 1) (pos 1) ∷ delta (pos 1) minus_one ∷ []
front_offsets rotation2 = delta minus_one minus_one ∷ delta (pos 1) minus_one ∷ []
front_offsets rotation3 = delta minus_one (pos 1) ∷ delta minus_one minus_one ∷ []

abbrev pub corners : List Cell
corners =
    delta minus_one (pos 1)
    ∷ delta (pos 1) (pos 1)
    ∷ delta minus_one minus_one
    ∷ delta (pos 1) minus_one
    ∷ []

-- The piece moved by one cell in each of the four directions.
abbrev pub neighbours : ActivePiece → List ActivePiece
neighbours p =
    record p { x = p.x -ℤ pos 1 }
    ∷ record p { x = p.x +ℤ pos 1 }
    ∷ record p { y = p.y -ℤ pos 1 }
    ∷ record p { y = p.y +ℤ pos 1 }
    ∷ []

-- `positions.every((position) => !isPiecePlacementValid(...))`
unfoldable pub every_blocked : Board → List ActivePiece → Result Bool
every_blocked b [] = ok true
every_blocked b (p ∷ ps) =
    let rest = every_blocked b ps in
    is_piece_placement_valid b p >>= (λ valid. if valid then ok false else rest)

unfoldable pub immobile : Board → ActivePiece → Result Bool
unfolding every_blocked
immobile b p = every_blocked b (neighbours p)

-- `offsets.filter(([dx, dy]) => occupiedOrBoundary(board, pivotX + dx, pivotY + dy)).length`
unfoldable pub occupied_count : Board → ActivePiece → List Cell → ℕ
occupied_count b p =
    count_if (λ d. occupied_or_boundary b (p.x +ℤ pos 1 +ℤ d.x) (p.y +ℤ pos 1 +ℤ d.y))

abbrev pub is_half_turn : RotationDirection → Bool
is_half_turn half_turn = true
is_half_turn _ = false

abbrev pub is_t : PieceKind → Bool
is_t t_piece = true
is_t _ = false

abbrev pub fifth_90_kick : LastSuccessfulRotation → Bool
fifth_90_kick r = not (is_half_turn r.direction) && (r.kick_index == 4)

abbrev mini_if : Bool → SpinClassification
mini_if b = if b then mini else no_spin

unfoldable pub classify_t : Board → ActivePiece → LastSuccessfulRotation → Result SpinClassification
classify_t b p r =
    let full_spin = (occupied_count b p (front_offsets p.rotation) == 2) || fifth_90_kick r in
    if leb 3 (occupied_count b p corners)
    then ok (if full_spin then full else mini)
    else (immobile b p >>= λ stuck. ok (mini_if stuck))

unfoldable pub classify_all_mini_plus_spin :
    Board → ActivePiece → Option LastSuccessfulRotation → Result SpinClassification
unfolding classify_t
classify_all_mini_plus_spin b p none = ok no_spin
classify_all_mini_plus_spin b p (some r) =
    if is_t p.kind then classify_t b p r else (immobile b p >>= λ stuck. ok (mini_if stuck))
