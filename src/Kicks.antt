-- ===== src/Kicks.antt =====
-- packages/game-core/src/srsPlus.ts: the kick tables and the order in which a rotation tries them.
pub mod Symmetry
mod Tests
use tetr_d.Base.{
  ℕ, ◌+◌, ◌%◌, Bool, true, false, Option, none, some, List, [], ◌∷◌, ◌==◌, if◌then◌else◌,
}
use tetr_d.Base.Int.{ℤ, pos, negsuc}
use tetr_d.Base.Result.{Error, plain_error, Result, ok, err}
use tetr_d.Pieces.{
  PieceKind, i_piece, o_piece, RotationState, rotation0, rotation1, rotation2, rotation3,
  rotation_index, RotationDirection, cw, ccw, half_turn, Cell,
}

abbrev pub offset : ℤ → ℤ → Cell
offset dx dy = record { x = dx; y = dy }

abbrev pub neg1 : ℤ
neg1 = negsuc 0

abbrev pub neg2 : ℤ
neg2 = negsuc 1

-- `table[`${from}>${to}`]`, which may be undefined.
abbrev pub KickTable : Type 0
KickTable = RotationState → RotationState → Option (List Cell)

abbrev pub zero_kick : List Cell
zero_kick = offset (pos 0) (pos 0) ∷ []

unfoldable pub jlstz_90_kicks : KickTable
jlstz_90_kicks rotation0 rotation1 = some (
    offset (pos 0) (pos 0)
    ∷ offset neg1 (pos 0)
    ∷ offset neg1 (pos 1)
    ∷ offset (pos 0) neg2
    ∷ offset neg1 neg2
    ∷ [])
jlstz_90_kicks rotation1 rotation0 = some (
    offset (pos 0) (pos 0)
    ∷ offset (pos 1) (pos 0)
    ∷ offset (pos 1) neg1
    ∷ offset (pos 0) (pos 2)
    ∷ offset (pos 1) (pos 2)
    ∷ [])
jlstz_90_kicks rotation1 rotation2 = some (
    offset (pos 0) (pos 0)
    ∷ offset (pos 1) (pos 0)
    ∷ offset (pos 1) neg1
    ∷ offset (pos 0) (pos 2)
    ∷ offset (pos 1) (pos 2)
    ∷ [])
jlstz_90_kicks rotation2 rotation1 = some (
    offset (pos 0) (pos 0)
    ∷ offset neg1 (pos 0)
    ∷ offset neg1 (pos 1)
    ∷ offset (pos 0) neg2
    ∷ offset neg1 neg2
    ∷ [])
jlstz_90_kicks rotation2 rotation3 = some (
    offset (pos 0) (pos 0)
    ∷ offset (pos 1) (pos 0)
    ∷ offset (pos 1) (pos 1)
    ∷ offset (pos 0) neg2
    ∷ offset (pos 1) neg2
    ∷ [])
jlstz_90_kicks rotation3 rotation2 = some (
    offset (pos 0) (pos 0)
    ∷ offset neg1 (pos 0)
    ∷ offset neg1 neg1
    ∷ offset (pos 0) (pos 2)
    ∷ offset neg1 (pos 2)
    ∷ [])
jlstz_90_kicks rotation3 rotation0 = some (
    offset (pos 0) (pos 0)
    ∷ offset neg1 (pos 0)
    ∷ offset neg1 neg1
    ∷ offset (pos 0) (pos 2)
    ∷ offset neg1 (pos 2)
    ∷ [])
jlstz_90_kicks rotation0 rotation3 = some (
    offset (pos 0) (pos 0)
    ∷ offset (pos 1) (pos 0)
    ∷ offset (pos 1) (pos 1)
    ∷ offset (pos 0) neg2
    ∷ offset (pos 1) neg2
    ∷ [])
jlstz_90_kicks _ _ = none

unfoldable pub i_90_kicks : KickTable
i_90_kicks rotation0 rotation1 = some (
    offset (pos 0) (pos 0)
    ∷ offset (pos 1) (pos 0)
    ∷ offset neg2 (pos 0)
    ∷ offset neg2 neg1
    ∷ offset (pos 1) (pos 2)
    ∷ [])
i_90_kicks rotation1 rotation0 = some (
    offset (pos 0) (pos 0)
    ∷ offset neg1 (pos 0)
    ∷ offset (pos 2) (pos 0)
    ∷ offset neg1 neg2
    ∷ offset (pos 2) (pos 1)
    ∷ [])
i_90_kicks rotation1 rotation2 = some (
    offset (pos 0) (pos 0)
    ∷ offset neg1 (pos 0)
    ∷ offset (pos 2) (pos 0)
    ∷ offset neg1 (pos 2)
    ∷ offset (pos 2) neg1
    ∷ [])
i_90_kicks rotation2 rotation1 = some (
    offset (pos 0) (pos 0)
    ∷ offset neg2 (pos 0)
    ∷ offset (pos 1) (pos 0)
    ∷ offset neg2 (pos 1)
    ∷ offset (pos 1) neg2
    ∷ [])
i_90_kicks rotation2 rotation3 = some (
    offset (pos 0) (pos 0)
    ∷ offset (pos 2) (pos 0)
    ∷ offset neg1 (pos 0)
    ∷ offset (pos 2) (pos 1)
    ∷ offset neg1 neg2
    ∷ [])
i_90_kicks rotation3 rotation2 = some (
    offset (pos 0) (pos 0)
    ∷ offset (pos 1) (pos 0)
    ∷ offset neg2 (pos 0)
    ∷ offset (pos 1) (pos 2)
    ∷ offset neg2 neg1
    ∷ [])
i_90_kicks rotation3 rotation0 = some (
    offset (pos 0) (pos 0)
    ∷ offset (pos 1) (pos 0)
    ∷ offset neg2 (pos 0)
    ∷ offset (pos 1) neg2
    ∷ offset neg2 (pos 1)
    ∷ [])
i_90_kicks rotation0 rotation3 = some (
    offset (pos 0) (pos 0)
    ∷ offset neg1 (pos 0)
    ∷ offset (pos 2) (pos 0)
    ∷ offset (pos 2) neg1
    ∷ offset neg1 (pos 2)
    ∷ [])
i_90_kicks _ _ = none

unfoldable pub jlstz_180_kicks : KickTable
jlstz_180_kicks rotation0 rotation2 = some (
    offset (pos 0) (pos 0)
    ∷ offset (pos 0) (pos 1)
    ∷ offset (pos 1) (pos 1)
    ∷ offset neg1 (pos 1)
    ∷ offset (pos 1) (pos 0)
    ∷ offset neg1 (pos 0)
    ∷ [])
jlstz_180_kicks rotation1 rotation3 = some (
    offset (pos 0) (pos 0)
    ∷ offset (pos 1) (pos 0)
    ∷ offset (pos 1) (pos 2)
    ∷ offset (pos 1) (pos 1)
    ∷ offset (pos 0) (pos 2)
    ∷ offset (pos 0) (pos 1)
    ∷ [])
jlstz_180_kicks rotation2 rotation0 = some (
    offset (pos 0) (pos 0)
    ∷ offset (pos 0) neg1
    ∷ offset neg1 neg1
    ∷ offset (pos 1) neg1
    ∷ offset neg1 (pos 0)
    ∷ offset (pos 1) (pos 0)
    ∷ [])
jlstz_180_kicks rotation3 rotation1 = some (
    offset (pos 0) (pos 0)
    ∷ offset neg1 (pos 0)
    ∷ offset neg1 (pos 2)
    ∷ offset neg1 (pos 1)
    ∷ offset (pos 0) (pos 2)
    ∷ offset (pos 0) (pos 1)
    ∷ [])
jlstz_180_kicks _ _ = none

unfoldable pub i_180_kicks : KickTable
i_180_kicks rotation0 rotation2 = some (offset (pos 0) (pos 0) ∷ offset (pos 0) (pos 1) ∷ [])
i_180_kicks rotation1 rotation3 = some (offset (pos 0) (pos 0) ∷ offset (pos 1) (pos 0) ∷ [])
i_180_kicks rotation2 rotation0 = some (offset (pos 0) (pos 0) ∷ offset (pos 0) neg1 ∷ [])
i_180_kicks rotation3 rotation1 = some (offset (pos 0) (pos 0) ∷ offset neg1 (pos 0) ∷ [])
i_180_kicks _ _ = none

-- The rotation state of a number modulo four, `n % 4`.
unfoldable pub rotation_mod : ℕ → RotationState
rotation_mod n =
    if n % 4 == 0
    then rotation0
    else if n % 4 == 1
    then rotation1
    else if n % 4 == 2
    then rotation2
    else rotation3

abbrev pub direction_delta : RotationDirection → ℕ
direction_delta cw = 1
direction_delta ccw = 3
direction_delta half_turn = 2

unfoldable pub target_rotation : RotationState → RotationDirection → RotationState
unfolding rotation_mod
target_rotation from direction = rotation_mod (rotation_index from + direction_delta direction)

-- `direction === "180" ? (kind === "I" ? ... : ...) : (kind === "I" ? ... : ...)`
unfoldable pub kick_table : PieceKind → RotationDirection → KickTable
unfolding jlstz_90_kicks i_90_kicks jlstz_180_kicks i_180_kicks
kick_table i_piece half_turn = i_180_kicks
kick_table _ half_turn = jlstz_180_kicks
kick_table i_piece _ = i_90_kicks
kick_table _ _ = jlstz_90_kicks

abbrev tests_or_throw : Option (List Cell) → Result (List Cell)
tests_or_throw none = err plain_error
tests_or_throw (some tests) = ok tests

unfoldable pub get_kick_tests : PieceKind → RotationState → RotationDirection → Result (List Cell)
unfolding target_rotation kick_table
get_kick_tests o_piece from direction = ok zero_kick
get_kick_tests kind from direction =
    tests_or_throw (kick_table kind direction from (target_rotation from direction))
