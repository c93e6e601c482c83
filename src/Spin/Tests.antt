-- ===== src/Spin/Tests.antt =====
-- Tests of packages/game-core/src/spinDetection.ts, and its theorems at a concrete T.
use tetr_d.Base.{◌≡◌, ◌≢◌, ◌↔◌, false, Option, some, none, arith}
use tetr_d.Base.Int.{pos, ◌+ℤ◌, ◌-ℤ◌}
use tetr_d.Base.Result.{ok}
use tetr_d.Pieces.{t_piece, s_piece, rotation2, cw, ActivePiece}
use tetr_d.Board.{fits}
use tetr_d.Board.Samples.{slot, slot-IsBoard}
use tetr_d.Spin.{mini, full, LastSuccessfulRotation, classify_all_mini_plus_spin}
use tetr_d.Spin.Classes.{
  IsPlaced, IsFullSpin, classify_all_mini_plus_spin-full, classify_all_mini_plus_spin-mini,
}

abbrev t_down : ActivePiece
t_down = record { kind = t_piece; rotation = rotation2; x = pos 3; y = pos 0 }

abbrev s_down : ActivePiece
s_down = record { kind = s_piece; rotation = rotation2; x = pos 3; y = pos 0 }

abbrev turned : Option LastSuccessfulRotation
turned = some (record { direction = cw; kick_index = 0 })

t_down-IsPlaced : IsPlaced t_down
t_down-IsPlaced = record { left = omega arith; down = omega arith }

s_down-IsPlaced : IsPlaced s_down
s_down-IsPlaced = record { left = omega arith; down = omega arith }

s_other : s_piece ≢ t_piece
s_other e = cc

classify_all_mini_plus_spin-full_example :
    (classify_all_mini_plus_spin slot t_down turned ≡ ok full) ↔ IsFullSpin slot t_down turned
classify_all_mini_plus_spin-full_example =
    classify_all_mini_plus_spin-full slot t_down turned slot-IsBoard t_down-IsPlaced

classify_all_mini_plus_spin-mini_example :
    (classify_all_mini_plus_spin slot s_down turned ≡ ok mini) ↔ (
      (turned ≢ none)
      × (fits slot.rows (record s_down { x = pos 3 -ℤ pos 1 }) ≡ false)
      × (fits slot.rows (record s_down { x = pos 3 +ℤ pos 1 }) ≡ false)
      × (fits slot.rows (record s_down { y = pos 0 -ℤ pos 1 }) ≡ false)
      × (fits slot.rows (record s_down { y = pos 0 +ℤ pos 1 }) ≡ false))
classify_all_mini_plus_spin-mini_example =
    classify_all_mini_plus_spin-mini slot s_down turned slot-IsBoard s_down-IsPlaced s_other
