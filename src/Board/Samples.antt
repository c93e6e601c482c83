-- ===== src/Board/Samples.antt =====
-- Well-formed boards for the tests of the components that use packages/game-core/src/board.ts.
use tetr_d.Base.{◌≡◌, refl, true, false, ◌∷◌, replicate}
use tetr_d.Base.Result.{ok}
use tetr_d.Board.{Board, assert_board, assert_rows}
use tetr_d.Board.Valid.{IsBoard, assert_board_iff}

abbrev pub bare : Board
bare = record { rows = replicate 40 0; garbage_rows = replicate 40 false }

-- A garbage row with a hole of four columns, and a block above it.
abbrev pub holed : Board
holed = record { rows = 903 ∷ 1 ∷ replicate 38 0; garbage_rows = true ∷ replicate 39 false }

-- A slot for a T under an overhang.
abbrev pub slot : Board
slot = record { rows = 1007 ∷ 967 ∷ 32 ∷ replicate 37 0; garbage_rows = replicate 40 false }

accepted : (assert_board bare ≡ ok tt) × (assert_board holed ≡ ok tt) × (assert_board slot ≡ ok tt)
unfolding assert_board assert_rows
accepted = (refl, refl, refl)

pub bare-IsBoard : IsBoard bare
bare-IsBoard = (assert_board_iff bare).0 accepted.0

pub holed-IsBoard : IsBoard holed
holed-IsBoard = (assert_board_iff holed).0 accepted.1

pub slot-IsBoard : IsBoard slot
slot-IsBoard = (assert_board_iff slot).0 accepted.2
