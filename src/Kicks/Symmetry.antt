-- ===== src/Kicks/Symmetry.antt =====
-- What the kick tables of packages/game-core/src/srsPlus.ts guarantee to a rotation.
use tetr_d.Base.{◌≤◌, ◌≡◌, ◌≢◌, refl, List, [], ◌∷◌, map, length, arith}
use tetr_d.Base.Int.{pos, ◌-ℤ◌}
use tetr_d.Base.Result.{Result, ok, err}
use tetr_d.Pieces.{
  PieceKind, i_piece, o_piece, RotationState, rotation0, rotation1, rotation2, rotation3,
  RotationDirection, cw, ccw, half_turn, Cell,
}
use tetr_d.Kicks.{offset, target_rotation, get_kick_tests}

-- A half turn is two quarter turns, a counter-clockwise turn undoes a clockwise one, and a half
-- turn undoes itself.
target_rotation_group :
    (r : RotationState)
    → (target_rotation (target_rotation r cw) cw ≡ target_rotation r half_turn)
      × (target_rotation (target_rotation r cw) ccw ≡ r)
      × (target_rotation (target_rotation r ccw) cw ≡ r)
      × (target_rotation (target_rotation r half_turn) half_turn ≡ r)
unfolding target_rotation
target_rotation_group rotation0 = (refl, refl, refl, refl)
target_rotation_group _ = (refl, refl, refl, refl)

-- No table entry is missing, and every list of tests begins with the unkicked position and holds
-- at most six.
pub get_kick_tests_total :
    (k : PieceKind) (r : RotationState) (d : RotationDirection)
    → (rest : List Cell) × (get_kick_tests k r d ≡ ok (offset (pos 0) (pos 0) ∷ rest))
      × (length rest ≤ 5)
unfolding get_kick_tests
get_kick_tests_total i_piece rotation0 cw = (_, refl, omega arith)
get_kick_tests_total o_piece r d = ([], refl, omega arith)
get_kick_tests_total _ rotation0 cw = (_, refl, omega arith)
get_kick_tests_total _ rotation0 ccw = (_, refl, omega arith)
get_kick_tests_total _ rotation0 half_turn = (_, refl, omega arith)
get_kick_tests_total _ rotation1 cw = (_, refl, omega arith)
get_kick_tests_total _ rotation1 ccw = (_, refl, omega arith)
get_kick_tests_total _ rotation1 half_turn = (_, refl, omega arith)
get_kick_tests_total _ rotation2 cw = (_, refl, omega arith)
get_kick_tests_total _ rotation2 ccw = (_, refl, omega arith)
get_kick_tests_total _ rotation2 half_turn = (_, refl, omega arith)
get_kick_tests_total _ rotation3 cw = (_, refl, omega arith)
get_kick_tests_total _ rotation3 ccw = (_, refl, omega arith)
get_kick_tests_total _ rotation3 half_turn = (_, refl, omega arith)

-- Reflection in the vertical axis.
abbrev pub mirror_rotation : RotationState → RotationState
mirror_rotation rotation1 = rotation3
mirror_rotation rotation3 = rotation1
mirror_rotation r = r

abbrev pub mirror_direction : RotationDirection → RotationDirection
mirror_direction cw = ccw
mirror_direction ccw = cw
mirror_direction half_turn = half_turn

abbrev pub mirror_offset : Cell → Cell
mirror_offset c = record { x = pos 0 -ℤ c.x; y = c.y }

abbrev pub map_ok : (List Cell → List Cell) → Result (List Cell) → Result (List Cell)
map_ok f (ok cs) = ok (f cs)
map_ok f (err e) = err e

-- The mirrored quarter turn of the mirrored state has the mirrored kicks, in the same order, for
-- every kind: no side is favoured.
pub get_kick_tests_mirror :
    (k : PieceKind) (r : RotationState) (d : RotationDirection)
    → d ≢ half_turn
    → get_kick_tests k (mirror_rotation r) (mirror_direction d)
      ≡ map_ok (map mirror_offset) (get_kick_tests k r d)
unfolding get_kick_tests ◌-ℤ◌
get_kick_tests_mirror k r half_turn h = absurd (h refl)
get_kick_tests_mirror i_piece rotation0 cw h = refl
get_kick_tests_mirror o_piece r cw h = refl
get_kick_tests_mirror o_piece r ccw h = refl
get_kick_tests_mirror _ rotation0 cw h = refl
get_kick_tests_mirror _ rotation0 ccw h = refl
get_kick_tests_mirror _ rotation1 cw h = refl
get_kick_tests_mirror _ rotation1 ccw h = refl
get_kick_tests_mirror _ rotation2 cw h = refl
get_kick_tests_mirror _ rotation2 ccw h = refl
get_kick_tests_mirror _ rotation3 cw h = refl
get_kick_tests_mirror _ rotation3 ccw h = refl

-- For the kinds other than I, a clockwise quarter turn and the counter-clockwise one back try
-- opposite kicks in the same order.
pub get_kick_tests_opposite :
    (k : PieceKind) (r : RotationState)
    → k ≢ i_piece
    → get_kick_tests k (target_rotation r cw) ccw
      ≡ map_ok (map (λ c. record { x = pos 0 -ℤ c.x; y = pos 0 -ℤ c.y })) (get_kick_tests k r cw)
unfolding get_kick_tests ◌-ℤ◌
get_kick_tests_opposite i_piece r h = absurd (h refl)
get_kick_tests_opposite o_piece rotation0 h = refl
get_kick_tests_opposite _ rotation0 h = refl
get_kick_tests_opposite _ rotation1 h = refl
get_kick_tests_opposite _ rotation2 h = refl
get_kick_tests_opposite _ rotation3 h = refl
