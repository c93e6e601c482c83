-- ===== src/Kicks/Tests.antt =====
-- Tests of packages/game-core/src/srsPlus.ts, and its theorems at concrete pieces.
use tetr_d.Base.{◌≡◌, ◌≢◌, ◌≤◌, refl, List, [], ◌∷◌, length, map}
use tetr_d.Base.Int.{pos, negsuc, ◌-ℤ◌}
use tetr_d.Base.Result.{ok}
use tetr_d.Pieces.{i_piece, t_piece, s_piece, rotation0, rotation1, cw, ccw, half_turn, Cell}
use tetr_d.Kicks.{target_rotation, get_kick_tests, offset}
use tetr_d.Kicks.Symmetry.{
  get_kick_tests_total, get_kick_tests_mirror, get_kick_tests_opposite, mirror_rotation,
  mirror_direction, mirror_offset, map_ok,
}

t_kicks :
    get_kick_tests t_piece rotation0 cw
    ≡ ok (
        offset (pos 0) (pos 0)
        ∷ offset (negsuc 0) (pos 0)
        ∷ offset (negsuc 0) (pos 1)
        ∷ offset (pos 0) (negsuc 1)
        ∷ offset (negsuc 0) (negsuc 1)
        ∷ [])
unfolding get_kick_tests
t_kicks = refl

not_half : ccw ≢ half_turn
not_half e = cc

not_i : s_piece ≢ i_piece
not_i e = cc

get_kick_tests_total_example :
    (rest : List Cell) × (get_kick_tests i_piece rotation1 ccw ≡ ok (offset (pos 0) (pos 0) ∷ rest))
    × (length rest ≤ 5)
get_kick_tests_total_example = get_kick_tests_total i_piece rotation1 ccw

get_kick_tests_mirror_example :
    get_kick_tests i_piece (mirror_rotation rotation1) (mirror_direction ccw)
    ≡ map_ok (map mirror_offset) (get_kick_tests i_piece rotation1 ccw)
get_kick_tests_mirror_example = get_kick_tests_mirror i_piece rotation1 ccw not_half

get_kick_tests_opposite_example :
    get_kick_tests s_piece (target_rotation rotation1 cw) ccw
    ≡ map_ok
        (map (λ c. record { x = pos 0 -ℤ c.x; y = pos 0 -ℤ c.y }))
        (get_kick_tests s_piece rotation1 cw)
get_kick_tests_opposite_example = get_kick_tests_opposite s_piece rotation1 not_i
