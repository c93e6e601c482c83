-- ===== src/Rotation.antt =====
-- packages/game-core/src/rotation.ts, and `boardAsPlayfield` of board.ts: a rotation tries the kicks
-- in order and takes the first free position. A playfield's test of a cell may throw.
pub mod Playfields
pub mod Kicked
mod Tests
use tetr_d.Base.{
  ℕ, zero, suc, ◌+◌, ◌*◌, ◌≡◌, Bool, true, false, not, ◌&&◌, List, [], ◌∷◌, all, any, ltb, leb,
  ◌==◌, if◌then◌else◌,
}
use tetr_d.Base.Doubles.{to_double_ℤ}
use tetr_d.Base.Int.{ℤ, pos, pos_part, neg_part, ◌+ℤ◌, sub_ℕ, ltb_ℤ, leb_ℤ, eqb_ℤ}
use tetr_d.Base.Result.{Result, ok, err, range_error, guard, ◌>>=◌, ◌>>◌}
use tetr_d.Pieces.{Cell, ActivePiece, RotationState, RotationDirection, world_cells_for}
use tetr_d.Kicks.{target_rotation, get_kick_tests}
use tetr_d.Board.{Board, assert_board, is_board_cell_occupied, is_safe_integer, max_safe_integer}

pub record Playfield : Type 0 where
  pub width : ℕ
  pub height : ℕ
  pub is_occupied : ℤ → ℤ → Result Bool

pub data RotationResult : Type 0 where
  rotated : ActivePiece → Cell → ℕ → RotationResult
  not_rotated : ActivePiece → RotationResult

unfoldable pub board_as_playfield : Board → Result Playfield
board_as_playfield b = do
  assert_board b
  ok (record { width = 10; height = 40; is_occupied = is_board_cell_occupied b })

abbrev pub in_playfield : Playfield → Cell → Bool
in_playfield f c =
    leb_ℤ (pos 0) c.x && ltb_ℤ c.x (pos f.width) && leb_ℤ (pos 0) c.y && ltb_ℤ c.y (pos f.height)

-- `cells.every(...)`, which stops at the first cell that fails.
unfoldable pub every_cell_free : Playfield → List Cell → Result Bool
every_cell_free f [] = ok true
every_cell_free f (c ∷ cs) =
    let rest = every_cell_free f cs in
    let tested = f.is_occupied c.x c.y >>= (λ occupied. if occupied then ok false else rest) in
    if in_playfield f c then tested else ok false

-- Coordinates are integers by their type.
unfoldable pub is_placement_valid : Playfield → ActivePiece → Result Bool
unfolding every_cell_free
is_placement_valid f p = every_cell_free f (world_cells_for p.kind p.rotation p.x p.y)

-- The candidate of a kick.
abbrev pub kicked : ActivePiece → RotationState → Cell → ActivePiece
kicked p rotation kick = record p { rotation = rotation; x = p.x +ℤ kick.x; y = p.y +ℤ kick.y }

-- The loop over the kicks from number `n` on.
unfoldable pub try_kicks :
    Playfield → ActivePiece → RotationState → ℕ → List Cell → Result RotationResult
try_kicks f p rotation n [] = ok (not_rotated p)
try_kicks f p rotation n (kick ∷ kicks) =
    let rest = try_kicks f p rotation (n + 1) kicks in
    is_placement_valid f (kicked p rotation kick)
    >>= (λ valid. if valid then ok (rotated (kicked p rotation kick) kick n) else rest)

unfoldable pub try_rotate : Playfield → ActivePiece → RotationDirection → Result RotationResult
try_rotate f p direction = do
  kicks ← get_kick_tests p.kind p.rotation direction
  try_kicks f p (target_rotation p.rotation direction) 0 kicks

-- `y * width + x`, the product and the sum each rounded to a double.
abbrev pub encode : ℕ → ℤ → ℤ → ℤ
encode width x y = to_double_ℤ (to_double_ℤ (sub_ℕ (pos_part y * width) (neg_part y * width)) +ℤ x)

abbrev pub is_valid_occupied : ℕ → ℕ → Cell → Bool
is_valid_occupied width height c =
    is_safe_integer c.x
    && is_safe_integer c.y
    && leb_ℤ (pos 0) c.x
    && ltb_ℤ c.x (pos width)
    && leb_ℤ (pos 0) c.y
    && ltb_ℤ c.y (pos height)

-- `encoded.has(y * width + x)`
unfoldable pub has_encoded : ℕ → List Cell → ℤ → ℤ → Bool
unfolding ◌+ℤ◌
has_encoded width occupied x y = any (λ c. eqb_ℤ (encode width c.x c.y) (encode width x y)) occupied

unfoldable pub create_playfield : List Cell → ℕ → ℕ → Result Playfield
create_playfield occupied width height = do
  guard (leb width max_safe_integer && ltb 0 width) range_error
  guard (leb height max_safe_integer && ltb 0 height) range_error
  guard (all (is_valid_occupied width height) occupied) range_error
  ok (record {
    width = width;
    height = height;
    is_occupied = λ x y. ok (has_encoded width occupied x y);
  })
