-- ===== src/Generation.antt =====
-- packages/game-core/src/pieceSpawn.ts, pieceGenerationController.ts and playerPieceGeneration.ts:
-- where a piece appears, with the hold and the rotation that were buffered for it. The piece source
-- is a stream: `kinds k` is what its draw number `k` gives, and the draws made are threaded through.
-- A loop over rows runs once for each row of its range, so that a row is the spawn row raised by
-- the rounds made.
pub mod Spawning
pub mod Placing
pub mod Generating
pub mod Agreement
pub mod Requests
mod Tests
use tetr_d.Base.{
  ℕ, zero, suc, ◌+◌, Bool, true, false, not, ◌&&◌, Option, none, some, length, if◌then◌else◌,
}
use tetr_d.Base.Int.{ℤ, pos, ◌+ℤ◌, ◌-ℤ◌, to_ℕ}
use tetr_d.Base.Result.{Result, ok, err, plain_error, ◌>>=◌}
use tetr_d.Pieces.{PieceKind, RotationDirection, rotation0, ActivePiece}
use tetr_d.Board.{Board, board_height, is_piece_placement_valid}
use tetr_d.Rotation.{RotationResult, rotated, not_rotated, board_as_playfield, try_rotate}

pub record PieceSpawnOptions : Type 0 where
  pub board : Board
  pub kind : PieceKind
  pub spawn_x : ℤ
  pub spawn_y : ℤ
  pub allow_clutch_lift : Bool

pub record PieceSpawnPlacement : Type 0 where
  pub piece : ActivePiece
  pub lifted_rows : ℕ

-- `{ kind, rotation: 0, x, y }`
abbrev pub upright : PieceKind → ℤ → ℤ → ActivePiece
upright kind x y = record { kind = kind; rotation = rotation0; x = x; y = y }

-- The loop of `findPieceSpawnPlacement`, `n` rows above the spawn row and with `left` rows to go.
unfoldable pub lift_from : PieceSpawnOptions → ℕ → ℕ → Result (Option PieceSpawnPlacement)
lift_from o n zero = ok none
lift_from o n (suc left) =
    let rest = lift_from o (n + 1) left in
    let piece = upright o.kind o.spawn_x (o.spawn_y +ℤ pos n) in
    is_piece_placement_valid o.board piece
    >>= (λ valid. if valid then ok (some (record { piece = piece; lifted_rows = n })) else rest)

-- The rows above `y` in the matrix.
abbrev pub rows_above : ℤ → ℕ
rows_above y = to_ℕ (pos board_height -ℤ (y +ℤ pos 1))

unfoldable pub find_piece_spawn_placement : PieceSpawnOptions → Result (Option PieceSpawnPlacement)
unfolding lift_from ◌+ℤ◌ ◌-ℤ◌
find_piece_spawn_placement o =
    let normal = upright o.kind o.spawn_x o.spawn_y in
    let lifted = lift_from o 1 (rows_above o.spawn_y) in
    is_piece_placement_valid o.board normal >>= (λ valid.
      if valid
      then ok (some (record { piece = normal; lifted_rows = 0 }))
      else if not o.allow_clutch_lift
      then ok none
      else lifted)

pub data PieceGenerationBufferAction : Type 0 where
  buffer_hold : PieceGenerationBufferAction
  buffer_rotate : RotationDirection → PieceGenerationBufferAction

pub record PieceGenerationOptions : Type 0 where
  pub board : Board
  pub incoming_kind : PieceKind
  pub held_kind : Option PieceKind
  pub spawn_x : ℤ
  pub spawn_y : ℤ
  pub allow_clutch_lift : Bool
  pub allow_buffered_hold : Bool
  pub can_hold_without_buffer : Bool

pub record PieceGenerationResult : Type 0 where
  pub active : Option ActivePiece
  pub hold : Option PieceKind
  pub can_hold : Bool
  pub lifted_rows : ℕ
  pub used_ihs : Bool
  pub attempted_irs : Option RotationDirection
  pub used_irs : Bool
  pub irs_kick_index : Option ℕ

pub record GeneratedPlacement : Type 0 where
  pub active : Option ActivePiece
  pub lifted_rows : ℕ
  pub used_irs : Bool
  pub irs_kick_index : Option ℕ

-- The placement of `placementAt` with the rows by which its caller has lifted it.
abbrev pub placed : Option ActivePiece → ℕ → GeneratedPlacement
placed active n = record {
  active = active;
  lifted_rows = n;
  used_irs = false;
  irs_kick_index = none;
}

unfoldable pub plain_placement : Board → ActivePiece → ℕ → Result GeneratedPlacement
plain_placement b base n =
    is_piece_placement_valid b base >>= (λ valid. ok (placed (if valid then some base else none) n))

abbrev pub rotated_or : RotationResult → ℕ → Result GeneratedPlacement → Result GeneratedPlacement
rotated_or (rotated piece kick kick_index) n plain = ok (record {
  active = some piece;
  lifted_rows = n;
  used_irs = true;
  irs_kick_index = some kick_index;
})
rotated_or (not_rotated piece) n plain = plain

unfoldable pub placement_at :
    Board → ActivePiece → Option RotationDirection → ℕ → Result GeneratedPlacement
unfolding plain_placement
placement_at b base none n = plain_placement b base n
placement_at b base (some direction) n = do
  playfield ← board_as_playfield b
  turned ← try_rotate playfield base direction
  rotated_or turned n (plain_placement b base n)

abbrev pub placed_or : GeneratedPlacement → Result GeneratedPlacement → Result GeneratedPlacement
placed_or placement rest = elim placement.active [ none ↦ rest | some piece ↦ ok placement ]

-- The loop of `generatedPlacement`.
unfoldable pub generate_from :
    PieceGenerationOptions
    → PieceKind
    → Option RotationDirection
    → ℕ
    → ℕ
    → Result GeneratedPlacement
generate_from o kind rotation n zero = ok (placed none 0)
generate_from o kind rotation n (suc left) =
    let rest = generate_from o kind rotation (n + 1) left in
    placement_at o.board (upright kind o.spawn_x (o.spawn_y +ℤ pos n)) rotation n
    >>= (λ placement. placed_or placement rest)

-- The number of rows from `spawnY` to `highestY`.
unfoldable pub rows_tried : PieceGenerationOptions → ℕ
unfolding ◌-ℤ◌
rows_tried o = if o.allow_clutch_lift then to_ℕ (pos (length o.board.rows) -ℤ o.spawn_y) else 1

unfoldable pub generated_placement :
    PieceGenerationOptions → PieceKind → Option RotationDirection → Result GeneratedPlacement
unfolding generate_from rows_tried
generated_placement o kind rotation = generate_from o kind rotation 0 (rows_tried o)

-- The private fields of `PieceGenerationController`.
pub record Buffer : Type 0 where
  pub hold : Bool
  pub rotation : Option RotationDirection

abbrev pub cleared : Buffer
cleared = record { hold = false; rotation = none }

abbrev pub queue : Buffer → PieceGenerationBufferAction → Buffer
queue buffer buffer_hold = record buffer { hold = true }
queue buffer (buffer_rotate direction) = record buffer { rotation = some direction }

-- `options.heldKind ?? options.drawNext()`, with the draws made after it.
abbrev pub held_or_drawn : (ℕ → PieceKind) → Option PieceKind → ℕ → PieceKind × ℕ
held_or_drawn kinds (some kind) drawn = (kind, drawn)
held_or_drawn kinds none drawn = (kinds drawn, drawn + 1)

-- `generate`, which leaves the buffer cleared: its result and the draws made.
unfoldable pub generate :
    (ℕ → PieceKind) → Buffer → PieceGenerationOptions → ℕ → Result (PieceGenerationResult × ℕ)
generate kinds buffer o drawn = do
  let used_ihs = buffer.hold && o.allow_buffered_hold
  let (kind, drawn') =
      if used_ihs then held_or_drawn kinds o.held_kind drawn else (o.incoming_kind, drawn)
  placement ← generated_placement o kind buffer.rotation
  ok (
    record {
      active = placement.active;
      hold = if used_ihs then some o.incoming_kind else o.held_kind;
      can_hold = if used_ihs then false else o.can_hold_without_buffer;
      lifted_rows = placement.lifted_rows;
      used_ihs = used_ihs;
      attempted_irs = buffer.rotation;
      used_irs = placement.used_irs;
      irs_kick_index = placement.irs_kick_index;
    },
    drawn',
  )
