-- ===== src/Generation/Tests.antt =====
-- The theorems on packages/game-core/src/pieceSpawn.ts, pieceGenerationController.ts and
-- playerPieceGeneration.ts at a board whose spawn row is taken.
use tetr_d.Base.{ℕ, ◌≡◌, refl, true, Option, none, some, List, [], ◌∷◌, arith}
use tetr_d.Base.Int.{pos}
use tetr_d.Base.Result.{ok, ◌>>=◌}
use tetr_d.Pieces.{PieceKind, i_piece, t_piece, s_piece, cw, ccw}
use tetr_d.Board.Samples.{slot, slot-IsBoard}
use tetr_d.Generation.{
  PieceSpawnOptions, PieceSpawnPlacement, find_piece_spawn_placement, PieceGenerationBufferAction,
  buffer_hold, buffer_rotate, PieceGenerationOptions, Buffer, generated_placement,
}
use tetr_d.Generation.Spawning.{IsSpawn, IsLowest, spawn_rows, find_piece_spawn_placement-IsLowest}
use tetr_d.Generation.Agreement.{
  spawn_options, as_generated, generated_placement-find_piece_spawn_placement,
}
use tetr_d.Generation.Requests.{PendingGeneration, FinishOptions, hard_drop_spawn}

abbrev kinds : ℕ → PieceKind
kinds n = t_piece

abbrev spawn : PieceSpawnOptions
spawn = record {
  board = slot;
  kind = s_piece;
  spawn_x = pos 3;
  spawn_y = pos 0;
  allow_clutch_lift = true;
}

abbrev options : PieceGenerationOptions
options = record {
  board = slot;
  incoming_kind = s_piece;
  held_kind = none;
  spawn_x = pos 3;
  spawn_y = pos 0;
  allow_clutch_lift = true;
  allow_buffered_hold = true;
  can_hold_without_buffer = true;
}

abbrev buffer : Buffer
buffer = record { hold = true; rotation = some cw }

abbrev pending : PendingGeneration
pending = record {
  incoming_kind = i_piece;
  can_hold_without_buffer = true;
  cause = some hard_drop_spawn;
  allow_clutch_lift = true;
  allow_buffered_hold = true;
}

abbrev finishing : FinishOptions
finishing = record { board = slot; held_kind = some t_piece; spawn_x = pos 3; spawn_y = pos 0 }

abbrev actions : List PieceGenerationBufferAction
actions = buffer_rotate cw ∷ buffer_hold ∷ buffer_rotate ccw ∷ []

origin-IsSpawn : IsSpawn (pos 3) (pos 0)
origin-IsSpawn = record { column = omega arith; row = omega arith }

find_piece_spawn_placement-IsLowest_example :
    (r : Option PieceSpawnPlacement) × (find_piece_spawn_placement spawn ≡ ok r)
    × IsLowest spawn 0 (spawn_rows spawn) r
find_piece_spawn_placement-IsLowest_example =
    find_piece_spawn_placement-IsLowest spawn slot-IsBoard origin-IsSpawn

generated_placement-find_piece_spawn_placement_example :
    generated_placement options s_piece none
    ≡ (find_piece_spawn_placement (spawn_options options s_piece) >>= λ r. ok (as_generated r))
generated_placement-find_piece_spawn_placement_example =
    generated_placement-find_piece_spawn_placement options s_piece 0 refl refl (omega arith)
