-- ===== src/Generation/Requests.antt =====
-- packages/game-core/src/playerPieceGeneration.ts: a request for a piece stays pending while holds
-- and rotations are buffered for it, until any other input or the end of the frame finishes it. Also
-- the inputs and spawn causes of playerSimulationTypes.ts.
use tetr_d.Base.{ℕ, Bool, true, false, Option, none, some, List, [], ◌∷◌}
use tetr_d.Base.Int.{ℤ}
use tetr_d.Base.Result.{Result, ok, err, plain_error, ◌>>=◌}
use tetr_d.Pieces.{PieceKind, RotationDirection}
use tetr_d.Board.{Board}
use tetr_d.Generation.{
  PieceGenerationBufferAction, buffer_hold, buffer_rotate, PieceGenerationOptions,
  PieceGenerationResult, Buffer, cleared, queue, generate,
}

pub data Side : Type 0 where
  left right : Side

pub data SimulationInputAction : Type 0 where
  move : Side → Bool → SimulationInputAction
  move_step move_to_wall : Side → SimulationInputAction
  soft_drop : Bool → SimulationInputAction
  soft_drop_step : ℤ → SimulationInputAction
  sonic_drop clear_held hard_drop : SimulationInputAction
  rotate : RotationDirection → SimulationInputAction
  hold : SimulationInputAction

pub data PlayerPieceSpawnCause : Type 0 where
  automatic_spawn hard_drop_spawn hold_spawn : PlayerPieceSpawnCause

pub record PendingGeneration : Type 0 where
  pub incoming_kind : PieceKind
  pub can_hold_without_buffer : Bool
  pub cause : Option PlayerPieceSpawnCause
  pub allow_clutch_lift : Bool
  pub allow_buffered_hold : Bool

pub data GenerationInputDisposition : Type 0 where
  apply_input buffered finish_first : GenerationInputDisposition

pub record FinishedPieceGeneration : Type 0 where
  pub generated : PieceGenerationResult
  pub cause : Option PlayerPieceSpawnCause

-- The private fields of `PlayerPieceGeneration`.
pub record PlayerPieceGeneration : Type 0 where
  pub buffer : Buffer
  pub pending : Option PendingGeneration

unfoldable pub request : PlayerPieceGeneration → PendingGeneration → Result PlayerPieceGeneration
request s p = elim s.pending [
  | none ↦ ok (record s { pending = some p })
  | some other ↦ err plain_error
]

-- The action that the buffer takes, for a hold or a rotation.
abbrev pub buffer_action : SimulationInputAction → Option PieceGenerationBufferAction
buffer_action hold = some buffer_hold
buffer_action (rotate direction) = some (buffer_rotate direction)
buffer_action other = none

abbrev queued :
    PlayerPieceGeneration
    → Option PieceGenerationBufferAction
    → GenerationInputDisposition × PlayerPieceGeneration
queued s none = (finish_first, s)
queued s (some action) = (buffered, record s { buffer = queue s.buffer action })

unfoldable pub consume :
    PlayerPieceGeneration
    → SimulationInputAction
    → GenerationInputDisposition × PlayerPieceGeneration
consume s action = elim s.pending [
  | none ↦ (apply_input, s)
  | some p ↦ queued s (buffer_action action)
]

abbrev pub clear_buffer : PlayerPieceGeneration → PlayerPieceGeneration
clear_buffer s = record s { buffer = cleared }

pub record FinishOptions : Type 0 where
  pub board : Board
  pub held_kind : Option PieceKind
  pub spawn_x : ℤ
  pub spawn_y : ℤ

abbrev pub generation_options : FinishOptions → PendingGeneration → PieceGenerationOptions
generation_options o p = record {
  board = o.board;
  incoming_kind = p.incoming_kind;
  held_kind = o.held_kind;
  spawn_x = o.spawn_x;
  spawn_y = o.spawn_y;
  allow_clutch_lift = p.allow_clutch_lift;
  allow_buffered_hold = p.allow_buffered_hold;
  can_hold_without_buffer = p.can_hold_without_buffer;
}

abbrev pub idle : PlayerPieceGeneration
idle = record { buffer = cleared; pending = none }

-- The state after it, the draws made, and the generation if one was pending.
unfoldable pub finish :
    (ℕ → PieceKind)
    → PlayerPieceGeneration
    → FinishOptions
    → ℕ
    → Result (PlayerPieceGeneration × ℕ × Option FinishedPieceGeneration)
finish kinds s o drawn = elim s.pending [
  | none ↦ ok (s, drawn, none)
  | some p ↦ generate kinds s.buffer (generation_options o p) drawn >>= λ made.
      ok (idle, made.1, some (record { generated = made.0; cause = p.cause }))
]

-- The inputs of a frame one after the other, as long as they are buffered.
unfoldable pub consume_all :
    PlayerPieceGeneration → List SimulationInputAction → PlayerPieceGeneration
unfolding consume
consume_all s [] = s
consume_all s (action ∷ actions) = consume_all (consume s action).1 actions

abbrev pub is_hold : PieceGenerationBufferAction → Bool
is_hold buffer_hold = true
is_hold (buffer_rotate direction) = false

-- The last rotation among the actions, else the one given.
abbrev pub last_rotation :
    Option RotationDirection → List PieceGenerationBufferAction → Option RotationDirection
last_rotation rotation [] = rotation
last_rotation rotation (buffer_hold ∷ actions) = last_rotation rotation actions
last_rotation rotation (buffer_rotate direction ∷ actions) = last_rotation (some direction) actions

abbrev pub as_input : PieceGenerationBufferAction → SimulationInputAction
as_input buffer_hold = hold
as_input (buffer_rotate direction) = rotate direction

abbrev pub inputs : List PieceGenerationBufferAction → List SimulationInputAction
inputs [] = []
inputs (action ∷ actions) = as_input action ∷ inputs actions

-- Pending, with these buffers.
abbrev waiting : PendingGeneration → Bool → Option RotationDirection → PlayerPieceGeneration
waiting p held rotation = record {
  buffer = record { hold = held; rotation = rotation };
  pending = some p;
}
