-- ===== src/Lock.antt =====
-- packages/game-core/src/playerLockResolution.ts: one lock, from its spin to the garbage it moves.
-- The rounding source is a stream: `rolls k` is what its call number `k` returns, and the calls
-- made so far are threaded through.
pub mod Sending
pub mod Resolved
pub mod Account
pub mod Accounts
mod Tests
use tetr_d.Base.{
  ℕ, ◌+◌, ◌≡◌, Bool, true, false, Option, some, none, List, [], ◌∷◌, ◌++◌, sum, ltb, ◌==◌,
  if◌then◌else◌,
}
use tetr_d.Base.Int.{ℤ, pos, negsuc, ◌+ℤ◌}
use tetr_d.Base.Result.{Result, ok, err, range_error, guard, ◌>>=◌, ◌>>◌}
use tetr_d.Pieces.{PieceKind, ActivePiece}
use tetr_d.Board.{Board, LockPieceResult, lock_piece}
use tetr_d.Garbage.{
  SimulationGarbagePacket, GarbageCancellationResult, AppliedGarbage, Multiplier,
  pending_garbage_amount, cancel_garbage_with_attack, apply_ready_garbage,
}
use tetr_d.Spin.{SpinClassification, LastSuccessfulRotation, classify_all_mini_plus_spin}
use tetr_d.Attack.{
  Reals, one, AttackRoundingMode, down, VersusAttackRoundingOptions, VersusAttackEvent,
  BackToBackChargeState, VersusAttackResolution, resolve_versus_attack, back_to_back_charge_status,
  opener_cancellation_multiplier,
}

pub record PlayerLockSummary : Type 0 where
  pub piece : PieceKind
  pub lines : ℕ
  pub spin : SpinClassification
  pub combo : ℤ
  pub back_to_back : ℕ
  pub perfect_clear : Bool
  pub cleared_garbage_lines : ℕ
  pub cancelled_garbage : ℕ
  pub outgoing_attacks : List ℕ
  pub applied_garbage_holes : List ℕ

pub record PlayerLockResolutionOptions : Type 0 where
  pub board : Board
  pub piece : ActivePiece
  pub last_rotation : Option LastSuccessfulRotation
  pub combo : ℤ
  pub back_to_back : BackToBackChargeState
  pub pieces_placed_before_lock : ℕ
  pub total_attack_sent : ℕ
  pub pending_garbage : List SimulationGarbagePacket
  pub server_frame : ℕ
  pub garbage_cap : ℕ
  pub rolls_read : ℕ

pub record PlayerLockResolution : Type 0 where
  pub board : Board
  pub combo : ℤ
  pub back_to_back : BackToBackChargeState
  pub total_attack_sent : ℕ
  pub pending_garbage : List SimulationGarbagePacket
  pub topped_out : Bool
  pub summary : PlayerLockSummary
  pub rolls_read : ℕ

pub record SendState : Type 0 where
  pub pending : List SimulationGarbagePacket
  pub cancelled : ℕ
  pub outgoing : List ℕ

-- One round of the loop over the attacks of a clear.
unfoldable pub send_attack : Multiplier → SendState → ℕ → Result SendState
send_attack multiplier s attack =
    if attack == 0
    then ok s
    else (cancel_garbage_with_attack s.pending attack multiplier >>= λ c. ok (record {
      pending = c.packets;
      cancelled = s.cancelled + c.cancelled;
      outgoing = if ltb 0 c.outgoing then s.outgoing ++ c.outgoing ∷ [] else s.outgoing;
    }))

unfoldable pub send_attacks : Multiplier → SendState → List ℕ → Result SendState
send_attacks multiplier s [] = ok s
send_attacks multiplier s (attack ∷ attacks) =
    send_attack multiplier s attack >>= λ next. send_attacks multiplier next attacks

abbrev pub rounding_down : VersusAttackRoundingOptions
rounding_down = record { rounding_mode = some down; rounding_roll = none }

abbrev pub no_options : VersusAttackRoundingOptions
no_options = record { rounding_mode = none; rounding_roll = none }

abbrev pub with_roll : ℕ → VersusAttackRoundingOptions
with_roll roll = record { rounding_mode = none; rounding_roll = some roll }

-- `combo = -1`
abbrev pub no_combo : ℤ
no_combo = negsuc 0

module _ (reals : Reals) (rolls : ℕ → ℕ) where
  unfoldable pub read_rounding_roll : ℕ → Result ℕ
  read_rounding_roll read = guard (ltb (rolls read) (one reals)) range_error >> ok (rolls read)

  -- The resolution and the number of rolls read after it.
  unfoldable pub resolve_attack :
      VersusAttackEvent → BackToBackChargeState → ℕ → Result (VersusAttackResolution × ℕ)
  unfolding read_rounding_roll
  resolve_attack event back_to_back read = do
    probe ← resolve_versus_attack reals event back_to_back rounding_down
    if probe.rounding_fraction == 0
        then (resolve_versus_attack reals event back_to_back no_options >>= λ r. ok (r, read))
        else (read_rounding_roll read >>= λ roll.
            resolve_versus_attack reals event back_to_back (with_roll roll) >>= λ r.
            ok (r, read + 1))

  -- The branch of a lock that clears lines.
  unfoldable pub resolve_clear :
      PlayerLockResolutionOptions
      → SpinClassification
      → LockPieceResult
      → Result PlayerLockResolution
  resolve_clear o spin locked = do
    let combo = o.combo +ℤ pos 1
    let event : VersusAttackEvent = record {
      lines = locked.cleared_line_count;
      spin = spin;
      combo = combo;
      all_clear = locked.perfect_clear;
      cleared_garbage = locked.cleared_garbage;
    }
    (resolution, read) ← resolve_attack event o.back_to_back o.rolls_read
    pending ← pending_garbage_amount o.pending_garbage
    multiplier ← opener_cancellation_multiplier (record {
      pieces_placed_before_lock = o.pieces_placed_before_lock;
      pending_garbage = pending;
      total_attack_sent = o.total_attack_sent;
    })
    sent ←
        send_attacks multiplier
          (record { pending = o.pending_garbage; cancelled = 0; outgoing = [] })
          (resolution.clear_attack ∷ resolution.surge_packets)
    status ← back_to_back_charge_status resolution.next_back_to_back
    ok (record {
      board = locked.board;
      combo = combo;
      back_to_back = resolution.next_back_to_back;
      total_attack_sent = o.total_attack_sent + sum sent.outgoing;
      pending_garbage = sent.pending;
      topped_out = false;
      summary = record {
        piece = o.piece.kind;
        lines = locked.cleared_line_count;
        spin = spin;
        combo = combo;
        back_to_back = status.displayed_count;
        perfect_clear = locked.perfect_clear;
        cleared_garbage_lines = locked.cleared_garbage_line_count;
        cancelled_garbage = sent.cancelled;
        outgoing_attacks = sent.outgoing;
        applied_garbage_holes = [];
      };
      rolls_read = read;
    })

  -- The branch of a lock that clears nothing and lets garbage in.
  unfoldable pub resolve_no_clear :
      PlayerLockResolutionOptions
      → SpinClassification
      → LockPieceResult
      → Result PlayerLockResolution
  resolve_no_clear o spin locked = do
    applied ← apply_ready_garbage locked.board o.pending_garbage o.server_frame o.garbage_cap
    status ← back_to_back_charge_status o.back_to_back
    ok (record {
      board = applied.board;
      combo = no_combo;
      back_to_back = o.back_to_back;
      total_attack_sent = o.total_attack_sent;
      pending_garbage = applied.packets;
      topped_out = applied.overflowed;
      summary = record {
        piece = o.piece.kind;
        lines = locked.cleared_line_count;
        spin = spin;
        combo = no_combo;
        back_to_back = status.displayed_count;
        perfect_clear = locked.perfect_clear;
        cleared_garbage_lines = locked.cleared_garbage_line_count;
        cancelled_garbage = 0;
        outgoing_attacks = [];
        applied_garbage_holes = applied.applied_holes;
      };
      rolls_read = o.rolls_read;
    })

  unfoldable pub resolve_player_lock : PlayerLockResolutionOptions → Result PlayerLockResolution
  resolve_player_lock o = do
    spin ← classify_all_mini_plus_spin o.board o.piece o.last_rotation
    locked ← lock_piece o.board o.piece
    if ltb 0 locked.cleared_line_count
        then resolve_clear o spin locked
        else resolve_no_clear o spin locked
