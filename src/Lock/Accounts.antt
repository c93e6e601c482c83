-- ===== src/Lock/Accounts.antt =====
-- The account of `resolvePlayerLock` of packages/game-core/src/playerLockResolution.ts: board,
-- combo, garbage and attack after a lock.
use tetr_d.Base.{ℕ}
use tetr_d.Base.Int.{pos, ◌+ℤ◌}
use tetr_d.Board.Sifting.{lock_result}
use tetr_d.Board.{LockPieceResult}
use tetr_d.Spin.{SpinClassification}
use tetr_d.Attack.{Reals, VersusAttackEvent}
use tetr_d.Lock.{PlayerLockResolutionOptions}
use tetr_d.Lock.Resolved.{IsReal}
use tetr_d.Lock.Account.{IsLockable}

module _ (reals : Reals) (rolls : ℕ → ℕ) (real : IsReal reals rolls)
    (o : PlayerLockResolutionOptions) (v : IsLockable o) where
  -- The lock itself.
  locked : LockPieceResult
  locked = lock_result o.board o.piece

  event_of : SpinClassification → VersusAttackEvent
  event_of spin = record {
    lines = locked.cleared_line_count;
    spin = spin;
    combo = o.combo +ℤ pos 1;
    all_clear = locked.perfect_clear;
    cleared_garbage = locked.cleared_garbage;
  }
