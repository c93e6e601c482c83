-- ===== src/Lock/Account.antt =====
-- What `resolvePlayerLock` of packages/game-core/src/playerLockResolution.ts is given and what it leaves.
use tetr_d.Base.{
  ℕ, ◌*◌, ◌+◌, ◌≤◌, ◌<◌, ◌≡◌, ◌⊎◌, true, false, List, [], ◌∷◌, length, take, sum, ltb, le→leb, ◌&&◌,
  if◌then◌else◌, arith, All,
}
use tetr_d.Base.Int.{ℤ, pos, pos_part, ◌+ℤ◌, ◌≤ℤ◌, to_ℕ}
use tetr_d.Base.Result.{ok}
use tetr_d.Board.Valid.{IsBoard}
use tetr_d.Board.Occupancy.{full_count}
use tetr_d.Board.{fits, max_safe_integer}
use tetr_d.Garbage.{Multiplier, once, twice}
use tetr_d.Garbage.Packets.{AllPackets, total}
use tetr_d.Garbage.Ready.{ready_rows}
use tetr_d.Spin.Classes.{IsPlaced}
use tetr_d.Attack.{OpenerCancellationContext, opener_cancellation_multiplier}
use tetr_d.Lock.{PlayerLockResolutionOptions, PlayerLockResolution, no_combo}
use tetr_d.Lock.Sending.{AllPositive}

-- Far from the ends of the safe integers.
abbrev pub bound : ℕ
bound = 281474976710656

-- A player about to lock a piece.
pub record IsLockable (o : PlayerLockResolutionOptions) : Type 0 where
  pub board : IsBoard o.board
  pub no_full : full_count o.board.rows ≡ 0
  pub fit : fits o.board.rows o.piece ≡ true
  pub placed : IsPlaced o.piece
  pub combo : no_combo ≤ℤ o.combo
  pub combo_bound : pos_part o.combo < bound
  pub streak : o.back_to_back.difficult_clear_streak < bound
  pub pieces : o.pieces_placed_before_lock < bound
  pub sent : o.total_attack_sent ≤ max_safe_integer
  pub packets : AllPackets o.pending_garbage
  pub pending : total o.pending_garbage ≤ max_safe_integer
  pub frame : o.server_frame ≤ max_safe_integer
  pub cap_some : 1 ≤ o.garbage_cap
  pub cap_height : o.garbage_cap ≤ 40

-- What a lock leaves behind.
pub record IsLockResolved (o : PlayerLockResolutionOptions) (r : PlayerLockResolution)
    : Type 0 where
  pub board : IsBoard r.board
  pub no_full : full_count r.board.rows ≡ 0
  pub packets : AllPackets r.pending_garbage
  pub lines : r.summary.lines ≤ 4
  pub rows :
      total r.pending_garbage + r.summary.cancelled_garbage + length r.summary.applied_garbage_holes
      ≡ total o.pending_garbage
  pub sent : r.total_attack_sent ≡ o.total_attack_sent + sum r.summary.outgoing_attacks
  pub positive : AllPositive r.summary.outgoing_attacks
  pub combo :
      ((r.summary.lines ≡ 0) × (r.combo ≡ no_combo))
      ⊎ ((1 ≤ r.summary.lines) × (r.combo ≡ o.combo +ℤ pos 1))
  pub applied :
      ((r.summary.lines ≡ 0)
        × (r.summary.cancelled_garbage ≡ 0)
        × (r.summary.outgoing_attacks ≡ [])
        × (r.summary.applied_garbage_holes
            ≡ take o.garbage_cap (ready_rows o.server_frame o.pending_garbage)))
      ⊎ ((1 ≤ r.summary.lines) × (r.summary.applied_garbage_holes ≡ []) × (r.topped_out ≡ false))
  pub defended : (sum r.summary.outgoing_attacks ≡ 0) ⊎ (total r.pending_garbage ≡ 0)
  pub streak : r.back_to_back.difficult_clear_streak ≤ o.back_to_back.difficult_clear_streak + 1

pub multiplier_ok :
    (c : OpenerCancellationContext)
    → c.pieces_placed_before_lock ≤ max_safe_integer
    → c.pending_garbage ≤ max_safe_integer
    → c.total_attack_sent ≤ max_safe_integer
    → (m : Multiplier) × (opener_cancellation_multiplier c ≡ ok m)
unfolding opener_cancellation_multiplier
multiplier_ok c h1 h2 h3 = (
  (if ltb c.pieces_placed_before_lock 14 && ltb c.total_attack_sent c.pending_garbage
      then twice
      else once),
  rw (le→leb _ _ h1, le→leb _ _ h2, le→leb _ _ h3),
)

pub parts_le_sum : (n : ℕ) (xs : List ℕ) → sum xs * 2 ≤ n → All (λ a. a * 2 ≤ n) xs
parts_le_sum n [] h = tt
parts_le_sum n (x ∷ xs) h = (omega arith, parts_le_sum n xs (omega arith))

pub combo_next :
    (c : ℤ)
    → no_combo ≤ℤ c
    → pos_part c < bound
    → (pos 0 ≤ℤ c +ℤ pos 1) × (to_ℕ (c +ℤ pos 1) ≤ pos_part c + 1)
unfolding ◌+ℤ◌
combo_next c h lt = (ground arith, ground arith)
