-- ===== src/Garbage.antt =====
-- packages/game-core/src/garbageQueue.ts: the queue of garbage packets on their way to a player.
-- A text is the list of its code units; only whether it is empty matters here. The two `while`
-- loops run on fuel, which Garbage/Cancelling and Garbage/Applying show to be enough.
pub mod Packets
pub mod Cancelling
pub mod Ready
pub mod Applying
mod Tests
use tetr_d.Base.{
  ℕ, zero, suc, ◌+◌, ◌-◌, ◌*◌, ◌/◌, ◌≡◌, Bool, true, false, not, ◌&&◌, List, [], ◌∷◌, ◌++◌, length,
  replicate, ltb, leb, ◌==◌, if◌then◌else◌, min,
}
use tetr_d.Base.Doubles.{to_double}
use tetr_d.Base.Loops.{while}
use tetr_d.Base.Result.{Result, ok, err, range_error, guard, ◌>>=◌, ◌>>◌}
use tetr_d.Board.{Board, insert_garbage, max_safe_integer}

pub record SimulationGarbagePacket : Type 0 where
  pub packet_id : List ℕ
  pub source_player_id : List ℕ
  pub amount : ℕ
  pub applies_at_frame : ℕ
  pub hole : ℕ

pub record GarbageCancellationResult : Type 0 where
  pub packets : List SimulationGarbagePacket
  pub cancelled : ℕ
  pub attack_spent : ℕ
  pub outgoing : ℕ

pub record AppliedGarbage : Type 0 where
  pub board : Board
  pub packets : List SimulationGarbagePacket
  pub applied_holes : List ℕ
  pub overflowed : Bool

-- The condition under which `validatePacket` does not throw.
abbrev pub is_valid_packet : SimulationGarbagePacket → Bool
is_valid_packet p =
    ltb 0 (length p.packet_id)
    && ltb 0 (length p.source_player_id)
    && leb p.amount max_safe_integer
    && leb 1 p.amount
    && leb p.applies_at_frame max_safe_integer
    && ltb p.hole 10

abbrev pub validate_packet : SimulationGarbagePacket → Result (Unit {0})
validate_packet p = guard (is_valid_packet p) range_error

-- The `reduce` of `pendingGarbageAmount`, from a total so far.
unfoldable pub pending_from : ℕ → List SimulationGarbagePacket → Result ℕ
pending_from total [] = ok total
pending_from total (p ∷ ps) = validate_packet p >> pending_from (total + p.amount) ps

unfoldable pub pending_garbage_amount : List SimulationGarbagePacket → Result ℕ
unfolding pending_from
pending_garbage_amount packets = pending_from 0 packets

-- `packets.map((packet) => { validatePacket(packet); return { ...packet }; })`
unfoldable pub validated : List SimulationGarbagePacket → Result (List SimulationGarbagePacket)
validated [] = ok []
validated (p ∷ ps) = do validate_packet p; rest ← validated ps; ok (p ∷ rest)

-- The type `1 | 2` of `cancellationMultiplier`.
pub data Multiplier : Type 0 where
  once twice : Multiplier

abbrev pub multiplier_value : Multiplier → ℕ
multiplier_value once = 1
multiplier_value twice = 2

pub record CancelState : Type 0 where
  pub next : List SimulationGarbagePacket
  pub capacity : ℕ
  pub cancelled : ℕ

unfoldable pub cancels : CancelState → Bool
cancels s = ltb 0 (length s.next) && ltb 0 s.capacity

-- `next[0] = { ...first, amount: first.amount - amount }`, or `next.shift()`
abbrev pub take_from :
    SimulationGarbagePacket → List SimulationGarbagePacket → ℕ → List SimulationGarbagePacket
take_from first rest amount =
    if amount == first.amount then rest else record first { amount = first.amount - amount } ∷ rest

cancel_first : CancelState → List SimulationGarbagePacket → CancelState
cancel_first s [] = s
cancel_first s (first ∷ rest) =
    let amount = min first.amount s.capacity in
    record {
      next = take_from first rest amount;
      capacity = to_double (s.capacity - amount);
      cancelled = to_double (s.cancelled + amount);
    }

unfoldable pub cancel_step : CancelState → CancelState
unfolding cancel_first
cancel_step s = cancel_first s s.next

-- `Math.ceil(n / m)`
abbrev pub ceil_div : ℕ → Multiplier → ℕ
ceil_div n once = n
ceil_div n twice = (n + 1) / 2

unfoldable pub cancel_loop : List SimulationGarbagePacket → ℕ → CancelState
cancel_loop next capacity =
    while (suc (length next + capacity)) cancels cancel_step
      (record { next = next; capacity = capacity; cancelled = 0 })

unfoldable pub cancel_garbage_with_attack :
    List SimulationGarbagePacket → ℕ → Multiplier → Result GarbageCancellationResult
cancel_garbage_with_attack packets attack multiplier = do
  guard (leb attack max_safe_integer) range_error
  next ← validated packets
  let s = cancel_loop next (to_double (attack * multiplier_value multiplier))
  let attack_spent = min attack (ceil_div s.cancelled multiplier)
  ok (record {
    packets = s.next;
    cancelled = s.cancelled;
    attack_spent = attack_spent;
    outgoing = attack - attack_spent;
  })

pub record ApplyState : Type 0 where
  pub next : List SimulationGarbagePacket
  pub holes : List ℕ

-- `first.appliesAtFrame <= serverFrame`, the case in which the loop does not break.
abbrev pub is_ready : ℕ → List SimulationGarbagePacket → Bool
is_ready server_frame [] = false
is_ready server_frame (first ∷ rest) = leb first.applies_at_frame server_frame

unfoldable pub applies : ℕ → ℕ → ApplyState → Bool
applies server_frame cap s = ltb (length s.holes) cap && is_ready server_frame s.next

apply_first : ℕ → ApplyState → List SimulationGarbagePacket → ApplyState
apply_first cap s [] = s
apply_first cap s (first ∷ rest) =
    let amount = min first.amount (cap - length s.holes) in
    record { next = take_from first rest amount; holes = s.holes ++ replicate amount first.hole }

unfoldable pub apply_step : ℕ → ApplyState → ApplyState
unfolding apply_first
apply_step cap s = apply_first cap s s.next

unfoldable pub apply_loop : ℕ → ℕ → List SimulationGarbagePacket → ApplyState
apply_loop server_frame cap next =
    while (suc (length next + cap)) (applies server_frame cap) (apply_step cap)
      (record { next = next; holes = [] })

unfoldable pub apply_ready_garbage :
    Board → List SimulationGarbagePacket → ℕ → ℕ → Result AppliedGarbage
apply_ready_garbage b packets server_frame cap = do
  guard (leb server_frame max_safe_integer && leb cap max_safe_integer && leb 1 cap) range_error
  next ← validated packets
  let s = apply_loop server_frame cap next
  inserted ← insert_garbage b s.holes
  ok (record {
    board = inserted.board;
    packets = s.next;
    applied_holes = s.holes;
    overflowed = inserted.overflowed;
  })
