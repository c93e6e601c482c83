-- ===== src/Garbage/Tests.antt =====
-- Tests of packages/game-core/src/garbageQueue.ts, and its theorems at a concrete queue.
use tetr_d.Base.{ℕ, ◌≤◌, ◌<◌, ◌≡◌, refl, List, [], ◌∷◌, arith}
use tetr_d.Base.Doubles.{to_double}
use tetr_d.Base.Result.{ok}
use tetr_d.Base.Loops.{while}
use tetr_d.Board.{max_safe_integer}
use tetr_d.Board.Samples.{bare, bare-IsBoard, holed}
use tetr_d.Garbage.{
  SimulationGarbagePacket, GarbageCancellationResult, AppliedGarbage, twice,
  cancel_garbage_with_attack, apply_ready_garbage, validated, cancel_loop, cancels, cancel_step,
}
use tetr_d.Garbage.Packets.{IsPacket, AllPackets}
use tetr_d.Garbage.Cancelling.{IsCancelled, cancel_garbage_with_attack-IsCancelled}
use tetr_d.Garbage.Applying.{IsApplied}
use tetr_d.Garbage.Applying.{apply_ready_garbage-IsApplied}

abbrev packet : ℕ → ℕ → ℕ → SimulationGarbagePacket
packet amount frame hole = record {
  packet_id = 112 ∷ [];
  source_player_id = 113 ∷ [];
  amount = amount;
  applies_at_frame = frame;
  hole = hole;
}

packet-IsPacket :
    (amount frame hole : ℕ)
    → 0 < amount
    → amount ≤ max_safe_integer
    → frame ≤ max_safe_integer
    → hole < 10
    → IsPacket (packet amount frame hole)
packet-IsPacket amount frame hole some_rows safe timed holed = record {
  named = omega arith;
  sourced = omega arith;
  safe = safe;
  some_rows = some_rows;
  timed = timed;
  holed = holed;
}

abbrev waiting : List SimulationGarbagePacket
waiting = packet 2 10 3 ∷ packet 4 30 7 ∷ []

waiting-AllPackets : AllPackets waiting
waiting-AllPackets = (
  packet-IsPacket 2 10 3 (omega arith) (omega arith) (omega arith) (omega arith),
  (packet-IsPacket 4 30 7 (omega arith) (omega arith) (omega arith) (omega arith), tt),
)

-- Two rows of attack, doubled, take the first packet and two rows of the second.
doubled :
    cancel_garbage_with_attack waiting 2 twice
    ≡ ok (record { packets = packet 2 30 7 ∷ []; cancelled = 4; attack_spent = 2; outgoing = 0 })
unfolding cancel_garbage_with_attack validated cancel_loop cancels cancel_step while to_double
doubled = refl

cancel_garbage_with_attack-IsCancelled_example :
    (r : GarbageCancellationResult) × (cancel_garbage_with_attack waiting 5 twice ≡ ok r)
    × IsCancelled waiting 5 twice r
cancel_garbage_with_attack-IsCancelled_example =
    cancel_garbage_with_attack-IsCancelled waiting 5 twice waiting-AllPackets (omega arith)

apply_ready_garbage-IsApplied_example :
    (r : AppliedGarbage) × (apply_ready_garbage bare waiting 20 8 ≡ ok r)
    × IsApplied bare waiting 20 8 r
apply_ready_garbage-IsApplied_example =
    apply_ready_garbage-IsApplied bare waiting 20 8 bare-IsBoard waiting-AllPackets (omega arith)
      (omega arith) (omega arith)
