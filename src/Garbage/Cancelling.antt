-- ===== src/Garbage/Cancelling.antt =====
-- Cancellation in packages/game-core/src/garbageQueue.ts: what an attack takes from the queue.
use tetr_d.Base.{
  ℕ, suc, ◌+◌, ◌-◌, ◌*◌, ◌≤◌, ◌<◌, ◌≡◌, ◌⊎◌, inl, inr, refl, sym, ◌∙◌, ap, true, false, List, [],
  ◌∷◌, length, leb, min, arith, Bool-cases, le→leb, leb→le, not_leb→lt,
}
use tetr_d.Base.Doubles.{to_double_lem}
use tetr_d.Base.Loops.{while_inv}
use tetr_d.Base.Result.{ok}
use tetr_d.Board.{max_safe_integer}
use tetr_d.Garbage.{
  SimulationGarbagePacket, GarbageCancellationResult, Multiplier, once, twice, multiplier_value,
  CancelState, cancels, cancel_step, cancel_loop, ceil_div, cancel_garbage_with_attack,
}
use tetr_d.Garbage.Packets.{
  AllPackets, total, validated-ok, consume, consume_spent, take_from_whole, take_from_part,
  consume_whole, consume_part, left_whole, left_part, reduced-IsPacket, total_zero, consume-nil,
}

record Cancels (ps : List SimulationGarbagePacket) (n : ℕ) (s : CancelState) : Type 0 where
  valid : AllPackets s.next
  rows : total s.next + s.cancelled ≡ total ps
  spent : s.capacity + s.cancelled ≡ n
  left : consume s.capacity s.next ≡ consume n ps

measure : CancelState → ℕ
measure s = length s.next + s.capacity

module _ (ps : List SimulationGarbagePacket) (n : ℕ) (small : n ≤ max_safe_integer) where
  keeps_at :
      (next : List SimulationGarbagePacket) (capacity cancelled : ℕ)
      → let s : CancelState = record { next = next; capacity = capacity; cancelled = cancelled } in
        Cancels ps n s
        → cancels s ≡ true
        → Cancels ps n (cancel_step s) × (measure (cancel_step s) < measure s)
  unfolding cancels cancel_step measure total
  keeps_at [] capacity cancelled v test = cc
  keeps_at (p ∷ rest) capacity cancelled v test =
      let positive : 0 < capacity = ground arith in
      elim (Bool-cases (leb p.amount capacity)) [
        | inl e ↦
            let le : p.amount ≤ capacity = leb→le _ _ e in
            rw
              (
                take_from_whole p rest capacity le,
                to_double_lem (capacity - min p.amount capacity) (omega (arith, v.spent)),
                to_double_lem (cancelled + min p.amount capacity) (omega (arith, v.spent)),
              )
              (
                record {
                  valid = v.valid.1;
                  rows = omega (arith, v.rows);
                  spent = omega (arith, v.spent);
                  left =
                      ap (λ k. consume k rest) (left_whole p.amount capacity le)
                      ∙ sym (consume_whole p rest capacity le)
                      ∙ v.left;
                },
                omega arith,
              )
        | inr e ↦
            let lt : capacity < p.amount = not_leb→lt _ _ e in
            rw
              (
                take_from_part p rest capacity lt,
                to_double_lem (capacity - min p.amount capacity) (omega (arith, v.spent)),
                to_double_lem (cancelled + min p.amount capacity) (omega (arith, v.spent)),
              )
              (
                record {
                  valid = (reduced-IsPacket p capacity lt v.valid.0, v.valid.1);
                  rows = omega (arith, v.rows);
                  spent = omega (arith, v.spent);
                  left =
                      consume_spent _ (record p { amount = p.amount - capacity } ∷ rest)
                        (left_part p.amount capacity lt)
                        (reduced-IsPacket p capacity lt v.valid.0, v.valid.1)
                      ∙ sym (consume_part p rest capacity lt)
                      ∙ v.left;
                },
                omega arith,
              )
      ]

  -- The loop ends by its test, with the fuel that it is given.
  cancel_loop-Cancels :
      AllPackets ps → Cancels ps n (cancel_loop ps n) × (cancels (cancel_loop ps n) ≡ false)
  unfolding cancel_loop measure
  cancel_loop-Cancels valid =
      while_inv (Cancels ps n) measure cancels cancel_step
        (λ s v test. keeps_at s.next s.capacity s.cancelled v test) (suc (length ps + n)) _
        (omega arith)
        (record { valid = valid; rows = omega arith; spent = omega arith; left = refl })

stopped : (s : CancelState) → cancels s ≡ false → (length s.next ≡ 0) ⊎ (s.capacity ≡ 0)
unfolding cancels
stopped s h = ground arith

-- What an attack does to a valid queue.
pub record IsCancelled (ps : List SimulationGarbagePacket) (attack : ℕ) (m : Multiplier)
    (r : GarbageCancellationResult) : Type 0 where
  pub valid : AllPackets r.packets
  pub packets : r.packets ≡ consume (attack * multiplier_value m) ps
  pub cancelled : r.cancelled ≡ min (total ps) (attack * multiplier_value m)
  pub rows : total r.packets + r.cancelled ≡ total ps
  pub spent : r.attack_spent + r.outgoing ≡ attack
  pub enough : r.cancelled ≤ r.attack_spent * multiplier_value m
  pub tight : r.attack_spent * multiplier_value m < r.cancelled + multiplier_value m
  pub sends : r.outgoing ≡ attack - ceil_div r.cancelled m

loop_result :
    (ps : List SimulationGarbagePacket) (attack : ℕ) (m : Multiplier)
    → AllPackets ps
    → attack * multiplier_value m ≤ max_safe_integer
    → let s = cancel_loop ps (attack * multiplier_value m) in
      AllPackets s.next
      × (s.next ≡ consume (attack * multiplier_value m) ps)
      × (s.cancelled ≡ min (total ps) (attack * multiplier_value m))
      × (total s.next + s.cancelled ≡ total ps)
loop_result ps attack m valid small =
    let n = attack * multiplier_value m in
    let s = cancel_loop ps n in
    let (v, ended) = cancel_loop-Cancels ps n small valid in
    elim (stopped s ended) [
      | inl empty ↦ (
        v.valid,
        sym (consume-nil s.capacity s.next empty) ∙ v.left,
        omega (arith, v.rows, v.spent, total_zero s.next empty),
        v.rows,
      )
      | inr spent ↦ (
        v.valid,
        sym (consume_spent s.capacity s.next spent v.valid) ∙ v.left,
        omega (arith, v.rows, v.spent, spent),
        v.rows,
      )
    ]

ceil_div-le : (c a : ℕ) (m : Multiplier) → c ≤ a * multiplier_value m → ceil_div c m ≤ a
ceil_div-le c a once h = omega arith
ceil_div-le c a twice h = omega arith

-- The attack spent is the least that pays for the rows.
spent_tight :
    (c a : ℕ) (m : Multiplier)
    → ceil_div c m ≤ a
    → (c ≤ min a (ceil_div c m) * multiplier_value m)
      × (min a (ceil_div c m) * multiplier_value m < c + multiplier_value m)
spent_tight c a once h = (omega arith, omega arith)
spent_tight c a twice h = (omega arith, omega arith)

attack-le :
    (a : ℕ) (m : Multiplier) → a * multiplier_value m ≤ max_safe_integer → a ≤ max_safe_integer
attack-le a once h = omega arith
attack-le a twice h = omega arith

-- Cancelling with an attack that stays a safe integer at its multiplier always succeeds on a valid
-- queue: the attack, at its multiplier, takes rows from the
-- first packets; of it no more is spent than these rows need, and the rest is sent on; no row and no
-- attack is lost.
pub cancel_garbage_with_attack-IsCancelled :
    (ps : List SimulationGarbagePacket) (attack : ℕ) (m : Multiplier)
    → AllPackets ps
    → attack * multiplier_value m ≤ max_safe_integer
    → (r : GarbageCancellationResult) × (cancel_garbage_with_attack ps attack m ≡ ok r)
      × IsCancelled ps attack m r
unfolding cancel_garbage_with_attack
cancel_garbage_with_attack-IsCancelled ps attack m valid small =
    let (valid', packets, cancelled, rows) = loop_result ps attack m valid small in
    let safe : attack ≤ max_safe_integer = attack-le attack m small in
    let s = cancel_loop ps (attack * multiplier_value m) in
    let le : ceil_div s.cancelled m ≤ attack =
      ceil_div-le s.cancelled attack m (omega (arith, cancelled)) in
    (
      record {
        packets = s.next;
        cancelled = s.cancelled;
        attack_spent = min attack (ceil_div s.cancelled m);
        outgoing = attack - min attack (ceil_div s.cancelled m);
      },
      rw (
        le→leb _ _ safe,
        validated-ok ps valid,
        to_double_lem (attack * multiplier_value m) (omega (arith, small)),
      ),
      record {
        valid = valid';
        packets = packets;
        cancelled = cancelled;
        rows = rows;
        spent = omega arith;
        enough = (spent_tight s.cancelled attack m le).0;
        tight = (spent_tight s.cancelled attack m le).1;
        sends = omega arith;
      },
    )
