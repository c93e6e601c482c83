-- ===== src/Garbage/Packets.antt =====
-- Queues of valid packets in packages/game-core/src/garbageQueue.ts: the rows that they hold, and the
-- queue that is left when its first rows are taken.
use tetr_d.Base.{
  ℕ, ◌+◌, ◌-◌, ◌≤◌, ◌<◌, ◌≡◌, refl, ◌∙◌, ap, true, List, [], ◌∷◌, length, leb, if◌then◌else◌, min,
  arith, All, lt→ltb, le→leb, ==_iff,
}
use tetr_d.Base.Result.{ok, range_error, guard, >>=-eq-ok, guard-eq-ok, ok-injective}
use tetr_d.Board.{max_safe_integer}
use tetr_d.Garbage.{
  SimulationGarbagePacket, is_valid_packet, pending_from, pending_garbage_amount, validated,
  take_from,
}

-- What `validatePacket` accepts.
pub record IsPacket (p : SimulationGarbagePacket) : Type 0 where
  pub named : 0 < length p.packet_id
  pub sourced : 0 < length p.source_player_id
  pub safe : p.amount ≤ max_safe_integer
  pub some_rows : 0 < p.amount
  pub timed : p.applies_at_frame ≤ max_safe_integer
  pub holed : p.hole < 10

abbrev pub AllPackets : List SimulationGarbagePacket → Type 0
AllPackets = All IsPacket

-- The rows that a queue holds.
unfoldable pub total : List SimulationGarbagePacket → ℕ
total [] = 0
total (p ∷ ps) = p.amount + total ps

is_valid_packet-IsPacket : (p : SimulationGarbagePacket) → is_valid_packet p ≡ true → IsPacket p
is_valid_packet-IsPacket p h = record {
  named = ground arith;
  sourced = ground arith;
  safe = ground arith;
  some_rows = ground arith;
  timed = ground arith;
  holed = ground arith;
}

IsPacket-is_valid_packet : (p : SimulationGarbagePacket) → IsPacket p → is_valid_packet p ≡ true
IsPacket-is_valid_packet p v = rw (
  lt→ltb 0 (length p.packet_id) v.named,
  lt→ltb 0 (length p.source_player_id) v.sourced,
  le→leb p.amount max_safe_integer v.safe,
  le→leb 1 p.amount v.some_rows,
  le→leb p.applies_at_frame max_safe_integer v.timed,
  lt→ltb p.hole 10 v.holed,
)

pub validated-ok : (ps : List SimulationGarbagePacket) → AllPackets ps → validated ps ≡ ok ps
unfolding validated
validated-ok [] h = refl
validated-ok (p ∷ ps) (v, vs) = rw (IsPacket-is_valid_packet p v, validated-ok ps vs)

pub validated-eq-ok :
    (ps : List SimulationGarbagePacket) {qs : List SimulationGarbagePacket}
    → validated ps ≡ ok qs
    → AllPackets ps × (ps ≡ qs)
unfolding validated
validated-eq-ok [] h = (tt, ok-injective h)
validated-eq-ok (p ∷ ps) h =
    let (_, passed, h') = >>=-eq-ok (guard (is_valid_packet p) range_error) _ h in
    let (rest, valid, made) = >>=-eq-ok (validated ps) _ h' in
    let (vs, same) = validated-eq-ok ps valid in
    (
      (is_valid_packet-IsPacket p (guard-eq-ok _ range_error passed), vs),
      ap (λ r. p ∷ r) same ∙ ok-injective made,
    )

pending_from-ok :
    (n : ℕ) (ps : List SimulationGarbagePacket)
    → AllPackets ps
    → pending_from n ps ≡ ok (n + total ps)
unfolding pending_from total
pending_from-ok n [] h = ap ok (omega arith)
pending_from-ok n (p ∷ ps) (v, vs) =
    rw (IsPacket-is_valid_packet p v) (pending_from-ok (n + p.amount) ps vs ∙ ap ok (omega arith))

-- The rows pending are the sum of the packets' rows, when the packets are valid.
pub pending_garbage_amount-total :
    (ps : List SimulationGarbagePacket) → AllPackets ps → pending_garbage_amount ps ≡ ok (total ps)
unfolding pending_garbage_amount
pending_garbage_amount-total ps h = pending_from-ok 0 ps h ∙ ap ok (omega arith)

-- The queue after its first `n` rows are taken, first packet first.
unfoldable pub consume : ℕ → List SimulationGarbagePacket → List SimulationGarbagePacket
consume n [] = []
consume n (p ∷ ps) =
    if leb p.amount n then consume (n - p.amount) ps else record p { amount = p.amount - n } ∷ ps

pub consume-zero : (ps : List SimulationGarbagePacket) → AllPackets ps → consume 0 ps ≡ ps
unfolding consume
consume-zero [] h = refl
consume-zero (p ∷ ps) (v, vs) = ground (arith, v.some_rows)

pub consume_spent :
    (k : ℕ) (ps : List SimulationGarbagePacket) → k ≡ 0 → AllPackets ps → consume k ps ≡ ps
consume_spent k ps e h = ap (λ n. consume n ps) e ∙ consume-zero ps h

-- The whole first packet goes, or as much of it as the capacity allows.
pub take_from_whole :
    (p : SimulationGarbagePacket) (rest : List SimulationGarbagePacket) (c : ℕ)
    → p.amount ≤ c
    → take_from p rest (min p.amount c) ≡ rest
take_from_whole p rest c h =
    let e : min p.amount c ≡ p.amount = omega arith in rw (e, (==_iff p.amount p.amount).1 refl)

pub take_from_part :
    (p : SimulationGarbagePacket) (rest : List SimulationGarbagePacket) (c : ℕ)
    → c < p.amount
    → take_from p rest (min p.amount c) ≡ record p { amount = p.amount - c } ∷ rest
take_from_part p rest c h = let e : min p.amount c ≡ c = omega arith in rw e (ground arith)

pub consume_whole :
    (p : SimulationGarbagePacket) (rest : List SimulationGarbagePacket) (n : ℕ)
    → p.amount ≤ n
    → consume n (p ∷ rest) ≡ consume (n - p.amount) rest
unfolding consume
consume_whole p rest n h = rw (le→leb _ _ h)

pub consume_part :
    (p : SimulationGarbagePacket) (rest : List SimulationGarbagePacket) (n : ℕ)
    → n < p.amount
    → consume n (p ∷ rest) ≡ record p { amount = p.amount - n } ∷ rest
unfolding consume
consume_part p rest n h = ground arith

pub left_whole : (a c : ℕ) → a ≤ c → c - min a c ≡ c - a
left_whole a c h = omega arith

pub left_part : (a c : ℕ) → c < a → c - min a c ≡ 0
left_part a c h = omega arith

pub reduced-IsPacket :
    (p : SimulationGarbagePacket) (n : ℕ)
    → n < p.amount
    → IsPacket p
    → IsPacket (record p { amount = p.amount - n })
reduced-IsPacket p n h v = record {
  named = v.named;
  sourced = v.sourced;
  safe = omega (arith, v.safe);
  some_rows = omega arith;
  timed = v.timed;
  holed = v.holed;
}

pub total_zero : (ps : List SimulationGarbagePacket) → length ps ≡ 0 → total ps ≡ 0
unfolding total
total_zero [] h = refl
total_zero (p ∷ ps) h = absurd (omega arith)

pub consume-nil : (n : ℕ) (ps : List SimulationGarbagePacket) → length ps ≡ 0 → consume n ps ≡ ps
unfolding consume
consume-nil n [] h = refl
consume-nil n (p ∷ ps) h = absurd (omega arith)
