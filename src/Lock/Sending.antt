-- ===== src/Lock/Sending.antt =====
-- The attack loop of packages/game-core/src/playerLockResolution.ts: attacks first cancel the
-- player's own pending garbage, and leave only when none is pending.
use tetr_d.Base.{
  ℕ, ◌+◌, ◌-◌, ◌*◌, ◌≤◌, ◌<◌, ◌≡◌, ◌⊎◌, inl, inr, refl, List, [], ◌∷◌, ◌++◌, sum, sum-append, ltb,
  ◌==◌, if◌then◌else◌, arith, All, All-append, Bool-cases, ==_iff, ltb→lt, not_ltb→le, min,
}
use tetr_d.Base.Result.{ok}
use tetr_d.Board.{max_safe_integer}
use tetr_d.Garbage.{Multiplier, once, twice, multiplier_value, ceil_div}
use tetr_d.Garbage.Packets.{AllPackets, total}
use tetr_d.Garbage.Cancelling.{cancel_garbage_with_attack-IsCancelled}
use tetr_d.Lock.{SendState, send_attack, send_attacks}

abbrev pub AllPositive : List ℕ → Type 0
AllPositive = All (λ n. 0 < n)

-- What some attacks, `attack` in sum, make of the state `s`.
pub record Sends (m : Multiplier) (s : SendState) (attack : ℕ) (t : SendState) : Type 0 where
  pub valid : AllPackets t.pending
  pub rows : total t.pending + t.cancelled ≡ total s.pending + s.cancelled
  pub bounded : sum t.outgoing ≤ sum s.outgoing + attack
  pub kept : sum s.outgoing ≤ sum t.outgoing
  pub shrinks : total t.pending ≤ total s.pending
  pub drained : (sum t.outgoing ≡ sum s.outgoing) ⊎ (total t.pending ≡ 0)
  pub single : (m ≡ twice) ⊎ (sum t.outgoing + t.cancelled ≡ sum s.outgoing + s.cancelled + attack)
  pub positive : AllPositive s.outgoing → AllPositive t.outgoing

-- A queue that is not emptied absorbs the attack.
absorbed :
    (m : Multiplier) (rows attack cancelled left outgoing : ℕ)
    → cancelled ≡ min rows (attack * multiplier_value m)
    → left + cancelled ≡ rows
    → outgoing ≡ attack - ceil_div cancelled m
    → ((outgoing ≡ 0) ⊎ (left ≡ 0))
      × (outgoing ≤ attack)
      × ((m ≡ twice) ⊎ (outgoing + cancelled ≡ attack))
absorbed once rows attack cancelled left outgoing c l o =
    (ground arith, omega arith, inr (omega arith))
absorbed twice rows attack cancelled left outgoing c l o = (ground arith, omega arith, inl refl)

pushed : List ℕ → ℕ → List ℕ
pushed out n = if ltb 0 n then out ++ n ∷ [] else out

sum-pushed : (out : List ℕ) (n : ℕ) → sum (pushed out n) ≡ sum out + n
unfolding pushed
sum-pushed out n = elim (Bool-cases (ltb 0 n)) [
  | inl e ↦ rw e (omega (arith, sum-append out (n ∷ [])))
  | inr e ↦ rw e (omega (arith, not_ltb→le _ _ e))
]

pushed-AllPositive : (out : List ℕ) (n : ℕ) → AllPositive out → AllPositive (pushed out n)
unfolding pushed
pushed-AllPositive out n h = elim (Bool-cases (ltb 0 n)) [
  | inl e ↦ rw e (All-append (λ k. 0 < k) out (n ∷ []) h (ltb→lt _ _ e, tt))
  | inr e ↦ rw e h
]

at_multiplier :
    (attack : ℕ) (m : Multiplier)
    → attack * 2 ≤ max_safe_integer
    → attack * multiplier_value m ≤ max_safe_integer
at_multiplier attack once h = omega arith
at_multiplier attack twice h = h

send_attack-Sends :
    (m : Multiplier) (s : SendState) (attack : ℕ)
    → AllPackets s.pending
    → attack * 2 ≤ max_safe_integer
    → (t : SendState) × (send_attack m s attack ≡ ok t) × Sends m s attack t
unfolding send_attack
send_attack-Sends m s attack valid safe = elim (Bool-cases (attack == 0)) [
  | inl e ↦
      let none_sent : attack ≡ 0 = (==_iff _ _).0 e in
      (
        s,
        rw e,
        record {
          valid = valid;
          rows = refl;
          bounded = omega arith;
          kept = omega arith;
          shrinks = omega arith;
          drained = inl refl;
          single = inr (omega arith);
          positive = λ h. h;
        },
      )
  | inr e ↦
      let (c, made, v) =
        cancel_garbage_with_attack-IsCancelled s.pending attack m valid
          (at_multiplier attack m safe) in
      let (either, le, single) =
        absorbed m (total s.pending) attack c.cancelled (total c.packets) c.outgoing v.cancelled
          v.rows v.sends in
      (
        record {
          pending = c.packets;
          cancelled = s.cancelled + c.cancelled;
          outgoing = pushed s.outgoing c.outgoing;
        },
        rw (e, made) (unfold pushed in refl),
        record {
          valid = v.valid;
          rows = omega (arith, v.rows);
          bounded = omega (arith, sum-pushed s.outgoing c.outgoing);
          kept = omega (arith, sum-pushed s.outgoing c.outgoing);
          shrinks = omega (arith, v.rows);
          drained = ground (arith, either, sum-pushed s.outgoing c.outgoing);
          single = ground (arith, single, sum-pushed s.outgoing c.outgoing);
          positive = pushed-AllPositive s.outgoing c.outgoing;
        },
      )
]

-- Any attacks within the safe integers are sent, and the two together keep the account.
pub send_attacks-Sends :
    (m : Multiplier) (s : SendState) (attacks : List ℕ)
    → AllPackets s.pending
    → All (λ a. a * 2 ≤ max_safe_integer) attacks
    → (t : SendState) × (send_attacks m s attacks ≡ ok t) × Sends m s (sum attacks) t
unfolding send_attacks
send_attacks-Sends m s [] valid safe = (
  s,
  refl,
  record {
    valid = valid;
    rows = refl;
    bounded = omega arith;
    kept = omega arith;
    shrinks = omega arith;
    drained = inl refl;
    single = inr (omega arith);
    positive = λ h. h;
  },
)
send_attacks-Sends m s (a ∷ attacks) valid (safe, safes) =
    let (t, made, v) = send_attack-Sends m s a valid safe in
    let (u, later, w) = send_attacks-Sends m t attacks v.valid safes in
    (
      u,
      rw made later,
      record {
        valid = w.valid;
        rows = omega (arith, v.rows, w.rows);
        bounded = omega (arith, v.bounded, w.bounded);
        kept = omega (arith, v.kept, w.kept);
        shrinks = omega (arith, v.shrinks, w.shrinks);
        drained = omega (arith, v.drained, w.drained, v.kept, w.kept, v.shrinks, w.shrinks);
        single = ground (arith, v.single, w.single);
        positive = λ h. w.positive (v.positive h);
      },
    )
