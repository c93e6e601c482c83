-- ===== src/Lock/Resolved.antt =====
-- `resolvePlayerLock` of packages/game-core/src/playerLockResolution.ts as a whole.
use tetr_d.Base.{
  ◌&&◌, ◌||◌, ℕ, ◌+◌, ◌*◌, ◌/◌, ◌%◌, ◌≤◌, ◌<◌, ◌≡◌, inl, inr, refl, sym, ap, ◌∙◌, Bool, true, false,
  some, ltb, lt→ltb, ◌==◌, arith, Bool-cases, ==_iff,
}
use tetr_d.Base.Int.{to_ℕ}
use tetr_d.Base.Result.{ok}
use tetr_d.Spin.{SpinClassification, no_spin, mini, full}
use tetr_d.Attack.{
  Reals, one, VersusAttackEvent, BackToBackChargeState, VersusAttackResolution, base_attack_for,
  is_difficult_clear, is_spin, bonus_if, scaled_attack,
}
use tetr_d.Attack.Resolution.{IsEvent, IsResolved, scaled_of, resolve_versus_attack-IsResolved}
use tetr_d.Lock.{resolve_attack, rounding_down, no_options, with_roll}

-- What is known of the doubles and of the rounding source: a roll lies in [0, 1), and
-- log(1 + x) ≤ x.
pub record IsReal (reals : Reals) (rolls : ℕ → ℕ) : Type 0 where
  pub roll_below : (k : ℕ) → rolls k < one reals
  pub log_below : (c : ℕ) → reals.log_units c ≤ 5 * c * reals.quarter

base_attack_for-le :
    (lines base : ℕ) (spin : SpinClassification)
    → base_attack_for lines spin ≡ some base
    → base ≤ 10
unfolding base_attack_for
base_attack_for-le lines base no_spin h = ground arith
base_attack_for-le lines base mini h = ground arith
base_attack_for-le lines base full h = ground arith

mul_below : (a b x : ℕ) → a ≤ b → a * x ≤ b * x
mul_below a b x h = grind arith

scaled_attack-le :
    (reals : Reals) (base c : ℕ)
    → base ≤ 11
    → reals.log_units c ≤ 5 * c * reals.quarter
    → scaled_attack reals base c ≤ 11 * (4 + c) * one reals
unfolding scaled_attack
scaled_attack-le reals base c le log =
    ground (arith, mul_below base 11 ((4 + c) * reals.quarter) le)

div_below : (a b k : ℕ) → 0 < k → a ≤ b * k → a / k ≤ b
div_below a b k h le = grind arith

-- The most that a combo of `c` clears can send at once.
abbrev pub most : ℕ → ℕ
most c = 11 * (4 + c) + 7

pub bonus-le : (b : Bool) (n : ℕ) → bonus_if b n ≤ n
bonus-le true n = omega arith
bonus-le false n = omega arith

module _ (reals : Reals) (rolls : ℕ → ℕ) (real : IsReal reals rolls) where
  one_pos : 0 < one reals
  one_pos = omega (arith, real.roll_below 0)

  clear_attack-le :
      (e : VersusAttackEvent) (state : BackToBackChargeState) (r : VersusAttackResolution)
      → IsResolved reals e state r
      → r.clear_attack ≤ most (to_ℕ e.combo)
  unfolding scaled_of
  clear_attack-le e state r v =
      let bonus = bonus_if (is_difficult_clear e && ltb 0 state.difficult_clear_streak) 1 in
      let base = base_attack_for-le e.lines r.base_attack e.spin v.base in
      let le : r.base_attack + bonus ≤ 11 =
        omega
          (arith, base, bonus-le (is_difficult_clear e && ltb 0 state.difficult_clear_streak) 1) in
      let scaled =
        scaled_attack-le reals (r.base_attack + bonus) (to_ℕ e.combo) le
          (real.log_below (to_ℕ e.combo)) in
      let divided =
        div_below r.scaled_attack_before_rounding (11 * (4 + to_ℕ e.combo)) (one reals) one_pos
          (rw v.scaled scaled) in
      omega (
        arith,
        v.below,
        v.attack,
        divided,
        bonus-le e.all_clear 5,
        bonus-le (e.cleared_garbage && ((e.lines == 4) || is_spin e.spin)) 1,
      )

  -- An attack is always resolved: a fraction gets the roll that it needs, and a whole attack reads
  -- none.
  pub resolve_attack-IsResolved :
      (e : VersusAttackEvent) (state : BackToBackChargeState) (read : ℕ)
      → IsEvent e state
      → (r : VersusAttackResolution) × (read' : ℕ) × (resolve_attack reals rolls e state read
          ≡ ok (r, read'))
        × IsResolved reals e state r
        × (r.clear_attack ≤ most (to_ℕ e.combo))
  unfolding resolve_attack
  resolve_attack-IsResolved e state read v =
      let (probe, probed, p) =
        resolve_versus_attack-IsResolved reals e state rounding_down v (λ base _. inl refl) in
      elim (Bool-cases (probe.rounding_fraction == 0)) [
        | inl e0 ↦
            let whole : probe.scaled_attack_before_rounding % one reals ≡ 0 =
              sym p.fraction ∙ (==_iff _ _).0 e0 in
            let (r, made, q) =
              resolve_versus_attack-IsResolved reals e state no_options v
                (λ base found. inr (inl (same_scaled e state probe p base found whole))) in
            (r, read, rw (probed, e0, made), q, clear_attack-le e state r q)
        | inr e0 ↦
            let (r, made, q) =
              resolve_versus_attack-IsResolved reals e state (with_roll (rolls read)) v
                (λ base found. inr (inr (rolls read, refl, real.roll_below read))) in
            (
              r,
              read + 1,
              rw (probed, e0, lt→ltb _ _ (real.roll_below read), made),
              q,
              clear_attack-le e state r q,
            )
      ]
    where
      same_scaled :
          (e : VersusAttackEvent) (state : BackToBackChargeState) (probe : VersusAttackResolution)
          → IsResolved reals e state probe
          → (base : ℕ) → base_attack_for e.lines e.spin ≡ some base
          → probe.scaled_attack_before_rounding % one reals ≡ 0
          → scaled_of reals e state base % one reals ≡ 0
      same_scaled e state probe p base found whole =
          let same : probe.base_attack ≡ base = cc (sym p.base ∙ found) in
          ap (λ b. scaled_of reals e state b % one reals) (sym same)
          ∙ ap (λ n. n % one reals) (sym p.scaled)
          ∙ whole
