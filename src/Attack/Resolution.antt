-- ===== src/Attack/Resolution.antt =====
-- `resolveVersusAttack` of packages/game-core/src/versusAttack.ts as a whole.
use tetr_d.Base.{
  ℕ, zero, suc, ◌+◌, ◌*◌, ◌/◌, ◌%◌, ◌≤◌, ◌<◌, ◌≡◌, ◌⊎◌, refl, Bool, true, false, ◌&&◌, ◌||◌, Option,
  some, sum, arith, ltb, le→leb, ◌==◌, if◌then◌else◌, inl, inr,
}
use tetr_d.Base.Int.{ℤ, pos, pos_part, ◌≤ℤ◌, leb_ℤ, to_ℕ}
use tetr_d.Base.Result.{ok}
use tetr_d.Board.{max_safe_integer, is_safe_integer}
use tetr_d.Spin.{SpinClassification, no_spin}
use tetr_d.Attack.{
  Reals, one, AttackRoundingMode, rng, down, VersusAttackRoundingOptions, VersusAttackEvent,
  BackToBackChargeState, charge_status, VersusAttackResolution, base_attack_for, is_difficult_clear,
  is_spin, bonus_if, scaled_attack, round_versus_attack, mode_or_default, resolve_versus_attack,
  back_to_back_charge_status,
}
use tetr_d.Attack.Surge.{surge_of-sum}
use tetr_d.Attack.Rounding.{
  round_versus_attack-down, round_versus_attack-rng, round_versus_attack-whole,
}

-- What `lockPiece` and the player's state supply.
pub record IsEvent (e : VersusAttackEvent) (state : BackToBackChargeState) : Type 0 where
  pub some_lines : 1 ≤ e.lines
  pub four_lines : e.lines ≤ 4
  pub combo : pos 0 ≤ℤ e.combo
  pub safe_combo : pos_part e.combo ≤ max_safe_integer
  pub safe_streak : state.difficult_clear_streak < max_safe_integer

-- Base attack, bonus and combo before rounding.
unfoldable pub scaled_of : Reals → VersusAttackEvent → BackToBackChargeState → ℕ → ℕ
scaled_of reals e state base =
    scaled_attack reals
      (base + bonus_if (is_difficult_clear e && ltb 0 state.difficult_clear_streak) 1)
      (to_ℕ e.combo)

-- What a resolution says of its event.
pub record IsResolved (reals : Reals) (e : VersusAttackEvent) (state : BackToBackChargeState)
    (r : VersusAttackResolution) : Type 0 where
  pub base : base_attack_for e.lines e.spin ≡ some r.base_attack
  pub scaled : r.scaled_attack_before_rounding ≡ scaled_of reals e state r.base_attack
  pub fraction : r.rounding_fraction ≡ r.scaled_attack_before_rounding % one reals
  pub above : r.scaled_attack_before_rounding / one reals ≤ r.rounded_attack
  pub below : r.rounded_attack ≤ r.scaled_attack_before_rounding / one reals + 1
  pub attack :
      r.clear_attack
      ≡ r.rounded_attack
        + bonus_if e.all_clear 5
        + bonus_if (e.cleared_garbage && ((e.lines == 4) || is_spin e.spin)) 1
  pub streak :
      r.next_back_to_back.difficult_clear_streak
      ≡ bonus_if (is_difficult_clear e) (state.difficult_clear_streak + 1)
  pub surge :
      sum r.surge_packets ≡ (if is_difficult_clear e then 0 else (charge_status state).surge_charge)

-- The options under which rounding finds the roll that it needs.
abbrev pub Rolls : Reals → ℕ → VersusAttackRoundingOptions → Type 0
Rolls reals scaled o =
    (mode_or_default o.rounding_mode ≡ down)
    ⊎ (scaled % one reals ≡ 0)
    ⊎ ((roll : ℕ) × (o.rounding_roll ≡ some roll) × (roll < one reals))

base_attack_for-some :
    (lines : ℕ) (spin : SpinClassification)
    → 1 ≤ lines
    → lines ≤ 4
    → (base : ℕ) × (base_attack_for lines spin ≡ some base)
unfolding base_attack_for
base_attack_for-some zero spin a b = absurd (omega arith)
base_attack_for-some (suc zero) no_spin a b = (_, refl)
base_attack_for-some (suc zero) _ a b = (_, refl)
base_attack_for-some (suc (suc zero)) no_spin a b = (_, refl)
base_attack_for-some (suc (suc zero)) _ a b = (_, refl)
base_attack_for-some (suc (suc (suc zero))) no_spin a b = (_, refl)
base_attack_for-some (suc (suc (suc zero))) _ a b = (_, refl)
base_attack_for-some (suc (suc (suc (suc zero)))) no_spin a b = (_, refl)
base_attack_for-some (suc (suc (suc (suc zero)))) _ a b = (_, refl)
base_attack_for-some (suc (suc (suc (suc (suc n))))) spin a b = absurd (omega arith)

abbrev Rounded : Reals → ℕ → VersusAttackRoundingOptions → Type 0
Rounded reals scaled o =
    (n : ℕ) × (round_versus_attack reals scaled (mode_or_default o.rounding_mode) o.rounding_roll
      ≡ ok n)
    × (scaled / one reals ≤ n)
    × (n ≤ scaled / one reals + 1)

rounded_with_roll :
    (reals : Reals) (scaled roll : ℕ) (mode : AttackRoundingMode)
    → roll < one reals
    → (n : ℕ) × (round_versus_attack reals scaled mode (some roll) ≡ ok n)
      × (scaled / one reals ≤ n)
      × (n ≤ scaled / one reals + 1)
rounded_with_roll reals scaled roll down h = (
  scaled / one reals,
  round_versus_attack-down reals scaled (some roll),
  omega arith,
  omega arith,
)
rounded_with_roll reals scaled roll rng h =
    (_, round_versus_attack-rng reals scaled roll h, ground arith, ground arith)

rounded_whole :
    (reals : Reals) (scaled : ℕ) (mode : AttackRoundingMode) (roll : Option ℕ)
    → scaled % one reals ≡ 0
    → round_versus_attack reals scaled mode roll ≡ ok (scaled / one reals)
rounded_whole reals scaled down roll h = round_versus_attack-down reals scaled roll
rounded_whole reals scaled rng roll h = round_versus_attack-whole reals scaled roll h

rounding_succeeds :
    (reals : Reals) (scaled : ℕ) (o : VersusAttackRoundingOptions)
    → Rolls reals scaled o
    → Rounded reals scaled o
rounding_succeeds reals scaled o (inl is_down) = (
  scaled / one reals,
  rw is_down (round_versus_attack-down reals scaled o.rounding_roll),
  omega arith,
  omega arith,
)
rounding_succeeds reals scaled o (inr (inl whole)) = (
  scaled / one reals,
  rounded_whole reals scaled _ o.rounding_roll whole,
  omega arith,
  omega arith,
)
rounding_succeeds reals scaled o (inr (inr (roll, given, h))) =
    let (n, made, a, b) = rounded_with_roll reals scaled roll (mode_or_default o.rounding_mode) h in
    (n, rw given made, a, b)

combo_asserted :
    (c : ℤ)
    → pos 0 ≤ℤ c
    → pos_part c ≤ max_safe_integer
    → (is_safe_integer c && leb_ℤ (pos 0) c) ≡ true
combo_asserted c h safe = ground arith

streak_after : (d : Bool) (n : ℕ) → n < max_safe_integer → bonus_if d (n + 1) ≤ max_safe_integer
streak_after true n h = omega arith
streak_after false n h = omega arith

-- Every event of one to four lines is resolved when rounding has the roll that it may need: the
-- attack is one of the two neighbours of base and bonus scaled by the combo, with the extras on top;
-- a difficult clear adds to the streak, any other ends it and discharges its Surge.
pub resolve_versus_attack-IsResolved :
    (reals : Reals) (e : VersusAttackEvent) (state : BackToBackChargeState)
    (o : VersusAttackRoundingOptions)
    → IsEvent e state
    → ((base : ℕ)
        → base_attack_for e.lines e.spin ≡ some base
        → Rolls reals (scaled_of reals e state base) o)
    → (r : VersusAttackResolution) × (resolve_versus_attack reals e state o ≡ ok r)
      × IsResolved reals e state r
unfolding resolve_versus_attack back_to_back_charge_status scaled_of
resolve_versus_attack-IsResolved reals e state o v rolls =
    let (base, found) = base_attack_for-some e.lines e.spin v.some_lines v.four_lines in
    let (n, rounded, above, below) = rounding_succeeds reals _ o (rolls base found) in
    let (packets, discharged, total) =
      surge_of-sum (is_difficult_clear e) state (omega (arith, v.safe_streak)) in
    (
      record {
        difficult = is_difficult_clear e;
        base_attack = base;
        back_to_back_bonus =
            bonus_if (is_difficult_clear e && ltb 0 state.difficult_clear_streak) 1;
        combo_multiplier = (4 + to_ℕ e.combo) * reals.quarter;
        scaled_attack_before_rounding = scaled_of reals e state base;
        rounding_mode = mode_or_default o.rounding_mode;
        rounding_fraction = scaled_of reals e state base % one reals;
        rounded_attack = n;
        all_clear_bonus = bonus_if e.all_clear 5;
        garbage_clear_bonus = bonus_if (e.cleared_garbage && ((e.lines == 4) || is_spin e.spin)) 1;
        clear_attack =
            n
            + bonus_if e.all_clear 5
            + bonus_if (e.cleared_garbage && ((e.lines == 4) || is_spin e.spin)) 1;
        surge_packets = packets;
        next_back_to_back = record {
          difficult_clear_streak =
              bonus_if (is_difficult_clear e) (state.difficult_clear_streak + 1);
        };
        next_back_to_back_status = charge_status (record {
          difficult_clear_streak =
              bonus_if (is_difficult_clear e) (state.difficult_clear_streak + 1);
        });
      },
      rw (
        combo_asserted e.combo v.combo v.safe_combo,
        le→leb state.difficult_clear_streak max_safe_integer (omega (arith, v.safe_streak)),
        found,
        rounded,
        discharged,
        le→leb _ _ (streak_after (is_difficult_clear e) state.difficult_clear_streak v.safe_streak),
      ),
      record {
        base = found;
        scaled = refl;
        fraction = refl;
        above = above;
        below = below;
        attack = refl;
        streak = refl;
        surge = total;
      },
    )
