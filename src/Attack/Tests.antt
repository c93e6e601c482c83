-- ===== src/Attack/Tests.antt =====
-- Tests of packages/game-core/src/versusAttack.ts, and its theorems at concrete clears.
use tetr_d.Base.{ℕ, ◌*◌, ◌≡◌, refl, true, false, some, List, [], ◌∷◌, sum, arith}
use tetr_d.Base.Int.{pos}
use tetr_d.Base.Result.{ok}
use tetr_d.Spin.{full}
use tetr_d.Attack.{
  Reals, rng, VersusAttackRoundingOptions, VersusAttackEvent, BackToBackChargeState,
  split_surge_attack,
}
use tetr_d.Attack.Surge.{IsSplit, split_surge_attack-IsSplit}
use tetr_d.Attack.Resolution.{IsEvent}

-- A hundredth as the unit, with the logarithm cut off after two digits.
abbrev hundredths : Reals
hundredths = record { quarter = 25; log_units = λ c. c * 40 }

-- A T-spin double that is the third clear of a combo.
abbrev event : VersusAttackEvent
event = record { lines = 2; spin = full; combo = pos 2; all_clear = false; cleared_garbage = true }

abbrev streak : BackToBackChargeState
streak = record { difficult_clear_streak = 5 }

abbrev options : VersusAttackRoundingOptions
options = record { rounding_mode = some rng; rounding_roll = some 30 }

event-IsEvent : IsEvent event streak
event-IsEvent = record {
  some_lines = omega arith;
  four_lines = omega arith;
  combo = omega arith;
  safe_combo = omega arith;
  safe_streak = omega arith;
}

surge_of_eight : split_surge_attack 8 ≡ ok (3 ∷ 3 ∷ 2 ∷ [])
unfolding split_surge_attack
surge_of_eight = refl

split_surge_attack-IsSplit_example :
    (packets : List ℕ) × (split_surge_attack 8 ≡ ok packets) × (sum packets ≡ 8) × IsSplit 8 packets
split_surge_attack-IsSplit_example = split_surge_attack-IsSplit 8 (omega arith)
