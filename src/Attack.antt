-- ===== src/Attack.antt =====
-- packages/game-core/src/attackTypes.ts and versusAttack.ts: what a line clear sends.
-- The non-negative doubles of this code are whole multiples of one small unit: a quarter is
-- `quarter` units, and `Math.log(1 + 1.25 * combo)`, which is no code of the repository, is the
-- parameter `log_units`. A table entry that is undefined makes the attack NaN, which throws.
pub mod Surge
pub mod Rounding
pub mod Resolution
mod Tests
use tetr_d.Base.{
  ℕ, ◌+◌, ◌-◌, ◌*◌, ◌/◌, ◌%◌, ◌<◌, ◌≡◌, Bool, true, false, not, ◌&&◌, ◌||◌, Option, some, none,
  List, [], ◌∷◌, map, ltb, leb, ◌==◌, if◌then◌else◌, max,
}
use tetr_d.Base.Int.{ℤ, pos, pos_part, neg_part, leb_ℤ, to_ℕ}
use tetr_d.Base.Result.{Result, ok, err, range_error, guard, ◌>>=◌, ◌>>◌}
use tetr_d.Board.{max_safe_integer, is_safe_integer}
use tetr_d.Garbage.{Multiplier, once, twice}
use tetr_d.Spin.{SpinClassification, no_spin, mini, full}

pub record Reals : Type 0 where
  pub quarter : ℕ
  pub log_units : ℕ → ℕ

-- The units in 1.
abbrev pub one : Reals → ℕ
one reals = 4 * reals.quarter

pub data AttackRoundingMode : Type 0 where
  rng down : AttackRoundingMode

pub record VersusAttackRoundingOptions : Type 0 where
  pub rounding_mode : Option AttackRoundingMode
  pub rounding_roll : Option ℕ

pub record VersusAttackEvent : Type 0 where
  pub lines : ℕ
  pub spin : SpinClassification
  pub combo : ℤ
  pub all_clear : Bool
  pub cleared_garbage : Bool

pub record BackToBackChargeState : Type 0 where
  pub difficult_clear_streak : ℕ

pub record BackToBackChargeStatus : Type 0 where
  pub displayed_count : ℕ
  pub surge_charge : ℕ

-- The result without the constant ruleset version.
pub record VersusAttackResolution : Type 0 where
  pub difficult : Bool
  pub base_attack : ℕ
  pub back_to_back_bonus : ℕ
  pub combo_multiplier : ℕ
  pub scaled_attack_before_rounding : ℕ
  pub rounding_mode : AttackRoundingMode
  pub rounding_fraction : ℕ
  pub rounded_attack : ℕ
  pub all_clear_bonus : ℕ
  pub garbage_clear_bonus : ℕ
  pub clear_attack : ℕ
  pub surge_packets : List ℕ
  pub next_back_to_back : BackToBackChargeState
  pub next_back_to_back_status : BackToBackChargeStatus

pub record OpenerCancellationContext : Type 0 where
  pub pieces_placed_before_lock : ℕ
  pub pending_garbage : ℕ
  pub total_attack_sent : ℕ

abbrev pub initial_back_to_back_charge_state : BackToBackChargeState
initial_back_to_back_charge_state = record { difficult_clear_streak = 0 }

abbrev pub surge_starts_at_displayed_back_to_back : ℕ
surge_starts_at_displayed_back_to_back = 4

abbrev pub opener_pieces : ℕ
opener_pieces = 14

-- `value` of a field `n: v, ...` in an object literal with the keys 1, 2, 3 and 4.
abbrev pub by_lines : ℕ → ℕ → ℕ → ℕ → ℕ → Option ℕ
by_lines a b c d lines =
    if lines == 1
    then some a
    else if lines == 2
    then some b
    else if lines == 3
    then some c
    else if lines == 4
    then some d
    else none

unfoldable pub base_attack_for : ℕ → SpinClassification → Option ℕ
base_attack_for lines no_spin = by_lines 0 1 2 4 lines
base_attack_for lines mini = by_lines 0 1 2 4 lines
base_attack_for lines full = by_lines 2 4 6 10 lines

abbrev pub assert_non_negative_integer : ℤ → Result (Unit {0})
assert_non_negative_integer v = guard (is_safe_integer v && leb_ℤ (pos 0) v) range_error

abbrev pub is_spin : SpinClassification → Bool
is_spin no_spin = false
is_spin _ = true

unfoldable pub is_difficult_clear : VersusAttackEvent → Bool
is_difficult_clear e = (e.lines == 4) || is_spin e.spin || e.all_clear

abbrev pub validate_state : BackToBackChargeState → Result (Unit {0})
validate_state s = guard (leb s.difficult_clear_streak max_safe_integer) range_error

-- `Math.max(0, streak - 1)` is the subtraction that stops at 0.
abbrev pub charge_status : BackToBackChargeState → BackToBackChargeStatus
charge_status s =
    let displayed = s.difficult_clear_streak - 1 in
    record {
      displayed_count = displayed;
      surge_charge = if leb surge_starts_at_displayed_back_to_back displayed then displayed else 0;
    }

unfoldable pub back_to_back_charge_status : BackToBackChargeState → Result BackToBackChargeStatus
back_to_back_charge_status s = validate_state s >> ok (charge_status s)

unfoldable pub split_surge_attack : ℕ → Result (List ℕ)
split_surge_attack charge = do
  guard (leb charge max_safe_integer) range_error
  if charge == 0
      then ok []
      else ok (
          map (λ packet_index. charge / 3 + (if ltb packet_index (charge % 3) then 1 else 0))
            (0 ∷ 1 ∷ 2 ∷ []))

unfoldable pub opener_cancellation_multiplier : OpenerCancellationContext → Result Multiplier
opener_cancellation_multiplier c = do
  guard (leb c.pieces_placed_before_lock max_safe_integer) range_error
  guard (leb c.pending_garbage max_safe_integer) range_error
  guard (leb c.total_attack_sent max_safe_integer) range_error
  ok (
      if ltb c.pieces_placed_before_lock opener_pieces && ltb c.total_attack_sent c.pending_garbage
      then twice
      else once)

-- `options.roundingMode ?? "rng"`
abbrev pub mode_or_default : Option AttackRoundingMode → AttackRoundingMode
mode_or_default none = rng
mode_or_default (some mode) = mode

-- NaN is not finite, so `roundVersusAttack` throws.
abbrev pub number_or_throw : Option ℕ → Result ℕ
number_or_throw none = err range_error
number_or_throw (some n) = ok n

abbrev pub bonus_if : Bool → ℕ → ℕ
bonus_if b n = if b then n else 0

unfoldable pub surge_of : Bool → BackToBackChargeStatus → Result (List ℕ)
surge_of difficult previous = if difficult then ok [] else split_surge_attack previous.surge_charge

module _ (reals : Reals) where
  -- A roll of a fractional attack; `none` is `undefined`.
  pub rounded_up : ℕ → ℕ → Option ℕ → Result ℕ
  rounded_up floored fraction none = err range_error
  rounded_up floored fraction (some roll) = do
    guard (ltb roll (one reals)) range_error
    ok (floored + (if ltb roll fraction then 1 else 0))

  unfoldable pub round_versus_attack : ℕ → AttackRoundingMode → Option ℕ → Result ℕ
  unfolding rounded_up
  round_versus_attack attack down roll = ok (attack / one reals)
  round_versus_attack attack rng roll =
      if attack % one reals == 0
      then ok (attack / one reals)
      else rounded_up (attack / one reals) (attack % one reals) roll

  -- `baseWithBackToBack * comboMultiplier`, or the logarithm of a long combo of single clears.
  unfoldable pub scaled_attack : ℕ → ℕ → ℕ
  scaled_attack base combo =
      let scaled = base * ((4 + combo) * reals.quarter) in
      if (base == 0) && leb 2 combo then max scaled (reals.log_units combo) else scaled

  unfoldable pub resolve_versus_attack :
      VersusAttackEvent
      → BackToBackChargeState
      → VersusAttackRoundingOptions
      → Result VersusAttackResolution
  unfolding scaled_attack surge_of
  resolve_versus_attack event state options = do
    assert_non_negative_integer event.combo
    validate_state state
    let difficult = is_difficult_clear event
    let back_to_back_bonus = bonus_if (difficult && ltb 0 state.difficult_clear_streak) 1
    let combo = to_ℕ event.combo
    let mode = mode_or_default options.rounding_mode
    base_attack ← number_or_throw (base_attack_for event.lines event.spin)
    let scaled = scaled_attack (base_attack + back_to_back_bonus) combo
    rounded ← round_versus_attack scaled mode options.rounding_roll
    let all_clear_bonus = bonus_if event.all_clear 5
    let garbage_clear_bonus =
        bonus_if (event.cleared_garbage && ((event.lines == 4) || is_spin event.spin)) 1
    previous ← back_to_back_charge_status state
    surge_packets ← surge_of difficult previous
    let next : BackToBackChargeState = record {
      difficult_clear_streak = bonus_if difficult (state.difficult_clear_streak + 1);
    }
    status ← back_to_back_charge_status next
    ok (record {
      difficult = difficult;
      base_attack = base_attack;
      back_to_back_bonus = back_to_back_bonus;
      combo_multiplier = (4 + combo) * reals.quarter;
      scaled_attack_before_rounding = scaled;
      rounding_mode = mode;
      rounding_fraction = scaled % one reals;
      rounded_attack = rounded;
      all_clear_bonus = all_clear_bonus;
      garbage_clear_bonus = garbage_clear_bonus;
      clear_attack = rounded + all_clear_bonus + garbage_clear_bonus;
      surge_packets = surge_packets;
      next_back_to_back = next;
      next_back_to_back_status = status;
    })
