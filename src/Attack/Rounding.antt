-- ===== src/Attack/Rounding.antt =====
-- Rounding in packages/game-core/src/versusAttack.ts.
use tetr_d.Base.{
  ℕ, ◌+◌, ◌/◌, ◌%◌, ◌<◌, ◌≡◌, refl, Option, some, arith, ltb, lt→ltb, ◌==◌, if◌then◌else◌,
  Bool-cases, inl, inr, ==_iff,
}
use tetr_d.Base.Result.{ok}
use tetr_d.Attack.{Reals, one, rng, down, round_versus_attack, rounded_up}

-- Rounding down needs no roll.
pub round_versus_attack-down :
    (reals : Reals) (attack : ℕ) (roll : Option ℕ)
    → round_versus_attack reals attack down roll ≡ ok (attack / one reals)
unfolding round_versus_attack
round_versus_attack-down reals attack roll = refl

-- With a roll below 1 an attack is rounded to one of its two neighbours, and up exactly if the roll
-- lies below a fraction that is not 0.
pub round_versus_attack-rng :
    (reals : Reals) (attack roll : ℕ)
    → roll < one reals
    → round_versus_attack reals attack rng (some roll)
      ≡ ok (attack / one reals + (if ltb roll (attack % one reals) then 1 else 0))
unfolding round_versus_attack
round_versus_attack-rng reals attack roll h = elim (Bool-cases (attack % one reals == 0)) [
  | inl e ↦ let whole : attack % one reals ≡ 0 = (==_iff _ _).0 e in rw (e, whole) (ground arith)
  | inr e ↦ rw e (unfold rounded_up in rw (lt→ltb _ _ h))
]

-- Without a fraction no roll is needed.
pub round_versus_attack-whole :
    (reals : Reals) (attack : ℕ) (roll : Option ℕ)
    → attack % one reals ≡ 0
    → round_versus_attack reals attack rng roll ≡ ok (attack / one reals)
unfolding round_versus_attack
round_versus_attack-whole reals attack roll h = rw h
