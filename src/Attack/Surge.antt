-- ===== src/Attack/Surge.antt =====
-- The Surge packets of packages/game-core/src/versusAttack.ts.
use tetr_d.Base.{
  ℕ, ◌+◌, ◌/◌, ◌%◌, ◌≤◌, ◌<◌, ◌≡◌, refl, Bool, true, false, List, [], ◌∷◌, sum, arith, ltb, ◌==◌,
  le→leb, if◌then◌else◌, Bool-cases, inl, inr, ◌⊎◌,
}
use tetr_d.Base.Result.{ok}
use tetr_d.Board.{max_safe_integer}
use tetr_d.Attack.{BackToBackChargeState, charge_status, split_surge_attack, surge_of}

-- Three packets, the larger ones first and none more than one above another.
abbrev pub IsSplit : ℕ → List ℕ → Type 0
IsSplit charge packets =
    ((charge ≡ 0) × (packets ≡ []))
    ⊎ ((a : ℕ) × (b : ℕ) × (c : ℕ) × (packets ≡ a ∷ b ∷ c ∷ [])
        × (b ≤ a)
        × (c ≤ b)
        × (a ≤ c + 1)
        × (0 < charge))

third : ℕ → ℕ → ℕ
third charge n = charge / 3 + (if ltb n (charge % 3) then 1 else 0)

third-sum : (charge : ℕ) → third charge 0 + third charge 1 + third charge 2 ≡ charge
unfolding third
third-sum charge = ground arith

third_mono :
    (charge : ℕ)
    → (third charge 1 ≤ third charge 0)
      × (third charge 2 ≤ third charge 1)
      × (third charge 0 ≤ third charge 2 + 1)
unfolding third
third_mono charge = (ground arith, ground arith, ground arith)

-- A charge is split into nothing or three packets that make it up, remainders to the first ones.
pub split_surge_attack-IsSplit :
    (charge : ℕ)
    → charge ≤ max_safe_integer
    → (packets : List ℕ) × (split_surge_attack charge ≡ ok packets)
      × (sum packets ≡ charge)
      × IsSplit charge packets
unfolding split_surge_attack
split_surge_attack-IsSplit charge safe = elim (Bool-cases (charge == 0)) [
  | inl e ↦ ([], rw (le→leb _ _ safe, e), ground arith, inl (ground arith, refl))
  | inr e ↦
      let total = third-sum charge in
      let (m1, m2, m3) = third_mono charge in
      (
        third charge 0 ∷ third charge 1 ∷ third charge 2 ∷ [],
        rw (le→leb _ _ safe, e) (unfold third in refl),
        omega arith,
        inr (third charge 0, third charge 1, third charge 2, refl, m1, m2, m3, ground arith),
      )
]

-- What a clear discharges: nothing if it is difficult, else the whole charge.
pub surge_of-sum :
    (difficult : Bool) (s : BackToBackChargeState)
    → s.difficult_clear_streak ≤ max_safe_integer
    → (packets : List ℕ) × (surge_of difficult (charge_status s) ≡ ok packets)
      × (sum packets ≡ (if difficult then 0 else (charge_status s).surge_charge))
unfolding surge_of
surge_of-sum true s safe = ([], refl, refl)
surge_of-sum false s safe =
    let (packets, made, total, _) =
      split_surge_attack-IsSplit (charge_status s).surge_charge (ground arith) in
    (packets, made, total)
