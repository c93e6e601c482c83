-- ===== src/Base/Loops.antt =====
-- `while` loops on fuel, with the rule that enough fuel ends the loop by its test.
use Prim.Native.Nat.{ℕ, zero, suc, ◌<◌}
use mathlib.Core.Path.{◌≡◌}
use mathlib.Core.Bool.{Bool, true, false}
use native.Mathlib.Omega.{arith}

unfoldable pub while {ℓ} : {State : Type ℓ} → ℕ → (State → Bool) → (State → State) → State → State
while zero goes_on round now = now
while (suc rounds) goes_on round now = elim (goes_on now) [
  | false ↦ now
  | true ↦ while rounds goes_on round (round now)
]

-- When each round keeps the invariant and makes the bound smaller, a loop with more rounds than the
-- bound stops by its test, and with the invariant.
pub while_inv {ℓ κ} :
    {State : Type ℓ} (Inv : State → Type κ) (bound : State → ℕ) (goes_on : State → Bool)
    (round : State → State)
    → ((now : State)
        → Inv now
        → goes_on now ≡ true
        → Inv (round now) × (bound (round now) < bound now))
    → (rounds : ℕ) (now : State) → bound now < rounds
    → Inv now
    → Inv (while rounds goes_on round now) × (goes_on (while rounds goes_on round now) ≡ false)
unfolding while
while_inv Inv bound goes_on round step zero now few inv = absurd (omega arith)
while_inv Inv bound goes_on round step (suc rounds) now few inv =
    ground (arith, step now inv, while_inv Inv bound goes_on round step rounds (round now))
