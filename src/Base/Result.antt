-- ===== src/Base/Result.antt =====
-- Code that throws returns `Result`; the constructors of `Error` are the classes that it throws.
use mathlib.Core.Path.{◌≡◌, refl}
use mathlib.Core.Bool.{Bool, true, false}
use tetr_d.Base.Tests.{if◌then◌else◌}

-- `RangeError`, `TypeError` and `Error`.
pub data Error : Type 0 where
  plain_error type_error range_error : Error

-- What a call that may throw comes to.
pub data Result {ℓ} (Value : Type ℓ) : Type ℓ where
  err : Error → Result Value
  ok : Value → Result Value

infixl 5 ◌>>=◌
-- A throw skips the rest of the function.
abbrev pub ◌>>=◌ {ℓ κ} :
    {Value : Type ℓ} {Next : Type κ} → Result Value → (Value → Result Next) → Result Next
err thrown >>= rest = err thrown
ok value >>= rest = rest value

infixl 5 ◌>>◌
abbrev pub ◌>>◌ {ℓ} : {Next : Type ℓ} → Result (Unit {0}) → Result Next → Result Next
checked >> rest = checked >>= λ _. rest

-- `if (!test) throw`
abbrev pub guard : Bool → Error → Result (Unit {0})
guard test thrown = if test then ok tt else err thrown

-- A function that returns has got past each of its calls.
pub >>=-eq-ok {ℓ κ} :
    {Value : Type ℓ} {Next : Type κ} (call : Result Value) (rest : Value → Result Next) {end : Next}
    → (call >>= rest) ≡ ok end
    → (value : Value) × (call ≡ ok value) × (rest value ≡ ok end)
>>=-eq-ok (err thrown) rest returned = cc
>>=-eq-ok (ok value) rest returned = (value, refl, returned)

pub guard-eq-ok : (t : Bool) (e : Error) {u : Unit {0}} → guard t e ≡ ok u → t ≡ true
guard-eq-ok true e h = refl
guard-eq-ok false e h = cc

pub ok-injective {ℓ} : {A : Type ℓ} {a b : A} → ok a ≡ ok b → a ≡ b
ok-injective h = cc
