-- ===== src/Base/Results.antt =====
-- Calls that may throw: the source's exception classes, without their messages.
use mathlib.Core.Path.{◌≡◌, refl}
use mathlib.Core.Bool.{Bool, true, false}

pub data Error : Type 0 where
  invalid_argument out_of_range overflow_error runtime_error : Error

-- `diverge` is no outcome of the program: a model's fuel ran out.
pub data Result {ℓ} (A : Type ℓ) : Type ℓ where
  ok : A → Result A
  throw : Error → Result A
  diverge : Result A

-- `if (test) throw e;`
abbrev pub throw_if : Bool → Error → Result (Unit {0})
throw_if b e = elim b [ true ↦ throw e | false ↦ ok tt ]

-- The rest of a call, after a part that may throw.
abbrev pub and_then {ℓ κ} : {A : Type ℓ} {B : Type κ} → (A → Result B) → Result A → Result B
and_then rest (ok value) = rest value
and_then rest (throw e) = throw e
and_then rest diverge = diverge

infixl 5 ◌>>◌ ◌>>=◌
abbrev pub ◌>>◌ {ℓ} : {A : Type ℓ} → Result (Unit {0}) → Result A → Result A
test >> rest = and_then (λ passed. rest) test

abbrev pub ◌>>=◌ {ℓ κ} : {A : Type ℓ} {B : Type κ} → Result A → (A → Result B) → Result B
part >>= rest = and_then rest part

-- A guard that was passed, and the rest of the call.
pub throw_if-passed {ℓ} :
    {A : Type ℓ} (b : Bool) (e : Error) {k : Result A} {a : A}
    → (throw_if b e >> k) ≡ ok a
    → (b ≡ false) × (k ≡ ok a)
throw_if-passed true e h = absurd (cc)
throw_if-passed false e h = (refl, h)

-- One `throw_if` alone.
pub throw_if-eq-ok : (b : Bool) (e : Error) → throw_if b e ≡ ok tt → b ≡ false
throw_if-eq-ok true e h = absurd (cc)
throw_if-eq-ok false e h = refl
