-- ===== src/Base/Outcome.antt =====
-- Go's (value, error) results. An operation that mutates its receiver returns the new state beside
-- the outcome, since what was written before an error stays written.
use Prim.Native.Nat.{ℕ}
use mathlib.Core.Path.{◌≡◌, refl}
use mathlib.Core.Logic.{◌⊎◌, inl, inr}

-- `fault` is no error value: it is a run-time panic or a fault on unmapped memory.
pub data Error : Type 0 where
  eof unexpected_eof closed not_exist invalid negative_offset marshal unmarshal fault : Error
  log_not_found key_not_found : Error
  out_of_range : ℕ → Error

pub data Result {ℓ} (A : Type ℓ) : Type ℓ where
  ok : A → Result A
  err : Error → Result A

infixl 5 ◌>>=◌ ◌>>◌
abbrev pub ◌>>=◌ {ℓ κ} : {A : Type ℓ} {B : Type κ} → Result A → (A → Result B) → Result B
ok a >>= f = f a
err e >>= f = err e

abbrev pub ◌>>◌ {ℓ κ} : {A : Type ℓ} {B : Type κ} → Result A → Result B → Result B
m >> k = m >>= λ _. k

pub Result-cases {ℓ} :
    {A : Type ℓ} (r : Result A) → ((a : A) × (r ≡ ok a)) ⊎ ((e : Error) × (r ≡ err e))
Result-cases (ok a) = inl (a, refl)
Result-cases (err e) = inr (e, refl)

-- The next step of an operation, from the state that the last one left, unless that failed.
abbrev pub and_then {ℓ κ μ} :
    {S : Type ℓ} {A : Type κ} {B : Type μ} → S × Result A → (A → S → S × Result B) → S × Result B
and_then (s, ok a) f = f a s
and_then (s, err e) f = (s, err e)
