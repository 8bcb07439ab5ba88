-- ===== src/Base/Results.antt =====
-- What a Go call ends in: a value, an error value, or a panic.
use Prim.Native.Nat.{ℕ, ◌%◌}
use mathlib.Core.Path.{◌≡◌, ap}
use mathlib.Core.Bool.{Bool, true, false}
use mathlib.Core.Option.{Option, none, some}
use talek.Base.Tests.{◌==◌, if◌then◌else◌}

-- The error values and messages of the modelled packages.
pub data Error : Type 0 where
  not_multiple bad_version : Error
  unknown_backing bad_sizing unconfigured no_db not_configured wrong_mask_length : Error
  few_servers bad_bucket rand_failed no_responses malformed_response : Error
  bad_seed bad_length : Error
  bad_snapshot no_shards bad_shard : Error
  bad_handle bad_ciphertext bad_signature bad_decrypt : Error
  too_long not_in_table bad_batch replica_failed : Error
  -- The fuel of a model's loop ran out: no error of the code.
  no_fuel : Error

pub data Outcome {ℓ} (A : Type ℓ) : Type ℓ where
  ok : A → Outcome A
  err : Error → Outcome A
  panic : Outcome A

infixl 5 ◌>>=◌ ◌>>◌
abbrev pub ◌>>=◌ {ℓ κ} : {A : Type ℓ} {B : Type κ} → Outcome A → (A → Outcome B) → Outcome B
ok a >>= f = f a
err e >>= f = err e
panic >>= f = panic

abbrev pub ◌>>◌ {ℓ} : {B : Type ℓ} → Outcome (Unit {0}) → Outcome B → Outcome B
m >> k = m >>= λ _. k

-- `if !b { return e }`
abbrev pub guard : Bool → Error → Outcome (Unit {0})
guard true e = ok tt
guard false e = err e

-- An index expression, which panics out of range.
abbrev pub or_panic {ℓ} : {A : Type ℓ} → Option A → Outcome A
or_panic none = panic
or_panic (some a) = ok a

pub ok_injective {ℓ} : {A : Type ℓ} {a b : A} → ok a ≡ ok b → a ≡ b
ok_injective {a} {b} h = ap (λ m. elim m [ ok x ↦ x | err _ ↦ a | panic ↦ a ]) h

pub panic-ne-ok {ℓ} : {A : Type ℓ} (a : A) → ¬ (panic ≡ ok a)
panic-ne-ok a h = cc

-- `n % m`, which panics for `m = 0`
unfoldable pub remainder : ℕ → ℕ → Outcome ℕ
remainder n m = if m == 0 then panic else ok (n % m)
