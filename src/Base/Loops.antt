-- ===== src/Base/Loops.antt =====
-- Counted loops whose body may panic or return an error, with their invariant rule.
use Prim.Native.Nat.{ℕ, zero, suc, ◌+◌, ◌≤◌, ◌<◌}
use mathlib.Core.Path.{◌≡◌, refl, subst}
use mathlib.Core.Bool.{Bool, true, false}
use native.Mathlib.Omega.{arith}
use talek.Base.Tests.{if◌then◌else◌}
use talek.Base.Results.{Outcome, ok, err, panic, ◌>>=◌}

-- The run ends normally, in a value that satisfies `P`.
abbrev pub Returns {ℓ κ} : {A : Type ℓ} → Outcome A → (A → Type κ) → Type (ℓ ⊔ κ)
Returns {A} r P = (a : A) × (r ≡ ok a) × P a

-- `for k := i; k < i + n; k++ { s = body(k, s) }`
unfoldable pub for_range {ℓ} : {S : Type ℓ} → ℕ → ℕ → (ℕ → S → Outcome S) → S → Outcome S
for_range zero i body s = ok s
for_range (suc n) i body s = body i s >>= for_range n (i + 1) body

pub for_range_inv {ℓ κ} :
    {S : Type ℓ} (P : ℕ → S → Type κ) (body : ℕ → S → Outcome S) (n i j : ℕ)
    → i + n ≡ j
    → ((k : ℕ) (s : S) → i ≤ k → k < j → P k s → Returns (body k s) (P (k + 1)))
    → (s : S) → P i s
    → Returns (for_range n i body s) (P j)
unfolding for_range
for_range_inv P body zero i j e keep s h = let e' : i ≡ j = omega arith in (s, refl, rw (← e') h)
for_range_inv P body (suc n) i j e keep s h =
    let (s', run, h') = keep i s (omega arith) (omega arith) h in
    let (r, rest, q) =
      for_range_inv P body n (i + 1) j (omega arith) (λ k t lo hi. keep k t (omega arith) hi) s'
        h' in
    (r, rw run rest, q)

pub Returns-bind {ℓ κ μ} :
    {A : Type ℓ} {B : Type ℓ} (m : Outcome A) (f : A → Outcome B) (P : A → Type κ) (Q : B → Type μ)
    → Returns m P
    → ((a : A) → P a → Returns (f a) Q)
    → Returns (m >>= f) Q
Returns-bind m f P Q (a, run, p) k = let (b, run', q) = k a p in (b, rw run run', q)

-- If the call returns normally, its value satisfies `P`.
abbrev pub Ensures {ℓ} : {A : Type ℓ} → Outcome A → (A → Type 0) → Type 0
Ensures (ok a) P = P a
Ensures (err e) P = Unit {0}
Ensures panic P = Unit {0}

pub Ensures-bind {ℓ κ} :
    {A : Type ℓ} {B : Type κ} (m : Outcome A) (f : A → Outcome B) (P : A → Type 0) (Q : B → Type 0)
    → Ensures m P
    → ((a : A) → P a → Ensures (f a) Q)
    → Ensures (m >>= f) Q
Ensures-bind (ok a) f P Q p k = k a p
Ensures-bind (err e) f P Q p k = tt
Ensures-bind panic f P Q p k = tt

pub Ensures-if {ℓ} :
    {A : Type ℓ} (b : Bool) (m n : Outcome A) (P : A → Type 0)
    → Ensures m P
    → Ensures n P
    → Ensures (if b then m else n) P
Ensures-if true m n P p q = p
Ensures-if false m n P p q = q

pub Ensures-ok {ℓ} :
    {A : Type ℓ} (m : Outcome A) (a : A) (P : A → Type 0) → Ensures m P → m ≡ ok a → P a
Ensures-ok m a P h run = subst (λ r. Ensures r P) run h

pub Ensures-any {ℓ} : {A : Type ℓ} (m : Outcome A) → Ensures m (λ _. Unit {0})
Ensures-any (ok a) = tt
Ensures-any (err e) = tt
Ensures-any panic = tt
