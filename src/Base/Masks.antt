-- ===== src/Base/Masks.antt =====
-- The test of one bit of a word, and the rest of a list from a place on.
use Prim.Native.Nat.add
use Prim.Native.Nat.{ℕ, zero, suc, ◌+◌, ◌*◌, ◌^◌, ◌≤◌, ◌<◌, bit_and}
use mathlib.Core.Path.{◌≡◌, refl, ◌∙◌, ap}
use mathlib.Core.Bool.{not}
use mathlib.Core.List.{List, [], ◌∷◌}
use native.Mathlib.Nat.{pow-suc}
use native.Mathlib.Omega.{arith}
use talek.Base.Tests.{◌==◌}
use talek.Base.Bits.{bit_of, bit_of-lt, bit_and-pow}
use talek.Base.Lists.{length, drop, get_or}

two_pow-positive : (k : ℕ) → 0 < 2 ^ k
two_pow-positive zero = omega arith
two_pow-positive (suc k) = omega (arith, pow-suc 2 k, two_pow-positive k)

selected : (bit power : ℕ) → bit < 2 → 0 < power → not (bit * power == 0) ≡ (bit == 1)
selected zero power small big = ground arith
selected (suc zero) power small big = ground arith
selected (suc (suc bit)) power small big = absurd (omega arith)

-- `word & (1 << k) != 0`
pub masked-bit_of : (word k : ℕ) → not (bit_and word (2 ^ k) == 0) ≡ (bit_of word k == 1)
masked-bit_of word k =
    ap (λ (n : ℕ). not (n == 0)) (bit_and-pow word k)
    ∙ selected (bit_of word k) (2 ^ k) (bit_of-lt word k) (two_pow-positive k)

pub drop-cons : (xs : List ℕ) (i : ℕ) → i < length xs → drop i xs ≡ get_or xs i 0 ∷ drop (i + 1) xs
drop-cons [] i h = absurd (omega arith)
drop-cons (x ∷ xs) zero h = refl
drop-cons (x ∷ xs) (suc i) h = rw add.suc (drop-cons xs i (omega arith))

pub drop_all : (i : ℕ) (xs : List ℕ) → length xs ≤ i → drop i xs ≡ []
drop_all zero [] h = refl
drop_all (suc i) [] h = refl
drop_all zero (x ∷ xs) h = absurd (omega arith)
drop_all (suc i) (x ∷ xs) h = drop_all i xs (omega arith)

pub head_tail : {x y : ℕ} {xs ys : List ℕ} → (x ∷ xs) ≡ (y ∷ ys) → (x ≡ y) × (xs ≡ ys)
head_tail {x} {y} {xs} {ys} h =
    (ap (λ zs. elim zs [ [] ↦ x | z ∷ _ ↦ z ]) h, ap (λ zs. elim zs [ [] ↦ xs | _ ∷ zs ↦ zs ]) h)
