-- ===== src/Base/Copies.antt =====
-- Copies into a list that is longer or shorter, and parts of parts.
use Prim.Native.Nat.add
use Prim.Native.Nat.{ℕ, zero, suc, ◌+◌, ◌-◌, ◌≤◌}
use mathlib.Core.Path.{◌≡◌, refl, ap, ◌∙◌}
use mathlib.Core.List.{List, [], ◌∷◌, ◌++◌}
use native.Mathlib.Omega.{arith}
use talek.Base.Lists.{length, take, drop, copy, copy_at, replicate}

module _ {ℓ} {A : Type ℓ} where
  pub copy-nil : (xs : List A) → copy xs [] ≡ xs
  copy-nil [] = refl
  copy-nil (x ∷ xs) = refl

  pub copy_short : (xs ys : List A) → length ys ≤ length xs → copy xs ys ≡ ys ++ drop (length ys) xs
  copy_short [] [] h = refl
  copy_short [] (y ∷ ys) h = absurd (omega arith)
  copy_short (x ∷ xs) [] h = refl
  copy_short (x ∷ xs) (y ∷ ys) h = ap (λ zs. y ∷ zs) (copy_short xs ys (omega arith))

  pub copy_long : (xs ys : List A) → length xs ≤ length ys → copy xs ys ≡ take (length xs) ys
  copy_long [] ys h = refl
  copy_long (x ∷ xs) [] h = absurd (omega arith)
  copy_long (x ∷ xs) (y ∷ ys) h = ap (λ zs. y ∷ zs) (copy_long xs ys (omega arith))

  pub copy_at-prefix : (xs ys ws : List A) → copy_at (length xs) (xs ++ ys) ws ≡ xs ++ copy ys ws
  copy_at-prefix [] ys ws = refl
  copy_at-prefix (x ∷ xs) ys ws = ap (λ zs. x ∷ zs) (copy_at-prefix xs ys ws)

  pub drop-copy_at_same : (n : ℕ) (xs ys : List A) → drop n (copy_at n xs ys) ≡ copy (drop n xs) ys
  drop-copy_at_same zero xs ys = refl
  drop-copy_at_same (suc n) [] ys = refl
  drop-copy_at_same (suc n) (x ∷ xs) ys = drop-copy_at_same n xs ys

  pub take-add : (m n : ℕ) (xs : List A) → take m xs ++ take n (drop m xs) ≡ take (m + n) xs
  take-add zero n xs = rw add.zero
  take-add (suc m) zero [] = rw add.suc
  take-add (suc m) (suc n) [] = rw add.suc
  take-add (suc m) n (x ∷ xs) = rw add.suc (ap (λ zs. x ∷ zs) (take-add m n xs))

  pub drop-replicate : (m n : ℕ) (x : A) → drop m (replicate n x) ≡ replicate (n - m) x
  drop-replicate zero n x = ap (λ k. replicate k x) (omega arith)
  drop-replicate (suc m) zero x = ap (λ (k : ℕ). replicate k x) {x = 0} (omega arith)
  drop-replicate (suc m) (suc n) x = drop-replicate m n x ∙ ap (λ k. replicate k x) (omega arith)
