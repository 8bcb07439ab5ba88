-- ===== src/Base/Places.antt =====
-- What stands at an index of a part of a list, and of a list that a part is copied into.
use Prim.Native.Nat.add
use Prim.Native.Nat.{ℕ, zero, suc, ◌+◌, ◌-◌, ◌≤◌, ◌<◌}
use mathlib.Core.Path.{◌≡◌, refl, ap, ◌∙◌}
use mathlib.Core.List.{List, [], ◌∷◌, ◌++◌}
use native.Mathlib.Omega.{arith}
use talek.Base.Lists.{length, get_or, set, take, drop, copy, copy_at, replicate}
use talek.Base.Bytes.{All}

module _ {ℓ} {A : Type ℓ} where
  pub get_or-drop : (n i : ℕ) (xs : List A) (d : A) → get_or (drop n xs) i d ≡ get_or xs (n + i) d
  get_or-drop zero i xs d = rw add.zero
  get_or-drop (suc n) i [] d = refl
  get_or-drop (suc n) i (x ∷ xs) d = rw add.suc (get_or-drop n i xs d)

  pub get_or-take : (n i : ℕ) (xs : List A) (d : A) → i < n → get_or (take n xs) i d ≡ get_or xs i d
  get_or-take zero i xs d h = absurd (omega arith)
  get_or-take (suc n) i [] d h = refl
  get_or-take (suc n) zero (x ∷ xs) d h = refl
  get_or-take (suc n) (suc i) (x ∷ xs) d h = get_or-take n i xs d (omega arith)

  pub get_or-copy :
      (xs ys : List A) (i : ℕ) (d : A)
      → i < length ys
      → length ys ≤ length xs
      → get_or (copy xs ys) i d ≡ get_or ys i d
  get_or-copy xs [] i d h k = absurd (omega arith)
  get_or-copy [] (y ∷ ys) i d h k = absurd (omega arith)
  get_or-copy (x ∷ xs) (y ∷ ys) zero d h k = refl
  get_or-copy (x ∷ xs) (y ∷ ys) (suc i) d h k = get_or-copy xs ys i d (omega arith) (omega arith)

  pub get_or-copy_after :
      (xs ys : List A) (i : ℕ) (d : A) → length ys ≤ i → get_or (copy xs ys) i d ≡ get_or xs i d
  get_or-copy_after [] ys i d h = refl
  get_or-copy_after (x ∷ xs) [] i d h = refl
  get_or-copy_after (x ∷ xs) (y ∷ ys) zero d h = absurd (omega arith)
  get_or-copy_after (x ∷ xs) (y ∷ ys) (suc i) d h = get_or-copy_after xs ys i d (omega arith)

  -- Inside the part that is copied.
  pub get_or-copy_at_inside :
      (n : ℕ) (xs ys : List A) (i : ℕ) (d : A)
      → n ≤ i
      → i < n + length ys
      → n + length ys ≤ length xs
      → get_or (copy_at n xs ys) i d ≡ get_or ys (i - n) d
  get_or-copy_at_inside zero xs ys i d lo hi fits =
      get_or-copy xs ys i d (omega arith) (omega arith) ∙ ap (λ k. get_or ys k d) (omega arith)
  get_or-copy_at_inside (suc n) [] ys i d lo hi fits = absurd (omega arith)
  get_or-copy_at_inside (suc n) (x ∷ xs) ys zero d lo hi fits = absurd (omega arith)
  get_or-copy_at_inside (suc n) (x ∷ xs) ys (suc i) d lo hi fits =
      get_or-copy_at_inside n xs ys i d (omega arith) (omega arith) (omega arith)
      ∙ ap (λ k. get_or ys k d) (omega arith)

  pub get_or-copy_at_before :
      (n : ℕ) (xs ys : List A) (i : ℕ) (d : A)
      → i < n
      → get_or (copy_at n xs ys) i d ≡ get_or xs i d
  get_or-copy_at_before zero xs ys i d h = absurd (omega arith)
  get_or-copy_at_before (suc n) [] ys i d h = refl
  get_or-copy_at_before (suc n) (x ∷ xs) ys zero d h = refl
  get_or-copy_at_before (suc n) (x ∷ xs) ys (suc i) d h =
      get_or-copy_at_before n xs ys i d (omega arith)

  pub get_or-copy_at_after :
      (n : ℕ) (xs ys : List A) (i : ℕ) (d : A)
      → n + length ys ≤ i
      → get_or (copy_at n xs ys) i d ≡ get_or xs i d
  get_or-copy_at_after zero xs ys i d h = get_or-copy_after xs ys i d (omega arith)
  get_or-copy_at_after (suc n) [] ys i d h = refl
  get_or-copy_at_after (suc n) (x ∷ xs) ys zero d h = absurd (omega arith)
  get_or-copy_at_after (suc n) (x ∷ xs) ys (suc i) d h =
      get_or-copy_at_after n xs ys i d (omega arith)

  pub get_or-append_left :
      (xs ys : List A) (i : ℕ) (d : A) → i < length xs → get_or (xs ++ ys) i d ≡ get_or xs i d
  get_or-append_left [] ys i d h = absurd (omega arith)
  get_or-append_left (x ∷ xs) ys zero d h = refl
  get_or-append_left (x ∷ xs) ys (suc i) d h = get_or-append_left xs ys i d (omega arith)

  pub get_or-append_right :
      (xs ys : List A) (i : ℕ) (d : A)
      → length xs ≤ i
      → get_or (xs ++ ys) i d ≡ get_or ys (i - length xs) d
  get_or-append_right [] ys i d h = ap (λ k. get_or ys k d) (omega arith)
  get_or-append_right (x ∷ xs) ys zero d h = absurd (omega arith)
  get_or-append_right (x ∷ xs) ys (suc i) d h =
      get_or-append_right xs ys i d (omega arith) ∙ ap (λ k. get_or ys k d) (omega arith)

  pub take-copy_at : (n m : ℕ) (xs ys : List A) → take n (copy_at (n + m) xs ys) ≡ take n xs
  take-copy_at zero m xs ys = refl
  take-copy_at (suc n) m [] ys = rw add.suc
  take-copy_at (suc n) m (x ∷ xs) ys = rw add.suc (ap (λ zs. x ∷ zs) (take-copy_at n m xs ys))

  pub drop-copy_at :
      (n m : ℕ) (xs ys : List A) → drop n (copy_at (n + m) xs ys) ≡ copy_at m (drop n xs) ys
  drop-copy_at zero m xs ys = rw add.zero
  drop-copy_at (suc n) zero [] ys = rw add.suc
  drop-copy_at (suc n) (suc m) [] ys = rw add.suc
  drop-copy_at (suc n) m (x ∷ xs) ys = rw add.suc (drop-copy_at n m xs ys)

  pub drop-drop : (n m : ℕ) (xs : List A) → drop m (drop n xs) ≡ drop (n + m) xs
  drop-drop zero m xs = rw add.zero
  drop-drop (suc n) zero [] = rw add.suc
  drop-drop (suc n) (suc m) [] = rw add.suc
  drop-drop (suc n) m (x ∷ xs) = rw add.suc (drop-drop n m xs)

  pub take-copy :
      (n : ℕ) (xs ys : List A) → length ys ≡ n → n ≤ length xs → take n (copy xs ys) ≡ ys
  take-copy zero xs [] e h = refl
  take-copy zero xs (y ∷ ys) e h = absurd (omega arith)
  take-copy (suc n) xs [] e h = absurd (omega arith)
  take-copy (suc n) [] (y ∷ ys) e h = absurd (omega arith)
  take-copy (suc n) (x ∷ xs) (y ∷ ys) e h =
      ap (λ zs. y ∷ zs) (take-copy n xs ys (omega arith) (omega arith))

  pub drop-copy : (n : ℕ) (xs ys : List A) → length ys ≡ n → drop n (copy xs ys) ≡ drop n xs
  drop-copy zero [] [] e = refl
  drop-copy zero (x ∷ xs) [] e = refl
  drop-copy zero xs (y ∷ ys) e = absurd (omega arith)
  drop-copy (suc n) xs [] e = absurd (omega arith)
  drop-copy (suc n) [] (y ∷ ys) e = refl
  drop-copy (suc n) (x ∷ xs) (y ∷ ys) e = drop-copy n xs ys (omega arith)

  pub replicate-add : (m n : ℕ) (x : A) → replicate (m + n) x ≡ replicate m x ++ replicate n x
  replicate-add zero n x = rw add.zero
  replicate-add (suc m) n x = rw add.suc (ap (λ zs. x ∷ zs) (replicate-add m n x))

module _ {ℓ κ} {A : Type ℓ} (P : A → Type κ) where
  pub All-take : (n : ℕ) (xs : List A) → All P xs → All P (take n xs)
  All-take zero xs h = tt
  All-take (suc n) [] h = tt
  All-take (suc n) (x ∷ xs) h = (h.0, All-take n xs h.1)

  pub All-drop : (n : ℕ) (xs : List A) → All P xs → All P (drop n xs)
  All-drop zero xs h = h
  All-drop (suc n) [] h = tt
  All-drop (suc n) (x ∷ xs) h = All-drop n xs h.1

  pub All-append : (xs ys : List A) → All P xs → All P ys → All P (xs ++ ys)
  All-append [] ys h h' = h'
  All-append (x ∷ xs) ys h h' = (h.0, All-append xs ys h.1 h')

  pub All-get_or : (xs : List A) (i : ℕ) (d : A) → All P xs → P d → P (get_or xs i d)
  All-get_or [] i d h p = p
  All-get_or (x ∷ xs) zero d h p = h.0
  All-get_or (x ∷ xs) (suc i) d h p = All-get_or xs i d h.1 p

  pub All-set : (xs : List A) (i : ℕ) (v : A) → All P xs → P v → All P (set xs i v)
  All-set [] i v h p = tt
  All-set (x ∷ xs) zero v h p = (p, h.1)
  All-set (x ∷ xs) (suc i) v h p = (h.0, All-set xs i v h.1 p)

  pub All-copy : (xs ys : List A) → All P xs → All P ys → All P (copy xs ys)
  All-copy [] ys h k = tt
  All-copy (x ∷ xs) [] h k = h
  All-copy (x ∷ xs) (y ∷ ys) h k = (k.0, All-copy xs ys h.1 k.1)

  pub All-copy_at : (n : ℕ) (xs ys : List A) → All P xs → All P ys → All P (copy_at n xs ys)
  All-copy_at zero xs ys h k = All-copy xs ys h k
  All-copy_at (suc n) [] ys h k = tt
  All-copy_at (suc n) (x ∷ xs) ys h k = (h.0, All-copy_at n xs ys h.1 k)
