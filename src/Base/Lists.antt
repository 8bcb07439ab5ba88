-- ===== src/Base/Lists.antt =====
-- Slices as lists, measured and indexed by native numbers.
use Prim.Native.Nat.{ℕ, zero, suc, ◌+◌, ◌-◌, ◌≤◌, ◌<◌, min}
use mathlib.Core.Path.{◌≡◌, refl, sym, ap, ap₂}
use mathlib.Core.Bool.{true, ◌&&◌}
use mathlib.Core.Logic.{◌≢◌}
use mathlib.Core.List.{List, [], ◌∷◌, ◌++◌, map}
use mathlib.Core.Option.{Option, none, some, some-ne-none, some-injective}
use native.Mathlib.Omega.{arith}
use talek.Base.Tests.{leb, if◌then◌else◌}

module _ {ℓ} {A : Type ℓ} where
  abbrev pub length : List A → ℕ
  length [] = 0
  length (x ∷ xs) = suc (length xs)

  abbrev pub get_elem? : List A → ℕ → Option A
  get_elem? [] i = none
  get_elem? (x ∷ xs) zero = some x
  get_elem? (x ∷ xs) (suc i) = get_elem? xs i

  abbrev pub get_or : List A → ℕ → A → A
  get_or [] i d = d
  get_or (x ∷ xs) zero d = x
  get_or (x ∷ xs) (suc i) d = get_or xs i d

  -- A write out of range changes nothing; the callers test the range first.
  abbrev pub set : List A → ℕ → A → List A
  set [] i v = []
  set (x ∷ xs) zero v = v ∷ xs
  set (x ∷ xs) (suc i) v = x ∷ set xs i v

  abbrev pub take : ℕ → List A → List A
  take zero xs = []
  take (suc n) [] = []
  take (suc n) (x ∷ xs) = x ∷ take n xs

  abbrev pub drop : ℕ → List A → List A
  drop zero xs = xs
  drop (suc n) [] = []
  drop (suc n) (x ∷ xs) = drop n xs

  abbrev pub replicate : ℕ → A → List A
  replicate zero a = []
  replicate (suc n) a = a ∷ replicate n a

  -- `copy(dst, src)`: the shorter of the two is copied.
  abbrev pub copy : List A → List A → List A
  copy [] ys = []
  copy (x ∷ xs) [] = x ∷ xs
  copy (x ∷ xs) (y ∷ ys) = y ∷ copy xs ys

  -- `copy(dst[i:], src)`
  abbrev pub copy_at : ℕ → List A → List A → List A
  copy_at zero xs ys = copy xs ys
  copy_at (suc i) [] ys = []
  copy_at (suc i) (x ∷ xs) ys = x ∷ copy_at i xs ys

  abbrev pub concat : List (List A) → List A
  concat [] = []
  concat (xs ∷ xss) = xs ++ concat xss

  pub length-append : (xs ys : List A) → length (xs ++ ys) ≡ length xs + length ys
  length-append [] ys = omega arith
  length-append (x ∷ xs) ys = omega (arith, length-append xs ys)

  pub length-set : (xs : List A) (i : ℕ) (v : A) → length (set xs i v) ≡ length xs
  length-set [] i v = refl
  length-set (x ∷ xs) zero v = refl
  length-set (x ∷ xs) (suc i) v = ap suc (length-set xs i v)

  pub length-take : (n : ℕ) (xs : List A) → length (take n xs) ≡ min n (length xs)
  length-take zero xs = omega arith
  length-take (suc n) [] = omega arith
  length-take (suc n) (x ∷ xs) = omega (arith, length-take n xs)

  pub length-drop : (n : ℕ) (xs : List A) → length (drop n xs) ≡ length xs - n
  length-drop zero xs = omega arith
  length-drop (suc n) [] = omega arith
  length-drop (suc n) (x ∷ xs) = omega (arith, length-drop n xs)

  pub length-replicate : (n : ℕ) (a : A) → length (replicate n a) ≡ n
  length-replicate zero a = refl
  length-replicate (suc n) a = ap suc (length-replicate n a)

  pub length-copy : (xs ys : List A) → length (copy xs ys) ≡ length xs
  length-copy [] ys = refl
  length-copy (x ∷ xs) [] = refl
  length-copy (x ∷ xs) (y ∷ ys) = ap suc (length-copy xs ys)

  pub length-copy_at : (i : ℕ) (xs ys : List A) → length (copy_at i xs ys) ≡ length xs
  length-copy_at zero xs ys = length-copy xs ys
  length-copy_at (suc i) [] ys = refl
  length-copy_at (suc i) (x ∷ xs) ys = ap suc (length-copy_at i xs ys)

  pub copy-same_length : (xs ys : List A) → length xs ≡ length ys → copy xs ys ≡ ys
  copy-same_length [] [] h = refl
  copy-same_length [] (y ∷ ys) h = absurd (omega arith)
  copy-same_length (x ∷ xs) [] h = absurd (omega arith)
  copy-same_length (x ∷ xs) (y ∷ ys) h = ap (λ zs. y ∷ zs) (copy-same_length xs ys (omega arith))

  pub take-append-drop : (n : ℕ) (xs : List A) → take n xs ++ drop n xs ≡ xs
  take-append-drop zero xs = refl
  take-append-drop (suc n) [] = refl
  take-append-drop (suc n) (x ∷ xs) = ap (λ zs. x ∷ zs) (take-append-drop n xs)

  pub take-length : (xs ys : List A) → take (length xs) (xs ++ ys) ≡ xs
  take-length [] ys = refl
  take-length (x ∷ xs) ys = ap (λ zs. x ∷ zs) (take-length xs ys)

  pub drop-length : (xs ys : List A) → drop (length xs) (xs ++ ys) ≡ ys
  drop-length [] ys = refl
  drop-length (x ∷ xs) ys = drop-length xs ys

  pub take_all : (n : ℕ) (xs : List A) → length xs ≤ n → take n xs ≡ xs
  take_all zero [] h = refl
  take_all zero (x ∷ xs) h = absurd (omega arith)
  take_all (suc n) [] h = refl
  take_all (suc n) (x ∷ xs) h = ap (λ zs. x ∷ zs) (take_all n xs (omega arith))

  pub drop-append-le :
      (n : ℕ) (xs ys : List A) → n ≤ length xs → drop n (xs ++ ys) ≡ drop n xs ++ ys
  drop-append-le zero xs ys h = refl
  drop-append-le (suc n) [] ys h = absurd (omega arith)
  drop-append-le (suc n) (x ∷ xs) ys h = drop-append-le n xs ys (omega arith)

  pub take-append-le : (n : ℕ) (xs ys : List A) → n ≤ length xs → take n (xs ++ ys) ≡ take n xs
  take-append-le zero xs ys h = refl
  take-append-le (suc n) [] ys h = absurd (omega arith)
  take-append-le (suc n) (x ∷ xs) ys h = ap (λ zs. x ∷ zs) (take-append-le n xs ys (omega arith))

  pub copy_at-append :
      (xs ys zs ws : List A)
      → length ys ≡ length ws
      → copy_at (length xs) (xs ++ (ys ++ zs)) ws ≡ xs ++ (ws ++ zs)
  copy_at-append (x ∷ xs) ys zs ws h = ap (λ vs. x ∷ vs) (copy_at-append xs ys zs ws h)
  copy_at-append [] [] zs [] h = copy_nil zs
    where
      copy_nil : (zs : List A) → copy zs [] ≡ zs
      copy_nil [] = refl
      copy_nil (z ∷ zs) = refl
  copy_at-append [] [] zs (w ∷ ws) h = absurd (omega arith)
  copy_at-append [] (y ∷ ys) zs [] h = absurd (omega arith)
  copy_at-append [] (y ∷ ys) zs (w ∷ ws) h =
      ap (λ vs. w ∷ vs) (copy_at-append [] ys zs ws (omega arith))

  pub copy_at_end :
      (xs ys ws : List A) → length ys ≡ length ws → copy_at (length xs) (xs ++ ys) ws ≡ xs ++ ws
  copy_at_end [] ys ws h = copy-same_length ys ws h
  copy_at_end (x ∷ xs) ys ws h = ap (λ vs. x ∷ vs) (copy_at_end xs ys ws h)

  pub get_elem?-get_or :
      (xs : List A) (i : ℕ) (d : A) → i < length xs → get_elem? xs i ≡ some (get_or xs i d)
  get_elem?-get_or [] i d h = absurd (omega arith)
  get_elem?-get_or (x ∷ xs) zero d h = refl
  get_elem?-get_or (x ∷ xs) (suc i) d h = get_elem?-get_or xs i d (omega arith)

  pub get_or-eq_of_get_elem? :
      (xs : List A) (i : ℕ) (d a : A) → get_elem? xs i ≡ some a → get_or xs i d ≡ a
  get_or-eq_of_get_elem? [] i d a h = absurd (some-ne-none a (sym h))
  get_or-eq_of_get_elem? (x ∷ xs) zero d a h = some-injective x a h
  get_or-eq_of_get_elem? (x ∷ xs) (suc i) d a h = get_or-eq_of_get_elem? xs i d a h

  pub get_elem?-eq-none : (xs : List A) (i : ℕ) → length xs ≤ i → get_elem? xs i ≡ none
  get_elem?-eq-none [] i h = refl
  get_elem?-eq-none (x ∷ xs) zero h = absurd (omega arith)
  get_elem?-eq-none (x ∷ xs) (suc i) h = get_elem?-eq-none xs i (omega arith)

  pub get_or-set_self :
      (xs : List A) (i : ℕ) (v d : A) → i < length xs → get_or (set xs i v) i d ≡ v
  get_or-set_self [] i v d h = absurd (omega arith)
  get_or-set_self (x ∷ xs) zero v d h = refl
  get_or-set_self (x ∷ xs) (suc i) v d h = get_or-set_self xs i v d (omega arith)

  pub get_or-set_ne :
      (xs : List A) (i j : ℕ) (v d : A) → i ≢ j → get_or (set xs i v) j d ≡ get_or xs j d
  get_or-set_ne [] i j v d ne = refl
  get_or-set_ne (x ∷ xs) zero zero v d ne = absurd (ne refl)
  get_or-set_ne (x ∷ xs) zero (suc j) v d ne = refl
  get_or-set_ne (x ∷ xs) (suc i) zero v d ne = refl
  get_or-set_ne (x ∷ xs) (suc i) (suc j) v d ne = get_or-set_ne xs i j v d (λ e. ne (ap suc e))

  pub get_or-replicate : (n i : ℕ) (a : A) → get_or (replicate n a) i a ≡ a
  get_or-replicate zero i a = refl
  get_or-replicate (suc n) zero a = refl
  get_or-replicate (suc n) (suc i) a = get_or-replicate n i a

  pub get_or_ext :
      (d : A) (xs ys : List A)
      → length xs ≡ length ys
      → ((i : ℕ) → i < length xs → get_or xs i d ≡ get_or ys i d)
      → xs ≡ ys
  get_or_ext d [] [] e h = refl
  get_or_ext d [] (y ∷ ys) e h = absurd (omega arith)
  get_or_ext d (x ∷ xs) [] e h = absurd (omega arith)
  get_or_ext d (x ∷ xs) (y ∷ ys) e h =
      ap₂ ◌∷◌ (h 0 (omega arith))
        (get_or_ext d xs ys (omega arith) (λ i p. h (suc i) (omega arith)))

  -- `xs[lo:hi]`, or none where Go panics. The capacity of a slice is taken to be its length.
  unfoldable pub slice? : List A → ℕ → ℕ → Option (List A)
  slice? xs lo hi =
      if leb lo hi && leb hi (length xs) then some (take (hi - lo) (drop lo xs)) else none

  pub slice?-eq-some :
      (xs : List A) (lo n : ℕ)
      → lo + n ≤ length xs
      → slice? xs lo (lo + n) ≡ some (take n (drop lo xs))
  unfolding slice?
  slice?-eq-some xs lo n h = let e : lo + n - lo ≡ n = omega arith in rw (fits, e)
    where
      fits : (leb lo (lo + n) && leb (lo + n) (length xs)) ≡ true
      fits = ground arith

  pub slice?-append :
      (xs ys zs : List A) → slice? (xs ++ (ys ++ zs)) (length xs) (length xs + length ys) ≡ some ys
  slice?-append xs ys zs = rw (
    slice?-eq-some (xs ++ (ys ++ zs)) (length xs) (length ys)
        (omega (arith, length-append xs (ys ++ zs), length-append ys zs)),
    drop-length xs (ys ++ zs),
    take-length ys zs,
  )

pub length-map {ℓ κ} :
    {A : Type ℓ} {B : Type κ} (f : A → B) (xs : List A) → length (map f xs) ≡ length xs
length-map f [] = refl
length-map f (x ∷ xs) = ap suc (length-map f xs)

pub get_elem?-lt :
    {A : Type 0} (xs : List A) (j : ℕ) (a : A) → get_elem? xs j ≡ some a → j < length xs
get_elem?-lt [] j a h = absurd (some-ne-none a (sym h))
get_elem?-lt (x ∷ xs) zero a h = omega arith
get_elem?-lt (x ∷ xs) (suc j) a h = omega (arith, get_elem?-lt xs j a h)

pub get_elem?-middle :
    {A : Type 0} (xs : List A) (x : A) (ys : List A) → get_elem? (xs ++ x ∷ ys) (length xs) ≡ some x
get_elem?-middle [] x ys = refl
get_elem?-middle (z ∷ xs) x ys = get_elem?-middle xs x ys

pub get_elem?-other :
    {A : Type 0} (xs : List A) (x x' : A) (ys : List A) (j : ℕ)
    → ¬ (j ≡ length xs)
    → get_elem? (xs ++ x' ∷ ys) j ≡ get_elem? (xs ++ x ∷ ys) j
get_elem?-other [] x x' ys zero other = absurd (other refl)
get_elem?-other [] x x' ys (suc j) other = refl
get_elem?-other (z ∷ xs) x x' ys zero other = refl
get_elem?-other (z ∷ xs) x x' ys (suc j) other =
    get_elem?-other xs x x' ys j (λ e. other (ap suc e))
