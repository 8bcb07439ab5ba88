-- ===== src/Libtalek/Client/Polling/Membership.antt =====
-- Done takes one handle out of those that are polled, and no other.
use talek.Base.{
  ℕ, zero, suc, ◌+◌, ◌-◌, ◌<◌, ◌≡◌, refl, ap, ◌∙◌, inl, inr, Bool, true, false, Option, none, some,
  List, [], ◌∷◌, ◌++◌, arith, length, get_or, set, take, length-set, ◌==◌, ==_iff, Bool-cases,
  to_nat,
}
use talek.Libtalek.Client.{Client}
use talek.Libtalek.Client.Polling.{place_of, remove_at, done_polling}

-- How often `k` is among the handles.
unfoldable pub count : ℕ → List ℕ → ℕ
count k [] = 0
count k (h ∷ hs) = to_nat (k == h) + count k hs

pub count_cons : (k h : ℕ) (hs : List ℕ) → count k (h ∷ hs) ≡ to_nat (k == h) + count k hs
unfolding count
count_cons k h hs = refl

pub count-append : (k : ℕ) (xs ys : List ℕ) → count k (xs ++ ys) ≡ count k xs + count k ys
unfolding count
count-append k [] ys = omega arith
count-append k (x ∷ xs) ys = omega (arith, count-append k xs ys)

count-set :
    (k i v : ℕ) (xs : List ℕ)
    → i < length xs
    → count k (set xs i v) + to_nat (k == get_or xs i 0) ≡ count k xs + to_nat (k == v)
unfolding count
count-set k i v [] h = absurd (omega arith)
count-set k zero v (x ∷ xs) h = omega arith
count-set k (suc i) v (x ∷ xs) h = omega (arith, count-set k i v xs (omega arith))

count-take :
    (k n : ℕ) (xs : List ℕ)
    → length xs ≡ suc n
    → count k (take n xs) + to_nat (k == get_or xs n 0) ≡ count k xs
unfolding count
count-take k n [] h = absurd (omega arith)
count-take k zero (x ∷ []) h = omega arith
count-take k zero (x ∷ y ∷ xs) h = absurd (omega arith)
count-take k (suc n) (x ∷ xs) h = omega (arith, count-take k n xs (omega arith))

get_or-set_any : (xs : List ℕ) (i j : ℕ) → get_or (set xs i (get_or xs j 0)) j 0 ≡ get_or xs j 0
get_or-set_any [] i j = refl
get_or-set_any (x ∷ xs) zero zero = refl
get_or-set_any (x ∷ xs) zero (suc j) = refl
get_or-set_any (x ∷ xs) (suc i) zero = refl
get_or-set_any (x ∷ xs) (suc i) (suc j) = get_or-set_any xs i j

remove_at-count :
    (k i : ℕ) (xs : List ℕ)
    → i < length xs
    → count k (remove_at xs i) + to_nat (k == get_or xs i 0) ≡ count k xs
unfolding remove_at
remove_at-count k i xs h =
    let last = get_or xs (length xs - 1) 0 in
    let moved = set xs i last in
    let a = count-set k i last xs h in
    let b = count-take k (length xs - 1) moved (omega (arith, length-set xs i last)) in
    let same : to_nat (k == get_or moved (length xs - 1) 0) ≡ to_nat (k == last) =
      ap (λ n. to_nat (k == n)) (get_or-set_any xs i (length xs - 1)) in
    omega (arith, a, b, same)

-- Where `Done` finds the handle, from place `i` on.
data Place (handles : List ℕ) (h i : ℕ) : Option ℕ → Type 0 where
  absent : count h handles ≡ 0 → Place handles h i none
  found :
      (j place : ℕ)
      → i + j ≡ place
      → j < length handles
      → get_or handles j 0 ≡ h
      → Place handles h i (some place)

next-Place :
    {handles : List ℕ} {h i : ℕ} {o : Option ℕ} (k : ℕ)
    → (k == h) ≡ false
    → Place handles h (i + 1) o
    → Place (k ∷ handles) h i o
unfolding count
next-Place {handles} {h} k other (absent none_left) =
    absent (omega (arith, none_left, ap to_nat differ))
  where
    differ : (h == k) ≡ false
    differ = ground arith
next-Place k other (found j place e lt own) = found (suc j) place (omega arith) (omega arith) own

place_of-Place : (handles : List ℕ) (h i : ℕ) → Place handles h i (place_of handles h i)
unfolding place_of
place_of-Place [] h i = absent (unfold count in refl)
place_of-Place (k ∷ handles) h i =
    let later = place_of-Place handles h (i + 1) in
    elim (Bool-cases (k == h)) [
      | inl e ↦ rw e (found 0 i (omega arith) (omega arith) ((==_iff k h).0 e))
      | inr e ↦ rw e (next-Place k e later)
    ]

-- What Done does: the handle goes, once, and nothing else does.
pub data IsDone (cl : Client) (h : ℕ) : Client × Bool → Type 0 where
  not_polled : count h cl.handles ≡ 0 → IsDone cl h (cl, false)
  removed :
      (handles : List ℕ)
      → ((k : ℕ) → count k handles + to_nat (k == h) ≡ count k cl.handles)
      → IsDone cl h (record cl { handles = handles }, true)

-- Done either finds that the handle is not polled and changes nothing, or returns true and takes
-- out one occurrence of the handle and nothing else.
pub done_polling-IsDone : (cl : Client) (h : ℕ) → IsDone cl h (done_polling cl h)
unfolding done_polling
done_polling-IsDone cl h = by_place (place_of cl.handles h 0) (place_of-Place cl.handles h 0)
  where
    by_place :
        (o : Option ℕ)
        → Place cl.handles h 0 o
        → IsDone cl h (elim o [
          | none ↦ (cl, false)
          | some i ↦ (record cl { handles = remove_at cl.handles i }, true)
        ])
    by_place none (absent none_left) = not_polled none_left
    by_place (some place) (found j _ e lt own) = removed (remove_at cl.handles place) (λ k.
        rw (← own) (
          ap (λ n. count k (remove_at cl.handles n) + to_nat (k == get_or cl.handles j 0)) {y = j}
            (omega arith)
          ∙ remove_at-count k j cl.handles lt))
