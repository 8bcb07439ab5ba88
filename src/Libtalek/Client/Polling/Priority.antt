-- ===== src/Libtalek/Client/Polling/Priority.antt =====
-- prioritizeRequests puts the handles with news first, and keeps the order otherwise.
use talek.Base.{
  ℕ, ◌≡◌, refl, ap, inl, inr, Bool, not, List, [], ◌∷◌, ◌++◌, All, ◌>>=◌, ok, if◌then◌else◌,
  Bool-cases,
}
use talek.Libtalek.Handle.{Primitives, next_interest_vector}
use talek.Libtalek.Client.{Client}
use talek.Libtalek.Client.Polling.{Store, split_handles, prioritize_requests}

-- Those that pass the test, in order.
unfoldable pub filter : (ℕ → Bool) → List ℕ → List ℕ
filter f [] = []
filter f (h ∷ hs) = if f h then h ∷ filter f hs else filter f hs

-- The handle has the interest vector.
abbrev pub HasInterest : Primitives → Store → (ℕ → List ℕ) → ℕ → Type 0
HasInterest c store interest h = next_interest_vector c (store h) ≡ ok (interest h)

split_handles-filter :
    (c : Primitives) (test : List ℕ → Bool) (store : Store) (interest : ℕ → List ℕ) (hs : List ℕ)
    → All (HasInterest c store interest) hs
    → split_handles c test store hs
      ≡ ok (filter (λ h. test (interest h)) hs, filter (λ h. not (test (interest h))) hs)
unfolding split_handles filter
split_handles-filter c test store interest [] h = refl
split_handles-filter c test store interest (k ∷ hs) h = elim (Bool-cases (test (interest k))) [
  | inl e ↦ rw (h.0, split_handles-filter c test store interest hs h.1, e) refl
  | inr e ↦ rw (h.0, split_handles-filter c test store interest hs h.1, e) refl
]

-- The handles whose interest vector passes the test come first, and then the others, both in their
-- order.
pub prioritize_requests-filter :
    (c : Primitives) (test : List ℕ → Bool) (store : Store) (interest : ℕ → List ℕ) (cl : Client)
    → All (HasInterest c store interest) cl.handles
    → prioritize_requests c test store cl
      ≡ ok (record cl {
        handles =
            filter (λ h. test (interest h)) cl.handles
            ++ filter (λ h. not (test (interest h))) cl.handles;
      })
unfolding prioritize_requests
prioritize_requests-filter c test store interest cl h =
    ap (λ m. m >>= λ r. ok (record cl { handles = r.0 ++ r.1 }))
      (split_handles-filter c test store interest cl.handles h)
