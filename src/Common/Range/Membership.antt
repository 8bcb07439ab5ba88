-- ===== src/Common/Range/Membership.antt =====
-- Equality of ranges, and the numbers that a range contains.
use talek.Base.{
  ℕ, ◌+◌, ◌≤◌, ◌<◌, ◌≡◌, refl, sym, ap, ap₂, ◌∙◌, ◌≢◌, ◌↔◌, ◌⊎◌, inl, inr, true, false, List, [],
  ◌∷◌, arith, dec_le, dec_lt, ℕ_discrete, length, get_or, drop, get_elem?-get_or, Returns,
  drop-cons, drop_all, head_tail, ◌==◌, lt→ltb, ltb-eq-false, ==_iff, Bool-cases, le→leb,
  leb-eq-false,
}
use talek.Common.Range.{Range, same_aborted, equals, is_aborted, contains}

-- The number is one of the list.
abbrev pub Among : ℕ → List ℕ → Type 0
Among v [] = ⊥
Among v (x ∷ xs) = (v ≡ x) ⊎ Among v xs

is_aborted_iff : (xs : List ℕ) (v : ℕ) → (is_aborted xs v ≡ true) ↔ Among v xs
unfolding is_aborted
is_aborted_iff [] v = ((λ h. cc), λ h. absurd h)
is_aborted_iff (x ∷ xs) v = elim (ℕ_discrete v x) [
  | yes e ↦ ((λ _. inl e), λ _. rw ((==_iff v x).1 e))
  | no ne ↦ (
    (λ h. inr ((is_aborted_iff xs v).0 (rw (differ ne) at h))),
    λ h. elim h [
      | inl e ↦ absurd (ne e)
      | inr later ↦ rw (differ ne) ((is_aborted_iff xs v).1 later)
    ],
  )
]
  where
    differ : v ≢ x → (v == x) ≡ false
    differ ne = ground arith

-- A range contains a number exactly when the number is between its start and its end, the end
-- excluded, and is not among its aborted numbers.
pub contains_iff :
    (r : Range) (v : ℕ)
    → (contains r v ≡ true) ↔ ((r.start ≤ v) × (v < r.until) × ¬ (Among v r.aborted))
unfolding contains
contains_iff r v = elim (dec_lt v r.start) [
  | yes early ↦
      rw (lt→ltb v r.start early) ((λ h. absurd (clash h)), λ h. absurd (omega (arith, h.0)))
  | no started ↦ elim (dec_le r.until v) [
    | yes late ↦
        rw (ltb-eq-false v r.start (omega arith), le→leb r.until v late)
          ((λ h. absurd (clash h)), λ h. absurd (omega (arith, h.1)))
    | no within ↦
        rw (ltb-eq-false v r.start (omega arith), leb-eq-false r.until v (omega arith))
          (elim (Bool-cases (is_aborted r.aborted v)) [
            | inl e ↦
                rw e ((λ h. absurd (clash h)), λ h. absurd (h.2 ((is_aborted_iff r.aborted v).0 e)))
            | inr e ↦ rw e (
              (λ _. (
                omega arith,
                omega arith,
                λ m. clash (sym e ∙ (is_aborted_iff r.aborted v).1 m),
              )),
              λ _. refl,
            )
          ])
  ]
]
  where
    clash : false ≡ true → ⊥
    clash h = cc

same_aborted_lem :
    (xs ys : List ℕ) (i : ℕ)
    → i + length xs ≡ length ys
    → Returns (same_aborted xs ys i) (λ same. (same ≡ true) ↔ (xs ≡ drop i ys))
unfolding same_aborted
same_aborted_lem [] ys i h = (true, refl, ((λ _. sym (drop_all i ys (omega arith))), λ _. refl))
same_aborted_lem (x ∷ xs) ys i h =
    let y = get_or ys i 0 in
    let (r, run, same) = same_aborted_lem xs ys (i + 1) (omega arith) in
    rw (get_elem?-get_or ys i 0 (omega arith), drop-cons ys i (omega arith))
      (elim (Bool-cases (x == y)) [
        | inl e ↦ (
          r,
          rw e run,
          ((λ t. ap₂ (λ z zs. z ∷ zs) ((==_iff x y).0 e) (same.0 t)), λ t. same.1 (head_tail t).1),
        )
        | inr e ↦ (false, rw e, ((λ t. cc), λ t. absurd (differ (head_tail t).0 e)))
      ])
  where
    differ : {y : ℕ} → x ≡ y → (x == y) ≡ false → ⊥
    differ e f = ground arith

-- Equals of two ranges returns normally, and true exactly when they are the same.
pub equals_iff : (r b : Range) → Returns (equals r b) (λ same. (same ≡ true) ↔ (r ≡ b))
unfolding equals
equals_iff r b = elim (ℕ_discrete r.start b.start) [
  | no ne ↦ (false, rw (differ ne), ((λ h. cc), λ h. absurd (ne (ap (λ q. q.start) h))))
  | yes e ↦ rw ((==_iff r.start b.start).1 e) (elim (ℕ_discrete r.until b.until) [
    | no ne ↦ (false, rw (differ ne), ((λ h. cc), λ h. absurd (ne (ap (λ q. q.until) h))))
    | yes e' ↦
        rw ((==_iff r.until b.until).1 e')
          (elim (ℕ_discrete (length r.aborted) (length b.aborted)) [
            | no ne ↦ (
              false,
              rw (differ ne),
              ((λ h. cc), λ h. absurd (ne (ap (λ q. length q.aborted) h))),
            )
            | yes e'' ↦
                let (same, run, iff) = same_aborted_lem r.aborted b.aborted 0 (omega arith) in
                rw ((==_iff (length r.aborted) (length b.aborted)).1 e'')
                  (same, run, ((λ t. fields e e' (iff.0 t)), λ h. iff.1 (ap (λ q. q.aborted) h)))
          ])
  ])
]
  where
    differ : {n m : ℕ} → n ≢ m → (n == m) ≡ false
    differ ne = ground arith

    fields : r.start ≡ b.start → r.until ≡ b.until → r.aborted ≡ b.aborted → r ≡ b
    fields e e' e'' =
        ap₂ (λ (n m : ℕ). let q : Range = record r { start = n; until = m } in q) e e'
        ∙ ap (λ (l : List ℕ). let q : Range = record b { aborted = l } in q) e''
