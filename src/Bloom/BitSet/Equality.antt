-- ===== src/Bloom/BitSet/Equality.antt =====
-- Equal of bloom/bitset.go, on sets as NewBitSet makes them.
use talek.Base.{
  ℕ, ◌+◌, ◌≡◌, refl, sym, ap, ap₂, ◌∙◌, ◌↔◌, inl, inr, true, false, some, List, [], ◌∷◌, arith,
  length, get_or, drop, get_elem?-get_or, Returns, drop-cons, drop_all, head_tail, ◌==◌, ==_iff,
  Bool-cases,
}
use talek.Bloom.BitSet.{BitSet, equal, equal_words, words_needed}
use talek.Bloom.BitSet.Bits.{IsValid}

no_words : (xs ys : List ℕ) → length xs ≡ 0 → length ys ≡ 0 → xs ≡ ys
no_words [] [] h k = refl
no_words [] (y ∷ ys) h k = absurd (omega arith)
no_words (x ∷ xs) ys h k = absurd (omega arith)

words_needed-zero : (n : ℕ) → (n == 0) ≡ true → words_needed n ≡ 0
unfolding words_needed
words_needed-zero n h = ap words_needed ((==_iff n 0).0 h)

equal_words_lem :
    (vs ws : List ℕ) (i : ℕ)
    → i + length vs ≡ length ws
    → Returns (equal_words vs ws i) (λ r. (r ≡ true) ↔ (vs ≡ drop i ws))
unfolding equal_words
equal_words_lem [] ws i h = (true, refl, ((λ _. sym (drop_all i ws (omega arith))), λ _. refl))
equal_words_lem (v ∷ vs) ws i h =
    let w = get_or ws i 0 in
    let cons = drop-cons ws i (omega arith) in
    let (r, run, same) = equal_words_lem vs ws (i + 1) (omega arith) in
    rw (get_elem?-get_or ws i 0 (omega arith), cons)
      (elim (Bool-cases (w == v)) [
        | inl e ↦
            let w-v : w ≡ v = (==_iff w v).0 e in
            (
              r,
              rw e run,
              ((λ t. ap₂ (λ z zs. z ∷ zs) (sym w-v) (same.0 t)), λ t. same.1 (head_tail t).1),
            )
        | inr e ↦ (false, rw e, ((λ t. cc), λ t. absurd (differ (head_tail t).0 e)))
      ])
  where
    differ : {w : ℕ} → v ≡ w → (w == v) ≡ false → ⊥
    differ e f = ground arith

-- On two valid bit sets, Equal returns normally, and true exactly when they are the same.
pub equal_iff :
    (a b : BitSet)
    → IsValid a
    → IsValid b
    → Returns (equal (some a) (some b)) (λ r. (r ≡ true) ↔ (a ≡ b))
unfolding equal
equal_iff a b va vb = elim (Bool-cases (a.num_bits == b.num_bits)) [
  | inr e ↦ (false, rw e, ((λ t. cc), λ t. absurd (differ (ap (λ s. s.num_bits) t) e)))
  | inl e ↦
      let same_num_bits : a.num_bits ≡ b.num_bits = (==_iff a.num_bits b.num_bits).0 e in
      let same_length : length a.contents ≡ length b.contents =
        va.sized ∙ ap words_needed same_num_bits ∙ sym vb.sized in
      elim (Bool-cases (a.num_bits == 0)) [
        | inl z ↦ (
          true,
          rw (e, z),
          (
            (λ t.
                let none_left = words_needed-zero a.num_bits z in
                fields same_num_bits (no_words a.contents b.contents (omega arith) (omega arith))),
            λ t. refl,
          ),
        )
        | inr z ↦
            let (r, run, same) = equal_words_lem a.contents b.contents 0 (omega arith) in
            (
              r,
              rw (e, z) run,
              ((λ t. fields same_num_bits (same.0 t)), λ t. same.1 (ap (λ s. s.contents) t)),
            )
      ]
]
  where
    differ : a.num_bits ≡ b.num_bits → (a.num_bits == b.num_bits) ≡ false → ⊥
    differ e f = ground arith

    fields : a.num_bits ≡ b.num_bits → a.contents ≡ b.contents → a ≡ b
    fields e f =
        ap₂ (λ (n : ℕ) (c : List ℕ). let s : BitSet = record { num_bits = n; contents = c } in s) e
          f
