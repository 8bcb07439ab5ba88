-- ===== src/Libtalek/Message/Sizes.antt =====
-- The fragments that Split makes have the size that it is asked for.
use talek.Base.{
  ℕ, zero, suc, ◌-◌, ◌/◌, ◌%◌, ◌^◌, min, ◌≡◌, ◌∙◌, subst, Bool, true, false, List, [], ◌∷◌, ◌++◌,
  All, le_bytes, length, set, drop, replicate, copy_at, length-set, length-replicate,
  length-copy_at, Ensures, Ensures-bind, Ensures-if, All-append, Outcome, ◌>>=◌, ok, panic, ltb,
  ◌==◌, if◌then◌else◌,
}
use talek.Libtalek.Message.{
  FragmentHeader, new_message, new_fragment, to_bytes, split_parts, num_parts, split_negative,
  split,
}
use talek.Libtalek.Message.Delivery.{split_all}

abbrev pub HasLength : ℕ → List ℕ → Type 0
HasLength n s = length s ≡ n

to_bytes-Ensures :
    (f : FragmentHeader) (buf : List ℕ) → Ensures (to_bytes f buf) (HasLength (length buf))
unfolding to_bytes
to_bytes-Ensures f buf =
    Ensures-if (ltb (length buf) 5) panic (ok (copy_at 1 (set buf 0 f.flag) (le_bytes 4 f.left)))
      (HasLength (length buf)) tt
      (length-copy_at 1 (set buf 0 f.flag) (le_bytes 4 f.left) ∙ length-set buf 0 f.flag)

split_parts-Ensures :
    (c : List ℕ) (size count : ℕ) (first : Bool) (left : ℕ)
    → Ensures (split_parts c size count first left) (All (HasLength size))
unfolding split_parts
split_parts-Ensures c size zero first left = tt
split_parts-Ensures c size (suc count) first left =
    Ensures-bind (to_bytes (new_fragment first (left % 2 ^ 32)) (replicate size 0))
      (λ part. split_parts c size count false sent >>= λ parts. ok (copy_at 5 part rest ∷ parts))
      (HasLength (length (replicate {A = ℕ} size 0))) (All (HasLength size))
      (to_bytes-Ensures (new_fragment first (left % 2 ^ 32)) (replicate size 0))
      (λ part long.
        Ensures-bind (split_parts c size count false sent)
          (λ parts. ok (copy_at 5 part rest ∷ parts)) (All (HasLength size)) (All (HasLength size))
          (split_parts-Ensures c size count false sent)
          (λ parts longs.
            (length-copy_at 5 part rest ∙ long ∙ length-replicate {A = ℕ} size 0, longs)))
  where
    rest : List ℕ
    rest = drop (length c - left) c

    sent : ℕ
    sent = left - min (size - 5) (length rest)

split-Ensures :
    (c : List ℕ) (size : ℕ) → Ensures (split (new_message c) size) (All (HasLength size))
unfolding split new_message split_negative
split-Ensures c size = Ensures-if (size == 5) panic more (All (HasLength size)) tt (
    Ensures-if (ltb size 5) none_made made (All (HasLength size))
      (Ensures-if few (ok []) panic (All (HasLength size)) tt tt)
      (split_parts-Ensures c size (num_parts (length c) (size - 5)) true (length c)))
  where
    made : Outcome (List (List ℕ))
    made = split_parts c size (num_parts (length c) (size - 5)) true (length c)

    few : Bool
    few =
        if length c % (5 - size) == 0
        then length c / (5 - size) == 0
        else length c / (5 - size) == 1

    none_made : Outcome (List (List ℕ))
    none_made = if few then ok [] else panic

    more : Outcome (List (List ℕ))
    more = if ltb size 5 then none_made else made

split_all-Ensures :
    (size : ℕ) (cs : List (List ℕ)) → Ensures (split_all size cs) (All (HasLength size))
unfolding split_all
split_all-Ensures size [] = tt
split_all-Ensures size (c ∷ cs) =
    Ensures-bind (split (new_message c) size)
      (λ now. split_all size cs >>= λ later. ok (now ++ later)) (All (HasLength size))
      (All (HasLength size)) (split-Ensures c size)
      (λ now sizes.
        Ensures-bind (split_all size cs) (λ later. ok (now ++ later)) (All (HasLength size))
          (All (HasLength size)) (split_all-Ensures size cs)
          (λ later sizes'. All-append (HasLength size) now later sizes sizes'))

-- The size of every fragment.
pub split_all-HasLength :
    (size : ℕ) (cs parts : List (List ℕ))
    → split_all size cs ≡ ok parts
    → All (HasLength size) parts
split_all-HasLength size cs parts run =
    subst (λ m. Ensures m (All (HasLength size))) run (split_all-Ensures size cs)
