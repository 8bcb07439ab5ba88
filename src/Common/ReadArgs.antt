-- ===== src/Common/ReadArgs.antt =====
-- common/readargs.go and the types of common/frontend_protocol.go that it uses: which bucket the
-- request vectors of a read ask for. The encryption is left out.
pub mod Bucket
use talek.Base.{
  ℕ, zero, suc, ◌+◌, ◌*◌, ◌/◌, ◌%◌, ◌^◌, bit_and, bit_xor, Bool, not, Option, none, some, List, [],
  ◌∷◌, ℤ, pos, negsuc, length, get_elem?, replicate, Outcome, ◌>>=◌, or_panic, bad_length, ok, err,
  ◌==◌, if◌then◌else◌,
}

pub record PirArgs : Type 0 where
  pub request_vector : List ℕ
  pub pad_seed : List ℕ

-- The loop over `j` in `Bucket`, at place `j` of `finalvec`.
unfoldable pub add_vector : List ℕ → List ℕ → ℕ → Outcome (List ℕ)
add_vector [] vec j = ok []
add_vector (x ∷ xs) vec j = do
  y ← or_panic (get_elem? vec j)
  rest ← add_vector xs vec (j + 1)
  ok (bit_xor x y ∷ rest)

-- The loop over `i` in `Bucket`.
unfoldable pub add_all : List ℕ → List PirArgs → Outcome (List ℕ)
unfolding add_vector
add_all finalvec [] = ok finalvec
add_all finalvec (t ∷ ts) = add_vector finalvec t.request_vector 0 >>= λ v. add_all v ts

-- `finalvec[i/8]&(1<<uint(i%8)) != 0`
unfoldable pub has_bit : List ℕ → ℕ → Outcome Bool
has_bit finalvec i =
    or_panic (get_elem? finalvec (i / 8)) >>= λ byte. ok (not (bit_and byte (2 ^ (i % 8)) == 0))

-- The search for the only bit, with `left` places to go from `i`; none stands for a `bit` of -1.
unfoldable pub find_bit : List ℕ → ℕ → ℕ → Option ℕ → Outcome ℤ
unfolding has_bit
find_bit finalvec zero i bit = ok (elim bit [ none ↦ negsuc 0 | some b ↦ pos b ])
find_bit finalvec (suc left) i bit = has_bit finalvec i >>= λ found.
    let rest = find_bit finalvec left (i + 1) (if found then some i else bit) in
    if found then elim bit [ none ↦ rest | some _ ↦ ok (negsuc 0) ] else rest

-- `Bucket`
unfoldable pub bucket_index : List PirArgs → Outcome ℤ
unfolding add_all find_bit
bucket_index td = do
  first ← or_panic (get_elem? td 0)
  finalvec ← add_all (replicate (length first.request_vector) 0) td
  find_bit finalvec (8 * length finalvec) 0 none

-- `ReadReply.Combine`: the data after it.
unfoldable pub combine : List ℕ → List ℕ → Outcome (List ℕ)
unfolding add_vector
combine contents other =
    if not (length contents == length other) then err bad_length else add_vector contents other 0
