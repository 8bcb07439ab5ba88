-- ===== src/Common/ReadArgs/Bucket.antt =====
-- A server that sees all the vectors of a read recovers the bucket that the client asked for.
use talek.Base.{
  ℕ, zero, suc, ◌+◌, ◌*◌, ◌/◌, ◌%◌, ◌≤◌, ◌<◌, ◌≡◌, refl, sym, ap, ◌∙◌, subst, ◌≢◌, ◌⊎◌, inl, inr,
  Bool, true, false, Option, none, some, List, [], ◌∷◌, map, arith, ℕ_discrete, All, bytes_xor,
  length-bytes_xor, bytes_xor_assoc, zeros-bytes_xor, bytes_xor-zeros, xor_all, HasBytes,
  length-xor_all, pos, length, get_or, drop, replicate, length-replicate, get_elem?-get_or,
  masked-bit_of, drop-cons, ok_injective, bad_length, ok, err, ◌==◌, ==_iff,
}
use talek.Pir.ShardCpu.Answer.{vec_bit}
use talek.Pir.Client.{num_bytes, generate_request_vectors}
use talek.Pir.Client.Vectors.{
  Fills, unit_vector, unit_vector-HasBytes, generate_request_vectors_lem, bucket-lt-num_bytes,
}
use talek.Pir.Client.UnitBits.{vec_bit-unit_vector_self, vec_bit-unit_vector_ne}
use talek.Common.ReadArgs.{PirArgs, add_vector, add_all, has_bit, find_bit, bucket_index, combine}

add_vector-drop :
    (xs vec : List ℕ) (j : ℕ)
    → j + length xs ≡ length vec
    → add_vector xs vec j ≡ ok (bytes_xor xs (drop j vec))
unfolding add_vector bytes_xor
add_vector-drop [] vec j h = refl
add_vector-drop (x ∷ xs) vec j h = rw (
  get_elem?-get_or vec j 0 (omega arith),
  add_vector-drop xs vec (j + 1) (omega arith),
  drop-cons vec j (omega arith),
)

pub add_vector-bytes_xor :
    (xs vec : List ℕ) → length xs ≡ length vec → add_vector xs vec 0 ≡ ok (bytes_xor xs vec)
add_vector-bytes_xor xs vec h = add_vector-drop xs vec 0 (omega arith)

-- Request vectors as the arguments of the trust domains.
abbrev pub vectors : List PirArgs → List (List ℕ)
vectors td = map (λ t. t.request_vector) td

add_all-xor_all :
    (n : ℕ) (finalvec : List ℕ) (td : List PirArgs)
    → length finalvec ≡ n
    → All (HasBytes n) (vectors td)
    → add_all finalvec td ≡ ok (bytes_xor finalvec (xor_all n (vectors td)))
unfolding add_all xor_all
add_all-xor_all n finalvec [] e h = ap ok (sym (bytes_xor-zeros n finalvec (omega arith)))
add_all-xor_all n finalvec (t ∷ ts) e h =
    rw
      (
        add_vector-bytes_xor finalvec t.request_vector (omega (arith, h.0.0)),
        add_all-xor_all n (bytes_xor finalvec t.request_vector) ts
            (omega (arith, length-bytes_xor finalvec t.request_vector, h.0.0)) h.1,
      )
      (ap ok (bytes_xor_assoc finalvec t.request_vector (xor_all n (vectors ts))))

has_bit-vec_bit :
    (vec : List ℕ) (i : ℕ) → i / 8 < length vec → has_bit vec i ≡ ok (vec_bit vec i == 1)
unfolding has_bit
has_bit-vec_bit vec i h =
    rw (get_elem?-get_or vec (i / 8) 0 h, masked-bit_of (get_or vec (i / 8) 0) (i % 8))

module _ (n bucket : ℕ) (inside : bucket / 8 < n) where
  length-unit_vector : length (unit_vector n bucket) ≡ n
  length-unit_vector = (unit_vector-HasBytes n bucket).0

  -- No bit but the bucket's is set.
  clear_elsewhere : (i : ℕ) → i < 8 * n → bucket ≢ i → has_bit (unit_vector n bucket) i ≡ ok false
  clear_elsewhere i h ne =
      has_bit-vec_bit (unit_vector n bucket) i (omega (arith, length-unit_vector))
      ∙ ap (λ b. ok (b == 1)) (vec_bit-unit_vector_ne n bucket i inside ne)

  set_here : has_bit (unit_vector n bucket) bucket ≡ ok true
  set_here =
      has_bit-vec_bit (unit_vector n bucket) bucket (omega (arith, length-unit_vector))
      ∙ ap (λ b. ok (b == 1)) (vec_bit-unit_vector_self n bucket inside)

  -- The rest of the search, after the bit and before it.
  find_bit-after :
      (left i : ℕ)
      → i + left ≡ 8 * n
      → bucket < i
      → find_bit (unit_vector n bucket) left i (some bucket) ≡ ok (pos bucket)
  unfolding find_bit
  find_bit-after zero i e h = refl
  find_bit-after (suc left) i e h =
      rw (clear_elsewhere i (omega arith) (λ same. omega arith))
        (find_bit-after left (i + 1) (omega arith) (omega arith))

  find_bit-before :
      (left i : ℕ)
      → i + left ≡ 8 * n
      → i ≤ bucket
      → find_bit (unit_vector n bucket) left i none ≡ ok (pos bucket)
  unfolding find_bit
  find_bit-before zero i e h = absurd (omega arith)
  find_bit-before (suc left) i e h = elim (ℕ_discrete bucket i) [
    | yes same ↦
        rw (← same, set_here) (find_bit-after left (bucket + 1) (omega arith) (omega arith))
    | no other ↦
        rw (clear_elsewhere i (omega arith) other)
          (find_bit-before left (i + 1) (omega arith) (omega arith))
  ]

-- Bucket, on the request vectors that a client makes for at least two servers and a bucket in range
-- with a rand.Read that fills its buffer, returns that bucket.
pub bucket_index-generate_request_vectors :
    (u : Bool) (rand : ℕ → ℕ → Option (List ℕ)) (bucket num_servers num_buckets : ℕ)
    (td : List PirArgs)
    → Fills rand
    → 2 ≤ num_servers
    → bucket < num_buckets
    → generate_request_vectors u rand bucket num_servers num_buckets ≡ ok (vectors td)
    → bucket_index td ≡ ok (pos bucket)
unfolding bucket_index
bucket_index-generate_request_vectors u rand bucket num_servers num_buckets td fills enough inside
      made =
    let n = num_bytes num_buckets in
    let (vecs, run, (count, all_bytes, total)) =
      generate_request_vectors_lem u rand fills bucket num_servers num_buckets enough inside in
    let same : vecs ≡ vectors td = ok_injective (sym run ∙ made) in
    found td n (omega (arith, ap length same)) (subst (All (HasBytes n)) same all_bytes)
      (ap (xor_all n) (sym same) ∙ total)
      (bucket-lt-num_bytes u rand fills bucket num_buckets inside)
  where
    found :
        (td : List PirArgs) (n : ℕ)
        → 0 < length (vectors td)
        → All (HasBytes n) (vectors td)
        → xor_all n (vectors td) ≡ unit_vector n bucket
        → bucket / 8 < n
        → bucket_index td ≡ ok (pos bucket)
    found [] n h all_bytes total near = absurd (omega arith)
    found (t ∷ ts) n h all_bytes total near =
        let zeros : List ℕ = replicate (length t.request_vector) 0 in
        let added : add_all zeros (t ∷ ts) ≡ ok (unit_vector n bucket) =
          add_all-xor_all n zeros (t ∷ ts)
            (length-replicate {A = ℕ} (length t.request_vector) 0 ∙ all_bytes.0.0) all_bytes
          ∙ ap ok (
              zeros-bytes_xor (length t.request_vector) (xor_all n (vectors (t ∷ ts)))
                (omega (arith, length-xor_all n (vectors (t ∷ ts)) all_bytes, all_bytes.0.0))
              ∙ total) in
        rw (added, length-unit_vector n bucket near)
          (find_bit-before n bucket near (8 * n) 0 (omega arith) (omega arith))

-- Combine adds another server's data to a reply of the same length by exclusive or, byte by byte,
-- and gives an error for any other length.
pub combine-bytes_xor :
    (contents other : List ℕ)
    → ((length contents ≡ length other) × (combine contents other ≡ ok (bytes_xor contents other)))
      ⊎ ((length contents ≢ length other) × (combine contents other ≡ err bad_length))
unfolding combine
combine-bytes_xor contents other = elim (ℕ_discrete (length contents) (length other)) [
  | yes e ↦ inl (
    e,
    rw ((==_iff (length contents) (length other)).1 e) (add_vector-bytes_xor contents other e),
  )
  | no ne ↦ inr (ne, rw (differ ne))
]
  where
    differ : length contents ≢ length other → (length contents == length other) ≡ false
    differ ne = ground arith
