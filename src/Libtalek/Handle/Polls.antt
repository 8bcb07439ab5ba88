-- ===== src/Libtalek/Handle/Polls.antt =====
-- What a poll asks each trust domain for.
use talek.Base.{
  ℕ, suc, ◌+◌, ◌%◌, ◌^◌, ◌≤◌, ◌<◌, ◌≡◌, refl, sym, ap, ap₂, ◌∙◌, Bool, false, Option, some, List,
  [], ◌∷◌, ◌++◌, append_assoc, arith, All, xor_all, HasBytes, pos, length, get_elem?, take, drop,
  replicate, length-append, length-replicate, slice?-eq-some, Returns, remainder, ok, ◌==◌, uvarint,
  put_uvarint-Returns,
}
use native.Mathlib.Nat.{mod-lt}
use talek.Drbg.Seed.{seed_length, key_uint128}
use talek.Pir.Client.{num_bytes}
use talek.Pir.Client.Vectors.{Fills, unit_vector, generate_request_vectors_lem}
use talek.Common.ReadArgs.{PirArgs, bucket_index}
use talek.Common.ReadArgs.Bucket.{vectors, bucket_index-generate_request_vectors}
use talek.Libtalek.Handle.{
  Primitives, Handle, seqno_bytes, bucket_from, next_buckets, fill_args, make_read_arg,
  generate_poll,
}

-- The seeds for the pads are read whole.
abbrev pub FillsSeeds : (ℕ → ℕ → Option (List ℕ)) → Type 0
FillsSeeds reader =
    (i : ℕ) → (v : List ℕ) × (reader i seed_length ≡ some v) × (length v ≡ seed_length)

abbrev pub HasWholeSeed : PirArgs → Type 0
HasWholeSeed a = length a.pad_seed ≡ seed_length

-- Arguments for `num` trust domains that ask for a bucket together.
pub record Asks (num num_buckets bucket : ℕ) (td : List PirArgs) : Type 0 where
  pub one_each : length td ≡ num
  pub seeds : All HasWholeSeed td
  pub same_size : All (HasBytes (num_bytes num_buckets)) (vectors td)
  pub together :
      xor_all (num_bytes num_buckets) (vectors td) ≡ unit_vector (num_bytes num_buckets) bucket
  pub found : bucket_index td ≡ ok (pos bucket)

fill_args_lem :
    (reader : ℕ → ℕ → Option (List ℕ)) (i : ℕ) (before after : List (List ℕ))
    → FillsSeeds reader
    → length before ≡ i
    → Returns
        (fill_args reader (length after) i (before ++ after))
        (λ r. (td : List PirArgs) × (r ≡ some td) × (vectors td ≡ after) × All HasWholeSeed td)
unfolding fill_args
fill_args_lem reader i before [] fills at = (some [], refl, ([], refl, refl, tt))
fill_args_lem reader i before (v ∷ after) fills at =
    let (seed, drawn, long) = fills i in
    let (r, run, (td, some_td, same, seeds)) =
      fill_args_lem reader (i + 1) (before ++ v ∷ []) after fills
        (omega (arith, length-append before (v ∷ []), at)) in
    let shape : (before ++ v ∷ []) ++ after ≡ before ++ v ∷ after =
      append_assoc before (v ∷ []) after in
    let args : PirArgs = record { request_vector = v; pad_seed = seed } in
    (
      some (args ∷ td),
      rw (nth, drawn, ← shape, run, some_td) refl,
      (args ∷ td, refl, ap (λ t. v ∷ t) same, (omega (arith, long), seeds)),
    )
  where
    get_elem?-middle : (xs : List (List ℕ)) → get_elem? (xs ++ v ∷ after) (length xs) ≡ some v
    get_elem?-middle [] = refl
    get_elem?-middle (x ∷ xs) = get_elem?-middle xs

    nth : get_elem? (before ++ v ∷ after) i ≡ some v
    nth = ap (get_elem? (before ++ v ∷ after)) (sym at) ∙ get_elem?-middle before

length-vectors : (td : List PirArgs) → length (vectors td) ≡ length td
length-vectors [] = refl
length-vectors (t ∷ td) = ap suc (length-vectors td)

module _ (u : Bool) where
  pub make_read_arg-Asks :
      (rand reader : ℕ → ℕ → Option (List ℕ)) (num num_buckets bucket : ℕ)
      → Fills rand
      → FillsSeeds reader
      → 2 ≤ num
      → bucket < num_buckets
      → Returns
          (make_read_arg u rand reader num num_buckets bucket)
          (λ r. (td : List PirArgs) × (r ≡ some td) × Asks num num_buckets bucket td)
  unfolding make_read_arg
  make_read_arg-Asks rand reader num num_buckets bucket fills seeds enough inside =
      let (vecs, run, (count, all_bytes, total)) =
        generate_request_vectors_lem u rand fills bucket num num_buckets enough inside in
      let (r, run', (td, some_td, same, all_seeds)) = fill_args_lem reader 0 [] vecs seeds refl in
      (
        r,
        rw (run, make_read_arg) (ap (λ k. fill_args reader k 0 vecs) (sym count) ∙ run'),
        (
          td,
          some_td,
          record {
            one_each = sym (length-vectors td) ∙ ap length same ∙ count;
            seeds = all_seeds;
            same_size = rw same all_bytes;
            together = rw same total;
            found =
                bucket_index-generate_request_vectors u rand bucket num num_buckets td fills enough
                  inside (run ∙ ap ok (sym same));
          },
        ),
      )

pub seqno_bytes-Returns : (n : ℕ) → n < 2 ^ 64 → Returns (seqno_bytes n) (λ b. length b ≡ 24)
unfolding seqno_bytes
seqno_bytes-Returns n small =
    let (b, run, long) = put_uvarint-Returns (replicate 24 0) n (omega arith) (omega arith) in
    (b, run, long ∙ length-replicate {A = ℕ} 24 0)

module _ (c : Primitives) (num_buckets : ℕ) (some_buckets : 0 < num_buckets) where
  bucket_from-Returns :
      (seed nonce : List ℕ)
      → 16 ≤ length seed
      → Returns (bucket_from c seed nonce num_buckets) (λ b. b < num_buckets)
  unfolding bucket_from key_uint128 remainder
  bucket_from-Returns seed nonce long =
      let low = uvarint (take 8 (drop 0 seed)) in
      let high = uvarint (take 8 (drop 8 seed)) in
      (
        c.siphash low high nonce % num_buckets,
        rw (slice?-eq-some seed 0 8 (omega arith), slice?-eq-some seed 8 8 (omega arith), divides)
            refl,
        mod-lt (c.siphash low high nonce) some_buckets,
      )
    where
      divides : (num_buckets == 0) ≡ false
      divides = ground arith

  pub next_buckets-Returns :
      (h : Handle)
      → h.seqno < 2 ^ 64
      → 16 ≤ length h.seed1
      → 16 ≤ length h.seed2
      → Returns (next_buckets c h num_buckets) (λ b. (b.0 < num_buckets) × (b.1 < num_buckets))
  unfolding next_buckets
  next_buckets-Returns h small long1 long2 =
      let (nonce, run, _) = seqno_bytes-Returns h.seqno small in
      let (b1, run1, lt1) = bucket_from-Returns h.seed1 nonce long1 in
      let (b2, run2, lt2) = bucket_from-Returns h.seed2 nonce long2 in
      ((b1, b2), rw (run, run1, run2) refl, (lt1, lt2))

-- The two arguments of a poll.
abbrev pub AsksBoth : ℕ → ℕ → ℕ × ℕ → Option (List PirArgs) × Option (List PirArgs) → Type 0
AsksBoth num num_buckets b r =
    (td1 : List PirArgs) × (td2 : List PirArgs) × (r ≡ (some td1, some td2))
    × Asks num num_buckets b.0 td1
    × Asks num num_buckets b.1 td2

generate_poll_run :
    (c : Primitives) (u : Bool) (rand reader : ℕ → ℕ → ℕ → Option (List ℕ)) (h : Handle)
    (secret public_key : List ℕ) (num num_buckets : ℕ) (b : ℕ × ℕ) (r1 r2 : Option (List PirArgs))
    → h.shared_secret ≡ some secret
    → h.signing_public_key ≡ some public_key
    → next_buckets c h num_buckets ≡ ok b
    → make_read_arg u (rand 0) (reader 0) num num_buckets b.0 ≡ ok r1
    → make_read_arg u (rand 1) (reader 1) num num_buckets b.1 ≡ ok r2
    → generate_poll c u rand reader h num num_buckets ≡ ok (r1, r2)
unfolding generate_poll
generate_poll_run c u rand reader h secret public_key num num_buckets b r1 r2 has_secret has_key run
      run1 run2 =
    rw (has_secret, has_key, run, run1, run2) refl

-- For a handle with both keys, a sequence number below 2^64 and seeds of at least 16 bytes, at
-- least two trust domains, some buckets and randomness that is read whole: generatePoll returns
-- normally, for each of the two next buckets, arguments for every trust domain, with a pad seed of
-- 24 bytes each, whose request vectors have one length, add up to the bucket's bit, and are found
-- by Bucket to ask for it.
pub generate_poll-AsksBoth :
    (c : Primitives) (u : Bool) (rand reader : ℕ → ℕ → ℕ → Option (List ℕ)) (h : Handle)
    (secret public_key : List ℕ) (num num_buckets : ℕ)
    → ((k : ℕ) → Fills (rand k))
    → ((k : ℕ) → FillsSeeds (reader k))
    → h.shared_secret ≡ some secret
    → h.signing_public_key ≡ some public_key
    → h.seqno < 2 ^ 64
    → 16 ≤ length h.seed1
    → 16 ≤ length h.seed2
    → 2 ≤ num
    → 0 < num_buckets
    → Returns (next_buckets c h num_buckets) (λ b.
      Returns (generate_poll c u rand reader h num num_buckets) (AsksBoth num num_buckets b))
generate_poll-AsksBoth c u rand reader h secret public_key num num_buckets fills seeds has_secret
      has_key small long1 long2 enough some_buckets =
    let (b, run, (lt1, lt2)) =
      next_buckets-Returns c num_buckets some_buckets h small long1 long2 in
    let (r1, run1, (td1, same1, asks1)) =
      make_read_arg-Asks u (rand 0) (reader 0) num num_buckets b.0 (fills 0) (seeds 0) enough lt1 in
    let (r2, run2, (td2, same2, asks2)) =
      make_read_arg-Asks u (rand 1) (reader 1) num num_buckets b.1 (fills 1) (seeds 1) enough lt2 in
    (
      b,
      run,
      (
        (r1, r2),
        generate_poll_run c u rand reader h secret public_key num num_buckets b r1 r2 has_secret
            has_key run run1 run2,
        (td1, td2, ap₂ (λ x y. (x, y)) same1 same2, asks1, asks2),
      ),
    )
