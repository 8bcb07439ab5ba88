-- ===== src/Pir/Client/Vectors.antt =====
-- What the request vectors of a client add up to, and what its combination of responses is.
use talek.Base.{
  ℕ, zero, suc, ◌+◌, ◌-◌, ◌/◌, ◌%◌, ◌^◌, ◌≤◌, ◌<◌, ◌≡◌, refl, sym, ap, ◌∙◌, Bool, Option, some,
  List, [], ◌∷◌, arith, bit_or_zero_left, All, bytes_xor, length-bytes_xor, bytes_xor-IsBytes,
  bytes_xor_assoc, replicate-IsBytes, bytes_xor_left_comm, bytes_xor-zeros, bytes_xor_cancel,
  xor_all, HasBytes, length, set, replicate, length-set, length-replicate, get_elem?-get_or,
  get_or-replicate, Returns, All-set, ok, ltb-eq-false, ==_iff, leb-eq-false,
}
use talek.Pir.Xor.Laws.{bytes_in_place}
use talek.Pir.Client.{
  num_bytes, encode_secret, add_vectors, generate_request_vectors, combine_all, combine_responses,
}

-- `rand.Read` fills the buffer, and does not fail.
abbrev pub Fills : (ℕ → ℕ → Option (List ℕ)) → Type 0
Fills rand = (i n : ℕ) → (v : List ℕ) × (rand i n ≡ some v) × HasBytes n v

-- The vector with bit `bucket` set alone.
unfoldable pub unit_vector : ℕ → ℕ → List ℕ
unit_vector n bucket = set (replicate n 0) (bucket / 8) (2 ^ (bucket % 8))

pow-byte : (k : ℕ) → k < 8 → 2 ^ k < 256
pow-byte zero h = omega arith
pow-byte (suc zero) h = omega arith
pow-byte (suc (suc zero)) h = omega arith
pow-byte (suc (suc (suc zero))) h = omega arith
pow-byte (suc (suc (suc (suc zero)))) h = omega arith
pow-byte (suc (suc (suc (suc (suc zero))))) h = omega arith
pow-byte (suc (suc (suc (suc (suc (suc zero)))))) h = omega arith
pow-byte (suc (suc (suc (suc (suc (suc (suc zero))))))) h = omega arith
pow-byte (suc (suc (suc (suc (suc (suc (suc (suc k)))))))) h = absurd (omega arith)

pub unit_vector-HasBytes : (n bucket : ℕ) → HasBytes n (unit_vector n bucket)
unfolding unit_vector
unit_vector-HasBytes n bucket = (
  length-set (replicate n 0) (bucket / 8) (2 ^ (bucket % 8)) ∙ length-replicate n 0,
  All-set (λ x. x < 256) (replicate n 0) (bucket / 8) (2 ^ (bucket % 8)) (replicate-IsBytes n)
      (pow-byte (bucket % 8) (omega arith)),
)

encode_secret-unit_vector :
    (bucket n : ℕ) → bucket / 8 < n → encode_secret bucket n ≡ ok (unit_vector n bucket)
unfolding encode_secret unit_vector
encode_secret-unit_vector bucket n h = rw (
  get_elem?-get_or {A = ℕ} (replicate n 0) (bucket / 8) 0
      (omega (arith, length-replicate {A = ℕ} n 0)),
  get_or-replicate {A = ℕ} n (bucket / 8) 0,
  bit_or_zero_left (2 ^ (bucket % 8)),
)

module _ (u : Bool) (rand : ℕ → ℕ → Option (List ℕ)) (fills : Fills rand) where
  add_vectors_lem :
      (n left i : ℕ) (first : List ℕ)
      → HasBytes n first
      → Returns (add_vectors u rand n left i first) (λ t.
        HasBytes n t.0
        × All (HasBytes n) t.1
        × (length t.1 ≡ left)
        × (bytes_xor t.0 (xor_all n t.1) ≡ first))
  unfolding add_vectors xor_all
  add_vectors_lem n zero i first h =
      ((first, []), refl, (h, tt, refl, bytes_xor-zeros n first (omega (arith, h.0))))
  add_vectors_lem n (suc left) i first h =
      let (v, drawn, v_bytes) = fills i n in
      let mixed = bytes_xor first v in
      let (t, run, (t_bytes, others, count, total)) = add_vectors_lem n left (i + 1) mixed (
        omega (arith, length-bytes_xor first v, h.0, v_bytes.0),
        bytes_xor-IsBytes first v h.1 v_bytes.1,
      ) in
      (
        (t.0, v ∷ t.1),
        rw (
          drawn,
          add_vectors,
          bytes_in_place first v h.1 v_bytes.1 u (omega (arith, h.0, v_bytes.0)),
          run,
        ),
        (
          t_bytes,
          (v_bytes, others),
          ap suc count,
          bytes_xor_left_comm t.0 v (xor_all n t.1)
              ∙ ap (bytes_xor v) total
              ∙ bytes_xor_cancel first v (omega (arith, h.0, v_bytes.0)),
        ),
      )

  pub bucket-lt-num_bytes :
      (bucket num_buckets : ℕ) → bucket < num_buckets → bucket / 8 < num_bytes num_buckets
  unfolding num_bytes
  bucket-lt-num_bytes bucket num_buckets h = ground arith

  -- For at least two servers, a bucket in range, and a rand.Read that fills its buffer, the request
  -- vectors are one for each server, of the same number of bytes, and their exclusive or is the
  -- vector with the bucket's bit alone.
  pub generate_request_vectors_lem :
      (bucket num_servers num_buckets : ℕ)
      → 2 ≤ num_servers
      → bucket < num_buckets
      → Returns (generate_request_vectors u rand bucket num_servers num_buckets) (λ vecs.
        (length vecs ≡ num_servers)
        × All (HasBytes (num_bytes num_buckets)) vecs
        × (xor_all (num_bytes num_buckets) vecs ≡ unit_vector (num_bytes num_buckets) bucket))
  unfolding generate_request_vectors
  generate_request_vectors_lem bucket num_servers num_buckets enough inside =
      let n = num_bytes num_buckets in
      let (t, run, (first_bytes, others, count, total)) =
        add_vectors_lem n (num_servers - 1) 1 (unit_vector n bucket)
          (unit_vector-HasBytes n bucket) in
      (
        t.0 ∷ t.1,
        rw (
          ltb-eq-false num_servers 2 enough,
          leb-eq-false num_buckets bucket inside,
          encode_secret-unit_vector bucket n (bucket-lt-num_bytes bucket num_buckets inside),
          run,
        ),
        (omega (arith, count), (first_bytes, others), unfold xor_all in total),
      )

combine_all_lem :
    (u : Bool) (n : ℕ) (result : List ℕ) (rs : List (List ℕ))
    → HasBytes n result
    → All (HasBytes n) rs
    → combine_all u n result rs ≡ ok (bytes_xor result (xor_all n rs))
unfolding combine_all xor_all
combine_all_lem u n result [] h hs = ap ok (sym (bytes_xor-zeros n result (omega (arith, h.0))))
combine_all_lem u n result (r ∷ rs) h hs =
    let mixed = bytes_xor result r in
    rw (
      bytes_in_place result r h.1 hs.0.1 u (omega (arith, h.0, hs.0.0)),
      (==_iff (length result) n).1 h.0,
      combine_all_lem u n mixed rs
          (
            omega (arith, length-bytes_xor result r, h.0, hs.0.0),
            bytes_xor-IsBytes result r h.1 hs.0.1,
          )
          hs.1,
      bytes_xor_assoc result r (xor_all n rs),
    )

-- Responses of one length combine to their exclusive or.
pub combine_responses-xor_all :
    (u : Bool) (n : ℕ) (r : List ℕ) (rs : List (List ℕ))
    → All (HasBytes n) (r ∷ rs)
    → combine_responses u (r ∷ rs) ≡ ok (xor_all n (r ∷ rs))
unfolding combine_responses xor_all
combine_responses-xor_all u n r rs h = rw (h.0.0) (combine_all_lem u n r rs h.0 h.1)
