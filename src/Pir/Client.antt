-- ===== src/Pir/Client.antt =====
-- pir/pirclient/client.go: request vectors and the combination of the servers' responses.
-- `rand i n` is the result of the i-th call of `rand.Read` on a buffer of `n` bytes: the bytes
-- that it fills in, or none if it fails.
pub mod Vectors
pub mod UnitBits
use talek.Base.{
  ℕ, zero, suc, ◌+◌, ◌-◌, ◌/◌, ◌%◌, ◌^◌, bit_or, Bool, Option, none, some, List, [], ◌∷◌, length,
  get_elem?, set, replicate, Outcome, ◌>>=◌, or_panic, few_servers, bad_bucket, rand_failed,
  no_responses, malformed_response, ok, err, ltb, leb, ◌==◌, if◌then◌else◌,
}
use talek.Pir.Xor.{bytes}

-- `numBytes`
unfoldable pub num_bytes : ℕ → ℕ
num_bytes num_buckets = if num_buckets % 8 == 0 then num_buckets / 8 else num_buckets / 8 + 1

-- `req[0][bucket/8] |= 1 << (bucket % 8)` on a fresh slice
unfoldable pub encode_secret : ℕ → ℕ → Outcome (List ℕ)
encode_secret bucket n = do
  let vec = replicate n 0
  old ← or_panic (get_elem? vec (bucket / 8))
  ok (set vec (bucket / 8) (bit_or old (2 ^ (bucket % 8))))

module _ (unaligned : Bool) (rand : ℕ → ℕ → Option (List ℕ)) where
  -- The loop over the servers 1 to `numServers - 1`: `first` is `req[0]`.
  unfoldable pub add_vectors : ℕ → ℕ → ℕ → List ℕ → Outcome (List ℕ × List (List ℕ))
  add_vectors n zero i first = ok (first, [])
  add_vectors n (suc left) i first = elim (rand i n) [
    | none ↦ err rand_failed
    | some vec ↦ bytes unaligned first first vec >>= λ r.
        add_vectors n left (i + 1) r.0 >>= λ t. ok (t.0, vec ∷ t.1)
  ]

  unfoldable pub generate_request_vectors : ℕ → ℕ → ℕ → Outcome (List (List ℕ))
  unfolding num_bytes encode_secret add_vectors
  generate_request_vectors bucket num_servers num_buckets =
      if ltb num_servers 2
      then err few_servers
      else if leb num_buckets bucket
      then err bad_bucket
      else do
        let n = num_bytes num_buckets
        secret ← encode_secret bucket n
        (first, others) ← add_vectors n (num_servers - 1) 1 secret
        ok (first ∷ others)

-- The loop of `CombineResponses` over the responses after the first.
unfoldable pub combine_all : Bool → ℕ → List ℕ → List (List ℕ) → Outcome (List ℕ)
combine_all unaligned len result [] = ok result
combine_all unaligned len result (r ∷ rs) = bytes unaligned result result r >>= λ (result', count).
    if count == len then combine_all unaligned len result' rs else err malformed_response

unfoldable pub combine_responses : Bool → List (List ℕ) → Outcome (List ℕ)
unfolding combine_all
combine_responses unaligned [] = err no_responses
combine_responses unaligned (r ∷ rs) = combine_all unaligned (length r) r rs
