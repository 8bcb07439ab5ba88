-- ===== src/Libtalek/Handle.antt =====
-- libtalek/handle.go: the buckets that a handle polls, and what it takes out of the replies. The
-- cryptography of other packages is a parameter, Primitives. Logging is left out, and so are the
-- generator `drbg`, which the code makes but does not use, and the texts of handles. What is sent
-- to the channel `updates` is returned as a list.
pub mod Scan
pub mod Polls
use talek.Base.{
  ℕ, zero, suc, ◌+◌, ◌-◌, ◌%◌, ◌^◌, Bool, false, not, ◌&&◌, ◌||◌, Option, none, some, List, [], ◌∷◌,
  ◌++◌, length, get_elem?, take, drop, replicate, copy, slice?, Outcome, ◌>>=◌, or_panic, remainder,
  bad_handle, bad_ciphertext, bad_signature, bad_decrypt, no_fuel, ok, err, panic, ltb, leb, ◌==◌,
  if◌then◌else◌, put_uvarint,
}
use talek.Drbg.Seed.{seed_length, key_uint128, equal_bytes}
use talek.Drbg.HashDrbg.{overlay}
use talek.Pir.Client.{generate_request_vectors}
use talek.Common.ReadArgs.{PirArgs}
use talek.Libtalek.Message.{Message, no_message, receive}

-- `siphash.Hash` on two halves of a key, `siphash.New` with `Sum`, `sha256`, and for nacl/box and
-- ed25519 `SealAfterPrecomputation`, `OpenAfterPrecomputation`, `Sign` and `Verify`. The first
-- arguments are the keys, and the second of seal and unseal is the nonce.
pub record Primitives : Type 0 where
  pub siphash : ℕ → ℕ → List ℕ → ℕ
  pub sip : List ℕ → List ℕ → List ℕ
  pub sha256 : List ℕ → List ℕ
  pub seal : List ℕ → List ℕ → List ℕ → List ℕ
  pub unseal : List ℕ → List ℕ → List ℕ → Option (List ℕ)
  pub sign : List ℕ → List ℕ → List ℕ
  pub verify : List ℕ → List ℕ → List ℕ → Bool

-- `box.Overhead` and `ed25519.SignatureSize`
abbrev pub overhead : ℕ
overhead = 16

abbrev pub signature_size : ℕ
signature_size = 64

-- None is a nil pointer; `has_updates` tells whether the channel `updates` is made.
pub record Handle : Type 0 where
  pub seed1 : List ℕ
  pub seed2 : List ℕ
  pub shared_secret : Option (List ℕ)
  pub signing_public_key : Option (List ℕ)
  pub seqno : ℕ
  pub partial_message : Message
  pub has_updates : Bool

-- `h.Seqno++`
unfoldable pub advance_seqno : Handle → Handle
advance_seqno h = record h { seqno = (h.seqno + 1) % 2 ^ 64 }

-- The nonce of a sequence number.
unfoldable pub seqno_bytes : ℕ → Outcome (List ℕ)
unfolding put_uvarint
seqno_bytes seqno = put_uvarint (replicate 24 0) seqno

-- `append(out, bytes)` for an empty `out` with the given capacity, and then `out[0:cap(out)]`:
-- if the bytes do not fit, they go to another array.
unfoldable pub append_in_place : ℕ → List ℕ → List ℕ
append_in_place capacity bytes =
    if leb (length bytes) capacity then copy (replicate capacity 0) bytes else replicate capacity 0

-- `if err == nil { return plaintext }`, and else what follows.
abbrev pub return_or : Outcome (List ℕ) → Outcome (Option (List ℕ)) → Outcome (Option (List ℕ))
return_or (ok plaintext) rest = ok (some plaintext)
return_or (err e) rest = rest
return_or panic rest = panic

-- `if err != nil { return nil }`, and else what follows.
abbrev pub nil_or :
    Outcome (List ℕ) → (List ℕ → Outcome (Option (List ℕ))) → Outcome (Option (List ℕ))
nil_or (ok contents) rest = rest contents
nil_or (err e) rest = ok none
nil_or panic rest = panic

module _ (c : Primitives) where
  -- One of the two buckets of `nextBuckets`.
  unfoldable pub bucket_from : List ℕ → List ℕ → ℕ → Outcome ℕ
  unfolding key_uint128 remainder
  bucket_from seed nonce num_buckets =
      key_uint128 seed >>= λ (k0, k1). remainder (c.siphash k0 k1 nonce) num_buckets

  unfoldable pub next_buckets : Handle → ℕ → Outcome (ℕ × ℕ)
  unfolding seqno_bytes bucket_from
  next_buckets h num_buckets = do
    nonce ← seqno_bytes h.seqno
    b1 ← bucket_from h.seed1 nonce num_buckets
    b2 ← bucket_from h.seed2 nonce num_buckets
    ok (b1, b2)

  -- `hasher.Sum(interestKey)` is the key with the hash of what was written to the hasher: nothing.
  unfoldable pub next_interest_vector : Handle → Outcome (List ℕ)
  unfolding seqno_bytes
  next_interest_vector h = do
    nonce ← seqno_bytes h.seqno
    public_key ← or_panic h.signing_public_key
    ok ((public_key ++ nonce) ++ c.sha256 [])

  -- `Decrypt` with both keys present.
  unfoldable pub decrypt_with : List ℕ → List ℕ → List ℕ → List ℕ → Outcome (List ℕ)
  unfolding append_in_place
  decrypt_with secret public_key cyphertext nonce =
      let cypherlen = length cyphertext in
      let message = take (cypherlen - signature_size) cyphertext in
      let sig = copy (replicate signature_size 0) (drop (cypherlen - signature_size) cyphertext) in
      if ltb cypherlen signature_size
      then err bad_ciphertext
      else if not (c.verify public_key message sig)
      then err bad_signature
      else if ltb cypherlen (overhead + signature_size)
      then panic
      else elim (c.unseal secret nonce message) [
        | none ↦ err bad_decrypt
        | some bytes ↦ ok (append_in_place (cypherlen - (overhead + signature_size)) bytes)
      ]

  unfoldable pub decrypt : Handle → List ℕ → List ℕ → Outcome (List ℕ)
  unfolding decrypt_with
  decrypt h cyphertext nonce = elim h.shared_secret [
    | none ↦ err bad_handle
    | some secret ↦ elim h.signing_public_key [
      | none ↦ err bad_handle
      | some public_key ↦ decrypt_with secret public_key cyphertext nonce
    ]
  ]

  -- The loop of `retrieveResponse` over the trust domains; none if Overlay returns an error.
  unfoldable pub remove_pads : List PirArgs → List ℕ → Outcome (Option (List ℕ))
  unfolding overlay
  remove_pads [] contents = ok (some contents)
  remove_pads (t ∷ ts) contents = nil_or (overlay c.sip t.pad_seed contents) (remove_pads ts)

  -- The loop of `retrieveResponse` over the messages of a bucket, from place `i`, on fuel:
  -- without fuel it is no_fuel before the end, as no call of the code is.
  unfoldable pub scan : ℕ → Handle → ℕ → List ℕ → List ℕ → ℕ → Outcome (Option (List ℕ))
  unfolding decrypt
  scan zero h data_size nonce contents i = if leb (length contents) i then ok none else err no_fuel
  scan (suc fuel) h data_size nonce contents i =
      let rest = scan fuel h data_size nonce contents (i + data_size) in
      if leb (length contents) i
      then ok none
      else or_panic (slice? contents i (i + data_size)) >>= λ slot.
          return_or (decrypt h slot nonce) rest

  -- None is the nil slice.
  unfoldable pub retrieve_response : Handle → List PirArgs → List ℕ → ℕ → Outcome (Option (List ℕ))
  unfolding remove_pads scan seqno_bytes
  retrieve_response h td contents data_size = remove_pads td contents >>= λ r. elim r [
    | none ↦ ok none
    | some contents' ↦
        seqno_bytes h.seqno >>= λ nonce. scan (length contents') h data_size nonce contents' 0
  ]

  unfoldable pub on_response :
      Handle → List PirArgs → List ℕ → ℕ → Outcome (Handle × List (Option (List ℕ)))
  unfolding retrieve_response advance_seqno receive
  on_response h td contents data_size = retrieve_response h td contents data_size >>= λ r. elim r [
    | none ↦ ok (h, [])
    | some msg ↦
        let (m, sent) = receive h.partial_message msg in
        ok (record (advance_seqno h) { partial_message = m }, if h.has_updates then sent else [])
  ]

-- The loop of `makeReadArg`, with `left` trust domains to go; none is the nil argument. `reader i n`
-- is the i-th call of `Read` on a buffer of `n` bytes.
unfoldable pub fill_args :
    (ℕ → ℕ → Option (List ℕ)) → ℕ → ℕ → List (List ℕ) → Outcome (Option (List PirArgs))
fill_args reader zero i vecs = ok (some [])
fill_args reader (suc left) i vecs = or_panic (get_elem? vecs i) >>= λ vec.
    elim (reader i seed_length) [
      | none ↦ ok none
      | some seed ↦ fill_args reader left (i + 1) vecs >>= λ r. ok (elim r [
        | none ↦ none
        | some td ↦ some (record { request_vector = vec; pad_seed = seed } ∷ td)
      ])
    ]

module _ (unaligned : Bool) (rand reader : ℕ → ℕ → Option (List ℕ)) where
  unfoldable pub make_read_arg : ℕ → ℕ → ℕ → Outcome (Option (List PirArgs))
  unfolding generate_request_vectors fill_args
  make_read_arg num num_buckets bucket =
      elim (generate_request_vectors unaligned rand bucket num num_buckets) [
        | ok vecs ↦ fill_args reader num 0 vecs
        | err e ↦ ok none
        | panic ↦ panic
      ]

-- `generatePoll`: the trust domains' arguments for the two buckets. `rand k` and `reader k` are the
-- calls for the first bucket, `k = 0`, and for the second.
unfoldable pub generate_poll :
    Primitives
    → Bool
    → (ℕ → ℕ → ℕ → Option (List ℕ))
    → (ℕ → ℕ → ℕ → Option (List ℕ))
    → Handle
    → ℕ
    → ℕ
    → Outcome (Option (List PirArgs) × Option (List PirArgs))
unfolding next_buckets make_read_arg
generate_poll c unaligned rand reader h num num_buckets = elim h.shared_secret [
  | none ↦ err bad_handle
  | some secret ↦ elim h.signing_public_key [
    | none ↦ err bad_handle
    | some public_key ↦ do
      (bucket1, bucket2) ← next_buckets c h num_buckets
      arg1 ← make_read_arg unaligned (rand 0) (reader 0) num num_buckets bucket1
      arg2 ← make_read_arg unaligned (rand 1) (reader 1) num num_buckets bucket2
      ok (arg1, arg2)
  ]
]

-- `Equal`; a nil key panics where the code takes a slice of it.
unfoldable pub equal_keys : Option (List ℕ) → Option (List ℕ) → Outcome Bool
unfolding equal_bytes
equal_keys a b = do x ← or_panic a; y ← or_panic b; ok (equal_bytes x y)

unfoldable pub equal : Handle → Handle → Outcome Bool
unfolding equal_keys equal_bytes
equal a b =
    if not (a.seqno == b.seqno)
    then ok false
    else equal_keys a.shared_secret b.shared_secret >>= λ same_secret.
        if not same_secret
        then ok false
        else equal_keys a.signing_public_key b.signing_public_key >>= λ same_key.
            if not same_key
            then ok false
            else ok (
                (equal_bytes a.seed1 b.seed1 && equal_bytes a.seed2 b.seed2)
                || (equal_bytes a.seed1 b.seed2 && equal_bytes a.seed2 b.seed1))
