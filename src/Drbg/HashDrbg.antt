-- ===== src/Drbg/HashDrbg.antt =====
-- drbg/hash_drbg.go. `sip key written` is `Sum(nil)` of a hash that `siphash.New(key)` made, after
-- the bytes that were written; its Write returns no error. The mutex is left out: a call is one
-- step.
pub mod Overlay
use talek.Base.{
  ℕ, bit_xor, Option, none, some, List, [], ◌∷◌, ◌++◌, le_word, length, get_elem?, drop, replicate,
  copy, slice?, Outcome, ◌>>=◌, or_panic, bad_seed, ok, err, ltb, if◌then◌else◌,
}
use talek.Drbg.Seed.{seed_length, new_seed, unmarshal_binary, key, init_vec}

-- `siphash.Size`
abbrev pub block_size : ℕ
block_size = 8

-- The hash is its key and what was written to it.
pub record HashDrbg : Type 0 where
  pub seed : List ℕ
  pub sip_key : List ℕ
  pub written : List ℕ
  pub ofb : List ℕ

-- The generator on a seed.
unfoldable pub from_seed : List ℕ → Outcome HashDrbg
unfolding key init_vec
from_seed seed = do
  k ← key seed
  iv ← init_vec seed
  ok (record { seed = seed; sip_key = k; written = []; ofb = copy (replicate block_size 0) iv })

-- `NewHashDrbg`; none is the nil seed.
unfoldable pub new_hash_drbg : (ℕ → Option (List ℕ)) → Option (List ℕ) → Outcome HashDrbg
unfolding from_seed new_seed
new_hash_drbg rand none = new_seed rand >>= from_seed
new_hash_drbg rand (some seed) = from_seed seed

module _ (sip : List ℕ → List ℕ → List ℕ) where
  unfoldable pub next : HashDrbg → HashDrbg × List ℕ
  next d =
      let written = d.written ++ d.ofb in
      let ofb = copy d.ofb (sip d.sip_key written) in
      (record d { written = written; ofb = ofb }, copy (replicate block_size 0) ofb)

  -- `binary.LittleEndian.Uint32`
  unfoldable pub random_uint32 : HashDrbg → Outcome (HashDrbg × ℕ)
  unfolding next
  random_uint32 d =
      let (d', block) = next d in or_panic (slice? block 0 4) >>= λ bytes. ok (d', le_word bytes)

  unfoldable pub random_uint64 : HashDrbg → Outcome (HashDrbg × ℕ)
  unfolding next
  random_uint64 d =
      let (d', block) = next d in or_panic (slice? block 0 8) >>= λ bytes. ok (d', le_word bytes)

  -- The bytes after the first of `bytes`, or a new block after the last.
  unfoldable pub advance : HashDrbg → List ℕ → HashDrbg × List ℕ
  unfolding next
  advance d bytes = if ltb (length bytes) 2 then next d else (d, drop 1 bytes)

  -- The loop of `FillBytes` over the places of `b`.
  unfoldable pub fill_from : HashDrbg → List ℕ → List ℕ → Outcome (HashDrbg × List ℕ)
  unfolding advance
  fill_from d bytes [] = ok (d, [])
  fill_from d bytes (x ∷ xs) = do
    y ← or_panic (get_elem? bytes 0)
    (d', ys) ← fill_from (advance d bytes).0 (advance d bytes).1 xs
    ok (d', y ∷ ys)

  unfoldable pub fill_bytes : HashDrbg → List ℕ → Outcome (HashDrbg × List ℕ)
  unfolding fill_from
  fill_bytes d b = let (d', block) = next d in fill_from d' block b

  -- The loop of `Overlay` over the places of `data`.
  unfoldable pub overlay_from : HashDrbg → List ℕ → List ℕ → Outcome (List ℕ)
  unfolding advance
  overlay_from d bytes [] = ok []
  overlay_from d bytes (x ∷ xs) = do
    y ← or_panic (get_elem? bytes 0)
    rest ← overlay_from (advance d bytes).0 (advance d bytes).1 xs
    ok (bit_xor x y ∷ rest)

  unfoldable pub overlay : List ℕ → List ℕ → Outcome (List ℕ)
  unfolding overlay_from
  overlay seed contents =
      if ltb (length seed) seed_length
      then err bad_seed
      else unmarshal_binary seed >>= λ s.
          from_seed s >>= λ d. let (d', block) = next d in overlay_from d' block contents
