-- ===== src/Drbg/Seed.antt =====
-- drbg/seed.go. A seed is its field `value`. The result of `rand.Read` on a buffer is a parameter:
-- the bytes that it fills in, or none if it fails. The JSON texts are left out.
use talek.Base.{
  ℕ, Bool, true, false, ◌&&◌, Option, none, some, List, [], ◌∷◌, length, slice?, Outcome, ◌>>=◌,
  or_panic, rand_failed, bad_length, ok, err, ltb, ◌==◌, if◌then◌else◌, uvarint,
}

-- `SeedLength`: 16 bytes and `siphash.Size`.
abbrev pub seed_length : ℕ
seed_length = 24

-- `NewSeed`
unfoldable pub new_seed : (ℕ → Option (List ℕ)) → Outcome (List ℕ)
new_seed rand = elim (rand seed_length) [ none ↦ err rand_failed | some value ↦ ok value ]

unfoldable pub unmarshal_binary : List ℕ → Outcome (List ℕ)
unmarshal_binary contents =
    if ltb (length contents) seed_length then err bad_length else ok contents

unfoldable pub marshal_binary : List ℕ → List ℕ
marshal_binary value = value

-- `bytes.Equal`
unfoldable pub equal_bytes : List ℕ → List ℕ → Bool
equal_bytes [] [] = true
equal_bytes [] (y ∷ ys) = false
equal_bytes (x ∷ xs) [] = false
equal_bytes (x ∷ xs) (y ∷ ys) = (x == y) && equal_bytes xs ys

-- `Equal`
unfoldable pub equal : List ℕ → List ℕ → Bool
unfolding equal_bytes
equal a b = equal_bytes a b

unfoldable pub key : List ℕ → Outcome (List ℕ)
key value = or_panic (slice? value 0 16)

unfoldable pub init_vec : List ℕ → Outcome (List ℕ)
init_vec value = or_panic (slice? value 16 (length value))

-- `KeyUint128`
unfoldable pub key_uint128 : List ℕ → Outcome (ℕ × ℕ)
unfolding uvarint
key_uint128 value = do
  low ← or_panic (slice? value 0 8)
  high ← or_panic (slice? value 8 16)
  ok (uvarint low, uvarint high)
