-- ===== src/Common/Encoding.antt =====
-- common/readargs.go: the encryption of a client's request vectors for each of the trust domains.
-- nacl/box and encoding/gob are parameters.
pub mod Roundtrip
use talek.Base.{
  ℕ, ◌+◌, Option, none, some, List, [], ◌∷◌, length, get_elem?, Outcome, ◌>>=◌, or_panic,
  rand_failed, bad_ciphertext, ok, err, ltb, if◌then◌else◌,
}
use talek.Common.ReadArgs.{PirArgs}
use talek.Common.Protocol.{EncodedReadArgs}

-- `box.Seal` and `box.Open` on a nonce, the public key of the other side, the own private key and
-- the message, and `Encode` and `Decode` of gob.
pub record Codec : Type 0 where
  pub seal : List ℕ → List ℕ → List ℕ → List ℕ → List ℕ
  pub unseal : List ℕ → List ℕ → List ℕ → List ℕ → Option (List ℕ)
  pub gob_encode : PirArgs → Outcome (List ℕ)
  pub gob_decode : List ℕ → Outcome PirArgs

module _ (c : Codec) where
  -- The loop of `Encode` over the trust domains' public keys, from place `i`.
  unfoldable pub encode_from :
      List PirArgs → List ℕ → List ℕ → List (List ℕ) → ℕ → Outcome (List (List ℕ))
  encode_from td nonce private_key [] i = ok []
  encode_from td nonce private_key (public_key ∷ keys) i = do
    args ← or_panic (get_elem? td i)
    msg ← c.gob_encode args
    rest ← encode_from td nonce private_key keys (i + 1)
    ok (c.seal nonce public_key private_key msg ∷ rest)

  -- `Encode`; the first arguments are what `box.GenerateKey` and `rand.Read` give, none if they
  -- fail.
  unfoldable pub encode :
      Option (List ℕ × List ℕ)
      → Option (List ℕ)
      → List PirArgs
      → List (List ℕ)
      → Outcome EncodedReadArgs
  unfolding encode_from
  encode key_pair nonce td keys = elim key_pair [
    | none ↦ err rand_failed
    | some pair ↦ elim nonce [
      | none ↦ err rand_failed
      | some n ↦ encode_from td n pair.1 keys 0 >>= λ out.
          ok (record { client_key = pair.0; nonce = n; pir_args = out })
    ]
  ]

  -- `Decode`: whether the box opens is not looked at, and nothing is decoded if it does not.
  unfoldable pub decode : EncodedReadArgs → ℕ → List ℕ → Outcome PirArgs
  decode r id private_key = or_panic (get_elem? r.pir_args id) >>= λ bytes.
      if ltb (length bytes) 16
      then err bad_ciphertext
      else elim (c.unseal r.nonce r.client_key private_key bytes) [
        | none ↦ c.gob_decode []
        | some decrypted ↦ c.gob_decode decrypted
      ]
