-- ===== src/Libtalek/Topic.antt =====
-- libtalek/topic.go: what a topic writes. The message of a write is the fragment that the client
-- makes. NewTopic is in Libtalek/Topic/Creation; the texts of topics are left out.
pub mod Roundtrip
pub mod Publishing
pub mod Reception
pub mod Creation
use talek.Base.{ℕ, ◌+◌, Option, List, ◌++◌, length, Outcome, ◌>>=◌, or_panic, ok}
use talek.Libtalek.Handle.{
  Primitives, overhead, Handle, advance_seqno, seqno_bytes, next_buckets, next_interest_vector,
  append_in_place,
}

pub record Topic : Type 0 where
  pub id : ℕ
  pub signing_private_key : Option (List ℕ)
  pub handle : Handle

-- `common.WriteArgs`, without the reply channel.
pub record WriteArgs : Type 0 where
  pub bucket1 : ℕ
  pub bucket2 : ℕ
  pub contents : List ℕ
  pub interest_vector : List ℕ

-- `PublishingOverhead`
abbrev pub publishing_overhead : ℕ
publishing_overhead = 80

module _ (c : Primitives) where
  -- `encrypt`; a nil key panics where it is read.
  unfoldable pub encrypt : Topic → List ℕ → List ℕ → Outcome (List ℕ)
  unfolding append_in_place
  encrypt t plaintext nonce = do
    secret ← or_panic t.handle.shared_secret
    let sealed = c.seal secret nonce plaintext
    let buf = append_in_place (length plaintext + overhead) sealed
    private_key ← or_panic t.signing_private_key
    ok (buf ++ c.sign private_key buf)

  unfoldable pub generate_publish : Topic → ℕ → List ℕ → Outcome (Topic × WriteArgs)
  unfolding next_buckets seqno_bytes next_interest_vector advance_seqno encrypt
  generate_publish t num_buckets message = do
    (b1, b2) ← next_buckets c t.handle num_buckets
    nonce ← seqno_bytes t.handle.seqno
    interest ← next_interest_vector c t.handle
    let t' = record t { handle = advance_seqno t.handle }
    ciphertext ← encrypt t' message nonce
    ok (
      t',
      record { bucket1 = b1; bucket2 = b2; contents = ciphertext; interest_vector = interest },
    )
