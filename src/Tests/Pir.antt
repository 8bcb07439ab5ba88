-- ===== src/Tests/Pir.antt =====
-- A database of two buckets of eight bytes, read through two servers.
use talek.Base.{
  ℕ, zero, suc, ◌≡◌, refl, ap, ◌∙◌, true, false, Option, some, List, [], ◌∷◌, arith, All, IsBytes,
  xor_all, HasBytes, ℤ, pos, length, replicate, length-replicate, Returns, for_range, ok,
}
use talek.Pir.Xor.{fast_xor_bytes, safe_xor_bytes}
use talek.Pir.Xor.Laws.{fast_xor_bytes-eq-safe_xor_bytes}
use talek.Pir.ShardCpu.{ShardCpu, read}
use talek.Pir.ShardCpu.Answer.{IsWellFormed, bucket_of, answers}
use talek.Pir.ShardCpu.Batch.{read-answers}
use talek.Pir.Client.{num_bytes, generate_request_vectors, combine_responses}
use talek.Pir.Client.Vectors.{Fills, unit_vector, generate_request_vectors_lem}
use talek.Pir.Retrieval.{retrieve, retrieve-bucket_of}

abbrev shard : ShardCpu
shard = record {
  bucket_size = 8;
  num_buckets = 2;
  contents = 1 ∷ 2 ∷ 3 ∷ 4 ∷ 5 ∷ 6 ∷ 7 ∷ 8 ∷ 91 ∷ 92 ∷ 93 ∷ 94 ∷ 95 ∷ 96 ∷ 97 ∷ 98 ∷ [];
  read_version = pos 0;
}

shard-IsWellFormed : IsWellFormed shard
shard-IsWellFormed = record { positive = omega arith; filled = refl; all_bytes = omega arith }

abbrev noise : ℕ → ℕ → Option (List ℕ)
noise i n = some (replicate n 173)

noise-IsBytes : (n : ℕ) → IsBytes (replicate n 173)
noise-IsBytes zero = tt
noise-IsBytes (suc n) = (omega arith, noise-IsBytes n)

noise-Fills : Fills noise
noise-Fills i n = (replicate n 173, refl, (length-replicate n 173, noise-IsBytes n))

abbrev by_version : ℕ → ℤ
by_version i = pos i

abbrev second : List ℕ
second = 91 ∷ 92 ∷ 93 ∷ 94 ∷ 95 ∷ 96 ∷ 97 ∷ 98 ∷ []

second_bucket : bucket_of shard 1 ≡ second
unfolding bucket_of
second_bucket = refl

-- Three servers, each with another read loop.
three_servers : retrieve true shard by_version noise 1 3 ≡ ok second
unfolding retrieve generate_request_vectors combine_responses read
three_servers =
    retrieve-bucket_of true shard shard-IsWellFormed refl by_version noise 1 3 noise-Fills
      (omega arith) (omega arith)
    ∙ ap ok second_bucket

retrieve-bucket_of_example : retrieve true shard by_version noise 1 2 ≡ ok (bucket_of shard 1)
retrieve-bucket_of_example =
    retrieve-bucket_of true shard shard-IsWellFormed refl by_version noise 1 2 noise-Fills
      (omega arith) (omega arith)

-- Two requests in one batch: the second bucket, and both buckets.
abbrev batch : List ℕ
batch = 2 ∷ 3 ∷ []

read-answers_example : read false shard batch 1 ≡ ok (answers shard batch 1 2)
read-answers_example =
    read-answers false shard batch 1 2 shard-IsWellFormed (omega arith) (omega arith) refl refl

generate_request_vectors_lem_example : Returns (generate_request_vectors true noise 1 3 2) (λ vecs.
    (length vecs ≡ 3)
    × All (HasBytes (num_bytes 2)) vecs
    × (xor_all (num_bytes 2) vecs ≡ unit_vector (num_bytes 2) 1))
generate_request_vectors_lem_example =
    generate_request_vectors_lem true noise noise-Fills 1 3 2 (omega arith) (omega arith)

-- Nine bytes: one word and one byte.
abbrev nine : List ℕ
nine = 1 ∷ 2 ∷ 3 ∷ 4 ∷ 5 ∷ 6 ∷ 7 ∷ 8 ∷ 9 ∷ []

fast_xor_bytes-eq-safe_xor_bytes_example :
    fast_xor_bytes nine nine nine ≡ safe_xor_bytes nine nine nine
fast_xor_bytes-eq-safe_xor_bytes_example =
    fast_xor_bytes-eq-safe_xor_bytes nine nine nine (omega arith) (omega arith) (omega arith)

fast_xor_nine : fast_xor_bytes nine nine nine ≡ ok (replicate 9 0, 9)
unfolding fast_xor_bytes for_range
fast_xor_nine = refl
