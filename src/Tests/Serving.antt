-- ===== src/Tests/Serving.antt =====
-- A PIR server of eight cells of eight bytes, with one read in a batch; request vectors of a read
-- of bucket 9 of 16; and a range of sequence numbers.
use talek.Base.{
  ℕ, zero, suc, ◌≤◌, ◌<◌, ◌≡◌, refl, ◌≢◌, ◌↔◌, ◌⊎◌, true, false, Option, none, some, List, [], ◌∷◌,
  arith, IsBytes, bytes_xor, pos, length, replicate, length-replicate, Returns, for_range,
  bad_length, ok, err,
}
use talek.Pir.ShardCpu.Answer.{answers}
use talek.Pir.Server.{Server}
use talek.Pir.Server.Serving.{cpu_backing, shard_of, serve, serve-answers}
use talek.Pir.ShardCpu.{ShardCpu}
use talek.Pir.Xor.{bytes}
use talek.Pir.Client.{generate_request_vectors}
use talek.Pir.Client.Vectors.{Fills}
use talek.Common.ReadArgs.{PirArgs, bucket_index, combine}
use talek.Common.ReadArgs.Bucket.{vectors, bucket_index-generate_request_vectors, combine-bytes_xor}
use talek.Common.Range.{Range, equals, contains}
use talek.Common.Range.Membership.{Among, contains_iff, equals_iff}

abbrev unconfigured_server : Server ShardCpu
unconfigured_server = record { cell_length = 0; cell_count = 0; batch_size = 0; db = none }

sevens-IsBytes : (n : ℕ) → IsBytes (replicate n 7)
sevens-IsBytes zero = tt
sevens-IsBytes (suc n) = (omega arith, sevens-IsBytes n)

serve-answers_example :
    serve (cpu_backing true 1) unconfigured_server 8 8 1 (replicate 64 7) (129 ∷ [])
    ≡ ok (answers (shard_of 1 8 8 (replicate 64 7)) (129 ∷ []) 1 1)
serve-answers_example =
    serve-answers true 1 8 8 1 (replicate 64 7) unconfigured_server (129 ∷ []) (omega arith)
      (omega arith) refl (omega arith) refl (omega arith) (length-replicate {A = ℕ} 64 7)
      (sevens-IsBytes 64) refl

abbrev nines : ℕ → ℕ → Option (List ℕ)
nines i n = some (replicate n 9)

nines-IsBytes : (n : ℕ) → IsBytes (replicate n 9)
nines-IsBytes zero = tt
nines-IsBytes (suc n) = (omega arith, nines-IsBytes n)

nines-Fills : Fills nines
nines-Fills i n = (replicate n 9, refl, (length-replicate {A = ℕ} n 9, nines-IsBytes n))

-- The secret is added to the random vector.
abbrev read_args : List PirArgs
read_args =
    record { request_vector = 9 ∷ 11 ∷ []; pad_seed = [] }
    ∷ record { request_vector = 9 ∷ 9 ∷ []; pad_seed = [] }
    ∷ []

vectors_made : generate_request_vectors false nines 9 2 16 ≡ ok (vectors read_args)
unfolding generate_request_vectors bytes for_range
vectors_made = refl

bucket_index-generate_request_vectors_example : bucket_index read_args ≡ ok (pos 9)
bucket_index-generate_request_vectors_example =
    bucket_index-generate_request_vectors false nines 9 2 16 read_args nines-Fills (omega arith)
      (omega arith) vectors_made

abbrev two : List ℕ
two = 1 ∷ 2 ∷ []

abbrev three : List ℕ
three = 1 ∷ 2 ∷ 3 ∷ []

combine-bytes_xor_example :
    ((length two ≡ length three) × (combine two three ≡ ok (bytes_xor two three)))
    ⊎ ((length two ≢ length three) × (combine two three ≡ err bad_length))
combine-bytes_xor_example = combine-bytes_xor two three

abbrev some_range : Range
some_range = record { start = 3; until = 9; aborted = 5 ∷ [] }

contains_iff_example : (contains some_range 5 ≡ true) ↔ ((3 ≤ 5) × (5 < 9) × ¬ (Among 5 (5 ∷ [])))
contains_iff_example = contains_iff some_range 5

equals_iff_example :
    Returns (equals some_range some_range) (λ same. (same ≡ true) ↔ (some_range ≡ some_range))
equals_iff_example = equals_iff some_range some_range
