-- ===== src/Pir/Retrieval.antt =====
-- A whole retrieval: a client's request vectors (pir/pirclient/client.go), one read by each of
-- the servers (pir/pircpu/shard_cpu.go), and the combination of their responses.
pub mod Linear
use talek.Base.{
  ℕ, zero, suc, ◌+◌, ◌*◌, ◌%◌, ◌≤◌, ◌<◌, ◌≡◌, refl, ap, ◌∙◌, Bool, Option, List, [], ◌∷◌, map,
  arith, All, xor_all, HasBytes, ℤ, length, take, drop, take_all, Outcome, ◌>>=◌, ok,
}
use talek.Pir.ShardCpu.{ShardCpu, read}
use talek.Pir.ShardCpu.Answer.{
  IsWellFormed, bucket_of, answer, answers, length-answer, answer-IsBytes,
}
use talek.Pir.ShardCpu.Batch.{read-answers}
use talek.Pir.Client.{num_bytes, generate_request_vectors, combine_responses}
use talek.Pir.Client.Vectors.{
  Fills, unit_vector, generate_request_vectors_lem, combine_responses-xor_all, bucket-lt-num_bytes,
}
use Linear.{xor_all-answer, answer-unit_vector}

-- Server `i` keeps the same contents, and reads by version `versions i`.
abbrev pub with_version : ShardCpu → ℤ → ShardCpu
with_version s v = record s { read_version = v }

unfoldable pub query_all : Bool → ShardCpu → (ℕ → ℤ) → ℕ → List (List ℕ) → Outcome (List (List ℕ))
query_all u s versions i [] = ok []
query_all u s versions i (vec ∷ vecs) =
    read u (with_version s (versions i)) vec (length vec) >>= λ r.
    query_all u s versions (i + 1) vecs >>= λ rs. ok (r ∷ rs)

unfoldable pub retrieve :
    Bool → ShardCpu → (ℕ → ℤ) → (ℕ → ℕ → Option (List ℕ)) → ℕ → ℕ → Outcome (List ℕ)
unfolding query_all
retrieve u s versions rand bucket num_servers = do
  vecs ← generate_request_vectors u rand bucket num_servers s.num_buckets
  responses ← query_all u s versions 0 vecs
  combine_responses u responses

answer-with_version :
    (s : ShardCpu) (v : ℤ) (vec : List ℕ) (k : ℕ) → answer (with_version s v) vec k ≡ answer s vec k
unfolding answer bucket_of
answer-with_version s v vec zero = refl
answer-with_version s v vec (suc k) = rw (answer-with_version s v vec k)

answers_one :
    (s : ShardCpu) (vec : List ℕ) → answers s vec (length vec) 1 ≡ answer s vec s.num_buckets
unfolding answers
answers_one s vec =
    ap (λ (n : ℕ). answer s (take (length vec) (drop n vec)) s.num_buckets) {x = 0 * length vec}
      {y = 0} (omega arith)
    ∙ ap (λ t. answer s t s.num_buckets) (take_all (length vec) vec (omega arith))

module _ (u : Bool) (s : ShardCpu) (w : IsWellFormed s) (whole : s.bucket_size % 8 ≡ 0) where
  read_one :
      (v : ℤ) (vec : List ℕ) (n : ℕ)
      → HasBytes n vec
      → 0 < n
      → s.num_buckets ≤ 8 * n
      → read u (with_version s v) vec (length vec) ≡ ok (answer s vec s.num_buckets)
  read_one v vec n h some_bytes wide =
      read-answers u (with_version s v) vec (length vec) 1
        (record { positive = w.positive; filled = w.filled; all_bytes = w.all_bytes })
        (omega (arith, h.0)) (omega (arith, h.0)) (omega arith) whole
      ∙ ap ok (answers_one (with_version s v) vec ∙ answer-with_version s v vec s.num_buckets)

  query_all-answers :
      (versions : ℕ → ℤ) (i n : ℕ) (vecs : List (List ℕ))
      → All (HasBytes n) vecs
      → 0 < n
      → s.num_buckets ≤ 8 * n
      → query_all u s versions i vecs ≡ ok (map (λ v. answer s v s.num_buckets) vecs)
  unfolding query_all
  query_all-answers versions i n [] h some_bytes wide = refl
  query_all-answers versions i n (vec ∷ vecs) h some_bytes wide = rw (
    read_one (versions i) vec n h.0 some_bytes wide,
    query_all-answers versions (i + 1) n vecs h.1 some_bytes wide,
  )

  answers-HasBytes :
      (vecs : List (List ℕ))
      → All (HasBytes s.bucket_size) (map (λ v. answer s v s.num_buckets) vecs)
  answers-HasBytes [] = tt
  answers-HasBytes (v ∷ vecs) = (
    (length-answer s w v s.num_buckets (omega arith), answer-IsBytes s w v s.num_buckets),
    answers-HasBytes vecs,
  )

  num_buckets-le : (n : ℕ) → n ≤ 8 * num_bytes n
  unfolding num_bytes
  num_buckets-le n = ground arith

  -- Whatever bytes rand.Read fills in, and whichever read loop each server runs, at least two
  -- servers that keep one well-formed database of whole words give the client that combines their
  -- answers exactly the bucket that it asked for.
  pub retrieve-bucket_of :
      (versions : ℕ → ℤ) (rand : ℕ → ℕ → Option (List ℕ)) (bucket num_servers : ℕ)
      → Fills rand
      → 2 ≤ num_servers
      → bucket < s.num_buckets
      → retrieve u s versions rand bucket num_servers ≡ ok (bucket_of s bucket)
  unfolding retrieve
  retrieve-bucket_of versions rand bucket num_servers fills enough inside =
      let n = num_bytes s.num_buckets in
      let small = bucket-lt-num_bytes u rand fills bucket s.num_buckets inside in
      let wide = num_buckets-le s.num_buckets in
      let (vecs, run, (count, all_bytes, total)) =
        generate_request_vectors_lem u rand fills bucket num_servers s.num_buckets enough inside in
      rw (run, query_all-answers versions 0 n vecs all_bytes (omega arith) wide)
        (combine_map vecs (omega arith)
          ∙ ap ok (
              xor_all-answer s w n wide vecs all_bytes
              ∙ ap (λ v. answer s v s.num_buckets) total
              ∙ answer-unit_vector s w n wide bucket s.num_buckets small inside (omega arith)))
    where
      combine_map :
          (vecs : List (List ℕ))
          → 0 < length vecs
          → combine_responses u (map (λ v. answer s v s.num_buckets) vecs)
            ≡ ok (xor_all s.bucket_size (map (λ v. answer s v s.num_buckets) vecs))
      combine_map [] h = absurd (omega arith)
      combine_map (v ∷ vecs) h =
          combine_responses-xor_all u s.bucket_size (answer s v s.num_buckets)
            (map (λ v. answer s v s.num_buckets) vecs) (answers-HasBytes (v ∷ vecs))
