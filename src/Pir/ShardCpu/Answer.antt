-- ===== src/Pir/ShardCpu/Answer.antt =====
-- What a PIR read is to compute: the exclusive or of the buckets whose bit is set.
use talek.Base.{
  ℕ, zero, suc, ◌+◌, ◌*◌, ◌/◌, ◌%◌, ◌≤◌, ◌<◌, ◌≡◌, inl, inr, List, [], ◌++◌, arith, bit_of, IsBytes,
  bytes_xor, length-bytes_xor, bytes_xor-IsBytes, replicate-IsBytes, length, get_or, take, drop,
  replicate, length-append, length-take, length-drop, length-replicate, All-take, All-drop, ◌==◌,
  if◌then◌else◌, Bool-cases,
}
use talek.Pir.ShardCpu.{ShardCpu}

-- A shard as `NewShardCPU` makes it, on a database of bytes.
pub record IsWellFormed (s : ShardCpu) : Type 0 where
  pub positive : 0 < s.bucket_size
  pub filled : s.num_buckets * s.bucket_size ≡ length s.contents
  pub all_bytes : IsBytes s.contents

-- Bit `k` of a request vector.
abbrev pub vec_bit : List ℕ → ℕ → ℕ
vec_bit vec k = bit_of (get_or vec (k / 8) 0) (k % 8)

module _ (s : ShardCpu) where
  unfoldable pub bucket_of : ℕ → List ℕ
  bucket_of b = take s.bucket_size (drop (b * s.bucket_size) s.contents)

  -- The exclusive or of the buckets below `k` that `vec` selects.
  unfoldable pub answer : List ℕ → ℕ → List ℕ
  answer vec zero = replicate s.bucket_size 0
  answer vec (suc k) =
      let rest = answer vec k in if vec_bit vec k == 1 then bytes_xor rest (bucket_of k) else rest

  -- The answers to the first `k` of the requests that `reqs` joins.
  unfoldable pub answers : List ℕ → ℕ → ℕ → List ℕ
  answers reqs req_length zero = []
  answers reqs req_length (suc k) =
      answers reqs req_length k
      ++ answer (take req_length (drop (k * req_length) reqs)) s.num_buckets

  module _ (w : IsWellFormed s) where
    pub bucket-fits :
        (b : ℕ) → b < s.num_buckets → b * s.bucket_size + s.bucket_size ≤ length s.contents
    bucket-fits b h = grind (arith, w.filled)

    pub length-bucket_of : (b : ℕ) → b < s.num_buckets → length (bucket_of b) ≡ s.bucket_size
    unfolding bucket_of
    length-bucket_of b h = omega (
      arith,
      bucket-fits b h,
      length-take s.bucket_size (drop (b * s.bucket_size) s.contents),
      length-drop (b * s.bucket_size) s.contents,
    )

    pub bucket_of-IsBytes : (b : ℕ) → IsBytes (bucket_of b)
    unfolding bucket_of
    bucket_of-IsBytes b =
        All-take (λ x. x < 256) s.bucket_size (drop (b * s.bucket_size) s.contents)
          (All-drop (λ x. x < 256) (b * s.bucket_size) s.contents w.all_bytes)

    pub length-answer :
        (vec : List ℕ) (k : ℕ) → k ≤ s.num_buckets → length (answer vec k) ≡ s.bucket_size
    unfolding answer
    length-answer vec zero h = length-replicate s.bucket_size 0
    length-answer vec (suc k) h = elim (Bool-cases (vec_bit vec k == 1)) [
      | inl e ↦ rw e (
          omega (
            arith,
            length-bytes_xor (answer vec k) (bucket_of k),
            length-answer vec k (omega arith),
            length-bucket_of k (omega arith),
          ))
      | inr e ↦ rw e (length-answer vec k (omega arith))
    ]

    pub answer-IsBytes : (vec : List ℕ) (k : ℕ) → IsBytes (answer vec k)
    unfolding answer
    answer-IsBytes vec zero = replicate-IsBytes s.bucket_size
    answer-IsBytes vec (suc k) = elim (Bool-cases (vec_bit vec k == 1)) [
      | inl e ↦ rw e (
          bytes_xor-IsBytes (answer vec k) (bucket_of k) (answer-IsBytes vec k)
            (bucket_of-IsBytes k))
      | inr e ↦ rw e (answer-IsBytes vec k)
    ]

    pub length-answers :
        (reqs : List ℕ) (req_length k : ℕ) → length (answers reqs req_length k) ≡ k * s.bucket_size
    unfolding answers
    length-answers reqs req_length zero = omega arith
    length-answers reqs req_length (suc k) = omega (
      arith,
      length-append (answers reqs req_length k)
          (answer (take req_length (drop (k * req_length) reqs)) s.num_buckets),
      length-answers reqs req_length k,
      length-answer (take req_length (drop (k * req_length) reqs)) s.num_buckets (omega arith),
    )
