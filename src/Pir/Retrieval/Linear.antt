-- ===== src/Pir/Retrieval/Linear.antt =====
-- The answer to an exclusive or of request vectors is the exclusive or of their answers.
use talek.Base.{
  ℕ, zero, suc, ◌+◌, ◌*◌, ◌/◌, ◌%◌, ◌≤◌, ◌<◌, ◌≡◌, refl, sym, ap, ◌∙◌, List, [], ◌∷◌, map, arith,
  ℕ_discrete, bit_of, bit_of-bit_xor, bit_of-zero, bit_of-lt, All, bytes_xor, length-bytes_xor,
  bytes_xor_comm, bytes_xor_assoc, bytes_xor_self, zeros-bytes_xor, get_or-bytes_xor,
  bytes_xor_left_comm, bytes_xor-zeros, xor_all, HasBytes, length-xor_all, length, get_or,
  replicate, length-replicate, get_or-replicate, ◌==◌, if◌then◌else◌,
}
use talek.Pir.ShardCpu.{ShardCpu}
use talek.Pir.ShardCpu.Answer.{
  IsWellFormed, vec_bit, bucket_of, length-bucket_of, answer, length-answer,
}
use talek.Pir.Client.Vectors.{unit_vector}
use talek.Pir.Client.UnitBits.{vec_bit-unit_vector_self, vec_bit-unit_vector_ne}

vec_bit-bytes_xor :
    (v w : List ℕ) (n k : ℕ)
    → length v ≡ n
    → length w ≡ n
    → k / 8 < n
    → vec_bit (bytes_xor v w) k ≡ (vec_bit v k + vec_bit w k) % 2
vec_bit-bytes_xor v w n k ev ew h =
    ap (λ b. bit_of b (k % 8)) (get_or-bytes_xor v w (k / 8) (omega arith) (omega arith))
    ∙ bit_of-bit_xor (get_or v (k / 8) 0) (get_or w (k / 8) 0) (k % 8)

module _ (s : ShardCpu) (wf : IsWellFormed s) (n : ℕ) (wide : s.num_buckets ≤ 8 * n) where
  -- Adding a bucket to one of two answers, to the other, to both or to neither.
  pick : ℕ → List ℕ → List ℕ → List ℕ
  pick b acc bucket = if b == 1 then bytes_xor acc bucket else acc

  pick-bytes_xor :
      (x y : ℕ) (p q bucket : List ℕ)
      → x < 2
      → y < 2
      → length bucket ≡ length p
      → pick ((x + y) % 2) (bytes_xor p q) bucket ≡ bytes_xor (pick x p bucket) (pick y q bucket)
  unfolding pick
  pick-bytes_xor zero zero p q bucket hx hy e = refl
  pick-bytes_xor zero (suc zero) p q bucket hx hy e = bytes_xor_assoc p q bucket
  pick-bytes_xor (suc zero) zero p q bucket hx hy e =
      bytes_xor_assoc p q bucket
      ∙ ap (bytes_xor p) (bytes_xor_comm q bucket)
      ∙ sym (bytes_xor_assoc p bucket q)
  pick-bytes_xor (suc zero) (suc zero) p q bucket hx hy e = sym (
      bytes_xor_assoc p bucket (bytes_xor q bucket)
      ∙ ap (bytes_xor p)
          (bytes_xor_left_comm bucket q bucket ∙ ap (bytes_xor q) (bytes_xor_self bucket))
      ∙ sym (bytes_xor_assoc p q (replicate (length bucket) 0))
      ∙ bytes_xor-zeros (length bucket) (bytes_xor p q) (omega (arith, length-bytes_xor p q)))
  pick-bytes_xor (suc (suc x)) y p q bucket hx hy e = absurd (omega arith)
  pick-bytes_xor x (suc (suc y)) p q bucket hx hy e = absurd (omega arith)

  answer-bytes_xor :
      (v w : List ℕ) (k : ℕ)
      → length v ≡ n
      → length w ≡ n
      → k ≤ s.num_buckets
      → answer s (bytes_xor v w) k ≡ bytes_xor (answer s v k) (answer s w k)
  unfolding answer
  answer-bytes_xor v w zero ev ew h = sym (
      zeros-bytes_xor s.bucket_size (replicate s.bucket_size 0)
        (omega (arith, length-replicate {A = ℕ} s.bucket_size 0)))
  answer-bytes_xor v w (suc k) ev ew h =
      rw (vec_bit-bytes_xor v w n k ev ew (omega arith), answer-bytes_xor v w k ev ew (omega arith))
        (unfold pick in
          (pick-bytes_xor (vec_bit v k) (vec_bit w k) (answer s v k) (answer s w k) (bucket_of s k)
            (bit_of-lt (get_or v (k / 8) 0) (k % 8)) (bit_of-lt (get_or w (k / 8) 0) (k % 8))
            (omega (
              arith,
              length-bucket_of s wf k (omega arith),
              length-answer s wf v k (omega arith),
            ))))

  answer-zeros : (k : ℕ) → answer s (replicate n 0) k ≡ replicate s.bucket_size 0
  unfolding answer
  answer-zeros zero = refl
  answer-zeros (suc k) =
      rw (get_or-replicate {A = ℕ} n (k / 8) 0, bit_of-zero (k % 8)) (answer-zeros k)

  pub xor_all-answer :
      (vecs : List (List ℕ))
      → All (HasBytes n) vecs
      → xor_all s.bucket_size (map (λ v. answer s v s.num_buckets) vecs)
        ≡ answer s (xor_all n vecs) s.num_buckets
  unfolding xor_all
  xor_all-answer [] h = sym (answer-zeros s.num_buckets)
  xor_all-answer (v ∷ vecs) h =
      ap (bytes_xor (answer s v s.num_buckets)) (xor_all-answer vecs h.1)
      ∙ sym (
          answer-bytes_xor v (xor_all n vecs) s.num_buckets h.0.0 (length-xor_all n vecs h.1)
            (omega arith))

  answer-unit_vector_below :
      (bucket k : ℕ)
      → bucket / 8 < n
      → k ≤ bucket
      → answer s (unit_vector n bucket) k ≡ replicate s.bucket_size 0
  unfolding answer
  answer-unit_vector_below bucket zero h le = refl
  answer-unit_vector_below bucket (suc k) h le =
      rw (vec_bit-unit_vector_ne n bucket k h (λ e. omega arith))
        (answer-unit_vector_below bucket k h (omega arith))

  -- The answer to the unit vector is the bucket.
  pub answer-unit_vector :
      (bucket k : ℕ)
      → bucket / 8 < n
      → bucket < k
      → k ≤ s.num_buckets
      → answer s (unit_vector n bucket) k ≡ bucket_of s bucket
  unfolding answer
  answer-unit_vector bucket zero h lt le = absurd (omega arith)
  answer-unit_vector bucket (suc k) h lt le = elim (ℕ_discrete bucket k) [
    | yes e ↦ rw (← e) (
        rw
          (
            vec_bit-unit_vector_self n bucket h,
            answer-unit_vector_below bucket bucket h (omega arith),
          )
          (zeros-bytes_xor s.bucket_size (bucket_of s bucket)
            (omega (arith, length-bucket_of s wf bucket (omega arith)))))
    | no ne ↦
        rw (vec_bit-unit_vector_ne n bucket k h ne)
          (answer-unit_vector bucket k h (omega arith) (omega arith))
  ]
