-- ===== src/Pir/ShardCpu/Batch.antt =====
-- The batched read of a shard against its answers.
use native.Mathlib.Nat.{one-le-pow, div-eq_of_eq-mul_left, mul-mod_left}
use talek.Base.{
  ℕ, zero, suc, ◌+◌, ◌-◌, ◌*◌, ◌/◌, ◌%◌, ◌^◌, ◌≤◌, ◌<◌, bit_and, ◌≡◌, refl, sym, ap, ◌∙◌, inl, inr,
  Bool, not, List, ◌++◌, append-nil, append_assoc, arith, bit_of, bit_of-lt, bit_and-pow, length,
  get_or, take, drop, replicate, get_elem?-get_or, for_range, for_range_inv, get_or-drop,
  get_or-take, replicate-add, Outcome, ok, ◌==◌, Bool-cases,
}
use talek.Pir.ShardCpu.{
  ShardCpu, combine0, combine1, combine2, is_selected, visit, scan, read0, read1, read2, read,
}
use talek.Pir.ShardCpu.Answer.{
  IsWellFormed, vec_bit, answer, answers, length-answer, answer-IsBytes, length-answers,
}
use talek.Pir.ShardCpu.Combine.{Combines, combine0-Combines, combine1-Combines, combine2-Combines}

-- The mask test of the loops reads one bit.
mask_test : (byte k : ℕ) → not (bit_and byte (2 ^ k) == 0) ≡ (bit_of byte k == 1)
mask_test byte k =
    rw (bit_and-pow byte k)
      (zero_or_one (bit_of byte k) (2 ^ k) (bit_of-lt byte k) (one-le-pow k 2 (omega arith)))
  where
    zero_or_one : (b p : ℕ) → b < 2 → 1 ≤ p → not (b * p == 0) ≡ (b == 1)
    zero_or_one zero p h p_pos = ground arith
    zero_or_one (suc zero) p h p_pos = ground arith
    zero_or_one (suc (suc b)) p h p_pos = absurd (omega arith)

module _ (s : ShardCpu) (reqs : List ℕ) (req_length : ℕ) where
  -- One request of the batch.
  unfoldable pub request : ℕ → List ℕ
  request r = take req_length (drop (r * req_length) reqs)

  is_selected-vec_bit :
      (r b : ℕ)
      → b / 8 < req_length
      → r * req_length + b / 8 < length reqs
      → is_selected s reqs req_length r b ≡ ok (vec_bit (request r) b == 1)
  unfolding is_selected request
  is_selected-vec_bit r b h fits = rw (
    get_elem?-get_or reqs (r * req_length + b / 8) 0 fits,
    mask_test (get_or reqs (r * req_length + b / 8) 0) (b % 8),
    get_or-take req_length (b / 8) (drop (r * req_length) reqs) 0 h,
    get_or-drop (r * req_length) (b / 8) reqs 0,
  )

  module _ (w : IsWellFormed s) (combine : ℕ → ℕ → List ℕ → Outcome (List ℕ))
      (combines : Combines s combine) (wide : s.num_buckets ≤ 8 * req_length) where
    visit_lem :
        (r b : ℕ) (before after : List ℕ)
        → b < s.num_buckets
        → r * req_length + req_length ≤ length reqs
        → length before ≡ r * s.bucket_size
        → visit s reqs req_length combine r b (before ++ (answer s (request r) b ++ after))
          ≡ ok (before ++ (answer s (request r) (suc b) ++ after))
    unfolding visit answer
    visit_lem r b before after h fits at =
        rw (is_selected-vec_bit r b (omega arith) (omega arith))
          (elim (Bool-cases (vec_bit (request r) b == 1)) [
            | inl e ↦
                rw (e, ← at)
                  (combines before (answer s (request r) b) after b h
                    (length-answer s w (request r) b (omega arith))
                    (answer-IsBytes s w (request r) b))
            | inr e ↦ rw e
          ])

    request_lem :
        (r : ℕ) (before after : List ℕ)
        → r * req_length + req_length ≤ length reqs
        → length before ≡ r * s.bucket_size
        → for_range s.num_buckets 0
            (visit s reqs req_length combine r)
            (before ++ (replicate s.bucket_size 0 ++ after))
          ≡ ok (before ++ (answer s (request r) s.num_buckets ++ after))
    request_lem r before after fits at =
        let (d, run, e) =
          for_range_inv (λ b d. d ≡ before ++ (answer s (request r) b ++ after))
            (visit s reqs req_length combine r) s.num_buckets 0 s.num_buckets (omega arith)
            (λ b d lo hi e. (
              before ++ (answer s (request r) (b + 1) ++ after),
              rw e (
                  visit_lem r b before after hi fits at
                  ∙ ap (λ k. ok (before ++ (answer s (request r) k ++ after))) (omega arith)),
              refl,
            ))
            (before ++ (replicate s.bucket_size 0 ++ after)) (unfold answer in refl) in
        run ∙ ap ok e

    step_lem :
        (n r : ℕ) (d : List ℕ)
        → r < n
        → length reqs ≡ n * req_length
        → d ≡ answers s reqs req_length r ++ replicate ((n - r) * s.bucket_size) 0
        → for_range s.num_buckets 0 (visit s reqs req_length combine r) d
          ≡ ok (answers s reqs req_length (r + 1) ++ replicate ((n - (r + 1)) * s.bucket_size) 0)
    step_lem n r d h size e =
        let before = answers s reqs req_length r in
        let after : List ℕ = replicate ((n - (r + 1)) * s.bucket_size) 0 in
        let split : (n - r) * s.bucket_size ≡ s.bucket_size + (n - (r + 1)) * s.bucket_size =
          ap (λ k. k * s.bucket_size) {y = 1 + (n - (r + 1))} (omega arith) ∙ omega arith in
        let next : answers s reqs req_length (r + 1)
            ≡ before ++ answer s (request r) s.num_buckets =
          ap (answers s reqs req_length) {y = suc r} (omega arith)
          ∙ unfold answers request in refl in
        rw (e, split, replicate-add {A = ℕ} s.bucket_size ((n - (r + 1)) * s.bucket_size) 0)
          (request_lem r before after (grind arith) (length-answers s w reqs req_length r)
            ∙ ap ok (
                sym (append_assoc before (answer s (request r) s.num_buckets) after)
                ∙ ap (λ t. t ++ after) (sym next)))

    -- `scan` joins the answers, whichever way it folds the buckets in.
    pub scan-answers :
        (n : ℕ)
        → 0 < req_length
        → length reqs ≡ n * req_length
        → scan s reqs req_length combine ≡ ok (answers s reqs req_length n)
    unfolding scan
    scan-answers n nonempty size =
        let count : length reqs / req_length ≡ n = div-eq_of_eq-mul_left nonempty size in
        let (d, run, e) =
          for_range_inv
            (λ k d. d ≡ answers s reqs req_length k ++ replicate ((n - k) * s.bucket_size) 0)
            (λ r. for_range s.num_buckets 0 (visit s reqs req_length combine r)) n 0 n (omega arith)
            (λ r d lo hi e. (
              answers s reqs req_length (r + 1) ++ replicate ((n - (r + 1)) * s.bucket_size) 0,
              step_lem n r d hi size e,
              refl,
            ))
            (replicate (n * s.bucket_size) 0)
            (unfold answers in
              ap (λ (k : ℕ). replicate (k * s.bucket_size) 0) {x = n} {y = n - 0} (omega arith)) in
        let none_left : (n - n) * s.bucket_size ≡ 0 =
          ap (λ k. k * s.bucket_size) {y = 0} (omega arith) ∙ omega arith in
        rw count (run ∙ ap ok (e ∙ rw (none_left, append-nil)))

-- `Read` returns the answers to the requests that `reqs` joins, in every version of the loop;
-- version 0, by words, wants buckets of a multiple of 8 bytes.
module _ (u : Bool) (s : ShardCpu) (reqs : List ℕ) (req_length n : ℕ) (w : IsWellFormed s)
    (wide : s.num_buckets ≤ 8 * req_length) (nonempty : 0 < req_length)
    (size : length reqs ≡ n * req_length) where
  pub read1-answers : read1 u s reqs req_length ≡ ok (answers s reqs req_length n)
  unfolding read1
  read1-answers =
      scan-answers s reqs req_length w (combine1 u s) (combine1-Combines u s w) wide n nonempty size

  pub read2-answers : read2 u s reqs req_length ≡ ok (answers s reqs req_length n)
  unfolding read2
  read2-answers =
      scan-answers s reqs req_length w (combine2 s) (combine2-Combines s w) wide n nonempty size

  pub read0-answers :
      s.bucket_size % 8 ≡ 0 → read0 u s reqs req_length ≡ ok (answers s reqs req_length n)
  unfolding read0
  read0-answers m =
      scan-answers s reqs req_length w (combine0 u s) (combine0-Combines u s w m) wide n nonempty
        size

  -- A well-formed shard of whole words, in any read version, answers a batch of n > 0 requests,
  -- each with a bit for each bucket, by the n exclusive ors of the buckets that each request
  -- selects, one after the other.
  pub read-answers :
      s.bucket_size % 8 ≡ 0 → read u s reqs req_length ≡ ok (answers s reqs req_length n)
  unfolding read
  read-answers m = ground (arith, read0-answers m, read1-answers, read2-answers, whole)
    where
      whole : length reqs % req_length ≡ 0
      whole = rw size (mul-mod_left n req_length)
