-- ===== src/Server/Reads/Batch.antt =====
-- A shard cuts the answers of the PIR server into one reply for each request.
use talek.Base.{
  ℕ, zero, suc, ◌+◌, ◌*◌, ◌/◌, ◌≤◌, ◌<◌, ◌≡◌, refl, sym, ap, ◌∙◌, true, false, none, some, List, [],
  ◌∷◌, ◌++◌, map, append_assoc, arith, dec_lt, copy-nil, copy_at-prefix, length, take, drop,
  replicate, copy, copy_at, length-append, length-drop, length-replicate, length-copy, take-length,
  drop-length, take_all, drop-append-le, take-append-le, slice?, slice?-eq-some, Outcome, ok, ltb,
  ◌==◌, ltb-eq-false, ==_iff,
}
use Prim.Native.Nat.add
use native.Mathlib.Nat.{mul_comm}
use talek.Pir.ShardCpu.{ShardCpu}
use talek.Pir.ShardCpu.Answer.{IsWellFormed, answer, answers, length-answer}
use talek.Common.ReadArgs.{PirArgs}
use talek.Common.Protocol.{ReadReply, no_reply}
use talek.Server.Config.{ServerConfig}
use talek.Server.Reads.{copy_vectors, cut_replies, process_reply, batch_read}

-- What of a vector fits in the `n` bytes of a request.
abbrev pub fitted : ℕ → PirArgs → List ℕ
fitted n a = copy (replicate n 0) a.request_vector

-- The request vectors, joined.
vectors : ℕ → List PirArgs → List ℕ
vectors n [] = []
vectors n (a ∷ args) = fitted n a ++ vectors n args

replicate-add : (n m : ℕ) → replicate (n + m) 0 ≡ replicate {A = ℕ} n 0 ++ replicate {A = ℕ} m 0
replicate-add zero m = rw add.zero refl
replicate-add (suc n) m = rw add.suc (ap (λ t. 0 ∷ t) (replicate-add n m))

copy-take :
    (n m : ℕ) (v : List ℕ)
    → copy (replicate (n + m) 0) (take n v) ≡ copy (replicate n 0) v ++ replicate m 0
copy-take zero m v = rw add.zero (copy-nil (replicate m 0))
copy-take (suc n) m [] = rw add.suc (ap (λ t. 0 ∷ t) (replicate-add n m))
copy-take (suc n) m (x ∷ v) = rw add.suc (ap (λ t. x ∷ t) (copy-take n m v))

copy_vectors_lem :
    (n i : ℕ) (before : List ℕ) (args : List PirArgs)
    → length before ≡ n * i
    → copy_vectors n i (before ++ replicate (n * length args) 0) args ≡ before ++ vectors n args
unfolding copy_vectors vectors
copy_vectors_lem n i before [] long = ap (λ (k : ℕ). before ++ replicate k 0) {y = 0} (omega arith)
copy_vectors_lem n i before (a ∷ args) long =
    ap (λ t. copy_vectors n (i + 1) t args)
      (ap (λ (k : ℕ). copy_at (n * i) (before ++ replicate k 0) (take n a.request_vector))
          {y = n + n * length args} (omega arith)
        ∙ ap
            (λ (k : ℕ).
              copy_at k (before ++ replicate (n + n * length args) 0) (take n a.request_vector))
            (sym long)
        ∙ copy_at-prefix before (replicate (n + n * length args) 0) (take n a.request_vector)
        ∙ ap (λ t. before ++ t) (copy-take n (n * length args) a.request_vector)
        ∙ sym (append_assoc before (fitted n a) (replicate (n * length args) 0)))
    ∙ copy_vectors_lem n (i + 1) (before ++ fitted n a) args (
        omega (
          arith,
          length-append before (fitted n a),
          length-copy (replicate {A = ℕ} n 0) a.request_vector,
          length-replicate {A = ℕ} n 0,
          long,
        ))
    ∙ append_assoc before (fitted n a) (vectors n args)

length-vectors : (n : ℕ) (args : List PirArgs) → length (vectors n args) ≡ n * length args
unfolding vectors
length-vectors n [] = omega arith
length-vectors n (a ∷ args) = omega (
  arith,
  length-append (fitted n a) (vectors n args),
  length-copy (replicate {A = ℕ} n 0) a.request_vector,
  length-replicate {A = ℕ} n 0,
  length-vectors n args,
)

-- The reply to one request.
abbrev pub reply_of : ShardCpu → ℕ → PirArgs → ReadReply
reply_of s n a = record no_reply { contents = answer s (fitted n a) s.num_buckets }

module _ (s : ShardCpu) (w : IsWellFormed s) (n : ℕ) where
  length-answers : (reqs : List ℕ) (k : ℕ) → length (answers s reqs n k) ≡ k * s.bucket_size
  unfolding answers
  length-answers reqs zero = omega arith
  length-answers reqs (suc k) =
      let req = take n (drop (k * n) reqs) in
      omega (
        arith,
        length-append (answers s reqs n k) (answer s req s.num_buckets),
        length-answers reqs k,
        length-answer s w req s.num_buckets (omega arith),
      )

  room_for : (k m b : ℕ) → k < m → k * b + b ≤ m * b
  room_for k m b h = grind arith

  -- Answer `k` of `m`.
  nth_answer :
      (reqs : List ℕ) (k m : ℕ)
      → k < m
      → take s.bucket_size (drop (k * s.bucket_size) (answers s reqs n m))
        ≡ answer s (take n (drop (k * n) reqs)) s.num_buckets
  unfolding answers
  nth_answer reqs k zero h = absurd (omega arith)
  nth_answer reqs k (suc m) h =
      let sofar = answers s reqs n m in
      let new = answer s (take n (drop (m * n) reqs)) s.num_buckets in
      let long = length-answers reqs m in
      elim (dec_lt k m) [
        | yes lt ↦
            ap (take s.bucket_size) (
              drop-append-le (k * s.bucket_size) sofar new
                (omega (arith, long, room_for k m s.bucket_size lt)))
            ∙ take-append-le s.bucket_size (drop (k * s.bucket_size) sofar) new (
                omega (
                  arith,
                  long,
                  room_for k m s.bucket_size lt,
                  length-drop (k * s.bucket_size) sofar,
                ))
            ∙ nth_answer reqs k m lt
        | no last ↦
            let same : k ≡ m = omega arith in
            ap (λ j. take s.bucket_size (drop (j * s.bucket_size) (sofar ++ new))) same
            ∙ ap (λ j. take s.bucket_size (drop j (sofar ++ new))) (sym long)
            ∙ ap (take s.bucket_size) (drop-length sofar new)
            ∙ take_all s.bucket_size new (
                omega (
                  arith,
                  length-answer s w (take n (drop (m * n) reqs)) s.num_buckets (omega arith),
                ))
            ∙ ap (λ j. answer s (take n (drop (j * n) reqs)) s.num_buckets) (sym same)
      ]

  slice?-answers :
      (reqs : List ℕ) (k m : ℕ)
      → k < m
      → slice? (answers s reqs n m) (k * s.bucket_size) ((k + 1) * s.bucket_size)
        ≡ some (answer s (take n (drop (k * n) reqs)) s.num_buckets)
  slice?-answers reqs k m h =
      ap (slice? (answers s reqs n m) (k * s.bucket_size)) (grind arith)
      ∙ slice?-eq-some (answers s reqs n m) (k * s.bucket_size) s.bucket_size
          (omega (arith, length-answers reqs m, room_for k m s.bucket_size h))
      ∙ ap some (nth_answer reqs k m h)

  nth_vector :
      (k : ℕ) (before : List ℕ) (a : PirArgs) (args : List PirArgs)
      → length before ≡ n * k
      → take n (drop (k * n) (before ++ vectors n (a ∷ args))) ≡ fitted n a
  unfolding vectors
  nth_vector k before a args long =
      let tail = fitted n a ++ vectors n args in
      let full =
        length-copy (replicate {A = ℕ} n 0) a.request_vector ∙ length-replicate {A = ℕ} n 0 in
      ap (λ j. take n (drop j (before ++ tail))) {y = length before} (long_lem long)
      ∙ ap (take n) (drop-length before tail)
      ∙ ap (λ (j : ℕ). take j tail) (sym full)
      ∙ take-length (fitted n a) (vectors n args)
    where
      long_lem : length before ≡ n * k → k * n ≡ length before
      long_lem long = grind arith

  cut_replies-answers :
      (total k : ℕ) (before : List ℕ) (args : List PirArgs)
      → k + length args ≡ total
      → length before ≡ n * k
      → cut_replies s.bucket_size (length args) k (answers s (before ++ vectors n args) n total)
        ≡ ok (map (reply_of s n) args)
  unfolding cut_replies
  cut_replies-answers total k before [] sum long = refl
  cut_replies-answers total k before (a ∷ args) sum long =
      let full =
        length-copy (replicate {A = ℕ} n 0) a.request_vector ∙ length-replicate {A = ℕ} n 0 in
      let now =
        slice?-answers (before ++ vectors n (a ∷ args)) k total (omega arith)
        ∙ ap (λ v. some (answer s v s.num_buckets)) (nth_vector k before a args long) in
      let shape : before ++ vectors n (a ∷ args) ≡ (before ++ fitted n a) ++ vectors n args =
        unfold vectors in sym (append_assoc before (fitted n a) (vectors n args)) in
      let later =
        cut_replies-answers total (k + 1) (before ++ fitted n a) args (omega arith)
          (omega (arith, length-append before (fitted n a), full)) in
      rw
        (
          now,
          ap (λ t. cut_replies s.bucket_size (length args) (k + 1) (answers s t n total)) shape
              ∙ later,
        )
        refl

-- A PIR server that answers whole batches from the shard `s`.
abbrev pub Serves : ServerConfig → ShardCpu → (List ℕ → Outcome (List ℕ)) → Type 0
Serves conf s server_read =
    (masks : List ℕ)
    → length masks ≡ conf.read_batch * (conf.num_buckets / 8)
    → server_read masks ≡ ok (answers s masks (conf.num_buckets / 8) conf.read_batch)

-- A shard answers each request of a whole batch by the exclusive or that its vector selects.
pub batch_read-answers :
    (conf : ServerConfig) (s : ShardCpu) (server_read : List ℕ → Outcome (List ℕ))
    (args : List PirArgs)
    → IsWellFormed s
    → s.bucket_size ≡ conf.data_size * conf.bucket_depth
    → Serves conf s server_read
    → length args ≡ conf.read_batch
    → batch_read conf server_read args
      ≡ ok (record { batch_error = none; replies = map (reply_of s (conf.num_buckets / 8)) args })
unfolding batch_read process_reply
batch_read-answers conf s server_read args w size serves whole =
    rw (counted, joined, serves (vectors n args) masks_fit, ← size, long_enough, cut) refl
  where
    n : ℕ
    n = conf.num_buckets / 8

    counted : (length args == conf.read_batch) ≡ true
    counted = (==_iff (length args) conf.read_batch).1 whole

    joined : copy_vectors n 0 (replicate (n * conf.read_batch) 0) args ≡ vectors n args
    joined =
        ap (λ (k : ℕ). copy_vectors n 0 (replicate (n * k) 0) args) (sym whole)
        ∙ copy_vectors_lem n 0 [] args (omega arith)

    masks_fit : length (vectors n args) ≡ conf.read_batch * n
    masks_fit = length-vectors n args ∙ ap (λ (k : ℕ). n * k) whole ∙ mul_comm n conf.read_batch

    long_enough :
        ltb
          (length (answers s (vectors n args) n conf.read_batch))
          (conf.read_batch * s.bucket_size)
        ≡ false
    long_enough =
        ltb-eq-false (length (answers s (vectors n args) n conf.read_batch))
          (conf.read_batch * s.bucket_size)
          (omega (arith, length-answers s w n (vectors n args) conf.read_batch))

    cut :
        cut_replies s.bucket_size conf.read_batch 0 (answers s (vectors n args) n conf.read_batch)
        ≡ ok (map (reply_of s n) args)
    cut =
        ap (λ (k : ℕ). cut_replies s.bucket_size k 0 (answers s (vectors n args) n conf.read_batch))
          (sym whole)
        ∙ cut_replies-answers s w n conf.read_batch 0 [] args (omega arith) (omega arith)
