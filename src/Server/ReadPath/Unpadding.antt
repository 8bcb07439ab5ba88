-- ===== src/Server/ReadPath/Unpadding.antt =====
-- Removing the pads from the exclusive or of the padded answers leaves the bucket.
use talek.Base.{
  ℕ, ◌*◌, ◌≤◌, ◌<◌, ◌≡◌, refl, sym, ap, ap₂, ◌∙◌, some, List, [], ◌∷◌, map, arith, All, bytes_xor,
  length-bytes_xor, bytes_xor_comm, bytes_xor_assoc, zeros-bytes_xor, bytes_xor_left_comm,
  bytes_xor_cancel, xor_all, HasBytes, length, replicate, length-replicate, copy-same_length, ok,
}
use talek.Common.ReadArgs.{PirArgs}
use talek.Common.ReadArgs.Bucket.{vectors}
use talek.Pir.ShardCpu.{ShardCpu}
use talek.Pir.ShardCpu.Answer.{IsWellFormed, bucket_of, answer, length-answer, length-bucket_of}
use talek.Pir.Client.{num_bytes}
use talek.Pir.Retrieval.Linear.{xor_all-answer, answer-unit_vector}
use talek.Server.Reads.Batch.{fitted}
use talek.Server.Replica.Pads.{HasSeed, pad, pad_lem, padded}
use talek.Server.Frontend.Replies.{length-xor_all_of, IsFull}
use talek.Libtalek.Handle.{Primitives, nil_or, remove_pads}
use talek.Libtalek.Handle.Polls.{HasWholeSeed, Asks}

pub whole-HasSeed : (td : List PirArgs) → All HasWholeSeed td → All HasSeed td
whole-HasSeed [] h = tt
whole-HasSeed (t ∷ td) h = (omega (arith, h.0), whole-HasSeed td h.1)

module _ (p : Primitives) (s : ShardCpu) (n : ℕ) where
  -- The answers of a request without the pads.
  abbrev answer_of : PirArgs → List ℕ
  answer_of a = answer s (fitted n a) s.num_buckets

  -- Removing a pad that the exclusive or has.
  xor_shuffle :
      (z a q x : List ℕ)
      → length q ≡ length z
      → length a ≡ length z
      → length x ≡ length z
      → bytes_xor (bytes_xor z (bytes_xor (bytes_xor a q) x)) q ≡ bytes_xor (bytes_xor z a) x
  xor_shuffle z a q x hq ha hx =
      bytes_xor_comm (bytes_xor z (bytes_xor (bytes_xor a q) x)) q
      ∙ ap (λ t. bytes_xor q (bytes_xor z t))
          (ap (λ t. bytes_xor t x) (bytes_xor_comm a q) ∙ bytes_xor_assoc q a x)
      ∙ ap (bytes_xor q)
          (bytes_xor_left_comm z q (bytes_xor a x) ∙ bytes_xor_comm q (bytes_xor z (bytes_xor a x)))
      ∙ bytes_xor_cancel (bytes_xor z (bytes_xor a x)) q
          (omega (arith, length-bytes_xor z (bytes_xor a x), length-bytes_xor a x, hq, ha, hx))
      ∙ sym (bytes_xor_assoc z a x)

  module _ (w : IsWellFormed s) where
    pub padded-IsFull :
        (td : List PirArgs) → All HasSeed td → All (IsFull (padded p.sip s n) s.bucket_size) td
    padded-IsFull [] h = tt
    padded-IsFull (a ∷ td) h = (
      omega (
        arith,
        length-bytes_xor (answer_of a) (pad p.sip a.pad_seed s.bucket_size),
        length-answer s w (fitted n a) s.num_buckets (omega arith),
        (pad_lem p.sip a.pad_seed s.bucket_size h.0).0,
      ),
      padded-IsFull td h.1,
    )

    remove_pads-padded :
        (td : List PirArgs) (z : List ℕ)
        → All HasSeed td
        → length z ≡ s.bucket_size
        → remove_pads p td (bytes_xor z (xor_all s.bucket_size (map (padded p.sip s n) td)))
          ≡ ok (some (bytes_xor z (xor_all s.bucket_size (map answer_of td))))
    unfolding remove_pads xor_all
    remove_pads-padded [] z h full = refl
    remove_pads-padded (a ∷ td) z h full =
        let q = pad p.sip a.pad_seed s.bucket_size in
        let x = xor_all s.bucket_size (map (padded p.sip s n) td) in
        let long_x = length-xor_all_of (padded p.sip s n) s.bucket_size td (padded-IsFull td h.1) in
        let long_a = length-answer s w (fitted n a) s.num_buckets (omega arith) in
        let (long_q, adds) = pad_lem p.sip a.pad_seed s.bucket_size h.0 in
        let sum = bytes_xor z (bytes_xor (padded p.sip s n a) x) in
        let long_sum : length sum ≡ s.bucket_size = omega (
          arith,
          length-bytes_xor z (bytes_xor (padded p.sip s n a) x),
          length-bytes_xor (padded p.sip s n a) x,
          length-bytes_xor (answer_of a) q,
          long_a,
          long_q,
          long_x,
          full,
        ) in
        ap (λ o. nil_or o (remove_pads p td))
          (adds sum long_sum
            ∙ ap ok (
                xor_shuffle z (answer_of a) q x (omega (arith, long_q, full))
                  (omega (arith, long_a, full)) (omega (arith, long_x, full))))
        ∙ remove_pads-padded td (bytes_xor z (answer_of a)) h.1
            (omega (arith, length-bytes_xor z (answer_of a), full, long_a))
        ∙ ap (λ t. ok (some t))
            (bytes_xor_assoc z (answer_of a) (xor_all s.bucket_size (map answer_of td)))

    answers-bucket :
        (num bucket : ℕ) (td : List PirArgs)
        → n ≡ num_bytes s.num_buckets
        → s.num_buckets ≤ 8 * n
        → bucket < s.num_buckets
        → Asks num s.num_buckets bucket td
        → xor_all s.bucket_size (map answer_of td) ≡ bucket_of s bucket
    answers-bucket num bucket td same wide inside a =
        ap (xor_all s.bucket_size) (unpadded td (rw (← same) at a.same_size))
        ∙ xor_all-answer s w n wide (vectors td) (rw (← same) at a.same_size)
        ∙ ap (λ v. answer s v s.num_buckets) (rw (← same) at a.together)
        ∙ answer-unit_vector s w n wide bucket s.num_buckets (omega (arith, inside, wide)) inside
            (omega arith)
      where
        unpadded :
            (td : List PirArgs)
            → All (HasBytes n) (vectors td)
            → map answer_of td ≡ map (λ v. answer s v s.num_buckets) (vectors td)
        unpadded [] h = refl
        unpadded (t ∷ td) h =
            ap₂ ◌∷◌
              (ap (λ v. answer s v s.num_buckets)
                (copy-same_length (replicate n 0) t.request_vector
                  (length-replicate {A = ℕ} n 0 ∙ sym h.0.0)))
              (unpadded td h.1)

    pub remove_pads-bucket :
        (num bucket : ℕ) (td : List PirArgs)
        → n ≡ num_bytes s.num_buckets
        → s.num_buckets ≤ 8 * n
        → bucket < s.num_buckets
        → Asks num s.num_buckets bucket td
        → remove_pads p td (xor_all s.bucket_size (map (padded p.sip s n) td))
          ≡ ok (some (bucket_of s bucket))
    remove_pads-bucket num bucket td same wide inside a =
        let zeros : List ℕ = replicate s.bucket_size 0 in
        let pads = xor_all s.bucket_size (map (padded p.sip s n) td) in
        let long =
          length-xor_all_of (padded p.sip s n) s.bucket_size td
            (padded-IsFull td (whole-HasSeed td a.seeds)) in
        ap (remove_pads p td) (sym (zeros-bytes_xor s.bucket_size pads (omega (arith, long))))
        ∙ remove_pads-padded td zeros (whole-HasSeed td a.seeds) (length-replicate s.bucket_size 0)
        ∙ ap (λ t. ok (some t))
            (ap (bytes_xor zeros) (answers-bucket num bucket td same wide inside a)
              ∙ zeros-bytes_xor s.bucket_size (bucket_of s bucket)
                  (omega (arith, length-bucket_of s w bucket inside)))
