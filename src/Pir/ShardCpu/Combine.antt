-- ===== src/Pir/ShardCpu/Combine.antt =====
-- The three ways of folding a bucket into a response do the same.
use talek.Base.{
  ℕ, ◌+◌, ◌-◌, ◌*◌, ◌%◌, ◌≤◌, ◌<◌, bit_xor, ◌≡◌, sym, ap, ap₂, ◌∙◌, subst, Bool, some, List, ◌++◌,
  arith, IsBytes, bytes_xor, length-bytes_xor, get_or-bytes_xor, length, get_elem?, get_or, drop,
  copy_at, length-append, length-drop, take-append-drop, drop-length, take_all, copy_at-append,
  copy_at_end, get_elem?-get_or, slice?, slice?-eq-some, slice?-append, Returns, for_range_inv,
  get_or-append_left, get_or-append_right, Outcome, ok,
}
use talek.Pir.Xor.{xor_byte}
use talek.Pir.Xor.Laws.{
  IsXored, xor_byte-IsXored, IsXored-start, IsXored-unique, bytes_in_place, words_in_place,
}
use talek.Pir.ShardCpu.{ShardCpu, combine0, combine1, combine2, xor_place}
use talek.Pir.ShardCpu.Answer.{
  IsWellFormed, bucket_of, length-bucket_of, bucket_of-IsBytes, bucket-fits,
}

-- Folding bucket `b` into the response at `length before` changes that response alone.
abbrev pub Combines : ShardCpu → (ℕ → ℕ → List ℕ → Outcome (List ℕ)) → Type 0
Combines s combine =
    (before acc after : List ℕ) (b : ℕ)
    → b < s.num_buckets
    → length acc ≡ s.bucket_size
    → IsBytes acc
    → combine (length before) b (before ++ (acc ++ after))
      ≡ ok (before ++ (bytes_xor acc (bucket_of s b) ++ after))

module _ (u : Bool) (s : ShardCpu) (w : IsWellFormed s) where
  bucket_slice :
      (b : ℕ)
      → b < s.num_buckets
      → slice? s.contents (b * s.bucket_size) (b * s.bucket_size + s.bucket_size)
        ≡ some (bucket_of s b)
  unfolding bucket_of
  bucket_slice b h =
      slice?-eq-some s.contents (b * s.bucket_size) s.bucket_size (bucket-fits s w b h)

  response_slice :
      (before acc after : List ℕ)
      → length acc ≡ s.bucket_size
      → slice? (before ++ (acc ++ after)) (length before) (length before + s.bucket_size) ≡ some acc
  response_slice before acc after e =
      ap (λ n. slice? (before ++ (acc ++ after)) (length before) (length before + n)) (sym e)
      ∙ slice?-append before acc after

  write_back :
      (before acc after : List ℕ) (b : ℕ)
      → b < s.num_buckets
      → length acc ≡ s.bucket_size
      → copy_at (length before) (before ++ (acc ++ after)) (bytes_xor acc (bucket_of s b))
        ≡ before ++ (bytes_xor acc (bucket_of s b) ++ after)
  write_back before acc after b h e =
      copy_at-append before acc after (bytes_xor acc (bucket_of s b))
        (omega (arith, length-bytes_xor acc (bucket_of s b), length-bucket_of s w b h))

  pub combine1-Combines : Combines s (combine1 u s)
  unfolding combine1
  combine1-Combines before acc after b h e acc_bytes = rw (
    bucket_slice b h,
    response_slice before acc after e,
    bytes_in_place acc (bucket_of s b) acc_bytes (bucket_of-IsBytes s w b) u
        (omega (arith, length-bucket_of s w b h)),
    write_back before acc after b h e,
  )

  pub combine0-Combines : s.bucket_size % 8 ≡ 0 → Combines s (combine0 u s)
  unfolding combine0
  combine0-Combines m before acc after b h e acc_bytes = rw (
    bucket_slice b h,
    response_slice before acc after e,
    words_in_place acc (bucket_of s b) acc_bytes (bucket_of-IsBytes s w b) u
        (omega (arith, length-bucket_of s w b h)) (rw (length-bucket_of s w b h) m),
    write_back before acc after b h e,
  )

-- The byte loop of `read2`, which reads the response that it writes.
xor_place-step :
    (response bucket : List ℕ) (o : ℕ) (d : List ℕ)
    → o < length response
    → o < length bucket
    → IsXored response response bucket o d
    → Returns (xor_place bucket o d) (IsXored response response bucket (o + 1))
unfolding xor_place
xor_place-step response bucket o d ho hb t =
    let (d', run, t') = xor_byte-IsXored response response bucket o d ho hb ho t in
    let same : get_elem? d o ≡ get_elem? response o =
      get_elem?-get_or d o 0 (omega (arith, t.same_length))
      ∙ ap some (t.outside o (omega arith))
      ∙ sym (get_elem?-get_or response o 0 ho) in
    (d', rw same (unfold xor_byte in run), t')

-- What `read2` leaves in the tail of the responses.
IsXored-prefix :
    (acc bucket rest more : List ℕ)
    → length acc ≡ length bucket
    → IsXored
        (acc ++ rest)
        (acc ++ rest)
        (bucket ++ more)
        (length acc)
        (bytes_xor acc bucket ++ rest)
IsXored-prefix acc bucket rest more e = record {
  same_length = omega (
    arith,
    length-append acc rest,
    length-append (bytes_xor acc bucket) rest,
    length-bytes_xor acc bucket,
  );
  inside = λ j h.
      get_or-append_left (bytes_xor acc bucket) rest j 0
        (omega (arith, length-bytes_xor acc bucket))
      ∙ get_or-bytes_xor acc bucket j h (omega arith)
      ∙ sym (
          ap₂ bit_xor (get_or-append_left acc rest j 0 h)
            (get_or-append_left bucket more j 0 (omega arith)));
  outside = λ j h.
      get_or-append_right (bytes_xor acc bucket) rest j 0
        (omega (arith, length-bytes_xor acc bucket))
      ∙ ap (λ n. get_or rest (j - n) 0) (omega (arith, length-bytes_xor acc bucket))
      ∙ sym (get_or-append_right acc rest j 0 h);
}

module _ (s : ShardCpu) (w : IsWellFormed s) where
  bucket_tail :
      (b : ℕ)
      → drop (b * s.bucket_size) s.contents
        ≡ bucket_of s b ++ drop s.bucket_size (drop (b * s.bucket_size) s.contents)
  unfolding bucket_of
  bucket_tail b = sym (take-append-drop s.bucket_size (drop (b * s.bucket_size) s.contents))

  tail_slice :
      {A : Type 0} (xs : List A) (n : ℕ)
      → n ≤ length xs
      → slice? xs n (length xs) ≡ some (drop n xs)
  tail_slice xs n h =
      ap (slice? xs n) {x = length xs} {y = n + (length xs - n)} (omega arith)
      ∙ slice?-eq-some xs n (length xs - n) (omega arith)
      ∙ ap some (take_all (length xs - n) (drop n xs) (omega (arith, length-drop n xs)))

  pub combine2-Combines : Combines s (combine2 s)
  unfolding combine2
  combine2-Combines before acc after b h e acc_bytes =
      let bucket = bucket_of s b in
      let more = drop s.bucket_size (drop (b * s.bucket_size) s.contents) in
      let size = length-bucket_of s w b h in
      let (d, run, t) =
        for_range_inv (IsXored (acc ++ after) (acc ++ after) (bucket ++ more))
          (xor_place (bucket ++ more)) s.bucket_size 0 s.bucket_size (omega arith)
          (λ k r lo hi u.
            xor_place-step (acc ++ after) (bucket ++ more) k r
              (omega (arith, length-append acc after))
              (omega (arith, length-append bucket more, size)) u)
          (acc ++ after) (IsXored-start (acc ++ after) (acc ++ after) (bucket ++ more)) in
      let result : d ≡ bytes_xor acc bucket ++ after =
        IsXored-unique (acc ++ after) (acc ++ after) (bucket ++ more) s.bucket_size t (
          subst
            (λ n.
              IsXored (acc ++ after) (acc ++ after) (bucket ++ more) n
                (bytes_xor acc bucket ++ after))
            e (IsXored-prefix acc bucket after more (omega (arith, size)))) in
      rw
        (
          tail_slice s.contents (b * s.bucket_size) (omega (arith, bucket-fits s w b h)),
          bucket_tail b,
          tail_slice (before ++ (acc ++ after)) (length before)
              (omega (arith, length-append before (acc ++ after))),
          drop-length before (acc ++ after),
          run,
          result,
        )
        (ap ok (
          copy_at_end before (acc ++ after) (bytes_xor acc bucket ++ after) (
            omega (
              arith,
              length-append acc after,
              length-append (bytes_xor acc bucket) after,
              length-bytes_xor acc bucket,
              size,
            ))))
