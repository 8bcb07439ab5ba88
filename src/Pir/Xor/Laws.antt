-- ===== src/Pir/Xor/Laws.antt =====
-- What the loops of pir/xor/xor.go compute, index by index.
use talek.Base.{
  ℕ, ◌+◌, ◌-◌, ◌*◌, ◌/◌, ◌%◌, ◌≤◌, ◌<◌, bit_xor, ◌≡◌, refl, sym, ap, ap₂, ◌∙◌, subst, Bool, true,
  false, List, arith, dec_lt, IsBytes, bytes_xor, length-bytes_xor, get_or-bytes_xor, le_word,
  le_bytes, le_bytes-bit_xor, length, get_or, set, take, drop, copy_at, length-set, length-take,
  length-drop, length-copy_at, get_elem?-get_or, get_or-set_self, get_or-set_ne, get_or_ext,
  slice?-eq-some, Returns, for_range, for_range_inv, get_or-drop, get_or-take,
  get_or-copy_at_inside, get_or-copy_at_before, get_or-copy_at_after, All-take, All-drop, ok,
  lt→ltb, le→leb,
}
use talek.Pir.Xor.{
  store, xor_byte, word_at, xor_word, shorter, fast_xor_bytes, safe_xor_bytes, bytes,
  fast_xor_words, words,
}

-- `d` is `dst` with the exclusive or of `a` and `b` at the first `n` places.
pub record IsXored (dst a b : List ℕ) (n : ℕ) (d : List ℕ) : Type 0 where
  pub same_length : length d ≡ length dst
  pub inside : (j : ℕ) → j < n → get_or d j 0 ≡ bit_xor (get_or a j 0) (get_or b j 0)
  pub outside : (j : ℕ) → n ≤ j → get_or d j 0 ≡ get_or dst j 0

module _ (dst a b : List ℕ) where
  pub xor_byte-IsXored :
      (i : ℕ) (d : List ℕ)
      → i < length a
      → i < length b
      → i < length dst
      → IsXored dst a b i d
      → Returns (xor_byte a b i d) (IsXored dst a b (i + 1))
  unfolding xor_byte store
  xor_byte-IsXored i d ha hb hd t = (
    set d i v,
    rw (get_elem?-get_or a i 0 ha, get_elem?-get_or b i 0 hb, lt→ltb i (length d) (omega arith)),
    record {
      same_length = length-set d i v ∙ t.same_length;
      inside = λ j p. ground (arith, t.inside j, get_or-set_self d i v 0, get_or-set_ne d i j v 0);
      outside = λ j p. ground (arith, t.outside j, get_or-set_ne d i j v 0);
    },
  )
    where
      v : ℕ
      v = bit_xor (get_or a i 0) (get_or b i 0)

-- The eight bytes of a word.
block : List ℕ → ℕ → List ℕ
block a i = take 8 (drop (i * 8) a)

length-block : (a : List ℕ) (i : ℕ) → i * 8 + 8 ≤ length a → length (block a i) ≡ 8
unfolding block
length-block a i h = omega (arith, length-take 8 (drop (i * 8) a), length-drop (i * 8) a)

get_or-block :
    (a : List ℕ) (i j : ℕ)
    → i * 8 ≤ j
    → j < i * 8 + 8
    → get_or (block a i) (j - i * 8) 0 ≡ get_or a j 0
unfolding block
get_or-block a i j lo hi =
    get_or-take 8 (j - i * 8) (drop (i * 8) a) 0 (omega arith)
    ∙ get_or-drop (i * 8) (j - i * 8) a 0
    ∙ ap (λ k. get_or a k 0) (omega arith)

word_at-block : (a : List ℕ) (i : ℕ) → i * 8 + 8 ≤ length a → word_at a i ≡ ok (le_word (block a i))
unfolding word_at block
word_at-block a i h = rw (slice?-eq-some a (i * 8) 8 h)

module _ (dst a b : List ℕ) (a_bytes : IsBytes a) (b_bytes : IsBytes b) where
  -- What a word step writes.
  mixed : ℕ → List ℕ
  mixed i = bytes_xor (block a i) (block b i)

  module _ (i : ℕ) (ha : i * 8 + 8 ≤ length a) (hb : i * 8 + 8 ≤ length b) where
    block-IsBytes_a : IsBytes (block a i)
    unfolding block
    block-IsBytes_a =
        All-take (λ x. x < 256) 8 (drop (i * 8) a) (All-drop (λ x. x < 256) (i * 8) a a_bytes)

    block-IsBytes_b : IsBytes (block b i)
    unfolding block
    block-IsBytes_b =
        All-take (λ x. x < 256) 8 (drop (i * 8) b) (All-drop (λ x. x < 256) (i * 8) b b_bytes)

    word-mixed : le_bytes 8 (bit_xor (le_word (block a i)) (le_word (block b i))) ≡ mixed i
    unfolding mixed
    word-mixed =
        ap (λ n. le_bytes n (bit_xor (le_word (block a i)) (le_word (block b i))))
          (sym (length-block a i ha))
        ∙ le_bytes-bit_xor (block a i) (block b i)
            (omega (arith, length-block a i ha, length-block b i hb)) block-IsBytes_a
            block-IsBytes_b

    length-mixed : length (mixed i) ≡ 8
    unfolding mixed
    length-mixed =
        omega (
          arith,
          length-bytes_xor (block a i) (block b i),
          length-block a i ha,
          length-block b i hb,
        )

    get_or-mixed :
        (j : ℕ)
        → i * 8 ≤ j
        → j < i * 8 + 8
        → get_or (mixed i) (j - i * 8) 0 ≡ bit_xor (get_or a j 0) (get_or b j 0)
    unfolding mixed
    get_or-mixed j lo hi =
        get_or-bytes_xor (block a i) (block b i) (j - i * 8) (omega (arith, length-block a i ha))
          (omega (arith, length-block b i hb))
        ∙ ap₂ bit_xor (get_or-block a i j lo hi) (get_or-block b i j lo hi)

    xor_word-IsXored :
        (d : List ℕ)
        → i * 8 + 8 ≤ length dst
        → IsXored dst a b (i * 8) d
        → Returns (xor_word a b i d) (IsXored dst a b ((i + 1) * 8))
    unfolding xor_word
    xor_word-IsXored d hd t = (
      copy_at (i * 8) d (mixed i),
      rw (
        word_at-block a i ha,
        word_at-block b i hb,
        word-mixed,
        le→leb (i * 8 + 8) (length d) (omega (arith, t.same_length)),
      ),
      record {
        same_length = length-copy_at (i * 8) d (mixed i) ∙ t.same_length;
        inside = inside;
        outside = λ j p.
            get_or-copy_at_after (i * 8) d (mixed i) j 0 (omega (arith, length-mixed))
            ∙ t.outside j (omega arith);
      },
    )
      where
        inside :
            (j : ℕ)
            → j < (i + 1) * 8
            → get_or (copy_at (i * 8) d (mixed i)) j 0 ≡ bit_xor (get_or a j 0) (get_or b j 0)
        inside j p = elim (dec_lt j (i * 8)) [
          | yes q ↦ get_or-copy_at_before (i * 8) d (mixed i) j 0 q ∙ t.inside j q
          | no q ↦
              get_or-copy_at_inside (i * 8) d (mixed i) j 0 (omega arith)
                (omega (arith, length-mixed)) (omega (arith, length-mixed, t.same_length))
              ∙ get_or-mixed j (omega arith) (omega arith)
        ]

module _ (dst a b : List ℕ) where
  pub IsXored-start : IsXored dst a b 0 dst
  IsXored-start = record {
    same_length = refl;
    inside = λ j p. absurd (omega arith);
    outside = λ j p. refl;
  }

  xor_byte-loop :
      (i n j : ℕ) (d : List ℕ)
      → i + n ≡ j
      → j ≤ length a
      → j ≤ length b
      → j ≤ length dst
      → IsXored dst a b i d
      → Returns (for_range n i (xor_byte a b) d) (IsXored dst a b j)
  xor_byte-loop i n j d e ha hb hd t =
      for_range_inv (IsXored dst a b) (xor_byte a b) n i j e
        (λ k s lo hi u. xor_byte-IsXored dst a b k s (omega arith) (omega arith) (omega arith) u) d
        t

  xor_word-loop :
      IsBytes a
      → IsBytes b
      → (n : ℕ) → n * 8 ≤ length a
      → n * 8 ≤ length b
      → n * 8 ≤ length dst
      → Returns (for_range n 0 (xor_word a b) dst) (IsXored dst a b (n * 8))
  xor_word-loop a_bytes b_bytes n ha hb hd =
      for_range_inv (λ k. IsXored dst a b (k * 8)) (xor_word a b) n 0 n (omega arith)
        (λ k s lo hi u.
          xor_word-IsXored dst a b a_bytes b_bytes k (omega arith) (omega arith) s (omega arith) u)
        dst IsXored-start

  pub IsXored-unique : {d e : List ℕ} (n : ℕ) → IsXored dst a b n d → IsXored dst a b n e → d ≡ e
  IsXored-unique {d} {e} n t u = get_or_ext 0 d e (t.same_length ∙ sym u.same_length) λ j p.
      elim (dec_lt j n) [
        | yes q ↦ t.inside j q ∙ sym (u.inside j q)
        | no q ↦ t.outside j (omega arith) ∙ sym (u.outside j (omega arith))
      ]

  shorter-le : (shorter a b ≤ length a) × (shorter a b ≤ length b)
  shorter-le = ground arith

  -- `safeXORBytes` neither panics nor changes a place past the shorter source.
  pub safe_xor_bytes-IsXored :
      shorter a b ≤ length dst
      → Returns
          (safe_xor_bytes dst a b)
          (λ r. IsXored dst a b (shorter a b) r.0 × (r.1 ≡ shorter a b))
  unfolding safe_xor_bytes
  safe_xor_bytes-IsXored h =
      let (d, run, t) =
        xor_byte-loop 0 (shorter a b) (shorter a b) dst (omega arith) shorter-le.0 shorter-le.1 h
          IsXored-start in
      ((d, shorter a b), rw run, (t, refl))

  pub fast_xor_bytes-IsXored :
      IsBytes a
      → IsBytes b
      → shorter a b ≤ length dst
      → Returns
          (fast_xor_bytes dst a b)
          (λ r. IsXored dst a b (shorter a b) r.0 × (r.1 ≡ shorter a b))
  unfolding fast_xor_bytes
  fast_xor_bytes-IsXored a_bytes b_bytes h =
      let n = shorter a b in
      let le = shorter-le in
      let (d, run, t) =
        xor_word-loop a_bytes b_bytes (n / 8) (omega (arith, le)) (omega (arith, le))
          (omega (arith, h)) in
      let t' : IsXored dst a b (n - n % 8) d = subst (λ k. IsXored dst a b k d) (omega arith) t in
      let (d', run', t'') = xor_byte-loop (n - n % 8) (n % 8) n d (omega arith) le.0 le.1 h t' in
      ((d', n), rw (run, run'), (t'', refl))

  -- On byte slices, and a target that has room for the shorter of them, the loop by machine words
  -- does what the loop by bytes does, with the same count.
  pub fast_xor_bytes-eq-safe_xor_bytes :
      IsBytes a
      → IsBytes b
      → shorter a b ≤ length dst
      → fast_xor_bytes dst a b ≡ safe_xor_bytes dst a b
  fast_xor_bytes-eq-safe_xor_bytes a_bytes b_bytes h =
      let (r, run, (t, e)) = fast_xor_bytes-IsXored a_bytes b_bytes h in
      let (r', run', (t', e')) = safe_xor_bytes-IsXored h in
      run ∙ ap ok (ground (arith, IsXored-unique (shorter a b) t t')) ∙ sym run'

-- In place, over all of `xs`.
IsXored-eq-bytes_xor :
    (xs ys d : List ℕ)
    → length xs ≤ length ys
    → IsXored xs xs ys (length xs) d
    → d ≡ bytes_xor xs ys
IsXored-eq-bytes_xor xs ys d h t =
    get_or_ext 0 d (bytes_xor xs ys) (omega (arith, t.same_length, length-bytes_xor xs ys)) λ j p.
      let q : j < length xs = omega (arith, t.same_length) in
      t.inside j q ∙ sym (get_or-bytes_xor xs ys j q (omega arith))

module _ (xs ys : List ℕ) (xs_bytes : IsBytes xs) (ys_bytes : IsBytes ys) where
  fast_xor_bytes_in_place :
      length xs ≤ length ys → fast_xor_bytes xs xs ys ≡ ok (bytes_xor xs ys, length xs)
  fast_xor_bytes_in_place h =
      let n : shorter xs ys ≡ length xs = ground arith in
      let (r, run, (t, e)) = fast_xor_bytes-IsXored xs xs ys xs_bytes ys_bytes (omega (arith, n)) in
      let d = IsXored-eq-bytes_xor xs ys r.0 h (subst (λ k. IsXored xs xs ys k r.0) n t) in
      run ∙ ap ok (ground (arith, d, e, n))

  -- `Bytes(xs, xs, ys)` on either kind of machine.
  pub bytes_in_place :
      (u : Bool) → length xs ≤ length ys → bytes u xs xs ys ≡ ok (bytes_xor xs ys, length xs)
  unfolding bytes
  bytes_in_place true h = fast_xor_bytes_in_place h
  bytes_in_place false h =
      let n : shorter xs ys ≡ length xs = ground arith in
      sym (fast_xor_bytes-eq-safe_xor_bytes xs xs ys xs_bytes ys_bytes (omega (arith, n)))
      ∙ fast_xor_bytes_in_place h

  -- The count that `Bytes` returns.
  pub bytes_count : (u : Bool) → Returns (bytes u xs xs ys) (λ r. r.1 ≡ shorter xs ys)
  unfolding bytes
  bytes_count true =
      let (r, run, t) = fast_xor_bytes-IsXored xs xs ys xs_bytes ys_bytes (shorter-le xs xs ys).0 in
      (r, run, t.1)
  bytes_count false =
      let (r, run, t) = safe_xor_bytes-IsXored xs xs ys (shorter-le xs xs ys).0 in (r, run, t.1)

  -- `Words` drops a tail that is no whole word, so it needs a length that is a multiple of 8.
  pub words_in_place :
      (u : Bool)
      → length xs ≡ length ys
      → length ys % 8 ≡ 0
      → words u xs xs ys ≡ ok (bytes_xor xs ys)
  unfolding words
  words_in_place true e m =
      unfold fast_xor_words in
      (let whole : length ys / 8 * 8 ≡ length xs = omega arith in
        let (d, run, t) =
          xor_word-loop xs xs ys xs_bytes ys_bytes (length ys / 8) (omega (arith, whole))
            (omega (arith, whole)) (omega (arith, whole)) in
        run
        ∙ ap ok (
            IsXored-eq-bytes_xor xs ys d (omega arith) (subst (λ k. IsXored xs xs ys k d) whole t)))
  words_in_place false e m = rw (
    sym (fast_xor_bytes-eq-safe_xor_bytes xs xs ys xs_bytes ys_bytes (shorter-le xs xs ys).0),
    fast_xor_bytes_in_place (omega arith),
  )
