-- ===== src/Drbg/HashDrbg/Overlay.antt =====
-- Overlay of drbg/hash_drbg.go adds to the data the bytes that FillBytes gives.
use talek.Base.{
  ℕ, suc, ◌-◌, ◌≤◌, ◌<◌, ◌≡◌, refl, sym, ap, ◌∙◌, Option, some, List, [], ◌∷◌, ◌++◌, arith, dec_le,
  bytes_xor, length-bytes_xor, bytes_xor_comm, bytes_xor_cancel, length, get_or, take, drop,
  replicate, copy, length-drop, length-replicate, length-copy, get_elem?-get_or, slice?, Returns,
  ok, lt→ltb, ltb-eq-false, le→leb,
}
use talek.Drbg.Seed.{seed_length, unmarshal_binary, key, init_vec}
use talek.Drbg.HashDrbg.{
  HashDrbg, from_seed, new_hash_drbg, next, advance, fill_from, fill_bytes, overlay_from, overlay,
}

module _ (sip : List ℕ → List ℕ → List ℕ) where
  length-next : (d : HashDrbg) → length (next sip d).1 ≡ 8
  unfolding next
  length-next d =
      let ofb = copy d.ofb (sip d.sip_key (d.written ++ d.ofb)) in
      length-copy (replicate 8 0) ofb ∙ length-replicate {A = ℕ} 8 0

  advance-nonempty :
      (d : HashDrbg) (bytes : List ℕ) → 0 < length bytes → 0 < length (advance sip d bytes).1
  unfolding advance
  advance-nonempty d bytes h = elim (dec_le 2 (length bytes)) [
    | yes long ↦ rw (ltb-eq-false (length bytes) 2 long) (omega (arith, length-drop 1 bytes))
    | no short ↦ rw (lt→ltb (length bytes) 2 (omega arith)) (omega (arith, length-next d))
  ]

  -- What the loops of FillBytes and Overlay do with the same bytes.
  record Streams (d : HashDrbg) (bytes : List ℕ) (n : ℕ) (r : HashDrbg × List ℕ) : Type 0 where
    pub long : length r.1 ≡ n
    pub overlaid :
        (ys : List ℕ) → length ys ≡ n → overlay_from sip d bytes ys ≡ ok (bytes_xor ys r.1)

  fill_from-Streams :
      (d : HashDrbg) (bytes xs : List ℕ)
      → 0 < length bytes
      → Returns (fill_from sip d bytes xs) (Streams d bytes (length xs))
  unfolding fill_from overlay_from bytes_xor
  fill_from-Streams d bytes [] h =
      ((d, []), refl, record { long = refl; overlaid = λ ys e. none_left ys e })
    where
      none_left : (ys : List ℕ) → length ys ≡ 0 → overlay_from sip d bytes ys ≡ ok (bytes_xor ys [])
      none_left [] e = refl
      none_left (y ∷ ys) e = absurd (omega arith)
  fill_from-Streams d bytes (x ∷ xs) h =
      let (r, run, s) =
        fill_from-Streams (advance sip d bytes).0 (advance sip d bytes).1 xs
          (advance-nonempty d bytes h) in
      let here = get_elem?-get_or bytes 0 0 h in
      (
        (r.0, get_or bytes 0 0 ∷ r.1),
        rw (here, run),
        record { long = omega (arith, s.long); overlaid = λ ys e. one_more r s ys e },
      )
    where
      one_more :
          (r : HashDrbg × List ℕ)
          → Streams (advance sip d bytes).0 (advance sip d bytes).1 (length xs) r
          → (ys : List ℕ) → length ys ≡ suc (length xs)
          → overlay_from sip d bytes ys ≡ ok (bytes_xor ys (get_or bytes 0 0 ∷ r.1))
      one_more r s [] e = absurd (omega arith)
      one_more r s (y ∷ ys) e = rw (get_elem?-get_or bytes 0 0 h, s.overlaid ys (omega arith))

  pub from_seed-ok :
      (seed : List ℕ) → seed_length ≤ length seed → Returns (from_seed seed) (λ d. Unit {0})
  unfolding from_seed key init_vec slice?
  from_seed-ok seed long = (
    record {
      seed = seed;
      sip_key = take 16 seed;
      written = [];
      ofb = copy (replicate 8 0) (take (length seed - 16) (drop 16 seed));
    },
    rw (le→leb 16 (length seed) (omega arith), le→leb (length seed) (length seed) (omega arith)),
    tt,
  )

  overlay_run :
      (seed contents : List ℕ) (d : HashDrbg)
      → seed_length ≤ length seed
      → from_seed seed ≡ ok d
      → overlay sip seed contents ≡ overlay_from sip (next sip d).0 (next sip d).1 contents
  unfolding overlay unmarshal_binary
  overlay_run seed contents d long run = rw (ltb-eq-false (length seed) seed_length long, run)

  -- With a seed of at least 24 bytes, Overlay adds to the data, by exclusive or, the bytes that
  -- FillBytes of a new generator on the seed puts in a buffer of the same length.
  pub overlay-fill_bytes :
      (rand : ℕ → Option (List ℕ)) (seed contents b : List ℕ)
      → seed_length ≤ length seed
      → length b ≡ length contents
      → Returns (new_hash_drbg rand (some seed)) (λ d. Returns (fill_bytes sip d b) (λ r.
        (length r.1 ≡ length contents) × (overlay sip seed contents ≡ ok (bytes_xor contents r.1))))
  unfolding new_hash_drbg fill_bytes
  overlay-fill_bytes rand seed contents b long same =
      let (d, run, _) = from_seed-ok seed long in
      let (d', block) = next sip d in
      let (r, run', s) = fill_from-Streams d' block b (omega (arith, length-next d)) in
      (
        d,
        run,
        (
          r,
          run',
          (s.long ∙ same, overlay_run seed contents d long run ∙ s.overlaid contents (sym same)),
        ),
      )

  -- With a seed of at least 24 bytes, Overlay returns normally with as many bytes, and a second
  -- Overlay with the same seed gives the first data again.
  pub overlay-overlay :
      (seed contents : List ℕ)
      → seed_length ≤ length seed
      → Returns
          (overlay sip seed contents)
          (λ hidden. (length hidden ≡ length contents) × (overlay sip seed hidden ≡ ok contents))
  overlay-overlay seed contents long =
      let (d, run, _) = from_seed-ok seed long in
      let (r, _, s) =
        fill_from-Streams (next sip d).0 (next sip d).1 contents (omega (arith, length-next d)) in
      let hidden = bytes_xor contents r.1 in
      let same : length hidden ≡ length contents =
        omega (arith, length-bytes_xor contents r.1, s.long) in
      (
        hidden,
        overlay_run seed contents d long run ∙ s.overlaid contents refl,
        (
          same,
          overlay_run seed hidden d long run
              ∙ s.overlaid hidden same
              ∙ ap ok (bytes_xor_comm hidden r.1 ∙ bytes_xor_cancel contents r.1 (sym s.long)),
        ),
      )

  -- One pad for all the data of a length.
  pub overlay-pad :
      (seed : List ℕ) (n : ℕ)
      → seed_length ≤ length seed
      → (p : List ℕ) × (length p ≡ n)
        × ((ys : List ℕ) → length ys ≡ n → overlay sip seed ys ≡ ok (bytes_xor ys p))
  overlay-pad seed n long =
      let (d, run, _) = from_seed-ok seed long in
      let zeros : List ℕ = replicate n 0 in
      let (r, _, s) =
        fill_from-Streams (next sip d).0 (next sip d).1 zeros (omega (arith, length-next d)) in
      let size = length-replicate {A = ℕ} n 0 in
      (r.1, s.long ∙ size, λ ys e. overlay_run seed ys d long run ∙ s.overlaid ys (e ∙ sym size))
