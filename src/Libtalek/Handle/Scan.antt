-- ===== src/Libtalek/Handle/Scan.antt =====
-- What the loop over the messages of a bucket finds: the first that decrypts.
use talek.Base.{
  ℕ, zero, suc, ◌+◌, ◌*◌, ◌^◌, ◌≤◌, ◌<◌, ◌≡◌, refl, sym, ap, ◌∙◌, subst, ◌⊎◌, inl, inr, true, false,
  Option, none, some, List, [], ◌∷◌, ◌++◌, append_assoc, arith, dec_le, All, length, concat,
  length-append, slice?, slice?-append, Returns, Error, Outcome, ok, err, panic, leb, Option-cases,
  le→leb, leb-eq-false,
}
use talek.Common.ReadArgs.{PirArgs}
use talek.Libtalek.Message.Sizes.{HasLength}
use talek.Libtalek.Handle.{
  Primitives, Handle, decrypt, scan, return_or, remove_pads, seqno_bytes, retrieve_response,
}
use talek.Libtalek.Handle.Polls.{seqno_bytes-Returns}

-- Decrypt returns an error.
abbrev pub IsForeign : Primitives → Handle → List ℕ → List ℕ → Type 0
IsForeign c h nonce slot = (e : Error) × (decrypt c h slot nonce ≡ err e)

pub length-concat :
    (n : ℕ) (ss : List (List ℕ)) → All (HasLength n) ss → length (concat ss) ≡ length ss * n
length-concat n [] h = omega arith
length-concat n (s ∷ ss) h = omega (arith, length-append s (concat ss), h.0, length-concat n ss h.1)

module _ (c : Primitives) (h : Handle) (size : ℕ) (nonce : List ℕ) (some_size : 0 < size) where
  -- One round.
  scan_round :
      (fuel : ℕ) (before slot after : List ℕ)
      → length slot ≡ size
      → scan c (suc fuel) h size nonce (before ++ (slot ++ after)) (length before)
        ≡ return_or
            (decrypt c h slot nonce)
            (scan c fuel h size nonce (before ++ (slot ++ after)) (length before + size))
  unfolding scan
  scan_round fuel before slot after long = rw (inside, cut) refl
    where
      inside : leb (length (before ++ (slot ++ after))) (length before) ≡ false
      inside = leb-eq-false (length (before ++ (slot ++ after))) (length before) (
          omega (
            arith,
            length-append before (slot ++ after),
            length-append slot after,
            long,
            some_size,
          ))

      cut : slice? (before ++ (slot ++ after)) (length before) (length before + size) ≡ some slot
      cut =
          ap (λ n. slice? (before ++ (slot ++ after)) (length before) (length before + n))
            (sym long)
          ∙ slice?-append before slot after

  -- One slot that does not decrypt.
  scan-foreign :
      (fuel : ℕ) (before slot after : List ℕ)
      → length slot ≡ size
      → IsForeign c h nonce slot
      → scan c (suc fuel) h size nonce (before ++ (slot ++ after)) (length before)
        ≡ scan c fuel h size nonce ((before ++ slot) ++ after) (length (before ++ slot))
  scan-foreign fuel before slot after long (e, fails) =
      scan_round fuel before slot after long
      ∙ ap
          (λ o.
            return_or o
              (scan c fuel h size nonce (before ++ (slot ++ after)) (length before + size)))
          fails
      ∙ ap (scan c fuel h size nonce (before ++ (slot ++ after)))
          (omega (arith, long, length-append before slot))
      ∙ ap (λ xs. scan c fuel h size nonce xs (length (before ++ slot)))
          (sym (append_assoc before slot after))

  -- The slots before the first that decrypts are passed over.
  pub scan-first :
      (fuel : ℕ) (before : List ℕ) (foreign : List (List ℕ)) (slot after plaintext : List ℕ)
      → All (HasLength size) foreign
      → All (IsForeign c h nonce) foreign
      → length slot ≡ size
      → decrypt c h slot nonce ≡ ok plaintext
      → length foreign < fuel
      → scan c fuel h size nonce (before ++ (concat foreign ++ (slot ++ after))) (length before)
        ≡ ok (some plaintext)
  scan-first zero before foreign slot after plaintext sizes foreigns long own enough =
      absurd (omega arith)
  scan-first (suc fuel) before [] slot after plaintext sizes foreigns long own enough =
      scan_round fuel before slot after long
      ∙ ap
          (λ o.
            return_or o
              (scan c fuel h size nonce (before ++ (slot ++ after)) (length before + size)))
          own
  scan-first (suc fuel) before (s ∷ ss) slot after plaintext sizes foreigns long own enough =
      ap (λ xs. scan c (suc fuel) h size nonce (before ++ xs) (length before))
        (append_assoc s (concat ss) (slot ++ after))
      ∙ scan-foreign fuel before s (concat ss ++ (slot ++ after)) sizes.0 foreigns.0
      ∙ scan-first fuel (before ++ s) ss slot after plaintext sizes.1 foreigns.1 long own
          (omega arith)

  at_end : (before : List ℕ) → leb (length (before ++ [])) (length before) ≡ true
  at_end before =
      le→leb (length (before ++ [])) (length before)
        (omega (arith, length-append {A = ℕ} before []))

  -- A bucket with no message of the handle.
  pub scan-none :
      (fuel : ℕ) (before : List ℕ) (foreign : List (List ℕ))
      → All (HasLength size) foreign
      → All (IsForeign c h nonce) foreign
      → length foreign ≤ fuel
      → scan c fuel h size nonce (before ++ concat foreign) (length before) ≡ ok none
  scan-none zero before [] sizes foreigns enough = unfold scan in rw (at_end before)
  scan-none zero before (s ∷ ss) sizes foreigns enough = absurd (omega arith)
  scan-none (suc fuel) before [] sizes foreigns enough = unfold scan in rw (at_end before)
  scan-none (suc fuel) before (s ∷ ss) sizes foreigns enough =
      scan-foreign fuel before s (concat ss) sizes.0 foreigns.0
      ∙ scan-none fuel (before ++ s) ss sizes.1 foreigns.1 (omega arith)

-- What the loop over the messages of a bucket gives from place `i` on, without fuel: nothing at the
-- end; else the next slot's plaintext, or what the rest gives if the slot does not decrypt; a panic
-- if the slot is cut short, or if Decrypt panics.
pub data Scans (c : Primitives) (h : Handle) (size : ℕ) (nonce contents : List ℕ)
    : ℕ → Outcome (Option (List ℕ)) → Type 0 where
  ended :
      {i : ℕ} {r : Outcome (Option (List ℕ))}
      → length contents ≤ i
      → r ≡ ok none
      → Scans c h size nonce contents i r
  cut_short :
      {i : ℕ} {r : Outcome (Option (List ℕ))}
      → i < length contents
      → slice? contents i (i + size) ≡ none
      → r ≡ panic
      → Scans c h size nonce contents i r
  decrypted :
      {i : ℕ} {r : Outcome (Option (List ℕ))} (slot plaintext : List ℕ)
      → i < length contents
      → slice? contents i (i + size) ≡ some slot
      → decrypt c h slot nonce ≡ ok plaintext
      → r ≡ ok (some plaintext)
      → Scans c h size nonce contents i r
  skipped :
      {i : ℕ} {r : Outcome (Option (List ℕ))} (slot : List ℕ)
      → i < length contents
      → slice? contents i (i + size) ≡ some slot
      → IsForeign c h nonce slot
      → Scans c h size nonce contents (i + size) r
      → Scans c h size nonce contents i r
  broken :
      {i : ℕ} {r : Outcome (Option (List ℕ))} (slot : List ℕ)
      → i < length contents
      → slice? contents i (i + size) ≡ some slot
      → decrypt c h slot nonce ≡ panic
      → r ≡ panic
      → Scans c h size nonce contents i r

Outcome-cases :
    (o : Outcome (List ℕ))
    → ((a : List ℕ) × (o ≡ ok a)) ⊎ (((e : Error) × (o ≡ err e)) ⊎ (o ≡ panic))
Outcome-cases (ok a) = inl (a, refl)
Outcome-cases (err e) = inr (inl (e, refl))
Outcome-cases panic = inr (inr refl)

module _ (c : Primitives) (h : Handle) (size : ℕ) (nonce contents : List ℕ)
    (some_size : 0 < size) where
  -- A round that is not at the end.
  scan-Scans-slot :
      (i fuel : ℕ)
      → i < length contents
      → Scans c h size nonce contents (i + size) (scan c fuel h size nonce contents (i + size))
      → Scans c h size nonce contents i (scan c (suc fuel) h size nonce contents i)
  unfolding scan
  scan-Scans-slot i fuel inside rest = elim (Option-cases (slice? contents i (i + size))) [
    | inl short ↦ cut_short inside short (rw (more, short))
    | inr (slot, cut) ↦ elim (Outcome-cases (decrypt c h slot nonce)) [
      | inl (plaintext, own) ↦ decrypted slot plaintext inside cut own (rw (more, cut, own))
      | inr (inl (e, fails)) ↦
          skipped slot inside cut (e, fails)
            (subst (Scans c h size nonce contents (i + size)) (rw (more, cut, fails)) rest)
      | inr (inr fails) ↦ broken slot inside cut fails (rw (more, cut, fails))
    ]
  ]
    where
      more : leb (length contents) i ≡ false
      more = leb-eq-false (length contents) i inside

  -- With a fuel of the bytes from the place on.
  scan-Scans :
      (fuel i : ℕ)
      → length contents ≤ i + fuel
      → Scans c h size nonce contents i (scan c fuel h size nonce contents i)
  unfolding scan
  scan-Scans zero i enough = ended (omega arith) (rw (le→leb (length contents) i (omega arith)))
  scan-Scans (suc fuel) i enough = elim (dec_le (length contents) i) [
    | yes done ↦ ended done (rw (le→leb (length contents) i done))
    | no more ↦
        scan-Scans-slot i fuel (omega arith) (scan-Scans fuel (i + size) (omega (arith, some_size)))
  ]

-- For a positive data size and a sequence number below 2^64, if removing the pads leaves some
-- contents, then retrieveResponse gives what the loop over their messages gives from the first
-- place on, without running out of fuel: nothing at the end, else the next message's plaintext if
-- it decrypts, or what the rest gives if it does not; and a panic if the message is cut short or
-- Decrypt panics.
pub retrieve_response-Scans :
    (c : Primitives) (h : Handle) (td : List PirArgs) (reply contents : List ℕ) (size : ℕ)
    → 0 < size
    → h.seqno < 2 ^ 64
    → remove_pads c td reply ≡ ok (some contents)
    → Returns
        (seqno_bytes h.seqno)
        (λ nonce. Scans c h size nonce contents 0 (retrieve_response c h td reply size))
unfolding retrieve_response
retrieve_response-Scans c h td reply contents size some_size small removed =
    let (nonce, run, _) = seqno_bytes-Returns h.seqno small in
    (
      nonce,
      run,
      subst (Scans c h size nonce contents 0) (rw (removed, run))
          (scan-Scans c h size nonce contents some_size (length contents) 0 (omega arith)),
    )
