-- ===== src/Tests/Drbg.antt =====
-- A seed of 24 bytes, with the sum of the bytes in place of SipHash.
use talek.Base.{
  ℕ, ◌+◌, ◌*◌, ◌≡◌, refl, none, some, List, [], ◌∷◌, arith, bytes_xor, le_bytes, length, replicate,
  Returns, ok,
}
use talek.Drbg.HashDrbg.{new_hash_drbg, fill_bytes, overlay}
use talek.Drbg.HashDrbg.Overlay.{overlay-fill_bytes, overlay-overlay}

abbrev total : List ℕ → ℕ
total [] = 0
total (b ∷ bs) = b + total bs

abbrev toy_sip : List ℕ → List ℕ → List ℕ
toy_sip key written = le_bytes 8 (total key + total written * 257)

abbrev seed : List ℕ
seed = replicate 24 3

abbrev letters : List ℕ
letters = 65 ∷ 66 ∷ 67 ∷ 68 ∷ 69 ∷ 70 ∷ 71 ∷ 72 ∷ 73 ∷ []

overlay-fill_bytes_example : Returns (new_hash_drbg (λ _. none) (some seed)) (λ d.
    Returns
      (fill_bytes toy_sip d (replicate 9 0))
      (λ r. (length r.1 ≡ 9) × (overlay toy_sip seed letters ≡ ok (bytes_xor letters r.1))))
overlay-fill_bytes_example =
    overlay-fill_bytes toy_sip (λ _. none) seed letters (replicate 9 0) (omega arith) refl

overlay-overlay_example :
    Returns
      (overlay toy_sip seed letters)
      (λ hidden. (length hidden ≡ 9) × (overlay toy_sip seed hidden ≡ ok letters))
overlay-overlay_example = overlay-overlay toy_sip seed letters (omega arith)
