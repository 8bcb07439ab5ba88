-- ===== src/Libtalek/Topic/Roundtrip.antt =====
-- What a topic encrypts, a handle with its keys decrypts.
use talek.Base.{
  ℕ, ◌+◌, ◌-◌, ◌≡◌, refl, sym, ap, ◌∙◌, true, false, some, List, ◌++◌, arith, length, take, drop,
  replicate, copy, length-append, length-replicate, copy-same_length, take-length, drop-length,
  Returns, ok, ltb, ltb-eq-false, le→leb,
}
use talek.Libtalek.Handle.{Primitives, Handle, append_in_place, decrypt, decrypt_with}
use talek.Libtalek.Topic.{Topic, encrypt}

-- What nacl/box and ed25519 document, for one secret and one pair of signing keys: a box is 16
-- bytes longer than its contents, which come out again with the same nonce, and a signature has 64
-- bytes and is valid.
pub record IsSound (c : Primitives) (secret public_key private_key : List ℕ) : Type 0 where
  pub sealed_length : (nonce p : List ℕ) → length (c.seal secret nonce p) ≡ length p + 16
  pub unsealed : (nonce p : List ℕ) → c.unseal secret nonce (c.seal secret nonce p) ≡ some p
  pub signature_length : (m : List ℕ) → length (c.sign private_key m) ≡ 64
  pub verified : (m : List ℕ) → c.verify public_key m (c.sign private_key m) ≡ true

-- A topic, and a handle that reads it.
pub record Reads (c : Primitives) (t : Topic) (h : Handle) : Type 0 where
  pub secret : List ℕ
  pub public_key : List ℕ
  pub private_key : List ℕ
  pub is_sound : IsSound c secret public_key private_key
  pub topic_secret : t.handle.shared_secret ≡ some secret
  pub topic_private_key : t.signing_private_key ≡ some private_key
  pub topic_public_key : t.handle.signing_public_key ≡ some public_key
  pub handle_secret : h.shared_secret ≡ some secret
  pub handle_public_key : h.signing_public_key ≡ some public_key

append_in_place_lem : (bytes : List ℕ) (n : ℕ) → length bytes ≡ n → append_in_place n bytes ≡ bytes
unfolding append_in_place
append_in_place_lem bytes n long =
    rw (le→leb (length bytes) n (omega (arith, long)))
      (copy-same_length (replicate n 0) bytes (length-replicate {A = ℕ} n 0 ∙ sym long))

decrypt-keys :
    (c : Primitives) (h : Handle) (secret public_key cyphertext nonce : List ℕ)
    → h.shared_secret ≡ some secret
    → h.signing_public_key ≡ some public_key
    → decrypt c h cyphertext nonce ≡ decrypt_with c secret public_key cyphertext nonce
unfolding decrypt
decrypt-keys c h secret public_key cyphertext nonce e1 e2 = rw (e1, e2) refl

module _ (c : Primitives) (secret public_key private_key : List ℕ)
    (sound : IsSound c secret public_key private_key) where
  decrypt_with-signed :
      (nonce p : List ℕ)
      → decrypt_with c secret public_key
          (c.seal secret nonce p ++ c.sign private_key (c.seal secret nonce p))
          nonce
        ≡ ok p
  unfolding decrypt_with
  decrypt_with-signed nonce p =
      rw
        (
          all_long,
          message,
          sig,
          copied,
          sound.verified (c.seal secret nonce p),
          short,
          not_negative,
          sound.unsealed nonce p,
        )
        (ap ok
          (append_in_place_lem p (length (box ++ digest) - (16 + 64)) (omega (arith, all_long))))
    where
      box : List ℕ
      box = c.seal secret nonce p

      digest : List ℕ
      digest = c.sign private_key box

      all_long : length (box ++ digest) ≡ length p + 80
      all_long =
          omega (
            arith,
            length-append box digest,
            sound.sealed_length nonce p,
            sound.signature_length box,
          )

      message : take (length p + 80 - 64) (box ++ digest) ≡ box
      message =
          ap (λ n. take n (box ++ digest)) (omega (arith, sound.sealed_length nonce p))
          ∙ take-length box digest

      sig : drop (length p + 80 - 64) (box ++ digest) ≡ digest
      sig =
          ap (λ n. drop n (box ++ digest)) (omega (arith, sound.sealed_length nonce p))
          ∙ drop-length box digest

      copied : copy (replicate 64 0) digest ≡ digest
      copied =
          copy-same_length (replicate 64 0) digest
            (length-replicate {A = ℕ} 64 0 ∙ sym (sound.signature_length box))

      short : ltb (length p + 80) 64 ≡ false
      short = ltb-eq-false (length p + 80) 64 (omega arith)

      not_negative : ltb (length p + 80) (16 + 64) ≡ false
      not_negative = ltb-eq-false (length p + 80) (16 + 64) (omega arith)

-- A handle with the keys of a topic decrypts what the topic encrypts.
pub decrypt-encrypt :
    (c : Primitives) (t : Topic) (h : Handle) (nonce p : List ℕ)
    → Reads c t h
    → Returns
        (encrypt c t p nonce)
        (λ cyphertext. (length cyphertext ≡ length p + 80) × (decrypt c h cyphertext nonce ≡ ok p))
unfolding encrypt
decrypt-encrypt c t h nonce p r =
    let s = r.is_sound in
    let box = c.seal r.secret nonce p in
    let digest = c.sign r.private_key box in
    (
      box ++ digest,
      rw
          (
            r.topic_secret,
            r.topic_private_key,
            append_in_place_lem box (length p + 16) (s.sealed_length nonce p),
          )
          refl,
      (
        omega (arith, length-append box digest, s.sealed_length nonce p, s.signature_length box),
        decrypt-keys c h r.secret r.public_key (box ++ digest) nonce r.handle_secret
              r.handle_public_key
            ∙ decrypt_with-signed c r.secret r.public_key r.private_key s nonce p,
      ),
    )
