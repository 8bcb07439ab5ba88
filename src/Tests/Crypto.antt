-- ===== src/Tests/Crypto.antt =====
-- Cryptography that can be computed, for the tests: a box is a tag of its key and nonce and the
-- contents in clear, and a signature repeats the key.
use talek.Base.{
  ℕ, zero, suc, ◌+◌, ◌*◌, ◌%◌, ◌≡◌, refl, Bool, true, Option, none, some, List, [], ◌∷◌, ◌++◌,
  arith, IsBytes, le_bytes, length, take, drop, replicate, copy, length-append, length-replicate,
  length-copy, take-length, drop-length, if◌then◌else◌, ==_refl,
}
use talek.Drbg.Seed.{equal_bytes}
use talek.Libtalek.Handle.{Primitives, Handle}
use talek.Libtalek.Handle.Polls.{FillsSeeds}
use talek.Pir.Client.Vectors.{Fills}
use talek.Libtalek.Message.{no_message}
use talek.Libtalek.Topic.{Topic}
use talek.Libtalek.Topic.Roundtrip.{IsSound}
use talek.Libtalek.Topic.Publishing.{Follows}

equal_bytes_refl : (xs : List ℕ) → equal_bytes xs xs ≡ true
unfolding equal_bytes
equal_bytes_refl [] = refl
equal_bytes_refl (x ∷ xs) = rw (==_refl x, equal_bytes_refl xs) refl

abbrev tag : List ℕ → List ℕ → List ℕ
tag key nonce = copy (replicate 16 7) (key ++ nonce)

abbrev signature : List ℕ → List ℕ → List ℕ
signature key m = copy (replicate 64 9) (key ++ m)

abbrev total : List ℕ → ℕ
total [] = 0
total (b ∷ bs) = b + total bs

unfoldable unseal_toy : List ℕ → List ℕ → List ℕ → Option (List ℕ)
unfolding equal_bytes
unseal_toy key nonce box =
    if equal_bytes (take 16 box) (tag key nonce) then some (drop 16 box) else none

unfoldable verify_toy : List ℕ → List ℕ → List ℕ → Bool
unfolding equal_bytes
verify_toy key m sig = equal_bytes sig (signature key m)

unfoldable pub toy : Primitives
unfolding unseal_toy verify_toy
toy = record {
  siphash = λ k0 k1 m. k0 + k1 * 3 + total m;
  sip = λ key m. le_bytes 8 (total key + total m * 257);
  sha256 = λ m. replicate 32 (total m % 256);
  seal = λ key nonce p. tag key nonce ++ p;
  unseal = unseal_toy;
  sign = signature;
  verify = verify_toy;
}

length-tag : (key nonce : List ℕ) → length (tag key nonce) ≡ 16
length-tag key nonce = length-copy (replicate 16 7) (key ++ nonce)

toy-IsSound : (secret key : List ℕ) → IsSound toy secret key key
unfolding toy unseal_toy verify_toy
toy-IsSound secret key = record {
  sealed_length =
      λ nonce p. omega (arith, length-append (tag secret nonce) p, length-tag secret nonce);
  unsealed = λ nonce p. opened (tag secret nonce) p (length-tag secret nonce);
  signature_length = λ m. length-copy (replicate 64 9) (key ++ m);
  verified = λ m. equal_bytes_refl (signature key m);
}
  where
    opened :
        (t p : List ℕ)
        → length t ≡ 16
        → (if equal_bytes (take 16 (t ++ p)) t then some (drop 16 (t ++ p)) else none) ≡ some p
    opened t p long = rw (← long, take-length t p, drop-length t p, equal_bytes_refl t) refl

abbrev pub toy_handle : Handle
toy_handle = record {
  seed1 = replicate 24 3;
  seed2 = replicate 24 5;
  shared_secret = some (1 ∷ 2 ∷ []);
  signing_public_key = some (4 ∷ []);
  seqno = 6;
  partial_message = no_message;
  has_updates = true;
}

abbrev pub toy_topic : Topic
toy_topic = record { id = 1; signing_private_key = some (4 ∷ []); handle = toy_handle }

pub toy-Follows : Follows toy toy_topic toy_handle
toy-Follows = record {
  reads = record {
    secret = 1 ∷ 2 ∷ [];
    public_key = 4 ∷ [];
    private_key = 4 ∷ [];
    is_sound = toy-IsSound (1 ∷ 2 ∷ []) (4 ∷ []);
    topic_secret = refl;
    topic_private_key = refl;
    topic_public_key = refl;
    handle_secret = refl;
    handle_public_key = refl;
  };
  same_seed1 = refl;
  same_seed2 = refl;
  same_seqno = refl;
  in_range = omega arith;
  full_seed1 = omega arith;
  full_seed2 = omega arith;
  listening = refl;
}

-- A source of randomness that fills every buffer with ones.
abbrev pub ones : ℕ → ℕ → Option (List ℕ)
ones i n = some (replicate n 1)

pub ones-IsBytes : (n : ℕ) → IsBytes (replicate n 1)
ones-IsBytes zero = tt
ones-IsBytes (suc n) = (omega arith, ones-IsBytes n)

pub ones-Fills : Fills ones
ones-Fills i n = (replicate n 1, refl, (length-replicate {A = ℕ} n 1, ones-IsBytes n))

pub ones-FillsSeeds : FillsSeeds ones
ones-FillsSeeds i = (replicate 24 1, refl, refl)
