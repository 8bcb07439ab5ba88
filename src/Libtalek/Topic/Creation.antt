-- ===== src/Libtalek/Topic/Creation.antt =====
-- libtalek/topic.go and handle.go: how a topic and its handle are made. `rand.Read` is the
-- parameter `rand`, the bytes that its calls fill in by their number and size, and the key pairs
-- that nacl/box and ed25519 draw, or none when they fail, are parameters too.
use talek.Base.{
  ℕ, ◌≤◌, ◌≡◌, refl, true, false, Option, none, some, List, [], arith, length, Returns, Outcome,
  ◌>>=◌, rand_failed, ok, err, uvarint,
}
use talek.Pir.Client.Vectors.{Fills}
use talek.Drbg.Seed.{new_seed}
use talek.Drbg.HashDrbg.{new_hash_drbg}
use talek.Drbg.HashDrbg.Overlay.{from_seed-ok}
use talek.Libtalek.Message.{no_message}
use talek.Libtalek.Handle.{Primitives, Handle}
use talek.Libtalek.Topic.{Topic}
use talek.Libtalek.Topic.Roundtrip.{IsSound}
use talek.Libtalek.Topic.Publishing.{Follows}

-- `box.GenerateKey`, `box.Precompute` of the two keys, and `ed25519.GenerateKey`. The first of a
-- pair is the public key.
pub record KeySource : Type 0 where
  pub box_keys : Option (List ℕ × List ℕ)
  pub precompute : List ℕ → List ℕ → List ℕ
  pub signing_keys : Option (List ℕ × List ℕ)

-- A handle of no fields. A nil seed is the empty one: its key panics as well.
abbrev pub empty_handle : Handle
empty_handle = record {
  seed1 = [];
  seed2 = [];
  shared_secret = none;
  signing_public_key = none;
  seqno = 0;
  partial_message = no_message;
  has_updates = false;
}

-- `initHandle`, whose generator is made and then not used.
unfoldable pub init_handle : (ℕ → Option (List ℕ)) → Handle → Outcome Handle
unfolding new_hash_drbg
init_handle rand h = new_hash_drbg rand none >>= λ d. ok (record h { has_updates = true })

-- `NewHandle`
unfoldable pub new_handle : (ℕ → Option (List ℕ)) → Outcome Handle
unfolding init_handle
new_handle rand = init_handle rand empty_handle

abbrev or_failed : {A : Type 0} → Option A → Outcome A
or_failed none = err rand_failed
or_failed (some x) = ok x

-- `NewTopic`
unfoldable pub new_topic : (ℕ → ℕ → Option (List ℕ)) → KeySource → Outcome Topic
unfolding new_seed init_handle
new_topic rand keys = do
  id ← or_failed (rand 0 8)
  seed1 ← new_seed (rand 1)
  seed2 ← new_seed (rand 2)
  h ← init_handle (rand 3) (record empty_handle { seed1 = seed1; seed2 = seed2 })
  (public_key, private_key) ← or_failed keys.box_keys
  let h' = record h { shared_secret = some (keys.precompute public_key private_key) }
  (verify_key, sign_key) ← or_failed keys.signing_keys
  ok (record {
    id = uvarint id;
    signing_private_key = some sign_key;
    handle = record h' { signing_public_key = some verify_key };
  })

new_seed-eq_ok :
    (rand : ℕ → Option (List ℕ)) (seed : List ℕ) → rand 24 ≡ some seed → new_seed rand ≡ ok seed
unfolding new_seed
new_seed-eq_ok rand seed got = rw (new_seed, got) refl

init_handle-eq_ok :
    (p : Primitives) (rand : ℕ → Option (List ℕ)) (h : Handle) (seed : List ℕ)
    → rand 24 ≡ some seed
    → 24 ≤ length seed
    → init_handle rand h ≡ ok (record h { has_updates = true })
unfolding init_handle new_hash_drbg
init_handle-eq_ok p rand h seed got long =
    let (d, run, _) = from_seed-ok p.sip seed long in rw (new_seed-eq_ok rand seed got, run) refl

-- When rand.Read does not fail, and the key sources give keys with which what is sealed can be
-- opened and what is signed verifies, NewTopic returns a topic that its own handle follows.
pub new_topic-Follows :
    (p : Primitives) (rand : ℕ → ℕ → Option (List ℕ)) (keys : KeySource)
    (public_key private_key verify_key sign_key : List ℕ)
    → Fills rand
    → keys.box_keys ≡ some (public_key, private_key)
    → keys.signing_keys ≡ some (verify_key, sign_key)
    → IsSound p (keys.precompute public_key private_key) verify_key sign_key
    → Returns (new_topic rand keys) (λ t. Follows p t t.handle)
unfolding new_topic
new_topic-Follows p rand keys public_key private_key verify_key sign_key fills boxed signed sound =
    let (id, got_id, _) = fills 0 8 in
    let (seed1, got1, (full1, _)) = fills 1 24 in
    let (seed2, got2, (full2, _)) = fills 2 24 in
    let (seed3, got3, (full3, _)) = fills 3 24 in
    (
      made id seed1 seed2,
      rw
          (
            got_id,
            new_seed-eq_ok (rand 1) seed1 got1,
            new_seed-eq_ok (rand 2) seed2 got2,
            init_handle-eq_ok p (rand 3) (record empty_handle { seed1 = seed1; seed2 = seed2 })
                seed3 got3 (omega (arith, full3)),
            boxed,
            signed,
          )
          refl,
      record {
        reads = record {
          secret = keys.precompute public_key private_key;
          public_key = verify_key;
          private_key = sign_key;
          is_sound = sound;
          topic_secret = refl;
          topic_private_key = refl;
          topic_public_key = refl;
          handle_secret = refl;
          handle_public_key = refl;
        };
        same_seed1 = refl;
        same_seed2 = refl;
        same_seqno = refl;
        in_range = omega arith;
        full_seed1 = omega (arith, full1);
        full_seed2 = omega (arith, full2);
        listening = refl;
      },
    )
  where
    made : List ℕ → List ℕ → List ℕ → Topic
    made id seed1 seed2 = record {
      id = uvarint id;
      signing_private_key = some sign_key;
      handle = record {
        seed1 = seed1;
        seed2 = seed2;
        shared_secret = some (keys.precompute public_key private_key);
        signing_public_key = some verify_key;
        seqno = 0;
        partial_message = no_message;
        has_updates = true;
      };
    }
