-- ===== src/Libtalek/Topic/Publishing.antt =====
-- A topic publishes fragment by fragment, to the buckets that a handle with its keys and sequence
-- number polls.
use talek.Base.{
  ℕ, ◌+◌, ◌%◌, ◌^◌, ◌≤◌, ◌<◌, ◌≡◌, refl, ap, ◌∙◌, true, List, [], ◌∷◌, ◌++◌, arith, length, Returns,
  Outcome, ◌>>=◌, ok,
}
use talek.Libtalek.Handle.{
  Primitives, Handle, advance_seqno, seqno_bytes, next_buckets, next_interest_vector, decrypt,
}
use talek.Libtalek.Handle.Polls.{seqno_bytes-Returns, next_buckets-Returns}
use talek.Libtalek.Topic.{Topic, WriteArgs, generate_publish}
use talek.Libtalek.Topic.Roundtrip.{Reads, decrypt-encrypt}

-- The writes for a list of fragments.
unfoldable pub publish_all :
    Primitives → ℕ → Topic → List (List ℕ) → Outcome (Topic × List WriteArgs)
unfolding generate_publish
publish_all c num_buckets t [] = ok (t, [])
publish_all c num_buckets t (part ∷ parts) = generate_publish c t num_buckets part >>= λ r.
    publish_all c num_buckets r.0 parts >>= λ rs. ok (rs.0, r.1 ∷ rs.1)

-- A topic that writes where a handle reads.
pub record Follows (c : Primitives) (t : Topic) (h : Handle) : Type 0 where
  pub reads : Reads c t h
  pub same_seed1 : t.handle.seed1 ≡ h.seed1
  pub same_seed2 : t.handle.seed2 ≡ h.seed2
  pub same_seqno : t.handle.seqno ≡ h.seqno
  pub in_range : h.seqno < 2 ^ 64
  pub full_seed1 : 16 ≤ length h.seed1
  pub full_seed2 : 16 ≤ length h.seed2
  pub listening : h.has_updates ≡ true

pub Reads-move :
    {c : Primitives} {t t' : Topic} {h h' : Handle}
    → Reads c t h
    → t'.handle.shared_secret ≡ t.handle.shared_secret
    → t'.handle.signing_public_key ≡ t.handle.signing_public_key
    → t'.signing_private_key ≡ t.signing_private_key
    → h'.shared_secret ≡ h.shared_secret
    → h'.signing_public_key ≡ h.signing_public_key
    → Reads c t' h'
Reads-move r e1 e2 e3 e4 e5 = record {
  secret = r.secret;
  public_key = r.public_key;
  private_key = r.private_key;
  is_sound = r.is_sound;
  topic_secret = e1 ∙ r.topic_secret;
  topic_private_key = e3 ∙ r.topic_private_key;
  topic_public_key = e2 ∙ r.topic_public_key;
  handle_secret = e4 ∙ r.handle_secret;
  handle_public_key = e5 ∙ r.handle_public_key;
}

abbrev advance_topic : Topic → Topic
advance_topic t = record t { handle = advance_seqno t.handle }

Reads-advance_topic :
    {c : Primitives} {t : Topic} {h : Handle} → Reads c t h → Reads c (advance_topic t) h
unfolding advance_seqno
Reads-advance_topic r = Reads-move r refl refl refl refl refl

Follows-advance :
    {c : Primitives} {t : Topic} {h : Handle}
    → Follows c t h
    → Follows c (advance_topic t) (advance_seqno h)
unfolding advance_seqno
Follows-advance f = record {
  reads = Reads-move f.reads refl refl refl refl refl;
  same_seed1 = f.same_seed1;
  same_seed2 = f.same_seed2;
  same_seqno = ap (λ n. (n + 1) % 2 ^ 64) f.same_seqno;
  in_range = omega arith;
  full_seed1 = f.full_seed1;
  full_seed2 = f.full_seed2;
  listening = f.listening;
}

module _ (c : Primitives) (num_buckets : ℕ) (some_buckets : 0 < num_buckets) where
  next_buckets-same :
      (t : Topic) (h : Handle)
      → Follows c t h
      → next_buckets c t.handle num_buckets ≡ next_buckets c h num_buckets
  unfolding next_buckets
  next_buckets-same t h f = rw (f.same_seqno, f.same_seed1, f.same_seed2) refl

  -- What one publish gives a handle that follows: a write of 80 bytes more than the message, to the
  -- buckets that the handle polls, which the handle decrypts.
  pub generate_publish_lem :
      (t : Topic) (h : Handle) (message : List ℕ)
      → Follows c t h
      → Returns (generate_publish c t num_buckets message) (λ (t', w).
        (length w.contents ≡ length message + 80)
        × (next_buckets c h num_buckets ≡ ok (w.bucket1, w.bucket2))
        × (w.bucket1 < num_buckets)
        × (w.bucket2 < num_buckets)
        × Follows c t' (advance_seqno h)
        × Returns (seqno_bytes h.seqno) (λ nonce. decrypt c h w.contents nonce ≡ ok message))
  unfolding generate_publish next_interest_vector advance_seqno
  generate_publish_lem t h message f =
      let (nonce, run, _) = seqno_bytes-Returns h.seqno f.in_range in
      let (bs, run_b, (lt1, lt2)) =
        next_buckets-Returns c num_buckets some_buckets h f.in_range f.full_seed1 f.full_seed2 in
      let t' = advance_topic t in
      let reads' = Reads-advance_topic f.reads in
      let (ct, run_e, (long, own)) = decrypt-encrypt c t' h nonce message reads' in
      let w : WriteArgs = record {
        bucket1 = bs.0;
        bucket2 = bs.1;
        contents = ct;
        interest_vector = (f.reads.public_key ++ nonce) ++ c.sha256 [];
      } in
      (
        (t', w),
        rw (next_buckets-same t h f, run_b, f.same_seqno, run, f.reads.topic_public_key, run_e)
            refl,
        (long, run_b, lt1, lt2, Follows-advance f, (nonce, run, own)),
      )
