-- ===== src/Libtalek/Topic/Reception.antt =====
-- What a topic publishes, a handle that starts at the same sequence number receives, whole and in
-- order.
use talek.Base.{
  ℕ, zero, suc, ◌+◌, ◌-◌, ◌*◌, ◌≤◌, ◌<◌, ◌≡◌, refl, sym, ap, ◌∙◌, subst, true, Option, some, List,
  [], ◌∷◌, ◌++◌, map, arith, All, length, concat, length-append, Returns, Outcome, ◌>>=◌,
  ok_injective, ok,
}
use talek.Bloom.Filter.Membership.{All-weaken}
use talek.Common.ReadArgs.{PirArgs}
use talek.Libtalek.Message.{Message, no_message, receive, receive_all}
use talek.Libtalek.Message.Delivery.{Fits, split_all, receive_all-split_all}
use talek.Libtalek.Message.Sizes.{HasLength, split_all-HasLength}
use talek.Libtalek.Handle.{
  Primitives, Handle, advance_seqno, seqno_bytes, remove_pads, retrieve_response, on_response, scan,
  decrypt,
}
use talek.Libtalek.Handle.Scan.{IsForeign, length-concat, scan-first}
use talek.Libtalek.Topic.{Topic, WriteArgs}
use talek.Libtalek.Topic.Publishing.{Follows, publish_all, generate_publish_lem, Reads-move}

-- The replies to a run of reads, each with the arguments of the read.
unfoldable pub respond_all :
    Primitives
    → ℕ
    → Handle
    → List (List PirArgs × List ℕ)
    → Outcome (Handle × List (Option (List ℕ)))
unfolding on_response
respond_all c size h [] = ok (h, [])
respond_all c size h ((td, contents) ∷ replies) = on_response c h td contents size >>= λ r.
    respond_all c size r.0 replies >>= λ rs. ok (rs.0, r.1 ++ rs.1)

-- The reply to a poll: without the pads it is a bucket that holds the write, after other messages
-- of the same size that do not decrypt.
pub record Answers (c : Primitives) (size : ℕ) (h : Handle) (w : WriteArgs) (td : List PirArgs)
    (contents : List ℕ) : Type 0 where
  pub nonce : List ℕ
  pub nonce_of : seqno_bytes h.seqno ≡ ok nonce
  pub foreign : List (List ℕ)
  pub after : List ℕ
  pub removed : remove_pads c td contents ≡ ok (some (concat foreign ++ (w.contents ++ after)))
  pub same_size : All (HasLength size) foreign
  pub not_decrypted : All (IsForeign c h nonce) foreign

-- A reply for each write, in order.
pub data AllAnswered (c : Primitives) (size : ℕ)
    : Handle → List WriteArgs → List (List PirArgs × List ℕ) → Type 0 where
  none_left : {h : Handle} → AllAnswered c size h [] []
  one_more :
      {h : Handle} {w : WriteArgs} {ws : List WriteArgs} {td : List PirArgs} {contents : List ℕ}
      {replies : List (List PirArgs × List ℕ)}
      → Answers c size h w td contents
      → AllAnswered c size (advance_seqno h) ws replies
      → AllAnswered c size h (w ∷ ws) ((td, contents) ∷ replies)

abbrev pub with_message : Message → Handle → Handle
with_message m h = record h { partial_message = m }

le-mul_right : (k n : ℕ) → 0 < n → k ≤ k * n
le-mul_right zero n h = omega arith
le-mul_right (suc k) n h = omega (arith, le-mul_right k n h)

decrypt-with_message :
    (c : Primitives) (h : Handle) (m : Message) (slot nonce : List ℕ)
    → decrypt c (with_message m h) slot nonce ≡ decrypt c h slot nonce
unfolding decrypt
decrypt-with_message c h m slot nonce = refl

module _ (c : Primitives) (size : ℕ) (some_size : 0 < size) where
  retrieve_response-Answers :
      (h : Handle) (m : Message) (w : WriteArgs) (td : List PirArgs)
      (contents message nonce : List ℕ)
      → length w.contents ≡ size
      → seqno_bytes h.seqno ≡ ok nonce
      → decrypt c h w.contents nonce ≡ ok message
      → Answers c size h w td contents
      → retrieve_response c (with_message m h) td contents size ≡ ok (some message)
  unfolding retrieve_response
  retrieve_response-Answers h m w td contents message nonce long run own a =
      let same : nonce ≡ a.nonce = ok_injective (sym run ∙ a.nonce_of) in
      rw (a.removed, a.nonce_of)
        (found (subst (λ n. decrypt c h w.contents n ≡ ok message) same own))
    where
      found :
          decrypt c h w.contents a.nonce ≡ ok message
          → scan c
              (length (concat a.foreign ++ (w.contents ++ a.after)))
              (with_message m h)
              size
              a.nonce
              (concat a.foreign ++ (w.contents ++ a.after))
              0
            ≡ ok (some message)
      found own =
          scan-first c (with_message m h) size a.nonce some_size
            (length (concat a.foreign ++ (w.contents ++ a.after))) [] a.foreign w.contents a.after
            message a.same_size
            (All-weaken a.foreign (λ s f. (f.0, decrypt-with_message c h m s a.nonce ∙ f.1))
              a.not_decrypted)
            long (decrypt-with_message c h m w.contents a.nonce ∙ own)
            (omega (
              arith,
              length-append (concat a.foreign) (w.contents ++ a.after),
              length-append w.contents a.after,
              long,
              some_size,
              length-concat size a.foreign a.same_size,
              le-mul_right (length a.foreign) size some_size,
            ))

  pub on_response-Answers :
      (h : Handle) (m : Message) (w : WriteArgs) (td : List PirArgs)
      (contents message nonce : List ℕ)
      → h.has_updates ≡ true
      → length w.contents ≡ size
      → seqno_bytes h.seqno ≡ ok nonce
      → decrypt c h w.contents nonce ≡ ok message
      → Answers c size h w td contents
      → on_response c (with_message m h) td contents size
        ≡ ok (with_message (receive m message).0 (advance_seqno h), (receive m message).1)
  unfolding on_response advance_seqno
  on_response-Answers h m w td contents message nonce listening long run own a =
      rw (retrieve_response-Answers h m w td contents message nonce long run own a, listening) refl

-- A run of writes that a handle receives: a write for each fragment, and if a reply answers each,
-- what the replies give is what the fragments give.
pub record Delivers (c : Primitives) (size : ℕ) (h : Handle) (parts : List (List ℕ))
    (r : Topic × List WriteArgs) : Type 0 where
  pub one_each : length r.1 ≡ length parts
  pub received :
      (m : Message) (replies : List (List PirArgs × List ℕ))
      → AllAnswered c size h r.1 replies
      → Returns (respond_all c size (with_message m h) replies) (λ s.
        Follows c r.0 s.0
        × (s.0.partial_message ≡ (receive_all m parts).0)
        × (s.1 ≡ (receive_all m parts).1))

Follows-with_message :
    {c : Primitives} {t : Topic} {h : Handle} (m : Message)
    → Follows c t h
    → Follows c t (with_message m h)
Follows-with_message m f = record {
  reads = Reads-move f.reads refl refl refl refl refl;
  same_seed1 = f.same_seed1;
  same_seed2 = f.same_seed2;
  same_seqno = f.same_seqno;
  in_range = f.in_range;
  full_seed1 = f.full_seed1;
  full_seed2 = f.full_seed2;
  listening = f.listening;
}

module _ (c : Primitives) (num_buckets size : ℕ) (some_buckets : 0 < num_buckets)
    (big : 80 < size) where
  publish_all-Delivers :
      (t : Topic) (h : Handle) (parts : List (List ℕ))
      → Follows c t h
      → All (HasLength (size - 80)) parts
      → Returns (publish_all c num_buckets t parts) (Delivers c size h parts)
  unfolding publish_all
  publish_all-Delivers t h [] f sizes =
      ((t, []), refl, record { one_each = refl; received = λ m replies a. nothing m replies a })
    where
      nothing :
          (m : Message) (replies : List (List PirArgs × List ℕ))
          → AllAnswered c size h [] replies
          → Returns (respond_all c size (with_message m h) replies) (λ s.
            Follows c t s.0
            × (s.0.partial_message ≡ (receive_all m []).0)
            × (s.1 ≡ (receive_all m []).1))
      nothing m replies none_left =
          unfold respond_all receive_all in
          ((with_message m h, []), refl, (Follows-with_message m f, refl, refl))
  publish_all-Delivers t h (part ∷ parts) f sizes =
      let ((t1, w), run, (long, _, _, _, f', (nonce, run_n, own))) =
        generate_publish_lem c num_buckets some_buckets t h part f in
      let ((t2, ws), run', d) = publish_all-Delivers t1 (advance_seqno h) parts f' sizes.1 in
      (
        (t2, w ∷ ws),
        rw (run, run') refl,
        record {
          one_each = ap suc d.one_each;
          received = λ m replies a. more w ws t2 long run_n own d m replies a;
        },
      )
    where
      more :
          {nonce : List ℕ} (w : WriteArgs) (ws : List WriteArgs) (t2 : Topic)
          → length w.contents ≡ length part + 80
          → seqno_bytes h.seqno ≡ ok nonce
          → decrypt c h w.contents nonce ≡ ok part
          → Delivers c size (advance_seqno h) parts (t2, ws)
          → (m : Message) (replies : List (List PirArgs × List ℕ))
          → AllAnswered c size h (w ∷ ws) replies
          → Returns (respond_all c size (with_message m h) replies) (λ s.
            Follows c t2 s.0
            × (s.0.partial_message ≡ (receive_all m (part ∷ parts)).0)
            × (s.1 ≡ (receive_all m (part ∷ parts)).1))
      more {nonce} w ws t2 long run_n own d m replies
            (one_more {td} {contents} {replies = later} a rest) =
          let step =
            on_response-Answers c size (omega arith) h m w td contents part nonce f.listening
              (omega (arith, long, sizes.0)) run_n own a in
          let (s, run, (f', same, sent)) = d.received (receive m part).0 later rest in
          unfold respond_all receive_all in
          (
            (s.0, (receive m part).1 ++ s.1),
            rw (step, run) refl,
            (f', same, ap (λ got. (receive m part).1 ++ got) sent),
          )

-- Every message, once, whole and in order.
pub record DeliversAll (c : Primitives) (size : ℕ) (h : Handle) (cs : List (List ℕ))
    (r : Topic × List WriteArgs) : Type 0 where
  pub received :
      (replies : List (List PirArgs × List ℕ))
      → AllAnswered c size h r.1 replies
      → Returns
          (respond_all c size h replies)
          (λ s. Follows c r.0 s.0 × (s.0.partial_message ≡ no_message) × (s.1 ≡ map some cs))

-- For a data size above 85 and messages that are not empty and whose lengths with the part size are
-- below 2^32: the fragments of the messages are published normally one after the other; and if a
-- reply to each write, in order, is a bucket that holds the write after others that do not decrypt,
-- then OnResponse of a handle with the topic's keys, seeds and sequence number gives each message
-- once, whole and in order, and stays at the topic's sequence number.
pub publish_all-delivers :
    (c : Primitives) (num_buckets size : ℕ) (t : Topic) (h : Handle) (cs : List (List ℕ))
    → 0 < num_buckets
    → 85 < size
    → All (Fits (size - 80)) cs
    → Follows c t h
    → h.partial_message ≡ no_message
    → Returns
        (split_all (size - 80) cs)
        (λ parts. Returns (publish_all c num_buckets t parts) (DeliversAll c size h cs))
publish_all-delivers c num_buckets size t h cs some_buckets big fits f fresh =
    let (parts, run, got) = receive_all-split_all (size - 80) cs (omega arith) fits in
    let (r, run', d) =
      publish_all-Delivers c num_buckets size some_buckets (omega arith) t h parts f
        (split_all-HasLength (size - 80) cs parts run) in
    (parts, run, (r, run', record { received = λ replies a. whole parts got r d replies a }))
  where
    whole :
        (parts : List (List ℕ))
        → receive_all no_message parts ≡ (no_message, map some cs)
        → (r : Topic × List WriteArgs) → Delivers c size h parts r
        → (replies : List (List PirArgs × List ℕ)) → AllAnswered c size h r.1 replies
        → Returns
            (respond_all c size h replies)
            (λ s. Follows c r.0 s.0 × (s.0.partial_message ≡ no_message) × (s.1 ≡ map some cs))
    whole parts got r d replies a =
        let (s, run, (f', same, sent)) = d.received h.partial_message replies a in
        let all = ap (λ m. receive_all m parts) fresh ∙ got in
        (s, run, (f', same ∙ ap (λ r. r.0) all, sent ∙ ap (λ r. r.1) all))
