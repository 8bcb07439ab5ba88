-- ===== src/Server/ReadPath.antt =====
-- A read from end to end: what a client's makeReadArg asks for and Encode encrypts (libtalek/handle.go,
-- common/readargs.go) goes through the frontend's batch (server/frontend.go) to each replica
-- (server/replica.go) and its shard (server/shard.go), and comes back to the client, which removes
-- the pads. The replicas are all those of the frontend; their writes are left out here.
pub mod Unpadding
pub mod Delivery
use mathlib.Core.List.{map-map}
use mathlib.Core.Option.{some-ne-none}
use talek.Base.{
  ℕ, zero, suc, ◌+◌, ◌*◌, ◌/◌, ◌%◌, ◌≤◌, ◌<◌, ◌≡◌, refl, sym, ap, ◌∙◌, false, Option, none, some,
  List, [], ◌∷◌, map, arith, All, length, get_elem?, get_or, get_elem?-get_or, length-map,
  get_elem?-lt, Returns, Outcome, ok_injective, panic-ne-ok, ok, ◌==◌,
}
use talek.Common.Range.{Range}
use talek.Common.ReadArgs.{PirArgs}
use talek.Common.ReadArgs.Bucket.{vectors}
use talek.Common.Protocol.{EncodedReadArgs, ReadReply, BatchReadReply, BatchReadRequest, no_reply}
use talek.Common.Encoding.{Codec, encode, decode}
use talek.Common.Encoding.Roundtrip.{IsSound, public_keys, decode-encode}
use talek.Pir.ShardCpu.{ShardCpu}
use talek.Pir.ShardCpu.Answer.{IsWellFormed, bucket_of, answer, length-answer, length-bucket_of}
use talek.Pir.Client.{num_bytes}
use talek.Pir.Client.Vectors.{unit_vector}
use talek.Pir.Retrieval.Linear.{xor_all-answer, answer-unit_vector}
use talek.Server.Config.{ServerConfig}
use talek.Server.Reads.Batch.{Serves, fitted}
use talek.Server.Replica.{no_args, local_arg}
use talek.Server.Replica as Replicas
use talek.Server.Replica.Pads.{
  HasSeed, IsDecoded, pad, pad_lem, padded, padded_reply, batch_read-padded,
}
use talek.Server.Frontend.{ReplicaInterface, Frontend, seq_no_range, trigger_batch_read}
use talek.Server.Frontend.Replies.{
  replica_reply, combined, length-xor_all_of, IsFull, IsWhole, AllReply, request_of,
  trigger_batch_read-combined,
}
use talek.Libtalek.Handle.{Primitives, nil_or, remove_pads}
use talek.Libtalek.Handle.Polls.{HasWholeSeed, Asks}
use talek.Server.ReadPath.Unpadding.{whole-HasSeed, padded-IsFull, remove_pads-bucket}

-- A replica as far as it reads: its configuration, its private key and its PIR server.
pub record Reader : Type 0 where
  pub conf : ServerConfig
  pub private_key : List ℕ
  pub server_read : List ℕ → Outcome (List ℕ)

unfoldable pub readers : Primitives → Codec → ReplicaInterface Reader
unfolding Replicas.batch_read
readers p c = record {
  write = λ r args reply. (r, none, reply);
  batch_read = λ r req.
      Replicas.batch_read r.conf (λ e. decode c e r.conf.trust_domain_index r.private_key) p.sip
        r.server_read req;
}

-- One client's read of a bucket.
pub record Query : Type 0 where
  pub bucket : ℕ
  pub td : List PirArgs
  pub sent : EncodedReadArgs

-- A query that the client made and encoded with its keys, for trust domains with the key pairs.
pub record IsQuery (c : Codec) (s : ShardCpu) (pairs : List (List ℕ × List ℕ)) (q : Query)
    : Type 0 where
  pub inside : q.bucket < s.num_buckets
  pub asks : Asks (length pairs) s.num_buckets q.bucket q.td
  pub client : List ℕ × List ℕ
  pub nonce : List ℕ
  pub is_sound : IsSound c client nonce pairs
  pub sent_by : encode c (some client) (some nonce) q.td (public_keys pairs) ≡ ok q.sent

-- Replica `j`: it has its index and its private key, its sizes are those of the shard, which its
-- PIR server serves, and it takes batches of `count`.
pub record IsReader (s : ShardCpu) (pairs : List (List ℕ × List ℕ)) (count j : ℕ) (r : Reader)
    : Type 0 where
  pub index : r.conf.trust_domain_index ≡ j
  pub public_key : List ℕ
  pub key : get_elem? pairs j ≡ some (public_key, r.private_key)
  pub item_length : s.bucket_size ≡ r.conf.data_size * r.conf.bucket_depth
  pub same_buckets : r.conf.num_buckets ≡ s.num_buckets
  pub serves : Serves r.conf s r.server_read
  pub room : count ≤ r.conf.read_batch

abbrev pub AreReaders : ShardCpu → List (List ℕ × List ℕ) → ℕ → ℕ → List Reader → Type 0
AreReaders s pairs count j [] = Unit {0}
AreReaders s pairs count j (r ∷ rs) =
    IsReader s pairs count j r × AreReaders s pairs count (j + 1) rs

-- Each query gets a reply without an error, whose data are the bucket without the pads.
abbrev pub AllGet : Primitives → ShardCpu → List Query → List (Option ReadReply) → Type 0
AllGet p s [] [] = Unit {0}
AllGet p s [] (r ∷ rs) = ⊥
AllGet p s (q ∷ qs) [] = ⊥
AllGet p s (q ∷ qs) (none ∷ rs) = ⊥
AllGet p s (q ∷ qs) (some r ∷ rs) =
    (r.error ≡ none)
    × (remove_pads p q.td r.contents ≡ ok (some (bucket_of s q.bucket)))
    × AllGet p s qs rs

local_arg-decoded :
    (conf : ServerConfig) (d : EncodedReadArgs → Outcome PirArgs) (e : EncodedReadArgs)
    (a : PirArgs)
    → 0 < length e.pir_args
    → d e ≡ ok a
    → local_arg conf d e ≡ ok a
unfolding local_arg
local_arg-decoded conf d e a some_args run = rw (not_zero, run) refl
  where
    not_zero : (length e.pir_args == 0) ≡ false
    not_zero = ground arith

decode-nonempty :
    (c : Codec) (e : EncodedReadArgs) (j : ℕ) (key : List ℕ) (a : PirArgs)
    → decode c e j key ≡ ok a
    → 0 < length e.pir_args
unfolding decode
decode-nonempty c e j key a run = some_args e.pir_args refl
  where
    some_args : (args : List (List ℕ)) → e.pir_args ≡ args → 0 < length args
    some_args [] none_sent = absurd (panic-ne-ok a (rw none_sent at run))
    some_args (b ∷ args) some_sent = omega arith

get_or-HasSeed :
    (td : List PirArgs) (j : ℕ)
    → All HasWholeSeed td
    → j < length td
    → HasSeed (get_or td j no_args)
get_or-HasSeed [] j h lt = absurd (omega arith)
get_or-HasSeed (t ∷ td) zero h lt = omega (arith, h.0)
get_or-HasSeed (t ∷ td) (suc j) h lt = get_or-HasSeed td j h.1 (omega arith)

module _ (p : Primitives) (c : Codec) (s : ShardCpu) (pairs : List (List ℕ × List ℕ))
    (queries : List Query) (w : IsWellFormed s) (whole : s.num_buckets % 8 ≡ 0)
    (all_queries : All (IsQuery c s pairs) queries) where
  -- The request of one query to replica `j`.
  abbrev part : ℕ → Query → EncodedReadArgs × PirArgs
  part j q = (q.sent, get_or q.td j no_args)

  parts-IsDecoded :
      (j : ℕ) (r : Reader) (qs : List Query)
      → IsReader s pairs (length queries) j r
      → All (IsQuery c s pairs) qs
      → All
          (IsDecoded r.conf (λ e. decode c e r.conf.trust_domain_index r.private_key))
          (map (part j) qs)
  parts-IsDecoded j r [] h all = tt
  parts-IsDecoded j r (q ∷ qs) h (iq, all) =
      let a = get_or q.td j no_args in
      let reached : j < length q.td =
        omega (arith, get_elem?-lt pairs j (h.public_key, r.private_key) h.key, iq.asks.one_each) in
      let (sent, run, back) =
        decode-encode c iq.client iq.nonce q.td pairs j (h.public_key, r.private_key) a iq.is_sound
          (sym iq.asks.one_each) h.key (get_elem?-get_or q.td j no_args reached) in
      let same : sent ≡ q.sent = ok_injective (sym run ∙ iq.sent_by) in
      let own : decode c q.sent r.conf.trust_domain_index r.private_key ≡ ok a =
        ap (λ k. decode c q.sent k r.private_key) h.index
        ∙ ap (λ e. decode c e j r.private_key) (sym same)
        ∙ back in
      (
        local_arg-decoded r.conf (λ e. decode c e r.conf.trust_domain_index r.private_key) q.sent a
            (decode-nonempty c q.sent r.conf.trust_domain_index r.private_key a own) own,
        parts-IsDecoded j r qs h all,
      )

  parts-HasSeed :
      (j : ℕ) (qs : List Query)
      → j < length pairs
      → All (IsQuery c s pairs) qs
      → All HasSeed (map (λ (x : EncodedReadArgs × PirArgs). x.1) (map (part j) qs))
  parts-HasSeed j [] lt all = tt
  parts-HasSeed j (q ∷ qs) lt (iq, all) = (
    get_or-HasSeed q.td j iq.asks.seeds (omega (arith, iq.asks.one_each)),
    parts-HasSeed j qs lt all,
  )

  abbrev made : PirArgs → List ℕ
  made = padded p.sip s (s.num_buckets / 8)

  abbrev asked : List (List PirArgs)
  asked = map (λ (q : Query). q.td) queries

  abbrev all_sent : List EncodedReadArgs
  all_sent = map (λ (q : Query). q.sent) queries

  one_reader :
      (j : ℕ) (r : Reader) (range : Range)
      → IsReader s pairs (length queries) j r
      → (readers p c).batch_read r (record { args = all_sent; seq_no_range = range })
        ≡ ok (replica_reply made s.bucket_size asked j)
  unfolding readers
  one_reader j r range h =
      let d : EncodedReadArgs → Outcome PirArgs =
        λ e. decode c e r.conf.trust_domain_index r.private_key in
      let ps = map (part j) queries in
      ap
        (λ args.
          Replicas.batch_read r.conf d p.sip r.server_read
            (record { args = args; seq_no_range = range }))
        (sym (map-map (λ (x : EncodedReadArgs × PirArgs). x.0) (part j) queries))
      ∙ batch_read-padded r.conf d p.sip r.server_read s ps range w h.item_length h.serves
          (parts-IsDecoded j r queries h all_queries)
          (parts-HasSeed j queries (get_elem?-lt pairs j (h.public_key, r.private_key) h.key)
            all_queries)
          (omega (arith, length-map (part j) queries, h.room))
      ∙ ap (λ rs. ok (record { batch_error = none; replies = rs }))
          (map-map
              (λ (x : EncodedReadArgs × PirArgs). padded_reply p.sip s (r.conf.num_buckets / 8) x.1)
              (part j) queries
            ∙ ap
                (λ n.
                  map (λ (q : Query). padded_reply p.sip s (n / 8) (get_or q.td j no_args)) queries)
                h.same_buckets
            ∙ sym (
                map-map
                  (λ (td : List PirArgs). record no_reply { contents = made (get_or td j no_args) })
                  (λ (q : Query). q.td) queries))

  all_readers :
      (range : Range) (j : ℕ) (rs : List Reader)
      → AreReaders s pairs (length queries) j rs
      → AllReply made s.bucket_size asked
          (readers p c)
          (record { args = all_sent; seq_no_range = range })
          j
          rs
  all_readers range j [] h = tt
  all_readers range j (r ∷ rs) h = (one_reader j r range h.0, all_readers range (j + 1) rs h.1)

  asked-IsWhole :
      (count : ℕ) (qs : List Query)
      → length pairs ≡ count
      → All (IsQuery c s pairs) qs
      → All (IsWhole made s.bucket_size count) (map (λ (q : Query). q.td) qs)
  asked-IsWhole count [] same all = tt
  asked-IsWhole count (q ∷ qs) same (iq, all) = (
    (
      iq.asks.one_each ∙ same,
      padded-IsFull p s (s.num_buckets / 8) w q.td (whole-HasSeed q.td iq.asks.seeds),
    ),
    asked-IsWhole count qs same all,
  )

  replies-AllGet :
      (range : Range) (sn : ℕ) (qs : List Query)
      → All (IsQuery c s pairs) qs
      → AllGet p s qs (
          map (λ td. some (combined made s.bucket_size range sn td)) (map (λ (q : Query). q.td) qs))
  replies-AllGet range sn [] all = tt
  replies-AllGet range sn (q ∷ qs) (iq, all) = (
    refl,
    remove_pads-bucket p s (s.num_buckets / 8) w (length pairs) q.bucket q.td eighths
        (omega (arith, whole)) iq.inside iq.asks,
    replies-AllGet range sn qs all,
  )
    where
      eighths : s.num_buckets / 8 ≡ num_bytes s.num_buckets
      eighths = unfold num_bytes in rw whole refl

-- For a well-formed database of a multiple of 8 buckets that all the replicas of a frontend serve,
-- each with its index and private key, and at most as many queries as there are replicas and as
-- each replica batches, each made by a client with the trust domains' keys for a bucket in range: a
-- batch of the frontend returns normally a reply without an error for each query, in order, and
-- removing the client's pads from its data gives exactly the bucket that the client asked for.
pub trigger_batch_read-AllGet :
    (p : Primitives) (c : Codec) (s : ShardCpu) (pairs : List (List ℕ × List ℕ)) (window_size : ℕ)
    (fe : Frontend Reader) (queries : List Query)
    → IsWellFormed s
    → s.num_buckets % 8 ≡ 0
    → length queries ≤ length fe.replicas
    → length pairs ≡ length fe.replicas
    → AreReaders s pairs (length queries) 0 fe.replicas
    → All (IsQuery c s pairs) queries
    → Returns
        (trigger_batch_read
          (readers p c)
          window_size
          fe
          (map some (map (λ (q : Query). q.sent) queries)))
        (AllGet p s queries)
trigger_batch_read-AllGet p c s pairs window_size fe queries w whole room same are all =
    let range = seq_no_range window_size fe.proposed_seq_no in
    let f = padded p.sip s (s.num_buckets / 8) in
    let tds = map (λ (q : Query). q.td) queries in
    let sent = map (λ (q : Query). q.sent) queries in
    (
      map (λ td. some (combined f s.bucket_size range fe.current_interest.id td)) tds,
      trigger_batch_read-combined f s.bucket_size tds (readers p c) window_size fe sent
          (length-map (λ (q : Query). q.sent) queries
            ∙ sym (length-map (λ (q : Query). q.td) queries))
          (omega (arith, length-map (λ (q : Query). q.td) queries))
          (asked-IsWhole p c s pairs queries w whole all (length fe.replicas) queries same all)
          (all_readers p c s pairs queries w whole all range 0 fe.replicas are),
      replies-AllGet p c s pairs queries w whole all range fe.current_interest.id queries all,
    )
