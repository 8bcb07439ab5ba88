-- ===== src/Libtalek/Client/Polling.antt =====
-- libtalek/client.go: the handles that the client polls, the order in which it reads for them, and one
-- round of its read loop.
pub mod Readiness
pub mod Fairness
pub mod Membership
pub mod Priority
pub mod Tidy
use talek.Base.{
  ℕ, zero, suc, ◌+◌, ◌-◌, ◌/◌, ◌%◌, ◌^◌, Bool, true, false, not, ◌&&◌, Option, none, some, List, [],
  ◌∷◌, ◌++◌, length, get_or, set, take, replicate, Outcome, ◌>>=◌, or_panic, ok, err, panic, ltb,
  ◌==◌, if◌then◌else◌,
}
use talek.Drbg.Seed.{new_seed, marshal_binary}
use talek.Common.ReadArgs.{PirArgs}
use talek.Common.Protocol.{ReadReply, no_reply}
use talek.Libtalek.Handle.{Primitives, Handle, next_interest_vector, generate_poll, on_response}
use talek.Libtalek.Client.{Client, ClientConfig, Request, Leader}

-- The handles at their addresses.
abbrev pub Store : Type 0
Store = ℕ → Handle

-- `*h = handle`
unfoldable pub store_at : Store → ℕ → Handle → Store
store_at store h handle k = if k == h then handle else store k

unfoldable pub is_polled : List ℕ → ℕ → Bool
is_polled [] h = false
is_polled (k ∷ handles) h = if k == h then true else is_polled handles h

-- `Poll`; none is the nil channel. A handle without a channel gets one from initHandle, unless
-- rand.Read fails.
unfoldable pub poll : Bool → Client → Store → ℕ → Client × Store × Bool
unfolding is_polled store_at
poll rand_works cl store h =
    if is_polled cl.handles h
    then (cl, store, false)
    else if not (store h).has_updates && not rand_works
    then (cl, store_at store h (record (store h) { has_updates = true }), false)
    else (
      record cl { handles = cl.handles ++ h ∷ [] },
      store_at store h (record (store h) { has_updates = true }),
      true,
    )

-- The search of `Done` from place `i`.
unfoldable pub place_of : List ℕ → ℕ → ℕ → Option ℕ
place_of [] h i = none
place_of (k ∷ handles) h i = if k == h then some i else place_of handles h (i + 1)

-- `c.handles[i] = c.handles[len-1]` and then `c.handles[:len-1]`
unfoldable pub remove_at : List ℕ → ℕ → List ℕ
remove_at handles i =
    take (length handles - 1) (set handles i (get_or handles (length handles - 1) 0))

-- `Done`
unfoldable pub done_polling : Client → ℕ → Client × Bool
unfolding place_of remove_at
done_polling cl h = elim (place_of cl.handles h 0) [
  | none ↦ (cl, false)
  | some i ↦ (record cl { handles = remove_at cl.handles i }, true)
]

-- The loop of `prioritizeRequests`; `test` is the interest vector's Test, and a handle without a key
-- panics.
unfoldable pub split_handles :
    Primitives → (List ℕ → Bool) → Store → List ℕ → Outcome (List ℕ × List ℕ)
unfolding next_interest_vector
split_handles c test store [] = ok ([], [])
split_handles c test store (h ∷ handles) = do
  vec ← next_interest_vector c (store h)
  (prioritized, deprioritized) ← split_handles c test store handles
  if test vec then ok (h ∷ prioritized, deprioritized) else ok (prioritized, h ∷ deprioritized)

unfoldable pub prioritize_requests : Primitives → (List ℕ → Bool) → Store → Client → Outcome Client
unfolding split_handles
prioritize_requests c test store cl =
    split_handles c test store cl.handles >>= λ r. ok (record cl { handles = r.0 ++ r.1 })

-- The loop of `generateRandomRead`, with `left` trust domains to go from `i`: a buffer keeps zeros if
-- its read fails, and without a seed the program ends.
unfoldable pub random_args :
    (ℕ → ℕ → Option (List ℕ)) → (ℕ → ℕ → Option (List ℕ)) → ℕ → ℕ → ℕ → Outcome (List PirArgs)
unfolding new_seed marshal_binary
random_args reader rand vector_size zero i = ok []
random_args reader rand vector_size (suc left) i = elim (new_seed (rand i)) [
  | ok seed ↦ random_args reader rand vector_size left (i + 1) >>= λ rest. ok (
      record {
        request_vector = elim (reader i vector_size) [
          | some vec ↦ vec
          | none ↦ replicate vector_size 0
        ];
        pad_seed = marshal_binary seed;
      }
      ∷ rest)
  | err e ↦ panic
  | panic ↦ panic
]

unfoldable pub generate_random_read :
    (ℕ → ℕ → Option (List ℕ)) → (ℕ → ℕ → Option (List ℕ)) → ClientConfig → Outcome Request
unfolding random_args
generate_random_read reader rand conf =
    random_args reader rand (((conf.num_buckets + 7) % 2 ^ 64 / 8 + 1) % 2 ^ 32) conf.trust_domains
      0
    >>= λ td. ok (record { td = some td; handle = none })

-- The sources of randomness of one round: `rand` is crypto/rand and `reader` is `c.Rand`, each for
-- the first bucket, `k = 0`, and the second.
pub record Randomness : Type 0 where
  pub rand : ℕ → ℕ → ℕ → Option (List ℕ)
  pub reader : ℕ → ℕ → ℕ → Option (List ℕ)

-- The first handle goes to the end, and its second bucket waits.
abbrev pub rotate :
    Client
    → ℕ
    → List ℕ
    → Outcome (Option (List PirArgs) × Option (List PirArgs))
    → Outcome (Client × Request)
rotate cl h handles (ok ras) = ok (
  record cl {
    handles = handles ++ h ∷ [];
    pending_reads = cl.pending_reads ++ record { td = ras.1; handle = some h } ∷ [];
  },
  record { td = ras.0; handle = some h },
)
rotate cl h handles (err e) = panic
rotate cl h handles panic = panic

module _ (c : Primitives) (unaligned : Bool) (source : Randomness) (conf : ClientConfig)
    (store : Store) (cl : Client) where
  -- `nextRequest` on the list of handles.
  unfoldable pub next_from : List ℕ → Outcome (Client × Request)
  unfolding generate_poll generate_random_read
  next_from [] = generate_random_read (source.reader 0) (source.rand 0) conf >>= λ req. ok (cl, req)
  next_from (h ∷ handles) = rotate cl h handles (
      generate_poll c unaligned source.rand source.reader (store h) conf.trust_domains
        conf.num_buckets)

  unfoldable pub next_request : Outcome (Client × Request)
  unfolding next_from
  next_request = next_from cl.handles

  -- A read that waits, or a new one.
  unfoldable pub take_from : List Request → Outcome (Client × Request)
  unfolding next_request
  take_from [] = next_request
  take_from (req ∷ rest) = ok (record cl { pending_reads = rest }, req)

  -- The request of a round of `readPeriodic`.
  unfoldable pub take_request : Outcome (Client × Request)
  unfolding take_from
  take_request = take_from cl.pending_reads

-- What the client notes of a reply.
unfoldable pub note_reply : Client → ReadReply → Client
note_reply cl reply = record cl {
  last_seq_no =
      if ltb cl.last_seq_no reply.global_seq_no.until
      then reply.global_seq_no.until
      else cl.last_seq_no;
  pending_updates =
      if reply.last_interest_sn == cl.last_interest_sn
      then cl.pending_updates
      else cl.pending_updates + 1;
}

-- What the round does with the leader's reply: the client, the handles, and what is sent to the
-- channel of the request's handle. An error of the call is put in the reply's `Err`, which nothing
-- reads.
unfoldable pub take_reply :
    Primitives
    → ClientConfig
    → Store
    → Client
    → List PirArgs
    → Option ℕ
    → ReadReply
    → Outcome (Client × Store × List (Option (List ℕ)))
unfolding on_response store_at note_reply
take_reply c conf store cl td handle reply = elim handle [
  | none ↦ ok (note_reply cl reply, store, [])
  | some h ↦ on_response c (store h) td reply.contents conf.data_size >>= λ (h', sent).
      ok (note_reply cl reply, store_at store h h', sent)
]

-- One round of `readPeriodic`: the client, the handles, the request that it sent to the leader, and
-- what it sent to the channel. Encode reads the request's arguments, which panics for nil.
unfoldable pub read_round :
    Primitives
    → Bool
    → Randomness
    → ClientConfig
    → Leader
    → Client
    → Store
    → Outcome (Client × Store × Request × List (Option (List ℕ)))
unfolding take_request take_reply
read_round c unaligned source conf leader cl store = do
  (cl', req) ← take_request c unaligned source conf store cl
  td ← or_panic req.td
  (cl'', store', sent) ← take_reply c conf store cl' td req.handle (leader.read td).1
  ok (cl'', store', req, sent)
