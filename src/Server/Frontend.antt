-- ===== src/Server/Frontend.antt =====
-- server/frontend.go: the numbers of the writes, which go to all the replicas in one order, and the
-- batches of reads, whose replies are the exclusive ors of what the replicas reply. A replica is
-- any implementation of ReplicaInterface of common/: a state and what its calls do. A call of a replica is one
-- step. The ids and compression of the interest vectors are parameters.
pub mod Order
pub mod Batches
pub mod Replies
use talek.Base.{
  ℕ, zero, suc, ◌+◌, ◌-◌, ◌%◌, ◌^◌, Bool, true, false, not, ◌&&◌, Option, none, some, List, [], ◌∷◌,
  ◌++◌, map, le_word, length, get_elem?, replicate, copy, slice?, Error, Outcome, ◌>>=◌, or_panic,
  replica_failed, ok, err, panic, ltb, leb, ◌==◌, if◌then◌else◌,
}
use talek.Drbg.Seed.{equal_bytes}
use talek.Common.Range.{Range}
use talek.Common.ReadArgs.{combine}
use talek.Common.Protocol.{
  EncodedReadArgs, ReadReply, BatchReadReply, BatchReadRequest, no_batch_reply, no_reply,
  ReplicaWriteArgs, ReplicaWriteReply,
}

-- `ReplicaInterface`: the state after a `Write`, its error and the reply that it fills in; and a
-- `BatchRead`, which fills in an empty reply.
pub record ReplicaInterface (State : Type 0) : Type 0 where
  pub write :
      State → ReplicaWriteArgs → ReplicaWriteReply → State × Option Error × ReplicaWriteReply
  pub batch_read : State → BatchReadRequest → Outcome BatchReadReply

-- `WriteReply`
pub record WriteReply : Type 0 where
  pub error : Option Error
  pub global_seq_no : ℕ

-- `globalInterest`
pub record GlobalInterest : Type 0 where
  pub id : ℕ
  pub compressed_vector : List ℕ
  pub signatures : List (List ℕ)

pub record Frontend (State : Type 0) : Type 0 where
  pub proposed_seq_no : ℕ
  pub current_interest : GlobalInterest
  pub replicas : List State

-- `NewFrontend`
unfoldable pub new_frontend : {State : Type 0} → List State → Frontend State
new_frontend replicas = record {
  proposed_seq_no = 0;
  current_interest = record { id = 0; compressed_vector = []; signatures = [] };
  replicas = replicas;
}

-- A call of `Write`, or a tick of `periodicWrite`, that goes over the replicas: what it sends, the
-- reply that the replicas fill in, the caller's error, and the place of the next replica. Calls run
-- at the same time, each under its own goroutine and without a lock.
pub record Call : Type 0 where
  pub args : ReplicaWriteArgs
  pub reply : ReplicaWriteReply
  pub error : Option Error
  pub next : ℕ

abbrev pub empty_reply : ReplicaWriteReply
empty_reply = record { write_error = none; global_seq_no = 0; interest_vec = []; signature = [] }

-- `Write` before its loop: the addition is atomic.
unfoldable pub begin_write :
    {State : Type 0} → Frontend State → ReplicaWriteArgs → Frontend State × Call
begin_write fe args =
    let seq_no = (fe.proposed_seq_no + 1) % 2 ^ 64 in
    (
      record fe { proposed_seq_no = seq_no },
      record {
        args = record args { global_seq_no = seq_no; epoch_flag = false; interest_flag = false };
        reply = empty_reply;
        error = none;
        next = 0;
      },
    )

-- A tick of `periodicWrite`, before its loop.
abbrev pub begin_periodic_write : Call
begin_periodic_write = record {
  args = record {
    bucket1 = 0;
    bucket2 = 0;
    contents = [];
    interest_vector = [];
    global_seq_no = 0;
    epoch_flag = true;
    interest_flag = false;
  };
  reply = empty_reply;
  error = none;
  next = 0;
}

-- One round of either loop: the replica after the write, and the call. The error of a tick is not
-- looked at.
unfoldable pub write_replica :
    {State : Type 0} → ReplicaInterface State → Call → State → State × Call
write_replica i call r =
    let (r', failed, reply) = i.write r call.args call.reply in
    (
      r',
      record call {
        reply = reply;
        error = elim failed [
          | some e ↦ some e
          | none ↦ elim reply.write_error [ some e ↦ some e | none ↦ call.error ]
        ];
        next = call.next + 1;
      },
    )

-- `Write` after its loop.
unfoldable pub end_write : Call → WriteReply
end_write call = record { error = call.error; global_seq_no = call.args.global_seq_no }

-- The check of `generateInterestVector` on the replicas' replies after the first.
unfoldable pub in_sync : List ℕ → List ReplicaWriteReply → Bool
unfolding equal_bytes
in_sync first [] = true
in_sync first (v ∷ partials) = equal_bytes first v.interest_vec && in_sync first partials

-- `generateInterestVector`; `compress` is none where zopfli fails, and `sha256` gives 32 bytes.
unfoldable pub generate_interest_vector :
    {State : Type 0}
    → (List ℕ → Option (List ℕ))
    → (List ℕ → List ℕ)
    → Frontend State
    → List ReplicaWriteReply
    → Outcome (Frontend State)
unfolding in_sync
generate_interest_vector compress sha256 fe [] = panic
generate_interest_vector compress sha256 fe (p ∷ partials) =
    if not (in_sync p.interest_vec (p ∷ partials)) then ok fe else elim (compress p.interest_vec) [
      | none ↦ ok fe
      | some compressed ↦ or_panic (slice? (sha256 compressed) 0 8) >>= λ sum. ok (record fe {
        current_interest = record {
          id = le_word sum;
          compressed_vector = compressed;
          signatures = map (λ v. copy (replicate 32 0) v.signature) (p ∷ partials);
        };
      })
    ]

-- The loop of `periodicUpdate` over the replicas: each fills in its own reply.
unfoldable pub ask_interest :
    {State : Type 0} → ReplicaInterface State → List State → List State × List ReplicaWriteReply
ask_interest i [] = ([], [])
ask_interest i (r ∷ rs) =
    let args : ReplicaWriteArgs = record {
      bucket1 = 0;
      bucket2 = 0;
      contents = [];
      interest_vector = [];
      global_seq_no = 0;
      epoch_flag = false;
      interest_flag = true;
    } in
    let reply : ReplicaWriteReply = record {
      write_error = none;
      global_seq_no = 0;
      interest_vec = [];
      signature = [];
    } in
    let (r', _, reply') = i.write r args reply in
    let (rs', replies) = ask_interest i rs in (r' ∷ rs', reply' ∷ replies)

-- One tick of `periodicUpdate`.
unfoldable pub periodic_update :
    {State : Type 0}
    → ReplicaInterface State
    → (List ℕ → Option (List ℕ))
    → (List ℕ → List ℕ)
    → Frontend State
    → Outcome (Frontend State)
unfolding ask_interest generate_interest_vector
periodic_update i compress sha256 fe =
    let (replicas, resp) = ask_interest i fe.replicas in
    generate_interest_vector compress sha256 (record fe { replicas = replicas }) resp

-- `GetUpdates`: the vector and the signatures.
unfoldable pub get_updates : {State : Type 0} → Frontend State → List ℕ × List (List ℕ)
get_updates fe = (fe.current_interest.compressed_vector, fe.current_interest.signatures)

-- The range of sequence numbers that `triggerBatchRead` asks for.
unfoldable pub seq_no_range : ℕ → ℕ → Range
seq_no_range window_size proposed_seq_no =
    let curr_seq_no = (proposed_seq_no + 1) % 2 ^ 64 in
    record {
      start = if leb curr_seq_no window_size then 1 else curr_seq_no - window_size;
      until = curr_seq_no;
      aborted = [];
    }

module _ {State : Type 0} (i : ReplicaInterface State) where
  -- The calls of the replicas, up to the first that fails: the replies, an empty one for each
  -- replica that is not called, and `replicaErr`. For an error in the reply it is the nil error of
  -- the call.
  unfoldable pub gather :
      BatchReadRequest → ℕ → List State → Outcome (List BatchReadReply × Option Error)
  gather args count [] = ok ([], none)
  gather args count (r ∷ rs) =
      let unused = map (λ _. no_batch_reply) rs in
      elim (i.batch_read r args) [
        | panic ↦ panic
        | err e ↦ ok (no_batch_reply ∷ unused, some e)
        | ok reply ↦ elim reply.batch_error [
          | some _ ↦ ok (reply ∷ unused, none)
          | none ↦
              if not (length reply.replies == count)
              then ok (reply ∷ unused, some replica_failed)
              else gather args count rs >>= λ t. ok (reply ∷ t.0, t.1)
        ]
      ]

-- The data after `Combine`; an error leaves them.
abbrev pub kept : List ℕ → Outcome (List ℕ) → Outcome (List ℕ)
kept contents (ok contents') = ok contents'
kept contents (err e) = ok contents
kept contents panic = panic

-- The loop over the replicas' replies for request `k`.
unfoldable pub combine_replies : ℕ → List ℕ → List BatchReadReply → Outcome (List ℕ)
unfolding combine
combine_replies k contents [] = ok contents
combine_replies k contents (rp ∷ rps) = do
  reply ← or_panic (get_elem? rp.replies k)
  contents' ← kept contents (combine contents reply.contents)
  combine_replies k contents' rps

-- The reply to request `k`; its length is that of reply `k` of replica `k`.
unfoldable pub reply_to : Range → ℕ → List BatchReadReply → ℕ → Outcome ReadReply
unfolding combine_replies
reply_to range last_interest_sn replies k = do
  own ← or_panic (get_elem? replies k)
  first ← or_panic (get_elem? own.replies k)
  contents ← combine_replies k (replicate (length first.contents) 0) replies
  ok (record {
    error = none;
    contents = contents;
    global_seq_no = range;
    last_interest_sn = last_interest_sn;
  })

-- The loop over the batch, with `left` requests to go from `k`: none is a request that gets no
-- reply, as all do that follow the first if there is an error.
unfoldable pub respond :
    Range → ℕ → List BatchReadReply → Option Error → ℕ → ℕ → Outcome (List (Option ReadReply))
unfolding reply_to
respond range sn replies error zero k = ok []
respond range sn replies error (suc left) k = elim error [
  | some e ↦ ok (some (record no_reply { error = some e }) ∷ replicate left none)
  | none ↦ reply_to range sn replies k >>= λ reply.
      respond range sn replies error left (k + 1) >>= λ rest. ok (some reply ∷ rest)
]

-- A request without arguments is sent empty.
abbrev pub args_or_empty : Option EncodedReadArgs → EncodedReadArgs
args_or_empty none = record { client_key = []; nonce = []; pir_args = [] }
args_or_empty (some a) = a

-- `triggerBatchRead`
unfoldable pub trigger_batch_read :
    {State : Type 0}
    → ReplicaInterface State
    → ℕ
    → Frontend State
    → List (Option EncodedReadArgs)
    → Outcome (List (Option ReadReply))
unfolding seq_no_range gather respond
trigger_batch_read i window_size fe batch =
    let range = seq_no_range window_size fe.proposed_seq_no in
    let args = map args_or_empty batch in
    gather i (record { args = args; seq_no_range = range }) (length batch) fe.replicas
    >>= λ (replies, error). respond range fe.current_interest.id replies error (length batch) 0

-- What the loop of `batchReads` waits for.
pub data Event (Request : Type 0) : Type 0 where
  read : Request → Event Request
  tick : Event Request

-- One round of `batchReads`: the batch that it triggers, if any, and the batch that it goes on with.
unfoldable pub batch_round :
    {Request : Type 0} → ℕ → List Request → Event Request → List Request × Option (List Request)
batch_round read_batch batch (read req) =
    let batch' = batch ++ req ∷ [] in
    if leb read_batch (length batch') then ([], some batch') else (batch', none)
batch_round read_batch batch tick = if ltb 0 (length batch) then ([], some batch) else (batch, none)

-- Rounds for a list of events: the batches that are triggered, and the batch that is left.
unfoldable pub batch_rounds :
    {Request : Type 0}
    → ℕ
    → List Request
    → List (Event Request)
    → List (List Request) × List Request
unfolding batch_round
batch_rounds read_batch batch [] = ([], batch)
batch_rounds read_batch batch (e ∷ es) =
    let (batch', triggered) = batch_round read_batch batch e in
    let (later, left) = batch_rounds read_batch batch' es in
    (elim triggered [ none ↦ later | some b ↦ b ∷ later ], left)
