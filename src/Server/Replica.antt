-- ===== src/Server/Replica.antt =====
-- server/replica.go: a replica decodes the requests that are for it, lets its shard read them, and
-- adds the pads that the clients chose. `decode` is Decode of common/readargs.go for the replica's
-- trust domain. The interest vector, of another package, is a parameter: its type, TestAndSet and
-- Delta. The shard handles the writes that it is sent in order, so that a write and its handling
-- are one step. `Fatalf`, which ends the program, is a panic.
pub mod Pads
use talek.Base.{
  ℕ, zero, suc, ◌/◌, none, some, List, [], ◌∷◌, length, take, replicate, Outcome, ◌>>=◌, ok, err,
  panic, ltb, ◌==◌, if◌then◌else◌,
}
use talek.Drbg.Seed.{seed_length}
use talek.Drbg.HashDrbg.{overlay}
use talek.Common.ReadArgs.{PirArgs}
use talek.Common.Protocol.{
  EncodedReadArgs, ReadReply, BatchReadReply, BatchReadRequest, no_batch_reply, ReplicaWriteArgs,
  ReplicaWriteReply,
}
use talek.Shard as Shards
use talek.Shard.{Shard, process_write}
use talek.Server.Config.{ServerConfig}
use talek.Server.Reads as Reads

-- The pad request, and the request of a place that the batch does not reach.
unfoldable pub pad_request : ServerConfig → PirArgs
pad_request conf = record {
  request_vector = replicate (conf.num_buckets / 8) 0;
  pad_seed = replicate seed_length 0;
}

abbrev pub no_args : PirArgs
no_args = record { request_vector = []; pad_seed = [] }

module _ (conf : ServerConfig) (decode : EncodedReadArgs → Outcome PirArgs) where
  unfoldable pub local_arg : EncodedReadArgs → Outcome PirArgs
  unfolding pad_request
  local_arg val =
      if length val.pir_args == 0
      then ok (pad_request conf)
      else elim (decode val) [ ok pir ↦ ok pir | err e ↦ panic | panic ↦ panic ]

  -- The loop that fills in the `room` places of `localArgs.Args`.
  unfoldable pub local_args : ℕ → List EncodedReadArgs → Outcome (List PirArgs)
  unfolding local_arg
  local_args room [] = ok (replicate room no_args)
  local_args zero (val ∷ vals) = panic
  local_args (suc room) (val ∷ vals) = do
    arg ← local_arg val
    args ← local_args room vals
    ok (arg ∷ args)

-- A reply after `Overlay`.
abbrev pub overlaid : ReadReply → Outcome (List ℕ) → Outcome ReadReply
overlaid reply (ok contents) = ok (record reply { contents = contents })
overlaid reply (err e) = ok (record reply { error = some e })
overlaid reply panic = panic

-- The pad on one reply.
unfoldable pub add_pad : (List ℕ → List ℕ → List ℕ) → PirArgs → ReadReply → Outcome ReadReply
unfolding overlay
add_pad sip val reply = elim reply.error [
  | some e ↦ ok reply
  | none ↦ overlaid reply (overlay sip val.pad_seed reply.contents)
]

-- The loop over the local arguments; an index out of the replies panics.
unfoldable pub add_pads :
    (List ℕ → List ℕ → List ℕ) → List PirArgs → List ReadReply → Outcome (List ReadReply)
unfolding add_pad
add_pads sip [] replies = ok replies
add_pads sip (val ∷ vals) [] = panic
add_pads sip (val ∷ vals) (r ∷ replies) = do
  r' ← add_pad sip val r
  rest ← add_pads sip vals replies
  ok (r' ∷ rest)

-- `BatchRead`
unfoldable pub batch_read :
    ServerConfig
    → (EncodedReadArgs → Outcome PirArgs)
    → (List ℕ → List ℕ → List ℕ)
    → (List ℕ → Outcome (List ℕ))
    → BatchReadRequest
    → Outcome BatchReadReply
unfolding local_args add_pads Reads.batch_read
batch_read conf decode sip server_read req = do
  args ← local_args conf decode conf.read_batch req.args
  my_reply ← Reads.batch_read conf server_read args
  replies ← add_pads sip args my_reply.replies
  if ltb (length replies) (length req.args)
      then ok no_batch_reply
      else ok (record { batch_error = none; replies = take (length req.args) replies })

pub record Replica (Interest : Type 0) : Type 0 where
  pub shard : Shard
  pub committed_seq_no : ℕ
  pub interest_vector : Interest

unfoldable pub shard_args : ReplicaWriteArgs → Shards.WriteArgs
shard_args args = record {
  bucket1 = args.bucket1;
  bucket2 = args.bucket2;
  contents = args.contents;
  global_seq_no = args.global_seq_no;
  epoch_flag = args.epoch_flag;
}

module _ {Interest : Type 0} (test_and_set : Interest → List ℕ → Interest)
    (delta : Interest → List ℕ) where
  -- `Write`: the replica after it, and the reply.
  unfoldable pub write :
      Replica Interest
      → ReplicaWriteArgs
      → ReplicaWriteReply
      → Outcome (Replica Interest × ReplicaWriteReply)
  unfolding shard_args process_write
  write r args reply =
      if args.interest_flag
      then ok (r, record reply { interest_vec = delta r.interest_vector })
      else process_write r.shard (shard_args args) >>= λ (shard, _). ok (
        record {
          shard = shard;
          committed_seq_no = args.global_seq_no;
          interest_vector = test_and_set r.interest_vector args.interest_vector;
        },
        record reply { global_seq_no = args.global_seq_no },
      )
