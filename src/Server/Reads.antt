-- ===== src/Server/Reads.antt =====
-- server/shard.go: the batches that a shard reads, and the replies that it cuts out of what the PIR
-- server answers. The answer of `s.Server.Read` is a parameter. The read loop sends the batches and
-- the reply loop takes the answers in the same order, so that a batch and its reply are one step.
-- `Fatalf`, which ends the program, is a panic.
pub mod Batch
use talek.Base.{
  ℕ, zero, suc, ◌+◌, ◌*◌, ◌/◌, not, none, some, List, [], ◌∷◌, length, take, replicate, copy_at,
  slice?, Outcome, ◌>>=◌, or_panic, bad_batch, ok, err, panic, ltb, ◌==◌, if◌then◌else◌,
}
use talek.Common.ReadArgs.{PirArgs}
use talek.Common.Protocol.{ReadReply, BatchReadReply, no_reply}
use talek.Server.Config.{ServerConfig}

-- The loop of `batchRead` over the requests, at request `i`.
unfoldable pub copy_vectors : ℕ → ℕ → List ℕ → List PirArgs → List ℕ
copy_vectors req_length i pirvector [] = pirvector
copy_vectors req_length i pirvector (a ∷ args) =
    copy_vectors req_length (i + 1)
      (copy_at (req_length * i) pirvector (take req_length a.request_vector)) args

-- The loop of `processReplies`, with `left` replies to go from `i`.
unfoldable pub cut_replies : ℕ → ℕ → ℕ → List ℕ → Outcome (List ReadReply)
cut_replies item_length zero i reply = ok []
cut_replies item_length (suc left) i reply = do
  part ← or_panic (slice? reply (i * item_length) ((i + 1) * item_length))
  rest ← cut_replies item_length left (i + 1) reply
  ok (record no_reply { contents = part } ∷ rest)

-- One round of `processReplies`.
unfoldable pub process_reply : ServerConfig → List ℕ → Outcome BatchReadReply
unfolding cut_replies
process_reply conf reply =
    let item_length = conf.data_size * conf.bucket_depth in
    let short = ltb (length reply) (conf.read_batch * item_length) in
    if short
    then ok (record { batch_error = none; replies = replicate conf.read_batch no_reply })
    else cut_replies item_length conf.read_batch 0 reply >>= λ replies.
        ok (record { batch_error = none; replies = replies })

-- `batchRead`, with the reply to it.
unfoldable pub batch_read :
    ServerConfig → (List ℕ → Outcome (List ℕ)) → List PirArgs → Outcome BatchReadReply
unfolding copy_vectors process_reply
batch_read conf server_read args =
    let req_length = conf.num_buckets / 8 in
    let pirvector = copy_vectors req_length 0 (replicate (req_length * conf.read_batch) 0) args in
    if not (length args == conf.read_batch)
    then ok (record { batch_error = some bad_batch; replies = [] })
    else elim (server_read pirvector) [
      | ok reply ↦ process_reply conf reply
      | err e ↦ panic
      | panic ↦ panic
    ]
