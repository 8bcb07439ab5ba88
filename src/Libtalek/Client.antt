-- ===== src/Libtalek/Client.antt =====
-- libtalek/client.go: the handles that a client polls, the writes that wait, and one round of each of
-- its loops. A handle is an address in a store, since the client compares pointers. A round is one
-- step; the channels are lists, which a send extends and a receive takes the first of, and their
-- capacity is left out. The leader's calls and `rand.Read` are parameters. Logging, the times, the
-- update loop's decompression and getConfig are left out. `Fatal`, which ends the program, is a
-- panic.
pub mod Polling
pub mod Updates
pub mod Writing
use talek.Base.{
  ℕ, ◌+◌, ◌-◌, ◌*◌, ◌%◌, ◌^◌, Bool, ◌||◌, Option, none, some, List, [], ◌∷◌, ◌++◌, length, Error,
  Outcome, ◌>>=◌, or_panic, too_long, ok, err, panic, ltb, leb, ◌==◌, if◌then◌else◌,
}
use talek.Drbg.Seed.{new_seed, marshal_binary}
use talek.Common.ReadArgs.{PirArgs}
use talek.Common.Protocol.{ReadReply}
use talek.Libtalek.Message.{new_message, split, split_negative}
use talek.Libtalek.Handle.{Primitives, Handle, next_interest_vector, generate_poll, on_response}
use talek.Libtalek.Topic.{Topic, WriteArgs, publishing_overhead, generate_publish}

-- `ClientConfig`, with the parts of common/config.go that the client uses.
pub record ClientConfig : Type 0 where
  pub num_buckets : ℕ
  pub data_size : ℕ
  pub trust_domains : ℕ

-- `request`; none is a nil pointer.
pub record Request : Type 0 where
  pub td : Option (List PirArgs)
  pub handle : Option ℕ

pub record Client : Type 0 where
  pub handles : List ℕ
  pub pending_writes : List WriteArgs
  pub write_count : ℕ
  pub pending_reads : List Request
  pub pending_updates : ℕ
  pub last_seq_no : ℕ
  pub last_interest_sn : ℕ

-- `NewClient`
abbrev pub new_client : Client
new_client = record {
  handles = [];
  pending_writes = [];
  write_count = 0;
  pending_reads = [];
  pending_updates = 0;
  last_seq_no = 0;
  last_interest_sn = 0;
}

-- `common.MsgMaxFragments`
abbrev pub msg_max_fragments : ℕ
msg_max_fragments = 128

unfoldable pub max_length : ClientConfig → ℕ
max_length conf = (conf.data_size * msg_max_fragments) % 2 ^ 64

-- The parts that Publish splits its data into: the part size is negative for a small data size.
unfoldable pub parts_of : ClientConfig → List ℕ → Outcome (List (List ℕ))
unfolding split split_negative new_message
parts_of conf contents =
    if ltb conf.data_size publishing_overhead
    then split_negative (length contents) (publishing_overhead + 5 - conf.data_size)
    else split (new_message contents) (conf.data_size - publishing_overhead)

-- A write is counted and sent to the write loop.
unfoldable pub enqueue : Client → WriteArgs → Client
enqueue cl args = record cl {
  write_count = cl.write_count + 1;
  pending_writes = cl.pending_writes ++ args ∷ [];
}

-- The loop of `Publish` over the parts.
unfoldable pub publish_parts :
    Primitives → ClientConfig → Client → Topic → List (List ℕ) → Outcome (Client × Topic)
unfolding enqueue generate_publish
publish_parts c conf cl t [] = ok (cl, t)
publish_parts c conf cl t (part ∷ parts) =
    generate_publish c t conf.num_buckets part >>= λ (t', args).
    publish_parts c conf (enqueue cl args) t' parts

-- `Publish`; GeneratePublish returns no error, and a maximum of 2^63 or more is a negative `int`.
unfoldable pub publish :
    Primitives → ClientConfig → Client → Topic → List ℕ → Outcome (Client × Topic)
unfolding max_length parts_of publish_parts
publish c conf cl t contents =
    if leb (2 ^ 63) (max_length conf) || ltb (max_length conf) (length contents)
    then err too_long
    else parts_of conf contents >>= publish_parts c conf cl t

-- `Flush` waits until this holds.
abbrev pub is_flushed : Client → Bool
is_flushed cl = cl.write_count == 0

-- What the leader answers: its error, and the number in the reply.
pub record Leader : Type 0 where
  pub write : WriteArgs → Option Error × ℕ
  pub read : List PirArgs → Option Error × ReadReply

-- `generateRandomWrite`: `draw i max` is the i-th call of `rand.Int`, none if it fails, and the
-- result is none for the nil arguments.
unfoldable pub generate_random_write :
    (ℕ → ℕ → Option ℕ) → (ℕ → Option (List ℕ)) → ClientConfig → Outcome (Option WriteArgs)
generate_random_write draw rand conf = do
  b1 ← or_panic (draw 0 conf.num_buckets)
  b2 ← or_panic (draw 1 conf.num_buckets)
  ok (elim (rand conf.data_size) [
    | none ↦ none
    | some contents ↦
        some (record { bucket1 = b1; bucket2 = b2; contents = contents; interest_vector = [] })
  ])

-- What the write loop does with a request: it is sent to the leader; a nil request panics there.
unfoldable pub send_write : Leader → Client → Option WriteArgs → Outcome (Client × WriteArgs)
send_write leader cl none = panic
send_write leader cl (some req) =
    let (error, seq_no) = leader.write req in
    ok (
      record cl { last_seq_no = if ltb cl.last_seq_no seq_no then seq_no else cl.last_seq_no },
      req,
    )

-- The request of a round of `writePeriodic`: a write that waits, which is then no longer counted, or
-- `random`, what generateRandomWrite gives. Flush may return from here on, before the write is sent.
unfoldable pub take_write :
    Outcome (Option WriteArgs) → Client → Outcome (Client × Option WriteArgs)
take_write random cl = elim cl.pending_writes [
  | [] ↦ random >>= λ req. ok (cl, req)
  | req ∷ rest ↦
      ok (record cl { pending_writes = rest; write_count = cl.write_count - 1 }, some req)
]

-- One round of `writePeriodic`: the client after it, and what it sent.
unfoldable pub write_round :
    Leader → Outcome (Option WriteArgs) → Client → Outcome (Client × WriteArgs)
unfolding take_write send_write
write_round leader random cl = take_write random cl >>= λ (cl', req). send_write leader cl' req
