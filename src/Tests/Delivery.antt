-- ===== src/Tests/Delivery.antt =====
-- A toy topic's write, standing as the second item of bucket 2 in a database of eight buckets of
-- two items of 88 bytes, and a handle's read of that bucket through two replicas.
use talek.Base.{
  ℕ, ◌≡◌, refl, sym, ◌∙◌, subst, true, some, List, [], ◌∷◌, ◌++◌, arith, IsBytes, append-IsBytes,
  replicate, slice?, Returns, for_range, ok_injective, bad_signature, ok,
}
use mathlib.Core.Option.{some-injective}
use talek.Pir.ShardCpu.{ShardCpu}
use talek.Pir.ShardCpu.Answer.{IsWellFormed, bucket_of}
use talek.Pir.Server.{read}
use talek.Pir.Server.Serving.{cpu_backing, shard_of, sized, loaded, read-loaded}
use talek.Pir.Xor.{bytes}
use talek.Pir.Client.{generate_request_vectors}
use talek.Common.ReadArgs.{PirArgs}
use talek.Common.Encoding.{encode}
use talek.Common.Encoding.Roundtrip.{public_keys}
use talek.Libtalek.Handle.{make_read_arg, seqno_bytes, decrypt, decrypt_with}
use talek.Libtalek.Handle.Polls.{Asks, make_read_arg-Asks}
use talek.Libtalek.Topic.{Topic, WriteArgs, generate_publish}
use talek.Server.Config.{ServerConfig}
use talek.Server.Reads.Batch.{Serves}
use talek.Server.Frontend.{Frontend, trigger_batch_read}
use talek.Server.ReadPath.{Reader, readers, Query, IsQuery, IsReader}
use talek.Server.ReadPath.Delivery.{Holds, Receives, on_response-trigger_batch_read}
use talek.Tests.Crypto.{
  toy, toy_handle, toy_topic, toy-Follows, ones, ones-Fills, ones-FillsSeeds, ones-IsBytes,
}
use talek.Tests.ReadPath.{codec, codec-IsSound, key_pairs, zeros}

abbrev message : List ℕ
message = 1 ∷ 2 ∷ 3 ∷ 4 ∷ 5 ∷ 6 ∷ 7 ∷ 8 ∷ []

-- The tag of the box, the message and its signature.
abbrev contents : List ℕ
contents =
    (1 ∷ 2 ∷ 6 ∷ replicate 13 0)
    ++ message
    ++ (4 ∷ 1 ∷ 2 ∷ 6 ∷ replicate 13 0)
    ++ message
    ++ replicate 39 9

abbrev write : WriteArgs
write = record {
  bucket1 = 2;
  bucket2 = 2;
  contents = contents;
  interest_vector = 4 ∷ 6 ∷ replicate 55 0;
}

abbrev after_write : Topic
after_write = record toy_topic { handle = record toy_handle { seqno = 7 } }

published : generate_publish toy toy_topic 8 message ≡ ok (after_write, write)
unfolding generate_publish toy slice?
published = refl

abbrev items : List ℕ
items = replicate 440 1 ++ contents ++ replicate 880 1

abbrev shard : ShardCpu
shard = shard_of 1 176 8 items

items-IsBytes : IsBytes items
items-IsBytes =
    append-IsBytes (replicate 440 1) (contents ++ replicate 880 1) (ones-IsBytes 440)
      (append-IsBytes contents (replicate 880 1) (omega arith) (ones-IsBytes 880))

shard-IsWellFormed : IsWellFormed shard
shard-IsWellFormed = record { positive = omega arith; filled = refl; all_bytes = items-IsBytes }

bucket-Holds : Holds toy 88 toy_handle contents (bucket_of shard 2)
unfolding seqno_bytes decrypt decrypt_with toy bucket_of slice?
bucket-Holds = record {
  nonce = 6 ∷ replicate 23 0;
  nonce_of = refl;
  foreign = replicate 88 1 ∷ [];
  after = [];
  shape = refl;
  same_size = (refl, tt);
  not_decrypted = ((bad_signature, refl), tt);
}

-- The secret bit 2 is added to the random vector.
abbrev td : List PirArgs
td =
    record { request_vector = 5 ∷ []; pad_seed = replicate 24 1 }
    ∷ record { request_vector = 1 ∷ []; pad_seed = replicate 24 1 }
    ∷ []

td_made : make_read_arg true ones ones 2 8 2 ≡ ok (some td)
unfolding make_read_arg generate_request_vectors bytes for_range
td_made = refl

td-Asks : Asks 2 8 2 td
td-Asks =
    let (r, run, (made, some_made, asks)) =
      make_read_arg-Asks true ones ones 2 8 2 ones-Fills ones-FillsSeeds (omega arith)
        (omega arith) in
    let same : made ≡ td =
      some-injective made td (sym some_made ∙ ok_injective (sym run ∙ td_made)) in
    subst (Asks 2 8 2) same asks

abbrev query : Query
query = record {
  bucket = 2;
  td = td;
  sent = record {
    client_key = 6 ∷ [];
    nonce = 2 ∷ [];
    pir_args = (zeros ++ 1 ∷ 5 ∷ replicate 24 1) ∷ (zeros ++ 1 ∷ 1 ∷ replicate 24 1) ∷ [];
  };
}

query_sent :
    encode codec (some (6 ∷ [], 4 ∷ [])) (some (2 ∷ [])) td (public_keys key_pairs) ≡ ok query.sent
unfolding encode
query_sent = refl

query-IsQuery : IsQuery codec shard key_pairs query
query-IsQuery = record {
  inside = omega arith;
  asks = td-Asks;
  client = (6 ∷ [], 4 ∷ []);
  nonce = 2 ∷ [];
  is_sound = codec-IsSound (6 ∷ [], 4 ∷ []) (2 ∷ []) key_pairs;
  sent_by = query_sent;
}

abbrev conf_at : ℕ → ServerConfig
conf_at j = record {
  num_buckets = 8;
  bucket_depth = 2;
  data_size = 88;
  window_size = 4;
  read_batch = 2;
  trust_domain_index = j;
}

abbrev reader_at : ℕ → Reader
reader_at j = record {
  conf = conf_at j;
  private_key = j ∷ [];
  server_read =
      read (cpu_backing true 1) (sized true 1 176 8 2 items (some (loaded true 1 176 8 2 items)));
}

reader-Serves : (j : ℕ) → Serves (conf_at j) shard (reader_at j).server_read
reader-Serves j masks fit =
    read-loaded true 1 176 8 2 items masks (omega arith) refl (omega arith) refl (omega arith) refl
      items-IsBytes fit

reader_at_zero-IsReader : IsReader shard key_pairs 1 0 (reader_at 0)
reader_at_zero-IsReader = record {
  index = refl;
  public_key = 7 ∷ [];
  key = refl;
  item_length = refl;
  same_buckets = refl;
  serves = reader-Serves 0;
  room = omega arith;
}

reader_at_one-IsReader : IsReader shard key_pairs 1 1 (reader_at 1)
reader_at_one-IsReader = record {
  index = refl;
  public_key = 8 ∷ [];
  key = refl;
  item_length = refl;
  same_buckets = refl;
  serves = reader-Serves 1;
  room = omega arith;
}

abbrev fe : Frontend Reader
fe = record {
  proposed_seq_no = 9;
  current_interest = record { id = 5; compressed_vector = []; signatures = [] };
  replicas = reader_at 0 ∷ reader_at 1 ∷ [];
}

on_response-trigger_batch_read_example :
    Returns
      (trigger_batch_read (readers toy codec) 4 fe (some query.sent ∷ []))
      (Receives toy 88 toy_handle message query)
on_response-trigger_batch_read_example =
    on_response-trigger_batch_read toy codec shard key_pairs 4 88 fe query toy_topic after_write
      toy_handle write message shard-IsWellFormed refl (omega arith) refl
      (reader_at_zero-IsReader, (reader_at_one-IsReader, tt)) query-IsQuery toy-Follows published
      refl bucket-Holds
