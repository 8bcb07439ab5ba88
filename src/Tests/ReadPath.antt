-- ===== src/Tests/ReadPath.antt =====
-- Two replicas of a database of eight buckets of eight bytes, and a client's read of bucket 3.
use talek.Base.{
  ℕ, ◌≡◌, refl, sym, ap₂, ◌∙◌, subst, true, some, List, [], ◌∷◌, ◌++◌, map, arith, length, take,
  drop, replicate, take-length, drop-length, Returns, for_range, Outcome, ok_injective, bad_length,
  ok, err,
}
use mathlib.Core.Option.{some-injective}
use talek.Pir.ShardCpu.{ShardCpu}
use talek.Pir.ShardCpu.Answer.{IsWellFormed}
use talek.Pir.Server.{read}
use talek.Pir.Server.Serving.{cpu_backing, shard_of, sized, loaded, read-loaded}
use talek.Pir.Xor.{bytes}
use talek.Pir.Client.{generate_request_vectors}
use talek.Common.ReadArgs.{PirArgs}
use talek.Common.Encoding.{Codec, encode, decode}
use talek.Common.Encoding.Roundtrip.{IsSound, public_keys, decode-encode}
use talek.Libtalek.Handle.{make_read_arg}
use talek.Libtalek.Handle.Polls.{Asks, make_read_arg-Asks}
use talek.Server.Config.{ServerConfig}
use talek.Server.Reads.Batch.{Serves}
use talek.Server.Frontend.{Frontend, trigger_batch_read}
use talek.Server.ReadPath.{
  Reader, readers, Query, IsQuery, IsReader, AllGet, trigger_batch_read-AllGet,
}
use talek.Tests.Crypto.{toy, ones, ones-Fills, ones-FillsSeeds, ones-IsBytes}

-- gob writes the length of the vector first, and a box is sixteen zeros and the message.
abbrev read_vector : List ℕ → Outcome PirArgs
read_vector [] = err bad_length
read_vector (n ∷ b) = ok (record { request_vector = take n b; pad_seed = drop n b })

abbrev pub codec : Codec
codec = record {
  seal = λ nonce public_key private_key msg. replicate 16 0 ++ msg;
  unseal = λ nonce public_key private_key box. some (drop 16 box);
  gob_encode = λ a. ok (length a.request_vector ∷ a.request_vector ++ a.pad_seed);
  gob_decode = read_vector;
}

pub codec-IsSound :
    (client : List ℕ × List ℕ) (nonce : List ℕ) (pairs : List (List ℕ × List ℕ))
    → IsSound codec client nonce pairs
codec-IsSound client nonce pairs = record {
  long = λ key msg. omega arith;
  opens = λ i pair msg found. refl;
  decoded = λ a. (
    length a.request_vector ∷ a.request_vector ++ a.pad_seed,
    refl,
    ap₂ (λ v seed. ok (record { request_vector = v; pad_seed = seed }))
        (take-length a.request_vector a.pad_seed) (drop-length a.request_vector a.pad_seed),
  );
}

abbrev db : List ℕ
db = replicate 64 1

abbrev shard : ShardCpu
shard = shard_of 1 8 8 db

shard-IsWellFormed : IsWellFormed shard
shard-IsWellFormed = record { positive = omega arith; filled = refl; all_bytes = ones-IsBytes 64 }

abbrev conf_at : ℕ → ServerConfig
conf_at j = record {
  num_buckets = 8;
  bucket_depth = 1;
  data_size = 8;
  window_size = 4;
  read_batch = 2;
  trust_domain_index = j;
}

abbrev reader_at : ℕ → Reader
reader_at j = record {
  conf = conf_at j;
  private_key = j ∷ [];
  server_read = read (cpu_backing true 1) (sized true 1 8 8 2 db (some (loaded true 1 8 8 2 db)));
}

reader-Serves : (j : ℕ) → Serves (conf_at j) shard (reader_at j).server_read
reader-Serves j masks fit =
    read-loaded true 1 8 8 2 db masks (omega arith) refl (omega arith) refl (omega arith) refl
      (ones-IsBytes 64) fit

abbrev pub key_pairs : List (List ℕ × List ℕ)
key_pairs = (7 ∷ [], 0 ∷ []) ∷ (8 ∷ [], 1 ∷ []) ∷ []

abbrev fe : Frontend Reader
fe = record {
  proposed_seq_no = 9;
  current_interest = record { id = 5; compressed_vector = []; signatures = [] };
  replicas = reader_at 0 ∷ reader_at 1 ∷ [];
}

-- The secret bit 3 is added to the random vector.
abbrev td : List PirArgs
td =
    record { request_vector = 9 ∷ []; pad_seed = replicate 24 1 }
    ∷ record { request_vector = 1 ∷ []; pad_seed = replicate 24 1 }
    ∷ []

td_made : make_read_arg true ones ones 2 8 3 ≡ ok (some td)
unfolding make_read_arg generate_request_vectors bytes for_range
td_made = refl

td-Asks : Asks 2 8 3 td
td-Asks =
    let (r, run, (made, some_made, asks)) =
      make_read_arg-Asks true ones ones 2 8 3 ones-Fills ones-FillsSeeds (omega arith)
        (omega arith) in
    let same : made ≡ td =
      some-injective made td (sym some_made ∙ ok_injective (sym run ∙ td_made)) in
    subst (Asks 2 8 3) same asks

abbrev pub zeros : List ℕ
zeros = replicate 16 0

abbrev query : Query
query = record {
  bucket = 3;
  td = td;
  sent = record {
    client_key = 6 ∷ [];
    nonce = 2 ∷ [];
    pir_args = (zeros ++ 1 ∷ 9 ∷ replicate 24 1) ∷ (zeros ++ 1 ∷ 1 ∷ replicate 24 1) ∷ [];
  };
}

query_sent :
    encode codec (some (6 ∷ [], 4 ∷ [])) (some (2 ∷ [])) td (public_keys key_pairs) ≡ ok query.sent
unfolding encode
query_sent = refl

query-IsQuery : IsQuery codec shard key_pairs query
query-IsQuery = record {
  inside = omega arith;
  asks = td-Asks;
  client = (6 ∷ [], 4 ∷ []);
  nonce = 2 ∷ [];
  is_sound = codec-IsSound (6 ∷ [], 4 ∷ []) (2 ∷ []) key_pairs;
  sent_by = query_sent;
}

reader_at-IsReader : IsReader shard key_pairs 1 0 (reader_at 0)
reader_at-IsReader = record {
  index = refl;
  public_key = 7 ∷ [];
  key = refl;
  item_length = refl;
  same_buckets = refl;
  serves = reader-Serves 0;
  room = omega arith;
}

reader_at_one-IsReader : IsReader shard key_pairs 1 1 (reader_at 1)
reader_at_one-IsReader = record {
  index = refl;
  public_key = 8 ∷ [];
  key = refl;
  item_length = refl;
  same_buckets = refl;
  serves = reader-Serves 1;
  room = omega arith;
}

trigger_batch_read-AllGet_example :
    Returns
      (trigger_batch_read
        (readers toy codec)
        4
        fe
        (map some (map (λ (q : Query). q.sent) (query ∷ []))))
      (AllGet toy shard (query ∷ []))
trigger_batch_read-AllGet_example =
    trigger_batch_read-AllGet toy codec shard key_pairs 4 fe (query ∷ []) shard-IsWellFormed refl
      (omega arith) refl (reader_at-IsReader, (reader_at_one-IsReader, tt)) (query-IsQuery, tt)

decode-encode_example :
    Returns (encode codec (some (6 ∷ [], 4 ∷ [])) (some (2 ∷ [])) td (public_keys key_pairs)) (λ r.
      decode codec r 1 (1 ∷ [])
      ≡ ok (record { request_vector = 1 ∷ []; pad_seed = replicate 24 1 }))
decode-encode_example =
    decode-encode codec (6 ∷ [], 4 ∷ []) (2 ∷ []) td key_pairs 1 (8 ∷ [], 1 ∷ [])
      (record { request_vector = 1 ∷ []; pad_seed = replicate 24 1 })
      (codec-IsSound (6 ∷ [], 4 ∷ []) (2 ∷ []) key_pairs) refl refl refl
