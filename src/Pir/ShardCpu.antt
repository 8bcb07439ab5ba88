-- ===== src/Pir/ShardCpu.antt =====
-- pir/pircpu/shard_cpu.go: a shard of the database that answers batches of PIR reads on the CPU.
-- The field `contents` is the source's `data`. The name and the log are left out. A slice that
-- Go takes of `responses` shares its memory: what is written to it is copied back.
pub mod Answer
pub mod Combine
pub mod Batch
use talek.Base.{
  ℕ, ◌+◌, ◌*◌, ◌/◌, ◌%◌, ◌^◌, bit_and, bit_xor, Bool, true, false, not, List, ℤ, pos, negsuc,
  length, get_elem?, replicate, copy_at, slice?, for_range, Outcome, ◌>>=◌, or_panic, not_multiple,
  bad_version, ok, err, panic, ltb, ◌==◌, if◌then◌else◌,
}
use talek.Pir.Xor.{bytes, words, store}

pub record ShardCpu : Type 0 where
  pub bucket_size : ℕ
  pub num_buckets : ℕ
  pub contents : List ℕ
  pub read_version : ℤ

-- `readVersion < 0 || readVersion > 2`
unfoldable pub is_bad_version : ℤ → Bool
is_bad_version (pos v) = ltb 2 v
is_bad_version (negsuc v) = true

-- `NewShardCPU`; the remainder by a bucket size of 0 panics
unfoldable pub new_shard_cpu : ℕ → List ℕ → ℤ → Outcome ShardCpu
unfolding is_bad_version
new_shard_cpu bucket_size contents read_version =
    if bucket_size == 0
    then panic
    else if not (length contents % bucket_size == 0)
    then err not_multiple
    else if is_bad_version read_version
    then err bad_version
    else ok (record {
      bucket_size = bucket_size;
      num_buckets = length contents / bucket_size;
      contents = contents;
      read_version = read_version;
    })

unfoldable pub get_bucket_size : ShardCpu → ℕ
get_bucket_size s = s.bucket_size

unfoldable pub get_num_buckets : ShardCpu → ℕ
get_num_buckets s = s.num_buckets

unfoldable pub get_data : ShardCpu → List ℕ
get_data s = s.contents

module _ (unaligned : Bool) (s : ShardCpu) where
  -- The body of the `if` in `read0`.
  unfoldable pub combine0 : ℕ → ℕ → List ℕ → Outcome (List ℕ)
  combine0 resp_offset bucket_index responses = do
    let bucket_offset = bucket_index * s.bucket_size
    bucket ← or_panic (slice? s.contents bucket_offset (bucket_offset + s.bucket_size))
    response ← or_panic (slice? responses resp_offset (resp_offset + s.bucket_size))
    response' ← words unaligned response response bucket
    ok (copy_at resp_offset responses response')

  -- The body of the `if` in `read1`.
  unfoldable pub combine1 : ℕ → ℕ → List ℕ → Outcome (List ℕ)
  combine1 resp_offset bucket_index responses = do
    let bucket_offset = bucket_index * s.bucket_size
    bucket ← or_panic (slice? s.contents bucket_offset (bucket_offset + s.bucket_size))
    response ← or_panic (slice? responses resp_offset (resp_offset + s.bucket_size))
    (response', _) ← bytes unaligned response response bucket
    ok (copy_at resp_offset responses response')

-- `response[offset] ^= bucket[offset]`
unfoldable pub xor_place : List ℕ → ℕ → List ℕ → Outcome (List ℕ)
xor_place bucket offset response = do
  x ← or_panic (get_elem? response offset)
  y ← or_panic (get_elem? bucket offset)
  store offset (bit_xor x y) response

-- The body of the `if` in `read2`.
unfoldable pub combine2 : ShardCpu → ℕ → ℕ → List ℕ → Outcome (List ℕ)
combine2 s resp_offset bucket_index responses = do
  bucket ← or_panic (slice? s.contents (bucket_index * s.bucket_size) (length s.contents))
  response ← or_panic (slice? responses resp_offset (length responses))
  response' ← for_range s.bucket_size 0 (xor_place bucket) response
  ok (copy_at resp_offset responses response')

module _ (s : ShardCpu) (reqs : List ℕ) (req_length : ℕ) where
  -- `reqByte & (byte(1) << uint(bucketIndex % 8)) != 0`
  unfoldable pub is_selected : ℕ → ℕ → Outcome Bool
  is_selected req_index bucket_index = do
    req_byte ← or_panic (get_elem? reqs (req_index * req_length + bucket_index / 8))
    ok (not (bit_and req_byte (2 ^ (bucket_index % 8)) == 0))

  module _ (combine : ℕ → ℕ → List ℕ → Outcome (List ℕ)) where
    -- The body of the loop over the buckets.
    unfoldable pub visit : ℕ → ℕ → List ℕ → Outcome (List ℕ)
    visit req_index bucket_index responses = do
      selected ← is_selected req_index bucket_index
      if selected then combine (req_index * s.bucket_size) bucket_index responses else ok responses

    -- The two loops that `read0`, `read1` and `read2` share.
    unfoldable pub scan : Outcome (List ℕ)
    scan =
        let num_reqs = length reqs / req_length in
        for_range num_reqs 0 (λ req_index. for_range s.num_buckets 0 (visit req_index))
          (replicate (num_reqs * s.bucket_size) 0)

module _ (unaligned : Bool) (s : ShardCpu) (reqs : List ℕ) (req_length : ℕ) where
  unfoldable pub read0 : Outcome (List ℕ)
  read0 = scan s reqs req_length (combine0 unaligned s)

  unfoldable pub read1 : Outcome (List ℕ)
  read1 = scan s reqs req_length (combine1 unaligned s)

  unfoldable pub read2 : Outcome (List ℕ)
  read2 = scan s reqs req_length (combine2 s)

  -- `readVersion == v`
  is_version : ℕ → ℤ → Bool
  is_version v (pos w) = w == v
  is_version v (negsuc w) = false

  unfoldable pub read : Outcome (List ℕ)
  unfolding is_version
  read =
      if req_length == 0
      then panic
      else if not (length reqs % req_length == 0)
      then err not_multiple
      else if is_version 1 s.read_version
      then read1
      else if is_version 2 s.read_version
      then read2
      else read0
