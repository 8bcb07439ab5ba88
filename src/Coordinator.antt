-- ===== src/Coordinator.antt =====
-- server/coordinator/server.go and protocol/coordinator/protocol.go: the server that orders the
-- writes and publishes snapshots. Every handler holds the lock from its first read of the state
-- to its last write, so a call is one step. `cuckooData` is the memory of the cuckoo table, and is
-- read there. The names, the log, the tracing and the RPC server are left out. What `Config`
-- computes in floating point is a parameter: the window size, and the number of bits and of hashes
-- that `EstimateParameters` gives for it.
pub mod Tracking
pub mod Commit
pub mod Layout
pub mod Snapshot
pub mod Run
use talek.Base.{
  ℕ, zero, suc, ◌+◌, ◌*◌, ◌/◌, ◌%◌, ◌^◌, Bool, true, false, not, ◌&&◌, Option, none, some, List, [],
  ◌∷◌, ◌++◌, map, length, take, replicate, slice?, Error, Outcome, ◌>>=◌, or_panic, bad_snapshot,
  no_shards, bad_shard, ok, panic, ltb, leb, ◌==◌, if◌then◌else◌, put_uvarint, uvarint,
}
use talek.Cuckoo.Item.{Item}
use talek.Cuckoo.Table.{Table, new_table, insert, remove}
use talek.Bloom.BitSet.{BitSet, new_bit_set}
use talek.Bloom.Filter.{set_locations}

-- `IDSize`
abbrev pub id_size : ℕ
id_size = 10

abbrev pub u64 : ℕ → ℕ
u64 n = n % 2 ^ 64

pub record CommitArgs : Type 0 where
  pub id : ℕ
  pub bucket1 : ℕ
  pub bucket2 : ℕ
  pub int_vec_loc : List ℕ

-- The fields of `common.Config` that the coordinator uses.
pub record Config : Type 0 where
  pub num_buckets : ℕ
  pub bucket_depth : ℕ
  pub window_size : ℕ
  pub bloom_bits : ℕ
  pub bloom_hashes : ℕ

-- `servers` are the servers to notify, by number.
pub record Server : Type 0 where
  pub snapshot_threshold : ℕ
  pub config : Config
  pub servers : List ℕ
  pub commit_log : List CommitArgs
  pub num_new_commits : ℕ
  pub snapshot_count : ℕ
  pub last_layout : List ℕ
  pub int_vec : List ℕ
  pub cuckoo_table : Table

-- `asCuckooItem`
unfoldable pub as_cuckoo_item : ℕ → CommitArgs → Outcome Item
as_cuckoo_item num_buckets args = put_uvarint (replicate id_size 0) args.id >>= λ bytes.
    if num_buckets == 0
    then panic
    else ok (record {
      id = args.id;
      contents = bytes;
      bucket1 = args.bucket1 % num_buckets;
      bucket2 = args.bucket2 % num_buckets;
    })

-- The locations of a commit that go into the interest vector.
unfoldable pub used_locations : ℕ → CommitArgs → List ℕ
used_locations num_hash c =
    if ltb num_hash (length c.int_vec_loc) then take num_hash c.int_vec_loc else c.int_vec_loc

-- The loop of `buildInterestVector`.
unfoldable pub add_interests : ℕ → BitSet → List CommitArgs → Outcome BitSet
unfolding used_locations
add_interests num_hash b [] = ok b
add_interests num_hash b (c ∷ cs) =
    set_locations b (used_locations num_hash c) >>= λ b'. add_interests num_hash b' cs

-- `buildInterestVector`; a nil bit set panics when it is used.
unfoldable pub build_interest_vector : Config → List CommitArgs → Outcome BitSet
unfolding add_interests
build_interest_vector config commit_log =
    or_panic (new_bit_set config.bloom_bits) >>= λ b. add_interests config.bloom_hashes b commit_log

-- The state that `NewServer` builds; `rand` is the source that the table's seed makes.
unfoldable pub new_server : Config → List ℕ → ℕ → (ℕ → ℕ) → Outcome Server
unfolding build_interest_vector
new_server config servers snapshot_threshold rand = do
  let places = config.num_buckets * config.bucket_depth
  b ← build_interest_vector config []
  table ← or_panic (
      new_table config.num_buckets config.bucket_depth id_size
        (some (replicate (places * id_size) 0)) rand)
  ok (record {
    snapshot_threshold = snapshot_threshold;
    config = config;
    servers = servers;
    commit_log = [];
    num_new_commits = 0;
    snapshot_count = 0;
    last_layout = replicate places 0;
    int_vec = b.contents;
    cuckoo_table = table;
  })

-- `GetInfo`: the snapshot's number.
unfoldable pub get_info : Server → ℕ
get_info s = s.snapshot_count

-- `GetCommonConfig`
unfoldable pub get_common_config : Server → Config
get_common_config s = s.config

pub record GetLayoutArgs : Type 0 where
  pub snapshot_id : ℕ
  pub shard_id : ℕ
  pub num_shards : ℕ

-- A reply: no error and the words, or an error.
pub record Reply : Type 0 where
  pub error : Option Error
  pub snapshot_id : ℕ
  pub words : List ℕ

unfoldable pub get_layout : Server → GetLayoutArgs → Outcome Reply
get_layout s args =
    let refuse : Error → Outcome Reply =
      λ e. ok (record { error = some e; snapshot_id = s.snapshot_count; words = [] }) in
    if not (args.snapshot_id == s.snapshot_count)
    then refuse bad_snapshot
    else if ltb args.num_shards 1
    then refuse no_shards
    else let shard_size = length s.last_layout / args.num_shards in
      let idx = u64 (args.shard_id * shard_size) in
      let end = u64 (idx + shard_size) in
      if ltb (length s.last_layout) end
      then refuse bad_shard
      else or_panic (slice? s.last_layout idx end) >>= λ layout.
          ok (record { error = none; snapshot_id = s.snapshot_count; words = layout })

unfoldable pub get_int_vec : Server → ℕ → Reply
get_int_vec s snapshot_id =
    if not (snapshot_id == s.snapshot_count)
    then record { error = some bad_snapshot; snapshot_id = s.snapshot_count; words = [] }
    else record { error = none; snapshot_id = s.snapshot_count; words = s.int_vec }

-- The garbage collection of `Commit`: the table and the log after it.
unfoldable pub collect : Config → Table → List CommitArgs → Outcome (Table × List CommitArgs)
unfolding as_cuckoo_item
collect config table [] = if leb config.window_size 0 then panic else ok (table, [])
collect config table (c ∷ cs) =
    let collect_rest : Outcome (Table × List CommitArgs) =
      as_cuckoo_item config.num_buckets c >>= λ item.
      remove table item >>= λ r. collect config r.0 cs in
    if leb config.window_size (length (c ∷ cs)) then collect_rest else ok (table, c ∷ cs)

-- `Commit` up to the message to `notifyChan`; `Fatalf` ends the program.
unfoldable pub commit : Server → CommitArgs → Outcome Server
unfolding collect
commit s args = do
  (table, commit_log) ← collect s.config s.cuckoo_table s.commit_log
  item ← as_cuckoo_item s.config.num_buckets args
  (table', done, _) ← insert table item
  if done
      then ok (record s {
        commit_log = commit_log ++ args ∷ [];
        num_new_commits = u64 (s.num_new_commits + 1);
        cuckoo_table = table';
      })
      else panic

unfoldable pub add_server : Server → ℕ → Server
add_server s server = record s { servers = s.servers ++ server ∷ [] }

-- The loop that copies the layout, for `left` places from place `i`.
unfoldable pub copy_layout : List ℕ → ℕ → ℕ → Outcome (List ℕ)
copy_layout cuckoo_data zero i = ok []
copy_layout cuckoo_data (suc left) i =
    or_panic (slice? cuckoo_data (i * 8) (i * 8 + 8)) >>= λ bytes.
    copy_layout cuckoo_data left (i + 1) >>= λ rest. ok (uvarint bytes ∷ rest)

-- A notification of a snapshot, to a server.
pub record Notification : Type 0 where
  pub server : ℕ
  pub snapshot_id : ℕ

-- `NotifySnapshot`: the state, what is sent, and the result.
unfoldable pub notify_snapshot : Server → Bool → Outcome (Server × List Notification × Bool)
unfolding build_interest_vector copy_layout
notify_snapshot s force =
    if not force && ltb s.num_new_commits s.snapshot_threshold then ok (s, [], false) else do
      let count = u64 (s.snapshot_count + 1)
      b ← build_interest_vector s.config s.commit_log
      layout ← copy_layout s.cuckoo_table.contents (length s.last_layout) 0
      ok (
        record s {
          num_new_commits = 0;
          snapshot_count = count;
          int_vec = b.contents;
          last_layout = layout;
        },
        map (λ (server : ℕ). record { server = server; snapshot_id = count }) s.servers,
        true,
      )
