-- ===== src/Shard.antt =====
-- server/shard.go: the writes of a shard, which one goroutine handles in the order of their
-- channel. `max_load`, `load_step` and `outstanding_limit` are what NewShard and the handlers
-- compute from the configuration in floating point. The message that makes the read loop set the
-- database again is a result. The reads, the log and the goroutines are left out.
pub mod Writes
use talek.Base.{
  ℕ, zero, suc, ◌+◌, ◌-◌, Bool, true, false, not, ◌||◌, Option, none, some, List, [], ◌∷◌, ◌++◌,
  length, drop, Outcome, ◌>>=◌, ok, panic, ltb, leb, ◌==◌, if◌then◌else◌,
}
use talek.Cuckoo.Item.{Item}
use talek.Cuckoo.Table.{Table, insert, remove}

-- `ReplicaWriteArgs`, as far as the shard uses it.
pub record WriteArgs : Type 0 where
  pub bucket1 : ℕ
  pub bucket2 : ℕ
  pub contents : List ℕ
  pub global_seq_no : ℕ
  pub epoch_flag : Bool

pub record Shard : Type 0 where
  pub max_load : ℕ
  pub load_step : ℕ
  pub outstanding_limit : ℕ
  pub entries : List Item
  pub table : Table
  pub since_flip : ℕ

-- `asCuckooItem`
unfoldable pub as_item : WriteArgs → Item
as_item wa = record {
  id = wa.global_seq_no;
  contents = wa.contents;
  bucket1 = wa.bucket1;
  bucket2 = wa.bucket2;
}

-- The loop of `evictOldItems`, over the entries from the first.
unfoldable pub remove_first : ℕ → Table → List Item → Outcome Table
remove_first zero t entries = ok t
remove_first (suc n) t [] = panic
remove_first (suc n) t (i ∷ entries) = remove t i >>= λ r. remove_first n r.0 entries

-- `evictOldItems`; without entries it slices from -1, which panics.
unfoldable pub evict_old_items : Shard → Outcome Shard
unfolding remove_first
evict_old_items s =
    if length s.entries == 0
    then panic
    else let to_remove =
        if leb (length s.entries) s.load_step then length s.entries - 1 else s.load_step in
      remove_first to_remove s.table s.entries >>= λ t.
      ok (record s { table = t; entries = drop to_remove s.entries })

-- `applyWrites`: the message is sent.
unfoldable pub apply_writes : Shard → Shard × Bool
apply_writes s = (record s { since_flip = 0 }, true)

-- Putting back what the insertion evicted; `Fatalf` ends the program.
unfoldable pub put_back : Shard → Option Item → Outcome Shard
put_back s none = ok s
put_back s (some evicted) = insert s.table evicted >>= λ (t, done, again). elim again [
  | none ↦ (if done then ok (record s { table = t }) else panic)
  | some _ ↦ panic
]

-- One round of `processWrites`: the shard after it, and whether it sent a message.
unfoldable pub process_write : Shard → WriteArgs → Outcome (Shard × Bool)
unfolding as_item evict_old_items apply_writes put_back
process_write s args = if args.epoch_flag then ok (apply_writes s) else do
  let item = as_item args
  let entries = s.entries ++ item ∷ []
  (t, done, evicted) ← insert s.table item
  let s1 : Shard = record s { entries = entries; table = t }
  s2 ← if not done || ltb s.max_load (length entries) then evict_old_items s1 else ok s1
  s3 ← put_back s2 evicted
  let s4 : Shard = record s3 { since_flip = s3.since_flip + 1 }
  ok (if ltb s4.outstanding_limit s4.since_flip then apply_writes s4 else (s4, false))
