-- ===== src/Cuckoo/Table.antt =====
-- cuckoo/table.go. The name and the log are left out. `contents` is the source's `data`, which
-- may be shared with the PIR database; `rand` is the stream of draws that the seeded source has
-- left, each `Int` or `Int63` taking one. The products of the table's sizes are taken not to
-- wrap: they are the lengths of slices in memory. A call of `Fatalf` ends in `panic`.
pub mod Count
pub mod Buckets
pub mod Insert
pub mod Lookup
pub mod Remove
pub mod Fresh
use talek.Base.{
  ℕ, zero, suc, ◌+◌, ◌*◌, ◌%◌, Bool, true, false, not, ◌&&◌, ◌||◌, Option, none, some, List, [],
  ◌∷◌, length, get_elem?, set, replicate, copy_at, slice?, Outcome, ◌>>=◌, or_panic, not_in_table,
  ok, err, panic, leb, ◌==◌, if◌then◌else◌,
}
use talek.Cuckoo.Item.{Item, copy_item, equals}

abbrev pub max_evictions : ℕ
max_evictions = 500

pub record ItemLocation : Type 0 where
  pub id : ℕ
  pub filled : Bool
  pub bucket1 : ℕ
  pub bucket2 : ℕ

pub record Table : Type 0 where
  pub num_buckets : ℕ
  pub bucket_depth : ℕ
  pub item_size : ℕ
  pub contents : List ℕ
  pub rand : ℕ → ℕ
  pub index : List ItemLocation

-- `rand.Int()` or `rand.Int63()`, and the source after it.
abbrev pub draw : (ℕ → ℕ) → ℕ × (ℕ → ℕ)
draw rand = (rand 0, λ n. rand (suc n))

abbrev pub empty_location : ItemLocation
empty_location = record { id = 0; filled = false; bucket1 = 0; bucket2 = 0 }

-- `NewTable`: none for the nil table. `given` is the memory area, `rand` the source of the seed.
unfoldable pub new_table : ℕ → ℕ → ℕ → Option (List ℕ) → (ℕ → ℕ) → Option Table
new_table num_buckets bucket_depth item_size given rand =
    let size = num_buckets * bucket_depth * item_size in
    let contents : List ℕ = elim given [ none ↦ replicate size 0 | some area ↦ area ] in
    if length contents == size
    then some (record {
      num_buckets = num_buckets;
      bucket_depth = bucket_depth;
      item_size = item_size;
      contents = contents;
      rand = rand;
      index = replicate (num_buckets * bucket_depth) empty_location;
    })
    else none

unfoldable pub get_capacity : Table → ℕ
get_capacity t = t.num_buckets * t.bucket_depth

count_filled : List ItemLocation → ℕ
count_filled [] = 0
count_filled (loc ∷ locs) = (if loc.filled then 1 else 0) + count_filled locs

unfoldable pub get_num_elements : Table → ℕ
unfolding count_filled
get_num_elements t = count_filled t.index

-- The test of `isInBucket`.
unfoldable pub is_at : ItemLocation → Item → Bool
is_at loc item =
    loc.filled
    && (loc.bucket1 == item.bucket1 && (loc.bucket2 == item.bucket2 && loc.id == item.id))

-- The loop of `isInBucket` with `left` places to go, at place `i`.
unfoldable pub is_in_places : Table → Item → ℕ → ℕ → Outcome Bool
unfolding is_at
is_in_places t item zero i = ok false
is_in_places t item (suc left) i = or_panic (get_elem? t.index i) >>= λ loc.
    if is_at loc item then ok true else is_in_places t item left (i + 1)

unfoldable pub is_in_bucket : Table → ℕ → Item → Outcome Bool
unfolding is_in_places
is_in_bucket t bucket_index item =
    is_in_places t item t.bucket_depth (t.bucket_depth * bucket_index)

-- `Bucket`, which does not check the range of the item's buckets.
unfoldable pub bucket : Table → Item → Outcome ℕ
unfolding is_in_bucket
bucket t item = do
  first ← is_in_bucket t item.bucket1 item
  if first
      then ok item.bucket1
      else is_in_bucket t item.bucket2 item >>= λ second.
          if second then ok item.bucket2 else err not_in_table

abbrev pub out_of_range : Table → Item → Bool
out_of_range t item = leb t.num_buckets item.bucket1 || leb t.num_buckets item.bucket2

unfoldable pub contains : Table → Item → Outcome Bool
unfolding is_in_bucket
contains t item =
    if out_of_range t item
    then ok false
    else is_in_bucket t item.bucket1 item >>= λ first.
        if first then ok true else is_in_bucket t item.bucket2 item

-- The writes of `tryInsertToBucket` at a free place.
unfoldable pub place : Table → ℕ → Item → Outcome Table
place t i item =
    if leb (i * t.item_size) (length t.contents)
    then ok (record t {
      contents = copy_at (i * t.item_size) t.contents item.contents;
      index =
          set t.index i (record {
            id = item.id;
            filled = true;
            bucket1 = item.bucket1;
            bucket2 = item.bucket2;
          });
    })
    else panic

-- The loop of `tryInsertToBucket` with `left` places to go, at place `i`.
unfoldable pub try_insert_places : Table → Item → ℕ → ℕ → Outcome (Table × Bool)
unfolding place
try_insert_places t item zero i = ok (t, false)
try_insert_places t item (suc left) i = or_panic (get_elem? t.index i) >>= λ loc.
    if loc.filled
    then try_insert_places t item left (i + 1)
    else (place t i item >>= λ t'. ok (t', true))

unfoldable pub try_insert_to_bucket : Table → ℕ → Item → Outcome (Table × Bool)
unfolding try_insert_places
try_insert_to_bucket t bucket_index item =
    try_insert_places t item t.bucket_depth (bucket_index * t.bucket_depth)

-- The item that `getItem` builds at a filled place.
unfoldable pub read_item : Table → ℕ → ItemLocation → Outcome (Option Item)
read_item t i loc = do
  bytes ← or_panic (slice? t.contents (i * t.item_size) (i * t.item_size + t.item_size))
  ok (some (record { id = loc.id; contents = bytes; bucket1 = loc.bucket1; bucket2 = loc.bucket2 }))

unfoldable pub get_item : Table → ℕ → Outcome (Option Item)
unfolding read_item
get_item t item_index = do
  loc ← or_panic (get_elem? t.index item_index)
  if loc.filled then read_item t item_index loc else ok none

-- `t.index[i].filled = false`
unfoldable pub unfill : Table → ℕ → Outcome Table
unfill t i = do
  loc ← or_panic (get_elem? t.index i)
  ok (record t { index = set t.index i (record loc { filled = false }) })

-- The eviction in `insertAndEvict`: the item that place `i` held, and the table after the insert.
unfoldable pub evict : Table → ℕ → ℕ → Item → Outcome (Table × Bool × Option Item)
unfolding get_item unfill try_insert_to_bucket
evict t bucket_index i item = do
  held ← get_item t i
  removed ← or_panic held
  t' ← unfill t i
  (t'', done) ← try_insert_to_bucket t' bucket_index item
  if done then ok (t'', true, some (copy_item removed)) else panic

unfoldable pub insert_and_evict : Table → ℕ → Item → Outcome (Table × Bool × Option Item)
unfolding try_insert_to_bucket evict
insert_and_evict t bucket_index item =
    if not (item.bucket1 == bucket_index) && not (item.bucket2 == bucket_index)
    then ok (t, false, some item)
    else try_insert_to_bucket t bucket_index item >>= λ (t', done).
        if done
        then ok (t', true, none)
        else if t.bucket_depth == 0
        then panic
        else let (r, rand') = draw t'.rand in
          evict (record t' { rand = rand' }) bucket_index
            (bucket_index * t.bucket_depth + r % t.bucket_depth) item

-- The loop of `Insert` with `left` evictions to go.
unfoldable pub evict_loop : ℕ → Table → ℕ → Item → Outcome (Table × Bool × Option Item)
unfolding insert_and_evict
evict_loop zero t next_bucket item = ok (t, false, some item)
evict_loop (suc left) t next_bucket item =
    insert_and_evict t next_bucket item >>= λ (t', done, evicted).
    if done
    then elim evicted [
      | none ↦ ok (t', true, none)
      | some e ↦ evict_loop left t' (if e.bucket1 == next_bucket then e.bucket2 else e.bucket1) e
    ]
    else panic

unfoldable pub insert : Table → Item → Outcome (Table × Bool × Option Item)
insert t item =
    if out_of_range t item
    then ok (t, false, none)
    else if not (length item.contents == t.item_size)
    then ok (t, false, none)
    else let (r, rand') = draw t.rand in
      let heads = r % 2 == 0 in
      let first = if heads then item.bucket1 else item.bucket2 in
      let next = if heads then item.bucket2 else item.bucket1 in
      try_insert_to_bucket (record t { rand = rand' }) first item >>= λ (t', done).
      if done then ok (t', true, none) else evict_loop max_evictions t' next item

-- The loop of `removeFromBucket`.
unfoldable pub remove_from_places : Table → Item → ℕ → ℕ → Outcome (Table × Bool)
unfolding get_item unfill
remove_from_places t item zero i = ok (t, false)
remove_from_places t item (suc left) i = get_item t i >>= λ held.
    if equals item held
    then (unfill t i >>= λ t'. ok (t', true))
    else remove_from_places t item left (i + 1)

unfoldable pub remove_from_bucket : Table → ℕ → Item → Outcome (Table × Bool)
unfolding remove_from_places
remove_from_bucket t bucket_index item =
    remove_from_places t item t.bucket_depth (bucket_index * t.bucket_depth)

unfoldable pub remove : Table → Item → Outcome (Table × Bool)
unfolding remove_from_bucket
remove t item =
    if out_of_range t item
    then ok (t, false)
    else let (r, rand') = draw t.rand in
      let heads = r % 2 == 0 in
      let first = if heads then item.bucket1 else item.bucket2 in
      let next = if heads then item.bucket2 else item.bucket1 in
      remove_from_bucket (record t { rand = rand' }) first item >>= λ (t', result).
      if result then ok (t', true) else remove_from_bucket t' next item
