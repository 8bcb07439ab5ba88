-- ===== src/Tests/Shard.antt =====
-- A shard of two places, with its first write.
use talek.Base.{◌≡◌, refl, ◌⊎◌, false, none, some, [], ◌∷◌, arith, Returns, panic}
use talek.Cuckoo.Item.{Item}
use talek.Cuckoo.Table.Buckets.{Fits}
use talek.Shard.{WriteArgs, Shard, as_item, process_write}
use talek.Shard.Writes.{Holds, Entered, Overflows, counted, process_write-Holds}
use talek.Tests.Cuckoo.{empty, empty-IsValid}

abbrev start : Shard
start = record {
  max_load = 1;
  load_step = 1;
  outstanding_limit = 1;
  entries = [];
  table = empty;
  since_flip = 0;
}

start-Holds : Holds empty [] none
unfolding counted
start-Holds = record {
  valid = empty-IsValid;
  held = λ p by_key. omega arith;
  fits = tt;
  missing-Fits = λ e same. absurd (nothing same);
}
  where
    nothing : {e : Item} → none ≡ some e → ⊥
    nothing h = cc

abbrev first_write : WriteArgs
first_write = record {
  bucket1 = 1;
  bucket2 = 0;
  contents = 65 ∷ 66 ∷ [];
  global_seq_no = 12;
  epoch_flag = false;
}

first_write-Fits : Fits empty (as_item first_write)
unfolding as_item
first_write-Fits = record { size = refl; range1 = omega arith; range2 = omega arith }

process_write-Holds_example :
    Returns
      (process_write start first_write)
      (λ r. Holds r.0.table r.0.entries none × Entered start first_write r)
    ⊎ ((process_write start first_write ≡ panic) × Overflows start first_write)
process_write-Holds_example = process_write-Holds start first_write start-Holds first_write-Fits
