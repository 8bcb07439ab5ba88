-- ===== src/Tests/Coordinator.antt =====
-- A coordinator of four buckets of two places, with a window of three commits.
use talek.Base.{
  ℕ, suc, ◌+◌, ◌-◌, ◌*◌, ◌/◌, ◌≤◌, ◌<◌, ◌≡◌, refl, sym, ◌∙◌, subst, ◌⊎◌, true, false, some, [], ◌∷◌,
  ◌++◌, arith, All, length, take, drop, replicate, Returns, ok_injective, ok, panic, put_uvarint,
}
use talek.Cuckoo.Item.{Item}
use talek.Bloom.BitSet.{new_bit_set, words_needed}
use talek.Cuckoo.Table.{new_table, Table, empty_location, insert, evict_loop, contains}
use talek.Coordinator.{
  CommitArgs, Config, Server, new_server, commit, notify_snapshot, add_server, u64,
}
use talek.Coordinator.Tracking.{Agrees, item_for}
use talek.Coordinator.Commit.{Tracks, commit-Tracks}
use talek.Coordinator.Snapshot.{IsNext, FindsAll, notify_snapshot-IsNext}
use talek.Coordinator.Layout.{fetch, fetch-all}
use talek.Coordinator.Run.{
  IsUsable, Serves, Reaches, here, after, committed, added, new_server-Serves, Reaches-FindsAll,
}

abbrev config : Config
config = record {
  num_buckets = 4;
  bucket_depth = 2;
  window_size = 3;
  bloom_bits = 70;
  bloom_hashes = 2;
}

config-IsUsable : IsUsable config
config-IsUsable = record {
  some_buckets = omega arith;
  deep = omega arith;
  some_window = omega arith;
  some_bits = omega arith;
  few_bits = omega arith;
}

abbrev draws : ℕ → ℕ
draws i = i

-- The server at the start.
abbrev first : Server
first = record {
  snapshot_threshold = 5;
  config = config;
  servers = 1 ∷ 2 ∷ [];
  commit_log = [];
  num_new_commits = 0;
  snapshot_count = 0;
  last_layout = replicate 8 0;
  int_vec = 0 ∷ 0 ∷ [];
  cuckoo_table = record {
    num_buckets = 4;
    bucket_depth = 2;
    item_size = 10;
    contents = replicate 80 0;
    rand = draws;
    index = replicate 8 empty_location;
  };
}

first_made : new_server config (1 ∷ 2 ∷ []) 5 draws ≡ ok first
unfolding new_server new_bit_set new_table words_needed
first_made = refl

first-Serves : Serves config first
first-Serves =
    let (s, run, v) = new_server-Serves config (1 ∷ 2 ∷ []) 5 draws config-IsUsable in
    subst (Serves config) (ok_injective (sym run ∙ first_made)) v

abbrev one_commit : CommitArgs
one_commit = record { id = 300; bucket1 = 9; bucket2 = 2; int_vec_loc = 5 ∷ 6 ∷ 7 ∷ [] }

-- The commit goes to the first place of its first bucket.
abbrev second : Server
second = record first {
  commit_log = one_commit ∷ [];
  num_new_commits = 1;
  cuckoo_table = record {
    num_buckets = 4;
    bucket_depth = 2;
    item_size = 10;
    contents = replicate 20 0 ++ (172 ∷ 2 ∷ replicate 58 0);
    rand = λ n. suc n;
    index =
        empty_location
        ∷ empty_location
        ∷ record { id = 300; filled = true; bucket1 = 1; bucket2 = 2 }
        ∷ replicate 5 empty_location;
  };
}

second_made : commit first one_commit ≡ ok second
unfolding commit insert evict_loop put_uvarint
second_made = refl

commit-Tracks_example :
    Returns (commit first one_commit) (λ s'.
      Tracks s'
      × (s'.commit_log
          ≡ drop (length first.commit_log + 1 - first.config.window_size) first.commit_log
            ++ one_commit ∷ [])
      × (s'.num_new_commits ≡ u64 (first.num_new_commits + 1))
      × (s'.snapshot_count ≡ first.snapshot_count)
      × (s'.last_layout ≡ first.last_layout)
      × (s'.config ≡ first.config))
    ⊎ ((commit first one_commit ≡ panic)
        × (t : Table) × Agrees first.config t
            (drop (length first.commit_log + 1 - first.config.window_size) first.commit_log)
        × (t' : Table) × (e : Item) × (insert t (item_for first.config.num_buckets one_commit)
            ≡ ok (t', false, some e)))
commit-Tracks_example = commit-Tracks first one_commit first-Serves.tracks (omega arith)

notify_snapshot-IsNext_example : Returns (notify_snapshot first false) (λ r.
    (((false ≡ true) ⊎ (first.snapshot_threshold ≤ first.num_new_commits))
      × (r.2 ≡ true)
      × IsNext first r.0 r.1)
    ⊎ ((false ≡ false)
        × (first.num_new_commits < first.snapshot_threshold)
        × (r ≡ (first, [], false))))
notify_snapshot-IsNext_example =
    notify_snapshot-IsNext first false (omega arith) (omega arith) (omega arith)

fetch-all_example :
    fetch first 3 3 0 ≡ ok (take (3 * (length first.last_layout / 3)) first.last_layout)
fetch-all_example = fetch-all first 3 (omega arith) (omega arith)

second_run : Reaches first (add_server second 3)
second_run = after (after here (committed one_commit (omega arith) second_made)) (added 3)

Reaches-FindsAll_example :
    Serves config (add_server second 3)
    × All
        (λ c.
          contains
            (add_server second 3).cuckoo_table
            (item_for (add_server second 3).config.num_buckets c)
          ≡ ok true)
        (add_server second 3).commit_log
    × Returns (notify_snapshot (add_server second 3) true) (λ r. (r.2 ≡ true) × FindsAll r.0)
Reaches-FindsAll_example =
    Reaches-FindsAll config (1 ∷ 2 ∷ []) 5 draws first (add_server second 3) config-IsUsable
      first_made second_run
