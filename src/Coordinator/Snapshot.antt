-- ===== src/Coordinator/Snapshot.antt =====
-- NotifySnapshot of server/coordinator/server.go.
use talek.Base.{
  ℕ, zero, suc, ◌+◌, ◌*◌, ◌%◌, ◌^◌, ◌≤◌, ◌<◌, ◌≡◌, refl, sym, ap, ◌∙◌, ◌⊎◌, inl, inr, Bool, true,
  false, not, ◌&&◌, List, [], ◌∷◌, map, arith, dec_le, All, length, take, drop, take_all,
  slice?-eq-some, Returns, ok, ltb, lt→ltb, ltb-eq-false, Bool-cases, uvarint,
}
use talek.Bloom.BitSet.{BitSet, from}
use talek.Bloom.BitSet.Bits.{bit_at, IsValid}
use talek.Bloom.BitSet.Update.{new_bit_set-empty}
use talek.Bloom.Filter.{check_locations}
use talek.Bloom.Filter.Membership.{
  set_locations-Marked, Marked-grows, Marked-sets, check_locations-All, All-weaken,
}
use talek.Coordinator.{
  CommitArgs, Config, Server, Notification, used_locations, add_interests, build_interest_vector,
  copy_layout, notify_snapshot, u64,
}

-- The locations that a commit uses are its first ones, as many as there are hashes.
used_locations-take :
    (num_hash : ℕ) (c : CommitArgs) → used_locations num_hash c ≡ take num_hash c.int_vec_loc
unfolding used_locations
used_locations-take num_hash c = elim (Bool-cases (ltb num_hash (length c.int_vec_loc))) [
  | inl more ↦ rw more refl
  | inr few ↦ rw few (sym (take_all num_hash c.int_vec_loc (ground (arith, few))))
]

-- Every location that the commit uses is set.
abbrev Found : Config → BitSet → CommitArgs → Type 0
Found config b c =
    All (λ loc. bit_at b (loc % config.bloom_bits) ≡ 1) (take config.bloom_hashes c.int_vec_loc)

record Grown (config : Config) (b : BitSet) (cs : List CommitArgs) (b' : BitSet) : Type 0 where
  pub valid : IsValid b'
  pub same_num_bits : b'.num_bits ≡ config.bloom_bits
  pub grows : (j : ℕ) → bit_at b j ≡ 1 → bit_at b' j ≡ 1
  pub found : All (Found config b') cs

add_interests-Grown :
    (config : Config) (b : BitSet) (cs : List CommitArgs)
    → IsValid b
    → b.num_bits ≡ config.bloom_bits
    → 0 < config.bloom_bits
    → Returns (add_interests config.bloom_hashes b cs) (Grown config b cs)
unfolding add_interests
add_interests-Grown config b [] valid same some_bits =
    (b, refl, record { valid = valid; same_num_bits = same; grows = λ j h. h; found = tt })
add_interests-Grown config b (c ∷ cs) valid same some_bits =
    let (b', run, m) =
      set_locations-Marked b (take config.bloom_hashes c.int_vec_loc) valid (omega (arith, same)) in
    let (b'', run', g) =
      add_interests-Grown config b' cs m.valid (m.same_num_bits ∙ same) some_bits in
    (
      b'',
      rw (used_locations-take config.bloom_hashes c, run, run'),
      record {
        valid = g.valid;
        same_num_bits = g.same_num_bits;
        grows = λ j h. g.grows j (Marked-grows m j h);
        found = (
          All-weaken (take config.bloom_hashes c.int_vec_loc)
              (λ loc h.
                g.grows (loc % config.bloom_bits)
                  (ap (λ (n : ℕ). bit_at b' (loc % n)) (sym same) ∙ h))
              (Marked-sets m),
          g.found,
        );
      },
    )

copy_layout-Returns :
    (cuckoo_data : List ℕ) (left i : ℕ)
    → (i + left) * 8 ≤ length cuckoo_data
    → Returns (copy_layout cuckoo_data left i) (λ layout. length layout ≡ left)
unfolding copy_layout
copy_layout-Returns cuckoo_data zero i h = ([], refl, refl)
copy_layout-Returns cuckoo_data (suc left) i h =
    let (rest, run, long) = copy_layout-Returns cuckoo_data left (i + 1) (omega arith) in
    (
      uvarint (take 8 (drop (i * 8) cuckoo_data)) ∷ rest,
      rw (slice?-eq-some cuckoo_data (i * 8) 8 (omega arith), run),
      omega (arith, long),
    )

-- The interest vector finds the first locations of every logged commit, as many as there are
-- hashes.
abbrev pub FindsAll : Server → Type 0
FindsAll s =
    All
      (λ c.
        check_locations (from s.config.bloom_bits s.int_vec)
          (take s.config.bloom_hashes c.int_vec_loc)
        ≡ ok true)
      s.commit_log

-- What a snapshot changes.
pub record IsNext (s s' : Server) (sent : List Notification) : Type 0 where
  pub count : s'.snapshot_count ≡ u64 (s.snapshot_count + 1)
  pub none_new : s'.num_new_commits ≡ 0
  pub same_log : s'.commit_log ≡ s.commit_log
  pub same_config : s'.config ≡ s.config
  pub same_table : s'.cuckoo_table ≡ s.cuckoo_table
  pub same_size : length s'.last_layout ≡ length s.last_layout
  pub finds : FindsAll s'
  pub told : map (λ (n : Notification). n.server) sent ≡ s.servers
  pub told_count : All (λ (n : Notification). n.snapshot_id ≡ s'.snapshot_count) sent

told_servers :
    (count : ℕ) (servers : List ℕ)
    → map
        (λ (n : Notification). n.server)
        (map (λ (server : ℕ). record { server = server; snapshot_id = count }) servers)
      ≡ servers
told_servers count [] = refl
told_servers count (x ∷ xs) = ap (λ ys. x ∷ ys) (told_servers count xs)

told_counts :
    (count : ℕ) (servers : List ℕ)
    → All
        (λ (n : Notification). n.snapshot_id ≡ count)
        (map (λ (server : ℕ). record { server = server; snapshot_id = count }) servers)
told_counts count [] = tt
told_counts count (x ∷ xs) = (refl, told_counts count xs)

-- The vector of the whole log.
pub build_interest_vector-Grown :
    (config : Config) (cs : List CommitArgs)
    → 0 < config.bloom_bits
    → config.bloom_bits < 2 ^ 32
    → Returns
        (build_interest_vector config cs)
        (λ b. IsValid b × (b.num_bits ≡ config.bloom_bits) × All (Found config b) cs)
unfolding build_interest_vector
build_interest_vector-Grown config cs some_bits few_bits =
    let (b, run, valid, same, _) = new_bit_set-empty config.bloom_bits few_bits in
    let (b', run', g) = add_interests-Grown config b cs valid same some_bits in
    (b', rw (run, run'), (g.valid, g.same_num_bits, g.found))

check-Found :
    (config : Config) (b : BitSet) (cs : List CommitArgs)
    → IsValid b
    → b.num_bits ≡ config.bloom_bits
    → 0 < config.bloom_bits
    → All (Found config b) cs
    → All
        (λ c.
          check_locations
            (from config.bloom_bits b.contents)
            (take config.bloom_hashes c.int_vec_loc)
          ≡ ok true)
        cs
unfolding from
check-Found config b cs valid same some_bits found =
    All-weaken cs
      (λ c h.
        ap
          (λ n.
            check_locations (let r : BitSet = record { num_bits = n; contents = b.contents } in r)
              (take config.bloom_hashes c.int_vec_loc))
          (sym same)
        ∙ check_locations-All b (take config.bloom_hashes c.int_vec_loc) valid (omega (arith, same))
            (All-weaken (take config.bloom_hashes c.int_vec_loc)
              (λ loc e. ap (λ (n : ℕ). bit_at b (loc % n)) same ∙ e) h))
      found

taken :
    (s : Server) (force : Bool)
    → 0 < s.config.bloom_bits
    → s.config.bloom_bits < 2 ^ 32
    → length s.last_layout * 8 ≤ length s.cuckoo_table.contents
    → (not force && ltb s.num_new_commits s.snapshot_threshold) ≡ false
    → Returns (notify_snapshot s force) (λ r. (r.2 ≡ true) × IsNext s r.0 r.1)
unfolding notify_snapshot
taken s force some_bits few_bits fits go =
    let (b, run, (valid, same, found)) =
      build_interest_vector-Grown s.config s.commit_log some_bits few_bits in
    let (layout, run', long) =
      copy_layout-Returns s.cuckoo_table.contents (length s.last_layout) 0 (omega arith) in
    let count = u64 (s.snapshot_count + 1) in
    (
      (
        record s {
          num_new_commits = 0;
          snapshot_count = count;
          int_vec = b.contents;
          last_layout = layout;
        },
        map (λ (server : ℕ). record { server = server; snapshot_id = count }) s.servers,
        true,
      ),
      rw (go, run, run'),
      (
        refl,
        record {
          count = refl;
          none_new = refl;
          same_log = refl;
          same_config = refl;
          same_table = refl;
          same_size = long;
          finds = check-Found s.config b s.commit_log valid same some_bits found;
          told = told_servers count s.servers;
          told_count = told_counts count s.servers;
        },
      ),
    )

-- With between 1 and 2^32 - 1 filter bits, and a layout of at most an eighth as many words as the
-- table has bytes, NotifySnapshot returns normally. If it is forced, or there are new commits up to
-- the threshold, it returns true, counts one more snapshot and no new commit, keeps the log, the
-- table, the configuration and the layout's length, notifies exactly the servers of the new count,
-- and the new interest vector finds the first locations of every logged commit, as many as there
-- are hashes. Otherwise it returns false and changes and sends nothing.
pub notify_snapshot-IsNext :
    (s : Server) (force : Bool)
    → 0 < s.config.bloom_bits
    → s.config.bloom_bits < 2 ^ 32
    → length s.last_layout * 8 ≤ length s.cuckoo_table.contents
    → Returns (notify_snapshot s force) (λ r.
      (((force ≡ true) ⊎ (s.snapshot_threshold ≤ s.num_new_commits))
        × (r.2 ≡ true)
        × IsNext s r.0 r.1)
      ⊎ ((force ≡ false) × (s.num_new_commits < s.snapshot_threshold) × (r ≡ (s, [], false))))
unfolding notify_snapshot
notify_snapshot-IsNext s true some_bits few_bits fits =
    let (r, run, (built, next)) = taken s true some_bits few_bits fits refl in
    (r, run, inl (inl refl, built, next))
notify_snapshot-IsNext s false some_bits few_bits fits =
    elim (dec_le s.snapshot_threshold s.num_new_commits) [
      | yes enough ↦
          let (r, run, (built, next)) =
            taken s false some_bits few_bits fits
              (ltb-eq-false s.num_new_commits s.snapshot_threshold enough) in
          (r, run, inl (inr enough, built, next))
      | no few ↦ (
        (s, [], false),
        rw (lt→ltb s.num_new_commits s.snapshot_threshold (omega arith)),
        inr (refl, omega arith, refl),
      )
    ]
