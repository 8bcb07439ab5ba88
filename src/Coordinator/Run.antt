-- ===== src/Coordinator/Run.antt =====
-- The states that the coordinator of server/coordinator/server.go can reach: each step is one
-- call under the lock, by a client's Commit, by the loop's NotifySnapshot or by AddServer.
use talek.Base.{
  ℕ, ◌*◌, ◌^◌, ◌≤◌, ◌<◌, ◌≡◌, refl, sym, ap, ap₂, ◌∙◌, subst, inl, inr, Bool, true, false, List, [],
  arith, All, length, replicate, length-replicate, Returns, ok_injective, ok, panic,
}
use talek.Cuckoo.Table.{contains}
use talek.Cuckoo.Table.Fresh.{new_table-IsValid}
use talek.Coordinator.{
  CommitArgs, Config, Server, Notification, id_size, new_server, commit, notify_snapshot,
  add_server,
}
use talek.Coordinator.Tracking.{Agrees, logged, item_for}
use talek.Coordinator.Commit.{Tracks, commit-Tracks, contains-commit_log}
use talek.Coordinator.Snapshot.{FindsAll, notify_snapshot-IsNext, build_interest_vector-Grown}

pub data Step : Server → Server → Type 0 where
  committed :
      {s s' : Server} (args : CommitArgs) → args.id < 2 ^ 64 → commit s args ≡ ok s' → Step s s'
  notified :
      {s s' : Server} (force : Bool) (sent : List Notification) (built : Bool)
      → notify_snapshot s force ≡ ok (s', sent, built)
      → Step s s'
  added : {s : Server} (server : ℕ) → Step s (add_server s server)

pub data Reaches : Server → Server → Type 0 where
  here : {s : Server} → Reaches s s
  after : {s s' s'' : Server} → Reaches s s' → Step s' s'' → Reaches s s''

-- A configuration of a server that can start.
pub record IsUsable (config : Config) : Type 0 where
  pub some_buckets : 0 < config.num_buckets
  pub deep : 0 < config.bucket_depth
  pub some_window : 0 < config.window_size
  pub some_bits : 0 < config.bloom_bits
  pub few_bits : config.bloom_bits < 2 ^ 32

-- The state that every call keeps.
pub record Serves (config : Config) (s : Server) : Type 0 where
  pub same_config : s.config ≡ config
  pub tracks : Tracks s
  pub layout : length s.last_layout ≡ config.num_buckets * config.bucket_depth

pub new_server-Serves :
    (config : Config) (servers : List ℕ) (threshold : ℕ) (rand : ℕ → ℕ)
    → IsUsable config
    → Returns (new_server config servers threshold rand) (Serves config)
unfolding new_server
new_server-Serves config servers threshold rand usable =
    let places = config.num_buckets * config.bucket_depth in
    let (b, run, _) = build_interest_vector-Grown config [] usable.some_bits usable.few_bits in
    let (table, made, valid, same_buckets, same_depth, id_sized, none_stored) =
      new_table-IsValid config.num_buckets config.bucket_depth id_size
        (replicate (places * id_size) 0) rand usable.deep
        (length-replicate {A = ℕ} (places * id_size) 0) in
    (
      record {
        snapshot_threshold = threshold;
        config = config;
        servers = servers;
        commit_log = [];
        num_new_commits = 0;
        snapshot_count = 0;
        last_layout = replicate places 0;
        int_vec = b.contents;
        cuckoo_table = table;
      },
      rw (run, made),
      record {
        same_config = refl;
        tracks = record {
          some_buckets = usable.some_buckets;
          some_window = usable.some_window;
          agrees = record {
            valid = valid;
            same_buckets = same_buckets;
            same_depth = same_depth;
            id_sized = id_sized;
            same_items = λ p. none_stored p ∙ unfold logged in refl;
            ids = tt;
          };
          within = omega arith;
        };
        layout = length-replicate {A = ℕ} places 0;
      },
    )

-- The layout is read from places of the table.
layout_fits :
    (config : Config) (s : Server)
    → Serves config s
    → length s.last_layout * 8 ≤ length s.cuckoo_table.contents
layout_fits config s v =
    let a = v.tracks.agrees in
    let places : length s.cuckoo_table.index ≡ config.num_buckets * config.bucket_depth =
      a.valid.indexed
      ∙ ap₂ (λ (n m : ℕ). n * m) (a.same_buckets ∙ ap (λ (c : Config). c.num_buckets) v.same_config)
          (a.same_depth ∙ ap (λ (c : Config). c.bucket_depth) v.same_config) in
    let size : length s.cuckoo_table.contents ≡ length s.cuckoo_table.index * 10 =
      a.valid.sized ∙ ap (λ (n : ℕ). length s.cuckoo_table.index * n) a.id_sized in
    omega (arith, v.layout, places, size)

-- A state with the same configuration, table and log.
carry :
    (config : Config) (s s' : Server)
    → s'.config ≡ s.config
    → s'.cuckoo_table ≡ s.cuckoo_table
    → s'.commit_log ≡ s.commit_log
    → length s'.last_layout ≡ length s.last_layout
    → Serves config s
    → Serves config s'
carry config s s' same_config same_table same_log same_size v =
    let c : s.config ≡ s'.config = sym same_config in
    record {
      same_config = same_config ∙ v.same_config;
      tracks = record {
        some_buckets = subst (λ k. 0 < k.num_buckets) c v.tracks.some_buckets;
        some_window = subst (λ k. 0 < k.window_size) c v.tracks.some_window;
        agrees =
            subst (λ k. Agrees k s'.cuckoo_table s'.commit_log) c
              (subst (λ t. Agrees s.config t s'.commit_log) (sym same_table)
                (subst (Agrees s.config s.cuckoo_table) (sym same_log) v.tracks.agrees));
        within = omega (
          arith,
          v.tracks.within,
          ap length same_log,
          ap (λ (k : Config). k.window_size) same_config,
        );
      };
      layout = same_size ∙ v.layout;
    }

-- A snapshot keeps what the state serves.
pub notify_snapshot-Serves :
    (config : Config) (s : Server) (force : Bool)
    → IsUsable config
    → Serves config s
    → Returns (notify_snapshot s force) (λ r. Serves config r.0)
notify_snapshot-Serves config s force usable v =
    let (r, run, ending) =
      notify_snapshot-IsNext s force
        (omega (arith, usable.some_bits, ap (λ (c : Config). c.bloom_bits) v.same_config))
        (omega (arith, usable.few_bits, ap (λ (c : Config). c.bloom_bits) v.same_config))
        (layout_fits config s v) in
    (
      r,
      run,
      elim ending [
        | inl (_, _, n) ↦ carry config s r.0 n.same_config n.same_table n.same_log n.same_size v
        | inr (_, _, e) ↦
            subst (Serves config) (ap (λ (q : Server × List Notification × Bool). q.0) (sym e)) v
      ],
    )

not_panic {ℓ} : {A : Type ℓ} {a : A} → panic ≡ ok a → ⊥
not_panic h = cc

-- One step keeps the invariant.
Step-Serves :
    (config : Config) (s s' : Server)
    → IsUsable config
    → Serves config s
    → Step s s'
    → Serves config s'
Step-Serves config s s' usable v (committed args small run) =
    elim (commit-Tracks s args v.tracks small) [
      | inl (s1, run1, (tracks, _, _, _, same_layout, same_config)) ↦
          subst (Serves config) (ok_injective (sym run1 ∙ run)) (record {
            same_config = same_config ∙ v.same_config;
            tracks = tracks;
            layout = ap length same_layout ∙ v.layout;
          })
      | inr full ↦ absurd (not_panic (sym full.0 ∙ run))
    ]
Step-Serves config s s' usable v (notified force sent built run) =
    let (r, run1, v') = notify_snapshot-Serves config s force usable v in
    subst (Serves config)
      (ap (λ (q : Server × List Notification × Bool). q.0) (ok_injective (sym run1 ∙ run))) v'
Step-Serves config s s' usable v (added server) =
    carry config s (add_server s server) (unfold add_server in refl) (unfold add_server in refl)
      (unfold add_server in refl) (unfold add_server in refl) v

Reaches-Serves :
    (config : Config) (s s' : Server)
    → IsUsable config
    → Serves config s
    → Reaches s s'
    → Serves config s'
Reaches-Serves config s s' usable v here = v
Reaches-Serves config s s' usable v (after {s' = t} run last) =
    Step-Serves config t s' usable (Reaches-Serves config s t usable v run) last

-- In every state that commits, snapshots and added servers reach from a new server with a usable
-- configuration, the invariant holds: the commit log fits in the window and the cuckoo table stores
-- exactly the log's items; the table contains the item of every logged commit; and a forced
-- snapshot returns normally, with an interest vector in which the first locations of every logged
-- commit are found, as many as there are hashes.
pub Reaches-FindsAll :
    (config : Config) (servers : List ℕ) (threshold : ℕ) (rand : ℕ → ℕ) (s0 s : Server)
    → IsUsable config
    → new_server config servers threshold rand ≡ ok s0
    → Reaches s0 s
    → Serves config s
      × All (λ c. contains s.cuckoo_table (item_for s.config.num_buckets c) ≡ ok true) s.commit_log
      × Returns (notify_snapshot s true) (λ r. (r.2 ≡ true) × FindsAll r.0)
Reaches-FindsAll config servers threshold rand s0 s usable made run =
    let (s1, made1, v1) = new_server-Serves config servers threshold rand usable in
    let v0 : Serves config s0 = subst (Serves config) (ok_injective (sym made1 ∙ made)) v1 in
    let v = Reaches-Serves config s0 s usable v0 run in
    let (r, ran, ending) =
      notify_snapshot-IsNext s true
        (omega (arith, usable.some_bits, ap (λ (c : Config). c.bloom_bits) v.same_config))
        (omega (arith, usable.few_bits, ap (λ (c : Config). c.bloom_bits) v.same_config))
        (layout_fits config s v) in
    (
      v,
      contains-commit_log s v.tracks,
      (
        r,
        ran,
        elim ending [
          | inl (_, built, n) ↦ (built, n.finds)
          | inr (not_forced, _, _) ↦ absurd (forced not_forced)
        ],
      ),
    )
  where
    forced : true ≡ false → ⊥
    forced h = cc
