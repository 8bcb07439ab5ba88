-- ===== src/Coordinator/Commit.antt =====
-- Commit of server/coordinator/server.go keeps the cuckoo table and the commit log in step.
use talek.Base.{
  ℕ, suc, ◌+◌, ◌-◌, ◌^◌, ◌≤◌, ◌<◌, ◌≡◌, refl, ap, ap₂, ◌∙◌, subst, ◌⊎◌, inl, inr, Bool, true, false,
  Option, some, List, [], ◌∷◌, ◌++◌, arith, dec_le, All, length, drop, length-append, Returns,
  All-append, ok, panic, lt→ltb, Option-cases, le→leb, leb-eq-false, to_nat,
}
use talek.Cuckoo.Item.{Item}
use talek.Cuckoo.Table.{Table, insert, remove, contains}
use talek.Cuckoo.Table.Count.{stored, passes}
use talek.Cuckoo.Table.Insert.{insert-Inserted}
use talek.Cuckoo.Table.Lookup.{same_key, same_key_refl, contains-stored}
use talek.Cuckoo.Table.Remove.{remove-Removed}
use talek.Coordinator.{CommitArgs, Config, Server, u64, collect, commit}
use talek.Coordinator.Tracking.{
  item_for, logged, Agrees, as_cuckoo_item-item_for, item_for-Fits, same_key-logged,
}

-- `Remove` of the oldest commit of the log.
remove-oldest :
    (config : Config) (table : Table) (c : CommitArgs) (cs : List CommitArgs)
    → 0 < config.num_buckets
    → Agrees config table (c ∷ cs)
    → Returns (remove table (item_for config.num_buckets c)) (λ r. Agrees config r.0 cs)
unfolding logged
remove-oldest config table c cs some_buckets a =
    let item = item_for config.num_buckets c in
    let fits = item_for-Fits config table (c ∷ cs) c a some_buckets a.ids.0 in
    let (r, run, d) = remove-Removed table item a.valid fits.range1 fits.range2 in
    let found : r.1 ≡ true =
      d.found_iff
      ∙ lt→ltb 0 (stored (same_key item) table)
          (omega (arith, a.same_items (same_key item), ap to_nat (same_key_refl item))) in
    let (e, same, balance) = d.taken found in
    let e-item : e ≡ item =
      same_key-logged config table (c ∷ cs) c e a (λ p. omega (arith, balance p)) same in
    (
      r,
      run,
      record {
        valid = d.after.valid;
        same_buckets = d.after.num_buckets ∙ a.same_buckets;
        same_depth = d.after.bucket_depth ∙ a.same_depth;
        id_sized = d.after.item_size ∙ a.id_sized;
        same_items = λ p. omega (arith, balance p, ap (λ i. to_nat (p i)) e-item, a.same_items p);
        ids = a.ids.1;
      },
    )

-- The garbage collection leaves room for one commit.
collect-Agrees :
    (config : Config) (table : Table) (log : List CommitArgs)
    → 0 < config.num_buckets
    → 0 < config.window_size
    → Agrees config table log
    → Returns (collect config table log) (λ r.
      Agrees config r.0 r.1
      × (length r.1 < config.window_size)
      × (r.1 ≡ drop (length log + 1 - config.window_size) log))
unfolding collect
collect-Agrees config table [] some_buckets some_window a = (
  (table, []),
  rw (leb-eq-false config.window_size 0 some_window),
  (a, some_window, ap (λ (n : ℕ). drop {A = CommitArgs} n []) {x = 0} (omega arith)),
)
collect-Agrees config table (c ∷ cs) some_buckets some_window a =
    let (r, run, a') = remove-oldest config table c cs some_buckets a in
    let (r', run', (a'', short, e)) = collect-Agrees config r.0 cs some_buckets some_window a' in
    elim (dec_le config.window_size (length (c ∷ cs))) [
      | yes full ↦ (
        r',
        rw (
          as_cuckoo_item-item_for config.num_buckets c some_buckets a.ids.0,
          run,
          run',
          le→leb config.window_size (length (c ∷ cs)) full,
        ),
        (
          a'',
          short,
          e
              ∙ ap (λ (n : ℕ). drop n (c ∷ cs)) {x = suc (length cs + 1 - config.window_size)}
                  (omega arith),
        ),
      )
      | no room ↦ (
        (table, c ∷ cs),
        rw (leb-eq-false config.window_size (length (c ∷ cs)) (omega arith)),
        (a, omega arith, ap (λ (n : ℕ). drop n (c ∷ cs)) {x = 0} (omega arith)),
      )
    ]

-- What a commit leaves.
pub record Tracks (s : Server) : Type 0 where
  pub some_buckets : 0 < s.config.num_buckets
  pub some_window : 0 < s.config.window_size
  pub agrees : Agrees s.config s.cuckoo_table s.commit_log
  pub within : length s.commit_log ≤ s.config.window_size

logged-append :
    (p : Item → Bool) (n : ℕ) (log : List CommitArgs) (c : CommitArgs)
    → logged p n (log ++ c ∷ []) ≡ logged p n log + to_nat (p (item_for n c))
unfolding logged
logged-append p n [] c = omega arith
logged-append p n (x ∷ log) c = omega (arith, logged-append p n log c)

-- The insertion at the end of `Commit`, with the item that it hands back.
insert-Agrees :
    (config : Config) (table : Table) (log : List CommitArgs) (args : CommitArgs)
    → 0 < config.num_buckets
    → args.id < 2 ^ 64
    → Agrees config table log
    → Returns (insert table (item_for config.num_buckets args)) (λ r.
      ((r.1 ≡ true) × Agrees config r.0 (log ++ args ∷ []))
      ⊎ ((r.1 ≡ false) × (e : Item) × (r.2 ≡ some e)))
insert-Agrees config table log args some_buckets small a =
    let item = item_for config.num_buckets args in
    let (r, run, ins) =
      insert-Inserted table item a.valid
        (item_for-Fits config table log args a some_buckets small) in
    elim (Option-cases r.2) [
      | inl none_back ↦ (
        r,
        run,
        inl (
          ins.done_iff.1 none_back,
          record {
            valid = ins.after.valid;
            same_buckets = ins.after.num_buckets ∙ a.same_buckets;
            same_depth = ins.after.bucket_depth ∙ a.same_depth;
            id_sized = ins.after.item_size ∙ a.id_sized;
            same_items = λ p. omega (
              arith,
              ins.balanced p,
              ap (passes p) none_back,
              a.same_items p,
              logged-append p config.num_buckets log args,
            );
            ids = All-append (λ (c : CommitArgs). c.id < 2 ^ 64) log (args ∷ []) a.ids (small, tt);
          },
        ),
      )
      | inr (e, back) ↦ (r, run, inr (not_done r.1 (λ t. let n = ins.done_iff.0 t in cc), e, back))
    ]
  where
    not_done : (b : Bool) → ¬ (b ≡ true) → b ≡ false
    not_done true h = absurd (h refl)
    not_done false h = refl

-- From a state in which the table stores exactly the items of the log, a commit either returns
-- normally in such a state, with the log's oldest commits dropped to the window and the new one at
-- its end, one more new commit counted, and the snapshot count, the layout and the configuration as
-- before; or it panics, and then the insertion of the item into the table of the shortened log
-- hands an item back.
pub commit-Tracks :
    (s : Server) (args : CommitArgs)
    → Tracks s
    → args.id < 2 ^ 64
    → Returns (commit s args) (λ s'.
      Tracks s'
      × (s'.commit_log
          ≡ drop (length s.commit_log + 1 - s.config.window_size) s.commit_log ++ args ∷ [])
      × (s'.num_new_commits ≡ u64 (s.num_new_commits + 1))
      × (s'.snapshot_count ≡ s.snapshot_count)
      × (s'.last_layout ≡ s.last_layout)
      × (s'.config ≡ s.config))
      ⊎ ((commit s args ≡ panic)
          × (t : Table) × Agrees s.config t
              (drop (length s.commit_log + 1 - s.config.window_size) s.commit_log)
          × (t' : Table) × (e : Item) × (insert t (item_for s.config.num_buckets args)
              ≡ ok (t', false, some e)))
unfolding commit
commit-Tracks s args tracks small =
    let (r, run, (a, short, kept)) =
      collect-Agrees s.config s.cuckoo_table s.commit_log tracks.some_buckets tracks.some_window
        tracks.agrees in
    let (q, run', ending) = insert-Agrees s.config r.0 r.1 args tracks.some_buckets small a in
    let item = as_cuckoo_item-item_for s.config.num_buckets args tracks.some_buckets small in
    elim ending [
      | inl (done, a') ↦ inl (
        record s {
          commit_log = r.1 ++ args ∷ [];
          num_new_commits = u64 (s.num_new_commits + 1);
          cuckoo_table = q.0;
        },
        rw (run, item, run', done),
        (
          record {
            some_buckets = tracks.some_buckets;
            some_window = tracks.some_window;
            agrees = a';
            within = omega (arith, short, length-append r.1 (args ∷ []));
          },
          ap (λ log. log ++ args ∷ []) kept,
          refl,
          refl,
          refl,
          refl,
        ),
      )
      | inr (not_done, e, back) ↦ inr (
        rw (run, item, run', not_done),
        r.0,
        subst (Agrees s.config r.0) kept a,
        q.0,
        e,
        run' ∙ ap ok (ap₂ (λ (b : Bool) (o : Option Item). (q.0, b, o)) not_done back),
      )
    ]

-- The table contains every item of a part of the log.
contains-part :
    (config : Config) (table : Table) (log part : List CommitArgs)
    → 0 < config.num_buckets
    → Agrees config table log
    → ((p : Item → Bool) → logged p config.num_buckets part ≤ stored p table)
    → All (λ c. c.id < 2 ^ 64) part
    → All (λ c. contains table (item_for config.num_buckets c) ≡ ok true) part
unfolding logged
contains-part config table log [] some_buckets a are_stored ids = tt
contains-part config table log (c ∷ cs) some_buckets a are_stored (small, ids) =
    let item = item_for config.num_buckets c in
    let fits = item_for-Fits config table log c a some_buckets small in
    (
      contains-stored table item a.valid fits.range1 fits.range2
          ∙ ap ok (
              lt→ltb 0 (stored (same_key item) table)
                (omega (arith, are_stored (same_key item), ap to_nat (same_key_refl item)))),
      contains-part config table log cs some_buckets a (λ p. omega (arith, are_stored p)) ids,
    )

-- In a state that tracks its commits, the table contains every commit of the log.
pub contains-commit_log :
    (s : Server)
    → Tracks s
    → All (λ c. contains s.cuckoo_table (item_for s.config.num_buckets c) ≡ ok true) s.commit_log
contains-commit_log s tracks =
    contains-part s.config s.cuckoo_table s.commit_log s.commit_log tracks.some_buckets
      tracks.agrees (λ p. omega (arith, tracks.agrees.same_items p)) tracks.agrees.ids
