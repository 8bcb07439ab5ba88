-- ===== src/Shard/Writes.antt =====
-- After each write, the cuckoo table of a shard holds the items of its list of entries, and perhaps
-- more: an item that an insertion evicts is put back even if its entry was dropped meanwhile.
use talek.Base.{
  ℕ, zero, suc, ◌+◌, ◌-◌, ◌≤◌, ◌<◌, ◌≡◌, refl, sym, ap, ap₂, ◌∙◌, ◌⊎◌, inl, inr, Bool, true, false,
  not, ◌||◌, Option, none, some, List, [], ◌∷◌, ◌++◌, arith, All, length, drop, length-append,
  Returns, All-append, ok, panic, ltb, leb, ◌==◌, if◌then◌else◌, Bool-cases, Option-cases, to_nat,
}
use talek.Bloom.Filter.Membership.{All-weaken}
use talek.Cuckoo.Item.{Item}
use talek.Cuckoo.Table.{Table, insert, remove}
use talek.Cuckoo.Table.Count.{stored, passes}
use talek.Cuckoo.Table.Buckets.{IsValid, Fits, Fits-After}
use talek.Cuckoo.Table.Insert.{Inserted, insert-Inserted}
use talek.Cuckoo.Table.Lookup.{same_key}
use talek.Cuckoo.Table.Remove.{Removed, remove-Removed}
use talek.Shard.{
  WriteArgs, Shard, as_item, remove_first, evict_old_items, apply_writes, put_back, process_write,
}

-- A test that sees only the key of an item.
abbrev pub ByKey : (Item → Bool) → Type 0
ByKey p = (i e : Item) → same_key i e ≡ true → p e ≡ p i

-- How many items of a list pass a test.
unfoldable pub counted : (Item → Bool) → List Item → ℕ
counted p [] = 0
counted p (i ∷ is) = to_nat (p i) + counted p is

counted-append :
    (p : Item → Bool) (is : List Item) (i : Item)
    → counted p (is ++ i ∷ []) ≡ counted p is + to_nat (p i)
unfolding counted
counted-append p [] i = omega arith
counted-append p (x ∷ is) i = omega (arith, counted-append p is i)

-- The table, with the item that is missing from it, holds every entry as often as it is entered.
pub record Holds (t : Table) (entries : List Item) (missing : Option Item) : Type 0 where
  pub valid : IsValid t
  pub held : (p : Item → Bool) → ByKey p → counted p entries ≤ stored p t + passes p missing
  pub fits : All (Fits t) entries
  pub missing-Fits : (e : Item) → missing ≡ some e → Fits t e

-- Removing the first entry.
remove-Holds :
    (t : Table) (i : Item) (entries : List Item) (missing : Option Item)
    → Holds t (i ∷ entries) missing
    → Returns (remove t i) (λ r. Holds r.0 entries missing)
unfolding counted
remove-Holds t i entries missing h =
    let (r, run, d) = remove-Removed t i h.valid h.fits.0.range1 h.fits.0.range2 in
    (
      r,
      run,
      record {
        valid = d.after.valid;
        held = λ p by_key. kept r d p by_key;
        fits = All-weaken entries (λ e f. Fits-After d.after f) h.fits.1;
        missing-Fits = λ e same. Fits-After d.after (h.missing-Fits e same);
      },
    )
  where
    kept :
        (r : Table × Bool)
        → Removed t i r
        → (p : Item → Bool) → ByKey p
        → counted p entries ≤ stored p r.0 + passes p missing
    kept r d p by_key = elim (Bool-cases r.1) [
      | inl found ↦
          let (e, same, balance) = d.taken found in
          omega (arith, balance p, h.held p by_key, ap to_nat (by_key i e same))
      | inr not_found ↦ omega (arith, d.kept not_found p, h.held p by_key)
    ]

remove_first-Holds :
    (n : ℕ) (t : Table) (entries : List Item) (missing : Option Item)
    → n ≤ length entries
    → Holds t entries missing
    → Returns (remove_first n t entries) (λ t'. Holds t' (drop n entries) missing)
unfolding remove_first
remove_first-Holds zero t entries missing short h = (t, refl, h)
remove_first-Holds (suc n) t [] missing short h = absurd (omega arith)
remove_first-Holds (suc n) t (i ∷ entries) missing short h =
    let (r, run, h') = remove-Holds t i entries missing h in
    let (t', run', h'') = remove_first-Holds n r.0 entries missing (omega arith) h' in
    (t', rw (run, run'), h'')

-- Only entries from the front are dropped, and never the last one.
abbrev pub KeepsLast : List Item → List Item → Type 0
KeepsLast before after = (k : ℕ) × (k < length before) × (after ≡ drop k before)

evict_old_items-Holds :
    (s : Shard) (missing : Option Item)
    → 0 < length s.entries
    → Holds s.table s.entries missing
    → Returns
        (evict_old_items s)
        (λ s'. Holds s'.table s'.entries missing × KeepsLast s.entries s'.entries)
unfolding evict_old_items
evict_old_items-Holds s missing some_entries h =
    let to_remove =
      if leb (length s.entries) s.load_step then length s.entries - 1 else s.load_step in
    let (t, run, h') = remove_first-Holds to_remove s.table s.entries missing few h in
    (
      record s { table = t; entries = drop to_remove s.entries },
      rw (not_zero, run),
      (h', (to_remove, fewer, refl)),
    )
  where
    fewer :
        (if leb (length s.entries) s.load_step then length s.entries - 1 else s.load_step)
        < length s.entries
    fewer = ground arith

    not_zero : (length s.entries == 0) ≡ false
    not_zero = ground arith

    few :
        (if leb (length s.entries) s.load_step then length s.entries - 1 else s.load_step)
        ≤ length s.entries
    few = ground arith

-- Putting back the missing item, unless the insertion hands an item back.
put_back-Holds :
    (s : Shard) (missing : Option Item)
    → Holds s.table s.entries missing
    → Returns (put_back s missing) (λ s'. Holds s'.table s'.entries none × (s'.entries ≡ s.entries))
      ⊎ ((put_back s missing ≡ panic)
          × (e : Item) × (missing ≡ some e)
          × (t : Table) × (back : Item) × (insert s.table e ≡ ok (t, false, some back)))
unfolding put_back
put_back-Holds s none h = inl (s, refl, (h, refl))
put_back-Holds s (some e) h =
    let (r, run, ins) = insert-Inserted s.table e h.valid (h.missing-Fits e refl) in
    let ends : (b : Bool) (o : Option Item)
        → r.1 ≡ b
        → r.2 ≡ o
        → insert s.table e ≡ ok (r.0, b, o) =
      λ b o same_b same_o.
        run ∙ ap ok (ap₂ (λ (b : Bool) (o : Option Item). (r.0, b, o)) same_b same_o) in
    elim (Option-cases r.2) [
      | inl none_back ↦ inl (
        record s { table = r.0 },
        rw (ends true none (ins.done_iff.1 none_back) none_back),
        (
          record {
            valid = ins.after.valid;
            held =
                λ p by_key. omega (arith, h.held p by_key, ins.balanced p, ap (passes p) none_back);
            fits = All-weaken s.entries (λ i f. Fits-After ins.after f) h.fits;
            missing-Fits = λ i same. absurd (no_item same);
          },
          refl,
        ),
      )
      | inr (back, handed) ↦
          inr (rw (full r ends back handed ins), e, refl, r.0, back, full r ends back handed ins)
    ]
  where
    no_item : {i : Item} → none ≡ some i → ⊥
    no_item h = cc

    some_item : {i : Item} → some i ≡ none → ⊥
    some_item h = cc

    not_done : (b : Bool) → ¬ (b ≡ true) → b ≡ false
    not_done true h = absurd (h refl)
    not_done false h = refl

    full :
        (r : Table × Bool × Option Item)
        → ((b : Bool) (o : Option Item) → r.1 ≡ b → r.2 ≡ o → insert s.table e ≡ ok (r.0, b, o))
        → (back : Item) → r.2 ≡ some back
        → Inserted s.table e r
        → insert s.table e ≡ ok (r.0, false, some back)
    full r ends back handed ins =
        ends false (some back) (not_done r.1 (λ t. some_item (sym handed ∙ ins.done_iff.0 t)))
          handed

-- The entry of a new item, with what its insertion evicted.
insert-Holds :
    (t : Table) (entries : List Item) (item : Item)
    → Holds t entries none
    → Fits t item
    → Returns (insert t item) (λ r. Holds r.0 (entries ++ item ∷ []) r.2)
insert-Holds t entries item h f =
    let (r, run, ins) = insert-Inserted t item h.valid f in
    (
      r,
      run,
      record {
        valid = ins.after.valid;
        held = λ p by_key.
            omega (arith, h.held p by_key, ins.balanced p, counted-append p entries item);
        fits =
            All-append (Fits r.0) entries (item ∷ [])
              (All-weaken entries (λ i g. Fits-After ins.after g) h.fits)
              (Fits-After ins.after f, tt);
        missing-Fits = λ e same. Fits-After ins.after (ins.back-Fits e same);
      },
    )

maybe_evict-Holds :
    (b : Bool) (s : Shard) (missing : Option Item)
    → 0 < length s.entries
    → Holds s.table s.entries missing
    → Returns
        (if b then evict_old_items s else ok s)
        (λ s'. Holds s'.table s'.entries missing × KeepsLast s.entries s'.entries)
maybe_evict-Holds true s missing some_entries h = evict_old_items-Holds s missing some_entries h
maybe_evict-Holds false s missing some_entries h = (s, refl, (h, (0, some_entries, refl)))

flip-Holds :
    (b : Bool) (s : Shard)
    → Holds s.table s.entries none
    → (let r : Shard × Bool = if b then apply_writes s else (s, false) in
        Holds r.0.table r.0.entries none × (r.0.entries ≡ s.entries))
unfolding apply_writes
flip-Holds true s h = (h, refl)
flip-Holds false s h = (h, refl)

-- What the insertion of a write does to the shard, before anything is put back.
abbrev inserted_shard : Shard → WriteArgs → Table → Shard
inserted_shard s args t = record s { entries = s.entries ++ as_item args ∷ []; table = t }

-- The write's insertion evicts an item, the shard drops old entries if the insertion was not done
-- or there are too many, and the table then does not take the evicted item back.
pub record Overflows (s : Shard) (args : WriteArgs) : Type 0 where
  pub is_write : args.epoch_flag ≡ false
  pub filled : Table
  pub done : Bool
  pub evicted : Item
  pub inserts : insert s.table (as_item args) ≡ ok (filled, done, some evicted)
  pub dropped : Shard
  pub drops :
      (if not done || ltb s.max_load (length s.entries + 1)
        then evict_old_items (inserted_shard s args filled)
        else ok (inserted_shard s args filled))
      ≡ ok dropped
  pub last : Table
  pub back : Item
  pub refuses : insert dropped.table evicted ≡ ok (last, false, some back)

-- An epoch write changes neither the table nor the entries, and the read loop is told; any other
-- write becomes the last entry.
pub data Entered (s : Shard) (args : WriteArgs) (r : Shard × Bool) : Type 0 where
  epoch :
      args.epoch_flag ≡ true
      → r.0.table ≡ s.table
      → r.0.entries ≡ s.entries
      → r.1 ≡ true
      → Entered s args r
  written :
      args.epoch_flag ≡ false
      → KeepsLast (s.entries ++ as_item args ∷ []) r.0.entries
      → Entered s args r

-- If the cuckoo table of a shard is valid and holds the key of every entry at least as often as it
-- is entered, and a write fits the table, then either handling the write returns normally with a
-- shard of which the same is true: an epoch write changes neither the table nor the entries and
-- tells the read loop, and any other write becomes the last entry, with entries dropped only from
-- the front; or it panics, and then it is no epoch write, its insertion into the shard's table
-- evicts an item, and the table, after old entries are dropped if the insertion was not done or
-- there are more entries than the load allows, does not take the evicted item back.
pub process_write-Holds :
    (s : Shard) (args : WriteArgs)
    → Holds s.table s.entries none
    → Fits s.table (as_item args)
    → Returns (process_write s args) (λ r. Holds r.0.table r.0.entries none × Entered s args r)
      ⊎ ((process_write s args ≡ panic) × Overflows s args)
unfolding process_write
process_write-Holds s args h f = elim (Bool-cases args.epoch_flag) [
  | inl is_epoch ↦
      inl (apply_writes s, rw is_epoch, unfold apply_writes in (h, epoch is_epoch refl refl refl))
  | inr write ↦
      let item = as_item args in
      let entries = s.entries ++ item ∷ [] in
      let (r, run, h1) = insert-Holds s.table s.entries item h f in
      let s1 : Shard = record s { entries = entries; table = r.0 } in
      let full = not r.1 || ltb s.max_load (length entries) in
      let (s2, run2, (h2, (few, less, last))) =
        maybe_evict-Holds full s1 r.2 (omega (arith, length-append s.entries (item ∷ []))) h1 in
      elim (put_back-Holds s2 r.2 h2) [
        | inl (s3, run3, (h3, same)) ↦
            let s4 : Shard = record s3 { since_flip = s3.since_flip + 1 } in
            let (h4, same4) = flip-Holds (ltb s4.outstanding_limit s4.since_flip) s4 h3 in
            inl (
              (if ltb s4.outstanding_limit s4.since_flip then apply_writes s4 else (s4, false)),
              rw (write, run, run2, run3),
              (h4, written write (few, less, same4 ∙ same ∙ last)),
            )
        | inr (fails, e, evicts, t, back, ran) ↦ inr (
          rw (write, run, run2, fails),
          record {
            is_write = write;
            filled = r.0;
            done = r.1;
            evicted = e;
            inserts = run ∙ ap (λ o. ok (r.0, r.1, o)) evicts;
            dropped = s2;
            drops =
                ap
                  (λ n.
                    if not r.1 || ltb s.max_load n
                    then evict_old_items (inserted_shard s args r.0)
                    else ok (inserted_shard s args r.0))
                  (omega (arith, length-append s.entries (item ∷ [])))
                ∙ run2;
            last = t;
            back = back;
            refuses = ran;
          },
        )
      ]
]
