-- ===== src/Cuckoo/Table/Insert.antt =====
-- `Insert` and its eviction loop keep the invariant and lose no item but the one they return.
use talek.Base.{
  ℕ, zero, suc, ◌+◌, ◌*◌, ◌%◌, ◌<◌, ◌≡◌, refl, sym, subst, ◌≢◌, ◌↔◌, ◌⊎◌, inl, inr, Bool, true,
  false, not, ◌&&◌, Option, none, some, arith, length, Returns, Outcome, ◌>>=◌, ok, ◌==◌,
  if◌then◌else◌, ==_iff, Bool-cases, Option-cases, to_nat,
}
use native.Mathlib.Nat.{mod-lt}
use mathlib.Core.Option.{some-injective}
use talek.Cuckoo.Item.{Item, copy_item_lem}
use talek.Cuckoo.Table.{
  Table, out_of_range, max_evictions, try_insert_to_bucket, evict, insert_and_evict, evict_loop,
  insert,
}
use talek.Cuckoo.Table.Count.{item_of, weight, stored, passes}
use talek.Cuckoo.Table.Buckets.{
  loc_at, bytes_at, InBucket, IsValid, Fits, After, After-trans, Fits-After, Fits-Before, Homes,
  bucket-fits, length-bytes_at, unfill_lem, get_item_filled, try_insert_to_bucket-Tried,
}

-- The table holds what it held and the item, but for the item handed back.
abbrev pub Balanced : Table → Item → Table → Option Item → Type 0
Balanced t item t' back =
    (p : Item → Bool) → stored p t' + passes p back ≡ stored p t + to_nat (p item)

-- What an insertion ends in.
pub record Inserted (t : Table) (item : Item) (r : Table × Bool × Option Item) : Type 0 where
  pub after : After t r.0
  pub balanced : Balanced t item r.0 r.2
  pub back-Fits : (e : Item) → r.2 ≡ some e → Fits t e
  pub done_iff : (r.1 ≡ true) ↔ (r.2 ≡ none)

-- An eviction step ends with `done`, and with an item for its other bucket or none.
record Evicted (t : Table) (item : Item) (r : Table × Bool × Option Item) : Type 0 where
  pub after : After t r.0
  pub balanced : Balanced t item r.0 r.2
  pub back-Fits : (e : Item) → r.2 ≡ some e → Fits t e
  pub done : r.1 ≡ true

-- Only the source of random numbers has moved on.
abbrev pub with_rand : Table → (ℕ → ℕ) → Table
with_rand t rand = record t { rand = rand }

pub with_rand-IsValid : (t : Table) (rand : ℕ → ℕ) → IsValid t → IsValid (with_rand t rand)
with_rand-IsValid t rand v = record {
  deep = v.deep;
  indexed = v.indexed;
  sized = v.sized;
  placed = v.placed;
}

with_rand-Fits :
    (t : Table) (rand : ℕ → ℕ) (item : Item) → Fits t item → Fits (with_rand t rand) item
with_rand-Fits t rand item f = record { size = f.size; range1 = f.range1; range2 = f.range2 }

pub with_rand-stored :
    (p : Item → Bool) (t : Table) (rand : ℕ → ℕ) → stored p (with_rand t rand) ≡ stored p t
unfolding stored
with_rand-stored p t rand = refl

module _ (t : Table) (valid : IsValid t) (b : ℕ) (item : Item) (hb : b < t.num_buckets)
    (home : Homes item b) (f : Fits t item) where
  -- A full bucket gives up the item of the place that is drawn.
  evict-Evicted :
      (i : ℕ)
      → InBucket t.bucket_depth b i
      → (loc_at t i).filled ≡ true
      → Returns (evict t b i item) (Evicted t item)
  unfolding evict
  evict-Evicted i inside taken =
      let h = bucket-fits t valid b i hb inside in
      let removed = item_of (loc_at t i) (bytes_at t i) in
      let (t', run, (after, free, less)) = unfill_lem t valid i h in
      let ((t'', done), run', tried) =
        try_insert_to_bucket-Tried t' after.valid b item (omega (arith, after.num_buckets)) home
          (Fits-After after f) in
      let side = valid.placed i h taken in
      let done_true : done ≡ true = elim (Bool-cases done) [
        | inl e ↦ e
        | inr e ↦ absurd (
            no_room free
              ((tried.full e).1 i (subst (λ d. InBucket d b i) (sym after.bucket_depth) inside)))
      ] in
      (
        (t'', true, some removed),
        rw (get_item_filled t valid i h taken, run, run', done_true, copy_item_lem removed),
        record {
          after = After-trans after tried.after;
          balanced = λ p. omega (arith, less p, tried.added done_true p, full_weight p);
          back-Fits = λ e same.
              subst (Fits t) (some-injective removed e same)
                (record { size = length-bytes_at t valid i h; range1 = side.0; range2 = side.1 });
          done = refl;
        },
      )
    where
      no_room : {b : Bool} → b ≡ false → b ≡ true → ⊥
      no_room e e' = cc

      full_weight :
          (p : Item → Bool)
          → weight p (loc_at t i) (bytes_at t i) ≡ to_nat (p (item_of (loc_at t i) (bytes_at t i)))
      full_weight p = rw taken

module _ (t : Table) (rand : ℕ → ℕ) where
  -- A result for the table with another source is one for the table.
  pub with_rand-After : {t' : Table} → After (with_rand t rand) t' → After t t'
  with_rand-After a = record {
    valid = a.valid;
    num_buckets = a.num_buckets;
    bucket_depth = a.bucket_depth;
    item_size = a.item_size;
  }

  with_rand-Fits_back : {item : Item} → Fits (with_rand t rand) item → Fits t item
  with_rand-Fits_back f = record { size = f.size; range1 = f.range1; range2 = f.range2 }

  with_rand-Evicted :
      (item : Item) (r : Table × Bool × Option Item)
      → Evicted (with_rand t rand) item r
      → Evicted t item r
  with_rand-Evicted item r e = record {
    after = with_rand-After e.after;
    balanced = λ p. omega (arith, e.balanced p, with_rand-stored p t rand);
    back-Fits = λ x same. with_rand-Fits_back (e.back-Fits x same);
    done = e.done;
  }

module _ (t : Table) (valid : IsValid t) (b : ℕ) (item : Item) (hb : b < t.num_buckets)
    (home : Homes item b) (f : Fits t item) where
  not_foreign : (not (item.bucket1 == b) && not (item.bucket2 == b)) ≡ false
  not_foreign = ground arith

  deep : (t.bucket_depth == 0) ≡ false
  deep = ground (arith, valid.deep)

  insert_and_evict-Evicted : Returns (insert_and_evict t b item) (Evicted t item)
  unfolding insert_and_evict
  insert_and_evict-Evicted =
      let ((t', done), run, tried) = try_insert_to_bucket-Tried t valid b item hb home f in
      elim (Bool-cases done) [
        | inl e ↦ (
          (t', true, none),
          rw (not_foreign, run, e),
          record {
            after = tried.after;
            balanced = λ p. omega (arith, tried.added e p);
            back-Fits = λ x same. cc;
            done = refl;
          },
        )
        | inr e ↦
            let (same, all_taken) = tried.full e in
            let rand' : ℕ → ℕ = λ n. t.rand (suc n) in
            let i = b * t.bucket_depth + t.rand 0 % t.bucket_depth in
            let inside : InBucket t.bucket_depth b i =
              (omega arith, omega (arith, mod-lt (t.rand 0) valid.deep)) in
            let (r, run', evicted) =
              evict-Evicted (with_rand t rand') (with_rand-IsValid t rand' valid) b item hb home
                (with_rand-Fits t rand' item f) i inside (all_taken i inside) in
            (r, rw (not_foreign, run, e, same, deep) run', with_rand-Evicted t rand' item r evicted)
      ]

-- The bucket that the loop tries next is one of the evicted item's.
next_bucket-Homes : (e : Item) (b : ℕ) → Homes e (if e.bucket1 == b then e.bucket2 else e.bucket1)
next_bucket-Homes e b = elim (Bool-cases (e.bucket1 == b)) [
  | inl h ↦ rw h (inr refl)
  | inr h ↦ rw h (inl refl)
]

next_bucket-lt :
    (n : ℕ) (e : Item) (b : ℕ)
    → e.bucket1 < n
    → e.bucket2 < n
    → (if e.bucket1 == b then e.bucket2 else e.bucket1) < n
next_bucket-lt n e b h h' = ground arith

evict_loop-Inserted :
    (left : ℕ) (t : Table) (b : ℕ) (item : Item)
    → IsValid t
    → b < t.num_buckets
    → Homes item b
    → Fits t item
    → Returns (evict_loop left t b item) (Inserted t item)
unfolding evict_loop
evict_loop-Inserted zero t b item valid hb home f = (
  (t, false, some item),
  refl,
  record {
    after = record { valid = valid; num_buckets = refl; bucket_depth = refl; item_size = refl };
    balanced = λ p. refl;
    back-Fits = λ e same. subst (Fits t) (some-injective item e same) f;
    done_iff = (λ e. cc, λ e. cc);
  },
)
evict_loop-Inserted (suc left) t b item valid hb home f =
    let ((t', done, back), run, ev) = insert_and_evict-Evicted t valid b item hb home f in
    elim (Option-cases back) [
      | inl nothing ↦ (
        (t', true, none),
        rw (run, ev.done, nothing, evict_loop),
        record {
          after = ev.after;
          balanced = λ p. rw nothing at (ev.balanced p);
          back-Fits = λ e same. cc;
          done_iff = (λ _. refl, λ _. refl);
        },
      )
      | inr (e, some_item) ↦
          let e_fits = ev.back-Fits e some_item in
          let e_fits' = Fits-After ev.after e_fits in
          let next = if e.bucket1 == b then e.bucket2 else e.bucket1 in
          let (r, run', ins) =
            evict_loop-Inserted left t' next e ev.after.valid
              (next_bucket-lt t'.num_buckets e b e_fits'.range1 e_fits'.range2)
              (next_bucket-Homes e b) e_fits' in
          (
            r,
            rw (run, ev.done, some_item, evict_loop) run',
            record {
              after = After-trans ev.after ins.after;
              balanced = λ p. omega (arith, ins.balanced p, (rw some_item at (ev.balanced p)));
              back-Fits = λ x same. Fits-Before ev.after (ins.back-Fits x same);
              done_iff = ins.done_iff;
            },
          )
    ]

pub in_range : (t : Table) (item : Item) → Fits t item → out_of_range t item ≡ false
in_range t item f = ground (arith, f.range1, f.range2)

-- The rest of `Insert`, once the coin has chosen the first bucket.
insert_at-Inserted :
    (t : Table) (first next : ℕ) (item : Item)
    → IsValid t
    → Fits t item
    → first < t.num_buckets
    → next < t.num_buckets
    → Homes item first
    → Homes item next
    → Returns
        (try_insert_to_bucket t first item >>= λ (t', done).
          if done then ok (t', true, none) else evict_loop max_evictions t' next item)
        (Inserted t item)
insert_at-Inserted t first next item valid f h1 h2 home1 home2 =
    let ((t', done), run, tried) = try_insert_to_bucket-Tried t valid first item h1 home1 f in
    elim (Bool-cases done) [
      | inl e ↦ (
        (t', true, none),
        rw (run, e),
        record {
          after = tried.after;
          balanced = λ p. omega (arith, tried.added e p);
          back-Fits = λ x same. cc;
          done_iff = (λ _. refl, λ _. refl);
        },
      )
      | inr e ↦
          let (r, run', ins) = evict_loop-Inserted max_evictions t next item valid h2 home2 f in
          (r, rw (run, e, (tried.full e).0) run', ins)
    ]

-- For a valid table and an item of the table's size and range, Insert returns normally with a valid
-- table of the same sizes; for every test on items, the stored items that pass it, with the item
-- that is handed back, are as many as before with the new item; an item that is handed back has the
-- table's size and range; and the result is true exactly when none is handed back.
pub insert-Inserted :
    (t : Table) (item : Item) → IsValid t → Fits t item → Returns (insert t item) (Inserted t item)
unfolding insert
insert-Inserted t item valid f =
    let rand' : ℕ → ℕ = λ n. t.rand (suc n) in
    let u = with_rand t rand' in
    let u_valid = with_rand-IsValid t rand' valid in
    let u_fits = with_rand-Fits t rand' item f in
    rw (in_range t item f, (==_iff (length item.contents) t.item_size).1 f.size)
      (elim (Bool-cases (t.rand 0 % 2 == 0)) [
        | inl heads ↦ rw heads (
            widen t rand' item (
              insert_at-Inserted u item.bucket1 item.bucket2 item u_valid u_fits f.range1 f.range2
                (inl refl) (inr refl)))
        | inr tails ↦ rw tails (
            widen t rand' item (
              insert_at-Inserted u item.bucket2 item.bucket1 item u_valid u_fits f.range2 f.range1
                (inr refl) (inl refl)))
      ])
  where
    widen :
        (t : Table) (rand : ℕ → ℕ) (item : Item) {m : Outcome (Table × Bool × Option Item)}
        → Returns m (Inserted (with_rand t rand) item)
        → Returns m (Inserted t item)
    widen t rand item (r, run, ins) = (
      r,
      run,
      record {
        after = with_rand-After t rand ins.after;
        balanced = λ p. omega (arith, ins.balanced p, with_rand-stored p t rand);
        back-Fits = λ x same. with_rand-Fits_back t rand (ins.back-Fits x same);
        done_iff = ins.done_iff;
      },
    )

-- An item that does not fit is refused, and nothing changes.
pub insert_refused :
    (t : Table) (item : Item)
    → (out_of_range t item ≡ true) ⊎ (length item.contents ≢ t.item_size)
    → insert t item ≡ ok (t, false, none)
unfolding insert
insert_refused t item (inl e) = rw e
insert_refused t item (inr ne) = elim (Bool-cases (out_of_range t item)) [
  | inl e ↦ rw e
  | inr e ↦ rw (e, other)
]
  where
    other : (length item.contents == t.item_size) ≡ false
    other = ground arith
