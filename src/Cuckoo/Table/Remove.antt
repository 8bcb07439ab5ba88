-- ===== src/Cuckoo/Table/Remove.antt =====
-- `Remove` takes out one stored item of the given identifier and buckets, if there is one.
use talek.Base.{
  ℕ, zero, suc, ◌+◌, ◌*◌, ◌%◌, ◌≤◌, ◌<◌, ◌≡◌, refl, sym, ap, ◌∙◌, inl, inr, Bool, true, false, none,
  some, List, arith, ℕ_discrete, length, Returns, Outcome, ◌>>=◌, ok, ltb, ◌==◌, if◌then◌else◌,
  Bool-cases, to_nat,
}
use talek.Cuckoo.Item.{Item, equals}
use talek.Cuckoo.Table.{
  Table, ItemLocation, out_of_range, is_at, get_item, remove_from_places, remove_from_bucket,
  remove,
}
use talek.Cuckoo.Table.Count.{item_of, weight, stored}
use talek.Cuckoo.Table.Buckets.{
  loc_at, bytes_at, InBucket, IsValid, After, unfill_lem, get_item_filled, get_item_free,
}
use talek.Cuckoo.Table.Insert.{with_rand, with_rand-IsValid, with_rand-stored, with_rand-After}
use talek.Cuckoo.Table.Lookup.{same_key, hit-stored, miss-stored}

-- `r` is what a removal of `item` from `t` ends in.
pub record Removed (t : Table) (item : Item) (r : Table × Bool) : Type 0 where
  pub after : After t r.0
  pub found_iff : r.1 ≡ ltb 0 (stored (same_key item) t)
  pub taken :
      r.1 ≡ true
      → (e : Item) × (same_key item e ≡ true)
        × ((p : Item → Bool) → stored p r.0 + to_nat (p e) ≡ stored p t)
  pub kept : r.1 ≡ false → (p : Item → Bool) → stored p r.0 ≡ stored p t

-- What a scan of places `i` to `j` for a removal ends in.
record Dropped (t : Table) (item : Item) (i j : ℕ) (r : Table × Bool) : Type 0 where
  pub after : After t r.0
  pub hit :
      r.1 ≡ true
      → (k : ℕ) × (k < length t.index)
        × (is_at (loc_at t k) item ≡ true)
        × ((p : Item → Bool)
            → stored p r.0 + to_nat (p (item_of (loc_at t k) (bytes_at t k))) ≡ stored p t)
  pub miss : r.1 ≡ false → (r.0 ≡ t) × ((k : ℕ) → i ≤ k → k < j → is_at (loc_at t k) item ≡ false)

is_at-free : (loc : ItemLocation) (item : Item) → loc.filled ≡ false → is_at loc item ≡ false
unfolding is_at
is_at-free loc item e = rw e

equals-is_at :
    (loc : ItemLocation) (cell : List ℕ) (item : Item)
    → loc.filled ≡ true
    → equals item (some (item_of loc cell)) ≡ is_at loc item
unfolding is_at equals
equals-is_at loc cell item e = ground arith

module _ (t : Table) (valid : IsValid t) (item : Item) where
  -- The test of the loop, at a place in range.
  held_test :
      (k : ℕ)
      → k < length t.index
      → Returns (get_item t k) (λ held. equals item held ≡ is_at (loc_at t k) item)
  held_test k h = elim (Bool-cases (loc_at t k).filled) [
    | inl e ↦ (
      some (item_of (loc_at t k) (bytes_at t k)),
      get_item_filled t valid k h e,
      equals-is_at (loc_at t k) (bytes_at t k) item e,
    )
    | inr e ↦
        (none, get_item_free t valid k h e, unfold equals in sym (is_at-free (loc_at t k) item e))
  ]

  at_weight :
      (k : ℕ) (p : Item → Bool)
      → is_at (loc_at t k) item ≡ true
      → weight p (loc_at t k) (bytes_at t k) ≡ to_nat (p (item_of (loc_at t k) (bytes_at t k)))
  at_weight k p e = elim (Bool-cases (loc_at t k).filled) [
    | inl taken ↦ rw taken
    | inr free ↦ absurd (clash e (is_at-free (loc_at t k) item free))
  ]
    where
      clash : {b : Bool} → b ≡ true → b ≡ false → ⊥
      clash e e' = cc

  remove_from_places-Dropped :
      (left i j : ℕ)
      → i + left ≡ j
      → j ≤ length t.index
      → Returns (remove_from_places t item left i) (Dropped t item i j)
  unfolding remove_from_places
  remove_from_places-Dropped zero i j e h = (
    (t, false),
    refl,
    record {
      after = record { valid = valid; num_buckets = refl; bucket_depth = refl; item_size = refl };
      hit = λ e. cc;
      miss = λ _. (refl, λ k p q. absurd (omega arith));
    },
  )
  remove_from_places-Dropped (suc left) i j e h =
      let (held, run, test) = held_test i (omega arith) in
      rw (run, test)
        (elim (Bool-cases (is_at (loc_at t i) item)) [
          | inl found ↦
              let (t', run', (after, free, less)) = unfill_lem t valid i (omega arith) in
              rw (found, run')
                (
                  (t', true),
                  refl,
                  record {
                    after = after;
                    hit = λ _.
                        (i, omega arith, found, λ p. omega (arith, less p, at_weight i p found));
                    miss = λ e. cc;
                  },
                )
          | inr other ↦ rw other (
              let (r, run', d) = remove_from_places-Dropped left (i + 1) j (omega arith) h in
              (
                r,
                run',
                record {
                  after = d.after;
                  hit = d.hit;
                  miss = λ e. (
                    (d.miss e).0,
                    λ k p q. elim (ℕ_discrete i k) [
                      | yes same ↦ rw (← same) other
                      | no ne ↦ (d.miss e).1 k (omega arith) q
                    ],
                  );
                },
              ))
        ])

  remove_from_bucket-Dropped :
      (b : ℕ)
      → b < t.num_buckets
      → Returns
          (remove_from_bucket t b item)
          (Dropped t item (b * t.bucket_depth) (b * t.bucket_depth + t.bucket_depth))
  unfolding remove_from_bucket
  remove_from_bucket-Dropped b h =
      remove_from_places-Dropped t.bucket_depth (b * t.bucket_depth)
        (b * t.bucket_depth + t.bucket_depth) refl (grind (arith, valid.indexed))

  -- A scan that hits takes out the item at the place that it found.
  Dropped-Removed :
      (i j : ℕ) (t' : Table) (r : Bool)
      → Dropped t item i j (t', r)
      → r ≡ true
      → Removed t item (t', true)
  Dropped-Removed i j t' r d e =
      let (k, h, at, less) = d.hit e in
      record {
        after = d.after;
        found_iff = sym (hit-stored t item valid k h at);
        taken = λ _. (item_of (loc_at t k) (bytes_at t k), key k at, less);
        kept = λ e. cc;
      }
    where
      key :
          (k : ℕ)
          → is_at (loc_at t k) item ≡ true
          → same_key item (item_of (loc_at t k) (bytes_at t k)) ≡ true
      key k at = elim (Bool-cases (loc_at t k).filled) [
        | inl taken ↦ equals-is_at (loc_at t k) (bytes_at t k) item taken ∙ at
        | inr free ↦ absurd (clash at (is_at-free (loc_at t k) item free))
      ]
        where
          clash : {b : Bool} → b ≡ true → b ≡ false → ⊥
          clash e e' = cc

-- The two scans of `Remove`, in the order that the coin chose.
remove_at-Removed :
    (t : Table) (item : Item) (first next : ℕ)
    → IsValid t
    → first < t.num_buckets
    → next < t.num_buckets
    → (((k : ℕ) → InBucket t.bucket_depth first k → is_at (loc_at t k) item ≡ false)
        → ((k : ℕ) → InBucket t.bucket_depth next k → is_at (loc_at t k) item ≡ false)
        → ltb 0 (stored (same_key item) t) ≡ false)
    → Returns
        (remove_from_bucket t first item >>= λ (t', result).
          if result then ok (t', true) else remove_from_bucket t' next item)
        (Removed t item)
remove_at-Removed t item first next valid h1 h2 missing =
    let ((t', r), run, d) = remove_from_bucket-Dropped t valid item first h1 in
    let ((t'', r'), run', d') = remove_from_bucket-Dropped t valid item next h2 in
    elim (Bool-cases r) [
      | inl e ↦ ((t', true), rw (run, e), Dropped-Removed t valid item _ _ t' r d e)
      | inr e ↦ elim (Bool-cases r') [
        | inl e' ↦ (
          (t'', true),
          rw (run, e, (d.miss e).0) (run' ∙ ap (λ b. ok (t'', b)) e'),
          Dropped-Removed t valid item _ _ t'' r' d' e',
        )
        | inr e' ↦ (
          (t'', false),
          rw (run, e, (d.miss e).0) (run' ∙ ap (λ b. ok (t'', b)) e'),
          record {
            after = d'.after;
            found_iff =
                sym (missing (λ k p. (d.miss e).1 k p.0 p.1) (λ k p. (d'.miss e').1 k p.0 p.1));
            taken = λ e. cc;
            kept = λ _ p. ap (stored p) (d'.miss e').0;
          },
        )
      ]
    ]

-- For a valid table and an item whose buckets are in range, Remove returns normally with a valid
-- table of the same sizes; the result is true exactly when an item with the same key was stored; if
-- so, exactly one such item is gone, and if not, none is.
pub remove-Removed :
    (t : Table) (item : Item)
    → IsValid t
    → item.bucket1 < t.num_buckets
    → item.bucket2 < t.num_buckets
    → Returns (remove t item) (Removed t item)
unfolding remove
remove-Removed t item valid h1 h2 =
    let rand' : ℕ → ℕ = λ n. t.rand (suc n) in
    let u = with_rand t rand' in
    let u_valid = with_rand-IsValid t rand' valid in
    rw inside (elim (Bool-cases (t.rand 0 % 2 == 0)) [
      | inl heads ↦ rw heads (
          widen rand' (
            remove_at-Removed u item item.bucket1 item.bucket2 u_valid h1 h2
              (λ m1 m2. miss-stored u item u_valid m1 m2)))
      | inr tails ↦ rw tails (
          widen rand' (
            remove_at-Removed u item item.bucket2 item.bucket1 u_valid h2 h1
              (λ m2 m1. miss-stored u item u_valid m1 m2)))
    ])
  where
    inside : out_of_range t item ≡ false
    inside = ground (arith, h1, h2)

    widen :
        (rand : ℕ → ℕ) {m : Outcome (Table × Bool)}
        → Returns m (Removed (with_rand t rand) item)
        → Returns m (Removed t item)
    widen rand (r, run, x) = (
      r,
      run,
      record {
        after = with_rand-After t rand x.after;
        found_iff = x.found_iff ∙ ap (ltb 0) (with_rand-stored (same_key item) t rand);
        taken = λ e.
            let (i, key, less) = x.taken e in (i, key, λ p. less p ∙ with_rand-stored p t rand);
        kept = λ e p. x.kept e p ∙ with_rand-stored p t rand;
      },
    )
