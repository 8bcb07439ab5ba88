-- ===== src/Cuckoo/Table/Lookup.antt =====
-- `Contains` against the stored items, and a lookup after an insertion.
use talek.Base.{
  ℕ, zero, suc, ◌+◌, ◌*◌, ◌≤◌, ◌<◌, ◌≡◌, refl, sym, ap, ◌∙◌, subst, ◌⊎◌, inl, inr, Bool, true,
  false, none, some, List, arith, ℕ_discrete, length, get_elem?-get_or, Returns, ok_injective, ok,
  ltb, ltb→lt, lt→ltb, ==_refl, Bool-cases, to_nat,
}
use native.Mathlib.Nat.{mul_comm}
use talek.Cuckoo.Item.{Item, equals}
use talek.Cuckoo.Table.{
  Table, ItemLocation, empty_location, out_of_range, is_at, is_in_places, is_in_bucket, contains,
  insert,
}
use talek.Cuckoo.Table.Count.{weight, place_of_count, weight-le-count, stored}
use talek.Cuckoo.Table.Buckets.{loc_at, bytes_at, InBucket, IsValid, Fits, Fits-After}
use talek.Cuckoo.Table.Insert.{Inserted, insert-Inserted}

-- The items that a lookup for `item` takes for it: same identifier and buckets.
abbrev pub same_key : Item → Item → Bool
same_key item i = equals item (some i)

is_at-weight :
    (loc : ItemLocation) (item : Item) (cell : List ℕ)
    → weight (same_key item) loc cell ≡ to_nat (is_at loc item)
unfolding is_at equals
is_at-weight loc item cell = ground arith

is_at-filled : (loc : ItemLocation) (item : Item) → is_at loc item ≡ true → loc.filled ≡ true
unfolding is_at
is_at-filled loc item h = ground arith

is_at-buckets :
    (loc : ItemLocation) (item : Item)
    → is_at loc item ≡ true
    → (loc.bucket1 ≡ item.bucket1) × (loc.bucket2 ≡ item.bucket2)
unfolding is_at
is_at-buckets loc item h = (ground arith, ground arith)

module _ (t : Table) (item : Item) where
  -- What a scan of places `i` to `j` finds.
  record Scanned (i j : ℕ) (found : Bool) : Type 0 where
    pub hit : found ≡ true → (k : ℕ) × (k < length t.index) × (is_at (loc_at t k) item ≡ true)
    pub miss : found ≡ false → (k : ℕ) → i ≤ k → k < j → is_at (loc_at t k) item ≡ false

  is_in_places-Scanned :
      (left i j : ℕ)
      → i + left ≡ j
      → j ≤ length t.index
      → Returns (is_in_places t item left i) (Scanned i j)
  unfolding is_in_places
  is_in_places-Scanned zero i j e h =
      (false, refl, record { hit = λ e. cc; miss = λ _ k p q. absurd (omega arith) })
  is_in_places-Scanned (suc left) i j e h =
      rw (get_elem?-get_or t.index i empty_location (omega arith))
        (elim (Bool-cases (is_at (loc_at t i) item)) [
          | inl found ↦
              rw found (true, refl, record { hit = λ _. (i, omega arith, found); miss = λ e. cc })
          | inr other ↦ rw other (
              let (b, run, s) = is_in_places-Scanned left (i + 1) j (omega arith) h in
              (
                b,
                run,
                record {
                  hit = s.hit;
                  miss = λ e k p q. elim (ℕ_discrete i k) [
                    | yes same ↦ rw (← same) other
                    | no ne ↦ s.miss e k (omega arith) q
                  ];
                },
              ))
        ])

  module _ (valid : IsValid t) where
    is_in_bucket-Scanned :
        (b : ℕ)
        → b < t.num_buckets
        → Returns
            (is_in_bucket t b item)
            (Scanned (b * t.bucket_depth) (b * t.bucket_depth + t.bucket_depth))
    unfolding is_in_bucket
    is_in_bucket-Scanned b h = rw (mul_comm t.bucket_depth b) (
        is_in_places-Scanned t.bucket_depth (b * t.bucket_depth)
          (b * t.bucket_depth + t.bucket_depth) refl (grind (arith, valid.indexed)))

    pub hit-stored :
        (k : ℕ)
        → k < length t.index
        → is_at (loc_at t k) item ≡ true
        → ltb 0 (stored (same_key item) t) ≡ true
    unfolding stored
    hit-stored k h e = lt→ltb 0 (stored (same_key item) t) (
        omega (
          arith,
          weight-le-count (same_key item) t.item_size t.index t.contents k h,
          is_at-weight (loc_at t k) item (bytes_at t k),
          ap to_nat e,
        ))

    pub miss-stored :
        ((k : ℕ) → InBucket t.bucket_depth item.bucket1 k → is_at (loc_at t k) item ≡ false)
        → ((k : ℕ) → InBucket t.bucket_depth item.bucket2 k → is_at (loc_at t k) item ≡ false)
        → ltb 0 (stored (same_key item) t) ≡ false
    unfolding stored
    miss-stored miss1 miss2 = elim (Bool-cases (ltb 0 (stored (same_key item) t))) [
      | inr e ↦ e
      | inl e ↦
          let (k, h, w) =
            place_of_count (same_key item) t.item_size t.index t.contents (ltb→lt 0 _ e) in
          let found : is_at (loc_at t k) item ≡ true =
            of_weight (is_at (loc_at t k) item)
              (sym (is_at-weight (loc_at t k) item (bytes_at t k)) ∙ w) in
          let keys = is_at-buckets (loc_at t k) item found in
          let side = valid.placed k h (is_at-filled (loc_at t k) item found) in
          absurd (clash k keys side.2 found)
    ]
      where
        of_weight : (b : Bool) → to_nat b ≡ 1 → b ≡ true
        of_weight true e = refl
        of_weight false e = absurd (omega arith)

        differ : {b : Bool} → b ≡ true → b ≡ false → ⊥
        differ e e' = cc

        clash :
            (k : ℕ)
            → ((loc_at t k).bucket1 ≡ item.bucket1) × ((loc_at t k).bucket2 ≡ item.bucket2)
            → InBucket t.bucket_depth (loc_at t k).bucket1 k
              ⊎ InBucket t.bucket_depth (loc_at t k).bucket2 k
            → is_at (loc_at t k) item ≡ true
            → ⊥
        clash k keys (inl p) found =
            differ found (miss1 k (subst (λ b. InBucket t.bucket_depth b k) keys.0 p))
        clash k keys (inr p) found =
            differ found (miss2 k (subst (λ b. InBucket t.bucket_depth b k) keys.1 p))

    -- For a valid table and an item whose buckets are in range, Contains returns true exactly when
    -- an item with the same key is stored.
    pub contains-stored :
        item.bucket1 < t.num_buckets
        → item.bucket2 < t.num_buckets
        → contains t item ≡ ok (ltb 0 (stored (same_key item) t))
    unfolding contains
    contains-stored h1 h2 =
        let (first, run1, s1) = is_in_bucket-Scanned item.bucket1 h1 in
        let (second, run2, s2) = is_in_bucket-Scanned item.bucket2 h2 in
        rw (inside, run1)
          (elim (Bool-cases first) [
            | inl e ↦ let (k, h, at) = s1.hit e in rw (e, hit-stored k h at)
            | inr e ↦
                rw (e, run2)
                  (elim (Bool-cases second) [
                    | inl e' ↦ let (k, h, at) = s2.hit e' in rw (e', hit-stored k h at)
                    | inr e' ↦
                        rw (
                          e',
                          miss-stored (λ k p. s1.miss e k p.0 p.1) (λ k p. s2.miss e' k p.0 p.1),
                        )
                  ])
          ])
      where
        inside : out_of_range t item ≡ false
        inside = ground (arith, h1, h2)

pub same_key_refl : (item : Item) → same_key item item ≡ true
unfolding equals
same_key_refl item = rw (==_refl item.bucket1, ==_refl item.bucket2, ==_refl item.id)

-- After an Insert of a fitting item into a valid table that hands nothing back, the table contains
-- the item.
pub contains-insert :
    (t : Table) (item : Item) (t' : Table)
    → IsValid t
    → Fits t item
    → insert t item ≡ ok (t', true, none)
    → contains t' item ≡ ok true
contains-insert t item t' valid f done =
    let (r, run, ins) = insert-Inserted t item valid f in
    let same : r ≡ (t', true, none) = ok_injective (sym run ∙ done) in
    let ins' = subst (Inserted t item) same ins in
    let f' = Fits-After ins'.after f in
    contains-stored t' item ins'.after.valid f'.range1 f'.range2
    ∙ ap ok (
        lt→ltb 0 (stored (same_key item) t')
          (omega (arith, ins'.balanced (same_key item), ap to_nat (same_key_refl item))))
