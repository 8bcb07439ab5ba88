-- ===== src/Cuckoo/Table/Buckets.antt =====
-- The invariant of a table, and what the writes to one place and to one bucket do to it.
use talek.Base.{
  ℕ, zero, suc, ◌+◌, ◌*◌, ◌≤◌, ◌<◌, ◌≡◌, refl, sym, ap, ◌∙◌, subst, ◌⊎◌, inl, inr, Bool, true,
  false, none, some, List, arith, ℕ_discrete, length, get_or, set, take, drop, copy_at, length-set,
  length-take, length-drop, length-copy_at, get_elem?-get_or, get_or-set_self, get_or-set_ne,
  slice?-eq-some, Returns, ok, Bool-cases, le→leb, to_nat,
}
use talek.Cuckoo.Item.{Item}
use talek.Cuckoo.Table.{
  Table, ItemLocation, empty_location, place, try_insert_places, try_insert_to_bucket, get_item,
  unfill,
}
use talek.Cuckoo.Table.Count.{item_of, weight, count-set, count-set_location, stored}

abbrev pub loc_at : Table → ℕ → ItemLocation
loc_at t i = get_or t.index i empty_location

abbrev pub bytes_at : Table → ℕ → List ℕ
bytes_at t i = take t.item_size (drop (i * t.item_size) t.contents)

-- Place `i` belongs to bucket `b`.
abbrev pub InBucket : ℕ → ℕ → ℕ → Type 0
InBucket depth b i = (b * depth ≤ i) × (i < b * depth + depth)

-- An item may stand at place `i`: its buckets are in range, and one of them holds the place.
abbrev pub Placed : Table → ItemLocation → ℕ → Type 0
Placed t loc i =
    loc.filled ≡ true
    → (loc.bucket1 < t.num_buckets)
      × (loc.bucket2 < t.num_buckets)
      × (InBucket t.bucket_depth loc.bucket1 i ⊎ InBucket t.bucket_depth loc.bucket2 i)

pub record IsValid (t : Table) : Type 0 where
  pub deep : 0 < t.bucket_depth
  pub indexed : length t.index ≡ t.num_buckets * t.bucket_depth
  pub sized : length t.contents ≡ length t.index * t.item_size
  pub placed : (i : ℕ) → i < length t.index → Placed t (loc_at t i) i

-- An item that `Insert` accepts.
pub record Fits (t : Table) (item : Item) : Type 0 where
  pub size : length item.contents ≡ t.item_size
  pub range1 : item.bucket1 < t.num_buckets
  pub range2 : item.bucket2 < t.num_buckets

-- A later state of the same table.
pub record After (t t' : Table) : Type 0 where
  pub valid : IsValid t'
  pub num_buckets : t'.num_buckets ≡ t.num_buckets
  pub bucket_depth : t'.bucket_depth ≡ t.bucket_depth
  pub item_size : t'.item_size ≡ t.item_size

pub After-trans : {t t' t'' : Table} → After t t' → After t' t'' → After t t''
After-trans a b = record {
  valid = b.valid;
  num_buckets = b.num_buckets ∙ a.num_buckets;
  bucket_depth = b.bucket_depth ∙ a.bucket_depth;
  item_size = b.item_size ∙ a.item_size;
}

pub Fits-After : {t t' : Table} {item : Item} → After t t' → Fits t item → Fits t' item
Fits-After a f = record {
  size = f.size ∙ sym a.item_size;
  range1 = omega (arith, f.range1, a.num_buckets);
  range2 = omega (arith, f.range2, a.num_buckets);
}

pub Fits-Before : {t t' : Table} {item : Item} → After t t' → Fits t' item → Fits t item
Fits-Before a f = record {
  size = f.size ∙ a.item_size;
  range1 = omega (arith, f.range1, a.num_buckets);
  range2 = omega (arith, f.range2, a.num_buckets);
}

-- One of the item's buckets is `b`.
abbrev pub Homes : Item → ℕ → Type 0
Homes item b = (item.bucket1 ≡ b) ⊎ (item.bucket2 ≡ b)

module _ (t : Table) (valid : IsValid t) where
  pub bucket-fits : (b i : ℕ) → b < t.num_buckets → InBucket t.bucket_depth b i → i < length t.index
  bucket-fits b i h p = grind (arith, valid.indexed)

  pub cell-fits : (i : ℕ) → i < length t.index → i * t.item_size + t.item_size ≤ length t.contents
  cell-fits i h = grind (arith, valid.sized)

  pub length-bytes_at : (i : ℕ) → i < length t.index → length (bytes_at t i) ≡ t.item_size
  length-bytes_at i h = omega (
    arith,
    cell-fits i h,
    length-take t.item_size (drop (i * t.item_size) t.contents),
    length-drop (i * t.item_size) t.contents,
  )

  -- A write of `loc` at place `i` keeps the invariant if `loc` may stand there.
  set-Placed :
      (i : ℕ) (loc : ItemLocation)
      → i < length t.index
      → Placed t loc i
      → (j : ℕ) → j < length (set t.index i loc)
      → Placed t (get_or (set t.index i loc) j empty_location) j
  set-Placed i loc h p j hj = elim (ℕ_discrete i j) [
    | yes e ↦
        subst (λ k. Placed t (get_or (set t.index i loc) k empty_location) k) e
          (rw (get_or-set_self t.index i loc empty_location h) p)
    | no ne ↦
        rw (get_or-set_ne t.index i j loc empty_location ne)
          (valid.placed j (omega (arith, length-set t.index i loc)))
  ]

  pub place_lem :
      (i b : ℕ) (item : Item)
      → b < t.num_buckets
      → InBucket t.bucket_depth b i
      → Homes item b
      → Fits t item
      → (loc_at t i).filled ≡ false
      → Returns
          (place t i item)
          (λ t'. After t t' × ((p : Item → Bool) → stored p t' ≡ stored p t + to_nat (p item)))
  unfolding place stored
  place_lem i b item hb inside home f free =
      let h = bucket-fits b i hb inside in
      let loc : ItemLocation = record {
        id = item.id;
        filled = true;
        bucket1 = item.bucket1;
        bucket2 = item.bucket2;
      } in
      (
        record t {
          contents = copy_at (i * t.item_size) t.contents item.contents;
          index = set t.index i loc;
        },
        rw (le→leb (i * t.item_size) (length t.contents) (omega (arith, cell-fits i h))),
        (
          record {
            valid = record {
              deep = valid.deep;
              indexed = length-set t.index i loc ∙ valid.indexed;
              sized =
                  length-copy_at (i * t.item_size) t.contents item.contents
                  ∙ valid.sized
                  ∙ ap (λ n. n * t.item_size) (sym (length-set t.index i loc));
              placed = set-Placed i loc h (λ _. (f.range1, f.range2, sides home));
            };
            num_buckets = refl;
            bucket_depth = refl;
            item_size = refl;
          },
          λ p. omega (
            arith,
            count-set p t.item_size t.index t.contents i loc item.contents h f.size (cell-fits i h),
            no_weight p,
          ),
        ),
      )
    where
      sides :
          Homes item b
          → InBucket t.bucket_depth item.bucket1 i ⊎ InBucket t.bucket_depth item.bucket2 i
      sides (inl e) = inl (rw e inside)
      sides (inr e) = inr (rw e inside)

      no_weight : (p : Item → Bool) → weight p (loc_at t i) (bytes_at t i) ≡ 0
      no_weight p = rw free

  pub unfill_lem :
      (i : ℕ)
      → i < length t.index
      → Returns (unfill t i) (λ t'.
        After t t'
        × ((loc_at t' i).filled ≡ false)
        × ((p : Item → Bool) → stored p t' + weight p (loc_at t i) (bytes_at t i) ≡ stored p t))
  unfolding unfill stored
  unfill_lem i h =
      let loc : ItemLocation = record (loc_at t i) { filled = false } in
      (
        record t { index = set t.index i loc },
        rw (get_elem?-get_or t.index i empty_location h),
        (
          record {
            valid = record {
              deep = valid.deep;
              indexed = length-set t.index i loc ∙ valid.indexed;
              sized = valid.sized ∙ ap (λ n. n * t.item_size) (sym (length-set t.index i loc));
              placed = set-Placed i loc h (λ e. cc);
            };
            num_buckets = refl;
            bucket_depth = refl;
            item_size = refl;
          },
          ap (λ (l : ItemLocation). l.filled) (get_or-set_self t.index i loc empty_location h),
          λ p. omega (arith, count-set_location p t.item_size t.index t.contents i loc h),
        ),
      )

  pub get_item_filled :
      (i : ℕ)
      → i < length t.index
      → (loc_at t i).filled ≡ true
      → get_item t i ≡ ok (some (item_of (loc_at t i) (bytes_at t i)))
  unfolding get_item
  get_item_filled i h e = rw (
    get_elem?-get_or t.index i empty_location h,
    e,
    slice?-eq-some t.contents (i * t.item_size) t.item_size (cell-fits i h),
  )

  pub get_item_free :
      (i : ℕ) → i < length t.index → (loc_at t i).filled ≡ false → get_item t i ≡ ok none
  unfolding get_item
  get_item_free i h e = rw (get_elem?-get_or t.index i empty_location h, e)

-- What an attempt to insert into a bucket ends in.
pub record Tried (t : Table) (b : ℕ) (item : Item) (r : Table × Bool) : Type 0 where
  pub after : After t r.0
  pub full :
      r.1 ≡ false → (r.0 ≡ t) × ((j : ℕ) → InBucket t.bucket_depth b j → (loc_at t j).filled ≡ true)
  pub added : r.1 ≡ true → (p : Item → Bool) → stored p r.0 ≡ stored p t + to_nat (p item)

module _ (t : Table) (valid : IsValid t) (b : ℕ) (item : Item) (hb : b < t.num_buckets)
    (home : Homes item b) (f : Fits t item) where
  try_insert_places-Tried :
      (left i : ℕ)
      → i + left ≡ b * t.bucket_depth + t.bucket_depth
      → b * t.bucket_depth ≤ i
      → ((j : ℕ) → b * t.bucket_depth ≤ j → j < i → (loc_at t j).filled ≡ true)
      → Returns (try_insert_places t item left i) (Tried t b item)
  unfolding try_insert_places
  try_insert_places-Tried zero i e lo before = (
    (t, false),
    refl,
    record {
      after = record { valid = valid; num_buckets = refl; bucket_depth = refl; item_size = refl };
      full = λ _. (refl, λ j p. before j p.0 (omega arith));
      added = λ e. cc;
    },
  )
  try_insert_places-Tried (suc left) i e lo before =
      let inside : InBucket t.bucket_depth b i = (lo, omega arith) in
      let h = bucket-fits t valid b i hb inside in
      rw (get_elem?-get_or t.index i empty_location h) (elim (Bool-cases (loc_at t i).filled) [
        | inl taken ↦ rw taken (
            try_insert_places-Tried left (i + 1) (omega arith) (omega arith) (λ j p q.
              elim (ℕ_discrete j i) [ yes e ↦ rw e taken | no ne ↦ before j p (omega arith) ]))
        | inr free ↦
            let (t', run, (after, adds)) = place_lem t valid i b item hb inside home f free in
            rw (free, run)
              ((t', true), refl, record { after = after; full = λ e. cc; added = λ _. adds })
      ])

  -- `tryInsertToBucket` adds the item, or finds every place of the bucket taken.
  pub try_insert_to_bucket-Tried : Returns (try_insert_to_bucket t b item) (Tried t b item)
  unfolding try_insert_to_bucket
  try_insert_to_bucket-Tried =
      try_insert_places-Tried t.bucket_depth (b * t.bucket_depth) refl (omega arith)
        (λ j p q. absurd (omega arith))
