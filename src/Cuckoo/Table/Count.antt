-- ===== src/Cuckoo/Table/Count.antt =====
-- The items that a table stores, as a multiset: for each test on items, how many pass it.
use talek.Base.{
  ℕ, zero, suc, ◌+◌, ◌*◌, ◌≤◌, ◌<◌, ◌≡◌, sym, ap, ◌∙◌, Bool, Option, none, some, List, [], ◌∷◌,
  arith, ℕ_discrete, length, get_or, set, take, drop, copy_at, length-drop, take-copy_at,
  drop-copy_at, drop-drop, take-copy, drop-copy, if◌then◌else◌, to_nat,
}
use talek.Cuckoo.Item.{Item}
use talek.Cuckoo.Table.{Table, ItemLocation, empty_location}

abbrev pub item_of : ItemLocation → List ℕ → Item
item_of loc cell = record {
  id = loc.id;
  contents = cell;
  bucket1 = loc.bucket1;
  bucket2 = loc.bucket2;
}

-- Whether a place counts: it is filled, and its item passes.
abbrev pub weight : (Item → Bool) → ItemLocation → List ℕ → ℕ
weight p loc cell = if loc.filled then to_nat (p (item_of loc cell)) else 0

module _ (p : Item → Bool) (size : ℕ) where
  unfoldable pub count : List ItemLocation → List ℕ → ℕ
  count [] cells = 0
  count (loc ∷ locs) cells = weight p loc (take size cells) + count locs (drop size cells)

  -- The bytes of place `i`.
  abbrev cell_at : List ℕ → ℕ → List ℕ
  cell_at cells i = take size (drop (i * size) cells)

  cell_at-suc : (cells : List ℕ) (i : ℕ) → cell_at cells (suc i) ≡ cell_at (drop size cells) i
  cell_at-suc cells i =
      ap (λ (n : ℕ). take size (drop n cells)) {y = size + i * size} (omega arith)
      ∙ ap (take size) (sym (drop-drop size (i * size) cells))

  -- Writing a place and its bytes exchanges one weight for another.
  pub count-set :
      (locs : List ItemLocation) (cells : List ℕ) (i : ℕ) (loc : ItemLocation) (cell : List ℕ)
      → i < length locs
      → length cell ≡ size
      → i * size + size ≤ length cells
      → count (set locs i loc) (copy_at (i * size) cells cell)
          + weight p (get_or locs i empty_location) (take size (drop (i * size) cells))
        ≡ count locs cells + weight p loc cell
  unfolding count
  count-set [] cells i loc cell h e fits = absurd (omega arith)
  count-set (l ∷ locs) cells zero loc cell h e fits =
      rw (zero_mul, take-copy size cells cell e (omega arith), drop-copy size cells cell e)
        (omega arith)
    where
      zero_mul : 0 * size ≡ 0
      zero_mul = omega arith
  count-set (l ∷ locs) cells (suc i) loc cell h e fits =
      rw
        (
          suc_mul,
          take-copy_at size (i * size) cells cell,
          drop-copy_at size (i * size) cells cell,
          sym (drop-drop size (i * size) cells),
        )
        (omega (
          arith,
          count-set locs (drop size cells) i loc cell (omega arith) e
              (omega (arith, length-drop size cells)),
        ))
    where
      suc_mul : suc i * size ≡ size + i * size
      suc_mul = omega arith

  -- Writing the metadata of a place alone.
  pub count-set_location :
      (locs : List ItemLocation) (cells : List ℕ) (i : ℕ) (loc : ItemLocation)
      → i < length locs
      → count (set locs i loc) cells
          + weight p (get_or locs i empty_location) (take size (drop (i * size) cells))
        ≡ count locs cells + weight p loc (take size (drop (i * size) cells))
  unfolding count
  count-set_location [] cells i loc h = absurd (omega arith)
  count-set_location (l ∷ locs) cells zero loc h = rw zero_mul (omega arith)
    where
      zero_mul : 0 * size ≡ 0
      zero_mul = omega arith
  count-set_location (l ∷ locs) cells (suc i) loc h =
      rw (suc_mul, sym (drop-drop size (i * size) cells))
        (omega (arith, count-set_location locs (drop size cells) i loc (omega arith)))
    where
      suc_mul : suc i * size ≡ size + i * size
      suc_mul = omega arith

  -- A positive count has a place.
  pub place_of_count :
      (locs : List ItemLocation) (cells : List ℕ)
      → 0 < count locs cells
      → (i : ℕ) × (i < length locs)
        × (weight p (get_or locs i empty_location) (take size (drop (i * size) cells)) ≡ 1)
  unfolding count
  place_of_count [] cells h = absurd (omega arith)
  place_of_count (l ∷ locs) cells h = elim (ℕ_discrete (weight p l (take size cells)) 1) [
    | yes e ↦ (0, omega arith, rw zero_mul e)
    | no ne ↦
        let (i, lt, e) =
          place_of_count locs (drop size cells)
            (omega (arith, weight-le-one l (take size cells))) in
        (suc i, omega arith, rw (cell_at-suc cells i) e)
  ]
    where
      zero_mul : 0 * size ≡ 0
      zero_mul = omega arith

      weight-le-one : (l : ItemLocation) (cell : List ℕ) → weight p l cell ≤ 1
      weight-le-one l cell = ground arith

  -- Each place is in the count.
  pub weight-le-count :
      (locs : List ItemLocation) (cells : List ℕ) (i : ℕ)
      → i < length locs
      → weight p (get_or locs i empty_location) (take size (drop (i * size) cells))
        ≤ count locs cells
  unfolding count
  weight-le-count [] cells i h = absurd (omega arith)
  weight-le-count (l ∷ locs) cells zero h = rw zero_mul (omega arith)
    where
      zero_mul : 0 * size ≡ 0
      zero_mul = omega arith
  weight-le-count (l ∷ locs) cells (suc i) h =
      rw (cell_at-suc cells i)
        (omega (arith, weight-le-count locs (drop size cells) i (omega arith)))

-- How many of a table's items pass a test.
unfoldable pub stored : (Item → Bool) → Table → ℕ
unfolding count
stored p t = count p t.item_size t.index t.contents

abbrev pub passes : (Item → Bool) → Option Item → ℕ
passes p none = 0
passes p (some i) = to_nat (p i)
