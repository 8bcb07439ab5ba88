-- ===== src/Cuckoo/Table/Fresh.antt =====
-- `NewTable`, and how full a table is.
use talek.Base.{
  ℕ, zero, suc, ◌*◌, ◌≤◌, ◌<◌, ◌≡◌, refl, sym, ap, ◌∙◌, Bool, true, false, some, List, [], ◌∷◌,
  arith, length, drop, replicate, length-replicate, get_or-replicate, ==_iff,
}
use talek.Cuckoo.Item.{Item}
use talek.Cuckoo.Table.{
  Table, ItemLocation, empty_location, new_table, get_capacity, get_num_elements, count_filled,
}
use talek.Cuckoo.Table.Count.{count, stored}
use talek.Cuckoo.Table.Buckets.{IsValid}

module _ (p : Item → Bool) (size : ℕ) where
  count-empty : (n : ℕ) (cells : List ℕ) → count p size (replicate n empty_location) cells ≡ 0
  unfolding count
  count-empty zero cells = refl
  count-empty (suc n) cells = omega (arith, count-empty n (drop size cells))

  count-le-filled :
      (locs : List ItemLocation) (cells : List ℕ) → count p size locs cells ≤ count_filled locs
  unfolding count count_filled
  count-le-filled [] cells = omega arith
  count-le-filled (l ∷ locs) cells = ground (arith, count-le-filled locs (drop size cells))

count_filled-le : (locs : List ItemLocation) → count_filled locs ≤ length locs
unfolding count_filled
count_filled-le [] = omega arith
count_filled-le (l ∷ locs) = ground (arith, count_filled-le locs)

count_all :
    (size : ℕ) (locs : List ItemLocation) (cells : List ℕ)
    → count (λ _. true) size locs cells ≡ count_filled locs
unfolding count count_filled
count_all size [] cells = refl
count_all size (l ∷ locs) cells = ground (arith, count_all size locs (drop size cells))

-- NewTable on a memory area of the right size, with a positive bucket depth, gives a valid table
-- with nothing stored.
pub new_table-IsValid :
    (num_buckets bucket_depth item_size : ℕ) (area : List ℕ) (rand : ℕ → ℕ)
    → 0 < bucket_depth
    → length area ≡ num_buckets * bucket_depth * item_size
    → (t : Table) × (new_table num_buckets bucket_depth item_size (some area) rand ≡ some t)
      × IsValid t
      × (t.num_buckets ≡ num_buckets)
      × (t.bucket_depth ≡ bucket_depth)
      × (t.item_size ≡ item_size)
      × ((p : Item → Bool) → stored p t ≡ 0)
unfolding new_table stored
new_table-IsValid num_buckets bucket_depth item_size area rand deep size = (
  record {
    num_buckets = num_buckets;
    bucket_depth = bucket_depth;
    item_size = item_size;
    contents = area;
    rand = rand;
    index = replicate (num_buckets * bucket_depth) empty_location;
  },
  rw ((==_iff (length area) (num_buckets * bucket_depth * item_size)).1 size),
  record {
    deep = deep;
    indexed = length-replicate (num_buckets * bucket_depth) empty_location;
    sized =
        size
        ∙ ap (λ (n : ℕ). n * item_size)
            (sym (length-replicate (num_buckets * bucket_depth) empty_location));
    placed = λ i h filled.
        absurd (
          no_item i
            (rw (get_or-replicate (num_buckets * bucket_depth) i empty_location) at filled));
  },
  refl,
  refl,
  refl,
  λ p. count-empty p item_size (num_buckets * bucket_depth) area,
)
  where
    no_item : ℕ → false ≡ true → ⊥
    no_item i e = cc

-- In a valid table the number of elements is at most the capacity, no test on items passes for more
-- stored items, and it is the number of stored items.
pub get_num_elements-le :
    (t : Table)
    → IsValid t
    → (get_num_elements t ≤ get_capacity t)
      × ((p : Item → Bool) → stored p t ≤ get_num_elements t)
      × (stored (λ _. true) t ≡ get_num_elements t)
unfolding get_num_elements get_capacity stored
get_num_elements-le t valid = (
  omega (arith, count_filled-le t.index, valid.indexed),
  λ p. count-le-filled p t.item_size t.index t.contents,
  count_all t.item_size t.index t.contents,
)
