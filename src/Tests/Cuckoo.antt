-- ===== src/Tests/Cuckoo.antt =====
-- A table of two buckets of one item of two bytes.
use talek.Base.{
  ℕ, zero, suc, ◌≤◌, ◌≡◌, refl, Bool, true, none, some, List, [], ◌∷◌, arith, get_or, Returns, ok,
  ltb,
}
use talek.Cuckoo.Item.{Item}
use talek.Cuckoo.Table.{
  Table, empty_location, new_table, contains, insert, remove, evict_loop, get_num_elements,
  get_capacity,
}
use talek.Cuckoo.Table.Count.{stored}
use talek.Cuckoo.Table.Buckets.{IsValid, Fits}
use talek.Cuckoo.Table.Insert.{Inserted, insert-Inserted}
use talek.Cuckoo.Table.Lookup.{same_key, contains-stored, contains-insert}
use talek.Cuckoo.Table.Remove.{Removed, remove-Removed}
use talek.Cuckoo.Table.Fresh.{new_table-IsValid, get_num_elements-le}

abbrev pub area : List ℕ
area = 0 ∷ 0 ∷ 0 ∷ 0 ∷ []

abbrev pub coins : ℕ → ℕ
coins i = i

abbrev pub empty : Table
empty = record {
  num_buckets = 2;
  bucket_depth = 1;
  item_size = 2;
  contents = area;
  rand = coins;
  index = empty_location ∷ empty_location ∷ [];
}

new_table-IsValid_example :
    (t : Table) × (new_table 2 1 2 (some area) coins ≡ some t)
    × IsValid t
    × (t.num_buckets ≡ 2)
    × (t.bucket_depth ≡ 1)
    × (t.item_size ≡ 2)
    × ((p : Item → Bool) → stored p t ≡ 0)
new_table-IsValid_example = new_table-IsValid 2 1 2 area coins (omega arith) refl

no_item : (i : ℕ) → (get_or empty.index i empty_location).filled ≡ true → ⊥
no_item zero e = cc
no_item (suc zero) e = cc
no_item (suc (suc i)) e = cc

pub empty-IsValid : IsValid empty
empty-IsValid = record {
  deep = omega arith;
  indexed = refl;
  sized = refl;
  placed = λ i h filled. absurd (no_item i filled);
}

abbrev letter : Item
letter = record { id = 7; contents = 65 ∷ 66 ∷ []; bucket1 = 0; bucket2 = 1 }

letter-Fits : Fits empty letter
letter-Fits = record { size = refl; range1 = omega arith; range2 = omega arith }

insert-Inserted_example : Returns (insert empty letter) (Inserted empty letter)
insert-Inserted_example = insert-Inserted empty letter empty-IsValid letter-Fits

remove-Removed_example : Returns (remove empty letter) (Removed empty letter)
remove-Removed_example = remove-Removed empty letter empty-IsValid (omega arith) (omega arith)

contains-stored_example : contains empty letter ≡ ok (ltb 0 (stored (same_key letter) empty))
contains-stored_example = contains-stored empty letter empty-IsValid (omega arith) (omega arith)

get_num_elements-le_example :
    (get_num_elements empty ≤ get_capacity empty)
    × ((p : Item → Bool) → stored p empty ≤ get_num_elements empty)
    × (stored (λ _. true) empty ≡ get_num_elements empty)
get_num_elements-le_example = get_num_elements-le empty empty-IsValid

-- The first draw is even, so the item goes to its first bucket.
abbrev one_letter : Table
one_letter = record empty {
  contents = 65 ∷ 66 ∷ 0 ∷ 0 ∷ [];
  rand = λ n. suc n;
  index = record { id = 7; filled = true; bucket1 = 0; bucket2 = 1 } ∷ empty_location ∷ [];
}

insert-letter : insert empty letter ≡ ok (one_letter, true, none)
unfolding insert evict_loop
insert-letter = refl

contains-insert_example : contains one_letter letter ≡ ok true
contains-insert_example =
    contains-insert empty letter one_letter empty-IsValid letter-Fits insert-letter
