-- ===== src/Cuckoo/Item.antt =====
-- cuckoo/item.go. The field `contents` is the source's `Data`.
use talek.Base.{
  ℕ, ◌≡◌, ap, Bool, false, ◌&&◌, Option, none, some, List, length, replicate, copy,
  length-replicate, copy-same_length, ◌==◌,
}

pub record Item : Type 0 where
  pub id : ℕ
  pub contents : List ℕ
  pub bucket1 : ℕ
  pub bucket2 : ℕ

-- `Copy`: a fresh slice of the same length, filled by `copy`.
unfoldable pub copy_item : Item → Item
copy_item i = record {
  id = i.id;
  contents = copy (replicate (length i.contents) 0) i.contents;
  bucket1 = i.bucket1;
  bucket2 = i.bucket2;
}

-- `Equals`; none is a nil pointer.
unfoldable pub equals : Item → Option Item → Bool
equals i none = false
equals i (some other) =
    i.bucket1 == other.bucket1 && (i.bucket2 == other.bucket2 && i.id == other.id)

-- A copy has the fields of the original, bytes included.
pub copy_item_lem : (i : Item) → copy_item i ≡ i
unfolding copy_item
copy_item_lem i =
    ap (λ (c : List ℕ). let r : Item = record i { contents = c } in r)
      (copy-same_length (replicate (length i.contents) 0) i.contents
        (length-replicate (length i.contents) 0))
