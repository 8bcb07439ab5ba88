-- ===== src/Coordinator/Tracking.antt =====
-- Commit of server/coordinator/server.go: the cuckoo table holds the items of the commit log.
use talek.Base.{
  ℕ, ◌+◌, ◌%◌, ◌^◌, ◌≤◌, ◌<◌, ◌≡◌, refl, sym, ap, ap₂, ◌∙◌, inl, inr, Bool, true, false, not, ◌&&◌,
  List, [], ◌∷◌, arith, All, length, replicate, ok, err, panic, ◌==◌, ==_iff, ==_refl, Bool-cases,
  to_nat, put_uvarint, put_uvarint-Returns,
}
use talek.Cuckoo.Item.{Item, equals}
use talek.Cuckoo.Table.{Table}
use talek.Cuckoo.Table.Count.{stored}
use talek.Cuckoo.Table.Buckets.{IsValid, Fits}
use talek.Cuckoo.Table.Lookup.{same_key}
use talek.Coordinator.{CommitArgs, Config, id_size, as_cuckoo_item}

-- The bytes of an ID in the table.
unfoldable pub id_bytes : ℕ → List ℕ
id_bytes id = elim (put_uvarint (replicate id_size 0) id) [
  | ok bytes ↦ bytes
  | err _ ↦ []
  | panic ↦ []
]

-- The item of a commit.
unfoldable pub item_for : ℕ → CommitArgs → Item
item_for num_buckets c = record {
  id = c.id;
  contents = id_bytes c.id;
  bucket1 = c.bucket1 % num_buckets;
  bucket2 = c.bucket2 % num_buckets;
}

id_bytes_lem :
    (id : ℕ)
    → id < 2 ^ 64
    → (put_uvarint (replicate id_size 0) id ≡ ok (id_bytes id)) × (length (id_bytes id) ≡ id_size)
unfolding id_bytes
id_bytes_lem id small =
    let (bytes, run, long) =
      put_uvarint-Returns (replicate id_size 0) id (omega arith) (omega arith) in
    let same : id_bytes id ≡ bytes = ap (λ o. elim o [ ok b ↦ b | err _ ↦ [] | panic ↦ [] ]) run in
    (run ∙ ap ok (sym same), ap length same ∙ long)

pub as_cuckoo_item-item_for :
    (num_buckets : ℕ) (c : CommitArgs)
    → 0 < num_buckets
    → c.id < 2 ^ 64
    → as_cuckoo_item num_buckets c ≡ ok (item_for num_buckets c)
unfolding as_cuckoo_item item_for
as_cuckoo_item-item_for num_buckets c some_buckets small =
    rw ((id_bytes_lem c.id small).0, not_zero)
  where
    not_zero : (num_buckets == 0) ≡ false
    not_zero = ground arith

-- How many items of the log pass a test.
unfoldable pub logged : (Item → Bool) → ℕ → List CommitArgs → ℕ
logged p num_buckets [] = 0
logged p num_buckets (c ∷ cs) = to_nat (p (item_for num_buckets c)) + logged p num_buckets cs

-- The table holds the items of the log, each as often as it is logged.
pub record Agrees (config : Config) (table : Table) (log : List CommitArgs) : Type 0 where
  pub valid : IsValid table
  pub same_buckets : table.num_buckets ≡ config.num_buckets
  pub same_depth : table.bucket_depth ≡ config.bucket_depth
  pub id_sized : table.item_size ≡ id_size
  pub same_items : (p : Item → Bool) → stored p table ≡ logged p config.num_buckets log
  pub ids : All (λ c. c.id < 2 ^ 64) log

pub item_for-Fits :
    (config : Config) (table : Table) (log : List CommitArgs) (c : CommitArgs)
    → Agrees config table log
    → 0 < config.num_buckets
    → c.id < 2 ^ 64
    → Fits table (item_for config.num_buckets c)
unfolding item_for
item_for-Fits config table log c a some_buckets small = record {
  size = (id_bytes_lem c.id small).1 ∙ sym a.id_sized;
  range1 = omega (arith, a.same_buckets);
  range2 = omega (arith, a.same_buckets);
}

-- An item whose bytes are not those of its ID.
same_bytes : List ℕ → List ℕ → Bool
same_bytes [] [] = true
same_bytes [] (y ∷ ys) = false
same_bytes (x ∷ xs) [] = false
same_bytes (x ∷ xs) (y ∷ ys) = (x == y) && same_bytes xs ys

same_bytes_refl : (xs : List ℕ) → same_bytes xs xs ≡ true
unfolding same_bytes
same_bytes_refl [] = refl
same_bytes_refl (x ∷ xs) = rw (==_refl x, same_bytes_refl xs)

same_bytes→eq : (xs ys : List ℕ) → same_bytes xs ys ≡ true → xs ≡ ys
unfolding same_bytes
same_bytes→eq [] [] h = refl
same_bytes→eq [] (y ∷ ys) h = cc
same_bytes→eq (x ∷ xs) [] h = cc
same_bytes→eq (x ∷ xs) (y ∷ ys) h = elim (Bool-cases (x == y)) [
  | inl e ↦ ap₂ (λ z zs. z ∷ zs) ((==_iff x y).0 e) (same_bytes→eq xs ys (rw e at h))
  | inr e ↦ absurd (no_way e h)
]
  where
    no_way : (x == y) ≡ false → ((x == y) && same_bytes xs ys) ≡ true → ⊥
    no_way e h = let h' : false ≡ true = rw e at h in cc

is_odd : Item → Bool
is_odd i = not (same_bytes i.contents (id_bytes i.id))

logged-is_odd : (num_buckets : ℕ) (log : List CommitArgs) → logged is_odd num_buckets log ≡ 0
unfolding logged is_odd item_for
logged-is_odd num_buckets [] = refl
logged-is_odd num_buckets (c ∷ cs) =
    rw (same_bytes_refl (id_bytes c.id)) (omega (arith, logged-is_odd num_buckets cs))

item_ext :
    (i e : Item)
    → e.id ≡ i.id
    → e.contents ≡ i.contents
    → e.bucket1 ≡ i.bucket1
    → e.bucket2 ≡ i.bucket2
    → e ≡ i
item_ext i e h k l m =
    ap₂ (λ (id : ℕ) (c : List ℕ). let r : Item = record e { id = id; contents = c } in r) h k
    ∙ ap₂ (λ (b1 b2 : ℕ). let r : Item = record i { bucket1 = b1; bucket2 = b2 } in r) l m

same_key-fields :
    (i e : Item)
    → same_key i e ≡ true
    → (e.id ≡ i.id) × (e.bucket1 ≡ i.bucket1) × (e.bucket2 ≡ i.bucket2)
unfolding equals
same_key-fields i e h = (ground arith, ground arith, ground arith)

not_odd : (b : Bool) → to_nat (not b) ≡ 0 → b ≡ true
not_odd true h = refl
not_odd false h = absurd (omega arith)

-- A stored item with the key of a commit is the commit's item.
pub same_key-logged :
    (config : Config) (table : Table) (log : List CommitArgs) (c : CommitArgs) (e : Item)
    → Agrees config table log
    → ((p : Item → Bool) → to_nat (p e) ≤ stored p table)
    → same_key (item_for config.num_buckets c) e ≡ true
    → e ≡ item_for config.num_buckets c
unfolding item_for is_odd
same_key-logged config table log c e a is_stored same =
    let odd_none : to_nat (is_odd e) ≡ 0 =
      omega (arith, is_stored is_odd, a.same_items is_odd, logged-is_odd config.num_buckets log) in
    let (same_id, same1, same2) = same_key-fields (item_for config.num_buckets c) e same in
    let same_contents =
      same_bytes→eq e.contents (id_bytes e.id)
        (not_odd (same_bytes e.contents (id_bytes e.id)) odd_none) in
    item_ext (item_for config.num_buckets c) e same_id (same_contents ∙ ap id_bytes same_id) same1
      same2
