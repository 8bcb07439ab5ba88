-- ===== src/Bloom/Filter/Membership.antt =====
-- What was set is found: a filter has no false negatives.
use talek.Base.{
  ℕ, ◌%◌, ◌<◌, ◌≡◌, refl, ap, ◌∙◌, Bool, true, false, ◌||◌, List, [], ◌∷◌, arith, All, Returns, ok,
  ◌==◌, if◌then◌else◌, ==_refl,
}
use talek.Bloom.BitSet.{BitSet, set_bit, set_to}
use talek.Bloom.BitSet.Bits.{bit_at, IsValid, test-bit_at}
use talek.Bloom.BitSet.Update.{Updated, set_to-Updated}
use talek.Bloom.Filter.{check_locations, set_locations}

-- One of the locations stands for bit `j` of `n`.
unfoldable pub hits : ℕ → List ℕ → ℕ → Bool
hits n [] j = false
hits n (loc ∷ locs) j = (j == loc % n) || hits n locs j

-- The set after `SetLocations`.
pub record Marked (b : BitSet) (locs : List ℕ) (b' : BitSet) : Type 0 where
  pub valid : IsValid b'
  pub same_num_bits : b'.num_bits ≡ b.num_bits
  pub bits : (j : ℕ) → bit_at b' j ≡ (if hits b.num_bits locs j then 1 else bit_at b j)

set_bit-Updated :
    (b : BitSet) (i : ℕ) → IsValid b → i < b.num_bits → Returns (set_bit b i) (Updated b i 1)
set_bit-Updated b i valid inside = unfold set_to in set_to-Updated b i true valid inside

pub set_locations-Marked :
    (b : BitSet) (locs : List ℕ)
    → IsValid b
    → 0 < b.num_bits
    → Returns (set_locations b locs) (Marked b locs)
unfolding set_locations hits
set_locations-Marked b [] valid some_bits =
    (b, refl, record { valid = valid; same_num_bits = refl; bits = λ j. refl })
set_locations-Marked b (loc ∷ locs) valid some_bits =
    let (r, run, u) = set_bit-Updated b (loc % b.num_bits) valid (omega arith) in
    let (b', run', m) = set_locations-Marked r.0 locs u.valid (omega (arith, u.same_num_bits)) in
    (
      b',
      rw (in_range, run, run'),
      record {
        valid = m.valid;
        same_num_bits = m.same_num_bits ∙ u.same_num_bits;
        bits = λ j. m.bits j ∙ rw (u.same_num_bits, u.bits j) (ground arith);
      },
    )
  where
    in_range : (b.num_bits == 0) ≡ false
    in_range = ground arith

-- `CheckLocations` finds every location whose bit is set.
pub check_locations-All :
    (b : BitSet) (locs : List ℕ)
    → IsValid b
    → 0 < b.num_bits
    → All (λ loc. bit_at b (loc % b.num_bits) ≡ 1) locs
    → check_locations b locs ≡ ok true
unfolding check_locations
check_locations-All b [] valid some_bits all_set = refl
check_locations-All b (loc ∷ locs) valid some_bits (set_here, all_set) =
    rw (in_range, test-bit_at b (loc % b.num_bits) valid, set_here)
      (check_locations-All b locs valid some_bits all_set)
  where
    in_range : (b.num_bits == 0) ≡ false
    in_range = ground arith

pub All-weaken {ℓ κ μ} :
    {A : Type ℓ} {P : A → Type κ} {Q : A → Type μ} (xs : List A)
    → ((x : A) → P x → Q x)
    → All P xs
    → All Q xs
All-weaken [] f h = tt
All-weaken (x ∷ xs) f (p, h) = (f x p, All-weaken xs f h)

pub hits-All : (n : ℕ) (locs : List ℕ) → All (λ loc. hits n locs (loc % n) ≡ true) locs
unfolding hits
hits-All n [] = tt
hits-All n (loc ∷ locs) = (
  rw (==_refl (loc % n)),
  All-weaken locs (λ l h. rw h (or_true (l % n == loc % n))) (hits-All n locs),
)
  where
    or_true : (x : Bool) → (x || true) ≡ true
    or_true true = refl
    or_true false = refl

-- Bits that are set stay set.
pub Marked-grows :
    {b : BitSet} {locs : List ℕ} {b' : BitSet}
    → Marked b locs b'
    → (j : ℕ) → bit_at b j ≡ 1
    → bit_at b' j ≡ 1
Marked-grows {b} {locs} m j h = rw (m.bits j, h) (ground arith)

-- The bits of the locations are set.
pub Marked-sets :
    {b : BitSet} {locs : List ℕ} {b' : BitSet}
    → Marked b locs b'
    → All (λ loc. bit_at b' (loc % b.num_bits) ≡ 1) locs
Marked-sets {b} {locs} m =
    All-weaken locs
      (λ loc h.
        m.bits (loc % b.num_bits) ∙ ap (λ t. if t then 1 else bit_at b (loc % b.num_bits)) h)
      (hits-All b.num_bits locs)

-- In a valid bit set with bits, locations that were set are found, whatever locations are set
-- later: there are no false negatives.
pub check_locations-set_locations :
    (b : BitSet) (locs later : List ℕ)
    → IsValid b
    → 0 < b.num_bits
    → Returns
        (set_locations b locs)
        (λ b'. Returns (set_locations b' later) (λ b''. check_locations b'' locs ≡ ok true))
check_locations-set_locations b locs later valid some_bits =
    let (b', run, m) = set_locations-Marked b locs valid some_bits in
    let (b'', run', m') = set_locations-Marked b' later m.valid (omega (arith, m.same_num_bits)) in
    let same = m'.same_num_bits ∙ m.same_num_bits in
    (
      b',
      run,
      (
        b'',
        run',
        check_locations-All b'' locs m'.valid (omega (arith, same)) (
            All-weaken locs
              (λ loc h.
                ap (λ (n : ℕ). bit_at b'' (loc % n)) same ∙ Marked-grows m' (loc % b.num_bits) h)
              (Marked-sets m)),
      ),
    )
