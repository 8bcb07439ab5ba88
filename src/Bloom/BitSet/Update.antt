-- ===== src/Bloom/BitSet/Update.antt =====
-- Set, Clear and SetTo of bloom/bitset.go change one bit and no other.
use talek.Base.{
  ℕ, ◌-◌, ◌%◌, ◌^◌, ◌≤◌, ◌<◌, bit_or, ◌≡◌, refl, sym, ap, ◌∙◌, ◌≢◌, Bool, true, false, ◌&&◌, some,
  arith, dec_le, ℕ_discrete, bit_of, bit_of-zero, length, get_or, set, replicate, length-set,
  length-replicate, get_elem?-get_or, get_or-set_self, get_or-set_ne, get_or-replicate, Returns, ok,
  ltb, ◌==◌, if◌then◌else◌, lt→ltb, ltb-eq-false, le→leb, leb-eq-false,
}
use talek.Bloom.BitSet.{
  BitSet, word_index, mask, and_not, test, update, set_bit, clear, set_to, new_bit_set,
  words_needed,
}
use talek.Bloom.BitSet.Bits.{
  bit_at, IsValid, words_needed-enough, test-bit_at, bit_of-set, bit_of-clear,
}

-- Bit `i` has become `v`.
pub record Updated (b : BitSet) (i v : ℕ) (r : BitSet × Bool) : Type 0 where
  pub done : r.1 ≡ true
  pub valid : IsValid r.0
  pub same_num_bits : r.0.num_bits ≡ b.num_bits
  pub bits : (j : ℕ) → bit_at r.0 j ≡ (if j == i then v else bit_at b j)

-- The bits of the set that `update` leaves.
bit_at-written :
    (b : BitSet) (i v : ℕ) (f : ℕ → ℕ)
    → i < b.num_bits
    → word_index i < length b.contents
    → ((w k : ℕ) → bit_of (f w) k ≡ (if k == i % 64 then v else bit_of w k))
    → (j : ℕ)
    → bit_at
        (let u : BitSet = record b {
          contents = set b.contents (word_index i) (f (get_or b.contents (word_index i) 0));
        } in
          u)
        j
      ≡ (if j == i then v else bit_at b j)
unfolding bit_at
bit_at-written b i v f inside place_inside changes j = elim (dec_le b.num_bits j) [
  | yes out ↦ rw (le→leb b.num_bits j out, outside (omega arith))
  | no within ↦
      rw (leb-eq-false b.num_bits j (omega arith))
        (elim (ℕ_discrete (word_index i) (word_index j)) [
          | yes e ↦
              rw
                (
                  ← e,
                  get_or-set_self b.contents (word_index i) (f word) 0 place_inside,
                  changes word (j % 64),
                )
                (ap (λ t. if t then v else bit_of word (j % 64)) (same_word e))
          | no ne ↦ rw (
            get_or-set_ne b.contents (word_index i) (word_index j) (f word) 0 ne,
            outside (λ e. ne (ap word_index (sym e))),
          )
        ])
]
  where
    word : ℕ
    word = get_or b.contents (word_index i) 0

    outside : j ≢ i → (j == i) ≡ false
    outside ne = ground arith

    same_word : word_index i ≡ word_index j → (j % 64 == i % 64) ≡ (j == i)
    same_word e = ground arith

update-Updated :
    (b : BitSet) (i v : ℕ) (f : ℕ → ℕ)
    → IsValid b
    → i < b.num_bits
    → ((w k : ℕ) → bit_of (f w) k ≡ (if k == i % 64 then v else bit_of w k))
    → Returns (update b i f) (Updated b i v)
unfolding update
update-Updated b i v f valid inside changes =
    let place_inside : word_index i < length b.contents =
      rw valid.sized (words_needed-enough b.num_bits valid.small i inside) in
    let word = get_or b.contents (word_index i) 0 in
    let b' : BitSet = record b { contents = set b.contents (word_index i) (f word) } in
    (
      (b', true),
      rw (
        leb-eq-false b.num_bits i inside,
        get_elem?-get_or b.contents (word_index i) 0 place_inside,
      ),
      record {
        done = refl;
        valid = record {
          small = valid.small;
          sized = length-set b.contents (word_index i) (f word) ∙ valid.sized;
        };
        same_num_bits = refl;
        bits = λ j. bit_at-written b i v f inside place_inside changes j;
      },
    )

-- SetTo gives bit `i` the value.
pub set_to-Updated :
    (b : BitSet) (i : ℕ) (value : Bool)
    → IsValid b
    → i < b.num_bits
    → Returns (set_to b i value) (Updated b i (if value then 1 else 0))
unfolding set_to set_bit clear
set_to-Updated b i true valid inside =
    update-Updated b i 1 (λ word. bit_or word (mask i)) valid inside (λ w k. bit_of-set w i k)
set_to-Updated b i false valid inside =
    update-Updated b i 0 (λ word. and_not word (mask i)) valid inside (λ w k. bit_of-clear w i k)

set_to_refused :
    (b : BitSet) (i : ℕ) (value : Bool) → b.num_bits ≤ i → set_to b i value ≡ ok (b, false)
unfolding set_to set_bit clear update
set_to_refused b i true out = rw (le→leb b.num_bits i out)
set_to_refused b i false out = rw (le→leb b.num_bits i out)

-- In a valid bit set, SetTo returns normally with a valid set and whether the position is in range;
-- after it, Test gives the value at that position, if in range, and what it gave before at every
-- other.
pub test-set_to :
    (b : BitSet) (i : ℕ) (value : Bool)
    → IsValid b
    → Returns (set_to b i value) (λ r.
      IsValid r.0
      × (r.1 ≡ ltb i b.num_bits)
      × ((j : ℕ) → test r.0 j ≡ (if (j == i) && r.1 then ok value else test b j)))
test-set_to b i value valid = elim (dec_le b.num_bits i) [
  | yes out ↦ (
    (b, false),
    set_to_refused b i value out,
    (valid, sym (ltb-eq-false i b.num_bits out), λ j. kept j),
  )
  | no inside ↦
      let (r, run, u) = set_to-Updated b i value valid (omega arith) in
      (
        r,
        run,
        (
          u.valid,
          u.done ∙ sym (lt→ltb i b.num_bits (omega arith)),
          λ j.
              rw (test-bit_at r.0 j u.valid, u.bits j, u.done, test-bit_at b j valid)
                (ground arith),
        ),
      )
]
  where
    kept : (j : ℕ) → test b j ≡ (if (j == i) && false then ok value else test b j)
    kept j = ground arith

pub new_bit_set-empty :
    (n : ℕ)
    → n < 2 ^ 32
    → (b : BitSet) × (new_bit_set n ≡ some b)
      × IsValid b
      × (b.num_bits ≡ n)
      × ((j : ℕ) → test b j ≡ ok false)
unfolding new_bit_set
new_bit_set-empty n small =
    let b : BitSet = record { num_bits = n; contents = replicate (words_needed n) 0 } in
    let valid : IsValid b = record {
      small = small;
      sized = length-replicate {A = ℕ} (words_needed n) 0;
    } in
    (
      b,
      rw (ltb-eq-false (2 ^ 32 - 1) n (omega arith)),
      valid,
      refl,
      λ j. test-bit_at b j valid ∙ ap (λ t. ok (t == 1)) (no_bits j),
    )
  where
    no_bits :
        (j : ℕ)
        → bit_at
            (let b : BitSet = record { num_bits = n; contents = replicate (words_needed n) 0 } in b)
            j
          ≡ 0
    no_bits j =
        unfold bit_at in
        rw (get_or-replicate {A = ℕ} (words_needed n) (word_index j) 0, bit_of-zero (j % 64))
          (ground arith)
