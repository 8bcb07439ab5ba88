-- ===== src/Bloom/BitSet/Bits.antt =====
-- Single bits of words, and of bit sets.
use talek.Base.{
  ℕ, zero, suc, ◌-◌, ◌/◌, ◌%◌, ◌^◌, ◌<◌, min, max, bit_and, bit_or, ◌≡◌, sym, ap, ◌∙◌, ◌≢◌, inl,
  inr, false, arith, dec_le, ℕ_discrete, bit_and_lowest, bit_or_lowest, bit_of, bit_of-bit_xor,
  bit_of-lt, bit_and_zero_right, bit_of-pow_self, bit_of-pow_ne, length, get_or, get_elem?-get_or,
  masked-bit_of, ok, leb, ◌==◌, if◌then◌else◌, ==_refl, Bool-cases, le→leb, leb-eq-false,
}
use talek.Bloom.BitSet.{BitSet, words_needed, word_index, mask, and_not, test}

bit_of-bit_and : (a b k : ℕ) → bit_of (bit_and a b) k ≡ min (bit_of a k) (bit_of b k)
bit_of-bit_and a b zero = omega (arith, bit_and_lowest a b)
bit_of-bit_and a b (suc k) =
    ap (λ n. bit_of n k) (omega (arith, bit_and_lowest a b)) ∙ bit_of-bit_and (a / 2) (b / 2) k

bit_of-bit_or : (a b k : ℕ) → bit_of (bit_or a b) k ≡ max (bit_of a k) (bit_of b k)
bit_of-bit_or a b zero = omega (arith, bit_or_lowest a b)
bit_of-bit_or a b (suc k) =
    ap (λ n. bit_of n k) (omega (arith, bit_or_lowest a b)) ∙ bit_of-bit_or (a / 2) (b / 2) k

bit_of-and_not : (a b k : ℕ) → bit_of (and_not a b) k ≡ bit_of a k - bit_of b k
unfolding and_not
bit_of-and_not a b k =
    omega
      (arith, bit_of-bit_xor a (bit_and a b) k, bit_of-bit_and a b k, bit_of-lt a k, bit_of-lt b k)

-- The mask of the low six bits.
low_six : (i : ℕ) → bit_and i 63 ≡ i % 64
low_six i = omega (
  arith,
  bit_and_lowest i 63,
  bit_and_lowest (i / 2) 31,
  bit_and_lowest (i / 2 / 2) 15,
  bit_and_lowest (i / 2 / 2 / 2) 7,
  bit_and_lowest (i / 2 / 2 / 2 / 2) 3,
  bit_and_lowest (i / 2 / 2 / 2 / 2 / 2) 1,
  bit_and_zero_right (i / 2 / 2 / 2 / 2 / 2 / 2),
)

pub mask-pow : (i : ℕ) → mask i ≡ 2 ^ (i % 64)
unfolding mask
mask-pow i = ap (λ (n : ℕ). 2 ^ n) (low_six i)

bit_of-mask : (i k : ℕ) → bit_of (mask i) k ≡ (if k == i % 64 then 1 else 0)
bit_of-mask i k = rw (mask-pow i) (elim (ℕ_discrete k (i % 64)) [
  | yes e ↦ rw (e, ==_refl (i % 64)) (bit_of-pow_self (i % 64))
  | no ne ↦ rw (other ne) (bit_of-pow_ne (i % 64) k (λ e. ne (sym e)))
])
  where
    other : k ≢ i % 64 → (k == i % 64) ≡ false
    other ne = ground arith

-- What a write does to bit `k` of the word.
pub bit_of-set :
    (w i k : ℕ) → bit_of (bit_or w (mask i)) k ≡ (if k == i % 64 then 1 else bit_of w k)
bit_of-set w i k =
    rw (bit_of-bit_or, bit_of-mask)
      (elim (Bool-cases (k == i % 64)) [
        | inl e ↦ rw e (omega (arith, bit_of-lt w k))
        | inr e ↦ rw e (omega (arith, bit_of-lt w k))
      ])

pub bit_of-clear :
    (w i k : ℕ) → bit_of (and_not w (mask i)) k ≡ (if k == i % 64 then 0 else bit_of w k)
bit_of-clear w i k =
    rw (bit_of-and_not, bit_of-mask)
      (elim (Bool-cases (k == i % 64)) [
        | inl e ↦ rw e (omega (arith, bit_of-lt w k))
        | inr e ↦ rw e (omega (arith, bit_of-lt w k))
      ])

-- The bit at position `i`, and 0 out of range.
unfoldable pub bit_at : BitSet → ℕ → ℕ
bit_at b i = if leb b.num_bits i then 0 else bit_of (get_or b.contents (word_index i) 0) (i % 64)

pub record IsValid (b : BitSet) : Type 0 where
  pub small : b.num_bits < 2 ^ 32
  pub sized : length b.contents ≡ words_needed b.num_bits

pub words_needed-enough : (n : ℕ) → n < 2 ^ 32 → (i : ℕ) → i < n → word_index i < words_needed n
unfolding words_needed
words_needed-enough n small i h = ground arith

pub test-bit_at : (b : BitSet) (i : ℕ) → IsValid b → test b i ≡ ok (bit_at b i == 1)
unfolding test bit_at
test-bit_at b i v = elim (dec_le b.num_bits i) [
  | yes out ↦ rw (le→leb b.num_bits i out)
  | no inside ↦
      let word = get_or b.contents (word_index i) 0 in
      rw (
        leb-eq-false b.num_bits i (omega arith),
        get_elem?-get_or b.contents (word_index i) 0
            (rw v.sized (words_needed-enough b.num_bits v.small i (omega arith))),
        mask-pow i,
        masked-bit_of word (i % 64),
      )
]
