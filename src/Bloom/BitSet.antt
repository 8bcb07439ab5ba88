-- ===== src/Bloom/BitSet.antt =====
-- bloom/bitset.go. The field `contents` is the source's `data`, a slice of 64-bit words. The
-- operations write to it in place: here they return the set that they leave.
pub mod Bits
pub mod Update
pub mod Equality
use talek.Base.{
  ℕ, ◌+◌, ◌-◌, ◌/◌, ◌%◌, ◌^◌, bit_and, bit_or, bit_xor, Bool, true, false, not, Option, none, some,
  List, [], ◌∷◌, get_elem?, set, replicate, Outcome, ◌>>=◌, or_panic, ok, ltb, leb, ◌==◌,
  if◌then◌else◌,
}

-- `wordSize`
abbrev pub word_bits : ℕ
word_bits = 64

abbrev pub log2_word_size : ℕ
log2_word_size = 6

pub record BitSet : Type 0 where
  pub num_bits : ℕ
  pub contents : List ℕ

-- `Cap`
abbrev pub cap : ℕ
cap = 2 ^ 64 - 1

unfoldable pub words_needed : ℕ → ℕ
words_needed i =
    if ltb (cap - word_bits + 1) i
    then cap / 2 ^ log2_word_size
    else (i + (word_bits - 1)) % 2 ^ 64 / 2 ^ log2_word_size

-- `NewBitSet`: none for nil, above `math.MaxUint32`.
unfoldable pub new_bit_set : ℕ → Option BitSet
new_bit_set num_bits =
    if ltb (2 ^ 32 - 1) num_bits
    then none
    else some (record { num_bits = num_bits; contents = replicate (words_needed num_bits) 0 })

-- `From`
unfoldable pub from : ℕ → List ℕ → BitSet
from num_bits buf = record { num_bits = num_bits; contents = buf }

-- The loop of `Equal` at place `i`, with the rest of `aBytes`.
unfoldable pub equal_words : List ℕ → List ℕ → ℕ → Outcome Bool
equal_words [] b_words i = ok true
equal_words (v ∷ vs) b_words i = or_panic (get_elem? b_words i) >>= λ w.
    if w == v then equal_words vs b_words (i + 1) else ok false

unfoldable pub equal : Option BitSet → Option BitSet → Outcome Bool
unfolding equal_words
equal none b = ok false
equal (some a) none = ok false
equal (some a) (some b) =
    if not (a.num_bits == b.num_bits)
    then ok false
    else if a.num_bits == 0
    then ok true
    else equal_words a.contents b.contents 0

-- `i>>log2WordSize`
abbrev pub word_index : ℕ → ℕ
word_index i = i / 2 ^ log2_word_size

-- `1 << (i & (wordSize - 1))`
unfoldable pub mask : ℕ → ℕ
mask i = 2 ^ bit_and i (word_bits - 1)

unfoldable pub test : BitSet → ℕ → Outcome Bool
test b i =
    if leb b.num_bits i
    then ok false
    else (or_panic (get_elem? b.contents (word_index i)) >>= λ word.
        ok (not (bit_and word (mask i) == 0)))

-- `b.data[i>>log2WordSize] = f(b.data[i>>log2WordSize])`
unfoldable pub update : BitSet → ℕ → (ℕ → ℕ) → Outcome (BitSet × Bool)
update b i f =
    if leb b.num_bits i
    then ok (b, false)
    else or_panic (get_elem? b.contents (word_index i)) >>= λ word.
        ok (record b { contents = set b.contents (word_index i) (f word) }, true)

-- `Set`
unfoldable pub set_bit : BitSet → ℕ → Outcome (BitSet × Bool)
unfolding update
set_bit b i = update b i (λ word. bit_or word (mask i))

-- `x &^ y`
unfoldable pub and_not : ℕ → ℕ → ℕ
and_not x y = bit_xor x (bit_and x y)

unfoldable pub clear : BitSet → ℕ → Outcome (BitSet × Bool)
unfolding update
clear b i = update b i (λ word. and_not word (mask i))

unfoldable pub set_to : BitSet → ℕ → Bool → Outcome (BitSet × Bool)
set_to b i value = if value then set_bit b i else clear b i
