-- ===== src/Pir/Xor.antt =====
-- pir/xor/xor.go: exclusive or of byte slices, by bytes and by 8-byte machine words.
-- `dst` may be the same slice as `a`: each place of `a` is read before it is written, so the
-- value that is read is the one at the call. A write that the word loop makes past the end of a
-- slice, which Go does not check, ends in `panic` here.
pub mod Laws
use talek.Base.{
  ℕ, ◌+◌, ◌-◌, ◌*◌, ◌/◌, ◌%◌, bit_xor, Bool, List, le_word, le_bytes, length, get_elem?, set,
  copy_at, slice?, for_range, Outcome, ◌>>=◌, or_panic, ok, panic, ltb, leb, if◌then◌else◌,
}

-- `unsafe.Sizeof(uintptr(0))` on a 64-bit machine
abbrev pub word_size : ℕ
word_size = 8

-- `dst[i] = v`
unfoldable pub store : ℕ → ℕ → List ℕ → Outcome (List ℕ)
store i v dst = if ltb i (length dst) then ok (set dst i v) else panic

-- `dst[i] = a[i] ^ b[i]`
unfoldable pub xor_byte : List ℕ → List ℕ → ℕ → List ℕ → Outcome (List ℕ)
unfolding store
xor_byte a b i dst = do
  x ← or_panic (get_elem? a i)
  y ← or_panic (get_elem? b i)
  store i (bit_xor x y) dst

-- `aw[i]`
word_at : List ℕ → ℕ → Outcome ℕ
unfolding slice? le_word
word_at a i = do
  bytes ← or_panic (slice? a (i * word_size) (i * word_size + word_size))
  ok (le_word bytes)

-- `dw[i] = aw[i] ^ bw[i]`
xor_word : List ℕ → List ℕ → ℕ → List ℕ → Outcome (List ℕ)
unfolding word_at le_bytes
xor_word a b i dst = do
  x ← word_at a i
  y ← word_at b i
  if leb (i * word_size + word_size) (length dst)
      then ok (copy_at (i * word_size) dst (le_bytes word_size (bit_xor x y)))
      else panic

-- `n := len(a); if len(b) < n { n = len(b) }`
abbrev pub shorter : List ℕ → List ℕ → ℕ
shorter a b = if ltb (length b) (length a) then length b else length a

unfoldable pub fast_xor_bytes : List ℕ → List ℕ → List ℕ → Outcome (List ℕ × ℕ)
unfolding xor_word xor_byte
fast_xor_bytes dst a b = do
  let n = shorter a b
  d ← for_range (n / word_size) 0 (xor_word a b) dst
  d' ← for_range (n % word_size) (n - n % word_size) (xor_byte a b) d
  ok (d', n)

unfoldable pub safe_xor_bytes : List ℕ → List ℕ → List ℕ → Outcome (List ℕ × ℕ)
unfolding xor_byte
safe_xor_bytes dst a b = do let n = shorter a b; d ← for_range n 0 (xor_byte a b) dst; ok (d, n)

-- `Bytes`; the flag is `supportsUnaligned`
unfoldable pub bytes : Bool → List ℕ → List ℕ → List ℕ → Outcome (List ℕ × ℕ)
unfolding fast_xor_bytes safe_xor_bytes
bytes unaligned dst a b = if unaligned then fast_xor_bytes dst a b else safe_xor_bytes dst a b

unfoldable pub fast_xor_words : List ℕ → List ℕ → List ℕ → Outcome (List ℕ)
unfolding xor_word
fast_xor_words dst a b = for_range (length b / word_size) 0 (xor_word a b) dst

-- `Words`
unfoldable pub words : Bool → List ℕ → List ℕ → List ℕ → Outcome (List ℕ)
unfolding fast_xor_words safe_xor_bytes
words unaligned dst a b =
    if unaligned then fast_xor_words dst a b else safe_xor_bytes dst a b >>= λ r. ok r.0
