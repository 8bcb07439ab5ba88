-- ===== src/Base/Bytes.antt =====
-- Byte strings: exclusive or, and little-endian words.
use Prim.Native.Nat.{ℕ, zero, suc, ◌+◌, ◌*◌, ◌/◌, ◌%◌, ◌^◌, ◌≤◌, ◌<◌, min, bit_xor}
use mathlib.Core.Path.{◌≡◌, refl, sym, ap, ap₂, ◌∙◌}
use mathlib.Core.List.{List, [], ◌∷◌, ◌++◌}
use native.Mathlib.Omega.{arith}
use native.Mathlib.Nat.{pow-suc}
use talek.Base.Lists.{length, get_or, replicate, length-replicate}
use talek.Base.Bits.{
  bit_xor_step, bit_xor_self, bit_xor_comm, bit_xor_assoc, bit_xor_zero_left, bit_xor_fields,
}

abbrev pub All {ℓ κ} : {A : Type ℓ} → (A → Type κ) → List A → Type κ
All P [] = Unit
All P (x ∷ xs) = P x × All P xs

abbrev pub IsBytes : List ℕ → Type 0
IsBytes = All (λ b. b < 256)

pub bit_xor-lt : (k a b : ℕ) → a < 2 ^ k → b < 2 ^ k → bit_xor a b < 2 ^ k
bit_xor-lt zero zero zero h h' = omega arith
bit_xor-lt zero (suc a) b h h' = absurd (omega arith)
bit_xor-lt zero a (suc b) h h' = absurd (omega arith)
bit_xor-lt (suc k) a b h h' = omega (
  arith,
  bit_xor_step a b,
  pow-suc 2 k,
  bit_xor-lt k (a / 2) (b / 2) (omega (arith, pow-suc 2 k)) (omega (arith, pow-suc 2 k)),
)

-- The bytewise exclusive or, as long as the shorter of the two.
unfoldable pub bytes_xor : List ℕ → List ℕ → List ℕ
bytes_xor [] ys = []
bytes_xor (x ∷ xs) [] = []
bytes_xor (x ∷ xs) (y ∷ ys) = bit_xor x y ∷ bytes_xor xs ys

pub length-bytes_xor : (xs ys : List ℕ) → length (bytes_xor xs ys) ≡ min (length xs) (length ys)
unfolding bytes_xor
length-bytes_xor [] ys = omega arith
length-bytes_xor (x ∷ xs) [] = omega arith
length-bytes_xor (x ∷ xs) (y ∷ ys) = omega (arith, length-bytes_xor xs ys)

pub bytes_xor-IsBytes : (xs ys : List ℕ) → IsBytes xs → IsBytes ys → IsBytes (bytes_xor xs ys)
unfolding bytes_xor
bytes_xor-IsBytes [] ys h h' = tt
bytes_xor-IsBytes (x ∷ xs) [] h h' = tt
bytes_xor-IsBytes (x ∷ xs) (y ∷ ys) h h' =
    (bit_xor-lt 8 x y h.0 h'.0, bytes_xor-IsBytes xs ys h.1 h'.1)

pub bytes_xor_comm : (xs ys : List ℕ) → bytes_xor xs ys ≡ bytes_xor ys xs
unfolding bytes_xor
bytes_xor_comm [] [] = refl
bytes_xor_comm [] (y ∷ ys) = refl
bytes_xor_comm (x ∷ xs) [] = refl
bytes_xor_comm (x ∷ xs) (y ∷ ys) = ap₂ ◌∷◌ (bit_xor_comm x y) (bytes_xor_comm xs ys)

pub bytes_xor_assoc :
    (xs ys zs : List ℕ) → bytes_xor (bytes_xor xs ys) zs ≡ bytes_xor xs (bytes_xor ys zs)
unfolding bytes_xor
bytes_xor_assoc [] ys zs = refl
bytes_xor_assoc (x ∷ xs) [] zs = refl
bytes_xor_assoc (x ∷ xs) (y ∷ ys) [] = refl
bytes_xor_assoc (x ∷ xs) (y ∷ ys) (z ∷ zs) =
    ap₂ ◌∷◌ (bit_xor_assoc x y z) (bytes_xor_assoc xs ys zs)

pub bytes_xor_self : (xs : List ℕ) → bytes_xor xs xs ≡ replicate (length xs) 0
unfolding bytes_xor
bytes_xor_self [] = refl
bytes_xor_self (x ∷ xs) = ap₂ ◌∷◌ (bit_xor_self x) (bytes_xor_self xs)

pub zeros-bytes_xor : (n : ℕ) (xs : List ℕ) → length xs ≤ n → bytes_xor (replicate n 0) xs ≡ xs
unfolding bytes_xor
zeros-bytes_xor zero [] h = refl
zeros-bytes_xor zero (x ∷ xs) h = absurd (omega arith)
zeros-bytes_xor (suc n) [] h = refl
zeros-bytes_xor (suc n) (x ∷ xs) h =
    ap₂ ◌∷◌ (bit_xor_zero_left x) (zeros-bytes_xor n xs (omega arith))

pub append-IsBytes : (xs ys : List ℕ) → IsBytes xs → IsBytes ys → IsBytes (xs ++ ys)
append-IsBytes [] ys h h' = h'
append-IsBytes (x ∷ xs) ys h h' = (h.0, append-IsBytes xs ys h.1 h')

pub replicate-IsBytes : (n : ℕ) → IsBytes (replicate n 0)
replicate-IsBytes zero = tt
replicate-IsBytes (suc n) = (omega arith, replicate-IsBytes n)

pub get_or-bytes_xor :
    (xs ys : List ℕ) (i : ℕ)
    → i < length xs
    → i < length ys
    → get_or (bytes_xor xs ys) i 0 ≡ bit_xor (get_or xs i 0) (get_or ys i 0)
unfolding bytes_xor
get_or-bytes_xor [] ys i h h' = absurd (omega arith)
get_or-bytes_xor (x ∷ xs) [] i h h' = absurd (omega arith)
get_or-bytes_xor (x ∷ xs) (y ∷ ys) zero h h' = refl
get_or-bytes_xor (x ∷ xs) (y ∷ ys) (suc i) h h' =
    get_or-bytes_xor xs ys i (omega arith) (omega arith)

-- `binary.LittleEndian`: the word that bytes stand for, and the lowest `n` bytes of a word.
unfoldable pub le_word : List ℕ → ℕ
le_word [] = 0
le_word (b ∷ bs) = le_word bs * 256 + b

unfoldable pub le_bytes : ℕ → ℕ → List ℕ
le_bytes zero w = []
le_bytes (suc n) w = w % 256 ∷ le_bytes n (w / 256)

pub length-le_bytes : (n w : ℕ) → length (le_bytes n w) ≡ n
unfolding le_bytes
length-le_bytes zero w = refl
length-le_bytes (suc n) w = ap suc (length-le_bytes n (w / 256))

pub le_bytes-IsBytes : (n w : ℕ) → IsBytes (le_bytes n w)
unfolding le_bytes
le_bytes-IsBytes zero w = tt
le_bytes-IsBytes (suc n) w = (omega arith, le_bytes-IsBytes n (w / 256))

pub le_bytes-le_word : (bs : List ℕ) → IsBytes bs → le_bytes (length bs) (le_word bs) ≡ bs
unfolding le_word le_bytes
le_bytes-le_word [] h = refl
le_bytes-le_word (b ∷ bs) h =
    ap₂ ◌∷◌ (omega arith) (ap (le_bytes (length bs)) quotient ∙ le_bytes-le_word bs h.1)
  where
    quotient : (le_word bs * 256 + b) / 256 ≡ le_word bs
    quotient = omega arith

pub le_word-le_bytes : (n w : ℕ) → w < 256 ^ n → le_word (le_bytes n w) ≡ w
unfolding le_word le_bytes
le_word-le_bytes zero w h = omega arith
le_word-le_bytes (suc n) w h =
    omega (arith, le_word-le_bytes n (w / 256) (omega (arith, pow-suc 256 n)))

pub bit_xor-le_word :
    (xs ys : List ℕ)
    → length xs ≡ length ys
    → IsBytes xs
    → IsBytes ys
    → bit_xor (le_word xs) (le_word ys) ≡ le_word (bytes_xor xs ys)
unfolding le_word bytes_xor
bit_xor-le_word [] [] e h h' = bit_xor_self 0
bit_xor-le_word [] (y ∷ ys) e h h' = absurd (omega arith)
bit_xor-le_word (x ∷ xs) [] e h h' = absurd (omega arith)
bit_xor-le_word (x ∷ xs) (y ∷ ys) e h h' =
    bit_xor_fields 8 (le_word xs) x (le_word ys) y h.0 h'.0
    ∙ rw (bit_xor-le_word xs ys (omega arith) h.1 h'.1)

-- Exclusive or of words is the exclusive or of their bytes.
pub le_bytes-bit_xor :
    (xs ys : List ℕ)
    → length xs ≡ length ys
    → IsBytes xs
    → IsBytes ys
    → le_bytes (length xs) (bit_xor (le_word xs) (le_word ys)) ≡ bytes_xor xs ys
le_bytes-bit_xor xs ys e h h' =
    ap (le_bytes (length xs)) (bit_xor-le_word xs ys e h h')
    ∙ rw (← same) (le_bytes-le_word (bytes_xor xs ys) (bytes_xor-IsBytes xs ys h h'))
  where
    same : length (bytes_xor xs ys) ≡ length xs
    same = omega (arith, length-bytes_xor xs ys)

pub bytes_xor_left_comm :
    (xs ys zs : List ℕ) → bytes_xor xs (bytes_xor ys zs) ≡ bytes_xor ys (bytes_xor xs zs)
bytes_xor_left_comm xs ys zs =
    sym (bytes_xor_assoc xs ys zs)
    ∙ ap (λ t. bytes_xor t zs) (bytes_xor_comm xs ys)
    ∙ bytes_xor_assoc ys xs zs

pub bytes_xor-zeros : (n : ℕ) (xs : List ℕ) → length xs ≤ n → bytes_xor xs (replicate n 0) ≡ xs
bytes_xor-zeros n xs h = bytes_xor_comm xs (replicate n 0) ∙ zeros-bytes_xor n xs h

-- A second exclusive or with the same bytes undoes the first.
pub bytes_xor_cancel :
    (xs ys : List ℕ) → length xs ≡ length ys → bytes_xor ys (bytes_xor xs ys) ≡ xs
bytes_xor_cancel xs ys e =
    bytes_xor_left_comm ys xs ys
    ∙ ap (bytes_xor xs) (bytes_xor_self ys)
    ∙ bytes_xor-zeros (length ys) xs (omega arith)

-- The exclusive or of byte strings of length `n`.
unfoldable pub xor_all : ℕ → List (List ℕ) → List ℕ
xor_all n [] = replicate n 0
xor_all n (v ∷ vs) = bytes_xor v (xor_all n vs)

abbrev pub HasBytes : ℕ → List ℕ → Type 0
HasBytes n v = (length v ≡ n) × IsBytes v

pub length-xor_all : (n : ℕ) (vs : List (List ℕ)) → All (HasBytes n) vs → length (xor_all n vs) ≡ n
unfolding xor_all
length-xor_all n [] h = length-replicate n 0
length-xor_all n (v ∷ vs) h =
    omega (arith, length-bytes_xor v (xor_all n vs), h.0.0, length-xor_all n vs h.1)
