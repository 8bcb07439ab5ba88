-- ===== src/Libtalek/Message/Fragments.antt =====
-- Fragment headers on the wire.
use talek.Base.{
  ℕ, ◌^◌, ◌≤◌, ◌<◌, ◌≡◌, refl, ap, Bool, true, false, some, List, [], ◌∷◌, ◌++◌, arith, le_bytes,
  le_word-le_bytes, copy-nil, length, drop, Returns, ok, ltb-eq-false,
}
use talek.Libtalek.Message.{FragmentHeader, from_bytes, is_new_message, new_fragment, to_bytes}

-- What `ToBytes` leaves in a buffer of five bytes and more.
unfoldable pub header_bytes : FragmentHeader → List ℕ
header_bytes f = f.flag ∷ le_bytes 4 f.left

to_bytes-header_bytes :
    (f : FragmentHeader) (a b c d e : ℕ) (rest : List ℕ)
    → to_bytes f (a ∷ b ∷ c ∷ d ∷ e ∷ rest) ≡ ok (header_bytes f ++ rest)
unfolding to_bytes header_bytes le_bytes
to_bytes-header_bytes f a b c d e rest =
    rw (ltb-eq-false (length (a ∷ b ∷ c ∷ d ∷ e ∷ rest)) 5 (omega arith))
      (ap (λ t. ok (header_bytes f ++ t)) (copy-nil rest))

-- A header that is written is read back, whatever the bytes after it.
pub from_bytes-to_bytes :
    (f : FragmentHeader) (buf : List ℕ)
    → f.left < 2 ^ 32
    → 5 ≤ length buf
    → Returns (to_bytes f buf) (λ wire.
      (from_bytes wire ≡ some f) × (length wire ≡ length buf) × (drop 5 wire ≡ drop 5 buf))
unfolding from_bytes
from_bytes-to_bytes f [] small long = absurd (omega arith)
from_bytes-to_bytes f (a ∷ []) small long = absurd (omega arith)
from_bytes-to_bytes f (a ∷ b ∷ []) small long = absurd (omega arith)
from_bytes-to_bytes f (a ∷ b ∷ c ∷ []) small long = absurd (omega arith)
from_bytes-to_bytes f (a ∷ b ∷ c ∷ d ∷ []) small long = absurd (omega arith)
from_bytes-to_bytes f (a ∷ b ∷ c ∷ d ∷ e ∷ rest) small long = (
  header_bytes f ++ rest,
  to_bytes-header_bytes f a b c d e rest,
  (
    unfold header_bytes le_bytes in
        rw (ltb-eq-false (length (header_bytes f ++ rest)) 5 (omega arith)) (
          ap some (
            ap (λ (n : ℕ). let r : FragmentHeader = record { flag = f.flag; left = n } in r)
              (unfold le_bytes in le_word-le_bytes 4 f.left small))),
    unfold header_bytes le_bytes in refl,
    unfold header_bytes le_bytes in refl,
  ),
)

pub is_new_message-new_fragment :
    (first : Bool) (n : ℕ) → is_new_message (new_fragment first n) ≡ first
unfolding is_new_message new_fragment
is_new_message-new_fragment true n = refl
is_new_message-new_fragment false n = refl
