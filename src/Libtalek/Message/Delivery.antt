-- ===== src/Libtalek/Message/Delivery.antt =====
-- Messages that are split, and received fragment by fragment, arrive whole, once, and in order.
use native.Mathlib.Nat.{div-add-mod, mod-lt}
use talek.Base.{
  ℕ, zero, suc, ◌+◌, ◌-◌, ◌*◌, ◌/◌, ◌%◌, ◌^◌, ◌≤◌, ◌<◌, min, ◌≡◌, refl, sym, ap, ◌∙◌, inl, inr,
  Bool, true, false, Option, some, List, [], ◌∷◌, ◌++◌, map, append_assoc, arith, dec_le, All,
  drop-copy_at_same, drop-replicate, length, drop, replicate, copy, copy_at, length-drop,
  length-replicate, length-copy_at, Returns, Outcome, ◌>>=◌, ok, ltb, leb, ◌==◌, ltb-eq-false,
  ==_iff, Bool-cases, le→leb, leb-eq-false,
}
use talek.Libtalek.Message.{
  Message, no_message, u32, from_bytes, new_fragment, to_bytes, new_message, split_parts, num_parts,
  split, join, retrieve, receive, receive_all,
}
use talek.Libtalek.Message.Fragments.{from_bytes-to_bytes, is_new_message-new_fragment}
use talek.Libtalek.Message.Rejoin.{partial, before, payload_lem, join_fragment, retrieve_whole}

from_bytes-copy_at :
    (wire rest : List ℕ) → 5 ≤ length wire → from_bytes (copy_at 5 wire rest) ≡ from_bytes wire
unfolding from_bytes
from_bytes-copy_at (a ∷ b ∷ c ∷ d ∷ e ∷ wire) rest h = rw (
  ltb-eq-false (length (a ∷ b ∷ c ∷ d ∷ e ∷ copy wire rest)) 5 (omega arith),
  ltb-eq-false (length (a ∷ b ∷ c ∷ d ∷ e ∷ wire)) 5 (omega arith),
)
from_bytes-copy_at [] rest h = absurd (omega arith)
from_bytes-copy_at (a ∷ []) rest h = absurd (omega arith)
from_bytes-copy_at (a ∷ b ∷ []) rest h = absurd (omega arith)
from_bytes-copy_at (a ∷ b ∷ c ∷ []) rest h = absurd (omega arith)
from_bytes-copy_at (a ∷ b ∷ c ∷ d ∷ []) rest h = absurd (omega arith)

-- The parts are enough for the message, and the last one is needed.
num_parts-bounds :
    (n denom : ℕ)
    → 0 < denom
    → (n ≤ num_parts n denom * denom) × (num_parts n denom * denom < n + denom)
unfolding num_parts
num_parts-bounds n denom wide =
    let quotient : denom * (n / denom) + n % denom ≡ n = div-add-mod n denom in
    let remainder : n % denom < denom = mod-lt n wide in
    let even : (n % denom == 0) ≡ true → n % denom ≡ 0 = (==_iff (n % denom) 0).0 in
    let uneven : n % denom ≡ 0 → (n % denom == 0) ≡ true = (==_iff (n % denom) 0).1 in
    elim (Bool-cases (n % denom == 0)) [
      | inl e ↦ rw e (let zero_left = even e in (grind arith, grind arith))
      | inr e ↦ rw e (
          let some_left : ¬ (n % denom ≡ 0) = (λ z. let u = uneven z in cc) in
          (grind arith, grind arith))
    ]

module _ (c : List ℕ) (denom : ℕ) (small : length c + (denom + 5) < 2 ^ 32) (wide : 0 < denom) where
  -- The fragment that `Split` makes after `sent` bytes.
  fragment_lem :
      (sent : ℕ) (first : Bool)
      → sent < length c
      → (first ≡ true → sent ≡ 0)
      → Returns
          (to_bytes (new_fragment first (u32 (length c - sent))) (replicate (denom + 5) 0))
          (λ wire.
            join (before c sent first) (copy_at 5 wire (drop sent c))
            ≡ (partial c (sent + denom), leb (length c) (sent + denom)))
  fragment_lem sent first h start =
      let header = new_fragment first (u32 (length c - sent)) in
      let (wire, run, (read, len, tail)) =
        from_bytes-to_bytes header (replicate (denom + 5) 0) (unfold new_fragment in omega arith)
          (omega (arith, length-replicate {A = ℕ} (denom + 5) 0)) in
      let long : length wire ≡ denom + 5 = len ∙ length-replicate (denom + 5) 0 in
      (
        wire,
        run,
        join_fragment c denom small wide sent first (copy_at 5 wire (drop sent c)) header h start
            (from_bytes-copy_at wire (drop sent c) (omega (arith, long)) ∙ read)
            (unfold new_fragment in omega arith)
            (is_new_message-new_fragment first (u32 (length c - sent)))
            (length-copy_at 5 wire (drop sent c) ∙ long)
            (drop-copy_at_same 5 wire (drop sent c)
              ∙ ap (λ t. copy t (drop sent c))
                  (tail
                    ∙ drop-replicate 5 (denom + 5) 0
                    ∙ ap (λ (n : ℕ). replicate n 0) (omega arith))
              ∙ sym (payload_lem c denom sent)),
      )

  none_of_less : (k d : ℕ) → k * d < d → k ≡ 0
  none_of_less zero d h = refl
  none_of_less (suc k) d h = absurd (omega arith)

  -- One round of `Split`.
  split_round :
      (count sent : ℕ) (first : Bool) (wire : List ℕ) (parts : List (List ℕ))
      → sent < length c
      → to_bytes (new_fragment first (u32 (length c - sent))) (replicate (denom + 5) 0) ≡ ok wire
      → split_parts c (denom + 5) count false (length c - (sent + denom)) ≡ ok parts
      → split_parts c (denom + 5) (suc count) first (length c - sent)
        ≡ ok (copy_at 5 wire (drop sent c) ∷ parts)
  unfolding split_parts
  split_round count sent first wire parts h run rest = rw (run, same_rest, next, rest)
    where
      same_rest : length c - (length c - sent) ≡ sent
      same_rest = omega arith

      next :
          length c - sent - min (denom + 5 - 5) (length (drop sent c)) ≡ length c - (sent + denom)
      next = omega (arith, length-drop sent c)

  -- One fragment received that is not the last.
  receive_round :
      (m m' : Message) (part : List ℕ) (parts : List (List ℕ))
      (r : Message × List (Option (List ℕ)))
      → join m part ≡ (m', false)
      → receive_all m' parts ≡ r
      → receive_all m (part ∷ parts) ≡ r
  unfolding receive_all receive
  receive_round m m' part parts r joined rest = rw (joined, rest)

  receive_last :
      (m m' : Message) (part : List ℕ) (whole : List ℕ)
      → join m part ≡ (m', true)
      → retrieve m' ≡ some whole
      → receive_all m (part ∷ []) ≡ (no_message, some whole ∷ [])
  unfolding receive_all receive
  receive_last m m' part whole joined got = rw (joined, got)

  before_later : (sent : ℕ) → before c sent false ≡ partial c sent
  unfolding before
  before_later sent = refl

  deliver_parts :
      (count sent : ℕ) (first : Bool)
      → sent < length c
      → (first ≡ true → sent ≡ 0)
      → length c ≤ sent + count * denom
      → sent + count * denom < length c + denom
      → Returns
          (split_parts c (denom + 5) count first (length c - sent))
          (λ parts. receive_all (before c sent first) parts ≡ (no_message, some c ∷ []))
  deliver_parts zero sent first h start lo hi = absurd (omega arith)
  deliver_parts (suc count) sent first h start lo hi =
      let (wire, run, joined) = fragment_lem sent first h start in
      let part = copy_at 5 wire (drop sent c) in
      elim (dec_le (length c) (sent + denom)) [
        | yes last ↦
            let only : count ≡ 0 = none_of_less count denom (omega arith) in
            (
              part ∷ [],
              split_round count sent first wire [] h run
                  (rw only (no_parts (length c - (sent + denom)))),
              receive_last (before c sent first) (partial c (sent + denom)) part c
                  (joined ∙ rw (le→leb (length c) (sent + denom) last))
                  (retrieve_whole c denom small wide (sent + denom) last (omega arith)),
            )
        | no more ↦
            let (parts, run', got) =
              deliver_parts count (sent + denom) false (omega arith) (λ e. cc) (omega arith)
                (omega arith) in
            (
              part ∷ parts,
              split_round count sent first wire parts h run run',
              receive_round (before c sent first) (partial c (sent + denom)) part parts
                  (no_message, some c ∷ [])
                  (joined ∙ rw (leb-eq-false (length c) (sent + denom) (omega arith)))
                  (rw (before_later (sent + denom)) at got),
            )
      ]
    where
      no_parts : (n : ℕ) → split_parts c (denom + 5) 0 false n ≡ ok []
      no_parts n = unfold split_parts in refl

  -- One message.
  deliver_one :
      0 < length c
      → Returns
          (split (new_message c) (denom + 5))
          (λ parts. receive_all no_message parts ≡ (no_message, some c ∷ []))
  unfolding split new_message
  deliver_one some_bytes =
      rw (not_five, not_less, exact)
        (start_at (
          deliver_parts (num_parts (length c) denom) 0 true some_bytes (λ _. refl)
            (omega (arith, parts_enough)) (omega (arith, parts_enough))))
    where
      parts_enough :
          (length c ≤ num_parts (length c) denom * denom)
          × (num_parts (length c) denom * denom < length c + denom)
      parts_enough = num_parts-bounds (length c) denom wide

      not_five : (denom + 5 == 5) ≡ false
      not_five = ground arith

      not_less : ltb (denom + 5) 5 ≡ false
      not_less = ground arith

      exact : denom + 5 - 5 ≡ denom
      exact = omega arith

      start_at :
          Returns
            (split_parts c (denom + 5) (num_parts (length c) denom) true (length c - 0))
            (λ parts. receive_all (before c 0 true) parts ≡ (no_message, some c ∷ []))
          → Returns
              (split_parts c (denom + 5) (num_parts (length c) denom) true (length c))
              (λ parts. receive_all no_message parts ≡ (no_message, some c ∷ []))
      start_at (parts, run, got) = (
        parts,
        ap (split_parts c (denom + 5) (num_parts (length c) denom) true) (omega arith) ∙ run,
        unfold before in got,
      )

-- What is received for the fragments of several messages.
receive_all-append :
    (ps qs : List (List ℕ)) (m : Message)
    → receive_all m (ps ++ qs) ≡ (
      (receive_all (receive_all m ps).0 qs).0,
      (receive_all m ps).1 ++ (receive_all (receive_all m ps).0 qs).1,
    )
unfolding receive_all
receive_all-append [] qs m = refl
receive_all-append (p ∷ ps) qs m = rw (receive_all-append ps qs (receive m p).0) (
    ap (λ got. ((receive_all (receive_all (receive m p).0 ps).0 qs).0, got))
      (sym (
        append_assoc (receive m p).1 (receive_all (receive m p).0 ps).1
          (receive_all (receive_all (receive m p).0 ps).0 qs).1)))

-- `Split` of one message after the other.
unfoldable pub split_all : ℕ → List (List ℕ) → Outcome (List (List ℕ))
split_all part_size [] = ok []
split_all part_size (c ∷ cs) =
    split (new_message c) part_size >>= λ now. split_all part_size cs >>= λ later. ok (now ++ later)

abbrev pub Fits : ℕ → List ℕ → Type 0
Fits part_size c = (0 < length c) × (length c + part_size < 2 ^ 32)

-- For a part size above five, and messages that are not empty and whose lengths with the part size
-- are below 2^32: splitting all of them returns fragments which, received one after the other with
-- no message begun, give each message once, whole and in order, and leave no message begun.
pub receive_all-split_all :
    (part_size : ℕ) (cs : List (List ℕ))
    → 5 < part_size
    → All (Fits part_size) cs
    → Returns
        (split_all part_size cs)
        (λ parts. receive_all no_message parts ≡ (no_message, map some cs))
unfolding split_all
receive_all-split_all part_size [] wide fits = ([], refl, unfold receive_all in refl)
receive_all-split_all part_size (c ∷ cs) wide ((some_bytes, small), fits) =
    let (now, run, got) = one in
    let (later, run', got') = receive_all-split_all part_size cs wide fits in
    (now ++ later, rw (run, run'), receive_all-append now later no_message ∙ rw (got, got'))
  where
    size : part_size - 5 + 5 ≡ part_size
    size = omega arith

    one :
        Returns
          (split (new_message c) part_size)
          (λ parts. receive_all no_message parts ≡ (no_message, some c ∷ []))
    one = rw size at (deliver_one c (part_size - 5) (rw size small) (omega arith) some_bytes)
