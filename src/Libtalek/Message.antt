-- ===== src/Libtalek/Message.antt =====
-- libtalek/message.go: messages cut into fragments and put together again. `receive` is what
-- `OnResponse` of libtalek/handle.go does with a decrypted fragment. The part size of `split` is
-- a natural number; the lengths of slices are below 2^63.
pub mod Fragments
pub mod Rejoin
pub mod Delivery
pub mod Sizes
use talek.Base.{
  ℕ, zero, suc, ◌+◌, ◌-◌, ◌/◌, ◌%◌, ◌^◌, min, bit_and, bit_or, Bool, true, false, not, ◌&&◌, Option,
  none, some, List, [], ◌∷◌, ◌++◌, le_word, le_bytes, length, get_or, set, take, drop, replicate,
  copy_at, Outcome, ◌>>=◌, ok, panic, ltb, leb, ◌==◌, if◌then◌else◌,
}

abbrev pub fragment_header_length : ℕ
fragment_header_length = 5

abbrev pub u32 : ℕ → ℕ
u32 n = n % 2 ^ 32

pub record FragmentHeader : Type 0 where
  pub flag : ℕ
  pub left : ℕ

pub record Message : Type 0 where
  pub contents : List ℕ
  pub received_end : ℕ

-- `message{}`
abbrev pub no_message : Message
no_message = record { contents = []; received_end = 0 }

-- `fromBytes`; none is the nil header
unfoldable pub from_bytes : List ℕ → Option FragmentHeader
from_bytes message =
    if ltb (length message) fragment_header_length
    then none
    else some (record { flag = get_or message 0 0; left = le_word (take 4 (drop 1 message)) })

unfoldable pub is_new_message : FragmentHeader → Bool
is_new_message f = bit_and f.flag 1 == 1

unfoldable pub new_fragment : Bool → ℕ → FragmentHeader
new_fragment first_fragment remaining_length = record {
  flag = if first_fragment then bit_or 0 1 else 0;
  left = remaining_length;
}

-- `ToBytes` into a buffer, which must have room for the header.
unfoldable pub to_bytes : FragmentHeader → List ℕ → Outcome (List ℕ)
to_bytes f buf =
    if ltb (length buf) fragment_header_length
    then panic
    else ok (copy_at 1 (set buf 0 f.flag) (le_bytes 4 f.left))

unfoldable pub new_message : List ℕ → Message
new_message msg = record { contents = msg; received_end = u32 (length msg) }

-- The loop of `Split` with `count` parts to make.
unfoldable pub split_parts : List ℕ → ℕ → ℕ → Bool → ℕ → Outcome (List (List ℕ))
unfolding to_bytes new_fragment
split_parts contents part_size zero first remaining = ok []
split_parts contents part_size (suc count) first remaining =
    to_bytes (new_fragment first (u32 remaining)) (replicate part_size 0) >>= λ part.
    let rest = drop (length contents - remaining) contents in
    let copied = min (part_size - fragment_header_length) (length rest) in
    split_parts contents part_size count false (remaining - copied) >>= λ parts.
    ok (copy_at fragment_header_length part rest ∷ parts)

-- The number of parts for `denom > 0`.
unfoldable pub num_parts : ℕ → ℕ → ℕ
num_parts len denom = if len % denom == 0 then len / denom else len / denom + 1

-- For a negative `denom`, the count is `-(len / -denom)`, and one more if the remainder is not 0:
-- no part at all, or a negative size or a part too short for its header, which both panic.
unfoldable pub split_negative : ℕ → ℕ → Outcome (List (List ℕ))
split_negative len neg_denom =
    if (if len % neg_denom == 0 then len / neg_denom == 0 else len / neg_denom == 1)
    then ok []
    else panic

unfoldable pub split : Message → ℕ → Outcome (List (List ℕ))
unfolding split_parts num_parts split_negative
split m part_size =
    let len = length m.contents in
    if part_size == fragment_header_length
    then panic
    else if ltb part_size fragment_header_length
    then split_negative len (fragment_header_length - part_size)
    else split_parts m.contents part_size (num_parts len (part_size - fragment_header_length)) true
        len

-- The part of `Join` after the header is read.
unfoldable pub join_header : Message → FragmentHeader → List ℕ → Message × Bool
unfolding is_new_message
join_header m header part =
    let contents =
      if is_new_message header && m.received_end == 0
      then replicate header.left 0
      else m.contents in
    if not (length contents == m.received_end + header.left)
    then (record m { contents = contents }, false)
    else let end = u32 (m.received_end + (u32 (length part) + 2 ^ 32 - fragment_header_length)) in
      (
        record {
          contents = copy_at m.received_end contents (drop fragment_header_length part);
          received_end = end;
        },
        leb (u32 (length contents)) end,
      )

unfoldable pub join : Message → List ℕ → Message × Bool
unfolding from_bytes join_header
join m part = elim (from_bytes part) [ none ↦ (m, false) | some header ↦ join_header m header part ]

-- `Retrieve`; none is the nil slice
unfoldable pub retrieve : Message → Option (List ℕ)
retrieve m = if leb (u32 (length m.contents)) m.received_end then some m.contents else none

-- `h.partialMessage` after a fragment, and what is sent to `h.updates`.
unfoldable pub receive : Message → List ℕ → Message × List (Option (List ℕ))
unfolding join retrieve
receive m part =
    let (m', done) = join m part in if done then (no_message, retrieve m' ∷ []) else (m', [])

-- A run of fragments.
unfoldable pub receive_all : Message → List (List ℕ) → Message × List (Option (List ℕ))
unfolding receive
receive_all m [] = (m, [])
receive_all m (part ∷ parts) =
    let (m', now) = receive m part in let (m'', later) = receive_all m' parts in (m'', now ++ later)
