-- ===== src/Base/Varint.antt =====
-- The variable-length integers of encoding/binary: seven bits in each byte, the lowest first, and
-- the top bit set on all but the last.
use Prim.Native.Nat.{ℕ, zero, suc, ◌+◌, ◌*◌, ◌/◌, ◌%◌, ◌^◌, ◌<◌}
use mathlib.Core.Path.{◌≡◌, ◌∙◌}
use mathlib.Core.List.{List, [], ◌∷◌}
use mathlib.Core.Logic.{inl, inr}
use native.Mathlib.Omega.{arith}
use native.Mathlib.Nat.{pow-suc}
use talek.Base.Tests.{ltb, if◌then◌else◌, Bool-cases, lt→ltb}
use talek.Base.Lists.{length, set, length-set}
use talek.Base.Results.{Outcome, ok, panic}
use talek.Base.Loops.{Returns}

-- `PutUvarint` at place `i` of `buf`, with `room` places left.
unfoldable pub put_uvarint_at : ℕ → ℕ → ℕ → List ℕ → Outcome (List ℕ)
put_uvarint_at zero i v buf = panic
put_uvarint_at (suc room) i v buf =
    let rest = put_uvarint_at room (i + 1) (v / 128) (set buf i (v % 128 + 128)) in
    if ltb v 128 then ok (set buf i v) else rest

unfoldable pub put_uvarint : List ℕ → ℕ → Outcome (List ℕ)
unfolding put_uvarint_at
put_uvarint buf v = put_uvarint_at (length buf) 0 v buf

-- The number that `Uvarint` returns: `x` so far, with `weight` the weight of the next byte. It is
-- 0 if the bytes end too early, or hold more than 64 bits.
unfoldable pub uvarint_from : ℕ → ℕ → List ℕ → ℕ
uvarint_from weight x [] = 0
uvarint_from weight x (b ∷ bs) =
    let rest = uvarint_from (weight * 128) (x + b % 128 * weight) bs in
    if ltb b 128 then (if ltb (x + b * weight) (2 ^ 64) then x + b * weight else 0) else rest

unfoldable pub uvarint : List ℕ → ℕ
unfolding uvarint_from
uvarint bs = uvarint_from 1 0 bs

put_uvarint_at-Returns :
    (room i v : ℕ) (buf : List ℕ)
    → v < 128 ^ suc room
    → Returns (put_uvarint_at (suc room) i v buf) (λ r. length r ≡ length buf)
unfolding put_uvarint_at
put_uvarint_at-Returns zero i v buf small =
    (set buf i v, rw (lt→ltb v 128 small), length-set buf i v)
put_uvarint_at-Returns (suc room) i v buf small =
    let (r, run, same) =
      put_uvarint_at-Returns room (i + 1) (v / 128) (set buf i (v % 128 + 128))
        (omega (arith, pow-suc 128 (suc room))) in
    elim (Bool-cases (ltb v 128)) [
      | inl e ↦ (set buf i v, rw e, length-set buf i v)
      | inr e ↦ (r, rw e run, same ∙ length-set buf i (v % 128 + 128))
    ]

-- Room for the seven-bit groups of the number is enough.
pub put_uvarint-Returns :
    (buf : List ℕ) (v : ℕ)
    → 0 < length buf
    → v < 128 ^ length buf
    → Returns (put_uvarint buf v) (λ r. length r ≡ length buf)
unfolding put_uvarint
put_uvarint-Returns [] v some_room small = absurd (omega arith)
put_uvarint-Returns (b ∷ bs) v some_room small =
    put_uvarint_at-Returns (length bs) 0 v (b ∷ bs) small
