-- ===== src/Base/Bits.antt =====
-- Exclusive or, and the test of one bit, at variables.
use Prim.Native.Nat.{ℕ, zero, suc, ◌+◌, ◌-◌, ◌*◌, ◌/◌, ◌%◌, ◌^◌, ◌≤◌, ◌<◌, min, max}
use Prim.Native.Nat.{digits, differ, bitwise, bit_and, bit_or, bit_xor}
use Prim.Native.Nat.{bit_and-bitwise, bit_or-bitwise, bit_xor-bitwise}
use mathlib.Core.Path.{◌≡◌, refl, ap, ◌∙◌}
use mathlib.Core.Logic.{◌≢◌}
use native.Mathlib.Nat.{pow-suc}
use native.Mathlib.Omega.{arith}

-- `digits` halves its first number in each round, so fuel beyond that number is not used.
module _ (last : ℕ → ℕ) (digit : ℕ → ℕ → ℕ) where
  one_more :
      (x y fuel : ℕ) → x ≤ fuel → digits last digit (suc fuel) x y ≡ digits last digit fuel x y
  one_more zero y zero small = refl
  one_more zero y (suc fuel) small = refl
  one_more (suc x) y zero small = absurd (omega arith)
  one_more (suc x) y (suc fuel) small = rw (one_more (suc x / 2) (y / 2) fuel (omega arith))

  spare_fuel :
      (spare fuel total x y : ℕ)
      → total ≡ fuel + spare
      → x ≤ fuel
      → digits last digit total x y ≡ digits last digit fuel x y
  spare_fuel zero fuel total x y e small = ap (λ t. digits last digit t x y) (omega arith)
  spare_fuel (suc spare) fuel zero x y e small = absurd (omega arith)
  spare_fuel (suc spare) fuel (suc total) x y e small =
      one_more x y total (omega arith) ∙ spare_fuel spare fuel total x y (omega arith) small

  halve :
      (x y : ℕ)
      → bitwise last digit (suc x) y
        ≡ digit (suc x % 2) (y % 2) + 2 * bitwise last digit (suc x / 2) (y / 2)
  halve x y =
      let half = suc x / 2 in
      let spare = spare_fuel (x - half) half x half (y / 2) (omega arith) (omega arith) in
      omega (arith, spare)

differ_bits : (x y : ℕ) → x < 2 → y < 2 → differ x y ≡ (x + y) % 2
differ_bits zero zero h k = refl
differ_bits zero (suc zero) h k = refl
differ_bits (suc zero) zero h k = refl
differ_bits (suc zero) (suc zero) h k = refl
differ_bits (suc (suc x)) y h k = absurd (omega arith)
differ_bits x (suc (suc y)) h k = absurd (omega arith)

pub bit_xor_step : (x y : ℕ) → bit_xor x y ≡ (x + y) % 2 + 2 * bit_xor (x / 2) (y / 2)
bit_xor_step zero y = omega (bit_xor-bitwise 0 (y / 2), bit_xor-bitwise 0 y, arith)
bit_xor_step (suc x) y = omega (
  bit_xor-bitwise (suc x / 2) (y / 2),
  halve (λ b. b) differ x y,
  bit_xor-bitwise (suc x) y,
  differ_bits (suc x % 2) (y % 2) (omega arith) (omega arith),
  arith,
)

pub bit_and_lowest : (x y : ℕ) → bit_and x y ≡ min (x % 2) (y % 2) + 2 * bit_and (x / 2) (y / 2)
bit_and_lowest zero y = omega (bit_and-bitwise 0 (y / 2), bit_and-bitwise 0 y, arith)
bit_and_lowest (suc x) y =
    omega (
      halve (λ _. 0) min x y,
      bit_and-bitwise (suc x / 2) (y / 2),
      bit_and-bitwise (suc x) y,
      arith,
    )

pub bit_or_lowest : (x y : ℕ) → bit_or x y ≡ max (x % 2) (y % 2) + 2 * bit_or (x / 2) (y / 2)
bit_or_lowest zero y = omega (bit_or-bitwise 0 (y / 2), bit_or-bitwise 0 y, arith)
bit_or_lowest (suc x) y =
    omega
      (halve (λ b. b) max x y, bit_or-bitwise (suc x / 2) (y / 2), bit_or-bitwise (suc x) y, arith)

bit_xor-zero : (n a : ℕ) → a ≤ n → bit_xor a 0 ≡ a
bit_xor-zero zero zero h = refl
bit_xor-zero zero (suc a) h = absurd (omega arith)
bit_xor-zero (suc n) a h = omega (arith, bit_xor_step a 0, bit_xor-zero n (a / 2) (omega arith))

bit_xor_self_below : (n a : ℕ) → a ≤ n → bit_xor a a ≡ 0
bit_xor_self_below zero zero h = refl
bit_xor_self_below zero (suc a) h = absurd (omega arith)
bit_xor_self_below (suc n) a h =
    omega (arith, bit_xor_step a a, bit_xor_self_below n (a / 2) (omega arith))

bit_xor_comm_below : (n a b : ℕ) → a ≤ n → b ≤ n → bit_xor a b ≡ bit_xor b a
bit_xor_comm_below zero zero zero h k = refl
bit_xor_comm_below zero (suc a) b h k = absurd (omega arith)
bit_xor_comm_below zero a (suc b) h k = absurd (omega arith)
bit_xor_comm_below (suc n) a b h k = omega (
  arith,
  bit_xor_step a b,
  bit_xor_step b a,
  bit_xor_comm_below n (a / 2) (b / 2) (omega arith) (omega arith),
)

bit_xor_half : (a b : ℕ) → bit_xor a b / 2 ≡ bit_xor (a / 2) (b / 2)
bit_xor_half a b = omega (arith, bit_xor_step a b)

bit_xor_parity : (a b : ℕ) → bit_xor a b % 2 ≡ (a + b) % 2
bit_xor_parity a b = omega (arith, bit_xor_step a b)

bit_xor_step_left :
    (a b c : ℕ)
    → bit_xor (bit_xor a b) c ≡ (a + b + c) % 2 + 2 * bit_xor (bit_xor (a / 2) (b / 2)) (c / 2)
bit_xor_step_left a b c =
    bit_xor_step (bit_xor a b) c ∙ rw bit_xor_half (omega (arith, bit_xor_parity a b))

bit_xor_step_right :
    (a b c : ℕ)
    → bit_xor a (bit_xor b c) ≡ (a + b + c) % 2 + 2 * bit_xor (a / 2) (bit_xor (b / 2) (c / 2))
bit_xor_step_right a b c =
    bit_xor_step a (bit_xor b c) ∙ rw bit_xor_half (omega (arith, bit_xor_parity b c))

bit_xor_assoc_below :
    (n a b c : ℕ) → a ≤ n → b ≤ n → c ≤ n → bit_xor (bit_xor a b) c ≡ bit_xor a (bit_xor b c)
bit_xor_assoc_below zero zero zero zero h k l = refl
bit_xor_assoc_below zero (suc a) b c h k l = absurd (omega arith)
bit_xor_assoc_below zero a (suc b) c h k l = absurd (omega arith)
bit_xor_assoc_below zero a b (suc c) h k l = absurd (omega arith)
bit_xor_assoc_below (suc n) a b c h k l = omega (
  arith,
  bit_xor_step_left a b c,
  bit_xor_step_right a b c,
  bit_xor_assoc_below n (a / 2) (b / 2) (c / 2) (omega arith) (omega arith) (omega arith),
)

pub bit_xor_zero_right : (a : ℕ) → bit_xor a 0 ≡ a
bit_xor_zero_right a = bit_xor-zero a a (omega arith)

pub bit_xor_self : (a : ℕ) → bit_xor a a ≡ 0
bit_xor_self a = bit_xor_self_below a a (omega arith)

pub bit_xor_comm : (a b : ℕ) → bit_xor a b ≡ bit_xor b a
bit_xor_comm a b = bit_xor_comm_below (a + b) a b (omega arith) (omega arith)

pub bit_xor_zero_left : (a : ℕ) → bit_xor 0 a ≡ a
bit_xor_zero_left a = bit_xor_comm 0 a ∙ bit_xor_zero_right a

pub bit_xor_assoc : (a b c : ℕ) → bit_xor (bit_xor a b) c ≡ bit_xor a (bit_xor b c)
bit_xor_assoc a b c =
    bit_xor_assoc_below (a + b + c) a b c (omega arith) (omega arith) (omega arith)

double_field : (k field : ℕ) → 2 * (field * 2 ^ k) ≡ field * 2 ^ suc k
double_field k field = omega (arith, ap (λ (power : ℕ). field * power) (pow-suc 2 k))

-- Exclusive or acts on the fields of a word separately.
pub bit_xor_fields :
    (k q r q' r' : ℕ)
    → r < 2 ^ k
    → r' < 2 ^ k
    → bit_xor (q * 2 ^ k + r) (q' * 2 ^ k + r') ≡ bit_xor q q' * 2 ^ k + bit_xor r r'
bit_xor_fields zero q zero q' zero h h' = ground (arith, bit_xor_zero_right 0)
bit_xor_fields zero q (suc r) q' r' h h' = absurd (omega arith)
bit_xor_fields zero q r q' (suc r') h h' = absurd (omega arith)
bit_xor_fields (suc k) q r q' r' h h' = ground (
  arith,
  bit_xor_step (q * 2 ^ suc k + r) (q' * 2 ^ suc k + r'),
  bit_xor_step r r',
  double_field k q,
  double_field k q',
  double_field k (bit_xor q q'),
  pow-suc 2 k,
  bit_xor_fields k q (r / 2) q' (r' / 2) (omega (arith, pow-suc 2 k)) (omega (arith, pow-suc 2 k)),
)

-- The bit of `a` at position `k`.
abbrev pub bit_of : ℕ → ℕ → ℕ
bit_of a zero = a % 2
bit_of a (suc k) = bit_of (a / 2) k

pub bit_of-bit_xor : (a b k : ℕ) → bit_of (bit_xor a b) k ≡ (bit_of a k + bit_of b k) % 2
bit_of-bit_xor a b zero = omega (arith, bit_xor_parity a b)
bit_of-bit_xor a b (suc k) = rw bit_xor_half (bit_of-bit_xor (a / 2) (b / 2) k)

pub bit_of-zero : (k : ℕ) → bit_of 0 k ≡ 0
bit_of-zero zero = refl
bit_of-zero (suc k) = bit_of-zero k

pub bit_of-lt : (a k : ℕ) → bit_of a k < 2
bit_of-lt a zero = omega arith
bit_of-lt a (suc k) = bit_of-lt (a / 2) k

bit_and-zero : (bound x : ℕ) → x ≤ bound → bit_and x 0 ≡ 0
bit_and-zero zero (suc x) h = absurd (omega arith)
bit_and-zero zero zero h = refl
bit_and-zero (suc n) a h = omega (arith, bit_and_lowest a 0, bit_and-zero n (a / 2) (omega arith))

pub bit_and_zero_right : (a : ℕ) → bit_and a 0 ≡ 0
bit_and_zero_right a = bit_and-zero a a (omega arith)

-- Masking with `1 << k` leaves bit `k` alone.
pub bit_and-pow : (a k : ℕ) → bit_and a (2 ^ k) ≡ bit_of a k * 2 ^ k
bit_and-pow a zero = omega (arith, bit_and_lowest a 1, bit_and-zero (a / 2) (a / 2) (omega arith))
bit_and-pow a (suc k) = ground (
  arith,
  bit_and_lowest a (2 ^ suc k),
  pow-suc 2 k,
  double_field k (bit_of (a / 2) k),
  bit_and-pow (a / 2) k,
)

pub bit_or_zero_left : (b : ℕ) → bit_or 0 b ≡ b
bit_or_zero_left b = bit_or-bitwise 0 b

-- A power of two has one bit.
pub bit_of-pow_self : (k : ℕ) → bit_of (2 ^ k) k ≡ 1
bit_of-pow_self zero = refl
bit_of-pow_self (suc k) = ap (λ n. bit_of n k) (omega (arith, pow-suc 2 k)) ∙ bit_of-pow_self k

pub bit_of-pow_ne : (i k : ℕ) → i ≢ k → bit_of (2 ^ i) k ≡ 0
bit_of-pow_ne zero zero ne = absurd (ne refl)
bit_of-pow_ne zero (suc k) ne = bit_of-zero k
bit_of-pow_ne (suc i) zero ne = omega (arith, pow-suc 2 i)
bit_of-pow_ne (suc i) (suc k) ne =
    ap (λ n. bit_of n k) (omega (arith, pow-suc 2 i)) ∙ bit_of-pow_ne i k (λ e. ne (ap suc e))
