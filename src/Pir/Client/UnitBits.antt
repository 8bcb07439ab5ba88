-- ===== src/Pir/Client/UnitBits.antt =====
-- The bits of the vector that asks for one bucket.
use talek.Base.{
  ℕ, ◌/◌, ◌%◌, ◌^◌, ◌<◌, ◌≡◌, sym, ap, ◌∙◌, ◌≢◌, arith, ℕ_discrete, bit_of, bit_of-zero,
  bit_of-pow_self, bit_of-pow_ne, get_or, set, replicate, length-replicate, get_or-set_self,
  get_or-set_ne, get_or-replicate,
}
use talek.Pir.ShardCpu.Answer.{vec_bit}
use talek.Pir.Client.Vectors.{unit_vector}

pub vec_bit-unit_vector_self :
    (n bucket : ℕ) → bucket / 8 < n → vec_bit (unit_vector n bucket) bucket ≡ 1
unfolding unit_vector
vec_bit-unit_vector_self n bucket h =
    ap (λ b. bit_of b (bucket % 8))
      (get_or-set_self (replicate n 0) (bucket / 8) (2 ^ (bucket % 8)) 0
        (omega (arith, length-replicate {A = ℕ} n 0)))
    ∙ bit_of-pow_self (bucket % 8)

pub vec_bit-unit_vector_ne :
    (n bucket k : ℕ) → bucket / 8 < n → bucket ≢ k → vec_bit (unit_vector n bucket) k ≡ 0
unfolding unit_vector
vec_bit-unit_vector_ne n bucket k h ne = elim (ℕ_discrete (bucket / 8) (k / 8)) [
  | yes e ↦
      ap (λ b. bit_of b (k % 8))
        (ap (λ j. get_or (set (replicate n 0) (bucket / 8) (2 ^ (bucket % 8))) j 0) (sym e)
          ∙ get_or-set_self (replicate n 0) (bucket / 8) (2 ^ (bucket % 8)) 0
              (omega (arith, length-replicate {A = ℕ} n 0)))
      ∙ bit_of-pow_ne (bucket % 8) (k % 8) (λ same. ne (omega arith))
  | no other ↦
      ap (λ b. bit_of b (k % 8))
        (get_or-set_ne (replicate n 0) (bucket / 8) (k / 8) (2 ^ (bucket % 8)) 0 other
          ∙ get_or-replicate {A = ℕ} n (k / 8) 0)
      ∙ bit_of-zero (k % 8)
]
