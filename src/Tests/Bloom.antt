-- ===== src/Tests/Bloom.antt =====
-- A set of seventy bits, in two words.
use talek.Base.{
  ℕ, ◌≡◌, refl, ◌↔◌, true, ◌&&◌, some, [], ◌∷◌, arith, Returns, ok, ltb, ◌==◌, if◌then◌else◌,
}
use talek.Bloom.BitSet.{BitSet, test, set_to, equal, words_needed}
use talek.Bloom.BitSet.Bits.{IsValid}
use talek.Bloom.BitSet.Update.{test-set_to}
use talek.Bloom.BitSet.Equality.{equal_iff}
use talek.Bloom.Filter.{check_locations, set_locations}
use talek.Bloom.Filter.Membership.{check_locations-set_locations}

abbrev seventy : BitSet
seventy = record { num_bits = 70; contents = 5 ∷ 0 ∷ [] }

seventy-IsValid : IsValid seventy
unfolding words_needed
seventy-IsValid = record { small = omega arith; sized = refl }

test-set_to_example : Returns (set_to seventy 66 true) (λ r.
    IsValid r.0
    × (r.1 ≡ ltb 66 70)
    × ((j : ℕ) → test r.0 j ≡ (if (j == 66) && r.1 then ok true else test seventy j)))
test-set_to_example = test-set_to seventy 66 true seventy-IsValid

equal_iff_example :
    Returns (equal (some seventy) (some seventy)) (λ r. (r ≡ true) ↔ (seventy ≡ seventy))
equal_iff_example = equal_iff seventy seventy seventy-IsValid seventy-IsValid

check_locations-set_locations_example : Returns (set_locations seventy (200 ∷ 7 ∷ [])) (λ b'.
    Returns (set_locations b' (71 ∷ [])) (λ b''. check_locations b'' (200 ∷ 7 ∷ []) ≡ ok true))
check_locations-set_locations_example =
    check_locations-set_locations seventy (200 ∷ 7 ∷ []) (71 ∷ []) seventy-IsValid (omega arith)
