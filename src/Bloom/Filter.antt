-- ===== src/Bloom/Filter.antt =====
-- bloom/filter.go. `sip key message` is the 64-bit SipHash of what was written so far, for a hash
-- that `siphash.New(key)` made. EstimateParameters, on floating-point numbers, is left out.
pub mod Membership
use talek.Base.{
  ℕ, zero, suc, ◌+◌, Bool, true, false, List, [], ◌∷◌, ◌++◌, length, replicate, Outcome, ◌>>=◌,
  remainder, ok, panic, ◌==◌, if◌then◌else◌, put_uvarint,
}
use talek.Bloom.BitSet.{BitSet, test, set_bit}

module _ (sip : List ℕ → List ℕ → ℕ) (key : List ℕ) where
  -- The loop of `GetLocations` with `left` rounds to go, after `written`.
  unfoldable pub locations_from : ℕ → ℕ → List ℕ → List ℕ → Outcome (List ℕ)
  unfolding put_uvarint
  locations_from zero i buf written = ok []
  locations_from (suc left) i buf written = put_uvarint buf i >>= λ buf'.
      let written' = written ++ buf' in
      locations_from left (i + 1) buf' written' >>= λ result. ok (sip key written' ∷ result)

  -- `siphash.New` panics unless the key has 16 bytes.
  unfoldable pub get_locations : ℕ → List ℕ → Outcome (List ℕ)
  unfolding locations_from
  get_locations num_hash contents =
      if length key == 16 then locations_from num_hash 0 (replicate 8 0) contents else panic

unfoldable pub check_locations : BitSet → List ℕ → Outcome Bool
unfolding remainder
check_locations b [] = ok true
check_locations b (loc ∷ locs) = remainder loc b.num_bits >>= λ i.
    test b i >>= λ found. if found then check_locations b locs else ok false

unfoldable pub set_locations : BitSet → List ℕ → Outcome BitSet
unfolding remainder
set_locations b [] = ok b
set_locations b (loc ∷ locs) =
    remainder loc b.num_bits >>= λ i. set_bit b i >>= λ r. set_locations r.0 locs
