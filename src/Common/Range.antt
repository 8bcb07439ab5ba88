-- ===== src/Common/Range.antt =====
-- The ranges of sequence numbers of common/replica_protocol.go, and what a trust domain of
-- common/trustdomain_config.go tells of itself. The keys are left out, and a text is a list of
-- bytes.
pub mod Membership
use talek.Base.{
  ℕ, ◌+◌, Bool, true, false, not, ◌||◌, List, [], ◌∷◌, length, get_elem?, Outcome, ◌>>=◌, or_panic,
  ok, ltb, leb, ◌==◌, if◌then◌else◌,
}

-- `Range`; `until` is the source's `End`.
pub record Range : Type 0 where
  pub start : ℕ
  pub until : ℕ
  pub aborted : List ℕ

-- The loop of `Equals` from place `i`, with the rest of `r.Aborted`.
unfoldable pub same_aborted : List ℕ → List ℕ → ℕ → Outcome Bool
same_aborted [] others i = ok true
same_aborted (x ∷ xs) others i = or_panic (get_elem? others i) >>= λ y.
    if x == y then same_aborted xs others (i + 1) else ok false

unfoldable pub equals : Range → Range → Outcome Bool
unfolding same_aborted
equals r b =
    if not (r.start == b.start)
      || (not (r.until == b.until) || not (length r.aborted == length b.aborted))
    then ok false
    else same_aborted r.aborted b.aborted 0

-- The loop of `Contains`.
unfoldable pub is_aborted : List ℕ → ℕ → Bool
is_aborted [] val = false
is_aborted (elt ∷ elts) val = if val == elt then true else is_aborted elts val

unfoldable pub contains : Range → ℕ → Bool
unfolding is_aborted
contains r val =
    if ltb val r.start
    then false
    else if leb r.until val
    then false
    else not (is_aborted r.aborted val)

pub record TrustDomainConfig : Type 0 where
  pub name : List ℕ
  pub address : List ℕ
  pub is_valid : Bool

unfoldable pub get_name : TrustDomainConfig → List ℕ × Bool
get_name td = if not td.is_valid then ([], false) else (td.name, td.is_valid)

unfoldable pub get_address : TrustDomainConfig → List ℕ × Bool
get_address td = if not td.is_valid then ([], false) else (td.address, td.is_valid)
