-- ===== src/Libtalek/Client/Polling/Readiness.antt =====
-- The handles that generatePoll accepts, which stay so whatever they receive.
use talek.Base.{
  ℕ, ◌^◌, ◌≤◌, ◌<◌, ◌≡◌, refl, inl, inr, true, Option, some, List, [], ◌∷◌, arith, All, length,
  Ensures-bind, Ensures-ok, Ensures-any, ok, ◌==◌, ==_refl, Bool-cases, Option-cases,
}
use talek.Common.ReadArgs.{PirArgs}
use talek.Libtalek.Message.{Message, receive}
use talek.Libtalek.Handle.{Handle, Primitives, advance_seqno, retrieve_response, on_response}
use talek.Libtalek.Client.Polling.{Store, store_at, is_polled}

-- A handle with which generatePoll returns its arguments.
pub record IsReady (h : Handle) : Type 0 where
  pub secret : List ℕ
  pub has_secret : h.shared_secret ≡ some secret
  pub public_key : List ℕ
  pub has_key : h.signing_public_key ≡ some public_key
  pub small : h.seqno < 2 ^ 64
  pub long_seed1 : 16 ≤ length h.seed1
  pub long_seed2 : 16 ≤ length h.seed2

-- The handle after a message.
received-IsReady :
    (h : Handle) (m : Message)
    → IsReady h
    → IsReady (record (advance_seqno h) { partial_message = m })
unfolding advance_seqno
received-IsReady h m ready = record {
  secret = ready.secret;
  has_secret = ready.has_secret;
  public_key = ready.public_key;
  has_key = ready.has_key;
  small = omega arith;
  long_seed1 = ready.long_seed1;
  long_seed2 = ready.long_seed2;
}

-- What OnResponse leaves is ready too.
pub on_response-IsReady :
    (c : Primitives) (h : Handle) (td : List PirArgs) (contents : List ℕ) (size : ℕ)
    (r : Handle × List (Option (List ℕ)))
    → IsReady h
    → on_response c h td contents size ≡ ok r
    → IsReady r.0
unfolding on_response
on_response-IsReady c h td contents size r ready run =
    Ensures-ok (on_response c h td contents size) r (λ x. IsReady x.0)
      (Ensures-bind (retrieve_response c h td contents size) _ (λ _. Unit {0}) (λ x. IsReady x.0)
        (Ensures-any (retrieve_response c h td contents size))
        (λ o _. elim (Option-cases o) [
          | inl e ↦ rw e ready
          | inr (msg, e) ↦ rw e (received-IsReady h (receive h.partial_message msg).0 ready)
        ]))
      run

-- Every handle of some addresses is ready.
abbrev pub AreReady : (ℕ → Type 0) → Store → Type 0
AreReady among store = (h : ℕ) → among h → IsReady (store h)

pub store_at-AreReady :
    (among : ℕ → Type 0) (store : Store) (h : ℕ) (handle : Handle)
    → AreReady among store
    → IsReady handle
    → AreReady among (store_at store h handle)
unfolding store_at
store_at-AreReady among store h handle ready own k in_k = elim (Bool-cases (k == h)) [
  | inl same ↦ rw same own
  | inr other ↦ rw other (ready k in_k)
]

polled_later :
    (x : ℕ) (xs hs : List ℕ)
    → All (λ h. is_polled xs h ≡ true) hs
    → All (λ h. is_polled (x ∷ xs) h ≡ true) hs
unfolding is_polled
polled_later x xs [] all = tt
polled_later x xs (h ∷ hs) (found, all) = (ground (arith, found), polled_later x xs hs all)

pub all_polled : (hs : List ℕ) → All (λ h. is_polled hs h ≡ true) hs
unfolding is_polled
all_polled [] = tt
all_polled (h ∷ hs) = (rw (==_refl h) refl, polled_later h hs hs (all_polled hs))
