-- ===== src/Common/Encoding/Roundtrip.antt =====
-- A trust domain decodes the request vector and the pad that the client encoded for it.
use talek.Base.{
  ℕ, zero, suc, ◌+◌, ◌≤◌, ◌≡◌, refl, sym, ap, ◌∙◌, false, some, List, [], ◌∷◌, map, arith, length,
  get_elem?, get_or, get_elem?-get_or, get_or-eq_of_get_elem?, Returns, ok, ltb, ltb-eq-false,
}
use mathlib.Core.Option.{some-ne-none, some-injective}
use talek.Common.ReadArgs.{PirArgs}
use talek.Common.Encoding.{Codec, encode_from, encode, decode}

-- What nacl/box and gob document, for the client's pair of keys and the pairs of the trust domains:
-- a box has at least 16 bytes, the other side opens it, and gob decodes what it encoded.
pub record IsSound (c : Codec) (client : List ℕ × List ℕ) (nonce : List ℕ)
    (pairs : List (List ℕ × List ℕ)) : Type 0 where
  pub long : (key msg : List ℕ) → 16 ≤ length (c.seal nonce key client.1 msg)
  pub opens :
      (i : ℕ) (pair : List ℕ × List ℕ) (msg : List ℕ)
      → get_elem? pairs i ≡ some pair
      → c.unseal nonce client.0 pair.1 (c.seal nonce pair.0 client.1 msg) ≡ some msg
  pub decoded : (args : PirArgs) → Returns (c.gob_encode args) (λ b. c.gob_decode b ≡ ok args)

abbrev pub public_keys : List (List ℕ × List ℕ) → List (List ℕ)
public_keys pairs = map (λ p. p.0) pairs

no_args : PirArgs
no_args = record { request_vector = []; pad_seed = [] }

module _ (c : Codec) (client : List ℕ × List ℕ) (nonce : List ℕ) (td : List PirArgs)
    (all_pairs : List (List ℕ × List ℕ)) (sound : IsSound c client nonce all_pairs) where
  -- The box for the trust domain at place `k` of the rest.
  record Boxed (pairs : List (List ℕ × List ℕ)) (j : ℕ) (out : List (List ℕ)) (k : ℕ)
      (pair : List ℕ × List ℕ) : Type 0 where
    pub msg : List ℕ
    pub placed : get_elem? out k ≡ some (c.seal nonce pair.0 client.1 msg)
    pub holds : c.gob_decode msg ≡ ok (get_or td (j + k) no_args)

  next_place :
      {pairs : List (List ℕ × List ℕ)} {j : ℕ} {out : List (List ℕ)} {k : ℕ}
      {pair : List ℕ × List ℕ} (b : List ℕ) (p : List ℕ × List ℕ)
      → Boxed pairs (j + 1) out k pair
      → Boxed (p ∷ pairs) j (b ∷ out) (suc k) pair
  next_place {j} {k} b p h = record {
    msg = h.msg;
    placed = h.placed;
    holds = h.holds ∙ ap (λ n. ok (get_or td n no_args)) (omega arith);
  }

  encode_from-Boxed :
      (pairs : List (List ℕ × List ℕ)) (j : ℕ)
      → j + length pairs ≤ length td
      → Returns (encode_from c td nonce client.1 (public_keys pairs) j) (λ out.
        (k : ℕ) (pair : List ℕ × List ℕ) → get_elem? pairs k ≡ some pair → Boxed pairs j out k pair)
  unfolding encode_from
  encode_from-Boxed [] j fits = ([], refl, λ k pair found. absurd (some-ne-none pair (sym found)))
  encode_from-Boxed (p ∷ pairs) j fits =
      let args = get_or td j no_args in
      let present = get_elem?-get_or td j no_args (omega arith) in
      let (msg, run, back) = sound.decoded args in
      let (out, run', boxed) = encode_from-Boxed pairs (j + 1) (omega arith) in
      (
        c.seal nonce p.0 client.1 msg ∷ out,
        rw (present, run, run') refl,
        λ k pair found. each msg back out boxed k pair found,
      )
    where
      each :
          (msg : List ℕ)
          → c.gob_decode msg ≡ ok (get_or td j no_args)
          → (out : List (List ℕ))
          → ((k : ℕ) (pair : List ℕ × List ℕ)
              → get_elem? pairs k ≡ some pair
              → Boxed pairs (j + 1) out k pair)
          → (k : ℕ) (pair : List ℕ × List ℕ) → get_elem? (p ∷ pairs) k ≡ some pair
          → Boxed (p ∷ pairs) j (c.seal nonce p.0 client.1 msg ∷ out) k pair
      each msg back out boxed zero pair found = record {
        msg = msg;
        placed =
            ap (λ (q : List ℕ × List ℕ). some (c.seal nonce q.0 client.1 msg))
              (some-injective p pair found);
        holds = back ∙ ap (λ n. ok (get_or td n no_args)) (omega arith);
      }
      each msg back out boxed (suc k) pair found =
          next_place (c.seal nonce p.0 client.1 msg) p (boxed k pair found)

-- For as many key pairs as there are arguments, and boxes and gob as documented, Encode with a
-- client's keys returns normally, and the trust domain at each place decodes its own arguments with
-- its private key.
pub decode-encode :
    (c : Codec) (client : List ℕ × List ℕ) (nonce : List ℕ) (td : List PirArgs)
    (pairs : List (List ℕ × List ℕ)) (i : ℕ) (pair : List ℕ × List ℕ) (args : PirArgs)
    → IsSound c client nonce pairs
    → length pairs ≡ length td
    → get_elem? pairs i ≡ some pair
    → get_elem? td i ≡ some args
    → Returns
        (encode c (some client) (some nonce) td (public_keys pairs))
        (λ r. decode c r i pair.1 ≡ ok args)
unfolding encode decode
decode-encode c client nonce td pairs i pair args sound same present asked =
    let (out, run, boxed) =
      encode_from-Boxed c client nonce td pairs sound pairs 0 (omega (arith, same)) in
    let b = boxed i pair present in
    let full : ltb (length (c.seal nonce pair.0 client.1 b.msg)) 16 ≡ false =
      ltb-eq-false (length (c.seal nonce pair.0 client.1 b.msg)) 16 (sound.long pair.0 b.msg) in
    (
      record { client_key = client.0; nonce = nonce; pir_args = out },
      rw run refl,
      rw (b.placed, full, sound.opens i pair b.msg present)
          (b.holds
            ∙ ap ok (
                ap (λ n. get_or td n no_args) (omega arith)
                ∙ get_or-eq_of_get_elem? td i no_args args asked)),
    )
