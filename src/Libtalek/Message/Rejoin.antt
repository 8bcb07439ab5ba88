-- ===== src/Libtalek/Message/Rejoin.antt =====
-- `Join` of the fragments of one message, in the order in which they were made.
use native.Mathlib.Nat.{mod-eq_of_lt}
use talek.Base.{
  ℕ, zero, suc, ◌+◌, ◌-◌, ◌^◌, ◌≤◌, ◌<◌, ◌≡◌, refl, sym, ap, ◌∙◌, inl, inr, Bool, true, ◌&&◌, some,
  List, [], ◌∷◌, ◌++◌, append-nil, append_assoc, arith, copy-nil, copy_at-prefix, take-add, length,
  take, drop, replicate, copy, copy_at, length-append, length-take, length-drop, length-replicate,
  length-copy, take_all, leb, ◌==◌, if◌then◌else◌, ==_iff, Bool-cases, le→leb,
}
use talek.Libtalek.Message.{
  FragmentHeader, Message, no_message, u32, from_bytes, is_new_message, join_header, join, retrieve,
}

-- A message of which the first `sent` bytes have arrived.
unfoldable pub partial : List ℕ → ℕ → Message
partial c sent = record {
  contents = take sent c ++ replicate (length c - sent) 0;
  received_end = sent;
}

-- The state before a fragment: an empty message before the first.
unfoldable pub before : List ℕ → ℕ → Bool → Message
before c sent first = if first then no_message else partial c sent

-- The bytes that a fragment carries after its header.
pub payload : List ℕ → ℕ → ℕ → List ℕ
payload c denom sent = copy (replicate denom 0) (drop sent c)

pub payload_lem :
    (c : List ℕ) (denom sent : ℕ) → payload c denom sent ≡ copy (replicate denom 0) (drop sent c)
unfolding payload
payload_lem c denom sent = refl

length-payload : (c : List ℕ) (denom sent : ℕ) → length (payload c denom sent) ≡ denom
unfolding payload
length-payload c denom sent =
    length-copy (replicate denom 0) (drop sent c) ∙ length-replicate denom 0

fill_zeros :
    (denom : ℕ) (rest : List ℕ)
    → copy (replicate (length rest) 0) (copy (replicate denom 0) rest)
      ≡ take denom rest ++ replicate (length rest - denom) 0
fill_zeros zero rest =
    copy-nil (replicate (length rest) 0) ∙ ap (λ (n : ℕ). replicate n 0) (omega arith)
fill_zeros (suc d) [] = ap (λ (n : ℕ). replicate n 0) {x = 0} (omega arith)
fill_zeros (suc d) (x ∷ rest) =
    ap (λ zs. x ∷ zs)
      (fill_zeros d rest ∙ ap (λ (n : ℕ). take d rest ++ replicate n 0) (omega arith))

-- Writing a payload after the first `sent` bytes.
write_payload :
    (c : List ℕ) (denom sent : ℕ)
    → sent ≤ length c
    → copy_at sent (take sent c ++ replicate (length c - sent) 0) (payload c denom sent)
      ≡ take (sent + denom) c ++ replicate (length c - (sent + denom)) 0
unfolding payload
write_payload c denom sent h =
    ap (λ n. copy_at n (take sent c ++ replicate (length c - sent) 0) (payload c denom sent))
      (omega (arith, length-take sent c))
    ∙ copy_at-prefix (take sent c) (replicate (length c - sent) 0) (payload c denom sent)
    ∙ ap (λ (n : ℕ). take sent c ++ copy (replicate n 0) (payload c denom sent))
        (sym (length-drop sent c))
    ∙ ap (λ zs. take sent c ++ zs) (fill_zeros denom (drop sent c))
    ∙ sym (
        append_assoc (take sent c) (take denom (drop sent c))
          (replicate (length (drop sent c) - denom) 0))
    ∙ ap (λ zs. zs ++ replicate (length (drop sent c) - denom) 0) (take-add sent denom c)
    ∙ ap (λ (n : ℕ). take (sent + denom) c ++ replicate n 0) (omega (arith, length-drop sent c))

module _ (c : List ℕ) (denom : ℕ) (small : length c + (denom + 5) < 2 ^ 32) (wide : 0 < denom) where
  length-partial : (sent : ℕ) → sent ≤ length c → length (partial c sent).contents ≡ length c
  unfolding partial
  length-partial sent h = omega (
    arith,
    length-append (take sent c) (replicate (length c - sent) 0),
    length-take sent c,
    length-replicate {A = ℕ} (length c - sent) 0,
  )

  join_contents :
      (m : Message) (sent : ℕ) (part : List ℕ) (header : FragmentHeader)
      → sent < length c
      → (if is_new_message header && m.received_end == 0
          then replicate header.left 0
          else m.contents)
        ≡ (partial c sent).contents
      → m.received_end ≡ sent
      → header.left ≡ length c - sent
      → length part ≡ denom + 5
      → drop 5 part ≡ payload c denom sent
      → join_header m header part ≡ (partial c (sent + denom), leb (length c) (sent + denom))
  unfolding join_header
  join_contents m sent part header h e_contents e_end e_left e_len e_payload =
      rw (e_contents, e_end, fits, e_payload, end, size)
        (unfold partial in rw (write_payload c denom sent (omega arith)))
    where
      fits : (length (partial c sent).contents == sent + header.left) ≡ true
      fits =
          (==_iff (length (partial c sent).contents) (sent + header.left)).1
            (omega (arith, length-partial sent (omega arith)))

      end : u32 (sent + (u32 (length part) + 2 ^ 32 - 5)) ≡ sent + denom
      end = omega arith

      size : u32 (length (partial c sent).contents) ≡ length c
      size = omega (arith, length-partial sent (omega arith))

  -- `Join` of the fragment after `sent` bytes.
  pub join_fragment :
      (sent : ℕ) (first : Bool) (part : List ℕ) (header : FragmentHeader)
      → sent < length c
      → (first ≡ true → sent ≡ 0)
      → from_bytes part ≡ some header
      → header.left ≡ length c - sent
      → is_new_message header ≡ first
      → length part ≡ denom + 5
      → drop 5 part ≡ payload c denom sent
      → join (before c sent first) part ≡ (partial c (sent + denom), leb (length c) (sent + denom))
  unfolding join before
  join_fragment sent first part header h start e_header e_left e_first e_len e_payload =
      rw (e_header, join)
        (elim (Bool-cases first) [
          | inl e ↦ rw e (
              join_contents no_message sent part header h
                (rw (e_first, e, e_left, start e) (unfold partial in refl)) (sym (start e)) e_left
                e_len e_payload)
          | inr e ↦ rw e (
              join_contents (partial c sent) sent part header h (rw (e_first, e) refl)
                (unfold partial in refl) e_left e_len e_payload)
        ])

  pub retrieve_whole :
      (sent : ℕ) → length c ≤ sent → sent < 2 ^ 32 → retrieve (partial c sent) ≡ some c
  unfolding retrieve partial
  retrieve_whole sent h fits = rw (contents, mod-eq_of_lt (short), le→leb (length c) sent h)
    where
      contents : take sent c ++ replicate (length c - sent) 0 ≡ c
      contents =
          ap (λ (n : ℕ). take sent c ++ replicate n 0) {y = 0} (omega arith)
          ∙ append-nil (take sent c)
          ∙ take_all sent c h

      short : length c < 2 ^ 32
      short = omega arith
