-- ===== src/Libtalek/Client/Polling/Fairness.antt =====
-- The read loop reads both buckets of every handle in turn, whatever the leader replies.
use talek.Base.{
  ℕ, zero, suc, ◌+◌, ◌≤◌, ◌<◌, ◌≡◌, refl, sym, ap, ◌∙◌, Bool, true, Option, some, List, [], ◌∷◌,
  ◌++◌, append-nil, append_assoc, All, Returns, Outcome, ◌>>=◌, ok,
}
use talek.Pir.Client.Vectors.{Fills}
use talek.Common.ReadArgs.{PirArgs}
use talek.Common.Protocol.{ReadReply}
use talek.Libtalek.Handle.{Primitives, Handle, next_buckets, generate_poll, on_response}
use talek.Libtalek.Handle.Polls.{HasWholeSeed, FillsSeeds, Asks, generate_poll-AsksBoth}
use talek.Libtalek.Client.Polling.Readiness.{
  IsReady, on_response-IsReady, AreReady, store_at-AreReady, all_polled,
}
use talek.Libtalek.Client.{Client, ClientConfig, Request, Leader}
use talek.Libtalek.Client.Polling.{
  Store, store_at, is_polled, Randomness, next_from, next_request, take_from, take_request,
  note_reply, take_reply, read_round,
}

-- The two requests sent for a handle, each with the handles as they are before its round: they ask
-- all the trust domains for the two next buckets of the handle as it is before the first.
pub record Both (c : Primitives) (conf : ClientConfig) (h : ℕ) (first second : Store × Request)
    : Type 0 where
  pub buckets : ℕ × ℕ
  pub next : next_buckets c (first.0 h) conf.num_buckets ≡ ok buckets
  pub td1 : List PirArgs
  pub td2 : List PirArgs
  pub sent1 : first.1 ≡ record { td = some td1; handle = some h }
  pub sent2 : second.1 ≡ record { td = some td2; handle = some h }
  pub asks1 : Asks conf.trust_domains conf.num_buckets buckets.0 td1
  pub asks2 : Asks conf.trust_domains conf.num_buckets buckets.1 td2

-- Two requests for each handle.
abbrev pub BothEach : Primitives → ClientConfig → List ℕ → List (Store × Request) → Type 0
BothEach c conf [] [] = Unit
BothEach c conf [] (x ∷ xs) = ⊥
BothEach c conf (h ∷ hs) [] = ⊥
BothEach c conf (h ∷ hs) (x ∷ []) = ⊥
BothEach c conf (h ∷ hs) (x ∷ y ∷ xs) = Both c conf h x y × BothEach c conf hs xs

-- Two rounds for each handle.
abbrev pub twice : List ℕ → ℕ
twice [] = 0
twice (h ∷ hs) = suc (suc (twice hs))

-- The randomness is read whole, there are at least two trust domains and some buckets.
pub record CanPoll (conf : ClientConfig) (sources : ℕ → Randomness) : Type 0 where
  pub fills : (k j : ℕ) → Fills ((sources k).rand j)
  pub seeds : (k j : ℕ) → FillsSeeds ((sources k).reader j)
  pub enough : 2 ≤ conf.trust_domains
  pub some_buckets : 0 < conf.num_buckets

-- No reply of the leader makes OnResponse panic.
abbrev pub IsHeard : Primitives → ClientConfig → Leader → Type 0
IsHeard c conf leader =
    (h : Handle) (td : List PirArgs)
    → IsReady h
    → All HasWholeSeed td
    → Returns (on_response c h td (leader.read td).1.contents conf.data_size) (λ _. Unit {0})

module _ (c : Primitives) (u : Bool) (sources : ℕ → Randomness) (conf : ClientConfig)
    (leader : Leader) where
  -- `n` rounds of `readPeriodic` from round `k`: the client, the handles, and the requests that they
  -- send, each with the handles before its round.
  unfoldable pub read_rounds :
      ℕ → ℕ → Client → Store → Outcome ((Client × Store) × List (Store × Request))
  unfolding read_round
  read_rounds zero k cl store = ok ((cl, store), [])
  read_rounds (suc n) k cl store =
      read_round c u (sources k) conf leader cl store >>= λ (cl', store', req, sent).
      read_rounds n (k + 1) cl' store' >>= λ rs. ok (rs.0, (store, req) ∷ rs.1)

  abbrev waiting : Client → List ℕ → List Request → Client
  waiting cl hs reqs = record cl { handles = hs; pending_reads = reqs }

  -- A round whose request is known.
  one_round :
      (k : ℕ) (cl cl' : Client) (store : Store) (h : ℕ) (td : List PirArgs)
      (r : Handle × List (Option (List ℕ)))
      → take_request c u (sources k) conf store cl
        ≡ ok (cl', record { td = some td; handle = some h })
      → on_response c (store h) td (leader.read td).1.contents conf.data_size ≡ ok r
      → read_round c u (sources k) conf leader cl store
        ≡ ok (
          note_reply cl' (leader.read td).1,
          store_at store h r.0,
          record { td = some td; handle = some h },
          r.1,
        )
  unfolding read_round take_reply
  one_round k cl cl' store h td r taken heard = rw (taken, heard) refl

  -- The first request of a handle, and the second, which waits.
  first_taken :
      (k : ℕ) (cl : Client) (store : Store) (h : ℕ) (hs : List ℕ) (td1 td2 : List PirArgs)
      → generate_poll c u
          (sources k).rand
          (sources k).reader
          (store h)
          conf.trust_domains
          conf.num_buckets
        ≡ ok (some td1, some td2)
      → take_request c u (sources k) conf store (waiting cl (h ∷ hs) [])
        ≡ ok (
          waiting cl (hs ++ h ∷ []) (record { td = some td2; handle = some h } ∷ []),
          record { td = some td1; handle = some h },
        )
  unfolding take_request take_from next_request next_from
  first_taken k cl store h hs td1 td2 polled = rw polled refl

  -- Two rounds for the first handle.
  record Turn (among : ℕ → Type 0) (k : ℕ) (cl : Client) (store : Store) (h : ℕ) (hs : List ℕ)
      : Type 0 where
    cl' : Client
    store' : Store
    first : Store × Request
    second : Store × Request
    both : Both c conf h first second
    ready' : AreReady among store'
    runs :
        (n : ℕ) (rs : (Client × Store) × List (Store × Request))
        → read_rounds n (k + 1 + 1) (waiting cl' (hs ++ h ∷ []) []) store' ≡ ok rs
        → read_rounds (suc (suc n)) k (waiting cl (h ∷ hs) []) store
          ≡ ok (rs.0, first ∷ second ∷ rs.1)

  second_taken :
      (k : ℕ) (cl : Client) (store : Store) (reqs : List Request) (req : Request)
      (reply : ReadReply)
      → cl.pending_reads ≡ req ∷ reqs
      → take_request c u (sources k) conf store (note_reply cl reply)
        ≡ ok (record (note_reply cl reply) { pending_reads = reqs }, req)
  unfolding take_request take_from note_reply
  second_taken k cl store reqs req reply waits = rw waits refl

  one_turn :
      (among : ℕ → Type 0) (k : ℕ) (cl : Client) (store : Store) (h : ℕ) (hs : List ℕ)
      → CanPoll conf sources
      → IsHeard c conf leader
      → among h
      → AreReady among store
      → Turn among k cl store h hs
  unfolding read_rounds note_reply
  one_turn among k cl store h hs can heard in_h ready =
      let i = ready h in_h in
      let (b, run_b, (r, polled, (td1, td2, same, asks1, asks2))) =
        generate_poll-AsksBoth c u (sources k).rand (sources k).reader (store h) i.secret
          i.public_key conf.trust_domains conf.num_buckets (can.fills k) (can.seeds k) i.has_secret
          i.has_key i.small i.long_seed1 i.long_seed2 can.enough can.some_buckets in
      let (r1, run1, _) = heard (store h) td1 i asks1.seeds in
      let i1 =
        on_response-IsReady c (store h) td1 (leader.read td1).1.contents conf.data_size r1 i run1 in
      let store1 = store_at store h r1.0 in
      let ready1 = store_at-AreReady among store h r1.0 ready i1 in
      let (r2, run2, _) = heard (store1 h) td2 (ready1 h in_h) asks2.seeds in
      let i2 =
        on_response-IsReady c (store1 h) td2 (leader.read td2).1.contents conf.data_size r2
          (ready1 h in_h) run2 in
      let req1 : Request = record { td = some td1; handle = some h } in
      let req2 : Request = record { td = some td2; handle = some h } in
      let cl1 = note_reply (waiting cl (hs ++ h ∷ []) (req2 ∷ [])) (leader.read td1).1 in
      let cl2 = note_reply (record cl1 { pending_reads = [] }) (leader.read td2).1 in
      let round1 =
        one_round k (waiting cl (h ∷ hs) []) (waiting cl (hs ++ h ∷ []) (req2 ∷ [])) store h td1 r1
          (first_taken k cl store h hs td1 td2 (polled ∙ ap ok same)) run1 in
      let round2 =
        one_round (k + 1) cl1 (record cl1 { pending_reads = [] }) store1 h td2 r2
          (second_taken (k + 1) (waiting cl (hs ++ h ∷ []) (req2 ∷ [])) store1 [] req2
            (leader.read td1).1 refl)
          run2 in
      record {
        cl' = cl2;
        store' = store_at store1 h r2.0;
        first = (store, req1);
        second = (store1, req2);
        both = record {
          buckets = b;
          next = run_b;
          td1 = td1;
          td2 = td2;
          sent1 = refl;
          sent2 = refl;
          asks1 = asks1;
          asks2 = asks2;
        };
        ready' = store_at-AreReady among store1 h r2.0 ready1 i2;
        runs = λ n rs later. rw (round1, round2, later) refl;
      }

  read_rounds-from :
      (among : ℕ → Type 0) (after before : List ℕ) (k : ℕ) (cl : Client) (store : Store)
      → CanPoll conf sources
      → IsHeard c conf leader
      → All among after
      → AreReady among store
      → Returns (read_rounds (twice after) k (waiting cl (after ++ before) []) store) (λ r.
        BothEach c conf after r.1 × (r.0.0.handles ≡ before ++ after) × (r.0.0.pending_reads ≡ []))
  unfolding read_rounds
  read_rounds-from among [] before k cl store can heard in_all ready =
      (((waiting cl before [], store), []), refl, (tt, sym (append-nil before), refl))
  read_rounds-from among (h ∷ after) before k cl store can heard (in_h, in_all) ready =
      let t = one_turn among k cl store h (after ++ before) can heard in_h ready in
      let (rs, run, (each, same, none_waits)) =
        read_rounds-from among after (before ++ h ∷ []) (k + 1 + 1) t.cl' t.store' can heard in_all
          t.ready' in
      (
        (rs.0, t.first ∷ t.second ∷ rs.1),
        t.runs (twice after) rs (
            ap (λ hs. read_rounds (twice after) (k + 1 + 1) (waiting t.cl' hs []) t.store')
              (append_assoc after before (h ∷ []))
            ∙ run),
        ((t.both, each), same ∙ append_assoc before (h ∷ []) after, none_waits),
      )

  -- If no read waits, every handle that the client polls has both keys, a sequence number below
  -- 2^64 and seeds of at least 16 bytes, the randomness is read whole, there are at least two trust
  -- domains and some buckets, and no reply of the leader to requests with whole pad seeds makes
  -- OnResponse fail for such a handle: twice as many rounds of the read loop as there are handles
  -- return normally, and send, for each handle in the order of the list, two requests, of which the
  -- first asks all the trust domains for the first of the handle's next buckets, and the other for
  -- the second, of the handle as it is when its turn comes. The order of the handles is then as
  -- before, and no read waits.
  pub read_rounds-BothEach :
      (cl : Client) (store : Store)
      → CanPoll conf sources
      → IsHeard c conf leader
      → cl.pending_reads ≡ []
      → ((h : ℕ) → is_polled cl.handles h ≡ true → IsReady (store h))
      → Returns (read_rounds (twice cl.handles) 0 cl store) (λ r.
        BothEach c conf cl.handles r.1 × (r.0.0.handles ≡ cl.handles) × (r.0.0.pending_reads ≡ []))
  read_rounds-BothEach cl store can heard none_waits ready =
      let same : cl ≡ waiting cl cl.handles [] =
        ap (λ ps. record cl { pending_reads = ps }) none_waits in
      let (r, run, result) =
        read_rounds-from (λ h. is_polled cl.handles h ≡ true) cl.handles [] 0 cl store can heard
          (all_polled cl.handles) ready in
      (
        r,
        ap (λ x. read_rounds (twice cl.handles) 0 x store) same
            ∙ ap (λ hs. read_rounds (twice cl.handles) 0 (waiting cl hs []) store)
                (sym (append-nil cl.handles))
            ∙ run,
        result,
      )
