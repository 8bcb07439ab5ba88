-- ===== src/Server/Frontend/Replies.antt =====
-- The replies that the frontend makes from those of its replicas.
use talek.Base.{
  ℕ, zero, suc, ◌+◌, ◌≤◌, ◌<◌, ◌≡◌, refl, sym, ap, ◌∙◌, inl, inr, true, none, some, List, [], ◌∷◌,
  ◌++◌, map, append_assoc, arith, All, bytes_xor, length-bytes_xor, bytes_xor_assoc,
  zeros-bytes_xor, bytes_xor-zeros, xor_all, length, get_elem?, get_or, replicate, length-append,
  length-replicate, length-map, ok, ◌==◌, ==_iff,
}
use mathlib.Core.Option.{some-ne-none, some-injective}
use talek.Common.Range.{Range}
use talek.Common.ReadArgs.{PirArgs, combine}
use talek.Common.ReadArgs.Bucket.{combine-bytes_xor}
use talek.Common.Protocol.{EncodedReadArgs, ReadReply, BatchReadReply, BatchReadRequest, no_reply}
use talek.Server.Frontend.{
  ReplicaInterface, Frontend, seq_no_range, gather, combine_replies, reply_to, respond,
  args_or_empty, trigger_batch_read,
}

abbrev no_args : PirArgs
no_args = record { request_vector = []; pad_seed = [] }

-- The request that the frontend sends for a batch.
abbrev pub request_of :
    {State : Type 0} → ℕ → Frontend State → List EncodedReadArgs → BatchReadRequest
request_of window_size fe args = record {
  args = args;
  seq_no_range = seq_no_range window_size fe.proposed_seq_no;
}

-- `f` is what a replica makes of its arguments.
module _ (f : PirArgs → List ℕ) (size : ℕ) where
  -- The exclusive or of what the replicas make of one request.
  abbrev pub combined : Range → ℕ → List PirArgs → ReadReply
  combined range sn td = record {
    error = none;
    contents = xor_all size (map f td);
    global_seq_no = range;
    last_interest_sn = sn;
  }

  -- What a replica makes of a request has the size.
  abbrev pub IsFull : PirArgs → Type 0
  IsFull a = length (f a) ≡ size

  pub length-xor_all_of :
      (td : List PirArgs) → All IsFull td → length (xor_all size (map f td)) ≡ size
  unfolding xor_all
  length-xor_all_of [] h = length-replicate size 0
  length-xor_all_of (a ∷ td) h =
      omega (arith, length-bytes_xor (f a) (xor_all size (map f td)), h.0, length-xor_all_of td h.1)

  -- A request for `count` trust domains.
  abbrev pub IsWhole : ℕ → List PirArgs → Type 0
  IsWhole count td = (length td ≡ count) × All IsFull td

-- `tds` has for each request the arguments of each trust domain.
module _ (f : PirArgs → List ℕ) (size : ℕ) (tds : List (List PirArgs)) where
  abbrev pub replica_reply : ℕ → BatchReadReply
  replica_reply j = record {
    batch_error = none;
    replies =
        map (λ (td : List PirArgs). record no_reply { contents = f (get_or td j no_args) }) tds;
  }

  unfoldable pub replica_replies : ℕ → ℕ → List BatchReadReply
  replica_replies zero j = []
  replica_replies (suc count) j = replica_reply j ∷ replica_replies count (j + 1)

  get_elem?-replica_replies :
      (count j k : ℕ)
      → k < count
      → get_elem? (replica_replies count j) k ≡ some (replica_reply (j + k))
  unfolding replica_replies
  get_elem?-replica_replies zero j k h = absurd (omega arith)
  get_elem?-replica_replies (suc count) j zero h = ap (λ n. some (replica_reply n)) (omega arith)
  get_elem?-replica_replies (suc count) j (suc k) h =
      get_elem?-replica_replies count (j + 1) k (omega arith)
      ∙ ap (λ n. some (replica_reply n)) (omega arith)

  get_elem?-map :
      {A B : Type 0} (g : A → B) (xs : List A) (k : ℕ) (x : A)
      → get_elem? xs k ≡ some x
      → get_elem? (map g xs) k ≡ some (g x)
  get_elem?-map g [] k x h = absurd (some-ne-none x (sym h))
  get_elem?-map g (y ∷ xs) zero x h = ap (λ z. some (g z)) (some-injective y x h)
  get_elem?-map g (y ∷ xs) (suc k) x h = get_elem?-map g xs k x h

  combine_same : (xs ys : List ℕ) → length xs ≡ length ys → combine xs ys ≡ ok (bytes_xor xs ys)
  combine_same xs ys e = elim (combine-bytes_xor xs ys) [
    | inl (_, run) ↦ run
    | inr (ne, _) ↦ absurd (ne e)
  ]

  get_or-append :
      (before : List PirArgs) (a : PirArgs) (after : List PirArgs)
      → get_or (before ++ a ∷ after) (length before) no_args ≡ a
  get_or-append [] a after = refl
  get_or-append (b ∷ before) a after = get_or-append before a after

  -- Reply `k` of replica `j`.
  nth_reply :
      (k j : ℕ) (td : List PirArgs)
      → get_elem? tds k ≡ some td
      → get_elem? (replica_reply j).replies k
        ≡ some (record no_reply { contents = f (get_or td j no_args) })
  nth_reply k j td here =
      get_elem?-map (λ (td : List PirArgs). record no_reply { contents = f (get_or td j no_args) })
        tds k td here

  combine_replies-xor_all :
      (k j : ℕ) (before after : List PirArgs) (contents : List ℕ)
      → get_elem? tds k ≡ some (before ++ after)
      → length before ≡ j
      → All (IsFull f size) after
      → length contents ≡ size
      → combine_replies k contents (replica_replies (length after) j)
        ≡ ok (bytes_xor contents (xor_all size (map f after)))
  unfolding combine_replies replica_replies xor_all
  combine_replies-xor_all k j before [] contents at same fulls full =
      ap ok (sym (bytes_xor-zeros size contents (omega (arith, full))))
  combine_replies-xor_all k j before (a ∷ after) contents at same fulls full =
      let own : get_or (before ++ a ∷ after) j no_args ≡ a =
        ap (λ n. get_or (before ++ a ∷ after) n no_args) (sym same)
        ∙ get_or-append before a after in
      rw
        (
          nth_reply k j (before ++ a ∷ after) at,
          own,
          combine_same contents (f a) (full ∙ sym fulls.0),
        )
        (combine_replies-xor_all k (j + 1) (before ++ a ∷ []) after (bytes_xor contents (f a))
            (at ∙ ap some (sym (append_assoc before (a ∷ []) after)))
            (omega (arith, length-append before (a ∷ []), same)) fulls.1
            (omega (arith, length-bytes_xor contents (f a), full, fulls.0))
          ∙ ap ok (bytes_xor_assoc contents (f a) (xor_all size (map f after))))

  reply_to-combined :
      (range : Range) (sn count k : ℕ) (td : List PirArgs)
      → get_elem? tds k ≡ some td
      → IsWhole f size count td
      → k < count
      → reply_to range sn (replica_replies count 0) k ≡ ok (combined f size range sn td)
  unfolding reply_to
  reply_to-combined range sn count k td at (same, fulls) inside =
      let own : length (f (get_or td (0 + k) no_args)) ≡ size =
        get_or-full td (0 + k) fulls (omega (arith, same)) in
      let zeros : List ℕ = replicate size 0 in
      let total : combine_replies k zeros (replica_replies count 0) ≡ ok (xor_all size (map f td)) =
        ap (λ n. combine_replies k zeros (replica_replies n 0)) (sym same)
        ∙ combine_replies-xor_all k 0 [] td zeros at refl fulls (length-replicate size 0)
        ∙ ap ok (
            zeros-bytes_xor size (xor_all size (map f td))
              (omega (arith, length-xor_all_of f size td fulls))) in
      rw (get_elem?-replica_replies count 0 k inside, nth_reply k (0 + k) td at, own, total) refl
    where
      get_or-full :
          (td : List PirArgs) (j : ℕ)
          → All (IsFull f size) td
          → j < length td
          → length (f (get_or td j no_args)) ≡ size
      get_or-full [] j h lt = absurd (omega arith)
      get_or-full (a ∷ td) zero h lt = h.0
      get_or-full (a ∷ td) (suc j) h lt = get_or-full td j h.1 (omega arith)

  respond-combined :
      (range : Range) (sn count : ℕ) (before after : List (List PirArgs))
      → before ++ after ≡ tds
      → All (IsWhole f size count) after
      → length tds ≤ count
      → respond range sn (replica_replies count 0) none (length after) (length before)
        ≡ ok (map (λ td. some (combined f size range sn td)) after)
  unfolding respond
  respond-combined range sn count before [] split whole room = refl
  respond-combined range sn count before (td ∷ after) split whole room =
      let at : get_elem? tds (length before) ≡ some td =
        ap (λ xs. get_elem? xs (length before)) (sym split) ∙ get_elem?-append before td after in
      let inside : length before < count =
        omega (arith, ap length split, length-append before (td ∷ after)) in
      let later =
        respond-combined range sn count (before ++ td ∷ []) after
          (append_assoc before (td ∷ []) after ∙ split) whole.1 room in
      let place : length (before ++ td ∷ []) ≡ length before + 1 = length-append before (td ∷ []) in
      rw (reply_to-combined range sn count (length before) td at whole.0 inside, rw place at later)
        refl
    where
      get_elem?-append :
          (xs : List (List PirArgs)) (y : List PirArgs) (ys : List (List PirArgs))
          → get_elem? (xs ++ y ∷ ys) (length xs) ≡ some y
      get_elem?-append [] y ys = refl
      get_elem?-append (x ∷ xs) y ys = get_elem?-append xs y ys

  module _ {State : Type 0} (i : ReplicaInterface State) where
    -- Every replica, from number `j` on, replies to all the requests.
    abbrev pub AllReply : BatchReadRequest → ℕ → List State → Type 0
    AllReply req j [] = Unit {0}
    AllReply req j (r ∷ rs) = (i.batch_read r req ≡ ok (replica_reply j)) × AllReply req (j + 1) rs

    gather-replica_replies :
        (req : BatchReadRequest) (j : ℕ) (rs : List State)
        → AllReply req j rs
        → gather i req (length tds) rs ≡ ok (replica_replies (length rs) j, none)
    unfolding gather replica_replies
    gather-replica_replies req j [] h = refl
    gather-replica_replies req j (r ∷ rs) h =
        rw (h.0, gather, counted, gather-replica_replies req (j + 1) rs h.1) refl
      where
        counted : (length (replica_reply j).replies == length tds) ≡ true
        counted = (==_iff (length (replica_reply j).replies) (length tds)).1 (
            length-map
              (λ (td : List PirArgs). record no_reply { contents = f (get_or td j no_args) }) tds)

    -- If every replica replies to all the requests, the frontend replies to each request by the exclusive
    -- or of the data of its replies.
    pub trigger_batch_read-combined :
        (window_size : ℕ) (fe : Frontend State) (args : List EncodedReadArgs)
        → length args ≡ length tds
        → length tds ≤ length fe.replicas
        → All (IsWhole f size (length fe.replicas)) tds
        → AllReply (request_of window_size fe args) 0 fe.replicas
        → trigger_batch_read i window_size fe (map some args)
          ≡ ok (
              map
                (λ td. some (
                  combined f size
                    (seq_no_range window_size fe.proposed_seq_no)
                    fe.current_interest.id
                    td))
                tds)
    unfolding trigger_batch_read
    trigger_batch_read-combined window_size fe args same room whole replies =
        rw
          (
            args_back args,
            counted,
            gather-replica_replies (request_of window_size fe args) 0 fe.replicas replies,
          )
          (respond-combined (seq_no_range window_size fe.proposed_seq_no) fe.current_interest.id
            (length fe.replicas) [] tds refl whole room)
      where
        args_back : (xs : List EncodedReadArgs) → map args_or_empty (map some xs) ≡ xs
        args_back [] = refl
        args_back (x ∷ xs) = ap (λ t. x ∷ t) (args_back xs)

        counted : length (map {A = EncodedReadArgs} some args) ≡ length tds
        counted = length-map some args ∙ same
