-- ===== src/Libtalek/Client/Polling/Tidy.antt =====
-- Whatever calls and rounds, each handle is polled at most once, and at most one read waits.
use talek.Base.{
  ℕ, ◌≤◌, ◌≡◌, refl, ap, ◌≢◌, inl, inr, Bool, true, false, not, ◌&&◌, Option, some, List, [], ◌∷◌,
  ◌++◌, arith, ℕ_discrete, length, length-append, Ensures, Ensures-bind, Ensures-if, Ensures-ok,
  Ensures-any, Outcome, ◌>>=◌, ok, err, panic, ◌==◌, if◌then◌else◌, Bool-cases, Option-cases,
  to_nat,
}
use talek.Common.ReadArgs.{PirArgs}
use talek.Libtalek.Handle.{Primitives, next_interest_vector, generate_poll}
use talek.Libtalek.Client.{Client, ClientConfig, Request, new_client}
use talek.Libtalek.Client.Polling.{
  Store, is_polled, poll, done_polling, split_handles, prioritize_requests, Randomness,
  generate_random_read, rotate, next_from, next_request, take_from, take_request,
}
use talek.Libtalek.Client.Updates.{wait_update, update_round}
use talek.Libtalek.Client.Polling.Membership.{
  count, count_cons, count-append, IsDone, not_polled, removed, done_polling-IsDone,
}

is_polled-count : (hs : List ℕ) (h : ℕ) → is_polled hs h ≡ false → count h hs ≡ 0
unfolding is_polled count
is_polled-count [] h e = refl
is_polled-count (x ∷ hs) h e = elim (Bool-cases (x == h)) [
  | inl same ↦ absurd (true-ne-false (rw same at e))
  | inr other ↦ omega (arith, is_polled-count hs h (rw other at e), ap to_nat (differ other))
]
  where
    true-ne-false : ¬ (true ≡ false)
    true-ne-false h = cc

    differ : (x == h) ≡ false → (h == x) ≡ false
    differ e = ground arith

count-new : (hs : List ℕ) (h k : ℕ) → count h hs ≡ 0 → count k hs ≤ 1 → count k (hs ++ h ∷ []) ≤ 1
count-new hs h k new once = elim (ℕ_discrete k h) [
  | yes same ↦
      omega (arith, count-append k hs (h ∷ []), ap (λ n. count n hs) same, new, count-one k h)
  | no other ↦ omega (arith, count-append k hs (h ∷ []), once, count-other k h other)
]
  where
    count-one : (k h : ℕ) → count k (h ∷ []) ≤ 1
    count-one k h = unfold count in ground arith

    count-other : (k h : ℕ) → k ≢ h → count k (h ∷ []) ≡ 0
    count-other k h ne = unfold count in ground arith

poll-count :
    (works : Bool) (cl : Client) (store : Store) (h k : ℕ)
    → count h cl.handles ≤ 1
    → count k cl.handles ≤ 1
    → count k (poll works cl store h).0.handles ≤ 1
unfolding poll
poll-count works cl store h k once_h once_k = elim (Bool-cases (is_polled cl.handles h)) [
  | inl e ↦ rw e once_k
  | inr e ↦ rw e (elim (Bool-cases (not (store h).has_updates && not works)) [
    | inl f ↦ rw f once_k
    | inr f ↦ rw f (count-new cl.handles h k (is_polled-count cl.handles h e) once_k)
  ])
]

poll-pending_reads :
    (works : Bool) (cl : Client) (store : Store) (h : ℕ)
    → (poll works cl store h).0.pending_reads ≡ cl.pending_reads
unfolding poll
poll-pending_reads works cl store h = elim (Bool-cases (is_polled cl.handles h)) [
  | inl e ↦ rw e refl
  | inr e ↦ rw e (elim (Bool-cases (not (store h).has_updates && not works)) [
    | inl f ↦ rw f refl
    | inr f ↦ rw f refl
  ])
]

-- One of the client's calls or rounds that change its handles.
pub data Step (c : Primitives) (unaligned : Bool) (conf : ClientConfig)
    : Client → Client → Type 0 where
  polls :
      (works : Bool) (store : Store) (h : ℕ) {cl : Client}
      → Step c unaligned conf cl (poll works cl store h).0
  ends : (h : ℕ) {cl : Client} → Step c unaligned conf cl (done_polling cl h).0
  prioritizes :
      (test : List ℕ → Bool) (store : Store) {cl cl' : Client}
      → prioritize_requests c test store cl ≡ ok cl'
      → Step c unaligned conf cl cl'
  takes :
      (source : Randomness) (store : Store) {cl cl' : Client} (req : Request)
      → take_request c unaligned source conf store cl ≡ ok (cl', req)
      → Step c unaligned conf cl cl'

pub data Reaches (c : Primitives) (unaligned : Bool) (conf : ClientConfig) : Client → Type 0 where
  start : Reaches c unaligned conf new_client
  step :
      {cl cl' : Client}
      → Reaches c unaligned conf cl
      → Step c unaligned conf cl cl'
      → Reaches c unaligned conf cl'

-- Each handle is polled at most once, and at most one read waits.
pub record IsTidy (cl : Client) : Type 0 where
  pub once : (k : ℕ) → count k cl.handles ≤ 1
  pub one_waits : length cl.pending_reads ≤ 1

split_handles-count :
    (c : Primitives) (test : List ℕ → Bool) (store : Store) (hs : List ℕ)
    → Ensures (split_handles c test store hs) (λ r. (k : ℕ) → count k (r.0 ++ r.1) ≡ count k hs)
unfolding split_handles
split_handles-count c test store [] = λ k. refl
split_handles-count c test store (h ∷ hs) =
    Ensures-bind (next_interest_vector c (store h))
      (λ vec. split_handles c test store hs >>= λ r.
        if test vec then ok (h ∷ r.0, r.1) else ok (r.0, h ∷ r.1))
      (λ vec. Unit {0}) (λ r. (k : ℕ) → count k (r.0 ++ r.1) ≡ count k (h ∷ hs))
      (Ensures-any (next_interest_vector c (store h)))
      (λ vec _.
        Ensures-bind (split_handles c test store hs)
          (λ r. if test vec then ok (h ∷ r.0, r.1) else ok (r.0, h ∷ r.1))
          (λ r. (k : ℕ) → count k (r.0 ++ r.1) ≡ count k hs)
          (λ r. (k : ℕ) → count k (r.0 ++ r.1) ≡ count k (h ∷ hs))
          (split_handles-count c test store hs)
          (λ r same.
            Ensures-if (test vec) (ok (h ∷ r.0, r.1)) (ok (r.0, h ∷ r.1))
              (λ r. (k : ℕ) → count k (r.0 ++ r.1) ≡ count k (h ∷ hs))
              (λ k. first k r.0 r.1 (same k)) (λ k. second k r.0 r.1 (same k))))
  where
    first :
        (k : ℕ) (xs ys : List ℕ)
        → count k (xs ++ ys) ≡ count k hs
        → count k (h ∷ xs ++ ys) ≡ count k (h ∷ hs)
    first k xs ys same = omega (arith, same, count_cons k h (xs ++ ys), count_cons k h hs)

    second :
        (k : ℕ) (xs ys : List ℕ)
        → count k (xs ++ ys) ≡ count k hs
        → count k (xs ++ h ∷ ys) ≡ count k (h ∷ hs)
    second k xs ys same = omega (
      arith,
      same,
      count-append k xs ys,
      count-append k xs (h ∷ ys),
      count_cons k h ys,
      count_cons k h hs,
    )

module _ (c : Primitives) (u : Bool) (source : Randomness) (conf : ClientConfig) (store : Store)
    (cl : Client) (tidy : IsTidy cl) where
  rotate-Ensures :
      (h : ℕ) (hs : List ℕ) (polled : Outcome (Option (List PirArgs) × Option (List PirArgs)))
      → cl.handles ≡ h ∷ hs
      → cl.pending_reads ≡ []
      → Ensures (rotate cl h hs polled) (λ r. IsTidy r.0)
  rotate-Ensures h hs (ok ras) e none_waits = record {
    once = λ k. omega (
      arith,
      tidy.once k,
      ap (count k) e,
      count-append k hs (h ∷ []),
      count-append k (h ∷ []) hs,
    );
    one_waits = omega (
      arith,
      length-append cl.pending_reads (record { td = ras.1; handle = some h } ∷ []),
      ap length none_waits,
    );
  }
  rotate-Ensures h hs (err x) e none_waits = tt
  rotate-Ensures h hs panic e none_waits = tt

  next_from-Ensures :
      (hs : List ℕ)
      → cl.handles ≡ hs
      → cl.pending_reads ≡ []
      → Ensures (next_from c u source conf store cl hs) (λ r. IsTidy r.0)
  unfolding next_from
  next_from-Ensures [] e none_waits =
      Ensures-bind (generate_random_read (source.reader 0) (source.rand 0) conf)
        (λ req. ok (cl, req)) (λ _. Unit {0}) (λ r. IsTidy r.0)
        (Ensures-any (generate_random_read (source.reader 0) (source.rand 0) conf)) (λ req _. tidy)
  next_from-Ensures (h ∷ hs) e none_waits =
      rotate-Ensures h hs
        (generate_poll c u source.rand source.reader (store h) conf.trust_domains conf.num_buckets)
        e none_waits

  take_from-Ensures :
      (reads : List Request)
      → cl.pending_reads ≡ reads
      → Ensures (take_from c u source conf store cl reads) (λ r. IsTidy r.0)
  unfolding take_from next_request
  take_from-Ensures [] e = next_from-Ensures cl.handles refl e
  take_from-Ensures (req ∷ rest) e = record {
    once = tidy.once;
    one_waits = omega (arith, tidy.one_waits, ap length e);
  }

  take_request-Ensures : Ensures (take_request c u source conf store cl) (λ r. IsTidy r.0)
  unfolding take_request
  take_request-Ensures = take_from-Ensures cl.pending_reads refl

prioritize-Ensures :
    (c : Primitives) (test : List ℕ → Bool) (store : Store) (cl : Client)
    → IsTidy cl
    → Ensures (prioritize_requests c test store cl) IsTidy
unfolding prioritize_requests
prioritize-Ensures c test store cl tidy =
    Ensures-bind (split_handles c test store cl.handles)
      (λ r. ok (record cl { handles = r.0 ++ r.1 }))
      (λ r. (k : ℕ) → count k (r.0 ++ r.1) ≡ count k cl.handles) IsTidy
      (split_handles-count c test store cl.handles)
      (λ r same. record {
        once = λ k. omega (arith, same k, tidy.once k);
        one_waits = tidy.one_waits;
      })

-- A round of the update loop keeps a tidy client tidy, whatever the interest vector.
pub update_round-Ensures :
    {Filter : Type 0} (c : Primitives) (decompress : List ℕ → Option (List ℕ))
    (import_from : Filter → List ℕ → Filter) (test : Filter → List ℕ → Bool) (ticked : Bool)
    (answer : List ℕ) (store : Store) (filter : Filter) (cl : Client)
    → IsTidy cl
    → Ensures
        (update_round c decompress import_from test ticked answer store (filter, cl))
        (λ r. IsTidy r.1)
unfolding update_round
update_round-Ensures c decompress import_from test ticked answer store filter cl tidy =
    elim (Option-cases (decompress answer)) [
      | inl e ↦ rw (update_round, e) waited
      | inr (vec, e) ↦
          let filter' = import_from filter vec in
          rw (update_round, e)
            (Ensures-bind (prioritize_requests c (test filter') store (wait_update ticked cl))
              (λ cl'. ok (filter', cl')) IsTidy (λ r. IsTidy r.1)
              (prioritize-Ensures c (test filter') store (wait_update ticked cl) waited)
              (λ cl' tidy'. tidy'))
    ]
  where
    waited : IsTidy (wait_update ticked cl)
    waited = elim (Bool-cases ticked) [
      | inl e ↦ rw e tidy
      | inr e ↦ rw e record { once = tidy.once; one_waits = tidy.one_waits }
    ]

poll-IsTidy :
    (works : Bool) (cl : Client) (store : Store) (h : ℕ)
    → IsTidy cl
    → IsTidy (poll works cl store h).0
poll-IsTidy works cl store h tidy = record {
  once = λ k. poll-count works cl store h k (tidy.once h) (tidy.once k);
  one_waits = rw (poll-pending_reads works cl store h) tidy.one_waits;
}

done-IsTidy : (cl : Client) (h : ℕ) → IsTidy cl → IsTidy (done_polling cl h).0
done-IsTidy cl h tidy = by_done (done_polling cl h) (done_polling-IsDone cl h)
  where
    by_done : (r : Client × Bool) → IsDone cl h r → IsTidy r.0
    by_done _ (not_polled e) = tidy
    by_done _ (removed handles same) = record {
      once = λ k. omega (arith, same k, tidy.once k);
      one_waits = tidy.one_waits;
    }

-- Whatever calls of Poll and Done, prioritizations and requests of the read loop have happened to a
-- new client, each handle is polled at most once, and at most one read waits.
pub Reaches-IsTidy :
    (c : Primitives) (unaligned : Bool) (conf : ClientConfig) (cl : Client)
    → Reaches c unaligned conf cl
    → IsTidy cl
Reaches-IsTidy c u conf _ start = record {
  once = λ k. unfold count in omega arith;
  one_waits = omega arith;
}
Reaches-IsTidy c u conf _ (step {cl} r s) = by_step s (Reaches-IsTidy c u conf cl r)
  where
    by_step : {cl cl' : Client} → Step c u conf cl cl' → IsTidy cl → IsTidy cl'
    by_step (polls works store h {cl}) tidy = poll-IsTidy works cl store h tidy
    by_step (ends h {cl}) tidy = done-IsTidy cl h tidy
    by_step (prioritizes test store {cl} {cl'} run) tidy =
        Ensures-ok (prioritize_requests c test store cl) cl' IsTidy
          (prioritize-Ensures c test store cl tidy) run
    by_step (takes source store {cl} {cl'} req run) tidy =
        Ensures-ok (take_request c u source conf store cl) (cl', req) (λ r. IsTidy r.0)
          (take_request-Ensures c u source conf store cl tidy) run
