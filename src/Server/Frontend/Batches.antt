-- ===== src/Server/Frontend/Batches.antt =====
-- The batches that the read loop of the frontend triggers.
use talek.Base.{
  ℕ, ◌≤◌, ◌<◌, ◌≡◌, refl, sym, ap, ◌∙◌, inl, inr, Option, none, some, List, [], ◌∷◌, ◌++◌,
  append-nil, append_assoc, arith, dec_le, All, length, concat, length-append, All-append, lt→ltb,
  Option-cases, le→leb, leb-eq-false,
}
use talek.Server.Frontend.{Event, read, tick, batch_round, batch_rounds}

module _ {Request : Type 0} where
  -- The requests among the events.
  unfoldable pub requests : List (Event Request) → List Request
  requests [] = []
  requests (read req ∷ es) = req ∷ requests es
  requests (tick ∷ es) = requests es

  abbrev pub triggered_list : Option (List Request) → List (List Request)
  triggered_list none = []
  triggered_list (some b) = b ∷ []

  -- A batch that may be sent.
  abbrev pub IsBatch : ℕ → List Request → Type 0
  IsBatch read_batch b = (0 < length b) × (length b ≤ read_batch)

  abbrev requests_of : Event Request → List Request
  requests_of (read req) = req ∷ []
  requests_of tick = []

  -- What one round keeps.
  pub record Rounds (read_batch : ℕ) (before sent after : List Request)
      (batches : List (List Request)) : Type 0 where
    pub in_order : concat batches ++ after ≡ before ++ sent
    pub batch_sizes : All (IsBatch read_batch) batches
    pub room_left : length after < read_batch

  batch_round-Rounds :
      (read_batch : ℕ) (batch : List Request) (e : Event Request)
      → length batch < read_batch
      → Rounds read_batch batch
          (requests_of e)
          (batch_round read_batch batch e).0
          (triggered_list (batch_round read_batch batch e).1)
  unfolding batch_round
  batch_round-Rounds read_batch batch (read req) room =
      let long = length-append batch (req ∷ []) in
      elim (dec_le read_batch (length (batch ++ req ∷ []))) [
        | yes full ↦ rw (le→leb read_batch (length (batch ++ req ∷ [])) full) (record {
          in_order =
              append-nil (concat ((batch ++ req ∷ []) ∷ [])) ∙ append-nil (batch ++ req ∷ []);
          batch_sizes = ((omega (arith, long), omega (arith, long)), tt);
          room_left = omega arith;
        })
        | no more ↦
            rw (leb-eq-false read_batch (length (batch ++ req ∷ [])) (omega arith))
              (record { in_order = refl; batch_sizes = tt; room_left = omega arith })
      ]
  batch_round-Rounds read_batch [] tick room = record {
    in_order = refl;
    batch_sizes = tt;
    room_left = room;
  }
  batch_round-Rounds read_batch (q ∷ batch) tick room =
      rw (lt→ltb 0 (length (q ∷ batch)) (omega arith)) (record {
        in_order = append-nil (concat ((q ∷ batch) ∷ []));
        batch_sizes = ((omega arith, omega arith), tt);
        room_left = omega arith;
      })

  concat-append : (xss yss : List (List Request)) → concat (xss ++ yss) ≡ concat xss ++ concat yss
  concat-append [] yss = refl
  concat-append (xs ∷ xss) yss =
      ap (λ t. xs ++ t) (concat-append xss yss) ∙ sym (append_assoc xs (concat xss) (concat yss))

  rounds_cons :
      (read_batch : ℕ) (batch : List Request) (e : Event Request) (es : List (Event Request))
      → batch_rounds read_batch batch (e ∷ es) ≡ (
        triggered_list (batch_round read_batch batch e).1
            ++ (batch_rounds read_batch (batch_round read_batch batch e).0 es).0,
        (batch_rounds read_batch (batch_round read_batch batch e).0 es).1,
      )
  unfolding batch_rounds
  rounds_cons read_batch batch e es = elim (Option-cases (batch_round read_batch batch e).1) [
    | inl h ↦ rw h refl
    | inr (b, h) ↦ rw h refl
  ]

  requests_cons :
      (e : Event Request) (es : List (Event Request))
      → requests (e ∷ es) ≡ requests_of e ++ requests es
  unfolding requests
  requests_cons (read req) es = refl
  requests_cons tick es = refl

  -- From a waiting batch smaller than the batch size, whatever requests and ticks come, the batches
  -- that the read loop triggers, together with the one that waits, are the requests in the order of
  -- their arrival; no triggered batch is empty or larger than the batch size, and the batch that
  -- waits is smaller.
  pub batch_rounds-Rounds :
      (read_batch : ℕ) (batch : List Request) (es : List (Event Request))
      → length batch < read_batch
      → Rounds read_batch batch
          (requests es)
          (batch_rounds read_batch batch es).1
          (batch_rounds read_batch batch es).0
  unfolding batch_rounds requests
  batch_rounds-Rounds read_batch batch [] room = record {
    in_order = sym (append-nil batch);
    batch_sizes = tt;
    room_left = room;
  }
  batch_rounds-Rounds read_batch batch (e ∷ es) room =
      let one = batch_round-Rounds read_batch batch e room in
      let (batch', triggered) = batch_round read_batch batch e in
      let rest = batch_rounds-Rounds read_batch batch' es one.room_left in
      rw (rounds_cons read_batch batch e es, requests_cons e es)
        (record {
          in_order =
              ap (λ t. t ++ (batch_rounds read_batch batch' es).1)
                (concat-append (triggered_list triggered) (batch_rounds read_batch batch' es).0)
              ∙ append_assoc (concat (triggered_list triggered))
                  (concat (batch_rounds read_batch batch' es).0)
                  (batch_rounds read_batch batch' es).1
              ∙ ap (λ t. concat (triggered_list triggered) ++ t) rest.in_order
              ∙ sym (append_assoc (concat (triggered_list triggered)) batch' (requests es))
              ∙ ap (λ t. t ++ requests es) one.in_order
              ∙ append_assoc batch (requests_of e) (requests es);
          batch_sizes =
              All-append (IsBatch read_batch) (triggered_list triggered)
                (batch_rounds read_batch batch' es).0 one.batch_sizes rest.batch_sizes;
          room_left = rest.room_left;
        })

  left_after_tick :
      (read_batch : ℕ) (batch : List Request) (es : List (Event Request))
      → (batch_rounds read_batch batch (es ++ tick ∷ [])).1 ≡ []
  unfolding batch_rounds batch_round
  left_after_tick read_batch [] [] = refl
  left_after_tick read_batch (q ∷ batch) [] = rw (lt→ltb 0 (length (q ∷ batch)) (omega arith)) refl
  left_after_tick read_batch batch (e ∷ es) =
      left_after_tick read_batch (batch_round read_batch batch e).0 es

  requests-tick : (es : List (Event Request)) → requests (es ++ tick ∷ []) ≡ requests es
  unfolding requests
  requests-tick [] = refl
  requests-tick (read req ∷ es) = ap (λ t. req ∷ t) (requests-tick es)
  requests-tick (tick ∷ es) = requests-tick es

  -- From a waiting batch smaller than the batch size, after any requests and ticks and then one
  -- more tick, no request waits: the triggered batches are together the waiting batch and all the
  -- requests, in order.
  pub batch_rounds-tick :
      (read_batch : ℕ) (batch : List Request) (es : List (Event Request))
      → length batch < read_batch
      → ((batch_rounds read_batch batch (es ++ tick ∷ [])).1 ≡ [])
        × (concat (batch_rounds read_batch batch (es ++ tick ∷ [])).0 ≡ batch ++ requests es)
  batch_rounds-tick read_batch batch es room =
      let r = batch_rounds-Rounds read_batch batch (es ++ tick ∷ []) room in
      let none_left = left_after_tick read_batch batch es in
      let sent = concat (batch_rounds read_batch batch (es ++ tick ∷ [])).0 in
      (
        none_left,
        sym (append-nil sent)
            ∙ ap (λ t. sent ++ t) (sym none_left)
            ∙ r.in_order
            ∙ ap (λ t. batch ++ t) (requests-tick es),
      )
