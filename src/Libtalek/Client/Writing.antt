-- ===== src/Libtalek/Client/Writing.antt =====
-- What Publish queues, the write loop sends, and Flush waits for.
use talek.Base.{
  ℕ, zero, suc, ◌+◌, ◌-◌, ◌≤◌, ◌≡◌, refl, ap, ◌∙◌, true, Option, List, [], ◌∷◌, ◌++◌, arith, length,
  Returns, Outcome, ◌>>=◌, ok, ltb, if◌then◌else◌, ==_iff,
}
use talek.Libtalek.Handle.{Primitives, Handle}
use talek.Libtalek.Topic.{Topic, WriteArgs}
use talek.Libtalek.Topic.Reception.{DeliversAll}
use talek.Libtalek.Client.{Client, Leader, is_flushed, send_write, take_write, write_round}

-- The count is that of the writes that wait.
abbrev pub IsCounted : Client → Type 0
IsCounted cl = cl.write_count ≡ length cl.pending_writes

enqueue_all : Client → List WriteArgs → Client
enqueue_all cl ws = record cl {
  write_count = cl.write_count + length ws;
  pending_writes = cl.pending_writes ++ ws;
}

abbrev enqueued : Client → Outcome (Topic × List WriteArgs) → Outcome (Client × Topic)
enqueued cl m = m >>= λ r. ok (enqueue_all cl r.1, r.0)

abbrev consed : WriteArgs → Outcome (Topic × List WriteArgs) → Outcome (Topic × List WriteArgs)
consed w m = m >>= λ rs. ok (rs.0, w ∷ rs.1)

-- A message that is queued: its writes come after those that waited, the count goes with them, and
-- replies to them give the message to the handle.
pub record IsQueued (c : Primitives) (size : ℕ) (h : Handle) (contents : List ℕ) (cl : Client)
    (r : Client × Topic) : Type 0 where
  pub writes : List WriteArgs
  pub queued : r.0.pending_writes ≡ cl.pending_writes ++ writes
  pub counted : r.0.write_count ≡ cl.write_count + length writes
  pub delivers : DeliversAll c size h (contents ∷ []) (r.1, writes)

-- Rounds of the write loop.
unfoldable pub write_rounds :
    Leader → (ℕ → Outcome (Option WriteArgs)) → ℕ → Client → Outcome (Client × List WriteArgs)
unfolding write_round
write_rounds leader randoms zero cl = ok (cl, [])
write_rounds leader randoms (suc n) cl = write_round leader (randoms n) cl >>= λ r.
    write_rounds leader randoms n r.0 >>= λ rs. ok (rs.0, r.1 ∷ rs.1)

waiting : Client → List WriteArgs → Client
waiting cl ws = record cl { pending_writes = ws; write_count = length ws }

flush_from :
    (leader : Leader) (randoms : ℕ → Outcome (Option WriteArgs)) (ws : List WriteArgs) (cl : Client)
    → Returns
        (write_rounds leader randoms (length ws) (waiting cl ws))
        (λ r. (r.1 ≡ ws) × (r.0.write_count ≡ 0) × (cl.last_seq_no ≤ r.0.last_seq_no))
unfolding write_rounds write_round take_write send_write waiting
flush_from leader randoms [] cl = ((waiting cl [], []), refl, (refl, refl, omega arith))
flush_from leader randoms (w ∷ ws) cl =
    let seen =
      if ltb cl.last_seq_no (leader.write w).1 then (leader.write w).1 else cl.last_seq_no in
    let cl' : Client = record cl { last_seq_no = seen } in
    let (r, run, (sent, none_left, later)) = flush_from leader randoms ws cl' in
    (
      (r.0, w ∷ r.1),
      rw (one_less, run) refl,
      (
        ap (λ t. w ∷ t) sent,
        none_left,
        omega (arith, later, seen-ge cl.last_seq_no (leader.write w).1),
      ),
    )
  where
    one_less : suc (length ws) - 1 ≡ length ws
    one_less = omega arith

    seen-ge : (a b : ℕ) → a ≤ (if ltb a b then b else a)
    seen-ge a b = ground arith

-- If the client's count is that of the writes that wait, as many rounds of the write loop return
-- normally, have sent exactly these writes in order, leave the count at 0, for which Flush waits,
-- and never lower the last sequence number.
pub write_rounds-flush :
    (leader : Leader) (randoms : ℕ → Outcome (Option WriteArgs)) (cl : Client)
    → IsCounted cl
    → Returns (write_rounds leader randoms (length cl.pending_writes) cl) (λ r.
      (r.1 ≡ cl.pending_writes) × (is_flushed r.0 ≡ true) × (cl.last_seq_no ≤ r.0.last_seq_no))
write_rounds-flush leader randoms cl counted =
    let same : cl ≡ waiting cl cl.pending_writes =
      unfold waiting in ap (λ n. record cl { write_count = n }) counted in
    let (r, run, (sent, none_left, later)) = flush_from leader randoms cl.pending_writes cl in
    (
      r,
      ap (write_rounds leader randoms (length cl.pending_writes)) same ∙ run,
      (sent, (==_iff r.0.write_count 0).1 none_left, later),
    )
