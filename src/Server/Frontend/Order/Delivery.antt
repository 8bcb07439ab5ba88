-- ===== src/Server/Frontend/Order/Delivery.antt =====
-- What each replica has taken of the writes that run at the same time.
use talek.Base.{
  ℕ, ◌+◌, ◌%◌, ◌^◌, ◌≤◌, ◌<◌, ◌≡◌, refl, sym, ap, ◌∙◌, inl, inr, Bool, true, false, ◌&&◌, Option,
  some, List, [], ◌∷◌, ◌++◌, arith, dec_le, length, get_elem?, length-append, get_elem?-lt,
  get_elem?-middle, get_elem?-other, leb, ◌==◌, ==_iff, Bool-cases, le→leb, leb-eq-false, to_nat,
}
use mathlib.Core.Option.{some-injective}
use talek.Common.Protocol.{ReplicaWriteArgs}
use talek.Server.Frontend.{
  ReplicaInterface, Frontend, Call, empty_reply, begin_write, begin_periodic_write, write_replica,
}
use talek.Server.Frontend.Order.{
  System, Run, here, writes, ticks, sends, returns, replay, numbers, on_their_way, IgnoresReply,
  Delivered,
}

on_their_way-append :
    (p : ReplicaWriteArgs → Bool) (j : ℕ) (xs ys : List Call)
    → on_their_way p j (xs ++ ys) ≡ on_their_way p j xs + on_their_way p j ys
on_their_way-append p j [] ys = omega arith
on_their_way-append p j (x ∷ xs) ys = omega (arith, on_their_way-append p j xs ys)

-- A call counts for a replica that it has not passed.
abbrev weight : ℕ → ℕ → Bool → ℕ
weight next j b = to_nat (leb next j && b)

weight-ahead : (next j : ℕ) (b : Bool) → next ≤ j → weight next j b ≡ to_nat b
weight-ahead next j b ahead = rw (le→leb next j ahead)

weight-passed : (next j : ℕ) (b : Bool) → j < next → weight next j b ≡ 0
weight-passed next j b passed = rw (leb-eq-false next j passed)

weight-other : (next j : ℕ) (b : Bool) → ¬ (j ≡ next) → weight (next + 1) j b ≡ weight next j b
weight-other next j b other = elim (dec_le next j) [
  | yes ahead ↦ weight-ahead (next + 1) j b (omega arith) ∙ sym (weight-ahead next j b ahead)
  | no passed ↦
      weight-passed (next + 1) j b (omega arith) ∙ sym (weight-passed next j b (omega arith))
]

module _ {State : Type 0} (i : ReplicaInterface State) (ignores : IgnoresReply i)
    (start : Frontend State) where
  Run-number :
      (begun : List (Option ReplicaWriteArgs)) (sys : System State)
      → Run i start begun sys
      → (sys.fe.proposed_seq_no ≡ numbers start.proposed_seq_no begun)
        × (length sys.fe.replicas ≡ length start.replicas)
  unfolding begin_write
  Run-number _ _ here = (refl, refl)
  Run-number _ _ (writes {begun} {sys} args run) =
      let (number, same) = Run-number begun sys run in (ap (λ n. (n + 1) % 2 ^ 64) number, same)
  Run-number _ _ (ticks {begun} {sys} run) = Run-number begun sys run
  Run-number _ _ (sends {begun} {sys} before after call rs1 rs2 r run calls replicas at) =
      let (number, same) = Run-number begun sys run in
      let t : State = (write_replica i call r).0 in
      (
        number,
        omega (
          arith,
          same,
          ap (λ (rs : List State). length rs) replicas,
          length-append rs1 (r ∷ rs2),
          length-append rs1 (t ∷ rs2),
        ),
      )
  Run-number _ _ (returns {begun} {sys} before after call run calls at) = Run-number begun sys run

  module _ (j : ℕ) (s : State) (at_start : get_elem? start.replicas j ≡ some s) where
    -- One replica takes a write.
    sends-Delivered :
        (begun : List (Option ReplicaWriteArgs)) (sys : System State) (before after : List Call)
        (call : Call) (rs1 rs2 : List State) (r : State)
        → Delivered i start.proposed_seq_no j s begun sys
        → sys.calls ≡ before ++ call ∷ after
        → sys.fe.replicas ≡ rs1 ++ r ∷ rs2
        → call.next ≡ length rs1
        → Delivered i start.proposed_seq_no j s begun (record {
          fe = record sys.fe { replicas = rs1 ++ (write_replica i call r).0 ∷ rs2 };
          calls = before ++ (write_replica i call r).1 ∷ after;
        })
    unfolding write_replica replay
    sends-Delivered begun sys before after call rs1 rs2 r d calls replicas at =
        elim (Bool-cases (j == call.next)) [
          | inl e ↦
              let here_now : j ≡ call.next = (==_iff j call.next).0 e in
              record {
                log = call.args ∷ d.log;
                now =
                    ap (get_elem? (rs1 ++ t ∷ rs2)) (here_now ∙ at)
                    ∙ get_elem?-middle rs1 t rs2
                    ∙ ap some (taken here_now);
                balanced = λ p. omega (
                  arith,
                  d.balanced p,
                  split p,
                  moved p,
                  weight-ahead call.next j (p call.args) (omega (arith, here_now)),
                  weight-passed (call.next + 1) j (p call.args) (omega (arith, here_now)),
                );
              }
          | inr e ↦
              let other : ¬ (j ≡ call.next) = λ same. elsewhere e ((==_iff j call.next).1 same) in
              record {
                log = d.log;
                now =
                    get_elem?-other rs1 r t rs2 j (λ same. other (same ∙ sym at))
                    ∙ ap (λ rs. get_elem? rs j) (sym replicas)
                    ∙ d.now;
                balanced = λ p. omega (
                  arith,
                  d.balanced p,
                  split p,
                  moved p,
                  weight-other call.next j (p call.args) other,
                );
              }
        ]
      where
        t : State
        t = (write_replica i call r).0

        elsewhere : {b : Bool} → b ≡ false → b ≡ true → ⊥
        elsewhere h h' = cc

        taken : j ≡ call.next → t ≡ (i.write (replay i s d.log) call.args empty_reply).0
        taken here_now =
            ignores r call.args call.reply empty_reply
            ∙ ap (λ x. (i.write x call.args empty_reply).0)
                (some-injective r (replay i s d.log) (
                  sym (get_elem?-middle rs1 r rs2)
                  ∙ ap (get_elem? (rs1 ++ r ∷ rs2)) (sym (here_now ∙ at))
                  ∙ ap (λ rs. get_elem? rs j) (sym replicas)
                  ∙ d.now))

        split :
            (p : ReplicaWriteArgs → Bool)
            → on_their_way p j sys.calls
              ≡ on_their_way p j before
                + (weight call.next j (p call.args) + on_their_way p j after)
        split p = ap (on_their_way p j) calls ∙ on_their_way-append p j before (call ∷ after)

        moved :
            (p : ReplicaWriteArgs → Bool)
            → on_their_way p j (before ++ (write_replica i call r).1 ∷ after)
              ≡ on_their_way p j before
                + (weight (call.next + 1) j (p call.args) + on_their_way p j after)
        moved p = on_their_way-append p j before ((write_replica i call r).1 ∷ after)

    returns-Delivered :
        (begun : List (Option ReplicaWriteArgs)) (sys : System State) (before after : List Call)
        (call : Call)
        → j < call.next
        → Delivered i start.proposed_seq_no j s begun sys
        → sys.calls ≡ before ++ call ∷ after
        → Delivered i start.proposed_seq_no j s begun (record sys { calls = before ++ after })
    returns-Delivered begun sys before after call passed d calls = record {
      log = d.log;
      now = d.now;
      balanced = λ p. omega (
        arith,
        d.balanced p,
        ap (on_their_way p j) calls,
        on_their_way-append p j before (call ∷ after),
        on_their_way-append p j before after,
        weight-passed call.next j (p call.args) passed,
      );
    }

    delivered :
        (begun : List (Option ReplicaWriteArgs)) (sys : System State)
        → Run i start begun sys
        → Delivered i start.proposed_seq_no j s begun sys
    unfolding replay begin_write
    delivered _ _ here = record { log = []; now = at_start; balanced = λ p. omega arith }
    delivered _ _ (writes {begun} {sys} args run) =
        let d = delivered begun sys run in
        let (number, _) = Run-number begun sys run in
        let numbered : ℕ → ReplicaWriteArgs = λ n. record args {
          global_seq_no = (n + 1) % 2 ^ 64;
          epoch_flag = false;
          interest_flag = false;
        } in
        record {
          log = d.log;
          now = d.now;
          balanced = λ p. omega (
            arith,
            d.balanced p,
            weight-ahead 0 j (p (numbered sys.fe.proposed_seq_no)) (omega arith),
            ap (λ n. to_nat (p (numbered n))) number,
          );
        }
    delivered _ _ (ticks {begun} {sys} run) =
        let d = delivered begun sys run in
        record {
          log = d.log;
          now = d.now;
          balanced = λ p.
              omega
                (arith, d.balanced p, weight-ahead 0 j (p begin_periodic_write.args) (omega arith));
        }
    delivered _ _ (sends {begun} {sys} before after call rs1 rs2 r run calls replicas at) =
        sends-Delivered begun sys before after call rs1 rs2 r (delivered begun sys run) calls
          replicas at
    delivered _ _ (returns {begun} {sys} before after call run calls at) =
        let d = delivered begun sys run in
        returns-Delivered begun sys before after call
          (omega (arith, at, get_elem?-lt sys.fe.replicas j (replay i s d.log) d.now)) d calls

  -- For replicas whose state after a write does not depend on the reply that they fill in: in every
  -- run of a frontend, in which writes and ticks are begun and their calls of the replicas and
  -- returns follow in any order, the number is the first one plus one for each write modulo 2^64;
  -- and each replica is in the state that it reaches alone from a log of writes, in an order of its
  -- own, such that the log and the calls that have not reached the replica hold together every
  -- write under its number and every tick, each as often as it was begun.
  pub Run-Delivered :
      (begun : List (Option ReplicaWriteArgs)) (sys : System State) (j : ℕ) (s : State)
      → Run i start begun sys
      → get_elem? start.replicas j ≡ some s
      → (sys.fe.proposed_seq_no ≡ numbers start.proposed_seq_no begun)
        × Delivered i start.proposed_seq_no j s begun sys
  Run-Delivered begun sys j s run at_start =
      ((Run-number begun sys run).0, delivered j s at_start begun sys run)
