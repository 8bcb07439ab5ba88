-- ===== src/Tests/Frontend.antt =====
-- A frontend whose replicas log their writes, and batches of three requests.
use talek.Base.{
  ℕ, ◌≡◌, refl, false, Option, none, some, List, [], ◌∷◌, ◌++◌, arith, concat, replica_failed, ok,
  ◌==◌, if◌then◌else◌,
}
use talek.Common.Protocol.{ReplicaWriteArgs, ReplicaWriteReply, no_batch_reply}
use talek.Server.Frontend.{
  ReplicaInterface, Frontend, Call, empty_reply, begin_write, write_replica, Event, read, tick,
  batch_rounds,
}
use talek.Server.Frontend.Order.{System, Run, here, writes, sends, numbers, Delivered}
use talek.Server.Frontend.Order.Delivery.{Run-Delivered}
use talek.Server.Frontend.Batches.{requests, Rounds, batch_rounds-Rounds, batch_rounds-tick}

-- A replica that keeps the numbers of its writes, and refuses number 3.
abbrev logging : ReplicaInterface (List ℕ)
logging = record {
  write = λ log args reply. (
    args.global_seq_no ∷ log,
    if args.global_seq_no == 3 then some replica_failed else none,
    record reply { global_seq_no = args.global_seq_no },
  );
  batch_read = λ log req. ok no_batch_reply;
}

abbrev one_write : ReplicaWriteArgs
one_write = record {
  bucket1 = 1;
  bucket2 = 2;
  contents = 5 ∷ [];
  interest_vector = [];
  global_seq_no = 0;
  epoch_flag = false;
  interest_flag = false;
}

abbrev two_replicas : Frontend (List ℕ)
two_replicas = record {
  proposed_seq_no = 3;
  current_interest = record { id = 0; compressed_vector = []; signatures = [] };
  replicas = [] ∷ (9 ∷ []) ∷ [];
}

abbrev call_at : ℕ → ReplicaWriteReply → ℕ → Call
call_at number reply next = record {
  args = record one_write { global_seq_no = number };
  reply = reply;
  error = none;
  next = next;
}

abbrev replied : ℕ → ReplicaWriteReply
replied number = record empty_reply { global_seq_no = number }

-- Two writes are begun; the second reaches the first replica before the first does.
abbrev crossed : System (List ℕ)
crossed = record {
  fe = record two_replicas { proposed_seq_no = 5; replicas = (4 ∷ 5 ∷ []) ∷ (4 ∷ 9 ∷ []) ∷ [] };
  calls = call_at 5 (replied 5) 1 ∷ call_at 4 (replied 4) 2 ∷ [];
}

abbrev begun : List (Option ReplicaWriteArgs)
begun = some one_write ∷ some one_write ∷ []

crossed_run : Run logging two_replicas begun crossed
unfolding begin_write write_replica
crossed_run =
    sends (call_at 5 (replied 5) 1 ∷ []) [] (call_at 4 (replied 4) 1) ((4 ∷ 5 ∷ []) ∷ []) []
      (9 ∷ [])
      (sends (call_at 5 (replied 5) 1 ∷ []) [] (call_at 4 empty_reply 0) [] ((9 ∷ []) ∷ []) (5 ∷ [])
        (sends [] (call_at 4 empty_reply 0 ∷ []) (call_at 5 empty_reply 0) [] ((9 ∷ []) ∷ []) []
          (writes one_write (writes one_write here)) refl refl refl)
        refl refl refl)
      refl refl refl

Run-Delivered_example :
    (crossed.fe.proposed_seq_no ≡ numbers 3 begun) × Delivered logging 3 1 (9 ∷ []) begun crossed
Run-Delivered_example =
    Run-Delivered logging (λ s args r r'. refl) two_replicas begun crossed 1 (9 ∷ []) crossed_run
      refl

abbrev events : List (Event ℕ)
events = read 1 ∷ read 2 ∷ tick ∷ read 3 ∷ []

batch_rounds-Rounds_example :
    Rounds 3
      (7 ∷ [])
      (requests events)
      (batch_rounds 3 (7 ∷ []) events).1
      (batch_rounds 3 (7 ∷ []) events).0
batch_rounds-Rounds_example = batch_rounds-Rounds 3 (7 ∷ []) events (omega arith)

batch_rounds-tick_example :
    ((batch_rounds 3 (7 ∷ []) (events ++ tick ∷ [])).1 ≡ [])
    × (concat (batch_rounds 3 (7 ∷ []) (events ++ tick ∷ [])).0 ≡ (7 ∷ []) ++ requests events)
batch_rounds-tick_example = batch_rounds-tick 3 (7 ∷ []) events (omega arith)

batches : (batch_rounds 3 (7 ∷ []) events).0 ≡ (7 ∷ 1 ∷ 2 ∷ []) ∷ []
unfolding batch_rounds
batches = refl
