-- ===== src/Server/Frontend/Order.antt =====
-- Writes that run at the same time: every replica gets each of them once, under its number, in an
-- order of its own.
pub mod Delivery
use talek.Base.{
  ℕ, ◌+◌, ◌%◌, ◌^◌, ◌≡◌, Bool, true, false, ◌&&◌, Option, none, some, List, [], ◌∷◌, ◌++◌, length,
  get_elem?, leb, to_nat,
}
use talek.Common.Protocol.{ReplicaWriteArgs, ReplicaWriteReply}
use talek.Server.Frontend.{
  ReplicaInterface, WriteReply, Frontend, Call, empty_reply, begin_write, begin_periodic_write,
  write_replica,
}

-- The frontend, and the calls that have not returned.
pub record System (State : Type 0) : Type 0 where
  pub fe : Frontend State
  pub calls : List Call

module _ {State : Type 0} (i : ReplicaInterface State) where
  -- Steps of any calls in any order, with what was begun, the newest first: a write, or none for a
  -- tick. A step is the atomic addition, the call of one replica, or the return.
  pub data Run (start : Frontend State)
      : List (Option ReplicaWriteArgs) → System State → Type 0 where
    here : Run start [] (record { fe = start; calls = [] })
    writes :
        {begun : List (Option ReplicaWriteArgs)} {sys : System State} (args : ReplicaWriteArgs)
        → Run start begun sys
        → Run start (some args ∷ begun) (record {
          fe = (begin_write sys.fe args).0;
          calls = (begin_write sys.fe args).1 ∷ sys.calls;
        })
    ticks :
        {begun : List (Option ReplicaWriteArgs)} {sys : System State}
        → Run start begun sys
        → Run start (none ∷ begun) (record sys { calls = begin_periodic_write ∷ sys.calls })
    sends :
        {begun : List (Option ReplicaWriteArgs)} {sys : System State} (before after : List Call)
        (call : Call) (rs1 rs2 : List State) (r : State)
        → Run start begun sys
        → sys.calls ≡ before ++ call ∷ after
        → sys.fe.replicas ≡ rs1 ++ r ∷ rs2
        → call.next ≡ length rs1
        → Run start begun (record {
          fe = record sys.fe { replicas = rs1 ++ (write_replica i call r).0 ∷ rs2 };
          calls = before ++ (write_replica i call r).1 ∷ after;
        })
    returns :
        {begun : List (Option ReplicaWriteArgs)} {sys : System State} (before after : List Call)
        (call : Call)
        → Run start begun sys
        → sys.calls ≡ before ++ call ∷ after
        → call.next ≡ length sys.fe.replicas
        → Run start begun (record sys { calls = before ++ after })

  -- One replica on its own, from writes of which the newest is the first.
  unfoldable pub replay : State → List ReplicaWriteArgs → State
  replay s [] = s
  replay s (args ∷ log) = (i.write (replay s log) args empty_reply).0

-- The number after the writes that were begun.
abbrev pub numbers : ℕ → List (Option ReplicaWriteArgs) → ℕ
numbers n [] = n
numbers n (none ∷ begun) = numbers n begun
numbers n (some args ∷ begun) = (numbers n begun + 1) % 2 ^ 64

-- What is sent for all that was begun: the writes under consecutive numbers, and the ticks.
abbrev pub sent : ℕ → List (Option ReplicaWriteArgs) → List ReplicaWriteArgs
sent n [] = []
sent n (none ∷ begun) =
    record {
      bucket1 = 0;
      bucket2 = 0;
      contents = [];
      interest_vector = [];
      global_seq_no = 0;
      epoch_flag = true;
      interest_flag = false;
    }
    ∷ sent n begun
sent n (some args ∷ begun) =
    record args {
      global_seq_no = (numbers n begun + 1) % 2 ^ 64;
      epoch_flag = false;
      interest_flag = false;
    }
    ∷ sent n begun

-- How many pass a test.
abbrev pub tally : (ReplicaWriteArgs → Bool) → List ReplicaWriteArgs → ℕ
tally p [] = 0
tally p (args ∷ rest) = to_nat (p args) + tally p rest

-- How many of the calls that have not reached replica `j` pass a test.
abbrev pub on_their_way : (ReplicaWriteArgs → Bool) → ℕ → List Call → ℕ
on_their_way p j [] = 0
on_their_way p j (call ∷ calls) = to_nat (leb call.next j && p call.args) + on_their_way p j calls

-- What a replica becomes does not depend on the reply that it fills in.
abbrev pub IgnoresReply : {State : Type 0} → ReplicaInterface State → Type 0
IgnoresReply {State} i =
    (s : State) (args : ReplicaWriteArgs) (r r' : ReplicaWriteReply)
    → (i.write s args r).0 ≡ (i.write s args r').0

-- Replica `j`, which was `s`: it has taken the writes of its log, and these and the calls on their way
-- to it are all that was begun, each as often as it was begun.
pub record Delivered {State : Type 0} (i : ReplicaInterface State) (n j : ℕ) (s : State)
    (begun : List (Option ReplicaWriteArgs)) (sys : System State) : Type 0 where
  pub log : List ReplicaWriteArgs
  pub now : get_elem? sys.fe.replicas j ≡ some (replay i s log)
  pub balanced :
      (p : ReplicaWriteArgs → Bool)
      → tally p log + on_their_way p j sys.calls ≡ tally p (sent n begun)
