-- ===== src/Common/Protocol.antt =====
-- The types of common/frontend_protocol.go and common/replica_protocol.go that the replicas and the
-- frontend use. An empty `Err` is none, a text of an error is the error, and the reply channels are
-- left out.
use talek.Base.{ℕ, Bool, Option, none, List, [], Error}
use talek.Common.Range.{Range}

pub record EncodedReadArgs : Type 0 where
  pub client_key : List ℕ
  pub nonce : List ℕ
  pub pir_args : List (List ℕ)

pub record ReadReply : Type 0 where
  pub error : Option Error
  pub contents : List ℕ
  pub global_seq_no : Range
  pub last_interest_sn : ℕ

pub record BatchReadReply : Type 0 where
  pub batch_error : Option Error
  pub replies : List ReadReply

pub record BatchReadRequest : Type 0 where
  pub args : List EncodedReadArgs
  pub seq_no_range : Range

-- `Range{}`, `ReadReply{}` and `BatchReadReply{}`
abbrev pub no_range : Range
no_range = record { start = 0; until = 0; aborted = [] }

abbrev pub no_reply : ReadReply
no_reply = record { error = none; contents = []; global_seq_no = no_range; last_interest_sn = 0 }

abbrev pub no_batch_reply : BatchReadReply
no_batch_reply = record { batch_error = none; replies = [] }

-- `WriteArgs` in `ReplicaWriteArgs`.
pub record ReplicaWriteArgs : Type 0 where
  pub bucket1 : ℕ
  pub bucket2 : ℕ
  pub contents : List ℕ
  pub interest_vector : List ℕ
  pub global_seq_no : ℕ
  pub epoch_flag : Bool
  pub interest_flag : Bool

pub record ReplicaWriteReply : Type 0 where
  pub write_error : Option Error
  pub global_seq_no : ℕ
  pub interest_vec : List ℕ
  pub signature : List ℕ
