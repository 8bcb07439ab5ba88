-- ===== src/Tests/Client.antt =====
-- A client that polls three handles, and publishes a message of four bytes.
use talek.Base.{
  ℕ, ◌≤◌, ◌≡◌, refl, true, none, some, List, [], ◌∷◌, arith, All, bytes_xor, Returns, ok,
}
use talek.Libtalek.Handle.{remove_pads, retrieve_response, on_response, scan}
use talek.Libtalek.Handle.Polls.{HasWholeSeed, seqno_bytes-Returns}
use talek.Libtalek.Topic.{WriteArgs}
use talek.Libtalek.Client.{Client, ClientConfig, Leader, new_client, is_flushed}
use talek.Libtalek.Client.Writing.{write_rounds, write_rounds-flush}
use talek.Libtalek.Client.Polling.{Store, Randomness, is_polled, poll, done_polling}
use talek.Libtalek.Client.Polling.Readiness.{IsReady}
use talek.Libtalek.Client.Polling.Fairness.{
  CanPoll, IsHeard, BothEach, read_rounds, read_rounds-BothEach,
}
use talek.Common.ReadArgs.{PirArgs}
use talek.Server.Replica.Pads.{pad_lem}
use talek.Libtalek.Client.Polling.Tidy.{Reaches, start, step, polls, ends, IsTidy, Reaches-IsTidy}
use talek.Common.Protocol.{no_reply}
use talek.Tests.Crypto.{toy, toy_handle, ones, ones-Fills, ones-FillsSeeds}

abbrev conf : ClientConfig
conf = record { num_buckets = 16; data_size = 92; trust_domains = 2 }

abbrev waiting_write : WriteArgs
waiting_write = record { bucket1 = 1; bucket2 = 2; contents = 3 ∷ []; interest_vector = [] }

abbrev busy : Client
busy = record new_client {
  handles = 5 ∷ 8 ∷ 6 ∷ [];
  pending_writes = waiting_write ∷ waiting_write ∷ [];
  write_count = 2;
}

abbrev leader : Leader
leader = record { write = λ w. (none, 7); read = λ td. (none, no_reply) }

write_rounds-flush_example :
    Returns
      (write_rounds leader (λ k. ok none) 2 busy)
      (λ r. (r.1 ≡ busy.pending_writes) × (is_flushed r.0 ≡ true) × (0 ≤ r.0.last_seq_no))
write_rounds-flush_example = write_rounds-flush leader (λ k. ok none) busy refl

abbrev toy_store : Store
toy_store = λ h. toy_handle

abbrev sources : ℕ → Randomness
sources k = record { rand = λ j. ones; reader = λ j. ones }

sources-CanPoll : CanPoll conf sources
sources-CanPoll = record {
  fills = λ k j. ones-Fills;
  seeds = λ k j. ones-FillsSeeds;
  enough = omega arith;
  some_buckets = omega arith;
}

no_pads : (td : List PirArgs) → All HasWholeSeed td → remove_pads toy td [] ≡ ok (some [])
unfolding remove_pads bytes_xor
no_pads [] whole = refl
no_pads (t ∷ td) (whole, rest) =
    let (_, adds) = pad_lem toy.sip t.pad_seed 0 (omega (arith, whole)) in
    rw (adds [] refl) (no_pads td rest)

-- The leader's empty reply holds no message.
leader-IsHeard : IsHeard toy conf leader
unfolding on_response retrieve_response scan
leader-IsHeard h td ready whole =
    let (nonce, run, _) = seqno_bytes-Returns h.seqno ready.small in
    ((h, []), rw (no_pads td whole, run) refl, tt)

toy_store-IsReady : (h : ℕ) → is_polled busy.handles h ≡ true → IsReady (toy_store h)
toy_store-IsReady h polled = record {
  secret = 1 ∷ 2 ∷ [];
  has_secret = refl;
  public_key = 4 ∷ [];
  has_key = refl;
  small = omega arith;
  long_seed1 = omega arith;
  long_seed2 = omega arith;
}

read_rounds-BothEach_example :
    Returns (read_rounds toy true sources conf leader 6 0 busy toy_store) (λ r.
      BothEach toy conf (5 ∷ 8 ∷ 6 ∷ []) r.1
      × (r.0.0.handles ≡ 5 ∷ 8 ∷ 6 ∷ [])
      × (r.0.0.pending_reads ≡ []))
read_rounds-BothEach_example =
    read_rounds-BothEach toy true sources conf leader busy toy_store sources-CanPoll leader-IsHeard
      refl toy_store-IsReady

abbrev reached : Client
reached = (done_polling (poll true (poll true new_client toy_store 5).0 toy_store 5).0 5).0

reached-Reaches : Reaches toy true conf reached
reached-Reaches =
    step (step (step start (polls true toy_store 5)) (polls true toy_store 5)) (ends 5)

Reaches-IsTidy_example : IsTidy reached
Reaches-IsTidy_example = Reaches-IsTidy toy true conf reached reached-Reaches
