-- ===== src/Libtalek/Client/Updates.antt =====
-- libtalek/client.go: a round of the loop that fetches the global interest vector, and the fetching
-- of the configuration. The interest filter of another package, with its Import and Test, and
-- what flate decompresses, or none if it fails, are parameters.
use talek.Base.{ℕ, ◌-◌, Bool, Option, none, some, List, Outcome, ◌>>=◌, ok, if◌then◌else◌}
use talek.Libtalek.Handle.{Primitives}
use talek.Libtalek.Client.{Client, ClientConfig}
use talek.Libtalek.Client.Polling.{Store, prioritize_requests}

-- The wait of the loop: for `pendingUpdates`, or for the timer.
abbrev pub wait_update : Bool → Client → Client
wait_update ticked cl =
    if ticked then cl else record cl { pending_updates = cl.pending_updates - 1 }

-- One round of `updatePeriodic`. `answer` is the reply's vector, which is empty if the leader
-- fails, since the error of GetUpdates is not looked at.
unfoldable pub update_round :
    {Filter : Type 0}
    → Primitives
    → (List ℕ → Option (List ℕ))
    → (Filter → List ℕ → Filter)
    → (Filter → List ℕ → Bool)
    → Bool
    → List ℕ
    → Store
    → Filter × Client
    → Outcome (Filter × Client)
unfolding prioritize_requests
update_round c decompress import_from test ticked answer store (filter, cl) =
    elim (decompress answer) [
      | none ↦ ok (filter, wait_update ticked cl)
      | some vec ↦
          let filter' = import_from filter vec in
          prioritize_requests c (test filter') store (wait_update ticked cl) >>= λ cl'.
          ok (filter', cl')
    ]

-- `getConfig`. `reply` is the leader's answer, its number of buckets and the size of its data.
unfoldable pub get_config : Outcome (ℕ × ℕ) → ClientConfig → Outcome ClientConfig
get_config reply conf = reply >>= λ r. ok (record conf { num_buckets = r.0; data_size = r.1 })
