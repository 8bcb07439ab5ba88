-- ===== src/Server/Replica/Pads.antt =====
-- What a replica adds to its shard's replies: for each request the pad of its seed.
use talek.Base.{
  ℕ, zero, suc, ◌-◌, ◌*◌, ◌/◌, ◌≤◌, ◌≡◌, refl, ap, ◌∙◌, false, none, some, List, [], ◌∷◌, ◌++◌, map,
  arith, All, bytes_xor, zeros-bytes_xor, length, take, replicate, length-append, length-replicate,
  length-map, Outcome, bad_seed, ok, err, panic, ltb, ltb-eq-false,
}
use talek.Drbg.Seed.{seed_length}
use talek.Drbg.HashDrbg.{overlay}
use talek.Drbg.HashDrbg.Overlay.{overlay-pad}
use talek.Pir.ShardCpu.{ShardCpu}
use talek.Pir.ShardCpu.Answer.{IsWellFormed, answer, length-answer}
use talek.Common.Range.{Range}
use talek.Common.ReadArgs.{PirArgs}
use talek.Common.Protocol.{EncodedReadArgs, ReadReply, no_reply}
use talek.Server.Config.{ServerConfig}
use talek.Server.Reads.Batch.{reply_of, fitted, Serves, batch_read-answers}
use talek.Server.Replica.{no_args, overlaid, local_arg, local_args, add_pad, add_pads, batch_read}

abbrev pub pad_of : Outcome (List ℕ) → List ℕ
pad_of (ok p) = p
pad_of (err e) = []
pad_of panic = []

-- The pad of a seed, as long as `n`.
unfoldable pub pad : (List ℕ → List ℕ → List ℕ) → List ℕ → ℕ → List ℕ
unfolding overlay
pad sip seed n = pad_of (overlay sip seed (replicate n 0))

-- A request with a seed for a pad.
abbrev pub HasSeed : PirArgs → Type 0
HasSeed a = seed_length ≤ length a.pad_seed

-- The shard's answer with the pad.
abbrev pub padded : (List ℕ → List ℕ → List ℕ) → ShardCpu → ℕ → PirArgs → List ℕ
padded sip s n a =
    bytes_xor (answer s (fitted n a) s.num_buckets) (pad sip a.pad_seed s.bucket_size)

abbrev pub padded_reply : (List ℕ → List ℕ → List ℕ) → ShardCpu → ℕ → PirArgs → ReadReply
padded_reply sip s n a = record no_reply { contents = padded sip s n a }

pub pad_lem :
    (sip : List ℕ → List ℕ → List ℕ) (seed : List ℕ) (n : ℕ)
    → seed_length ≤ length seed
    → (length (pad sip seed n) ≡ n)
      × ((ys : List ℕ) → length ys ≡ n → overlay sip seed ys ≡ ok (bytes_xor ys (pad sip seed n)))
unfolding pad
pad_lem sip seed n long =
    let (p, size, adds) = overlay-pad sip seed n long in
    let zeros : List ℕ = replicate n 0 in
    let made =
      adds zeros (length-replicate n 0) ∙ ap ok (zeros-bytes_xor n p (omega (arith, size))) in
    let same : pad sip seed n ≡ p = ap pad_of made in rw same (size, adds)

-- A request and what the replica decodes.
abbrev pub IsDecoded :
    ServerConfig → (EncodedReadArgs → Outcome PirArgs) → EncodedReadArgs × PirArgs → Type 0
IsDecoded conf decode p = local_arg conf decode p.0 ≡ ok p.1

abbrev encoded : List (EncodedReadArgs × PirArgs) → List EncodedReadArgs
encoded ps = map (λ p. p.0) ps

abbrev decoded : List (EncodedReadArgs × PirArgs) → List PirArgs
decoded ps = map (λ p. p.1) ps

local_args-decoded :
    (conf : ServerConfig) (decode : EncodedReadArgs → Outcome PirArgs) (room : ℕ)
    (ps : List (EncodedReadArgs × PirArgs))
    → All (IsDecoded conf decode) ps
    → length ps ≤ room
    → local_args conf decode room (encoded ps)
      ≡ ok (decoded ps ++ replicate (room - length ps) no_args)
unfolding local_args
local_args-decoded conf decode room [] h fits = ap (λ k. ok (replicate k no_args)) (omega arith)
local_args-decoded conf decode zero (p ∷ ps) h fits = absurd (omega arith)
local_args-decoded conf decode (suc room) (p ∷ ps) h fits =
    rw (h.0, local_args-decoded conf decode room ps h.1 (omega arith))
      (ap (λ k. ok (p.1 ∷ decoded ps ++ replicate k no_args)) (omega arith))

module _ (sip : List ℕ → List ℕ → List ℕ) (s : ShardCpu) (w : IsWellFormed s) (n : ℕ) where
  add_pad-padded :
      (a : PirArgs) → HasSeed a → add_pad sip a (reply_of s n a) ≡ ok (padded_reply sip s n a)
  unfolding add_pad
  add_pad-padded a long = ap (overlaid (reply_of s n a)) (
      (pad_lem sip a.pad_seed s.bucket_size long).1 (answer s (fitted n a) s.num_buckets)
        (length-answer s w (fitted n a) s.num_buckets (omega arith)))

  abbrev spare_reply : ReadReply
  spare_reply = record (reply_of s n no_args) { error = some bad_seed }

  add_pads-spare :
      (k : ℕ)
      → add_pads sip (replicate k no_args) (map (reply_of s n) (replicate k no_args))
        ≡ ok (replicate k spare_reply)
  unfolding add_pads add_pad overlay
  add_pads-spare zero = refl
  add_pads-spare (suc k) = rw (add_pads-spare k) refl

  add_pads-padded :
      (args : List PirArgs) (k : ℕ)
      → All HasSeed args
      → add_pads sip
          (args ++ replicate k no_args)
          (map (reply_of s n) (args ++ replicate k no_args))
        ≡ ok (map (padded_reply sip s n) args ++ replicate k spare_reply)
  unfolding add_pads
  add_pads-padded [] k h = add_pads-spare k
  add_pads-padded (a ∷ args) k h = rw (add_pad-padded a h.0, add_pads-padded args k h.1) refl

take-decoded :
    (f : PirArgs → ReadReply) (ps : List (EncodedReadArgs × PirArgs)) (rest : List ReadReply)
    → take (length (encoded ps)) (map f (decoded ps) ++ rest) ≡ map (λ p. f p.1) ps
take-decoded f [] rest = refl
take-decoded f (p ∷ ps) rest = ap (λ t. f p.1 ∷ t) (take-decoded f ps rest)

-- A replica answers each request of a batch that fits by its shard's answer with the pad of the
-- request's seed.
pub batch_read-padded :
    (conf : ServerConfig) (decode : EncodedReadArgs → Outcome PirArgs)
    (sip : List ℕ → List ℕ → List ℕ) (server_read : List ℕ → Outcome (List ℕ)) (s : ShardCpu)
    (ps : List (EncodedReadArgs × PirArgs)) (range : Range)
    → IsWellFormed s
    → s.bucket_size ≡ conf.data_size * conf.bucket_depth
    → Serves conf s server_read
    → All (IsDecoded conf decode) ps
    → All HasSeed (map (λ p. p.1) ps)
    → length ps ≤ conf.read_batch
    → batch_read conf decode sip server_read
        (record { args = map (λ p. p.0) ps; seq_no_range = range })
      ≡ ok (record {
        batch_error = none;
        replies = map (λ p. padded_reply sip s (conf.num_buckets / 8) p.1) ps;
      })
unfolding batch_read
batch_read-padded conf decode sip server_read s ps range w size serves decodes seeds fits =
    rw
      (
        local_args-decoded conf decode conf.read_batch ps decodes fits,
        batch_read-answers conf s server_read args w size serves all_long,
        add_pads-padded sip s w n (decoded ps) spare seeds,
        reached,
      )
      (ap (λ rs. ok (record { batch_error = none; replies = rs }))
        (take-decoded (padded_reply sip s n) ps (replicate spare (spare_reply sip s w n))))
  where
    n : ℕ
    n = conf.num_buckets / 8

    spare : ℕ
    spare = conf.read_batch - length ps

    args : List PirArgs
    args = decoded ps ++ replicate spare no_args

    all_long : length args ≡ conf.read_batch
    all_long = omega (
      arith,
      length-append (decoded ps) (replicate spare no_args),
      length-replicate spare no_args,
      length-map (λ (p : EncodedReadArgs × PirArgs). p.1) ps,
      fits,
    )

    given : List ReadReply
    given = map (padded_reply sip s n) (decoded ps) ++ replicate spare (spare_reply sip s w n)

    reached : ltb (length given) (length (encoded ps)) ≡ false
    reached = ltb-eq-false (length given) (length (encoded ps)) (
        omega (
          arith,
          length-append (map (padded_reply sip s n) (decoded ps))
              (replicate spare (spare_reply sip s w n)),
          length-map (padded_reply sip s n) (decoded ps),
          length-map (λ (p : EncodedReadArgs × PirArgs). p.1) ps,
          length-map (λ (p : EncodedReadArgs × PirArgs). p.0) ps,
        ))
