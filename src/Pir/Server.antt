-- ===== src/Pir/Server.antt =====
-- pir/libpir.go: the server of a PIR database, over any backing of pir/pirinterface/shard.go. A
-- backing is a constructor of shards, which may give none, and what a shard answers to a read. The
-- sizes are natural numbers. `Free` of a shard is left out: a freed database has no shard.
pub mod Serving
use talek.Base.{
  ℕ, ◌*◌, ◌/◌, ◌%◌, not, ◌||◌, Option, none, some, List, length, replicate, copy, Outcome, ◌>>=◌,
  or_panic, unknown_backing, bad_sizing, unconfigured, no_db, not_configured, wrong_mask_length, ok,
  err, panic, ◌==◌, if◌then◌else◌,
}

-- A backing: `new_shard size memory`, and `read shard masks length`.
pub record Backing (Shard : Type 0) : Type 0 where
  pub new_shard : ℕ → List ℕ → Outcome Shard
  pub read : Shard → List ℕ → ℕ → Outcome (List ℕ)

module _ (Shard : Type 0) where
  pub record Db : Type 0 where
    pub contents : List ℕ
    pub shard : Option Shard

  pub record Server : Type 0 where
    pub cell_length : ℕ
    pub cell_count : ℕ
    pub batch_size : ℕ
    pub db : Option Db

-- `NewServer`, with the backings that are registered.
unfoldable pub new_server :
    {Shard : Type 0}
    → (List ℕ → Option (Backing Shard))
    → List ℕ
    → Outcome (Server Shard × Backing Shard)
new_server get_backing backing = elim (get_backing backing) [
  | none ↦ err unknown_backing
  | some b ↦ ok (record { cell_length = 0; cell_count = 0; batch_size = 0; db = none }, b)
]

module _ {Shard : Type 0} where
  -- `Free`
  unfoldable pub free : Db Shard → Db Shard
  free db = record db { shard = none }

  unfoldable pub disconnect : Server Shard → Server Shard
  unfolding free
  disconnect s = elim s.db [ none ↦ s | some db ↦ record s { db = some (free db) } ]

  -- `Configure`: the new state, and whether it ends without an error.
  unfoldable pub configure : Server Shard → ℕ → ℕ → ℕ → Server Shard × Outcome (Unit {0})
  configure s cell_length cell_count batch_size =
      let s' : Server Shard = record s {
        cell_length = cell_length;
        cell_count = cell_count;
        batch_size = batch_size;
      } in
      if not (cell_count % 8 == 0) || not (cell_length % 8 == 0)
      then (s', err bad_sizing)
      else (s', ok tt)

  unfoldable pub get_db : Server Shard → Outcome (Db Shard)
  get_db s =
      if (s.cell_count == 0) || (s.cell_length == 0)
      then err unconfigured
      else ok (record { contents = replicate (s.cell_count * s.cell_length) 0; shard = none })

  -- `SetDB`: the new state, and the database with its shard or an error. The database may be the
  -- one in use, which is freed and gets a new shard.
  unfoldable pub set_db :
      Backing Shard → Server Shard → Db Shard → Server Shard × Outcome (Db Shard)
  unfolding disconnect
  set_db backing s db =
      let memory = copy (replicate (length db.contents) 0) db.contents in
      elim (backing.new_shard s.cell_length memory) [
        | err _ ↦ (disconnect s, err no_db)
        | panic ↦ (disconnect s, panic)
        | ok shard ↦
            let db' : Db Shard = record db { shard = some shard } in
            (record s { db = some db' }, ok db')
      ]

  -- `Read`: what is sent to the response channel; a freed database has a nil shard.
  unfoldable pub read : Backing Shard → Server Shard → List ℕ → Outcome (List ℕ)
  read backing s masks = elim s.db [
    | none ↦ err not_configured
    | some db ↦
        if s.cell_count == 0
        then err not_configured
        else if not (length masks == (s.cell_count * s.batch_size) / 8)
        then err wrong_mask_length
        else (or_panic db.shard >>= λ shard. backing.read shard masks (s.cell_count / 8))
  ]
