-- ===== src/Pir/Server/Serving.antt =====
-- A PIR server over the CPU backing, from its configuration to its answers.
use native.Mathlib.Nat.{mul-mod_left, mul-div_cancel}
use talek.Base.{
  ℕ, ◌*◌, ◌/◌, ◌%◌, ◌≤◌, ◌<◌, ◌≡◌, sym, ap, ◌∙◌, Bool, true, false, Option, none, some, List, arith,
  IsBytes, pos, length, set, replicate, length-replicate, copy-same_length, Outcome, ◌>>=◌, ok,
  ◌==◌, ltb-eq-false, ==_iff,
}
use talek.Pir.ShardCpu.{ShardCpu, new_shard_cpu, is_bad_version}
use talek.Pir.ShardCpu as Cpu
use talek.Pir.ShardCpu.Answer.{answers}
use talek.Pir.ShardCpu.Batch.{read-answers}
use talek.Pir.Server.{Backing, Db, Server, configure, set_db, read}

-- The backing that pir/pircpu/shard_cpu.go registers. NewShard reads the version from the text that
-- names the backing: here it is an argument.
unfoldable pub cpu_backing : Bool → ℕ → Backing ShardCpu
cpu_backing unaligned version = record {
  new_shard = λ size memory. new_shard_cpu size memory (pos version);
  read = λ s masks req_length. Cpu.read unaligned s masks req_length;
}

-- The shard of a database of `count` cells.
abbrev pub shard_of : ℕ → ℕ → ℕ → List ℕ → ShardCpu
shard_of version cell_length cell_count contents = record {
  bucket_size = cell_length;
  num_buckets = cell_count;
  contents = contents;
  read_version = pos version;
}

module _ (u : Bool) (version cell_length cell_count batch_size : ℕ) (contents : List ℕ) where
  new_shard-shard_of :
      version ≤ 2
      → 0 < cell_length
      → length contents ≡ cell_count * cell_length
      → new_shard_cpu cell_length contents (pos version)
        ≡ ok (shard_of version cell_length cell_count contents)
  unfolding new_shard_cpu is_bad_version
  new_shard-shard_of known some_bytes size =
      rw (not_zero, whole, ltb-eq-false 2 version known, count)
    where
      not_zero : (cell_length == 0) ≡ false
      not_zero = ground arith

      whole : (length contents % cell_length == 0) ≡ true
      whole =
          (==_iff (length contents % cell_length) 0).1
            (rw size (mul-mod_left cell_count cell_length))

      count : length contents / cell_length ≡ cell_count
      count = rw size (mul-div_cancel cell_count some_bytes)

  -- The server with these sizes.
  abbrev pub sized : Option (Db ShardCpu) → Server ShardCpu
  sized db = record {
    cell_length = cell_length;
    cell_count = cell_count;
    batch_size = batch_size;
    db = db;
  }

  abbrev pub loaded : Db ShardCpu
  loaded = record {
    contents = contents;
    shard = some (shard_of version cell_length cell_count contents);
  }

  set_db-loaded :
      (db : Option (Db ShardCpu))
      → version ≤ 2
      → 0 < cell_length
      → length contents ≡ cell_count * cell_length
      → set_db (cpu_backing u version) (sized db) (record { contents = contents; shard = none })
        ≡ (sized (some loaded), ok loaded)
  unfolding set_db cpu_backing
  set_db-loaded db known some_bytes size = rw (
    copy-same_length (replicate (length contents) 0) contents
        (length-replicate {A = ℕ} (length contents) 0),
    new_shard-shard_of known some_bytes size,
    set_db,
  )

  pub read-loaded :
      (masks : List ℕ)
      → 0 < cell_length
      → cell_length % 8 ≡ 0
      → 0 < cell_count
      → cell_count % 8 ≡ 0
      → 0 < batch_size
      → length contents ≡ cell_count * cell_length
      → IsBytes contents
      → length masks ≡ batch_size * (cell_count / 8)
      → read (cpu_backing u version) (sized (some loaded)) masks
        ≡ ok (
            answers
              (shard_of version cell_length cell_count contents)
              masks
              (cell_count / 8)
              batch_size)
  unfolding read cpu_backing
  read-loaded masks some_bytes whole_words some_cells whole_masks some_reads size all_bytes fit =
      rw (not_zero, right_length)
        (read-answers u (shard_of version cell_length cell_count contents) masks (cell_count / 8)
          batch_size (record { positive = some_bytes; filled = sym size; all_bytes = all_bytes })
          (omega arith) (omega arith) fit whole_words)
    where
      not_zero : (cell_count == 0) ≡ false
      not_zero = ground arith

      eighths : cell_count ≡ cell_count / 8 * 8
      eighths = omega arith

      mask_length : (q : ℕ) → q * 8 * batch_size / 8 ≡ batch_size * q
      mask_length q =
          ap (λ (n : ℕ). n / 8) {y = batch_size * q * 8} (grind arith)
          ∙ mul-div_cancel (batch_size * q) (omega arith)

      right_length : (length masks == cell_count * batch_size / 8) ≡ true
      right_length = (==_iff (length masks) (cell_count * batch_size / 8)).1 (
          fit
          ∙ sym (mask_length (cell_count / 8))
          ∙ ap (λ (n : ℕ). n * batch_size / 8) (sym eighths))

-- `Configure`, `SetDB` of a database and a `Read`, one after the other.
unfoldable pub serve :
    Backing ShardCpu → Server ShardCpu → ℕ → ℕ → ℕ → List ℕ → List ℕ → Outcome (List ℕ)
serve backing s cell_length cell_count batch_size contents masks =
    let (s1, configured) = configure s cell_length cell_count batch_size in
    configured >>= λ _.
    let (s2, set) = set_db backing s1 (record { contents = contents; shard = none }) in
    set >>= λ _. read backing s2 masks

-- For a read version up to 2, positive multiples of 8 for the cells' number and length, a positive
-- batch size, a database of as many bytes, and masks for one batch: configuring the server over the
-- CPU backing, setting the database and reading returns normally the answers of the shard of that
-- database, one for each request.
pub serve-answers :
    (u : Bool) (version cell_length cell_count batch_size : ℕ) (contents : List ℕ)
    (s : Server ShardCpu) (masks : List ℕ)
    → version ≤ 2
    → 0 < cell_length
    → cell_length % 8 ≡ 0
    → 0 < cell_count
    → cell_count % 8 ≡ 0
    → 0 < batch_size
    → length contents ≡ cell_count * cell_length
    → IsBytes contents
    → length masks ≡ batch_size * (cell_count / 8)
    → serve (cpu_backing u version) s cell_length cell_count batch_size contents masks
      ≡ ok (
          answers
            (shard_of version cell_length cell_count contents)
            masks
            (cell_count / 8)
            batch_size)
unfolding serve configure
serve-answers u version cell_length cell_count batch_size contents s masks known some_bytes
      whole_words some_cells whole_masks some_reads size all_bytes fit =
    rw
      (
        whole_masks,
        whole_words,
        set_db-loaded u version cell_length cell_count batch_size contents s.db known some_bytes
            size,
      )
      (read-loaded u version cell_length cell_count batch_size contents masks some_bytes whole_words
        some_cells whole_masks some_reads size all_bytes fit)
