-- ===== src/Server/Config.antt =====
-- server/config.go with the parts of common/config.go that the servers use. `window_size` is what
-- WindowSize computes in floating point. The times and the keys are left out.
use talek.Base.{ℕ}

pub record ServerConfig : Type 0 where
  pub num_buckets : ℕ
  pub bucket_depth : ℕ
  pub data_size : ℕ
  pub window_size : ℕ
  pub read_batch : ℕ
  pub trust_domain_index : ℕ
