-- ===== src/Options.antt =====
-- src/options.rs: the fsync policies and the options of a database.
use jadedb.Common.{ℕ, ◌*◌}

pub data FsyncMode : Type 0 where
  always batch never : FsyncMode

pub record Options : Type 0 where
  pub memtable_bytes : ℕ
  pub block_size : ℕ
  pub fsync : FsyncMode
  pub l0_compaction_trigger : ℕ
  pub level_ratio : ℕ
  pub base_level_bytes : ℕ
  pub target_file_size : ℕ
  pub bloom_bits_per_key : ℕ
  pub block_cache_capacity : ℕ
  pub max_levels : ℕ

-- `Options::default`
abbrev pub default : Options
default = record {
  memtable_bytes = 4 * 1024 * 1024;
  block_size = 4 * 1024;
  fsync = batch;
  l0_compaction_trigger = 4;
  level_ratio = 10;
  base_level_bytes = 10 * 1024 * 1024;
  target_file_size = 2 * 1024 * 1024;
  bloom_bits_per_key = 10;
  block_cache_capacity = 64;
  max_levels = 7;
}

-- `Options::for_tests`
abbrev pub for_tests : Options
for_tests = record {
  memtable_bytes = 64 * 1024;
  block_size = 1024;
  fsync = always;
  l0_compaction_trigger = 2;
  level_ratio = 10;
  base_level_bytes = 256 * 1024;
  target_file_size = 32 * 1024;
  bloom_bits_per_key = 10;
  block_cache_capacity = 16;
  max_levels = 7;
}
