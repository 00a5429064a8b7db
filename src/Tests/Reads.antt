-- ===== src/Tests/Reads.antt =====
-- Reads of a database with a table, and the choice of a compaction.
use jadedb.Common.{ℕ, ◌≡◌, refl, arith, some, List, [], ◌∷◌, ◌++◌, false, All, reverse}
use mathlib.Core.List.{Mem}
use jadedb.Common.Order.{bytes_cmp}
use jadedb.Common.Result.{ok}
use jadedb.Options.{Options, for_tests}
use jadedb.Key.Versions.{newest, value_of}
use jadedb.Wal.{Wal}
use jadedb.Wal as Wal
use jadedb.Sstable.Bloom.{BloomFilter}
use jadedb.Sstable.Builder.Finished.{Written, finished-Written}
use jadedb.Sstable.Builder.Layout.{concat, disk_at}
use jadedb.Sstable.Table.{SsTable, open_table}
use jadedb.Sstable.Table.RoundTrip.{opened-IsTable}
use jadedb.Sstable.Reader.Table.{IsTable}
use jadedb.Sstable.Reader.Reads.{Yields}
use jadedb.Version.{Version, l0_num_files}
use jadedb.Compact.{
  CompactionJob, pick_compaction, pick_upper, level_at, key_range, widen, overlapping,
}
use jadedb.Compact.Range.{Covers, pick_compaction_lem}
use jadedb.Db.Memory.{Inner}
use jadedb.Db.Read.{get_with_seq}
use jadedb.Db.Read.Tables.{Stocked, NewestFirst}
use jadedb.Db.Read.Levels.{lower, StockedLevels}
use jadedb.Db.Read.Newest.{AreMems, mem_records, get_with_seq-newest}
use jadedb.Tests.Data.{checksum, key_a, key_b, write_1, write_2, write_3}
use jadedb.Tests.Files.{
  two_probes, first_cached, table_file, table_meta, table_dir, finish_run, writes-IsSorted,
}

abbrev filter : BloomFilter
filter = record { bits = []; nbits = 0; k = 0 }

abbrev table_of : ℕ → List ℕ → List ℕ → SsTable
table_of n smallest largest = record {
  file_num = n;
  smallest = smallest;
  largest = largest;
  file_size = 100;
  index = record { entries = [] };
  bloom = filter;
}

-- a table for a, and below it tables for a and for b
abbrev small_version : Version
small_version = record {
  levels =
      (table_of 3 key_a key_a ∷ []) ∷ (table_of 1 key_a key_a ∷ table_of 2 key_b key_b ∷ []) ∷ [];
}

abbrev eager : Options
eager = record for_tests { l0_compaction_trigger = 1 }

abbrev small_job : CompactionJob
small_job = record {
  level = 0;
  inputs_upper = table_of 3 key_a key_a ∷ [];
  inputs_lower = table_of 1 key_a key_a ∷ [];
}

pick_compaction_run : pick_compaction small_version eager ≡ ok (some small_job)
unfolding pick_compaction pick_upper level_at key_range widen overlapping bytes_cmp l0_num_files
pick_compaction_run = refl

pick_compaction_lem_example :
    (next : List SsTable) × (level_at small_version 1 ≡ ok next)
    × All
        (λ t. All (λ x. (k : List ℕ) → Covers t k → Covers x k → Mem x small_job.inputs_lower) next)
        small_job.inputs_upper
    × All (λ x. Mem x next) small_job.inputs_lower
pick_compaction_lem_example = pick_compaction_lem small_version eager small_job pick_compaction_run

abbrev written : Written checksum two_probes write_1 (write_2 ∷ []) (table_meta, table_file)
written =
    finished-Written checksum two_probes 16 10 write_1 (write_2 ∷ []) (table_meta, table_file)
      finish_run

abbrev disk : ℕ → ℕ → List ℕ
disk _ off = disk_at 0 written.ps off

opened :
    (t : SsTable) × (open_table table_dir 7 key_a key_b ≡ ok t)
    × IsTable first_cached table_dir disk t checksum written.ps
opened =
    opened-IsTable checksum two_probes first_cached table_dir 7 16 10 write_1 (write_2 ∷ [])
      (table_meta, table_file) written (ground arith) writes-IsSorted (omega arith) refl

-- the delete of a in the memtable, above the table
abbrev some_inner : Inner
some_inner = record {
  opts = for_tests;
  mem = record { map = write_3 ∷ []; approx_bytes = 17 };
  imms = [];
  l0_num_files = 1;
  wal = Wal.create for_tests.fsync;
  next_seq = 3;
  is_closed = false;
  stall_count = 0;
}

some_memory :
    AreMems
      (some_inner.mem ∷ reverse some_inner.imms)
      (concat ((write_1 ∷ write_2 ∷ []) ∷ []) ++ lower first_cached table_dir disk checksum [])
unfolding AreMems lower concat
some_memory = ground arith

some_stock :
    Stocked first_cached table_dir disk checksum
      (reverse (opened.0 ∷ []))
      ((write_1 ∷ write_2 ∷ []) ∷ [])
unfolding Stocked
some_stock = ((written.ps, opened.2, written.all), tt)

some_order :
    NewestFirst first_cached table_dir disk checksum
      ((write_1 ∷ write_2 ∷ []) ∷ [])
      (lower first_cached table_dir disk checksum [])
unfolding NewestFirst concat lower
some_order = ground arith

no_levels : StockedLevels first_cached table_dir disk checksum [] []
unfolding StockedLevels
no_levels = tt

get_with_seq-newest_example :
    Yields disk
      (get_with_seq first_cached table_dir checksum some_inner
        (record { levels = (opened.0 ∷ []) ∷ [] })
        key_a
        2)
      (value_of (
        newest key_a 2 (
          mem_records (some_inner.mem ∷ reverse some_inner.imms)
          ++ (concat ((write_1 ∷ write_2 ∷ []) ∷ [])
              ++ lower first_cached table_dir disk checksum []))))
get_with_seq-newest_example =
    get_with_seq-newest first_cached table_dir disk checksum some_inner (opened.0 ∷ []) []
      ((write_1 ∷ write_2 ∷ []) ∷ []) [] key_a 2 refl some_memory some_stock some_order no_levels
