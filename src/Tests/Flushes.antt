-- ===== src/Tests/Flushes.antt =====
-- Flushes and compactions.
use jadedb.Common.{ℕ, ◌≡◌, refl, arith, none, List, [], ◌∷◌, ◌++◌, false}
use jadedb.Common.Words.{to_le, to_be, from_le}
use jadedb.Common.Result.{Result, ok, slice, ◌>>=◌}
use jadedb.Options.{Options, for_tests}
use jadedb.Key.{tag}
use jadedb.Manifest.{FileMeta, ManifestEdit, add_file, delete_file, empty_state, apply_edits}
use jadedb.Manifest as Manifest
use jadedb.Memtable as Memtable
use jadedb.Memtable.{MemTable, get}
use jadedb.Sstable.Table.{Dir, SsTable, open_table, open_file, read_exact}
use jadedb.Sstable.Builder.{
  finish, add_all, add, flush_block, add_entry, is_empty_block, file_bytes, footer, expect,
}
use jadedb.Sstable.Block as Block
use jadedb.Sstable.Index as Index
use jadedb.Sstable.Bloom as Bloom
use jadedb.Common.Cursor
use jadedb.Key as Key
use jadedb.Sstable.Cache as Cache
use jadedb.Sstable.Reader.{table_get}
use jadedb.Wal as Wal
use jadedb.Compact.Run.Tables.{Tables}
use jadedb.Db.Flush.{Store, flush_imm, flush_from, flush_imms, push_l0, reset_wal}
use jadedb.Db.Open.{open_db}
use jadedb.Version.{from_metas, open_metas}
use jadedb.Db.{replay}
use jadedb.Db.Flush.Table.{flush_imm-get}
use jadedb.Db.Compaction.{edit_files}
use jadedb.Db.Compaction.Files.{edit_files-apply_edits}
use jadedb.Tests.Data.{checksum, key_a, key_b, write_1, write_2, write_3}
use jadedb.Tests.Files.{
  two_probes, first_cached, table_file, table_meta, finish_run, writes-IsSorted,
}

abbrev tiny_blocks : Options
tiny_blocks = record for_tests { block_size = 16; bloom_bits_per_key = 10 }

abbrev frozen : MemTable
frozen = record { map = write_1 ∷ write_2 ∷ []; approx_bytes = 36 }

abbrev no_tables : Dir
no_tables n = none

-- a database with one frozen memtable
abbrev full_store : Store
full_store = record {
  inner = record {
    opts = tiny_blocks;
    mem = record { map = write_3 ∷ []; approx_bytes = 17 };
    imms = frozen ∷ [];
    l0_num_files = 0;
    wal = Wal.create tiny_blocks.fsync;
    next_seq = 3;
    is_closed = false;
    stall_count = 0;
  };
  version = record { levels = [] ∷ [] ∷ [] };
  next_file_num = 1;
  manifest = Manifest.create tiny_blocks.fsync;
  dir = no_tables;
  flush_count = 0;
  compact_count = 0;
  bytes_written = 0;
}

flush_imm-get_example :
    (t : SsTable) × (after : Store) × (flush_imm checksum two_probes full_store frozen []
      ≡ ok after)
    × (after.version.levels ≡ ([] ++ (t ∷ [])) ∷ [] ∷ [])
    × (after.inner.imms ≡ [])
    × ((table_get first_cached after.dir checksum t key_a 1 (Cache.new 4)).0
        ≡ ok (get frozen key_a 1))
flush_imm-get_example =
    flush_imm-get checksum two_probes first_cached 4 full_store write_1 (write_2 ∷ []) 36 [] []
      ([] ∷ []) (table_meta, table_file) key_a 1 (ground arith) writes-IsSorted (omega arith) refl
      finish_run (omega arith)

abbrev file_1 : FileMeta
file_1 = record { file_num = 1; level = 0; smallest = key_a; largest = key_b; file_size = 162 }

abbrev two_edits : List ManifestEdit
two_edits = add_file file_1 ∷ delete_file 0 1 ∷ []

edit_files-apply_edits_example :
    edit_files empty_state.files two_edits ≡ (apply_edits empty_state two_edits).files
edit_files-apply_edits_example = edit_files-apply_edits empty_state two_edits

-- the next file number, the last sequence number and the memtables of a database
abbrev numbers : Store → Result (ℕ × ℕ × List MemTable)
numbers s = ok (s.next_file_num, s.inner.next_seq, s.inner.mem ∷ s.inner.imms)

-- A directory without a log and a manifest opens as an empty database.
open_fresh :
    (open_db checksum for_tests none none no_tables >>= numbers) ≡ ok (1, 0, Memtable.new ∷ [])
unfolding open_db Manifest.recover Wal.recover from_metas open_metas replay
open_fresh = refl

-- Flushing the store writes its frozen memtable and leaves the active one.
flush_frozen :
    (flush_imms checksum two_probes full_store >>= numbers) ≡ ok (2, 3, full_store.inner.mem ∷ [])
unfolding flush_from flush_imm push_l0 reset_wal finish add_all add flush_block add_entry
    is_empty_block file_bytes footer expect Block.finish Block.add Block.entry_bytes Index.push
    Index.encode Index.index_bytes Bloom.build Bloom.add_keys Bloom.add_probes Bloom.set_bit
    Bloom.place Bloom.hash_pair Bloom.encode to_le to_be Key.encode tag checksum Cursor.index
    open_table open_file read_exact Index.decode Index.decode_entries Bloom.decode Cursor.read_le
    from_le Memtable.is_empty slice
flush_frozen = refl
