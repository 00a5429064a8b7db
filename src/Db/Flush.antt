-- ===== src/Db/Flush.antt =====
-- src/db.rs: `flush_imms`, `flush`, `snapshot` and `close`. The state is `Inner` with the fields that
-- `Db.Memory` leaves out, and the directory with the table files. What a step that fails has changed
-- before is left out.
pub mod Table
use jadedb.Common.{ℕ, ◌+◌, ◌%◌, ◌^◌, ◌==◌, ◌&&◌, Bool, true, false, if◌then◌else◌, some}
use jadedb.Common.{List, [], ◌∷◌, ◌++◌}
use jadedb.Common.Result.{Result, ok, err, panic, closed, ◌>>=◌}
use jadedb.Manifest.{FileMeta, add_file, set_next_file_num, set_last_seq, Manifest, log}
use jadedb.Memtable.{MemTable}
use jadedb.Memtable as Memtable
use jadedb.Snapshot.{SnapshotTracker, create_snapshot}
use jadedb.Sstable.Builder.{SsTableMeta, new, add_all, finish}
use jadedb.Sstable.Table.{Dir, SsTable, open_table}
use jadedb.Version.{Version, l0_num_files}
use jadedb.Wal.{sync}
use jadedb.Wal as Wal
use jadedb.Db.Memory.{Inner}

pub record Store : Type 0 where
  pub inner : Inner
  pub version : Version
  pub next_file_num : ℕ
  pub manifest : Manifest
  pub dir : Dir
  pub flush_count : ℕ
  pub compact_count : ℕ
  pub bytes_written : ℕ

-- the directory with a file written
abbrev pub write_file : Dir → ℕ → List ℕ → Dir
write_file dir file_num content n = if n == file_num then some content else dir n

-- the metadata of a flushed table
abbrev pub flushed_meta : ℕ → SsTableMeta → FileMeta
flushed_meta file_num m = record {
  file_num = file_num;
  level = 0;
  smallest = m.smallest.user_key;
  largest = m.largest.user_key;
  file_size = m.file_size;
}

-- `new_version.levels[0].push(...)`
unfoldable pub push_l0 : Version → SsTable → Result Version
push_l0 v t = elim v.levels [
  | [] ↦ panic
  | l0 ∷ levels ↦ ok (record { levels = (l0 ++ (t ∷ [])) ∷ levels })
]

abbrev pub none_left : List MemTable → Bool
none_left [] = true
none_left (m ∷ mems) = false

-- the log starts afresh where all that it holds is in tables
unfoldable pub reset_wal : Inner → Inner
reset_wal g =
    if none_left g.imms && Memtable.is_empty g.mem
    then record g { wal = Wal.create g.opts.fsync }
    else g

-- `if !g.mem.is_empty() { ... }` in `Db::flush`
unfoldable pub freeze_mem : Inner → Inner
freeze_mem g =
    if Memtable.is_empty g.mem
    then g
    else record g { wal = sync g.wal; mem = Memtable.new; imms = g.imms ++ (g.mem ∷ []) }

module _ (crc32 : List ℕ → ℕ) (probes_of : ℕ → ℕ) where
  -- the state after a table `t` was written for a memtable, with `rest` behind it
  abbrev pub flushed : Store → SsTableMeta → List ℕ → Version → List MemTable → Store
  flushed s m file version rest =
      let next = (s.next_file_num + 1) % 2 ^ 64 in
      let fm = flushed_meta s.next_file_num m in
      record {
        inner = reset_wal (record s.inner { imms = rest; l0_num_files = l0_num_files version });
        version = version;
        next_file_num = next;
        manifest =
            log crc32 s.manifest
              (add_file fm ∷ (set_next_file_num next ∷ (set_last_seq s.inner.next_seq ∷ [])));
        dir = write_file s.dir s.next_file_num file;
        flush_count = s.flush_count + 1;
        compact_count = s.compact_count;
        bytes_written = (s.bytes_written + m.file_size) % 2 ^ 64;
      }

  -- one round of the loop in `flush_imms`, for a memtable that is not empty
  unfoldable pub flush_imm : Store → MemTable → List MemTable → Result Store
  flush_imm s imm rest = do
    done ←
        finish crc32 probes_of
          (add_all (new s.inner.opts.block_size s.inner.opts.bloom_bits_per_key) imm.map)
    t ←
        open_table (write_file s.dir s.next_file_num done.1) s.next_file_num
          done.0.smallest.user_key done.0.largest.user_key
    version ← push_l0 s.version t
    ok (flushed s done.0 done.1 version rest)

  -- the loop of `flush_imms`
  unfoldable pub flush_from : List MemTable → Store → Result Store
  flush_from [] s = ok s
  flush_from (imm ∷ rest) s =
      let skipped = flush_from rest (record s { inner = record s.inner { imms = rest } }) in
      let written = flush_imm s imm rest >>= λ s'. flush_from rest s' in
      if Memtable.is_empty imm then skipped else written

  -- `flush_imms`
  abbrev pub flush_imms : Store → Result Store
  flush_imms s = flush_from s.inner.imms s

  -- `Db::flush`
  abbrev pub flush : Store → Result Store
  flush s = flush_imms (record s { inner = freeze_mem s.inner })

-- `Db::snapshot`
unfoldable pub snapshot : Inner → SnapshotTracker → Result SnapshotTracker
snapshot g tracker = if g.is_closed then err closed else ok (create_snapshot tracker g.next_seq)

-- the end of `Db::close`
abbrev pub close : Inner → Inner
close g = record g { wal = sync g.wal; is_closed = true }
