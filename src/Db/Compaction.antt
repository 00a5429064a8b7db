-- ===== src/Db/Compaction.antt =====
-- src/db.rs: `maybe_compact` and `Db::compact`, on the state of `Db.Flush`.
pub mod Files
use jadedb.Common.{
  ℕ, zero, suc, ◌+◌, ◌%◌, ◌^◌, ◌==◌, ◌&&◌, Bool, true, false, not, if◌then◌else◌, Option, none,
  some,
}
use jadedb.Common.{List, [], ◌∷◌, ◌++◌, map, retain}
use jadedb.Common.Result.{ok}
use jadedb.Manifest.{
  FileMeta, ManifestEdit, add_file, delete_file, set_next_file_num, set_last_seq, log,
}
use jadedb.Snapshot.{SnapshotTracker, watermark}
use jadedb.Sstable.Cache.{Cached}
use jadedb.Sstable.Table.{Dir, SsTable}
use jadedb.Sstable.Reader.{Reads, pure, ◌>>=◌}
use jadedb.Version.{Version, from_metas, l0_num_files}
use jadedb.Compact.{CompactionJob, pick_compaction}
use jadedb.Compact.Run.{Output}
use jadedb.Compact.Job.{run_compaction}
use jadedb.Db.Flush.{Store, flush}

-- the metadata of a table
abbrev pub table_meta : ℕ → SsTable → FileMeta
table_meta level t = record {
  file_num = t.file_num;
  level = level;
  smallest = t.smallest;
  largest = t.largest;
  file_size = t.file_size;
}

-- the loops of `collect_file_metas`, from the level with the number `level` on
unfoldable pub level_metas : ℕ → List (List SsTable) → List FileMeta
level_metas level [] = []
level_metas level (tables ∷ levels) =
    map (table_meta level) tables ++ level_metas (level + 1) levels

-- `collect_file_metas`
abbrev pub collect_file_metas : Version → List FileMeta
collect_file_metas v = level_metas 0 v.levels

-- the loop of `maybe_compact` that applies the edits in memory
unfoldable pub edit_files : List FileMeta → List ManifestEdit → List FileMeta
edit_files files [] = files
edit_files files (add_file m ∷ edits) = edit_files (files ++ (m ∷ [])) edits
edit_files files (delete_file level file_num ∷ edits) =
    edit_files (retain (λ f. not (f.level == level && f.file_num == file_num)) files) edits
edit_files files (set_next_file_num n ∷ edits) = edit_files files edits
edit_files files (set_last_seq n ∷ edits) = edit_files files edits

-- the loop that removes the files of obsolete tables
unfoldable pub remove_files : List ManifestEdit → Dir → Dir
remove_files [] dir = dir
remove_files (add_file m ∷ edits) dir = remove_files edits dir
remove_files (delete_file level file_num ∷ edits) dir =
    remove_files edits (λ n. if n == file_num then none else dir n)
remove_files (set_next_file_num n ∷ edits) dir = remove_files edits dir
remove_files (set_last_seq n ∷ edits) dir = remove_files edits dir

-- the sum of the sizes of the new files
abbrev pub new_bytes : List FileMeta → ℕ
new_bytes [] = 0
new_bytes (m ∷ metas) = m.file_size + new_bytes metas

module _ (first_key : List Cached → Option (ℕ × ℕ)) (crc32 : List ℕ → ℕ) (probes_of : ℕ → ℕ) where
  -- the state after a compaction with the output `out`, the edits `edits` and the version `v`
  abbrev pub compacted : Store → Output → List ManifestEdit → Version → Store
  compacted s out edits v = record s {
    inner = record s.inner { l0_num_files = l0_num_files v };
    version = v;
    next_file_num = out.next_file_num;
    manifest = log crc32 s.manifest edits;
    dir = remove_files edits out.dir;
    compact_count = s.compact_count + 1;
    bytes_written = (s.bytes_written + new_bytes out.new_metas) % 2 ^ 64;
  }

  -- `maybe_compact` with a job
  unfoldable pub compact_job : Store → SnapshotTracker → CompactionJob → Reads (Bool × Store)
  compact_job s tracker job = do
    out ←
        run_compaction first_key crc32 probes_of s.dir job s.inner.opts s.next_file_num
          (watermark tracker)
    let edits = out.edits ++ (set_next_file_num out.next_file_num ∷ [])
    v ← pure (
        from_metas out.dir (edit_files (collect_file_metas s.version) edits)
          s.inner.opts.max_levels)
    pure (ok (true, compacted s out edits v))

  -- `maybe_compact`
  unfoldable pub maybe_compact : Store → SnapshotTracker → Reads (Bool × Store)
  maybe_compact s tracker = do
    picked ← pure (pick_compaction s.version s.inner.opts)
    elim picked [ none ↦ pure (ok (false, s)) | some job ↦ compact_job s tracker job ]

  -- the loop of `Db::compact`, with `n` rounds left
  unfoldable compact_rounds : ℕ → Store → SnapshotTracker → Reads Store
  compact_rounds zero s tracker = pure (ok s)
  compact_rounds (suc n) s tracker = do
    step ← maybe_compact s tracker
    let again = compact_rounds n step.1 tracker
    if step.0 then again else pure (ok step.1)

  -- `Db::compact`
  abbrev compact : Store → SnapshotTracker → Reads Store
  compact s tracker = do flushed ← pure (flush crc32 probes_of s); compact_rounds 64 flushed tracker
