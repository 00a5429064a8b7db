-- ===== src/Compact/Job.antt =====
-- src/compact.rs: `run_compaction` from the tables of a job on. Its result is the output with its edits
-- and metadata, and the directory with the new files.
use jadedb.Common.{ℕ, ◌+◌, ◌==◌, ◌||◌, Bool, false, if◌then◌else◌, Option, none}
use jadedb.Common.{List, [], ◌∷◌, ◌++◌, reverse, map}
use jadedb.Common.Result.{ok}
use jadedb.Manifest.{ManifestEdit, delete_file}
use jadedb.Options.{Options}
use jadedb.Iter.Sources.{sst_streams}
use jadedb.Sstable.Cache.{Cached}
use jadedb.Sstable.Table.{Dir, SsTable}
use jadedb.Sstable.Reader.{Reads, pure, ◌>>=◌}
use jadedb.Compact.{CompactionJob}
use jadedb.Compact.Run.{Output, compact_streams}

-- `job.inputs_upper.iter().any(|x| x.file_num == t.file_num)`
abbrev pub is_upper : List SsTable → ℕ → Bool
is_upper [] file_num = false
is_upper (x ∷ upper) file_num = x.file_num == file_num || is_upper upper file_num

-- the edit that deletes an input
abbrev pub delete_input : CompactionJob → SsTable → ManifestEdit
delete_input job t =
    delete_file (if is_upper job.inputs_upper t.file_num then job.level else job.level + 1)
      t.file_num

-- the locals at the start
abbrev pub start : ℕ → Dir → Output
start next_file_num dir = record {
  builder = none;
  current_size = 0;
  last_user = none;
  next_file_num = next_file_num;
  new_metas = [];
  edits = [];
  dir = dir;
}

-- `run_compaction`
unfoldable pub run_compaction :
    (List Cached → Option (ℕ × ℕ))
    → (List ℕ → ℕ)
    → (ℕ → ℕ)
    → Dir
    → CompactionJob
    → Options
    → ℕ
    → ℕ
    → Reads Output
run_compaction first_key crc32 probes_of dir job opts next_file_num watermark = do
  streams ← sst_streams first_key dir (reverse job.inputs_upper ++ job.inputs_lower)
  out ← pure (
      compact_streams crc32 probes_of opts (job.level + 1) watermark streams
        (start next_file_num dir))
  pure (
      ok (record out {
        edits = out.edits ++ map (delete_input job) (job.inputs_upper ++ job.inputs_lower);
      }))
