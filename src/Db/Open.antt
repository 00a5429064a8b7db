-- ===== src/Db/Open.antt =====
-- src/db.rs: `Db::open` as a whole, on the log and the manifest, where there are such files, each with
-- its bytes and the number of those that are durable, and on the table files. The background thread is left out.
use jadedb.Common.{ℕ, max, false, Option, none, some}
use jadedb.Common.{List, [], ◌∷◌}
use jadedb.Common.Result.{Result, ok, ◌>>=◌}
use jadedb.Manifest.{Manifest, open_manifest, set_next_file_num, set_last_seq, log}
use jadedb.Manifest as Manifest
use jadedb.Memtable as Memtable
use jadedb.Options.{Options, FsyncMode}
use jadedb.Sstable.Table.{Dir}
use jadedb.Version.{from_metas, l0_num_files}
use jadedb.Wal.{Wal, open_append}
use jadedb.Wal as Wal
use jadedb.Db.{replay}
use jadedb.Db.Flush.{Store}

-- the bytes of a file
abbrev pub bytes_of : Option (List ℕ × ℕ) → Option (List ℕ)
bytes_of none = none
bytes_of (some (content, durable)) = some content

-- `if wal_path.exists() { ... } else { ... }`
abbrev pub open_wal : Option (List ℕ × ℕ) → FsyncMode → Wal
open_wal none fsync = Wal.create fsync
open_wal (some (content, durable)) fsync = open_append content durable fsync

module _ (crc32 : List ℕ → ℕ) where
  -- `if dir.join("MANIFEST").exists() { ... } else { ... }`
  abbrev pub open_or_create : Option (List ℕ × ℕ) → FsyncMode → ℕ → ℕ → Manifest
  open_or_create (some (content, durable)) fsync next_file_num next_seq =
      open_manifest content durable fsync
  open_or_create none fsync next_file_num next_seq =
      log crc32 (Manifest.create fsync)
        (set_next_file_num next_file_num ∷ (set_last_seq next_seq ∷ []))

  -- `Db::open`
  unfoldable pub open_db : Options → Option (List ℕ × ℕ) → Option (List ℕ × ℕ) → Dir → Result Store
  open_db opts manifest_file wal_file dir = do
    recovered ← Manifest.recover crc32 (bytes_of manifest_file)
    version ← from_metas dir recovered.files opts.max_levels
    entries ← Wal.recover crc32 (bytes_of wal_file)
    let next_file_num = max recovered.next_file_num 1
    let replayed = replay recovered.last_seq Memtable.new entries
    ok (record {
      inner = record {
        opts = opts;
        mem = replayed.1;
        imms = [];
        l0_num_files = l0_num_files version;
        wal = open_wal wal_file opts.fsync;
        next_seq = replayed.0;
        is_closed = false;
        stall_count = 0;
      };
      version = version;
      next_file_num = next_file_num;
      manifest = open_or_create manifest_file opts.fsync next_file_num replayed.0;
      dir = dir;
      flush_count = 0;
      compact_count = 0;
      bytes_written = 0;
    })
