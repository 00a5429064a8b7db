-- ===== src/Compact/Run.antt =====
-- src/compact.rs: the loop of `run_compaction`. Its state is that of the locals that it changes, and
-- the directory with the table files. What a step that fails has changed before is left out.
pub mod Writes
pub mod Tables
pub mod Filing
pub mod Written
pub mod Kept
use jadedb.Common.{
  ℕ, zero, suc, ◌+◌, ◌%◌, ◌^◌, ◌==◌, ◌&&◌, leb, Bool, false, if◌then◌else◌, Option, none, some,
}
use jadedb.Common.{List, [], ◌∷◌, ◌++◌, length}
use jadedb.Common.Result.{Result, ok, panic, ◌>>=◌}
use jadedb.Key.{InternalKey, Record, put, delete}
use jadedb.Manifest.{FileMeta, ManifestEdit, add_file}
use jadedb.Memtable.{is_last}
use jadedb.Options.{Options}
use jadedb.Merge.{HeapItem, fill, refill}
use jadedb.Merge.Pops.{total}
use jadedb.Sstable.Builder.{SsTableBuilder, SsTableMeta, new, add, finish}
use jadedb.Sstable.Table.{Dir}

-- the locals of `run_compaction`
pub record Output : Type 0 where
  pub builder : Option SsTableBuilder
  pub current_size : ℕ
  pub last_user : Option (List ℕ)
  pub next_file_num : ℕ
  pub new_metas : List FileMeta
  pub edits : List ManifestEdit
  pub dir : Dir

-- `it.next()` on a stream
abbrev pub next_item : List Record → Option Record × List Record
next_item [] = (none, [])
next_item (r ∷ rest) = (some r, rest)

-- the file `fm` of a table
abbrev pub output_meta : ℕ → ℕ → SsTableMeta → FileMeta
output_meta file_num level m = record {
  file_num = file_num;
  level = level;
  smallest = m.smallest.user_key;
  largest = m.largest.user_key;
  file_size = m.file_size;
}

-- `drop`: a tombstone that no snapshot needs, on its way to the last level
unfoldable pub is_dropped : Options → ℕ → ℕ → InternalKey → Bool
is_dropped opts level watermark key = elim key.kind [
  | delete ↦ leb key.seq watermark && leb opts.max_levels (level + 1)
  | put ↦ false
]

-- the output after the table of its builder was written
abbrev pub with_table : ℕ → Output → SsTableMeta → List ℕ → Output
with_table level out m file =
    let fm = output_meta out.next_file_num level m in
    record out {
      builder = none;
      next_file_num = (out.next_file_num + 1) % 2 ^ 64;
      edits = out.edits ++ (add_file fm ∷ []);
      new_metas = out.new_metas ++ (fm ∷ []);
      dir = λ n. if n == out.next_file_num then some file else out.dir n;
    }

module _ (crc32 : List ℕ → ℕ) (probes_of : ℕ → ℕ) (opts : Options) (level : ℕ) where
  -- the closure `flush_builder`
  unfoldable pub flush_builder : Output → Result Output
  flush_builder out = elim out.builder [
    | none ↦ ok out
    | some b ↦ finish crc32 probes_of b >>= λ done. ok (with_table level out done.0 done.1)
  ]

  -- the builder and the size that a record is added to
  abbrev pub open_builder : Output → SsTableBuilder × ℕ
  open_builder out = elim out.builder [
    | none ↦ (new opts.block_size opts.bloom_bits_per_key, 0)
    | some b ↦ (b, out.current_size)
  ]

  -- the end of the loop's body, which adds a record
  unfoldable pub write_record : Record → Output → Result Output
  write_record r out =
      let size = (open_builder out).1 + length r.0.user_key + length r.1 + 16 in
      let out' = record out {
        builder = some (add (open_builder out).0 r.0 r.1);
        current_size = size;
      } in
      if leb opts.target_file_size size then flush_builder out' else ok out'

  -- The loop over the heap, with a bound on the number of its rounds.
  unfoldable pub compact_loop : ℕ → ℕ → List HeapItem → List (List Record) → Output → Result Output
  compact_loop zero watermark heap streams out = panic
  compact_loop (suc n) watermark heap streams out = elim heap [
    | [] ↦ ok out
    | item ∷ others ↦ refill next_item item.source others streams >>= λ filled.
        let again = compact_loop n watermark filled.0 filled.1 out in
        let seen = record out { last_user = some item.key.user_key } in
        let dropped = compact_loop n watermark filled.0 filled.1 seen in
        let written = write_record (item.key, item.value) seen >>= λ out'.
        compact_loop n watermark filled.0 filled.1 out' in
        if is_last out.last_user item.key.user_key
        then again
        else if is_dropped opts level watermark item.key
        then dropped
        else written
  ]

  -- the merge, from the streams of the tables on
  unfoldable pub compact_streams : ℕ → List (List Record) → Output → Result Output
  compact_streams watermark streams out =
      let (heap, iters) = fill next_item 0 streams [] in
      compact_loop (length heap + total iters + 1) watermark heap iters out >>= λ out'.
      flush_builder out'
