-- ===== src/Db/Flush/Table.antt =====
-- The table that a flush writes answers as the memtable did.
use jadedb.Common.{ℕ, ◌≡◌, refl, sym, ap, ◌∙◌, ==_refl, Option, some}
use jadedb.Common.{List, [], ◌∷◌, ◌++◌, length, All, Bool-cases, inl, inr, ◌&&◌}
use jadedb.Common.BTreeMap
use jadedb.Common.Words.{IsU32, u64_max}
use jadedb.Common.Result.{ok, panic}
use jadedb.Key.{Record, cmp}
use jadedb.Key.Versions.{SeqsBelow}
use jadedb.Memtable.{MemTable, get, is_empty}
use jadedb.Memtable.Lookup.{get-newest}
use jadedb.Sstable.Block.Entries.{IsEntry}
use jadedb.Sstable.Cache.{Cached}
use jadedb.Sstable.Cache as Cache
use jadedb.Sstable.Builder.{SsTableMeta, new, add_all, finish}
use jadedb.Sstable.Table.{SsTable}
use jadedb.Sstable.Table.RoundTrip.{get-add_all}
use jadedb.Sstable.Reader.{table_get}
use jadedb.Version.{Version}
use jadedb.Db.Memory.{Inner}
use jadedb.Db.Flush.{Store, none_left, reset_wal, write_file, push_l0, flushed, flush_imm}

push_l0_lem :
    (v : Version) (t : SsTable) (l0 : List SsTable) (levels : List (List SsTable))
    → v.levels ≡ l0 ∷ levels
    → push_l0 v t ≡ ok (record { levels = (l0 ++ (t ∷ [])) ∷ levels })
unfolding push_l0
push_l0_lem v t l0 levels e =
    ap
      (λ ls. elim ls [
        | [] ↦ panic
        | first ∷ others ↦ ok (record { levels = (first ++ (t ∷ [])) ∷ others })
      ])
      e

-- A fresh log changes nothing else.
imms-reset_wal : (g : Inner) → (reset_wal g).imms ≡ g.imms
unfolding reset_wal
imms-reset_wal g = elim (Bool-cases (none_left g.imms && is_empty g.mem)) [
  | inl fresh ↦ rw fresh refl
  | inr kept ↦ rw kept refl
]

-- Flushing a memtable with entries in key order that fit a table, their sequence numbers below 2 ^ 56,
-- adds one table behind those of level 0 and drops the memtable. The table, read through an empty
-- cache, answers each lookup as the memtable did. The table file is shorter than 4 GiB.
pub flush_imm-get :
    (crc32 : List ℕ → ℕ) (probes_of : ℕ → ℕ) (first_key : List Cached → Option (ℕ × ℕ))
    (capacity : ℕ) (store : Store) (r : Record) (rs : List Record) (bytes : ℕ)
    (rest : List MemTable) (l0 : List SsTable) (levels : List (List SsTable))
    (done : SsTableMeta × List ℕ) (u : List ℕ) (s : ℕ)
    → All IsEntry (r ∷ rs)
    → BTreeMap.IsSorted cmp (r ∷ rs)
    → SeqsBelow u64_max (r ∷ rs)
    → store.version.levels ≡ l0 ∷ levels
    → finish crc32 probes_of
        (add_all (new store.inner.opts.block_size store.inner.opts.bloom_bits_per_key) (r ∷ rs))
      ≡ ok done
    → IsU32 (length done.1)
    → (t : SsTable) × (after : Store) × (flush_imm crc32 probes_of store
          (record { map = r ∷ rs; approx_bytes = bytes })
          rest
        ≡ ok after)
      × (after.version.levels ≡ (l0 ++ (t ∷ [])) ∷ levels)
      × (after.inner.imms ≡ rest)
      × ((table_get first_key after.dir crc32 t u s (Cache.new capacity)).0
          ≡ ok (get (record { map = r ∷ rs; approx_bytes = bytes }) u s))
unfolding flush_imm
flush_imm-get crc32 probes_of first_key capacity store r rs bytes rest l0 levels done u s entries
      sorted below has_levels finished small =
    let n = store.next_file_num in
    let dir = write_file store.dir n done.1 in
    let there : dir n ≡ some done.1 = rw (==_refl n) refl in
    let (t, opened, answers) =
      get-add_all crc32 probes_of first_key dir n store.inner.opts.block_size
        store.inner.opts.bloom_bits_per_key r rs capacity u s done entries sorted finished small
        there in
    let version : Version = record { levels = (l0 ++ (t ∷ [])) ∷ levels } in
    let m : MemTable = record { map = r ∷ rs; approx_bytes = bytes } in
    (
      t,
      flushed crc32 probes_of store done.0 done.1 version rest,
      rw (finished, opened, push_l0_lem store.version t l0 levels has_levels) refl,
      refl,
      imms-reset_wal _,
      answers ∙ ap ok (sym (get-newest m u s sorted below)),
    )
