-- ===== src/Sstable/Table/RoundTrip.antt =====
-- A table that was built, written, opened again and read.
use jadedb.Common.{ℕ, ◌+◌, ◌≤◌, ◌≡◌, refl, sym, ap, subst, ◌∙◌, arith}
use jadedb.Common.{Option, some, List, ◌∷◌, ◌++◌, length, length-append, All, true}
use jadedb.Common.BTreeMap
use jadedb.Common.Words.{IsU32, to_le}
use jadedb.Common.Cursor.{At-start}
use jadedb.Common.Result.{ok}
use jadedb.Key.{Record, cmp}
use jadedb.Key.Versions.{newest}
use jadedb.Memtable.Lookup.{entry_of?}
use jadedb.Sstable.Block.Entries.{IsEntry}
use jadedb.Sstable.Bloom as Bloom
use jadedb.Sstable.Bloom.Contains.{build_lem, decode-encode_filter}
use jadedb.Sstable.Index as Index
use jadedb.Sstable.Index.Codec.{decode-encode_index}
use jadedb.Sstable.Cache.{Cached}
use jadedb.Sstable.Cache as Cache
use jadedb.Sstable.Builder.{SsTableMeta, new, add_all, finish, file_bytes, footer}
use jadedb.Sstable.Builder.Layout.{flat, laid, disk_at, IsBlock}
use jadedb.Sstable.Builder.Finished.{Written, finished-Written}
use jadedb.Sstable.Table.{Dir, SsTable, open_table, may_contain}
use jadedb.Sstable.Table.Opened.{open_table-file_bytes}
use jadedb.Sstable.Table.Range.{covers_records, answers_keys}
use jadedb.Sstable.Table.Fits.{valid_blocks, stored_blocks, index_fits}
use jadedb.Sstable.Reader.{table_get, iter_all}
use jadedb.Sstable.Reader.Reads.{Yields-new}
use jadedb.Sstable.Reader.Table.{IsTable, table_get-newest, iter_all-concat}

-- The parts of a file are no longer than the file.
parts_fit :
    (blocks index_bytes bloom_bytes : List ℕ)
    → length blocks + length bloom_bytes ≤ length (file_bytes blocks index_bytes bloom_bytes)
unfolding file_bytes
parts_fit blocks ib bb =
    let foot =
      footer (length blocks) (length blocks) (length ib) (length blocks + length ib) (length bb) in
    omega (
      arith,
      length-append blocks (ib ++ (bb ++ foot)),
      length-append ib (bb ++ foot),
      length-append bb foot,
    )

-- what follows the blocks in a file
abbrev file_rest : List ℕ → List ℕ → List ℕ → List ℕ
file_rest blocks ib bb =
    ib
    ++ (bb
        ++ footer (length blocks) (length blocks) (length ib) (length blocks + length ib)
            (length bb))

bits_fit : (f : Bloom.BloomFilter) → length f.bits ≤ length (Bloom.encode f)
unfolding Bloom.encode
bits_fit f = omega (
  arith,
  length-append (to_le 4 f.k) (to_le 8 f.nbits ++ f.bits),
  length-append (to_le 8 f.nbits) f.bits,
)

module _ (crc32 : List ℕ → ℕ) (probes_of : ℕ → ℕ) (first_key : List Cached → Option (ℕ × ℕ))
    (dir : Dir) (n block_size bits_per_key : ℕ) (r : Record) (rs : List Record) where
  pub opened-IsTable :
      (done : SsTableMeta × List ℕ) (w : Written crc32 probes_of r rs done)
      → All IsEntry (r ∷ rs)
      → BTreeMap.IsSorted cmp (r ∷ rs)
      → IsU32 (length done.1)
      → dir n ≡ some done.1
      → (t : SsTable) × (open_table dir n done.0.smallest.user_key done.0.largest.user_key ≡ ok t)
        × IsTable first_key dir (λ _ off. disk_at 0 w.ps off) t crc32 w.ps
  opened-IsTable done w entries sorted small there =
      let index : Index.IndexBlock = record { entries = laid 0 w.ps } in
      let (all_keys, answers, sized, k) = build_lem crc32 probes_of _ w.per_key w.bloom w.built in
      let size = ap length w.file in
      let parts = parts_fit (flat w.ps) (Index.encode index) (Bloom.encode w.bloom) in
      let bits = bits_fit w.bloom in
      let valid : All IsBlock w.ps =
        valid_blocks w.ps w.nonempty (subst (All IsEntry) (sym w.all) entries)
          (omega (arith, small, size, parts)) in
      let (fits, count) = index_fits 0 w.ps valid (omega (arith, small, size, parts)) in
      let index_back : Index.decode (Index.encode index) ≡ ok index =
        decode-encode_index index (omega (arith, small, size, parts, count)) fits in
      let bloom_back : Bloom.decode (Bloom.encode w.bloom) ≡ ok w.bloom =
        decode-encode_filter w.bloom (omega (arith, k))
          (omega (arith, small, size, parts, bits, sized.enough)) in
      let content = file_bytes (flat w.ps) (Index.encode index) (Bloom.encode w.bloom) in
      let there' : dir n ≡ some content = there ∙ ap some w.file in
      let smallest = done.0.smallest.user_key in
      let largest = done.0.largest.user_key in
      let t : SsTable = record {
        file_num = n;
        smallest = smallest;
        largest = largest;
        file_size = length content;
        index = index;
        bloom = w.bloom;
      } in
      let rest = file_rest (flat w.ps) (Index.encode index) (Bloom.encode w.bloom) in
      (
        t,
        open_table-file_bytes dir n smallest largest (flat w.ps) (Index.encode index)
            (Bloom.encode w.bloom) index w.bloom there' (omega (arith, small, size)) index_back
            bloom_back,
        record {
          indexed = refl;
          stored =
              stored_blocks first_key dir (λ _ off. disk_at 0 w.ps off) t content 0 w.ps rest there'
                (unfold file_bytes in At-start content) (λ off l. refl) valid;
          sorted = subst (BTreeMap.IsSorted cmp) (sym w.all) sorted;
          answers = answers_keys crc32 t answers;
          covers = subst (All (λ x. may_contain crc32 t x.0.user_key ≡ ok true)) (sym w.all) (
              covers_records crc32 t r rs sorted (ap (λ k. k.user_key) w.lowest)
                (ap (λ k. k.user_key) w.highest) all_keys);
        },
      )

  -- A table that was built from sorted entries, written and opened gives for each key, read through
  -- an empty cache, the newest of its versions that the read may see. The sequence numbers are below
  -- 2 ^ 56, the keys and values have lengths that fit a u32, and the file is shorter than 4 GiB.
  pub get-add_all :
      (capacity : ℕ) (u : List ℕ) (s : ℕ) (done : SsTableMeta × List ℕ)
      → All IsEntry (r ∷ rs)
      → BTreeMap.IsSorted cmp (r ∷ rs)
      → finish crc32 probes_of (add_all (new block_size bits_per_key) (r ∷ rs)) ≡ ok done
      → IsU32 (length done.1)
      → dir n ≡ some done.1
      → (t : SsTable) × (open_table dir n done.0.smallest.user_key done.0.largest.user_key ≡ ok t)
        × ((table_get first_key dir crc32 t u s (Cache.new capacity)).0
            ≡ ok (entry_of? (newest u s (r ∷ rs))))
  get-add_all capacity u s done entries sorted finished small there =
      let w = finished-Written crc32 probes_of block_size bits_per_key r rs done finished in
      let (t, opened, table) = opened-IsTable done w entries sorted small there in
      let found =
        table_get-newest first_key dir (λ _ off. disk_at 0 w.ps off) t crc32 w.ps u s table in
      (t, opened, Yields-new _ _ _ capacity found ∙ ap (λ xs. ok (entry_of? (newest u s xs))) w.all)

  -- Iterating, through an empty cache, over a table that was built from sorted entries, written and
  -- opened gives these entries. The sequence numbers are below 2 ^ 56, the keys and values have
  -- lengths that fit a u32, and the file is shorter than 4 GiB.
  pub iter_all-add_all :
      (capacity : ℕ) (done : SsTableMeta × List ℕ)
      → All IsEntry (r ∷ rs)
      → BTreeMap.IsSorted cmp (r ∷ rs)
      → finish crc32 probes_of (add_all (new block_size bits_per_key) (r ∷ rs)) ≡ ok done
      → IsU32 (length done.1)
      → dir n ≡ some done.1
      → (t : SsTable) × (open_table dir n done.0.smallest.user_key done.0.largest.user_key ≡ ok t)
        × ((iter_all first_key dir t (Cache.new capacity)).0 ≡ ok (r ∷ rs))
  iter_all-add_all capacity done entries sorted finished small there =
      let w = finished-Written crc32 probes_of block_size bits_per_key r rs done finished in
      let (t, opened, table) = opened-IsTable done w entries sorted small there in
      let found = iter_all-concat first_key dir (λ _ off. disk_at 0 w.ps off) t crc32 w.ps table in
      (t, opened, Yields-new _ _ _ capacity found ∙ ap ok w.all)
