-- ===== src/Tests/Files.antt =====
-- Tables that are built, written, opened and read.
use jadedb.Common.{
  ℕ, ◌≤◌, ◌≡◌, refl, arith, Option, none, some, List, [], ◌∷◌, length, All, max, true,
}
use jadedb.Common.BTreeMap
use jadedb.Common.Cursor
use jadedb.Common.Order.{bytes_cmp}
use jadedb.Common.Words.{to_le, to_be, u64_max}
use jadedb.Common.Result.{ok}
use jadedb.Key.{Record, cmp, tag}
use jadedb.Key as Key
use jadedb.Key.Versions.{newest}
use jadedb.Memtable.Lookup.{entry_of?}
use jadedb.Merge.Newest.{IsConsistent}
use jadedb.Iter.{Item, from_sorted_streams, collect}
use jadedb.Iter.Next.{shown}
use jadedb.Iter.Lookup.{find_item, RisingItems, collect-newest_item, collect-RisingItems}
use jadedb.Sstable.Block as Block
use jadedb.Sstable.Block.{Block}
use jadedb.Sstable.Index as Index
use jadedb.Sstable.Bloom as Bloom
use jadedb.Sstable.Cache.{Cached, BlockCache, insert}
use jadedb.Sstable.Cache as Cache
use jadedb.Sstable.Cache.Bound.{IsFirst, length-insert}
use jadedb.Sstable.Builder.{
  SsTableMeta, new, add_all, finish, add, flush_block, add_entry, is_empty_block, file_bytes,
  footer, expect,
}
use jadedb.Sstable.Builder.Finished.{finish-add_all}
use jadedb.Sstable.Builder.Layout.{concat, last_or}
use jadedb.Sstable.Table.{Dir, SsTable, open_table}
use jadedb.Sstable.Table.RoundTrip.{get-add_all, iter_all-add_all}
use jadedb.Sstable.Reader.{table_get, iter_all}
use jadedb.Tests.Data.{checksum, key_a, key_b, write_1, write_2, write_3}

abbrev pub two_probes : ℕ → ℕ
two_probes bits = 2

abbrev pub first_cached : List Cached → Option (ℕ × ℕ)
first_cached [] = none
first_cached (e ∷ rest) = some e.0

-- put a 1; put b 2, each in a block of its own
abbrev pub table_file : List ℕ
table_file =
    1 ∷ 0 ∷ 0 ∷ 0 ∷ 9 ∷ 0 ∷ 0 ∷ 0 ∷ 97 ∷ 0 ∷ 0 ∷ 0 ∷ 0 ∷ 0 ∷ 0 ∷ 1 ∷ 1 ∷ 1 ∷ 0 ∷ 0 ∷ 0 ∷ 49 ∷ 1 ∷ 0
    ∷ 0 ∷ 0 ∷ 9 ∷ 0 ∷ 0 ∷ 0 ∷ 98 ∷ 0 ∷ 0 ∷ 0 ∷ 0 ∷ 0 ∷ 0 ∷ 2 ∷ 1 ∷ 1 ∷ 0 ∷ 0 ∷ 0 ∷ 50 ∷ 2 ∷ 0 ∷ 0
    ∷ 0 ∷ 9 ∷ 0 ∷ 0 ∷ 0 ∷ 97 ∷ 0 ∷ 0 ∷ 0 ∷ 0 ∷ 0 ∷ 0 ∷ 1 ∷ 1 ∷ 0 ∷ 0 ∷ 0 ∷ 0 ∷ 0 ∷ 0 ∷ 0 ∷ 0 ∷ 22
    ∷ 0 ∷ 0 ∷ 0 ∷ 9 ∷ 0 ∷ 0 ∷ 0 ∷ 98 ∷ 0 ∷ 0 ∷ 0 ∷ 0 ∷ 0 ∷ 0 ∷ 2 ∷ 1 ∷ 22 ∷ 0 ∷ 0 ∷ 0 ∷ 0 ∷ 0 ∷ 0
    ∷ 0 ∷ 22 ∷ 0 ∷ 0 ∷ 0 ∷ 2 ∷ 0 ∷ 0 ∷ 0 ∷ 64 ∷ 0 ∷ 0 ∷ 0 ∷ 0 ∷ 0 ∷ 0 ∷ 0 ∷ 0 ∷ 0 ∷ 0 ∷ 0 ∷ 78 ∷ 0
    ∷ 0 ∷ 0 ∷ 74 ∷ 84 ∷ 83 ∷ 83 ∷ 44 ∷ 0 ∷ 0 ∷ 0 ∷ 0 ∷ 0 ∷ 0 ∷ 0 ∷ 44 ∷ 0 ∷ 0 ∷ 0 ∷ 0 ∷ 0 ∷ 0 ∷ 0
    ∷ 54 ∷ 0 ∷ 0 ∷ 0 ∷ 0 ∷ 0 ∷ 0 ∷ 0 ∷ 98 ∷ 0 ∷ 0 ∷ 0 ∷ 0 ∷ 0 ∷ 0 ∷ 0 ∷ 20 ∷ 0 ∷ 0 ∷ 0 ∷ 0 ∷ 0 ∷ 0
    ∷ 0 ∷ []

abbrev pub table_meta : SsTableMeta
table_meta = record { smallest = write_1.0; largest = write_2.0; file_size = 162 }

abbrev pub table_dir : Dir
table_dir n = some table_file

pub finish_run :
    finish checksum two_probes (add_all (new 16 10) (write_1 ∷ write_2 ∷ []))
    ≡ ok (table_meta, table_file)
unfolding finish add_all add flush_block add_entry is_empty_block file_bytes footer expect
    Block.finish Block.add Block.entry_bytes Index.push Index.encode Index.index_bytes Bloom.build
    Bloom.add_keys Bloom.add_probes Bloom.set_bit Bloom.place Bloom.hash_pair Bloom.encode to_le
    to_be Key.encode tag checksum Cursor.index
finish_run = refl

pub writes-IsSorted : BTreeMap.IsSorted cmp (write_1 ∷ write_2 ∷ [])
unfolding cmp bytes_cmp
writes-IsSorted = ((refl, tt), (tt, tt))

finish-add_all_example :
    (meta : SsTableMeta) × (file : List ℕ) × (finish checksum two_probes
        (add_all (new 16 10) (write_1 ∷ write_2 ∷ []))
      ≡ ok (meta, file))
    × (meta.smallest ≡ write_1.0)
    × (meta.largest ≡ (last_or write_1 (write_2 ∷ [])).0)
    × (meta.file_size ≡ length file)
finish-add_all_example = finish-add_all checksum two_probes 16 10 write_1 (write_2 ∷ [])

get-add_all_example :
    (t : SsTable) × (open_table table_dir 7 key_a key_b ≡ ok t)
    × ((table_get first_cached table_dir checksum t key_b 2 (Cache.new 1)).0
        ≡ ok (entry_of? (newest key_b 2 (write_1 ∷ write_2 ∷ []))))
get-add_all_example =
    get-add_all checksum two_probes first_cached table_dir 7 16 10 write_1 (write_2 ∷ []) 1 key_b 2
      (table_meta, table_file) (ground arith) writes-IsSorted finish_run (omega arith) refl

iter_all-add_all_example :
    (t : SsTable) × (open_table table_dir 7 key_a key_b ≡ ok t)
    × ((iter_all first_cached table_dir t (Cache.new 1)).0 ≡ ok (write_1 ∷ write_2 ∷ []))
iter_all-add_all_example =
    iter_all-add_all checksum two_probes first_cached table_dir 7 16 10 write_1 (write_2 ∷ []) 1
      (table_meta, table_file) (ground arith) writes-IsSorted finish_run (omega arith) refl

first_cached-IsFirst : IsFirst first_cached
unfolding Cache.find
first_cached-IsFirst = record { picks = λ e rest. (e.0, refl, e.1, ground arith) }

abbrev one_block : Block
one_block = record { bytes = 0 ∷ 0 ∷ 0 ∷ 0 ∷ [] }

abbrev full_cache : BlockCache
full_cache = record { inner = ((1, 0), one_block) ∷ ((1, 4), one_block) ∷ []; capacity = 2 }

length-insert_example : length (insert first_cached full_cache 2 0 one_block).inner ≤ max 2 1
length-insert_example =
    length-insert first_cached full_cache 2 0 one_block first_cached-IsFirst (omega arith)

-- a table and a memtable
abbrev pub two_streams : List (List Record)
two_streams = (write_3 ∷ []) ∷ (write_1 ∷ write_2 ∷ []) ∷ []

pub two_streams-IsSorted : All (BTreeMap.IsSorted cmp) two_streams
two_streams-IsSorted = ((tt, tt), (writes-IsSorted, tt))

pub two_streams-IsConsistent : IsConsistent (concat two_streams)
unfolding concat
two_streams-IsConsistent = ground arith

collect-RisingItems_example :
    (out : List Item) × (collect (from_sorted_streams two_streams u64_max true) ≡ ok out)
    × RisingItems out
collect-RisingItems_example = collect-RisingItems two_streams u64_max true two_streams-IsSorted

collect-newest_item_example :
    (out : List Item) × (collect (from_sorted_streams two_streams u64_max true) ≡ ok out)
    × (find_item key_a out ≡ shown true (newest key_a u64_max (concat two_streams)))
collect-newest_item_example =
    collect-newest_item two_streams u64_max true two_streams-IsSorted key_a two_streams-IsConsistent
