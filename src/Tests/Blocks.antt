-- ===== src/Tests/Blocks.antt =====
-- Blocks and the index block.
use jadedb.Common.{◌≡◌, ◌≢◌, inr, refl, arith, some, List, [], ◌∷◌, ◌++◌}
use jadedb.Common.{lt, map}
use jadedb.Common.BTreeMap
use jadedb.Common.Order.{bytes_cmp}
use jadedb.Common.Result.{ok, panic}
use jadedb.Key.{Record, cmp, put_key}
use jadedb.Key.Versions.{newest}
use jadedb.Sstable.Block.{new, finish, block_entries, block_get}
use jadedb.Sstable.Block.Entries.{add_all, block_entries-finish}
use jadedb.Sstable.Block.Lookup.{block_get-newest}
use jadedb.Sstable.Block.Panics.{block_entries-ne-panic}
use jadedb.Sstable.Index.{find_block}
use jadedb.Sstable.Index.Codec.{Listed, index_entry, find_block_lem}
use jadedb.Tests.Data.{key_a, key_b, write_1, write_2, write_3}

abbrev stored_writes : List Record
stored_writes = write_3 ∷ write_1 ∷ write_2 ∷ []

block_entries-finish_example : block_entries (finish (add_all new stored_writes)) ≡ ok stored_writes
block_entries-finish_example = block_entries-finish stored_writes (omega arith) (ground arith)

block_get-newest_example :
    block_get (finish (add_all new stored_writes)) key_a 2 ≡ ok (newest key_a 2 stored_writes)
block_get-newest_example = block_get-newest stored_writes key_a 2 (omega arith) (ground arith)

block_entries-ne-panic_example : block_entries (record { bytes = 9 ∷ 0 ∷ 0 ∷ 0 ∷ 1 ∷ [] }) ≢ panic
block_entries-ne-panic_example = block_entries-ne-panic (record { bytes = 9 ∷ 0 ∷ 0 ∷ 0 ∷ 1 ∷ [] })

abbrev first_block : Listed
first_block = (put_key key_a 1, (0, 60))

abbrev second_block : Listed
second_block = (put_key key_b 2, (60, 40))

two_blocks-IsSorted : BTreeMap.IsSorted cmp ((first_block ∷ []) ++ (second_block ∷ []))
unfolding cmp bytes_cmp
two_blocks-IsSorted = ((refl, tt), (tt, tt))

first_below : bytes_cmp key_a key_b ≡ lt
unfolding bytes_cmp
first_below = refl

find_block_lem_example :
    find_block
      (record { entries = map index_entry ((first_block ∷ []) ++ (second_block ∷ [])) })
      key_b
    ≡ some (60, 40)
find_block_lem_example =
    find_block_lem key_b (first_block ∷ []) second_block [] two_blocks-IsSorted first_below
      (inr refl)
