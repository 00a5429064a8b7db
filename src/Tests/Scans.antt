-- ===== src/Tests/Scans.antt =====
-- Iterations over a memtable.
use jadedb.Common.{◌+◌, ◌≡◌, refl, none, [], ◌∷◌, length, if◌then◌else◌}
use jadedb.Common.BTreeMap
use jadedb.Common.Order.{bytes_cmp}
use jadedb.Key.{cmp}
use jadedb.Key.Versions.{newest}
use jadedb.Memtable.{
  MemTable, included, excluded, unbounded, range_from, next, next_in, is_skipped, collect,
}
use jadedb.Memtable.Scan.{in_range, collect-newest-in_range}
use jadedb.Memtable.Ascending.{Ascending, collect-Ascending}
use jadedb.Tests.Data.{key_a, key_b, write_1, write_2, write_3}

abbrev table : MemTable
table = record { map = write_3 ∷ write_1 ∷ write_2 ∷ []; approx_bytes = 0 }

table-IsSorted : BTreeMap.IsSorted cmp table.map
unfolding cmp bytes_cmp
table-IsSorted = ((refl, (refl, tt)), ((refl, tt), (tt, tt)))

scan_run : collect 4 (range_from table (included key_a) 2) ≡ write_1 ∷ write_2 ∷ []
unfolding collect next next_in range_from is_skipped bytes_cmp
scan_run = refl

scan_after_run : collect 4 (range_from table (excluded key_a) 9) ≡ write_2 ∷ []
unfolding collect next next_in range_from is_skipped bytes_cmp
scan_after_run = refl

collect-newest-in_range_example :
    newest key_b 2 (collect (length table.map + 1) (range_from table (excluded key_a) 2))
    ≡ (if in_range (excluded key_a) key_b then newest key_b 2 table.map else none)
collect-newest-in_range_example =
    collect-newest-in_range table (excluded key_a) 2 key_b table-IsSorted

collect-Ascending_example : Ascending (collect 4 (range_from table unbounded 9))
collect-Ascending_example = collect-Ascending table unbounded 9 4 table-IsSorted
