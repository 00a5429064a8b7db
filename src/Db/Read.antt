-- ===== src/Db/Read.antt =====
-- src/db.rs: `get_with_seq` and `scan_with_seq` over the memtables and the tables. The version
-- stands beside `Inner`, which has of it the number of files in level 0. The reads of tables go
-- through the block cache. No other thread changes the directory during a read.
pub mod Tables
pub mod Levels
pub mod Newest
use jadedb.Common.{ℕ, ◌+◌, leb, not, ◌&&◌, Bool, true, if◌then◌else◌, Option, none, some}
use jadedb.Common.{List, [], ◌∷◌, ◌++◌, reverse, map, retain, length}
use jadedb.Common.Order.{bytes_cmp, is_lt}
use jadedb.Common.Result.{ok, err, closed}
use jadedb.Key.{Record}
use jadedb.Memtable.{MemTable, Entry, Bound, included, excluded, unbounded, range_from}
use jadedb.Memtable as Memtable
use jadedb.Sstable.Cache.{Cached}
use jadedb.Sstable.Table.{Dir, SsTable}
use jadedb.Sstable.Reader.{Reads, pure, ◌>>=◌, is_visible, table_get, iter_all}
use jadedb.Version.{Version, get_sstables_for_key, all_tables}
use jadedb.Iter.{Item, from_sorted_streams}
use jadedb.Iter as Iter
use jadedb.Db.Memory.{Inner, get_memory}

-- `filter_map(|(k, v)| v.map(|val| (k, val)))`
unfoldable pub with_value : List Item → List (List ℕ × List ℕ)
with_value [] = []
with_value ((k, v) ∷ rest) =
    let later = with_value rest in elim v [ none ↦ later | some x ↦ (k, x) ∷ later ]

-- the test of `items.retain`
abbrev pub after_start : Bound → List ℕ → Bool
after_start unbounded k = true
after_start (included s) k = not (is_lt (bytes_cmp k s))
after_start (excluded s) k = is_lt (bytes_cmp s k)

-- the streams of the memtables
unfoldable pub mem_streams : Bound → ℕ → List MemTable → List (List Record)
mem_streams start max_seq [] = []
mem_streams start max_seq (m ∷ mems) =
    Memtable.collect (length m.map + 1) (range_from m start max_seq)
    ∷ mem_streams start max_seq mems

module _ (first_key : List Cached → Option (ℕ × ℕ)) (dir : Dir) where
  -- the loop of `get_with_seq` over the tables
  unfoldable pub search_tables : (List ℕ → ℕ) → List SsTable → List ℕ → ℕ → Reads (Option Entry)
  search_tables crc32 [] key max_seq = pure (ok none)
  search_tables crc32 (t ∷ tables) key max_seq = do
    found ← table_get first_key dir crc32 t key max_seq
    let older = search_tables crc32 tables key max_seq
    elim found [ none ↦ older | some e ↦ pure (ok (some e)) ]

  -- `get_with_seq` behind the memtables
  unfoldable pub get_tables : (List ℕ → ℕ) → Version → List ℕ → ℕ → Reads (Option Entry)
  get_tables crc32 v key max_seq = do
    tables ← pure (get_sstables_for_key crc32 v key)
    search_tables crc32 tables key max_seq

  -- the answer of a read that found an entry or none
  abbrev pub answer : Option Entry → Option (List ℕ)
  answer none = none
  answer (some e) = is_visible e

  -- `Db::get_with_seq`
  unfoldable pub get_with_seq :
      (List ℕ → ℕ) → Inner → Version → List ℕ → ℕ → Reads (Option (List ℕ))
  get_with_seq crc32 g v key max_seq =
      let on_disk = get_tables crc32 v key max_seq >>= λ found. pure (ok (answer found)) in
      if g.is_closed
      then pure (err closed)
      else elim (get_memory g key max_seq) [ some e ↦ pure (ok (is_visible e)) | none ↦ on_disk ]

  -- the streams of the tables
  unfoldable pub table_streams : Bound → ℕ → List SsTable → Reads (List (List Record))
  table_streams start max_seq [] = pure (ok [])
  table_streams start max_seq (t ∷ tables) = do
    items ← iter_all first_key dir t
    rest ← table_streams start max_seq tables
    pure (ok (retain (λ r. leb r.0.seq max_seq && after_start start r.0.user_key) items ∷ rest))

  -- `Db::scan_with_seq`
  unfoldable pub scan_with_seq : Inner → Version → Bound → ℕ → Reads (List (List ℕ × List ℕ))
  scan_with_seq g v start max_seq = do
    streams ← table_streams start max_seq (all_tables v)
    items ← pure (
        Iter.collect (
          from_sorted_streams (mem_streams start max_seq (g.mem ∷ reverse g.imms) ++ streams)
            max_seq true))
    pure (ok (with_value items))
