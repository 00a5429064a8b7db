-- ===== src/Iter/Sources.antt =====
-- src/iter.rs: the merge of whole memtables and tables.
use jadedb.Common.{ℕ, leb, Option, Bool, List, [], ◌∷◌, ◌++◌, map, retain}
use jadedb.Common.Result.{ok}
use jadedb.Key.{Record}
use jadedb.Memtable.{MemTable}
use jadedb.Sstable.Cache.{Cached}
use jadedb.Sstable.Table.{Dir, SsTable}
use jadedb.Sstable.Reader.{Reads, pure, ◌>>=◌, iter_all}
use jadedb.Iter.{MergeIterator, from_sorted_streams}

module _ (first_key : List Cached → Option (ℕ × ℕ)) (dir : Dir) where
  -- the loop over the tables
  unfoldable pub sst_streams : List SsTable → Reads (List (List Record))
  sst_streams [] = pure (ok [])
  sst_streams (t ∷ ssts) = do
    items ← iter_all first_key dir t
    rest ← sst_streams ssts
    pure (ok (items ∷ rest))

  -- `MergeIterator::from_mem_and_sst`
  unfoldable pub from_mem_and_sst : List MemTable → List SsTable → ℕ → Bool → Reads MergeIterator
  from_mem_and_sst mems ssts max_seq skip_tombstones = do
    let streams = map (λ m. retain (λ r. leb r.0.seq max_seq) m.map) mems
    tables ← sst_streams ssts
    pure (ok (from_sorted_streams (streams ++ tables) max_seq skip_tombstones))
