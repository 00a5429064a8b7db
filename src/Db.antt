-- ===== src/Db.antt =====
-- src/db.rs: the database.
pub mod Replay
pub mod Memory
pub mod Read
pub mod Flush
pub mod Compaction
pub mod Open
use jadedb.Common.{ℕ, max, List, [], ◌∷◌}
use jadedb.Key.{Record}
use jadedb.Memtable.{MemTable, put_mem}

-- the loop of `Db::open` over the entries that the log gave back
unfoldable pub replay : ℕ → MemTable → List Record → ℕ × MemTable
replay next_seq mem [] = (next_seq, mem)
replay next_seq mem ((k, v) ∷ rest) = replay (max next_seq k.seq) (put_mem mem k v) rest
