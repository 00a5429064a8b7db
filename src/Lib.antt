-- ===== src/Lib.antt =====
-- jadedb: the storage engine, an LSM tree, of the crate's src/ directory.
--
-- The program. A write gets the next sequence number, is appended to the write-ahead log (src/wal.rs)
-- and then put into the memtable (src/memtable.rs) under an internal key (src/key.rs): the user key,
-- the sequence number and the kind. Full memtables become tables on disk (src/sstable/builder.rs),
-- whose data blocks (src/sstable/block.rs) stand beside an index and a Bloom filter
-- (src/sstable/bloom.rs); src/sstable/reader.rs opens and reads them through a cache of blocks. The
-- tables stand in levels (src/version.rs), and the manifest (src/manifest.rs) is the log of the edits
-- to them. A read (src/db.rs) looks into the memtables and then into the tables; a scan merges all of
-- them (src/iter.rs). A compaction (src/compact.rs) moves tables one level down. Opening a database
-- recovers the manifest, recovers the log and replays it into a fresh memtable. Open snapshots
-- (src/snapshot.rs) are sequence numbers.
--
-- The files.
--   Common            names of the libraries, tests, list lemmas, and the models of what the code
--                     takes from the standard library: Result (src/error.rs; `panic` stands for a
--                     Rust panic), Words (fixed-width integers as bytes), Order (byte strings),
--                     Cursor (reads at an offset), BTreeMap (a list in key order)
--   Options           src/options.rs
--   Key               src/key.rs: `InternalKey`, `Ord`, `encode`, `decode`, `compare_encoded`;
--                     Versions describes what a read at a sequence number ought to find in a list
--                     of versions
--   Memtable          src/memtable.rs: `MemTable` and `MemTableIter`; `put` is `put_mem`
--   Frames            the framing that src/wal.rs and src/manifest.rs share: length, checksum,
--                     bytes; `scan` is the loop of both `recover` functions
--   Wal               src/wal.rs
--   Manifest          src/manifest.rs; `open` is `open_manifest`
--   Snapshot          src/snapshot.rs
--   Sstable.Bloom     src/sstable/bloom.rs
--   Sstable.Block     src/sstable/block.rs: `Block`, `BlockEntryIter` and `BlockBuilder`; `Block::get`
--                     is `block_get`, and `next` is `next_entry` with the helpers it is split into
--   Sstable.Index     src/sstable/block.rs: `IndexBlock`
--   Sstable.Builder   src/sstable/builder.rs: `SsTableBuilder`; Layout describes the file that it
--                     writes
--   Sstable.Table     src/sstable/reader.rs: `SsTable::open` is `open_table`
--   Sstable.Cache     src/sstable/reader.rs: `BlockCache`
--   Sstable.Reader    src/sstable/reader.rs: `get` is `table_get`, `iter_all` and `read_block`; a read
--                     takes the cache and gives it back with its result
--   Merge             src/iter.rs, src/compact.rs: `HeapItem` and the heap of a merge
--   Iter              src/iter.rs: `MergeIterator`; `next` is `next_loop` with its rounds
--   Version           src/version.rs
--   Compact           src/compact.rs: `pick_compaction`, `key_range` and `overlapping`; Run and Job
--                     are `run_compaction`, whose loop over the heap is `compact_loop`
--   Db                src/db.rs: the replay of the log in `Db::open`
--   Db.Memory         src/db.rs: `write` and the memtable part of `get_with_seq` (`get_memory`), on
--                     the fields of `Inner` that they use
--   Db.Read           src/db.rs: `get_with_seq` and `scan_with_seq`, to which the version is passed
--                     beside `Inner`
--   Db.Flush          src/db.rs: `flush_imms`, of which `flush_imm` is one round, `flush`, `snapshot`
--                     and `close`; `Store` is `Inner` with the version, the manifest and the
--                     directory of the table files
--   Db.Compaction     src/db.rs: `maybe_compact`, `collect_file_metas` and `compact`
--   Db.Open           src/db.rs: `Db::open` is `open_db`
--   Tests             runs on small inputs
--
-- Bytes are numbers, and a file is the list of its bytes with the number of its durable bytes:
-- `sync_all` makes all of them durable, and a crash leaves any beginning of the file that holds the
-- durable ones. The checksum `crc32fast::hash` is a parameter, of which the theorems use only that
-- it is a u32. The floating-point product that gives the number of probes of a Bloom filter is a
-- parameter too; it is clamped as in the code. An integer of fixed width keeps its wrap-around; the length of a list in memory
-- is assumed to fit a usize.
--
-- `scan` runs on fuel, one more than the length of the file: every round consumes at least the eight
-- bytes of a header, so the fuel is enough; running out of it would be a `panic`. `entries_from`
-- gets one round more than the block counts entries, and every entry that is yielded is counted
-- down.
--
-- `next_loop` gets one round more than the merge has records left, and every round takes one; so do
-- `collect_loop` and `compact_loop`. A directory gives the bytes of the table file with a number. The
-- BinaryHeap of a merge is the list of its items from the greatest to the least, and the HashMap of
-- the cache a list whose order of iteration is a parameter, `first_key`.
--
-- Not modelled: errors of the operating system beyond a missing or short file, and what a flush or a
-- compaction that fails has written before; paths, the background thread and the locks, so no
-- other thread acts within an operation; the waiting in `write` and the statistics; the command line.
pub mod Common
pub mod Options
pub mod Key
pub mod Memtable
pub mod Frames
pub mod Wal
pub mod Manifest
pub mod Snapshot
pub mod Sstable
pub mod Merge
pub mod Iter
pub mod Version
pub mod Compact
pub mod Db
pub mod Tests
