-- ===== src/Sstable/Reader.antt =====
-- src/sstable/reader.rs: reads of tables. They go through the cache, which is threaded as a state. `first_key` is the order of iteration of the cache's HashMap.
pub mod Reads
pub mod Lookup
pub mod Table
use jadedb.Common.{ℕ, ◌+◌, if◌then◌else◌, Option, none, some}
use jadedb.Common.{List, [], ◌∷◌, ◌++◌}
use jadedb.Common.Result as Result
use jadedb.Common.Result.{Result, ok, err, panic}
use jadedb.Key.{Record, put, delete}
use jadedb.Memtable.{Entry, entry_of}
use jadedb.Sstable.Block.{Block, block_get, block_entries}
use jadedb.Sstable.Index.{IndexEntry, find_block}
use jadedb.Sstable.Index as Index
use jadedb.Sstable.Bloom as Bloom
use jadedb.Sstable.Cache.{BlockCache, Cached}
use jadedb.Sstable.Cache as Cache
use jadedb.Sstable.Table.{Dir, SsTable, open_file, read_exact, may_contain}

-- A computation that may change the cache, also where it fails.
abbrev pub Reads : Type 0 → Type 0
Reads A = BlockCache → Result A × BlockCache

abbrev pub pure : {A : Type 0} → Result A → Reads A
pure r c = (r, c)

-- the operator `?`
abbrev pub and_then : {A B : Type 0} → Result A × BlockCache → (A → Reads B) → Result B × BlockCache
and_then (ok a, c) f = f a c
and_then (err e, c) f = (err e, c)
and_then (panic, c) f = (panic, c)

infixl 5 ◌>>=◌
abbrev pub ◌>>=◌ : {A B : Type 0} → Reads A → (A → Reads B) → Reads B
◌>>=◌ m f c = and_then (m c) f

-- `is_visible`
abbrev pub is_visible : Entry → Option (List ℕ)
is_visible e = elim e.kind [ put ↦ some e.value | delete ↦ none ]

module _ (first_key : List Cached → Option (ℕ × ℕ)) (dir : Dir) where
  -- `read_block` on a miss
  unfoldable pub load_block : SsTable → ℕ → ℕ → Reads Block
  load_block t offset len = do
    content ← pure (open_file dir t.file_num)
    buf ← pure (read_exact content offset len)
    λ c. (
      ok (record { bytes = buf }),
      Cache.insert first_key c t.file_num offset (record { bytes = buf }),
    )

  -- `SsTable::read_block`
  unfoldable pub read_block : SsTable → ℕ → ℕ → Reads Block
  read_block t offset len c = elim (Cache.get c t.file_num offset) [
    | some b ↦ (ok b, c)
    | none ↦ load_block t offset len c
  ]

  -- one block of `get`
  unfoldable pub get_in_block : SsTable → List ℕ → ℕ → ℕ × ℕ → Reads (Option Entry)
  get_in_block t user_key max_seq (off, len) = do
    block ← read_block t off len
    found ← pure (block_get block user_key max_seq)
    pure (ok (elim found [ none ↦ none | some r ↦ some (entry_of r) ]))

  -- the loop of `get` over all blocks
  unfoldable pub get_in_blocks : SsTable → List ℕ → ℕ → List IndexEntry → Reads (Option Entry)
  get_in_blocks t user_key max_seq [] = pure (ok none)
  get_in_blocks t user_key max_seq ((sep, place) ∷ rest) = do
    found ← get_in_block t user_key max_seq place
    let later = get_in_blocks t user_key max_seq rest
    elim found [ none ↦ later | some e ↦ pure (ok (some e)) ]

  -- the block that the index names for the key
  unfoldable pub get_indexed : SsTable → List ℕ → ℕ → Reads (Option Entry)
  get_indexed t user_key max_seq = elim (find_block t.index user_key) [
    | none ↦ pure (ok none)
    | some place ↦ get_in_block t user_key max_seq place
  ]

  -- `get` behind the test of the key
  unfoldable pub search_blocks : SsTable → List ℕ → ℕ → Reads (Option Entry)
  search_blocks t user_key max_seq = do
    found ← get_indexed t user_key max_seq
    let all = get_in_blocks t user_key max_seq t.index.entries
    elim found [ none ↦ all | some e ↦ pure (ok (some e)) ]

  -- `SsTable::get`
  unfoldable pub table_get : (List ℕ → ℕ) → SsTable → List ℕ → ℕ → Reads (Option Entry)
  table_get crc32 t user_key max_seq = do
    candidate ← pure (may_contain crc32 t user_key)
    if candidate then search_blocks t user_key max_seq else pure (ok none)

  -- the loop of `iter_all`
  unfoldable pub iter_blocks : SsTable → List IndexEntry → Reads (List Record)
  iter_blocks t [] = pure (ok [])
  iter_blocks t ((sep, (off, len)) ∷ rest) = do
    block ← read_block t off len
    entries ← pure (block_entries block)
    more ← iter_blocks t rest
    pure (ok (entries ++ more))

  -- `SsTable::iter_all`
  unfoldable pub iter_all : SsTable → Reads (List Record)
  iter_all t = iter_blocks t t.index.entries
