-- ===== src/Sstable/Builder.antt =====
-- src/sstable/builder.rs: the builder of table files. A file is its bytes; the directory entry and
-- its fsync are left out.
pub mod Layout
pub mod Built
pub mod Finished
use jadedb.Common.{ℕ, ◌+◌, leb, if◌then◌else◌, Option, none, some, Bool, true, false}
use jadedb.Common.{List, [], ◌∷◌, ◌++◌, length}
use jadedb.Common.Words.{to_le}
use jadedb.Common.Result.{Result, ok, panic, ◌>>=◌}
use jadedb.Key.{InternalKey, Record}
use jadedb.Key as Key
use jadedb.Frames.{as_u32}
use jadedb.Sstable.Block.{BlockBuilder}
use jadedb.Sstable.Block as Block
use jadedb.Sstable.Index.{IndexBlock}
use jadedb.Sstable.Index as Index
use jadedb.Sstable.Bloom as Bloom

-- "SSTJ"
abbrev pub sst_magic : ℕ
sst_magic = 0x5353_544A

abbrev pub footer_size : ℕ
footer_size = 4 + 8 + 8 + 8 + 8 + 8

pub record SsTableBuilder : Type 0 where
  pub block_size : ℕ
  pub bits_per_key : ℕ
  pub bytes : List ℕ
  pub block : BlockBuilder
  pub index : IndexBlock
  pub last_key : List ℕ
  pub user_keys : List (List ℕ)
  pub smallest : Option InternalKey
  pub largest : Option InternalKey

abbrev pub new : ℕ → ℕ → SsTableBuilder
new block_size bits_per_key = record {
  block_size = block_size;
  bits_per_key = bits_per_key;
  bytes = [];
  block = Block.new;
  index = Index.new;
  last_key = [];
  user_keys = [];
  smallest = none;
  largest = none;
}

-- `BlockBuilder::is_empty`
unfoldable pub is_empty_block : BlockBuilder → Bool
is_empty_block b = elim b.entries [ [] ↦ true | _ ∷ _ ↦ false ]

unfoldable pub flush_block : SsTableBuilder → SsTableBuilder
flush_block b =
    let raw = (Block.finish b.block).bytes in
    if is_empty_block b.block then b else record b {
      bytes = b.bytes ++ raw;
      index = Index.push b.index b.last_key (length b.bytes) (as_u32 (length raw));
      last_key = [];
      block = Block.new;
    }

-- the fields that `add` sets before it looks at the size of the block
unfoldable pub add_entry : SsTableBuilder → InternalKey → List ℕ → SsTableBuilder
add_entry b key value = record b {
  smallest = elim b.smallest [ none ↦ some key | some k ↦ some k ];
  largest = some key;
  user_keys = b.user_keys ++ (key.user_key ∷ []);
  block = Block.add b.block (Key.encode key) value;
  last_key = Key.encode key;
}

unfoldable pub add : SsTableBuilder → InternalKey → List ℕ → SsTableBuilder
add b key value =
    let b' = add_entry b key value in if leb b'.block_size b'.block.size then flush_block b' else b'

pub record SsTableMeta : Type 0 where
  pub smallest : InternalKey
  pub largest : InternalKey
  pub file_size : ℕ

-- the footer: magic, end of the data, and the places of index and filter
unfoldable pub footer : ℕ → ℕ → ℕ → ℕ → ℕ → List ℕ
footer data_end index_off index_len bloom_off bloom_len =
    to_le 4 sst_magic
    ++ (to_le 8 data_end
        ++ (to_le 8 index_off ++ (to_le 8 index_len ++ (to_le 8 bloom_off ++ to_le 8 bloom_len))))

-- the bytes that `finish` writes
unfoldable pub file_bytes : List ℕ → List ℕ → List ℕ → List ℕ
file_bytes blocks index_bytes bloom_bytes =
    let index_off = length blocks in
    let bloom_off = index_off + length index_bytes in
    blocks
    ++ (index_bytes
        ++ (bloom_bytes
            ++ footer index_off index_off (length index_bytes) bloom_off (length bloom_bytes)))

-- `.expect("empty sst")`
unfoldable pub expect : Option InternalKey → Result InternalKey
expect none = panic
expect (some k) = ok k

module _ (crc32 : List ℕ → ℕ) (probes_of : ℕ → ℕ) where
  -- `finish`: the metadata and the bytes of the file
  unfoldable pub finish : SsTableBuilder → Result (SsTableMeta × List ℕ)
  finish b = do
    let b' = flush_block b
    bloom ← Bloom.build crc32 probes_of b'.user_keys b'.bits_per_key
    let file = file_bytes b'.bytes (Index.encode b'.index) (Bloom.encode bloom)
    smallest ← expect b'.smallest
    largest ← expect b'.largest
    ok (record { smallest = smallest; largest = largest; file_size = length file }, file)

-- the loops that add the entries of a table
unfoldable pub add_all : SsTableBuilder → List Record → SsTableBuilder
add_all b [] = b
add_all b ((k, v) ∷ rs) = add_all (add b k v) rs
