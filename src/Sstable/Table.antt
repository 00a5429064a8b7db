-- ===== src/Sstable/Table.antt =====
-- src/sstable/reader.rs: opening a table. A directory gives the bytes of the table file with a
-- number, whose path is that number. The space that a buffer takes in memory is not bounded.
pub mod Opened
pub mod Fits
pub mod Range
pub mod RoundTrip
use jadedb.Common.{ℕ, ◌+◌, ◌-◌, ◌^◌, leb, ltb, ◌==◌, ◌&&◌, if◌then◌else◌, Option, Bool, false, ◌||◌}
use jadedb.Common.{List, [], length, take, drop}
use jadedb.Common.Order.{bytes_cmp, is_lt}
use jadedb.Common.Cursor.{read_le}
use jadedb.Common.Result.{Result, ok, err, io, corruption, guard, ok_or, ◌>>=◌, ◌>>◌}
use jadedb.Sstable.Index.{IndexBlock}
use jadedb.Sstable.Index as Index
use jadedb.Sstable.Bloom.{BloomFilter}
use jadedb.Sstable.Bloom as Bloom
use jadedb.Sstable.Builder.{sst_magic, footer_size}

abbrev pub Dir : Type 0
Dir = ℕ → Option (List ℕ)

pub record SsTable : Type 0 where
  pub file_num : ℕ
  pub smallest : List ℕ
  pub largest : List ℕ
  pub file_size : ℕ
  pub index : IndexBlock
  pub bloom : BloomFilter

-- `File::open(path)?`
unfoldable pub open_file : Dir → ℕ → Result (List ℕ)
open_file dir file_num = ok_or (dir file_num) (io "no such file")

-- `seek(SeekFrom::Start(off))` and `read_exact` of `n` bytes; the seek may go behind the end, but not
-- to a place that is no i64, and nothing can be read there but no bytes
unfoldable pub read_exact : List ℕ → ℕ → ℕ → Result (List ℕ)
read_exact content off n =
    if leb (off + n) (length content) || (n == 0 && ltb off (2 ^ 63))
    then ok (take n (drop off content))
    else err (io "failed to fill whole buffer")

-- `SsTable::open`
unfoldable pub open_table : Dir → ℕ → List ℕ → List ℕ → Result SsTable
open_table dir file_num smallest largest = do
  content ← open_file dir file_num
  guard (leb footer_size (length content)) (corruption "sst too small" [])
  footer ← read_exact content (length content - footer_size) footer_size
  magic ← read_le 4 footer 0
  guard (magic == sst_magic) (corruption "sst bad magic" [])
  index_off ← read_le 8 footer 12
  index_len ← read_le 8 footer 20
  bloom_off ← read_le 8 footer 28
  bloom_len ← read_le 8 footer 36
  index_buf ← read_exact content index_off index_len
  index ← Index.decode index_buf
  bloom_buf ← read_exact content bloom_off bloom_len
  bloom ← Bloom.decode bloom_buf
  ok (record {
    file_num = file_num;
    smallest = smallest;
    largest = largest;
    file_size = length content;
    index = index;
    bloom = bloom;
  })

module _ (crc32 : List ℕ → ℕ) where
  -- `SsTable::may_contain`
  unfoldable pub may_contain : SsTable → List ℕ → Result Bool
  may_contain t user_key =
      if is_lt (bytes_cmp user_key t.smallest) || is_lt (bytes_cmp t.largest user_key)
      then ok false
      else Bloom.may_contain crc32 t.bloom user_key
