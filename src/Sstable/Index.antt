-- ===== src/Sstable/Index.antt =====
-- src/sstable/block.rs: the index block, which lists the last key, the offset and the length of
-- each data block.
pub mod Codec
use jadedb.Common.{ℕ, zero, suc, ◌+◌, ◌-◌, leb, Option, none, some}
use jadedb.Common.{List, [], ◌∷◌, ◌++◌, length, take, if◌then◌else◌}
use jadedb.Common.Words.{to_le}
use jadedb.Common.Order.{bytes_cmp, is_lt}
use jadedb.Common.Cursor.{read_le}
use jadedb.Common.Result.{Result, ok, corruption, guard, slice, ◌>>=◌, ◌>>◌}
use jadedb.Frames.{as_u32}

-- separator, offset, length
abbrev pub IndexEntry : Type 0
IndexEntry = List ℕ × (ℕ × ℕ)

pub record IndexBlock : Type 0 where
  pub entries : List IndexEntry

abbrev pub new : IndexBlock
new = record { entries = [] }

unfoldable pub push : IndexBlock → List ℕ → ℕ → ℕ → IndexBlock
push b separator offset size = record { entries = b.entries ++ ((separator, (offset, size)) ∷ []) }

-- the loop of `encode`
unfoldable pub index_bytes : List IndexEntry → List ℕ
index_bytes [] = []
index_bytes ((k, (off, len)) ∷ rest) =
    to_le 4 (as_u32 (length k)) ++ (k ++ (to_le 8 off ++ (to_le 4 len ++ index_bytes rest)))

unfoldable pub encode : IndexBlock → List ℕ
encode b = to_le 4 (as_u32 (length b.entries)) ++ index_bytes b.entries

-- the loop of `decode`, with `n` rounds left, at offset `o`
unfoldable pub decode_entries : ℕ → List ℕ → ℕ → Result (List IndexEntry)
decode_entries zero bytes o = ok []
decode_entries (suc n) bytes o = do
  guard (leb (o + 4) (length bytes)) (corruption "index truncated" [])
  klen ← read_le 4 bytes o
  guard (leb (o + 4 + klen + 8 + 4) (length bytes)) (corruption "index entry truncated" [])
  k ← slice bytes (o + 4) klen
  off ← read_le 8 bytes (o + 4 + klen)
  len ← read_le 4 bytes (o + 4 + klen + 8)
  rest ← decode_entries n bytes (o + 4 + klen + 8 + 4)
  ok ((k, (off, len)) ∷ rest)

unfoldable pub decode : List ℕ → Result IndexBlock
decode bytes = do
  guard (leb 4 (length bytes)) (corruption "index too short" [])
  n ← read_le 4 bytes 0
  entries ← decode_entries n bytes 4
  ok (record { entries = entries })

-- the user key of a separator
unfoldable pub sep_user : List ℕ → List ℕ
sep_user sep = if leb 8 (length sep) then take (length sep - 8) sep else sep

-- the loop of `find_block`
unfoldable pub find_from : List ℕ → Option (ℕ × ℕ) → List IndexEntry → Option (ℕ × ℕ)
find_from user_key best [] = best
find_from user_key best ((sep, place) ∷ rest) =
    let later = find_from user_key (some place) rest in
    if is_lt (bytes_cmp (sep_user sep) user_key) then later else some place

unfoldable pub find_block : IndexBlock → List ℕ → Option (ℕ × ℕ)
find_block b user_key = find_from user_key none b.entries
