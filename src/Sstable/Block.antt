-- ===== src/Sstable/Block.antt =====
-- src/sstable/block.rs: data blocks, their builder and the iterator over their entries.
pub mod Entries
pub mod Size
pub mod Lookup
pub mod Panics
use jadedb.Common.{ℕ, zero, suc, ◌+◌, ◌-◌, ltb, leb, ◌==◌, ◌&&◌, ◌||◌, Option, none, some}
use jadedb.Common.{List, [], ◌∷◌, ◌++◌, length, if◌then◌else◌}
use jadedb.Common.Words.{to_le}
use jadedb.Common.Order.{bytes_eq}
use jadedb.Common.Cursor.{read_le}
use jadedb.Common.Result.{Result, ok, err, panic, slice, ◌>>=◌}
use jadedb.Key.{InternalKey, Record, decode}
use jadedb.Frames.{as_u32}

pub record Block : Type 0 where
  pub bytes : List ℕ

pub record BlockEntryIter : Type 0 where
  pub bytes : List ℕ
  pub offset : ℕ
  pub remaining : ℕ

-- `Block::iter_entries`
unfoldable pub iter_entries : Block → Result BlockEntryIter
iter_entries b =
    if leb 4 (length b.bytes)
    then (do
      num ← read_le 4 b.bytes 0
      ok (record { bytes = b.bytes; offset = 4; remaining = num }))
    else ok (record { bytes = b.bytes; offset = 4; remaining = 0 })

-- `next` from the value on
unfoldable pub next_value :
    InternalKey → ℕ → BlockEntryIter → Result (Option Record × BlockEntryIter)
next_value ik v_len it = if ltb (length it.bytes) (it.offset + v_len) then ok (none, it) else do
  v ← slice it.bytes it.offset v_len
  ok (some (ik, v), record it { offset = it.offset + v_len; remaining = it.remaining - 1 })

-- `next` from the decoded key on; `.ok()?` ends the iteration at a key that does not decode.
unfoldable pub next_decoded :
    Result InternalKey → ℕ → BlockEntryIter → Result (Option Record × BlockEntryIter)
next_decoded panic ik_len it = panic
next_decoded (err e) ik_len it = ok (none, it)
next_decoded (ok ik) ik_len it = do
  v_len ← read_le 4 it.bytes (it.offset + ik_len)
  next_value ik v_len (record it { offset = it.offset + ik_len + 4 })

-- `next` from the key on
unfoldable pub next_key : ℕ → BlockEntryIter → Result (Option Record × BlockEntryIter)
next_key ik_len it =
    if ltb (length it.bytes) (it.offset + ik_len + 4)
    then ok (none, it)
    else do key_bytes ← slice it.bytes it.offset ik_len; next_decoded (decode key_bytes) ik_len it

-- `BlockEntryIter::next`
unfoldable pub next_entry : BlockEntryIter → Result (Option Record × BlockEntryIter)
next_entry it =
    if it.remaining == 0 || ltb (length it.bytes) (it.offset + 4) then ok (none, it) else do
      ik_len ← read_le 4 it.bytes it.offset
      next_key ik_len (record it { offset = it.offset + 4 })

-- the entries that a `for` loop over the iterator sees, on fuel
unfoldable pub entries_from : ℕ → BlockEntryIter → Result (List Record)
entries_from zero it = panic
entries_from (suc fuel) it = do
  item ← next_entry it
  let rest = entries_from fuel item.1
  elim item.0 [ none ↦ ok [] | some r ↦ (do rs ← rest; ok (r ∷ rs)) ]

unfoldable pub block_entries : Block → Result (List Record)
block_entries b = do it ← iter_entries b; entries_from (it.remaining + 1) it

-- the loop of `Block::get`
unfoldable pub pick : List ℕ → ℕ → Option Record → List Record → Option Record
pick user_key max_seq best [] = best
pick user_key max_seq best ((ik, v) ∷ rest) =
    pick user_key max_seq
      (if bytes_eq ik.user_key user_key && leb ik.seq max_seq
        then elim best [
          | none ↦ some (ik, v)
          | some b ↦ if ltb b.0.seq ik.seq then some (ik, v) else some b
        ]
        else best)
      rest

-- `Block::get`
unfoldable pub block_get : Block → List ℕ → ℕ → Result (Option Record)
block_get b user_key max_seq = do entries ← block_entries b; ok (pick user_key max_seq none entries)

pub record BlockBuilder : Type 0 where
  pub entries : List (List ℕ × List ℕ)
  pub size : ℕ

abbrev pub new : BlockBuilder
new = record { entries = []; size = 0 }

unfoldable pub add : BlockBuilder → List ℕ → List ℕ → BlockBuilder
add b ikey value = record {
  entries = b.entries ++ ((ikey, value) ∷ []);
  size = b.size + (length ikey + length value + 8);
}

-- the loop of `BlockBuilder::finish`
unfoldable pub entry_bytes : List (List ℕ × List ℕ) → List ℕ
entry_bytes [] = []
entry_bytes ((ik, v) ∷ rest) =
    to_le 4 (as_u32 (length ik)) ++ (ik ++ (to_le 4 (as_u32 (length v)) ++ (v ++ entry_bytes rest)))

-- `BlockBuilder::finish`
unfoldable pub finish : BlockBuilder → Block
finish b = record { bytes = to_le 4 (as_u32 (length b.entries)) ++ entry_bytes b.entries }
