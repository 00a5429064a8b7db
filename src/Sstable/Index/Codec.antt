-- ===== src/Sstable/Index/Codec.antt =====
-- The index block, written and read, and the block that it names for a key.
use jadedb.Common.{ℕ, zero, suc, ◌+◌, ◌≤◌, ◌≡◌, ◌≢◌, ◌⊎◌, refl, le→leb, leb→le, leb}
use jadedb.Common.{Option, none, some, List, [], ◌∷◌, ◌++◌, length, All, arith}
use jadedb.Common.{lt}
use jadedb.Common.Order.{bytes_cmp}
use jadedb.Common.Words.{to_le, IsU32, IsU64}
use jadedb.Common.Cursor.{
  At, At-start, At-length, At-skip, At-slice, At-read, At-past, slice-ne-panic, read_le-ne-panic,
}
use jadedb.Common.Result.{ok, panic, guard-ne-panic, ok-ne-panic, >>=-ne-panic}
use jadedb.Common.{map}
use jadedb.Common.BTreeMap
use jadedb.Key.{InternalKey, cmp, encoded_user}
use jadedb.Key as Key
use jadedb.Key.Codec.{length-encode}
use jadedb.Key.Encoded.{encoded_user-encode}
use jadedb.Memtable.Concat.{below_user}
use jadedb.Frames.{as_u32}
use jadedb.Sstable.Index.{
  IndexEntry, IndexBlock, index_bytes, encode, decode_entries, decode, sep_user, find_from,
  find_block,
}

-- The length of the separator and of the block fit a u32, the offset is a u64.
pub record IsIndexEntry (e : IndexEntry) : Type 0 where
  pub key_fits : IsU32 (length e.0)
  pub offset_fits : IsU64 e.1.0
  pub length_fits : IsU32 e.1.1

decode_entries-index_bytes :
    (es : List IndexEntry) (bytes : List ℕ) (o : ℕ)
    → At bytes o (index_bytes es)
    → All IsIndexEntry es
    → decode_entries (length es) bytes o ≡ ok es
unfolding decode_entries index_bytes
decode_entries-index_bytes [] bytes o at h = refl
decode_entries-index_bytes ((k, (off, len)) ∷ es) bytes o at h =
    let n = length k in
    let small : as_u32 n ≡ n = omega (arith, h.0.key_fits) in
    let c0 : At bytes o (to_le 4 n ++ (k ++ (to_le 8 off ++ (to_le 4 len ++ index_bytes es)))) =
      rw small at at in
    let c1 = At-past 4 n _ c0 in
    let c2 = At-skip k _ n c1 refl in
    let c3 = At-past 8 off _ c2 in
    let c4 = At-past 4 len _ c3 in
    let size = At-length c4 in
    rw (
      le→leb (o + 4) (length bytes) (omega (arith, size)),
      At-read 4 n _ c0 (omega (arith, h.0.key_fits)),
      le→leb (o + 4 + n + 8 + 4) (length bytes) (omega (arith, size)),
      At-slice k _ n c1 refl,
      At-read 8 off _ c2 (omega (arith, h.0.offset_fits)),
      At-read 4 len _ c3 (omega (arith, h.0.length_fits)),
      decode_entries-index_bytes es bytes (o + 4 + n + 8 + 4) c4 h.1,
    )

-- Reading back an index block gives the index block, if its number of entries and their fields fit
-- their widths.
pub decode-encode_index :
    (b : IndexBlock)
    → IsU32 (length b.entries)
    → All IsIndexEntry b.entries
    → decode (encode b) ≡ ok b
unfolding decode encode
decode-encode_index b hn h =
    let n = length b.entries in
    let small : as_u32 n ≡ n = omega (arith, hn) in
    let bytes = to_le 4 n ++ index_bytes b.entries in
    let c0 : At bytes 0 bytes = At-start bytes in
    let c1 = At-past 4 n (index_bytes b.entries) c0 in
    rw (
      small,
      le→leb 4 (length bytes) (omega (arith, At-length c1)),
      At-read 4 n _ c0 (omega (arith, hn)),
      decode_entries-index_bytes b.entries bytes 4 c1 h,
    )

decode_entries-ne-panic : (n : ℕ) (bytes : List ℕ) (o : ℕ) → decode_entries n bytes o ≢ panic
unfolding decode_entries
decode_entries-ne-panic zero bytes o = ok-ne-panic _
decode_entries-ne-panic (suc n) bytes o = guard-ne-panic (leb (o + 4) (length bytes)) _ _ λ g.
    let long : o + 4 ≤ length bytes = leb→le (o + 4) _ g in
    >>=-ne-panic _ _ (read_le-ne-panic 4 bytes o long) λ klen _. guard-ne-panic _ _ _ λ g'.
      let room : o + 4 + klen + 8 + 4 ≤ length bytes = leb→le (o + 4 + klen + 8 + 4) _ g' in
      >>=-ne-panic _ _ (slice-ne-panic bytes (o + 4) klen (omega arith)) λ k _.
        >>=-ne-panic _ _ (read_le-ne-panic 8 bytes (o + 4 + klen) (omega arith)) λ off _.
          >>=-ne-panic _ _ (read_le-ne-panic 4 bytes (o + 4 + klen + 8) (omega arith)) λ len _.
            >>=-ne-panic _ _ (decode_entries-ne-panic n bytes (o + 4 + klen + 8 + 4))
              λ rest _. ok-ne-panic _

-- On any bytes at all, reading an index block does not panic.
pub decode_index-ne-panic : (bytes : List ℕ) → decode bytes ≢ panic
unfolding decode
decode_index-ne-panic bytes = guard-ne-panic (leb 4 (length bytes)) _ _ λ g.
    >>=-ne-panic _ _ (read_le-ne-panic 4 bytes 0 (leb→le 4 _ g))
      λ n _. >>=-ne-panic _ _ (decode_entries-ne-panic n bytes 4) λ entries _. ok-ne-panic _

pub sep_user-encode : (k : InternalKey) → sep_user (Key.encode k) ≡ k.user_key
unfolding sep_user encoded_user
sep_user-encode k =
    rw (le→leb 8 (length (Key.encode k)) (omega (arith, length-encode k))) (encoded_user-encode k)

-- a block: its last key, and its place
abbrev pub Listed : Type 0
Listed = InternalKey × (ℕ × ℕ)

-- the entry that the builder pushes for a block
abbrev pub index_entry : Listed → IndexEntry
index_entry b = (Key.encode b.0, b.1)

-- The last key of the last of these blocks is below `u`.
abbrev pub LastBelow : List ℕ → List Listed → Type 0
LastBelow u [] = Unit
LastBelow u (b ∷ bs) =
    let later = LastBelow u bs in elim bs [ [] ↦ bytes_cmp b.0.user_key u ≡ lt | _ ∷ _ ↦ later ]

all_below :
    (u : List ℕ) (before rest : List Listed)
    → BTreeMap.IsSorted cmp (before ++ rest)
    → LastBelow u before
    → All (λ b. bytes_cmp b.0.user_key u ≡ lt) before
all_below u [] rest sorted last = tt
all_below u (b ∷ []) rest sorted last = (last, tt)
all_below u (b ∷ c ∷ bs) rest sorted last =
    let later = all_below u (c ∷ bs) rest sorted.1 last in
    (below_user b.0 c.0 u sorted.0.0 later.0, later)

find_from_lem :
    (u : List ℕ) (best : Option (ℕ × ℕ)) (before : List Listed) (e : Listed) (after : List Listed)
    → All (λ b. bytes_cmp b.0.user_key u ≡ lt) before
    → (bytes_cmp e.0.user_key u ≢ lt) ⊎ (after ≡ [])
    → find_from u best (map index_entry (before ++ (e ∷ after))) ≡ some e.1
unfolding find_from
find_from_lem u best [] e [] h k = rw (sep_user-encode e.0) (ground arith)
find_from_lem u best [] e (a ∷ after) h k = rw (sep_user-encode e.0) (ground arith)
find_from_lem u best (b ∷ before) e after h k =
    rw (sep_user-encode b.0, h.0) (find_from_lem u (some b.1) before e after h.1 k)

-- In the index of blocks with rising last keys, each listed under the encoding of its last key, a user
-- key is looked up in the block `e` if the last key of the block before it has a user key below the
-- one that is looked up, and that of `e` is not below it or `e` is the last block.
pub find_block_lem :
    (u : List ℕ) (before : List Listed) (e : Listed) (after : List Listed)
    → BTreeMap.IsSorted cmp (before ++ (e ∷ after))
    → LastBelow u before
    → (bytes_cmp e.0.user_key u ≢ lt) ⊎ (after ≡ [])
    → find_block (record { entries = map index_entry (before ++ (e ∷ after)) }) u ≡ some e.1
unfolding find_block
find_block_lem u before e after sorted last here =
    find_from_lem u none before e after (all_below u before (e ∷ after) sorted last) here
