-- ===== src/Sstable/Block/Entries.antt =====
-- The entries of a block, written by the builder and read by the iterator.
use jadedb.Common.{ℕ, zero, suc, ◌+◌, ◌-◌, ◌≤◌, ◌<◌, ◌^◌, ◌%◌, ◌≡◌, refl, sym, ap, ◌∙◌, ◌==◌}
use jadedb.Common.{le→ltb, le→leb, some, map, false}
use jadedb.Common.{List, [], ◌∷◌, ◌++◌, append_assoc, append-nil, length, All, arith}
use jadedb.Common.Words.{to_le, IsU32}
use jadedb.Common.Cursor.{At, At-start, At-length, At-skip, At-slice, At-read, At-past}
use jadedb.Common.Result.{ok}
use jadedb.Key.{InternalKey, Record, encode, decode}
use jadedb.Key.Codec.{decode-encode, length-encode}
use jadedb.Frames.{as_u32}
use jadedb.Sstable.Block.{
  BlockEntryIter, iter_entries, next_value, next_decoded, next_key, next_entry,
}
use jadedb.Sstable.Block.{entries_from, block_entries, BlockBuilder, new, add, entry_bytes, finish}

-- The lengths fit a u32, and the sequence number fits the 56 bits that it has in an encoded key.
pub record IsEntry (r : Record) : Type 0 where
  pub key_fits : length r.0.user_key + 8 ≤ 4294967295
  pub value_fits : IsU32 (length r.1)
  pub seq_fits : r.0.seq < 2 ^ 56

-- what the builder stores for a record
abbrev pub stored : Record → List ℕ × List ℕ
stored r = (encode r.0, r.1)

decode_back : (k : InternalKey) → k.seq < 2 ^ 56 → decode (encode k) ≡ ok k
decode_back k h =
    let same : k.seq % 2 ^ 56 ≡ k.seq = omega (arith, h) in
    decode-encode k ∙ ap (λ n. ok (record k { seq = n })) same

-- One round of the iterator at an entry.
next_entry-entry :
    (it : BlockEntryIter) (r : Record) (rest : List (List ℕ × List ℕ))
    → 0 < it.remaining
    → At it.bytes it.offset (entry_bytes (stored r ∷ rest))
    → IsEntry r
    → (o : ℕ) × (At it.bytes o (entry_bytes rest))
      × (next_entry it ≡ ok (some r, record it { offset = o; remaining = it.remaining - 1 }))
unfolding next_entry next_key next_decoded next_value entry_bytes
next_entry-entry it (k, v) rest more at h =
    let n = length (encode k) in
    let m = length v in
    let size_k : n ≡ length k.user_key + 8 = length-encode k in
    let fits : n ≤ 4294967295 = omega (arith, size_k, h.key_fits) in
    let small_k : as_u32 n ≡ n = omega (arith, fits) in
    let small_v : as_u32 m ≡ m = omega (arith, h.value_fits) in
    let o = it.offset in
    let c0 : At it.bytes o (to_le 4 n ++ (encode k ++ (to_le 4 m ++ (v ++ entry_bytes rest)))) =
      rw (small_k, small_v) at at in
    let c1 = At-past 4 n _ c0 in
    let c2 = At-skip (encode k) _ n c1 refl in
    let c3 = At-past 4 m _ c2 in
    let c4 = At-skip v _ m c3 refl in
    let size = At-length c4 in
    let busy : (it.remaining == 0) ≡ false = ground arith in
    (
      o + 4 + n + 4 + m,
      c4,
      rw (
        busy,
        le→ltb (length it.bytes) (o + 4) (omega (arith, size)),
        At-read 4 n _ c0 (omega (arith, fits)),
        le→ltb (length it.bytes) (o + 4 + n + 4) (omega (arith, size)),
        At-slice (encode k) _ n c1 refl,
        decode_back k h.seq_fits,
        At-read 4 m _ c2 (omega (arith, h.value_fits)),
        le→ltb (length it.bytes) (o + 4 + n + 4 + m) (omega (arith, size)),
        At-slice v _ m c3 refl,
      ),
    )

entries_from-entry_bytes :
    (rs : List Record) (fuel : ℕ) (it : BlockEntryIter)
    → length rs < fuel
    → it.remaining ≡ length rs
    → At it.bytes it.offset (entry_bytes (map stored rs))
    → All IsEntry rs
    → entries_from fuel it ≡ ok rs
unfolding entries_from next_entry
entries_from-entry_bytes rs zero it f e at h = absurd (omega arith)
entries_from-entry_bytes [] (suc fuel) it f e at h = rw e refl
entries_from-entry_bytes (r ∷ rs) (suc fuel) it f e at h =
    let (o, next, round) = next_entry-entry it r (map stored rs) (omega arith) at h.0 in
    rw (
      round,
      entries_from-entry_bytes rs fuel (record it { offset = o; remaining = it.remaining - 1 })
          (omega arith) (omega (arith, e)) next h.1,
    )

-- a builder after it has added some records
unfoldable pub add_all : BlockBuilder → List Record → BlockBuilder
add_all b [] = b
add_all b (r ∷ rs) = add_all (add b (encode r.0) r.1) rs

pub entries-add_all :
    (b : BlockBuilder) (rs : List Record) → (add_all b rs).entries ≡ b.entries ++ map stored rs
unfolding add_all add
entries-add_all b [] = sym (append-nil b.entries)
entries-add_all b (r ∷ rs) =
    entries-add_all (add b (encode r.0) r.1) rs
    ∙ append_assoc b.entries (stored r ∷ []) (map stored rs)

length-stored : (rs : List Record) → length (map stored rs) ≡ length rs
length-stored [] = refl
length-stored (r ∷ rs) = ap suc (length-stored rs)

-- Iterating over a block that a builder has finished gives the records that were added, in order,
-- if their number and lengths fit a u32 and their sequence numbers fit 56 bits.
pub block_entries-finish :
    (rs : List Record)
    → IsU32 (length rs)
    → All IsEntry rs
    → block_entries (finish (add_all new rs)) ≡ ok rs
unfolding block_entries iter_entries finish
block_entries-finish rs hn h =
    let n = length rs in
    let bytes = to_le 4 n ++ entry_bytes (map stored rs) in
    let added = entries-add_all new rs in
    let small : as_u32 n ≡ n = omega (arith, hn) in
    let c0 : At bytes 0 bytes = At-start bytes in
    let c1 = At-past 4 n (entry_bytes (map stored rs)) c0 in
    rw
      (
        added,
        length-stored rs,
        small,
        le→leb 4 (length bytes) (omega (arith, At-length c1)),
        At-read 4 n _ c0 (omega (arith, hn)),
      )
      (entries_from-entry_bytes rs (n + 1) (record { bytes = bytes; offset = 4; remaining = n })
        (omega arith) refl c1 h)
