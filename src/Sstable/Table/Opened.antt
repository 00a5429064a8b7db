-- ===== src/Sstable/Table/Opened.antt =====
-- Opening a file that the builder wrote.
use jadedb.Common.{ℕ, ◌+◌, ◌-◌, ◌≤◌, ◌≡◌, refl, sym, subst, arith, le→leb}
use jadedb.Common.{
  some, List, [], ◌++◌, append-nil, length, length-append, take-append, drop-append,
}
use jadedb.Common.Words.{to_le, length-to_le, IsU64}
use jadedb.Common.Cursor.{At, At-start, At-skip, At-length, At-read, At-past, read_le}
use jadedb.Common.Result.{ok}
use jadedb.Sstable.Index.{IndexBlock}
use jadedb.Sstable.Index as Index
use jadedb.Sstable.Bloom.{BloomFilter}
use jadedb.Sstable.Bloom as Bloom
use jadedb.Sstable.Builder.{sst_magic, footer, file_bytes}
use jadedb.Sstable.Table.{Dir, open_file, read_exact, open_table}

-- what `read_exact` finds at a cursor
pub read_exact-At :
    {content : List ℕ} {o : ℕ} (n : ℕ) (a rest : List ℕ)
    → At content o (a ++ rest)
    → length a ≡ n
    → read_exact content o n ≡ ok a
unfolding read_exact
read_exact-At {content} {o} n a rest c e =
    let within : o + n ≤ length content = omega (arith, At-length c, length-append a rest) in
    rw (le→leb _ _ within, c.split, ← c.reached, ← e, drop-append, take-append)

pub length-footer : (a b c d e : ℕ) → length (footer a b c d e) ≡ 44
unfolding footer
length-footer a b c d e =
    let c0 : At _ 0 (
        to_le 4 sst_magic
        ++ (to_le 8 a ++ (to_le 8 b ++ (to_le 8 c ++ (to_le 8 d ++ to_le 8 e))))) =
      At-start _ in
    let c1 = At-past 4 sst_magic _ c0 in
    let c2 = At-past 8 a _ c1 in
    let c3 = At-past 8 b _ c2 in
    let c4 = At-past 8 c _ c3 in
    let c5 = At-past 8 d _ c4 in omega (arith, At-length c5, length-to_le 8 e)

-- The fields of a footer, read back.
footer_fields :
    (a b c d e : ℕ)
    → IsU64 b
    → IsU64 c
    → IsU64 d
    → IsU64 e
    → (read_le 4 (footer a b c d e) 0 ≡ ok sst_magic)
      × (read_le 8 (footer a b c d e) 12 ≡ ok b)
      × (read_le 8 (footer a b c d e) 20 ≡ ok c)
      × (read_le 8 (footer a b c d e) 28 ≡ ok d)
      × (read_le 8 (footer a b c d e) 36 ≡ ok e)
unfolding footer
footer_fields a b c d e hb hc hd he =
    let c0 : At _ 0 (
        to_le 4 sst_magic
        ++ (to_le 8 a ++ (to_le 8 b ++ (to_le 8 c ++ (to_le 8 d ++ to_le 8 e))))) =
      At-start _ in
    let c1 = At-past 4 sst_magic _ c0 in
    let c2 = At-past 8 a _ c1 in
    let c3 = At-past 8 b _ c2 in
    let c4 = At-past 8 c _ c3 in
    let c5 = subst (At _ 36) (sym (append-nil (to_le 8 e))) (At-past 8 d _ c4) in
    (
      At-read 4 sst_magic _ c0 (omega arith),
      At-read 8 b _ c2 (omega (arith, hb)),
      At-read 8 c _ c3 (omega (arith, hc)),
      At-read 8 d _ c4 (omega (arith, hd)),
      At-read 8 e _ c5 (omega (arith, he)),
    )

-- Opening the file with some blocks, an index and a filter gives a table with that index and filter.
pub open_table-file_bytes :
    (dir : Dir) (n : ℕ) (smallest largest blocks index_bytes bloom_bytes : List ℕ)
    (index : IndexBlock) (bloom : BloomFilter)
    → dir n ≡ some (file_bytes blocks index_bytes bloom_bytes)
    → IsU64 (length (file_bytes blocks index_bytes bloom_bytes))
    → Index.decode index_bytes ≡ ok index
    → Bloom.decode bloom_bytes ≡ ok bloom
    → open_table dir n smallest largest
      ≡ ok (record {
        file_num = n;
        smallest = smallest;
        largest = largest;
        file_size = length (file_bytes blocks index_bytes bloom_bytes);
        index = index;
        bloom = bloom;
      })
unfolding open_table open_file file_bytes
open_table-file_bytes dir n smallest largest blocks ib bb index bloom there small hi hb =
    let off = length blocks in
    let f = footer off off (length ib) (off + length ib) (length bb) in
    let content = blocks ++ (ib ++ (bb ++ f)) in
    let c1 : At content off (ib ++ (bb ++ f)) = record {
      front = blocks;
      split = refl;
      reached = refl;
    } in
    let c2 : At content (off + length ib) (bb ++ f) = At-skip ib _ (length ib) c1 refl in
    let c3 : At content (off + length ib + length bb) f = At-skip bb _ (length bb) c2 refl in
    let foot = length-footer off off (length ib) (off + length ib) (length bb) in
    let size : length content ≡ off + length ib + length bb + 44 =
      omega (arith, At-length c3, foot) in
    let start : length content - 44 ≡ off + length ib + length bb = omega (arith, size) in
    let c4 : At content (length content - 44) (f ++ []) =
      subst (λ o. At content o (f ++ [])) (sym start)
        (subst (At content (off + length ib + length bb)) (sym (append-nil f)) c3) in
    let (r0, r1, r2, r3, r4) =
      footer_fields off off (length ib) (off + length ib) (length bb) (omega (arith, size, small))
        (omega (arith, size, small)) (omega (arith, size, small)) (omega (arith, size, small)) in
    rw (
      there,
      le→leb 44 (length content) (omega (arith, size)),
      read_exact-At 44 f [] c4 foot,
      r0,
      r1,
      r2,
      r3,
      r4,
      read_exact-At (length ib) ib (bb ++ f) c1 refl,
      hi,
      read_exact-At (length bb) bb f c2 refl,
      hb,
    )
