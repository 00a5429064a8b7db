-- ===== src/Sstable/Block/Size.antt =====
-- The size that the builder of a block estimates.
use jadedb.Common.{ℕ, ◌+◌, ◌≤◌, ◌≡◌, refl, arith, List, [], ◌∷◌, ◌++◌, length, length-append, map}
use jadedb.Common.Words.{to_le, length-to_le}
use jadedb.Common.Cursor.{At, At-start, At-length, At-skip, At-past}
use jadedb.Key.{Record, encode}
use jadedb.Frames.{as_u32}
use jadedb.Sstable.Block.{BlockBuilder, new, add, entry_bytes, finish}
use jadedb.Sstable.Block.Entries.{add_all, stored, entries-add_all}

entry_length :
    (ik v : List ℕ) (es : List (List ℕ × List ℕ))
    → length (entry_bytes ((ik, v) ∷ es)) ≡ length ik + length v + 8 + length (entry_bytes es)
unfolding entry_bytes
entry_length ik v es =
    let n = as_u32 (length ik) in
    let m = as_u32 (length v) in
    let c0 : At _ 0 (to_le 4 n ++ (ik ++ (to_le 4 m ++ (v ++ entry_bytes es)))) = At-start _ in
    let c1 = At-past 4 n _ c0 in
    let c2 = At-skip ik _ (length ik) c1 refl in
    let c3 = At-past 4 m _ c2 in
    let c4 = At-skip v _ (length v) c3 refl in omega (arith, At-length c4)

grown :
    (es : List (List ℕ × List ℕ)) (ik v : List ℕ)
    → length (entry_bytes (es ++ ((ik, v) ∷ [])))
      ≡ length (entry_bytes es) + (length ik + length v + 8)
grown [] ik v = let base = entry_length ik v [] in unfold entry_bytes in omega (arith, base)
grown ((jk, w) ∷ es) ik v =
    omega (arith, grown es ik v, entry_length jk w (es ++ ((ik, v) ∷ [])), entry_length jk w es)

size-add_all :
    (b : BlockBuilder) (rs : List Record)
    → length (entry_bytes b.entries) ≡ b.size
    → length (entry_bytes (add_all b rs).entries) ≡ (add_all b rs).size
unfolding add_all add
size-add_all b [] h = h
size-add_all b (r ∷ rs) h =
    size-add_all (add b (encode r.0) r.1) rs (omega (arith, grown b.entries (encode r.0) r.1, h))

-- The estimated size of a builder is the length of the finished block without its count.
pub length-finish :
    (rs : List Record) → length (finish (add_all new rs)).bytes ≡ (add_all new rs).size + 4
unfolding finish
length-finish rs =
    let es = (add_all new rs).entries in
    let empty : length (entry_bytes []) ≡ 0 = unfold entry_bytes in refl in
    omega (
      arith,
      length-append (to_le 4 (as_u32 (length es))) (entry_bytes es),
      length-to_le 4 (as_u32 (length es)),
      size-add_all new rs empty,
    )

entry_count : (rs : List Record) → length rs ≤ length (entry_bytes (map stored rs))
entry_count [] = omega arith
entry_count (r ∷ rs) = omega (arith, entry_count rs, entry_length (encode r.0) r.1 (map stored rs))

-- A block is longer than the number of its records.
pub length_lt-finish : (rs : List Record) → length rs + 4 ≤ length (finish (add_all new rs)).bytes
unfolding finish
length_lt-finish rs =
    let es = map stored rs in
    rw (entries-add_all new rs) (
      omega (
        arith,
        length-append (to_le 4 (as_u32 (length es))) (entry_bytes es),
        length-to_le 4 (as_u32 (length es)),
        entry_count rs,
      ))
