-- ===== src/Sstable/Table/Fits.antt =====
-- The blocks and the index entries of a file that is shorter than 4 GiB fit their fields.
use jadedb.Common.{ℕ, ◌+◌, ◌≤◌, ◌≡◌, ◌≢◌, refl, sym, ap, subst, ◌∙◌, arith}
use jadedb.Common.{
  Option, some, List, [], ◌∷◌, ◌++◌, append_assoc, length, length-append, All, All-split,
}
use jadedb.Common.Words.{IsU32, u32_max}
use jadedb.Common.Cursor.{At, At-skip}
use jadedb.Common.Result.{ok}
use jadedb.Key.{Record}
use jadedb.Key.Codec.{length-encode}
use jadedb.Frames.{as_u32}
use jadedb.Sstable.Block.Entries.{IsEntry}
use jadedb.Sstable.Block.Size.{length_lt-finish}
use jadedb.Sstable.Index.Codec.{IsIndexEntry}
use jadedb.Sstable.Builder.Layout.{
  block_bytes, concat, flat, last_or, separator, laid, disk_at, disk_at_head, disk_at_later,
  length-block_bytes, IsBlock,
}
use jadedb.Sstable.Cache.{Cached}
use jadedb.Sstable.Reader.Table.{All-last_or}
use jadedb.Sstable.Table.{Dir, SsTable, read_exact}
use jadedb.Sstable.Table.Opened.{read_exact-At}
use jadedb.Sstable.Reader.Lookup.{AllStored}

-- The blocks of a file that is shorter than 4 GiB are valid.
pub valid_blocks :
    (ps : List (List Record))
    → All (λ p. p ≢ []) ps
    → All IsEntry (concat ps)
    → IsU32 (length (flat ps))
    → All IsBlock ps
unfolding concat flat
valid_blocks [] full h small = tt
valid_blocks (p ∷ ps) full h small =
    let parts = All-split IsEntry p (concat ps) h in
    let total = length-append (block_bytes p) (flat ps) in
    (
      record {
        number = omega (arith, length_lt-finish p, total, small);
        entries = parts.0;
        some_entry = full.0;
        small = omega (arith, total, small);
      },
      valid_blocks ps full.1 parts.1 (omega (arith, total, small)),
    )

pub stored_blocks :
    (first_key : List Cached → Option (ℕ × ℕ)) (dir : Dir) (disk : ℕ → ℕ → List ℕ) (t : SsTable)
    (content : List ℕ) (o : ℕ) (ps : List (List Record)) (rest : List ℕ)
    → dir t.file_num ≡ some content
    → At content o (flat ps ++ rest)
    → ((off : ℕ) → o ≤ off → disk t.file_num off ≡ disk_at o ps off)
    → All IsBlock ps
    → AllStored first_key dir disk t o ps
unfolding AllStored flat
stored_blocks first_key dir disk t content o [] rest there at same valid = tt
stored_blocks first_key dir disk t content o (p ∷ ps) rest there at same valid =
    let n = length (block_bytes p) in
    let small : as_u32 n ≡ n = omega (arith, valid.0.small) in
    let here : At content o (block_bytes p ++ (flat ps ++ rest)) =
      subst (At content o) (append_assoc (block_bytes p) (flat ps) rest) at in
    let on_disk : disk t.file_num o ≡ block_bytes p = same o (omega arith) ∙ disk_at_head o p ps in
    (
      record {
        content = content;
        there = there;
        exact =
            ap (λ m. read_exact content o m) small
            ∙ read_exact-At n (block_bytes p) (flat ps ++ rest) here refl
            ∙ ap ok (sym on_disk);
        same = on_disk;
        valid = valid.0;
      },
      stored_blocks first_key dir disk t content (o + n) ps rest there
          (At-skip (block_bytes p) (flat ps ++ rest) n here refl)
          (λ off l. same off (omega (arith, l)) ∙ disk_at_later o p ps off l) valid.1,
    )

separator_fits : (p : List Record) → All IsEntry p → IsU32 (length (separator p))
separator_fits [] h = omega arith
separator_fits (r ∷ rs) h =
    let last = All-last_or IsEntry r rs h.0 h.1 in
    omega (arith, length-encode (last_or r rs).0, last.key_fits)

pub index_fits :
    (o : ℕ) (ps : List (List Record))
    → All IsBlock ps
    → o + length (flat ps) ≤ u32_max
    → All IsIndexEntry (laid o ps) × (length (laid o ps) ≤ length (flat ps))
unfolding laid flat
index_fits o [] valid small = (tt, omega arith)
index_fits o (p ∷ ps) valid small =
    let n = length (block_bytes p) in
    let total = length-append (block_bytes p) (flat ps) in
    let (later, count) = index_fits (o + n) ps valid.1 (omega (arith, total, small)) in
    (
      (
        record {
          key_fits = separator_fits p valid.0.entries;
          offset_fits = omega (arith, small);
          length_fits = omega (arith, valid.0.small);
        },
        later,
      ),
      omega (arith, count, total, length-block_bytes p),
    )
