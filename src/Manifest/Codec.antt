-- ===== src/Manifest/Codec.antt =====
-- The edits of the manifest, written and read.
use jadedb.Common.{ℕ, ◌+◌, ◌^◌, ◌≤◌, ◌<◌, ◌≡◌, refl, sym, subst, arith, inl, inr}
use jadedb.Common.{List, [], ◌∷◌, ◌++◌, append-nil, length}
use jadedb.Common.Words.{to_le, u32_max, IsU32, IsU64}
use jadedb.Common.Cursor.{
  At, At-start, At-skip, At-slice, At-read, At-past, read_le, read_le_short, read_le-ne-err,
}
use jadedb.Common.Result.{ok, panic, Result-cases}
use jadedb.Frames.{as_u32}
use jadedb.Manifest.{FileMeta, ManifestEdit, add_file, delete_file, set_next_file_num, set_last_seq}
use jadedb.Manifest.{encode_edit, decode_add_file, decode_delete_file, decode_tagged, decode_edit}

-- The numbers fit their words, and an edit fits the 32 bits of a record's length.
pub record IsFileMeta (m : FileMeta) : Type 0 where
  pub file_num_fits : IsU64 m.file_num
  pub level_fits : IsU32 m.level
  pub short : length m.smallest + length m.largest + 33 ≤ u32_max
  pub file_size_fits : IsU64 m.file_size

abbrev pub IsEncodable : ManifestEdit → Type 0
IsEncodable (add_file m) = IsFileMeta m
IsEncodable (delete_file level file_num) = IsU32 level × IsU64 file_num
IsEncodable (set_next_file_num n) = IsU64 n
IsEncodable (set_last_seq s) = IsU64 s

-- The last word of a buffer.
read_last :
    (w x : ℕ) {buf : List ℕ} {o : ℕ} → At buf o (to_le w x) → x < 256 ^ w → read_le w buf o ≡ ok x
read_last w x {buf} {o} c h = At-read w x [] (subst (At buf o) (sym (append-nil (to_le w x))) c) h

decode_add_file-encode_edit :
    (m : FileMeta) → IsFileMeta m → decode_edit (encode_edit (add_file m)) ≡ ok (add_file m)
unfolding decode_edit decode_tagged decode_add_file
decode_add_file-encode_edit m h =
    let b = encode_edit (add_file m) in
    let sl : as_u32 (length m.smallest) ≡ length m.smallest = omega (arith, h.short) in
    let ll : as_u32 (length m.largest) ≡ length m.largest = omega (arith, h.short) in
    let body : List ℕ =
      to_le 8 m.file_num
      ++ (to_le 4 m.level
          ++ (to_le 4 (length m.smallest)
              ++ (m.smallest
                  ++ (to_le 4 (length m.largest) ++ (m.largest ++ to_le 8 m.file_size))))) in
    let layout : b ≡ 1 ∷ body = unfold encode_edit in rw (sl, ll) in
    let c0 : At (1 ∷ body) 1 body = At-skip (1 ∷ []) body 1 (At-start (1 ∷ body)) refl in
    let c1 = At-past 8 m.file_num _ c0 in
    let c2 = At-past 4 m.level _ c1 in
    let c3 = At-past 4 (length m.smallest) _ c2 in
    let c4 = At-skip m.smallest _ (length m.smallest) c3 refl in
    let c5 = At-past 4 (length m.largest) _ c4 in
    let c6 = At-skip m.largest _ (length m.largest) c5 refl in
    rw (
      layout,
      At-read 8 m.file_num _ c0 (omega (arith, h.file_num_fits)),
      At-read 4 m.level _ c1 (omega (arith, h.level_fits)),
      At-read 4 (length m.smallest) _ c2 (omega (arith, h.short)),
      At-slice m.smallest _ (length m.smallest) c3 refl,
      At-read 4 (length m.largest) _ c4 (omega (arith, h.short)),
      At-slice m.largest _ (length m.largest) c5 refl,
      read_last 8 m.file_size c6 (omega (arith, h.file_size_fits)),
    )

-- Reading back an edit that fits its fields gives the edit that was written.
pub decode_edit-encode_edit :
    (e : ManifestEdit) → IsEncodable e → decode_edit (encode_edit e) ≡ ok e
unfolding decode_edit decode_tagged encode_edit decode_delete_file
decode_edit-encode_edit (add_file m) h = unfold decode_edit in decode_add_file-encode_edit m h
decode_edit-encode_edit (delete_file level file_num) h =
    let b = 2 ∷ (to_le 4 level ++ to_le 8 file_num) in
    let c0 : At b 1 (to_le 4 level ++ to_le 8 file_num) = At-skip (2 ∷ []) _ 1 (At-start b) refl in
    let c1 = At-past 4 level _ c0 in
    rw (At-read 4 level _ c0 (omega (arith, h.0)), read_last 8 file_num c1 (omega (arith, h.1)))
decode_edit-encode_edit (set_next_file_num n) h =
    let b = 3 ∷ to_le 8 n in
    let c0 : At b 1 (to_le 8 n) = At-skip (3 ∷ []) _ 1 (At-start b) refl in
    rw (read_last 8 n c0 (omega arith))
decode_edit-encode_edit (set_last_seq n) h =
    let b = 4 ∷ to_le 8 n in
    let c0 : At b 1 (to_le 8 n) = At-skip (4 ∷ []) _ 1 (At-start b) refl in
    rw (read_last 8 n c0 (omega arith))

-- An edit that is cut short behind its tag makes `decode_edit` panic; it gives no error.
pub decode_edit_short :
    (tag : ℕ) (rest : List ℕ)
    → 1 ≤ tag
    → tag ≤ 4
    → length rest < 8
    → decode_edit (tag ∷ rest) ≡ panic
unfolding decode_edit decode_tagged decode_add_file decode_delete_file
decode_edit_short tag rest lo hi short =
    let b = tag ∷ rest in
    let at_one = read_le_short 8 b 1 (omega arith) in
    let at_five = read_le_short 8 b 5 (omega arith) in
    elim (Result-cases (read_le 4 b 1)) [
      | inl (level, e) ↦ ground (arith, at_one, at_five)
      | inr (inl (x, e)) ↦ absurd (read_le-ne-err 4 b 1 x e)
      | inr (inr e) ↦ ground (arith, at_one, at_five)
    ]
