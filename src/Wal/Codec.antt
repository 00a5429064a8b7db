-- ===== src/Wal/Codec.antt =====
-- The records of the log, written and read.
use jadedb.Common.{ℕ, ◌+◌, ◌≤◌, ◌≡◌, ◌≢◌, refl, subst, ◌==◌, ==_iff, leb→le, le→leb, arith}
use jadedb.Common.{List, [], ◌∷◌, ◌++◌, length, length-append}
use jadedb.Common.Words.{to_le, length-to_le, u32_max, IsU64}
use jadedb.Common.Cursor.{
  At, At-start, At-skip, At-slice, At-slice_end, At-read, At-past, At-index, slice-ne-panic,
  read_le-ne-panic, index-ne-panic,
}
use jadedb.Common.Result.{ok, panic, guard-ne-panic, ok_or-ne-panic, ok-ne-panic, >>=-ne-panic}
use jadedb.Key.{as_u8, from_u8, Record}
use jadedb.Key.Codec.{from_u8-as_u8}
use jadedb.Frames.{as_u32}
use jadedb.Wal.{record_bytes, decode_record, magic_number}

-- The lengths fit their four bytes, and the sequence number is a u64.
pub record IsStorable (r : Record) : Type 0 where
  pub short : length r.0.user_key + length r.1 + 21 ≤ u32_max
  pub seq_fits : IsU64 r.0.seq

pub length-record_bytes :
    (r : Record) → length (record_bytes r) ≡ length r.0.user_key + length r.1 + 21
unfolding record_bytes
length-record_bytes (key, value) =
    let u = key.user_key in
    let klen = as_u32 (length u) in
    let vlen = as_u32 (length value) in
    let tail = to_le 4 vlen ++ value in
    let rest = to_le 8 key.seq ++ (as_u8 key.kind ∷ tail) in
    omega (
      arith,
      length-append (to_le 4 magic_number) (to_le 4 klen ++ (u ++ rest)),
      length-append (to_le 4 klen) (u ++ rest),
      length-append u rest,
      length-append (to_le 8 key.seq) (as_u8 key.kind ∷ tail),
      length-append (to_le 4 vlen) value,
      length-to_le 4 magic_number,
      length-to_le 4 klen,
      length-to_le 8 key.seq,
      length-to_le 4 vlen,
    )

-- Reading back a record that fits the log gives the key and the value that were written.
pub decode_record-record_bytes : (r : Record) → IsStorable r → decode_record (record_bytes r) ≡ ok r
unfolding decode_record
decode_record-record_bytes (key, value) h =
    let rec = record_bytes (key, value) in
    let u = key.user_key in
    let klen : as_u32 (length u) ≡ length u = omega (arith, h.short) in
    let vlen : as_u32 (length value) ≡ length value = omega (arith, h.short) in
    let size = length-record_bytes (key, value) in
    let layout : rec
        ≡ to_le 4 magic_number
          ++ (to_le 4 (length u)
              ++ (u ++ (to_le 8 key.seq ++ (as_u8 key.kind ∷ (to_le 4 (length value) ++ value))))) =
      unfold record_bytes in rw (klen, vlen) in
    let c0 = subst (At rec 0) layout (At-start rec) in
    let c1 = At-past 4 magic_number _ c0 in
    let c2 = At-past 4 (length u) _ c1 in
    let c3 = At-skip u _ (length u) c2 refl in
    let c4 = At-past 8 key.seq _ c3 in
    let c5 = At-skip (as_u8 key.kind ∷ []) _ 1 c4 refl in
    let c6 = At-past 4 (length value) _ c5 in
    let fits : 8 + length u + 8 + 1 + 4 ≤ length rec = omega (arith, size) in
    let end : 8 + length u + 8 + 1 + 4 + length value ≡ length rec = omega (arith, size) in
    rw (
      le→leb 21 (length rec) (omega (arith, size)),
      At-read 4 magic_number _ c0 (omega arith),
      At-read 4 (length u) _ c1 (omega (arith, h.short)),
      le→leb (8 + length u + 8 + 1 + 4) (length rec) fits,
      At-slice u _ (length u) c2 refl,
      At-read 8 key.seq _ c3 (omega (arith, h.seq_fits)),
      At-index (as_u8 key.kind) _ c4,
      from_u8-as_u8 key.kind,
      At-read 4 (length value) _ c5 (omega (arith, h.short)),
      (==_iff _ _).1 end,
      At-slice_end (length value) c6 refl,
    )

-- On any bytes at all, `decode_record` does not panic.
pub decode_record-ne-panic : (rec : List ℕ) → decode_record rec ≢ panic
unfolding decode_record
decode_record-ne-panic rec = guard-ne-panic _ _ _ λ g.
    let long : 21 ≤ length rec = leb→le 21 _ g in
    >>=-ne-panic _ _ (read_le-ne-panic 4 rec 0 (omega arith)) λ magic _.
      guard-ne-panic (magic == magic_number) _ _ λ _.
        >>=-ne-panic _ _ (read_le-ne-panic 4 rec 4 (omega arith)) λ klen _.
          guard-ne-panic _ _ _ λ g'.
            let room : 8 + klen + 8 + 1 + 4 ≤ length rec = leb→le (8 + klen + 8 + 1 + 4) _ g' in
            >>=-ne-panic _ _ (slice-ne-panic rec 8 klen (omega arith)) λ user_key _.
              >>=-ne-panic _ _ (read_le-ne-panic 8 rec (8 + klen) (omega arith)) λ seq _.
                >>=-ne-panic _ _ (index-ne-panic rec (8 + klen + 8) (omega arith)) λ byte _.
                  ok_or-ne-panic (from_u8 byte) _ _ λ kind.
                    >>=-ne-panic _ _ (read_le-ne-panic 4 rec (8 + klen + 8 + 1) (omega arith))
                      λ vlen _. guard-ne-panic _ _ _ λ g''.
                        let whole : 8 + klen + 8 + 1 + 4 + vlen ≡ length rec =
                          (==_iff (8 + klen + 8 + 1 + 4 + vlen) (length rec)).0 g'' in
                        >>=-ne-panic _ _
                          (slice-ne-panic rec (8 + klen + 8 + 1 + 4) vlen (omega arith))
                          λ value _. ok-ne-panic _
