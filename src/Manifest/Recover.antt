-- ===== src/Manifest/Recover.antt =====
-- What recovery makes of the manifest, whole, cut short by a crash, or holding a short edit.
use jadedb.Common.{
  ℕ, ◌≤◌, ◌<◌, ◌≡◌, ◌≢◌, refl, sym, ap, ◌∙◌, subst, arith, map, map_append, map_split,
}
use jadedb.Common.{
  some, List, [], ◌∷◌, ◌++◌, append_assoc, append-nil, length, All, All-append, All-split,
}
use jadedb.Common.{length-append}
use jadedb.Common.Words.{IsU32, length-to_le, to_le}
use jadedb.Common.Result.{ok, panic}
use jadedb.Options.{FsyncMode, never}
use jadedb.Frames.{frame, frames, run}
use jadedb.Frames.Scan.{scan-frame}
use jadedb.Frames.Cut.{scan-cut, scan_whole, scan_then, Stops-nil}
use jadedb.Manifest.{Manifest, ManifestEdit, RecoveredState, empty_state, create, write_edits, log}
use jadedb.Manifest.{add_file, delete_file, set_next_file_num, set_last_seq}
use jadedb.Manifest.{encode_edit, apply_edit, apply_edits, recover, recover_step}
use jadedb.Manifest.Codec.{IsEncodable, decode_edit-encode_edit, decode_edit_short}

run-recover_step :
    (es : List ManifestEdit) (s : RecoveredState)
    → All IsEncodable es
    → run recover_step (map encode_edit es) s ≡ ok (apply_edits s es)
unfolding run apply_edits
run-recover_step [] s h = refl
run-recover_step (e ∷ es) s h =
    rw (decode_edit-encode_edit e h.0) (run-recover_step es (apply_edit s e) h.1)

edit_fits : (e : ManifestEdit) → IsEncodable e → IsU32 (length (encode_edit e))
unfolding encode_edit
edit_fits (add_file m) h = simp (length-append, length-to_le) (omega (arith, h.short))
edit_fits (delete_file level file_num) h = omega (
  arith,
  length-append (to_le 4 level) (to_le 8 file_num),
  length-to_le 4 level,
  length-to_le 8 file_num,
)
edit_fits (set_next_file_num n) h = omega (arith, length-to_le 8 n)
edit_fits (set_last_seq n) h = omega (arith, length-to_le 8 n)

edits_fit :
    (es : List ManifestEdit)
    → All IsEncodable es
    → All (λ bytes. IsU32 (length bytes)) (map encode_edit es)
edits_fit [] h = tt
edits_fit (e ∷ es) h = (edit_fits e h.0, edits_fit es h.1)

module _ (crc32 : List ℕ → ℕ) where
  -- the manifest of some edits, and a manifest after several calls of `log`
  unfoldable pub edit_bytes : List ManifestEdit → List ℕ
  edit_bytes es = frames crc32 (map encode_edit es)

  write_edits-edit_bytes :
      (content : List ℕ) (es : List ManifestEdit)
      → write_edits crc32 content es ≡ content ++ edit_bytes es
  unfolding write_edits edit_bytes frames
  write_edits-edit_bytes content [] = sym (append-nil content)
  write_edits-edit_bytes content (e ∷ es) =
      write_edits-edit_bytes (content ++ frame crc32 (encode_edit e)) es
      ∙ append_assoc content (frame crc32 (encode_edit e)) (edit_bytes es)

  -- `log` appends the edits, and makes them durable unless the mode is `never`.
  pub log_lem :
      (m : Manifest) (es : List ManifestEdit)
      → ((log crc32 m es).content ≡ m.content ++ edit_bytes es)
        × (m.fsync ≢ never → (log crc32 m es).synced ≡ length (m.content ++ edit_bytes es))
  unfolding log
  log_lem m es = let p = write_edits-edit_bytes m.content es in ground (arith, p)

module _ (crc32 : List ℕ → ℕ) (crc-IsU32 : (bytes : List ℕ) → IsU32 (crc32 bytes)) where
  -- If the edits fit their fields, recovering the manifest that they were logged to gives the
  -- state after all of them.
  pub recover-log :
      (mode : FsyncMode) (es : List ManifestEdit)
      → All IsEncodable es
      → recover crc32 (some (log crc32 (create mode) es).content) ≡ ok (apply_edits empty_state es)
  recover-log mode es h =
      let scanned : recover crc32 (some (edit_bytes crc32 es ++ []))
          ≡ run recover_step (map encode_edit es) empty_state =
        unfold recover edit_bytes in
        scan_whole crc32 crc-IsU32 "manifest checksum" recover_step (map encode_edit es) []
          empty_state (edits_fit es h)
          (Stops-nil crc32 crc-IsU32 "manifest checksum" recover_step) in
      ap (λ c. recover crc32 (some c))
        ((log_lem crc32 (create mode) es).0 ∙ sym (append-nil (edit_bytes crc32 es)))
      ∙ scanned
      ∙ run-recover_step es empty_state h

  -- After a crash that kept the bytes of the edits `kept` and any beginning `torn` of the bytes of
  -- the edits `later`, all of which fit their fields, recovery gives the state after all of `kept`
  -- and some of the first of `later`.
  pub recover_cut_manifest :
      (kept later : List ManifestEdit) (torn back : List ℕ)
      → All IsEncodable kept
      → All IsEncodable later
      → edit_bytes crc32 later ≡ torn ++ back
      → (more : List ManifestEdit) × (lost : List ManifestEdit) × (later ≡ more ++ lost)
        × (recover crc32 (some (edit_bytes crc32 kept ++ torn))
            ≡ ok (apply_edits empty_state (kept ++ more)))
  unfolding recover edit_bytes
  recover_cut_manifest kept later torn back hk hl e =
      let (xs, ys, p, scanned) =
        scan-cut crc32 crc-IsU32 "manifest checksum" recover_step (map encode_edit kept)
          (map encode_edit later) torn back empty_state (edits_fit kept hk) (edits_fit later hl)
          e in
      let (more, lost, q, u) = map_split encode_edit later xs ys p in
      let fits = (All-split IsEncodable more lost (subst (All IsEncodable) q hl)).0 in
      (
        more,
        lost,
        q,
        scanned
            ∙ ap (λ t. run recover_step (map encode_edit kept ++ t) empty_state) u
            ∙ ap (λ t. run recover_step t empty_state) (sym (map_append encode_edit kept more))
            ∙ run-recover_step (kept ++ more) empty_state
                (All-append IsEncodable kept more hk fits),
      )

  -- A manifest that holds, behind edits that fit their fields and with a right checksum, a known
  -- tag and fewer than eight bytes behind it makes recovery panic.
  pub recover_short_edit :
      (kept : List ManifestEdit) (tag : ℕ) (rest tail : List ℕ)
      → All IsEncodable kept
      → 1 ≤ tag
      → tag ≤ 4
      → length rest < 8
      → recover crc32 (some (edit_bytes crc32 kept ++ (frame crc32 (tag ∷ rest) ++ tail))) ≡ panic
  unfolding recover edit_bytes
  recover_short_edit kept tag rest tail hk lo hi short =
      let (fuel, at, scanned) =
        scan_then crc32 crc-IsU32 "manifest checksum" recover_step (map encode_edit kept)
          (frame crc32 (tag ∷ rest) ++ tail) empty_state (edits_fit kept hk) in
      let state = apply_edits empty_state kept in
      let round =
        (scan-frame crc32 crc-IsU32 "manifest checksum" recover_step fuel _ _ (tag ∷ rest) tail
          state at (omega arith)).1 in
      scanned
      ∙ rw (run-recover_step kept empty_state hk, round, decode_edit_short tag rest lo hi short)
