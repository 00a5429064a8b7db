-- ===== src/Tests/Manifests.antt =====
-- The manifest, whole, cut and with a short edit.
use jadedb.Common.{◌≡◌, refl, sym, some, arith, List, [], ◌∷◌, ◌++◌, All}
use jadedb.Common.{take, drop, take-append-drop}
use jadedb.Common.Result.{ok, panic}
use jadedb.Options.{always}
use jadedb.Frames.{frame}
use jadedb.Manifest
use jadedb.Manifest.{FileMeta, ManifestEdit, add_file, delete_file, set_next_file_num, set_last_seq}
use jadedb.Manifest.{create, log, encode_edit, decode_edit, apply_edits, empty_state, recover}
use jadedb.Manifest.Codec.{IsEncodable, decode_edit-encode_edit}
use jadedb.Manifest.Recover.{edit_bytes, recover-log, recover_cut_manifest, recover_short_edit}
use jadedb.Tests.Data.{checksum, checksum-IsU32, key_a, key_b}

abbrev file_7 : FileMeta
file_7 = record { file_num = 7; level = 0; smallest = key_a; largest = key_b; file_size = 300 }

abbrev edits : List ManifestEdit
edits = add_file file_7 ∷ set_next_file_num 8 ∷ set_last_seq 3 ∷ []

edits_fit : All IsEncodable edits
edits_fit = omega arith

last_fits : All IsEncodable (delete_file 0 7 ∷ [])
last_fits = omega arith

apply_run :
    apply_edits empty_state (edits ++ (delete_file 0 7 ∷ []))
    ≡ record { files = []; next_file_num = 8; last_seq = 3 }
unfolding apply_edits Manifest.apply_edit
apply_run = refl

decode_edit-encode_edit_example : decode_edit (encode_edit (add_file file_7)) ≡ ok (add_file file_7)
decode_edit-encode_edit_example = decode_edit-encode_edit (add_file file_7) edits_fit.0

recover-log_example :
    recover checksum (some (log checksum (create always) edits).content)
    ≡ ok (apply_edits empty_state edits)
recover-log_example = recover-log checksum checksum-IsU32 always edits edits_fit

recover_cut_manifest_example :
    (more : List ManifestEdit) × (lost : List ManifestEdit) × (delete_file 0 7 ∷ [] ≡ more ++ lost)
    × (recover checksum
          (some (edit_bytes checksum edits ++ take 9 (edit_bytes checksum (delete_file 0 7 ∷ []))))
        ≡ ok (apply_edits empty_state (edits ++ more)))
recover_cut_manifest_example =
    recover_cut_manifest checksum checksum-IsU32 edits (delete_file 0 7 ∷ [])
      (take 9 (edit_bytes checksum (delete_file 0 7 ∷ [])))
      (drop 9 (edit_bytes checksum (delete_file 0 7 ∷ []))) edits_fit last_fits
      (sym (take-append-drop 9 (edit_bytes checksum (delete_file 0 7 ∷ []))))

recover_short_edit_example :
    recover checksum (some (edit_bytes checksum edits ++ (frame checksum (3 ∷ 5 ∷ []) ++ [])))
    ≡ panic
recover_short_edit_example =
    recover_short_edit checksum checksum-IsU32 edits 3 (5 ∷ []) [] edits_fit (omega arith)
      (omega arith) (omega arith)
