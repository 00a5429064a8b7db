-- ===== src/Db/Compaction/Files.antt =====
-- The files of a version after a compaction are those that the manifest recovers to.
use jadedb.Common.{◌≡◌, refl, List, [], ◌∷◌}
use jadedb.Manifest.{
  ManifestEdit, add_file, delete_file, set_next_file_num, set_last_seq, RecoveredState, apply_edit,
  apply_edits,
}
use jadedb.Db.Compaction.{edit_files}

-- The edits that `maybe_compact` applies in memory change the files as the recovery of the manifest
-- does, from any state and for any edits.
pub edit_files-apply_edits :
    (state : RecoveredState) (edits : List ManifestEdit)
    → edit_files state.files edits ≡ (apply_edits state edits).files
unfolding edit_files apply_edits apply_edit
edit_files-apply_edits state [] = refl
edit_files-apply_edits state (add_file m ∷ edits) =
    edit_files-apply_edits (apply_edit state (add_file m)) edits
edit_files-apply_edits state (delete_file level n ∷ edits) =
    edit_files-apply_edits (apply_edit state (delete_file level n)) edits
edit_files-apply_edits state (set_next_file_num n ∷ edits) =
    edit_files-apply_edits (apply_edit state (set_next_file_num n)) edits
edit_files-apply_edits state (set_last_seq n ∷ edits) =
    edit_files-apply_edits (apply_edit state (set_last_seq n)) edits
