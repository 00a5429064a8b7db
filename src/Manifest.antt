-- ===== src/Manifest.antt =====
-- src/manifest.rs: the log of changes to the set of table files. The file is its bytes and how
-- many of them are durable; paths, and errors of the operating system, are left out.
pub mod Codec
pub mod Recover
use jadedb.Common.{
  ℕ, ◌+◌, ◌&&◌, not, Bool, ◌==◌, Option, none, some, List, [], ◌∷◌, ◌++◌, length, retain,
}
use jadedb.Common.{if◌then◌else◌}
use jadedb.Common.Words.{to_le}
use jadedb.Common.Cursor.{read_le}
use jadedb.Common.Result.{Result, ok, err, corruption, slice, ◌>>=◌}
use jadedb.Options.{FsyncMode, always, batch, never}
use jadedb.Frames.{as_u32, frame, scan}

pub record FileMeta : Type 0 where
  pub file_num : ℕ
  pub level : ℕ
  pub smallest : List ℕ
  pub largest : List ℕ
  pub file_size : ℕ

pub data ManifestEdit : Type 0 where
  add_file : FileMeta → ManifestEdit
  delete_file : ℕ → ℕ → ManifestEdit
  set_next_file_num : ℕ → ManifestEdit
  set_last_seq : ℕ → ManifestEdit

pub record Manifest : Type 0 where
  pub content : List ℕ
  pub synced : ℕ
  pub fsync : FsyncMode

-- `Manifest::create`
abbrev pub create : FsyncMode → Manifest
create fsync = record { content = []; synced = 0; fsync = fsync }

-- `Manifest::open`, on a file with `durable` durable bytes
unfoldable pub open_manifest : List ℕ → ℕ → FsyncMode → Manifest
open_manifest content durable fsync = record { content = content; synced = durable; fsync = fsync }

unfoldable pub encode_edit : ManifestEdit → List ℕ
encode_edit (add_file m) =
    1
    ∷ (to_le 8 m.file_num
        ++ (to_le 4 m.level
            ++ (to_le 4 (as_u32 (length m.smallest))
                ++ (m.smallest
                    ++ (to_le 4 (as_u32 (length m.largest))
                        ++ (m.largest ++ to_le 8 m.file_size))))))
encode_edit (delete_file level file_num) = 2 ∷ (to_le 4 level ++ to_le 8 file_num)
encode_edit (set_next_file_num n) = 3 ∷ to_le 8 n
encode_edit (set_last_seq s) = 4 ∷ to_le 8 s

-- the case 1 of `decode_edit`
unfoldable pub decode_add_file : List ℕ → Result ManifestEdit
decode_add_file b = do
  file_num ← read_le 8 b 1
  level ← read_le 4 b 9
  sl ← read_le 4 b 13
  smallest ← slice b 17 sl
  ll ← read_le 4 b (17 + sl)
  largest ← slice b (17 + sl + 4) ll
  file_size ← read_le 8 b (17 + sl + 4 + ll)
  ok (
      add_file (record {
        file_num = file_num;
        level = level;
        smallest = smallest;
        largest = largest;
        file_size = file_size;
      }))

-- the case 2
unfoldable pub decode_delete_file : List ℕ → Result ManifestEdit
decode_delete_file b = do
  level ← read_le 4 b 1
  file_num ← read_le 8 b 5
  ok (delete_file level file_num)

-- the `match b[0]`
unfoldable pub decode_tagged : ℕ → List ℕ → Result ManifestEdit
decode_tagged tag b =
    if tag == 1
    then decode_add_file b
    else if tag == 2
    then decode_delete_file b
    else if tag == 3
    then (do n ← read_le 8 b 1; ok (set_next_file_num n))
    else if tag == 4
    then (do s ← read_le 8 b 1; ok (set_last_seq s))
    else err (corruption "unknown edit {}" (tag ∷ []))

unfoldable pub decode_edit : List ℕ → Result ManifestEdit
decode_edit [] = err (corruption "empty edit" [])
decode_edit (tag ∷ rest) = decode_tagged tag (tag ∷ rest)

pub record RecoveredState : Type 0 where
  pub files : List FileMeta
  pub next_file_num : ℕ
  pub last_seq : ℕ

-- `RecoveredState::default`
abbrev pub empty_state : RecoveredState
empty_state = record { files = []; next_file_num = 0; last_seq = 0 }

-- `f.level == level && f.file_num == file_num`
abbrev pub is_file : ℕ → ℕ → FileMeta → Bool
is_file level file_num f = f.level == level && f.file_num == file_num

unfoldable pub apply_edit : RecoveredState → ManifestEdit → RecoveredState
apply_edit s (add_file m) = record s { files = s.files ++ (m ∷ []) }
apply_edit s (delete_file level file_num) = record s {
  files = retain (λ f. not (is_file level file_num f)) s.files;
}
apply_edit s (set_next_file_num n) = record s { next_file_num = n }
apply_edit s (set_last_seq n) = record s { last_seq = n }

-- the effect of several edits, in order
unfoldable pub apply_edits : RecoveredState → List ManifestEdit → RecoveredState
apply_edits s [] = s
apply_edits s (e ∷ es) = apply_edits (apply_edit s e) es

-- what the loop of `recover` does with a record
abbrev pub recover_step : RecoveredState → List ℕ → Result RecoveredState
recover_step state rec = do edit ← decode_edit rec; ok (apply_edit state edit)

module _ (crc32 : List ℕ → ℕ) where
  -- the loop of `Manifest::log`
  unfoldable pub write_edits : List ℕ → List ManifestEdit → List ℕ
  write_edits content [] = content
  write_edits content (e ∷ es) = write_edits (content ++ frame crc32 (encode_edit e)) es

  -- `Manifest::log`: all edits are written, and then made durable unless the mode is `never`.
  unfoldable pub log : Manifest → List ManifestEdit → Manifest
  log m edits =
      let content = write_edits m.content edits in
      record m {
        content = content;
        synced = elim m.fsync [
          | always ↦ length content
          | batch ↦ length content
          | never ↦ m.synced
        ];
      }

  -- `Manifest::recover`, on the bytes of the file if there is one
  unfoldable pub recover : Option (List ℕ) → Result RecoveredState
  recover none = ok empty_state
  recover (some buf) =
      scan crc32 "manifest checksum" recover_step (length buf + 1) buf 0 empty_state
