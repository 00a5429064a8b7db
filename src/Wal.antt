-- ===== src/Wal.antt =====
-- src/wal.rs: the write-ahead log. The file is its bytes, and how many of them are durable; its
-- path, and errors of the operating system, are left out.
pub mod Codec
pub mod Recover
pub mod Sync
use jadedb.Common.{ℕ, ◌+◌, ◌*◌, ◌==◌, Option, none, some, List, [], ◌∷◌, ◌++◌, length, leb}
use jadedb.Common.{if◌then◌else◌}
use jadedb.Common.Words.{to_le}
use jadedb.Common.Cursor.{read_le, index}
use jadedb.Common.Result.{Result, ok, corruption, guard, ok_or, slice, ◌>>=◌, ◌>>◌}
use jadedb.Options.{FsyncMode, always, batch, never}
use jadedb.Key.{InternalKey, as_u8, from_u8, Record}
use jadedb.Frames.{as_u32, frame, scan}

-- "JADE"
abbrev pub magic_number : ℕ
magic_number = 0x4A41_4445

pub record Wal : Type 0 where
  pub content : List ℕ
  pub synced : ℕ
  pub fsync : FsyncMode
  pub pending : ℕ
  pub batch_bytes : ℕ

-- `Wal::create` truncates the file.
abbrev pub create : FsyncMode → Wal
create fsync = record {
  content = [];
  synced = 0;
  fsync = fsync;
  pending = 0;
  batch_bytes = 256 * 1024;
}

-- `Wal::open_append` keeps what the file holds, of which `durable` bytes are durable: it syncs nothing.
unfoldable pub open_append : List ℕ → ℕ → FsyncMode → Wal
open_append content durable fsync = record {
  content = content;
  synced = durable;
  fsync = fsync;
  pending = 0;
  batch_bytes = 256 * 1024;
}

-- the bytes of one record
unfoldable pub record_bytes : Record → List ℕ
record_bytes (key, value) =
    to_le 4 magic_number
    ++ (to_le 4 (as_u32 (length key.user_key))
        ++ (key.user_key
            ++ (to_le 8 key.seq ++ (as_u8 key.kind ∷ (to_le 4 (as_u32 (length value)) ++ value)))))

-- `sync_all` makes all that was written durable.
abbrev pub sync_all : Wal → Wal
sync_all w = record w { synced = length w.content }

-- the `match self.fsync` at the end of `append`
unfoldable pub sync_append : Wal → FsyncMode → Wal
sync_append w always = sync_all w
sync_append w batch = if leb w.batch_bytes w.pending then record (sync_all w) { pending = 0 } else w
sync_append w never = w

-- `Wal::sync`
unfoldable pub sync : Wal → Wal
sync w = elim w.fsync [
  | always ↦ record (sync_all w) { pending = 0 }
  | batch ↦ record (sync_all w) { pending = 0 }
  | never ↦ w
]

unfoldable pub decode_record : List ℕ → Result Record
decode_record rec = do
  guard (leb (4 + 4 + 8 + 1 + 4) (length rec)) (corruption "wal record too short" [])
  magic ← read_le 4 rec 0
  guard (magic == magic_number) (corruption "wal bad magic" [])
  klen ← read_le 4 rec 4
  guard (leb (8 + klen + 8 + 1 + 4) (length rec)) (corruption "wal key truncated" [])
  user_key ← slice rec 8 klen
  seq ← read_le 8 rec (8 + klen)
  byte ← index rec (8 + klen + 8)
  kind ← ok_or (from_u8 byte) (corruption "wal kind" [])
  vlen ← read_le 4 rec (8 + klen + 8 + 1)
  guard (8 + klen + 8 + 1 + 4 + vlen == length rec) (corruption "wal value length" [])
  value ← slice rec (8 + klen + 8 + 1 + 4) vlen
  ok (record { user_key = user_key; seq = seq; kind = kind }, value)

-- what the loop of `recover` does with a record
abbrev pub recover_step : List Record → List ℕ → Result (List Record)
recover_step out rec = do entry ← decode_record rec; ok (out ++ (entry ∷ []))

module _ (crc32 : List ℕ → ℕ) where
  unfoldable pub append : Wal → InternalKey → List ℕ → Wal
  append w key value =
      let rec = record_bytes (key, value) in
      sync_append
        (record w {
          content = w.content ++ frame crc32 rec;
          pending = w.pending + (length rec + 8);
        })
        w.fsync

  -- `Wal::recover`, on the bytes of the file if there is one
  unfoldable pub recover : Option (List ℕ) → Result (List Record)
  recover none = ok []
  recover (some buf) = scan crc32 "wal checksum mismatch" recover_step (length buf + 1) buf 0 []
