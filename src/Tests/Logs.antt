-- ===== src/Tests/Logs.antt =====
-- The write-ahead log, whole, cut and damaged.
use jadedb.Common.{ℕ, ◌≤◌, ◌≡◌, ◌≢◌, refl, sym, some, arith, List, [], ◌∷◌, ◌++◌, All, length}
use jadedb.Common.{take, drop, take-append-drop, append-nil}
use jadedb.Common.Words.{to_le, from_le}
use jadedb.Common.Cursor.{read_le, index}
use jadedb.Common.Result.{ok, err, panic, corruption, slice}
use jadedb.Options.{always, batch}
use jadedb.Key.{Record, from_u8}
use jadedb.Frames.{frame, frames, scan}
use jadedb.Wal.{
  Wal, create, open_append, sync_append, sync, record_bytes, decode_record, append, recover,
}
use jadedb.Wal.Codec.{IsStorable, decode_record-record_bytes}
use jadedb.Wal.Recover.{append_all, log_bytes, recover-append_all, recover_crash, recover-ne-panic}
use jadedb.Wal.Recover.{recover_append_after_crash}
use jadedb.Wal.Sync.{IsSynced, append-IsSynced, recover_always, recover_synced}
use jadedb.Tests.Data.{checksum, checksum-IsU32, write_1, write_2, write_3}

two_writes : All IsStorable (write_1 ∷ write_2 ∷ [])
two_writes = omega arith

one_write : All IsStorable (write_3 ∷ [])
one_write = omega arith

-- The unit test of wal.rs.
recover_run :
    recover checksum (some (append_all checksum (create always) (write_1 ∷ write_2 ∷ [])).content)
    ≡ ok (write_1 ∷ write_2 ∷ [])
unfolding recover append_all append sync_append record_bytes frame scan decode_record read_le slice
    index from_u8 to_le from_le checksum
recover_run = refl

recover-append_all_example :
    recover checksum (some (append_all checksum (create batch) (write_1 ∷ write_2 ∷ [])).content)
    ≡ ok (write_1 ∷ write_2 ∷ [])
recover-append_all_example =
    recover-append_all checksum checksum-IsU32 batch (write_1 ∷ write_2 ∷ []) two_writes

decode_record-record_bytes_example : decode_record (record_bytes write_1) ≡ ok write_1
decode_record-record_bytes_example = decode_record-record_bytes write_1 two_writes.0

recover-ne-panic_example : recover checksum (some (1 ∷ 0 ∷ 0 ∷ 0 ∷ 9 ∷ 0 ∷ 0 ∷ 0 ∷ 9 ∷ [])) ≢ panic
recover-ne-panic_example = recover-ne-panic checksum (some (1 ∷ 0 ∷ 0 ∷ 0 ∷ 9 ∷ 0 ∷ 0 ∷ 0 ∷ 9 ∷ []))

recover_crash_example :
    (more : List Record) × (lost : List Record) × (write_3 ∷ [] ≡ more ++ lost)
    × (recover checksum (
          some (
            log_bytes checksum (write_1 ∷ write_2 ∷ [])
            ++ take 20 (log_bytes checksum (write_3 ∷ []))))
        ≡ ok ((write_1 ∷ write_2 ∷ []) ++ more))
recover_crash_example =
    recover_crash checksum checksum-IsU32 (write_1 ∷ write_2 ∷ []) (write_3 ∷ [])
      (take 20 (log_bytes checksum (write_3 ∷ []))) (drop 20 (log_bytes checksum (write_3 ∷ [])))
      two_writes one_write (sym (take-append-drop 20 (log_bytes checksum (write_3 ∷ []))))

append-IsSynced_example : IsSynced (append checksum (create batch) write_1.0 write_1.1)
append-IsSynced_example =
    append-IsSynced checksum checksum-IsU32 (create batch) write_1.0 write_1.1 (omega arith)
      (record {
        in_file = omega arith;
        counted = λ _. omega arith;
        whole = λ _. refl;
        batched = λ _. omega arith;
      })

abbrev always_log : Wal
always_log = append_all checksum (create always) (write_1 ∷ write_2 ∷ [])

always_durable : always_log.synced ≤ length always_log.content
unfolding append_all append sync_append
always_durable = omega arith

recover_always_example : recover checksum (some always_log.content) ≡ ok (write_1 ∷ write_2 ∷ [])
recover_always_example =
    recover_always checksum checksum-IsU32 (write_1 ∷ write_2 ∷ []) always_log.content [] two_writes
      (sym (append-nil always_log.content)) always_durable

abbrev batch_log : Wal
batch_log =
    append_all checksum (sync (append_all checksum (create batch) (write_1 ∷ write_2 ∷ [])))
      (write_3 ∷ [])

-- The last write is not durable yet, and the crash loses a part of it.
batch_durable : batch_log.synced ≤ length (take 85 batch_log.content)
unfolding append_all append sync sync_append record_bytes frame to_le checksum
batch_durable = omega arith

recover_synced_example :
    (more : List Record) × (lost : List Record) × (write_3 ∷ [] ≡ more ++ lost)
    × (recover checksum (some (take 85 batch_log.content)) ≡ ok ((write_1 ∷ write_2 ∷ []) ++ more))
recover_synced_example =
    recover_synced checksum checksum-IsU32 batch (write_1 ∷ write_2 ∷ []) (write_3 ∷ [])
      (take 85 batch_log.content) (drop 85 batch_log.content) (λ e. cc) two_writes one_write
      (sym (take-append-drop 85 batch_log.content)) batch_durable

-- The crash cut the last three bytes of the first write, and two writes follow.
abbrev cut : List ℕ
cut = take 20 (record_bytes write_1)

filler_differs :
    checksum (
      cut
      ++ take
          (length (drop 20 (record_bytes write_1)))
          (log_bytes checksum (write_2 ∷ write_3 ∷ [])))
    ≢ checksum (record_bytes write_1)
unfolding record_bytes log_bytes frames frame to_le checksum
filler_differs = omega arith

filler_long :
    length (drop 20 (record_bytes write_1)) ≤ length (log_bytes checksum (write_2 ∷ write_3 ∷ []))
unfolding record_bytes log_bytes frames frame to_le checksum
filler_long = omega arith

abbrev reopened : Wal
reopened =
    append_all checksum
      (open_append
        (log_bytes checksum []
          ++ (to_le 4 (length (record_bytes write_1))
              ++ (to_le 4 (checksum (record_bytes write_1)) ++ cut)))
        20 always)
      (write_2 ∷ write_3 ∷ [])

recover_append_after_crash_example :
    recover checksum (some reopened.content) ≡ err (corruption "wal checksum mismatch" [])
recover_append_after_crash_example =
    recover_append_after_crash checksum checksum-IsU32 [] (write_2 ∷ write_3 ∷ []) write_1 cut
      (drop 20 (record_bytes write_1)) 20 always tt two_writes.0
      (sym (take-append-drop 20 (record_bytes write_1))) filler_long filler_differs
