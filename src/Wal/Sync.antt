-- ===== src/Wal/Sync.antt =====
-- What is durable after `append` and `sync` in each fsync mode.
use jadedb.Common.{ℕ, ◌+◌, ◌≤◌, ◌<◌, ◌≡◌, ◌≢◌, refl, sym, ap, ◌∙◌, arith, some}
use jadedb.Common.{List, [], ◌∷◌, ◌++◌, append-nil, length, length-append, All}
use jadedb.Common.Words.{IsU32}
use jadedb.Common.Result.{ok}
use jadedb.Options.{FsyncMode, always, batch, never}
use jadedb.Key.{InternalKey, Record}
use jadedb.Frames.{frame}
use jadedb.Frames.Torn.{append-split}
use jadedb.Wal.{Wal, create, sync_append, sync, record_bytes, append, recover}
use jadedb.Wal.Codec.{IsStorable}
use jadedb.Wal.Recover.{
  append_all, log_bytes, content-append_all, recover_crash, recover-append_all,
}
use jadedb.Frames.Scan.{length-frame}

-- The durable bytes are bytes of the file. What is not durable yet is counted by `pending`; with
-- `always` there is nothing of it, and with `batch` it is less than a batch.
pub record IsSynced (w : Wal) : Type 0 where
  pub in_file : w.synced ≤ length w.content
  pub counted : w.fsync ≢ never → length w.content ≤ w.synced + w.pending
  pub whole : w.fsync ≡ always → w.synced ≡ length w.content
  pub batched : w.fsync ≡ batch → w.pending < w.batch_bytes

create-IsSynced : (mode : FsyncMode) → IsSynced (create mode)
create-IsSynced mode = record {
  in_file = omega arith;
  counted = λ _. omega arith;
  whole = λ _. refl;
  batched = λ _. omega arith;
}

module _ (crc32 : List ℕ → ℕ) (crc-IsU32 : (bytes : List ℕ) → IsU32 (crc32 bytes)) where
  -- `append` keeps the invariant of the bytes that are durable, in each of the three modes, if the
  -- size of a batch is positive.
  pub append-IsSynced :
      (w : Wal) (k : InternalKey) (v : List ℕ)
      → 0 < w.batch_bytes
      → IsSynced w
      → IsSynced (append crc32 w k v)
  unfolding append sync_append
  append-IsSynced w k v b h =
      let rec = record_bytes (k, v) in
      let size = length-append w.content (frame crc32 rec) in
      let added = length-frame crc32 crc-IsU32 rec in ground (arith, size, added)

  append_all-IsSynced :
      (w : Wal) (rs : List Record)
      → 0 < w.batch_bytes
      → IsSynced w
      → IsSynced (append_all crc32 w rs) × ((append_all crc32 w rs).fsync ≡ w.fsync)
  unfolding append_all
  append_all-IsSynced w [] b h = (h, refl)
  append_all-IsSynced w ((k, v) ∷ rs) b h =
      let (same, size) = append_settings w k v in
      let (rest, mode) =
        append_all-IsSynced (append crc32 w k v) rs (rw size b) (append-IsSynced w k v b h) in
      (rest, mode ∙ same)
    where
      append_settings :
          (w : Wal) (k : InternalKey) (v : List ℕ)
          → ((append crc32 w k v).fsync ≡ w.fsync)
            × ((append crc32 w k v).batch_bytes ≡ w.batch_bytes)
      append_settings w k v = unfold append sync_append in ground arith

  -- What is durable stays durable.
  synced-append_all :
      (w : Wal) (rs : List Record)
      → w.synced ≤ length w.content
      → w.synced ≤ (append_all crc32 w rs).synced
  unfolding append_all
  synced-append_all w [] h = omega arith
  synced-append_all w ((k, v) ∷ rs) h =
      let (grows, inside) = step w k v h in
      omega (arith, grows, synced-append_all (append crc32 w k v) rs inside)
    where
      step :
          (w : Wal) (k : InternalKey) (v : List ℕ)
          → w.synced ≤ length w.content
          → (w.synced ≤ (append crc32 w k v).synced)
            × ((append crc32 w k v).synced ≤ length (append crc32 w k v).content)
      step w k v h =
          let size = length-append w.content (frame crc32 (record_bytes (k, v))) in
          unfold append sync_append in ground (arith, size)

  -- `sync` makes the whole file durable, unless the mode is `never`.
  pub synced-sync :
      (w : Wal)
      → w.fsync ≢ never
      → ((sync w).content ≡ w.content) × ((sync w).synced ≡ length w.content)
  unfolding sync
  synced-sync w h = ground arith

  -- In the mode `always` appended records that fit the log are all recovered from any beginning of
  -- the file that keeps its durable bytes.
  pub recover_always :
      (rs : List Record) (image back : List ℕ)
      → All IsStorable rs
      → (append_all crc32 (create always) rs).content ≡ image ++ back
      → (append_all crc32 (create always) rs).synced ≤ length image
      → recover crc32 (some image) ≡ ok rs
  recover_always rs image back h e kept =
      let w = append_all crc32 (create always) rs in
      let (valid, mode) =
        append_all-IsSynced (create always) rs (omega arith) (create-IsSynced always) in
      let durable = valid.whole mode in
      let nothing : back ≡ [] =
        none_left back (omega (arith, durable, ap length e, length-append image back)) in
      ap (λ c. recover crc32 (some c))
        (sym (append-nil image) ∙ ap (λ t. image ++ t) (sym nothing) ∙ sym e)
      ∙ recover-append_all crc32 crc-IsU32 always rs h
    where
      none_left : (back : List ℕ) → length back ≤ 0 → back ≡ []
      none_left [] l = refl
      none_left (x ∷ back) l = absurd (omega arith)

  -- In a mode other than `never`, records appended before a `sync` are recovered from any
  -- beginning of the file that keeps its durable bytes, whatever was appended later; of the later
  -- records some of the first are recovered too. All records fit the log.
  pub recover_synced :
      (mode : FsyncMode) (kept later : List Record) (image back : List ℕ)
      → mode ≢ never
      → All IsStorable kept
      → All IsStorable later
      → (append_all crc32 (sync (append_all crc32 (create mode) kept)) later).content
        ≡ image ++ back
      → (append_all crc32 (sync (append_all crc32 (create mode) kept)) later).synced ≤ length image
      → (more : List Record) × (lost : List Record) × (later ≡ more ++ lost)
        × (recover crc32 (some image) ≡ ok (kept ++ more))
  recover_synced mode kept later image back on hk hl e durable =
      let w₀ = append_all crc32 (create mode) kept in
      let same = (append_all-IsSynced (create mode) kept (omega arith) (create-IsSynced mode)).1 in
      let (content, synced) = synced-sync w₀ (λ off. on (sym same ∙ off)) in
      let first : (sync w₀).content ≡ log_bytes crc32 kept =
        content ∙ content-append_all crc32 (create mode) kept in
      let inside : (sync w₀).synced ≤ length (sync w₀).content =
        omega (arith, synced, ap length content) in
      let all : log_bytes crc32 kept ++ log_bytes crc32 later ≡ image ++ back =
        sym (content-append_all crc32 (sync w₀) later ∙ ap (λ t. t ++ log_bytes crc32 later) first)
        ∙ e in
      let reach : length (log_bytes crc32 kept) ≤ length image = omega (
        arith,
        synced,
        ap length content,
        ap length first,
        synced-append_all (sync w₀) later inside,
        durable,
      ) in
      let (torn, front, rest) =
        append-split (log_bytes crc32 kept) (log_bytes crc32 later) image back all reach in
      let (more, lost, split, recovered) =
        recover_crash crc32 crc-IsU32 kept later torn back hk hl rest in
      (more, lost, split, ap (λ c. recover crc32 (some c)) front ∙ recovered)
