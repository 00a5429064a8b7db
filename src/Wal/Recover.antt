-- ===== src/Wal/Recover.antt =====
-- What recovery makes of the log, whole, cut short or damaged.
use jadedb.Common.{
  ℕ, ◌+◌, ◌≤◌, ◌≡◌, ◌≢◌, sym, ap, ◌∙◌, subst, arith, map, map_append, map_split, Option, none, some,
}
use jadedb.Common.{
  List, [], ◌∷◌, ◌++◌, append_assoc, append-nil, length, length-append, length-take, All,
  All-append, All-split, take, drop, take-append-drop,
}
use jadedb.Common.Words.{to_le, IsU32}
use jadedb.Common.Result.{ok, err, panic, corruption, >>=-ne-panic, ok-ne-panic}
use jadedb.Options.{FsyncMode}
use jadedb.Key.{InternalKey, Record}
use jadedb.Frames.{frame, frames, run}
use jadedb.Frames.Torn.{scan_mismatch, scan-ne-panic}
use jadedb.Frames.Cut.{scan-cut, scan_whole, scan_then, Stops-nil}
use jadedb.Wal.{
  Wal, create, open_append, sync_append, record_bytes, decode_record, append, recover, recover_step,
}
use jadedb.Wal.Codec.{
  IsStorable, length-record_bytes, decode_record-record_bytes, decode_record-ne-panic,
}

run-recover_step :
    (rs : List Record) (out : List Record)
    → All IsStorable rs
    → run recover_step (map record_bytes rs) out ≡ ok (out ++ rs)
unfolding run
run-recover_step [] out h = ap ok (sym (append-nil out))
run-recover_step (r ∷ rs) out h =
    rw (decode_record-record_bytes r h.0)
      (run-recover_step rs (out ++ (r ∷ [])) h.1 ∙ ap ok (append_assoc out (r ∷ []) rs))

bytes_fit :
    (rs : List Record)
    → All IsStorable rs
    → All (λ bytes. IsU32 (length bytes)) (map record_bytes rs)
bytes_fit [] h = tt
bytes_fit (r ∷ rs) h = (omega (arith, length-record_bytes r, h.0.short), bytes_fit rs h.1)

append_assoc_four : (a b c d e : List ℕ) → (a ++ (b ++ (c ++ d))) ++ e ≡ a ++ (b ++ (c ++ (d ++ e)))
append_assoc_four a b c d e = simp append_assoc

module _ (crc32 : List ℕ → ℕ) where
  -- the log of some records, and a log after several calls of `append`
  unfoldable pub log_bytes : List Record → List ℕ
  log_bytes rs = frames crc32 (map record_bytes rs)

  unfoldable pub append_all : Wal → List Record → Wal
  append_all w [] = w
  append_all w ((k, v) ∷ rs) = append_all (append crc32 w k v) rs

  pub content-append :
      (w : Wal) (k : InternalKey) (v : List ℕ)
      → (append crc32 w k v).content ≡ w.content ++ frame crc32 (record_bytes (k, v))
  unfolding append sync_append
  content-append w k v = ground arith

  pub content-append_all :
      (w : Wal) (rs : List Record) → (append_all w rs).content ≡ w.content ++ log_bytes rs
  unfolding append_all log_bytes frames
  content-append_all w [] = sym (append-nil w.content)
  content-append_all w ((k, v) ∷ rs) =
      content-append_all (append crc32 w k v) rs
      ∙ rw content-append
          (append_assoc w.content (frame crc32 (record_bytes (k, v))) (log_bytes rs))

-- On any file at all, `recover` returns records or an error and never panics, and its loop ends.
pub recover-ne-panic : (crc32 : List ℕ → ℕ) (file : Option (List ℕ)) → recover crc32 file ≢ panic
unfolding recover
recover-ne-panic crc32 none = ok-ne-panic []
recover-ne-panic crc32 (some buf) =
    scan-ne-panic crc32 "wal checksum mismatch" recover_step
      (λ out rec.
        >>=-ne-panic (decode_record rec) _ (decode_record-ne-panic rec) λ entry _. ok-ne-panic _)
      (length buf + 1) buf 0 [] (omega arith) (omega arith)

module _ (crc32 : List ℕ → ℕ) (crc-IsU32 : (bytes : List ℕ) → IsU32 (crc32 bytes)) where
  -- If the records fit the log, recovering the log that they were appended to gives them in order,
  -- in each mode.
  pub recover-append_all :
      (mode : FsyncMode) (rs : List Record)
      → All IsStorable rs
      → recover crc32 (some (append_all crc32 (create mode) rs).content) ≡ ok rs
  recover-append_all mode rs h =
      let scanned : recover crc32 (some (log_bytes crc32 rs ++ []))
          ≡ run recover_step (map record_bytes rs) [] =
        unfold recover log_bytes in
        scan_whole crc32 crc-IsU32 "wal checksum mismatch" recover_step (map record_bytes rs) [] []
          (bytes_fit rs h) (Stops-nil crc32 crc-IsU32 "wal checksum mismatch" recover_step) in
      ap (λ c. recover crc32 (some c))
        (content-append_all crc32 (create mode) rs ∙ sym (append-nil (log_bytes crc32 rs)))
      ∙ scanned
      ∙ run-recover_step rs [] h

  -- After a crash that kept the bytes of the records `kept` and any beginning `torn` of the bytes
  -- of the records `later`, all of which fit the log, recovery succeeds with all of `kept` and
  -- some of the first of `later`.
  pub recover_crash :
      (kept later : List Record) (torn back : List ℕ)
      → All IsStorable kept
      → All IsStorable later
      → log_bytes crc32 later ≡ torn ++ back
      → (more : List Record) × (lost : List Record) × (later ≡ more ++ lost)
        × (recover crc32 (some (log_bytes crc32 kept ++ torn)) ≡ ok (kept ++ more))
  unfolding recover log_bytes
  recover_crash kept later torn back hk hl e =
      let (xs, ys, p, scanned) =
        scan-cut crc32 crc-IsU32 "wal checksum mismatch" recover_step (map record_bytes kept)
          (map record_bytes later) torn back [] (bytes_fit kept hk) (bytes_fit later hl) e in
      let (more, lost, q, u) = map_split record_bytes later xs ys p in
      let fits = (All-split IsStorable more lost (subst (All IsStorable) q hl)).0 in
      (
        more,
        lost,
        q,
        scanned
            ∙ ap (λ t. run recover_step (map record_bytes kept ++ t) []) u
            ∙ ap (λ t. run recover_step t []) (sym (map_append record_bytes kept more))
            ∙ run-recover_step (kept ++ more) [] (All-append IsStorable kept more hk fits),
      )

  -- A header whose checksum is not that of the bytes behind it.
  recover_damaged :
      (kept : List Record) (c : ℕ) (got rest : List ℕ)
      → All IsStorable kept
      → IsU32 (length got)
      → IsU32 c
      → crc32 got ≢ c
      → recover crc32
          (some (log_bytes crc32 kept ++ (to_le 4 (length got) ++ (to_le 4 c ++ (got ++ rest)))))
        ≡ err (corruption "wal checksum mismatch" [])
  unfolding recover log_bytes
  recover_damaged kept c got rest hk hn hc ne =
      let tail = to_le 4 (length got) ++ (to_le 4 c ++ (got ++ rest)) in
      let (fuel, at, scanned) =
        scan_then crc32 crc-IsU32 "wal checksum mismatch" recover_step (map record_bytes kept) tail
          [] (bytes_fit kept hk) in
      scanned
      ∙ rw (run-recover_step kept [] hk) (
          scan_mismatch crc32 crc-IsU32 "wal checksum mismatch" recover_step fuel _ _ c got rest
            kept at hn hc ne)

  -- A crash in the middle of a record `r` leaves its header and a part `front` of its bytes behind
  -- the records `kept`, all of which fit the log. The log is then opened again, however many of its
  -- bytes are durable, and written to. If the appended bytes fill the place of the missing ones and the checksums of the two contents
  -- differ, recovery fails with a checksum mismatch.
  pub recover_append_after_crash :
      (kept more : List Record) (r : Record) (front back : List ℕ) (durable : ℕ) (mode : FsyncMode)
      → All IsStorable kept
      → IsStorable r
      → record_bytes r ≡ front ++ back
      → length back ≤ length (log_bytes crc32 more)
      → crc32 (front ++ take (length back) (log_bytes crc32 more)) ≢ crc32 (record_bytes r)
      → let crashed =
          log_bytes crc32 kept
          ++ (to_le 4 (length (record_bytes r)) ++ (to_le 4 (crc32 (record_bytes r)) ++ front)) in
        recover crc32 (some (append_all crc32 (open_append crashed durable mode) more).content)
        ≡ err (corruption "wal checksum mismatch" [])
  unfolding open_append
  recover_append_after_crash kept more r front back durable mode hk hr e long ne =
      let n = length (record_bytes r) in
      let c = crc32 (record_bytes r) in
      let later = log_bytes crc32 more in
      let fill = take (length back) later in
      let rest = drop (length back) later in
      let header : List ℕ → List ℕ = λ t. log_bytes crc32 kept ++ (to_le 4 n ++ (to_le 4 c ++ t)) in
      let size : length (front ++ fill) ≡ n = omega (
        arith,
        length-append front fill,
        length-append front back,
        length-take (length back) later long,
        ap length e,
      ) in
      let filled : front ++ later ≡ (front ++ fill) ++ rest =
        ap (λ t. front ++ t) (sym (take-append-drop (length back) later))
        ∙ sym (append_assoc front fill rest) in
      let layout : (append_all crc32 (open_append (header front) durable mode) more).content
          ≡ header ((front ++ fill) ++ rest) =
        content-append_all crc32 (open_append (header front) durable mode) more
        ∙ append_assoc_four (log_bytes crc32 kept) (to_le 4 n) (to_le 4 c) front later
        ∙ ap header filled in
      ap (λ t. recover crc32 (some t))
        (layout
          ∙ ap
              (λ m. log_bytes crc32 kept ++ (to_le 4 m ++ (to_le 4 c ++ ((front ++ fill) ++ rest))))
              (sym size))
      ∙ recover_damaged kept c (front ++ fill) rest hk
          (omega (arith, size, length-record_bytes r, hr.short)) (crc-IsU32 _) ne
