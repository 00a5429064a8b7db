-- ===== src/Frames/Scan.antt =====
-- The scan of whole frames, and that it ends on every input.
use jadedb.Common.{ℕ, zero, suc, ◌+◌, ◌≤◌, ◌≡◌, refl, sym, ap, ap₂, fun_ext, ◌-◌, ◌∙◌, subst, arith}
use jadedb.Common.{
  List, [], ◌∷◌, ◌++◌, append_assoc, length, length-append, ltb, ◌==◌, ==_refl, String,
}
use jadedb.Common.{if◌then◌else◌, le→leb, le→ltb, All}
use jadedb.Common.Words.{to_le, length-to_le, IsU32}
use jadedb.Common.Cursor.{At, At-length, At-skip, At-slice, At-read, At-past}
use jadedb.Common.Result.{Result, ok, corruption, guard, slice, ◌>>=◌, ◌>>◌, bind_assoc}
use jadedb.Frames.{as_u32, frame, frames, scan, run}

module _ (crc32 : List ℕ → ℕ) (crc-IsU32 : (bytes : List ℕ) → IsU32 (crc32 bytes)) where
  pub length-frame : (bytes : List ℕ) → length (frame crc32 bytes) ≡ length bytes + 8
  unfolding frame
  length-frame bytes =
      let len = to_le 4 (as_u32 (length bytes)) in
      let crc = to_le 4 (crc32 bytes) in
      omega (
        arith,
        length-append len (crc ++ bytes),
        length-append crc bytes,
        length-to_le 4 (as_u32 (length bytes)),
        length-to_le 4 (crc32 bytes),
      )

  module _ {ℓ} {S : Type ℓ} (mismatch : String) (step : S → List ℕ → Result S) where
    -- what a round does once the header has said `n` and `c`
    abbrev pub body : ℕ → List ℕ → ℕ → S → ℕ → ℕ → Result S
    body fuel buf i s n c = do
      rec ← slice buf (i + 8) n
      guard (crc32 rec == c) (corruption mismatch [])
      s' ← step s rec
      scan crc32 mismatch step fuel buf (i + 8 + n) s'

    -- One round at a whole header.
    pub scan_header :
        (fuel : ℕ) (buf : List ℕ) (i n c : ℕ) (rest : List ℕ) (s : S)
        → At buf i (to_le 4 n ++ (to_le 4 c ++ rest))
        → IsU32 n
        → IsU32 c
        → At buf (i + 8) rest
          × (scan crc32 mismatch step (suc fuel) buf i s
              ≡ (if ltb (length rest) n then ok s else body fuel buf i s n c))
    unfolding scan
    scan_header fuel buf i n c rest s c0 hn hc =
        let c1 = At-past 4 n (to_le 4 c ++ rest) c0 in
        let c2 : At buf (i + 8) rest =
          subst (λ o. At buf o rest) (omega arith) (At-past 4 c rest c1) in
        let long : i + 8 ≤ length buf = omega (arith, At-length c2) in
        let r0 = At-read 4 n _ c0 (omega arith) in
        let r1 = At-read 4 c _ c1 (omega arith) in
        (c2, rw (le→leb _ _ long, r0, r1) (ground (arith, At-length c2)))

    -- One round at a whole frame.
    pub scan-frame :
        (fuel : ℕ) (buf : List ℕ) (i : ℕ) (bytes rest : List ℕ) (s : S)
        → At buf i (frame crc32 bytes ++ rest)
        → IsU32 (length bytes)
        → At buf (i + 8 + length bytes) rest
          × (scan crc32 mismatch step (suc fuel) buf i s ≡ (
              step s bytes >>= λ s'. scan crc32 mismatch step fuel buf (i + 8 + length bytes) s'))
    unfolding frame
    scan-frame fuel buf i bytes rest s at h =
        let n = length bytes in
        let c = crc32 bytes in
        let small : as_u32 n ≡ n = omega arith in
        let c0 : At buf i (to_le 4 n ++ (to_le 4 c ++ (bytes ++ rest))) =
          rw (small, append_assoc, append_assoc) at at in
        let (c2, round) = scan_header fuel buf i n c (bytes ++ rest) s c0 h (crc-IsU32 bytes) in
        let fits : n ≤ length (bytes ++ rest) = omega (arith, length-append bytes rest) in
        (
          At-skip bytes rest n c2 refl,
          round ∙ rw (le→ltb _ _ fits, At-slice bytes rest n c2 refl, ==_refl c),
        )

    -- Scanning whole frames and then `tail` runs the records in order and goes on at `tail`.
    pub scan-frames :
        (records : List (List ℕ)) (fuel : ℕ) (buf : List ℕ) (i : ℕ) (tail : List ℕ) (s : S)
        → At buf i (frames crc32 records ++ tail)
        → All (λ bytes. IsU32 (length bytes)) records
        → length records ≤ fuel
        → scan crc32 mismatch step fuel buf i s ≡ (
            run step records s >>= λ s'.
            scan crc32 mismatch step
              (fuel - length records)
              buf
              (i + length (frames crc32 records))
              s')
    unfolding frames run
    scan-frames [] fuel buf i tail s at h f =
        ap₂ (λ f j. scan crc32 mismatch step f buf j s) (omega arith) (omega arith)
    scan-frames (bytes ∷ records) zero buf i tail s at h f = absurd (omega arith)
    scan-frames (bytes ∷ records) (suc fuel) buf i tail s at h f =
        let more = frames crc32 records in
        let whole : At buf i (frame crc32 bytes ++ (more ++ tail)) = rw append_assoc at at in
        let (next, round) = scan-frame fuel buf i bytes (more ++ tail) s whole h.0 in
        let j : i + 8 + length bytes + length more ≡ i + length (frame crc32 bytes ++ more) =
          omega (arith, length-append (frame crc32 bytes) more, length-frame bytes) in
        let f' : fuel - length records ≡ suc fuel - suc (length records) = omega arith in
        round
        ∙ ap (λ k. step s bytes >>= k)
            (fun_ext λ s'.
              scan-frames records fuel buf (i + 8 + length bytes) tail s' next h.1 (omega arith)
              ∙ ap₂ (λ f j. run step records s' >>= λ s''. scan crc32 mismatch step f buf j s'') f'
                  j)
        ∙ sym (bind_assoc (step s bytes) (run step records) _)
