-- ===== src/Frames/Cut.antt =====
-- The scan of a log that a crash cut at any byte.
use jadedb.Common.{ℕ, suc, ◌+◌, ◌-◌, ◌≤◌, ◌<◌, ◌≡◌, refl, sym, ap, ap₂, fun_ext, ◌∙◌, subst, arith}
use jadedb.Common.{
  List, [], ◌∷◌, ◌++◌, append_assoc, length, length-append, leb, String, All, All-append, All-split,
}
use jadedb.Common.{leb→le, Bool-cases, inl, inr}
use jadedb.Common.Words.{IsU32}
use jadedb.Common.Cursor.{At, At-start, At-length}
use jadedb.Common.Result.{Result, ok, err, panic, ◌>>=◌}
use jadedb.Frames.{frame, frames, scan, run}
use jadedb.Frames.Scan.{length-frame, scan-frames}
use jadedb.Frames.Torn.{append-split, scan_torn}

pub frames-append :
    (crc32 : List ℕ → ℕ) (xs ys : List (List ℕ))
    → frames crc32 (xs ++ ys) ≡ frames crc32 xs ++ frames crc32 ys
unfolding frames
frames-append crc32 [] ys = refl
frames-append crc32 (x ∷ xs) ys =
    ap (λ t. frame crc32 x ++ t) (frames-append crc32 xs ys)
    ∙ sym (append_assoc (frame crc32 x) (frames crc32 xs) (frames crc32 ys))

bind-ok {ℓ} : {A : Type ℓ} (m : Result A) → (m >>= ok) ≡ m
bind-ok (ok a) = refl
bind-ok (err e) = refl
bind-ok panic = refl

module _ (crc32 : List ℕ → ℕ) (crc-IsU32 : (bytes : List ℕ) → IsU32 (crc32 bytes)) where
  pub length-frames : (records : List (List ℕ)) → length records ≤ length (frames crc32 records)
  unfolding frames
  length-frames [] = omega arith
  length-frames (b ∷ rs) = omega (
    arith,
    length-append (frame crc32 b) (frames crc32 rs),
    length-frame crc32 crc-IsU32 b,
    length-frames rs,
  )

  module _ {ℓ} {S : Type ℓ} (mismatch : String) (step : S → List ℕ → Result S) where
    -- At `tail` the scan ends and keeps its state.
    abbrev pub Stops : List ℕ → Type ℓ
    Stops tail =
        (fuel : ℕ) (buf : List ℕ) (i : ℕ) (s : S)
        → At buf i tail
        → scan crc32 mismatch step (suc fuel) buf i s ≡ ok s

    pub Stops-nil : Stops []
    unfolding scan
    Stops-nil fuel buf i s at = ground (arith, At-length at)

    -- A cut through whole frames falls behind some of them, where the scan stops.
    cut-frames :
        (records : List (List ℕ)) (front back : List ℕ)
        → All (λ bytes. IsU32 (length bytes)) records
        → frames crc32 records ≡ front ++ back
        → (first : List (List ℕ)) × (second : List (List ℕ)) × (tail : List ℕ) × (records
            ≡ first ++ second)
          × (front ≡ frames crc32 first ++ tail)
          × Stops tail
    unfolding frames
    cut-frames [] [] back h e = ([], [], [], refl, refl, Stops-nil)
    cut-frames [] (x ∷ front) back h e = cc
    cut-frames (b ∷ rs) front back h e =
        elim (Bool-cases (leb (length (frame crc32 b)) (length front))) [
          | inl long ↦
              let (r, p, q) =
                append-split (frame crc32 b) (frames crc32 rs) front back e (leb→le _ _ long) in
              let (first, second, tail, u, v, w) = cut-frames rs r back h.1 q in
              (
                b ∷ first,
                second,
                tail,
                ap (λ t. b ∷ t) u,
                p
                    ∙ ap (λ t. frame crc32 b ++ t) v
                    ∙ sym (append_assoc (frame crc32 b) (frames crc32 first) tail),
                w,
              )
          | inr short ↦
              let (r, p, q) =
                append-split front back (frame crc32 b) (frames crc32 rs) (sym e) (ground arith) in
              (
                [],
                b ∷ rs,
                front,
                refl,
                refl,
                inside b front r h.0 p (ground (arith, p, length-append front r)),
              )
        ]
      where
        inside :
            (b front r : List ℕ)
            → IsU32 (length b)
            → frame crc32 b ≡ front ++ r
            → length front < length (frame crc32 b)
            → Stops front
        inside b front [] h p l = absurd (omega (arith, ap length p, length-append front []))
        inside b front (x ∷ r) h p l = λ fuel buf i s at.
            scan_torn crc32 crc-IsU32 mismatch step fuel buf i b front r x s at p h

    -- Whole frames, and the scan goes on at the tail.
    pub scan_then :
        (records : List (List ℕ)) (tail : List ℕ) (s : S)
        → All (λ bytes. IsU32 (length bytes)) records
        → let buf = frames crc32 records ++ tail in
          (fuel : ℕ) × At buf (length (frames crc32 records)) tail
          × (scan crc32 mismatch step (length buf + 1) buf 0 s ≡ (
              run step records s >>= λ s'.
              scan crc32 mismatch step (suc fuel) buf (length (frames crc32 records)) s'))
    scan_then records tail s h =
        let buf = frames crc32 records ++ tail in
        let n = length records in
        let long : n ≤ length buf =
          omega (arith, length-append (frames crc32 records) tail, length-frames records) in
        let left : length buf + 1 - n ≡ suc (length buf - n) = omega arith in
        let start : 0 + length (frames crc32 records) ≡ length (frames crc32 records) =
          omega arith in
        (
          length buf - n,
          record { front = frames crc32 records; split = refl; reached = refl },
          scan-frames crc32 crc-IsU32 mismatch step records (length buf + 1) buf 0 tail s
                (At-start buf) h (omega arith)
              ∙ ap₂ (λ f j. run step records s >>= λ s'. scan crc32 mismatch step f buf j s') left
                  start,
        )

    -- Whole frames and a tail at which the scan stops.
    pub scan_whole :
        (records : List (List ℕ)) (tail : List ℕ) (s : S)
        → All (λ bytes. IsU32 (length bytes)) records
        → Stops tail
        → scan crc32 mismatch step
            (length (frames crc32 records ++ tail) + 1)
            (frames crc32 records ++ tail)
            0
            s
          ≡ run step records s
    scan_whole records tail s h stops =
        let (fuel, at, scanned) = scan_then records tail s h in
        scanned
        ∙ ap (λ k. run step records s >>= k) (fun_ext λ s'. stops fuel _ _ s' at)
        ∙ bind-ok (run step records s)

    -- A log of the frames of `kept` and a beginning of the frames of `later` is scanned as `kept`
    -- and some of the first records of `later`.
    pub scan-cut :
        (kept later : List (List ℕ)) (torn back : List ℕ) (s : S)
        → All (λ bytes. IsU32 (length bytes)) kept
        → All (λ bytes. IsU32 (length bytes)) later
        → frames crc32 later ≡ torn ++ back
        → (more : List (List ℕ)) × (rest : List (List ℕ)) × (later ≡ more ++ rest)
          × (scan crc32 mismatch step
                (length (frames crc32 kept ++ torn) + 1)
                (frames crc32 kept ++ torn)
                0
                s
              ≡ run step (kept ++ more) s)
    scan-cut kept later torn back s hk hl e =
        let (more, rest, tail, p, q, stops) = cut-frames later torn back hl e in
        let cut : frames crc32 kept ++ torn ≡ frames crc32 (kept ++ more) ++ tail =
          ap (λ t. frames crc32 kept ++ t) q
          ∙ sym (append_assoc (frames crc32 kept) (frames crc32 more) tail)
          ∙ ap (λ t. t ++ tail) (sym (frames-append crc32 kept more)) in
        let fits = All-append _ kept more hk (All-split _ more rest (subst (All _) p hl)).0 in
        (more, rest, p, rw cut (scan_whole (kept ++ more) tail s fits stops))
