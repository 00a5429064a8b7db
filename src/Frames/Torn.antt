-- ===== src/Frames/Torn.antt =====
-- The scan at the end of a log that a crash cut short, at a damaged record, and on any input.
use jadedb.Common.{ℕ, zero, suc, ◌+◌, ◌≤◌, ◌<◌, ◌≡◌, ◌≢◌, refl, ap, ◌∙◌, subst, arith}
use jadedb.Common.{List, [], ◌∷◌, ◌++◌, append_assoc, length, length-append, ltb, leb, ◌==◌, String}
use jadedb.Common.{lt→ltb, le→ltb, leb→le, Bool-cases, inl, inr, false}
use jadedb.Common.Words.{to_le, length-to_le, IsU32}
use jadedb.Common.Cursor.{At, At-length, At-slice, slice-ne-panic, read_le-ne-panic}
use jadedb.Common.Result.{Result, ok, err, panic, corruption, guard, >>=-ne-panic}
use jadedb.Frames.{as_u32, frame, scan}
use jadedb.Frames.Scan.{scan_header}

-- The longer of two beginnings of one list begins with the shorter.
pub append-split {ℓ} :
    {A : Type ℓ} (xs ys zs ws : List A)
    → xs ++ ys ≡ zs ++ ws
    → length xs ≤ length zs
    → (r : List A) × (zs ≡ xs ++ r) × (ys ≡ r ++ ws)
append-split [] ys zs ws e h = (zs, refl, e)
append-split (x ∷ xs) ys [] ws e h = absurd (omega arith)
append-split (x ∷ xs) ys (z ∷ zs) ws e h =
    let (r, p, q) = append-split xs ys zs ws (ground arith) (omega arith) in (r, ground arith, q)

module _ (crc32 : List ℕ → ℕ) (crc-IsU32 : (bytes : List ℕ) → IsU32 (crc32 bytes)) where
  module _ {ℓ} {S : Type ℓ} (mismatch : String) (step : S → List ℕ → Result S) where
    -- At a frame of which a last part is missing the scan stops and keeps what it has.
    pub scan_torn :
        (fuel : ℕ) (buf : List ℕ) (i : ℕ) (bytes tail back : List ℕ) (x : ℕ) (s : S)
        → At buf i tail
        → frame crc32 bytes ≡ tail ++ (x ∷ back)
        → IsU32 (length bytes)
        → scan crc32 mismatch step (suc fuel) buf i s ≡ ok s
    scan_torn fuel buf i bytes tail back x s at e h = elim (Bool-cases (leb 8 (length tail))) [
      | inl long ↦
          let n = length bytes in
          let c = crc32 bytes in
          let small : as_u32 n ≡ n = omega arith in
          let len = to_le 4 n in
          let crc = to_le 4 c in
          let eight : length (len ++ crc) ≡ 8 =
            omega (arith, length-append len crc, length-to_le 4 n, length-to_le 4 c) in
          let whole : (len ++ crc) ++ bytes ≡ tail ++ (x ∷ back) =
            append_assoc len crc bytes ∙ (unfold frame in rw small at e) in
          let (r, front, end) =
            append-split (len ++ crc) bytes tail (x ∷ back) whole
              (omega (arith, leb→le 8 _ long)) in
          let cut : length r < n = omega (arith, ap length end, length-append r (x ∷ back)) in
          let here : At buf i (len ++ (crc ++ r)) =
            subst (At buf i) (front ∙ append_assoc len crc r) at in
          (scan_header crc32 crc-IsU32 mismatch step fuel buf i n c r s here h (crc-IsU32 bytes)).1
          ∙ rw (lt→ltb _ _ cut)
      | inr short ↦ unfold scan in ground (arith, At-length at)
    ]

    -- At a record whose checksum differs the scan fails.
    pub scan_mismatch :
        (fuel : ℕ) (buf : List ℕ) (i c : ℕ) (got rest : List ℕ) (s : S)
        → At buf i (to_le 4 (length got) ++ (to_le 4 c ++ (got ++ rest)))
        → IsU32 (length got)
        → IsU32 c
        → crc32 got ≢ c
        → scan crc32 mismatch step (suc fuel) buf i s ≡ err (corruption mismatch [])
    scan_mismatch fuel buf i c got rest s at h hc ne =
        let (next, round) =
          scan_header crc32 crc-IsU32 mismatch step fuel buf i (length got) c (got ++ rest) s at h
            hc in
        let fits : length got ≤ length (got ++ rest) = omega (arith, length-append got rest) in
        let differs : (crc32 got == c) ≡ false = ground arith in
        round ∙ rw (le→ltb _ _ fits, At-slice got rest (length got) next refl, differs)

-- With fuel for the bytes that are left, the scan does not panic if its step does not.
pub scan-ne-panic {ℓ} :
    (crc32 : List ℕ → ℕ) {S : Type ℓ} (mismatch : String) (step : S → List ℕ → Result S)
    → ((s : S) (rec : List ℕ) → step s rec ≢ panic)
    → (fuel : ℕ) (buf : List ℕ) (i : ℕ) (s : S) → i ≤ length buf
    → length buf < i + fuel
    → scan crc32 mismatch step fuel buf i s ≢ panic
unfolding scan
scan-ne-panic crc32 mismatch step safe zero buf i s hi hf = absurd (omega arith)
scan-ne-panic crc32 mismatch step safe (suc fuel) buf i s hi hf =
    elim (Bool-cases (leb (i + 8) (length buf))) [
      | inl fits ↦
          let room : i + 8 ≤ length buf = leb→le _ _ fits in
          rw fits (
            >>=-ne-panic _ _ (read_le-ne-panic 4 buf i (omega arith)) λ n _.
              >>=-ne-panic _ _ (read_le-ne-panic 4 buf (i + 4) (omega arith)) λ c _.
                elim (Bool-cases (ltb (length buf) (i + 8 + n))) [
                  | inl cut ↦ rw cut (λ p. cc)
                  | inr whole ↦
                      let end : i + 8 + n ≤ length buf = ground arith in
                      rw whole (
                        >>=-ne-panic _ _ (slice-ne-panic buf (i + 8) n end) λ rec _.
                          >>=-ne-panic (guard (crc32 rec == c) _) _ (ground arith) λ _ _.
                            >>=-ne-panic (step s rec) _ (safe s rec) λ s' _.
                              scan-ne-panic crc32 mismatch step safe fuel buf (i + 8 + n) s' end
                                (omega arith))
                ])
      | inr over ↦ rw over (λ p. cc)
    ]
