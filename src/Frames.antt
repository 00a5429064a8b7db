-- ===== src/Frames.antt =====
-- The framing that src/wal.rs and src/manifest.rs share: each record stands behind its length and
-- its checksum. `crc32` is `crc32fast::hash`, a parameter.
pub mod Scan
pub mod Torn
pub mod Cut
use jadedb.Common.{ℕ, zero, suc, ◌+◌, ◌%◌, ◌^◌, List, [], ◌∷◌, ◌++◌, length, ltb, leb, ◌==◌, String}
use jadedb.Common.{if◌then◌else◌}
use jadedb.Common.Words.{to_le}
use jadedb.Common.Cursor.{read_le}
use jadedb.Common.Result.{Result, ok, panic, corruption, guard, slice, ◌>>=◌, ◌>>◌}

-- `n as u32`
abbrev pub as_u32 : ℕ → ℕ
as_u32 n = n % 2 ^ 32

module _ (crc32 : List ℕ → ℕ) where
  -- what `Wal::append` and `Manifest::log` write for one record
  unfoldable pub frame : List ℕ → List ℕ
  frame bytes = to_le 4 (as_u32 (length bytes)) ++ (to_le 4 (crc32 bytes) ++ bytes)

  unfoldable pub frames : List (List ℕ) → List ℕ
  frames [] = []
  frames (bytes ∷ rest) = frame bytes ++ frames rest

  -- the `while` loops of `Wal::recover` and `Manifest::recover`: `step` is what they do with a
  -- record, `mismatch` their message. Running out of fuel is `panic` too.
  unfoldable pub scan {ℓ} :
      {S : Type ℓ} → String → (S → List ℕ → Result S) → ℕ → List ℕ → ℕ → S → Result S
  scan mismatch step zero buf i s = panic
  scan mismatch step (suc fuel) buf i s =
      if leb (i + 8) (length buf)
      then (do
        len ← read_le 4 buf i
        crc ← read_le 4 buf (i + 4)
        if ltb (length buf) (i + 8 + len) then ok s else do
          rec ← slice buf (i + 8) len
          guard (crc32 rec == crc) (corruption mismatch [])
          s' ← step s rec
          scan mismatch step fuel buf (i + 8 + len) s')
      else ok s

-- the effect of a list of records
unfoldable pub run {ℓ} : {S : Type ℓ} → (S → List ℕ → Result S) → List (List ℕ) → S → Result S
run step [] s = ok s
run step (bytes ∷ rest) s = do s' ← step s bytes; run step rest s'
