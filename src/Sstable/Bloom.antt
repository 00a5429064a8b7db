-- ===== src/Sstable/Bloom.antt =====
-- src/sstable/bloom.rs: the Bloom filter over the user keys of a table. `crc32` is
-- `crc32fast::hash`; `probes_of` is the floating-point product `bits_per_key * 0.69`, cut off to a
-- number; its bounds are whole numbers, so it is clamped after the cut as well as before. Sizes of lists in memory do not overflow a usize.
pub mod Bits
pub mod Contains
use Prim.Native.Nat.{bit_and, bit_or}
use jadedb.Common.{
  ℕ, zero, suc, ◌+◌, ◌*◌, ◌/◌, ◌%◌, ◌^◌, min, max, ◌==◌, leb, Bool, true, false, ◌||◌,
}
use jadedb.Common.{List, [], ◌∷◌, ◌++◌, length, set, replicate, drop, if◌then◌else◌}
use jadedb.Common.Words.{to_le}
use jadedb.Common.Cursor.{read_le, index}
use jadedb.Common.Result.{Result, ok, corruption, guard, ◌>>=◌, ◌>>◌}

pub record BloomFilter : Type 0 where
  pub bits : List ℕ
  pub nbits : ℕ
  pub k : ℕ

-- `1 << j`, for a bit of a byte
abbrev pub mask : ℕ → ℕ
mask j = 2 ^ j

-- `bits[h / 8] |= 1 << (h % 8)`
unfoldable pub set_bit : List ℕ → ℕ → Result (List ℕ)
set_bit bits h = do byte ← index bits (h / 8); ok (set bits (h / 8) (bit_or byte (mask (h % 8))))

-- the place of probe `i`: u32 arithmetic wraps, and then the remainder by the number of bits
unfoldable pub place : ℕ → ℕ → ℕ → ℕ → ℕ
place h1 h2 i nbits = (h1 + i * h2 % 2 ^ 32) % 2 ^ 32 % nbits

-- the loop over `i` in `build`, with `n` rounds left
unfoldable pub add_probes : ℕ → ℕ → ℕ → ℕ → ℕ → List ℕ → Result (List ℕ)
add_probes h1 h2 nbits zero i bits = ok bits
add_probes h1 h2 nbits (suc n) i bits = do
  bits' ← set_bit bits (place h1 h2 i nbits)
  add_probes h1 h2 nbits n (i + 1) bits'

-- the loop in `may_contain`, with `n` rounds left
unfoldable pub check_probes : ℕ → ℕ → ℕ → ℕ → ℕ → List ℕ → Result Bool
check_probes h1 h2 nbits zero i bits = ok true
check_probes h1 h2 nbits (suc n) i bits = do
  byte ← index bits (place h1 h2 i nbits / 8)
  let rest = check_probes h1 h2 nbits n (i + 1) bits
  if bit_and byte (mask (place h1 h2 i nbits % 8)) == 0 then ok false else rest

unfoldable pub is_empty : List ℕ → Bool
is_empty [] = true
is_empty (b ∷ bits) = false

module _ (crc32 : List ℕ → ℕ) where
  -- `hash_pair`
  unfoldable pub hash_pair : List ℕ → ℕ × ℕ
  hash_pair key = let h = crc32 key in (h, max (crc32 (to_le 4 h ++ key)) 1)

  -- the loop over the keys in `build`
  unfoldable pub add_keys : ℕ → ℕ → List (List ℕ) → List ℕ → Result (List ℕ)
  add_keys nbits k [] bits = ok bits
  add_keys nbits k (key ∷ keys) bits = do
    bits' ← add_probes (hash_pair key).0 (hash_pair key).1 nbits k 0 bits
    add_keys nbits k keys bits'

  unfoldable pub build : (ℕ → ℕ) → List (List ℕ) → ℕ → Result BloomFilter
  build probes_of keys bits_per_key =
      let per_key = max bits_per_key 1 in
      let nbits = max (length keys * per_key) 64 in
      let k = min (max (probes_of per_key) 1) 30 in
      do
        bits ← add_keys nbits k keys (replicate ((nbits + 7) / 8) 0)
        ok (record { bits = bits; nbits = nbits; k = k })

  unfoldable pub may_contain : BloomFilter → List ℕ → Result Bool
  may_contain f key =
      if is_empty f.bits || f.nbits == 0
      then ok true
      else check_probes (hash_pair key).0 (hash_pair key).1 f.nbits f.k 0 f.bits

unfoldable pub encode : BloomFilter → List ℕ
encode f = to_le 4 f.k ++ (to_le 8 f.nbits ++ f.bits)

unfoldable pub decode : List ℕ → Result BloomFilter
decode bytes = do
  guard (leb 12 (length bytes)) (corruption "bloom too short" [])
  k ← read_le 4 bytes 0
  nbits ← read_le 8 bytes 4
  ok (record { bits = drop 12 bytes; nbits = nbits; k = k })
