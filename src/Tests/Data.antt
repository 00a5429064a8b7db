-- ===== src/Tests/Data.antt =====
-- The inputs that the tests share.
use jadedb.Common.{ℕ, ◌+◌, ◌%◌, ◌^◌, arith, List, [], ◌∷◌}
use jadedb.Common.Words.{IsU32}
use jadedb.Key.{Record, put_key, delete_key}

-- a stand-in for the checksum: the sum of the bytes
abbrev sum_bytes : List ℕ → ℕ
sum_bytes [] = 0
sum_bytes (b ∷ bs) = b + sum_bytes bs

unfoldable pub checksum : List ℕ → ℕ
checksum bytes = sum_bytes bytes % 2 ^ 32

pub checksum-IsU32 : (bytes : List ℕ) → IsU32 (checksum bytes)
unfolding checksum
checksum-IsU32 bytes = omega arith

abbrev pub key_a : List ℕ
key_a = b'a' ∷ []

abbrev pub key_b : List ℕ
key_b = b'b' ∷ []

-- put a 1; put b 2; delete a
abbrev pub write_1 : Record
write_1 = (put_key key_a 1, b'1' ∷ [])

abbrev pub write_2 : Record
write_2 = (put_key key_b 2, b'2' ∷ [])

abbrev pub write_3 : Record
write_3 = (delete_key key_a 3, [])
