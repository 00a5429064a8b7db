-- ===== src/Tests/Keys.antt =====
-- Keys, memtables and their recovery.
use jadedb.Common.{◌+◌, ◌^◌, ◌≡◌, refl, none, some, arith, [], ◌∷◌}
use jadedb.Common.{lt}
use jadedb.Common.Words.{u64_max, to_be, to_le, from_be, from_le}
use jadedb.Common.BTreeMap
use jadedb.Common.Order.{bytes_cmp}
use jadedb.Common.Result.{ok, slice}
use jadedb.Key.{put_key, delete_key, encode, decode, cmp, compare_encoded, tag, from_u8}
use jadedb.Key.Codec.{decode-encode, encode-decode}
use jadedb.Key.Encoded.{compare_encoded-cmp}
use jadedb.Key.Versions.{newest, last_write}
use jadedb.Memtable
use jadedb.Memtable.{MemTable, new, put_mem, get, entry_of}
use jadedb.Memtable.Lookup.{entry_of?, get-newest}
use jadedb.Db.{replay}
use jadedb.Db.Replay.{get-replay}
use jadedb.Tests.Data.{key_a, write_1, write_2, write_3}

-- The unit tests of key.rs.
newer_seq_sorts_first : cmp (put_key key_a 10) (put_key key_a 5) ≡ lt
unfolding cmp bytes_cmp
newer_seq_sorts_first = refl

encode_run : encode (delete_key key_a 42) ≡ b'a' ∷ 0 ∷ 0 ∷ 0 ∷ 0 ∷ 0 ∷ 0 ∷ 42 ∷ 0 ∷ []
unfolding encode tag to_be to_le
encode_run = refl

decode_run : decode (b'a' ∷ 0 ∷ 0 ∷ 0 ∷ 0 ∷ 0 ∷ 0 ∷ 42 ∷ 1 ∷ []) ≡ ok (put_key key_a 42)
unfolding decode slice from_be from_le from_u8
decode_run = refl

-- The high byte of a sequence number is lost.
decode-encode_example : decode (encode (put_key key_a (2 ^ 56 + 3))) ≡ ok (put_key key_a 3)
decode-encode_example = decode-encode (put_key key_a (2 ^ 56 + 3))

encode-decode_example : encode (put_key key_a 42) ≡ b'a' ∷ 0 ∷ 0 ∷ 0 ∷ 0 ∷ 0 ∷ 0 ∷ 42 ∷ 1 ∷ []
encode-decode_example =
    encode-decode (b'a' ∷ 0 ∷ 0 ∷ 0 ∷ 0 ∷ 0 ∷ 0 ∷ 42 ∷ 1 ∷ []) (put_key key_a 42) (omega arith)
      decode_run

compare_encoded-cmp_example :
    compare_encoded (encode (put_key key_a 10)) (encode (put_key key_a 5))
    ≡ cmp (put_key key_a 10) (put_key key_a 5)
compare_encoded-cmp_example =
    compare_encoded-cmp (put_key key_a 10) (put_key key_a 5) (omega arith) (omega arith)

-- The unit test of memtable.rs.
abbrev table : MemTable
table = (replay 0 new (write_1 ∷ write_2 ∷ write_3 ∷ [])).1

get_deleted : get table key_a u64_max ≡ some (entry_of write_3)
unfolding replay put_mem get BTreeMap.insert BTreeMap.range_from cmp bytes_cmp
    Memtable.first_visible
get_deleted = refl

get_old_version : get table key_a 2 ≡ some (entry_of write_1)
unfolding replay put_mem get BTreeMap.insert BTreeMap.range_from cmp bytes_cmp
    Memtable.first_visible
get_old_version = refl

abbrev small : MemTable
small = record { map = write_3 ∷ write_1 ∷ write_2 ∷ []; approx_bytes = 0 }

get-newest_example : get small key_a 2 ≡ entry_of? (newest key_a 2 small.map)
unfolding cmp bytes_cmp
get-newest_example =
    get-newest small key_a 2 ((refl, (refl, tt)), ((refl, tt), (tt, tt))) (omega arith)

get-replay_example :
    get table key_a 2 ≡ entry_of? (last_write key_a 2 (write_1 ∷ write_2 ∷ write_3 ∷ []) none)
get-replay_example =
    get-replay 0 (write_1 ∷ write_2 ∷ write_3 ∷ []) key_a 2 (omega arith) (omega arith)
