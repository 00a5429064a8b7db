-- ===== src/Key.antt =====
-- src/key.rs: value kinds, internal keys, their order and their encoding.
pub mod Order
pub mod Codec
pub mod Encoded
pub mod Versions
use jadedb.Common.{
  ℕ, zero, suc, ◌+◌, ◌-◌, ◌*◌, ◌/◌, ◌%◌, ◌^◌, ◌&&◌, compare, Ordering, Option, none, some,
}
use jadedb.Common.{List, [], ◌∷◌, ◌++◌, length, take, drop, leb, if◌then◌else◌}
use jadedb.Common.Words.{to_be, from_be}
use jadedb.Common.Order.{then_cmp, bytes_cmp}
use jadedb.Common.Result.{Result, ok, corruption, slice, ok_or, guard, ◌>>=◌, ◌>>◌}

pub data ValueKind : Type 0 where
  delete put : ValueKind

-- `kind as u8`
abbrev pub as_u8 : ValueKind → ℕ
as_u8 delete = 0
as_u8 put = 1

unfoldable pub from_u8 : ℕ → Option ValueKind
from_u8 zero = some delete
from_u8 (suc zero) = some put
from_u8 (suc (suc n)) = none

pub record InternalKey : Type 0 where
  pub user_key : List ℕ
  pub seq : ℕ
  pub kind : ValueKind

-- `InternalKey::put`
abbrev pub put_key : List ℕ → ℕ → InternalKey
put_key user_key seq = record { user_key = user_key; seq = seq; kind = put }

-- `InternalKey::delete`
abbrev pub delete_key : List ℕ → ℕ → InternalKey
delete_key user_key seq = record { user_key = user_key; seq = seq; kind = delete }

-- `(self.seq << 8) | kind`: a u64, so the high eight bits of `seq` are lost. The low byte of the
-- shifted number is zero, and `|` with a kind adds it.
unfoldable pub tag : ℕ → ValueKind → ℕ
tag seq kind = seq * 256 % 2 ^ 64 + as_u8 kind

unfoldable pub encode : InternalKey → List ℕ
encode k = k.user_key ++ to_be 8 (tag k.seq k.kind)

-- `tag & 0xff` and `tag >> 8` are `tag % 256` and `tag / 256`.
unfoldable pub decode : List ℕ → Result InternalKey
decode bytes = do
  guard (leb 8 (length bytes)) (corruption "internal key too short" [])
  user_key ← slice bytes 0 (length bytes - 8)
  tag_bytes ← slice bytes (length bytes - 8) 8
  let tag = from_be tag_bytes
  kind ← ok_or (from_u8 (tag % 256)) (corruption "bad value kind {}" ((tag % 256) ∷ []))
  ok (record { user_key = user_key; seq = tag / 256; kind = kind })

-- `Ord for InternalKey`: user keys ascend, sequence numbers descend, kinds ascend.
unfoldable pub cmp : InternalKey → InternalKey → Ordering
cmp a b =
    then_cmp (bytes_cmp a.user_key b.user_key)
      (then_cmp (compare b.seq a.seq) (compare (as_u8 a.kind) (as_u8 b.kind)))

-- the encoded key without its tag
unfoldable pub encoded_user : List ℕ → List ℕ
encoded_user a = take (length a - 8) a

unfoldable pub encoded_tag : List ℕ → ℕ
encoded_tag a = from_be (drop (length a - 8) a)

unfoldable pub compare_tags : ℕ → ℕ → Ordering
compare_tags a_tag b_tag =
    then_cmp (compare (b_tag / 256) (a_tag / 256)) (compare (a_tag % 256) (b_tag % 256))

-- `compare_encoded`: the tags decide only where both keys have one.
unfoldable pub compare_encoded : List ℕ → List ℕ → Ordering
compare_encoded a b = then_cmp (bytes_cmp (encoded_user a) (encoded_user b)) (
    if leb 8 (length a) && leb 8 (length b)
    then compare_tags (encoded_tag a) (encoded_tag b)
    else Ordering.eq)

-- a key and its value, as a table stores them
abbrev pub Record : Type 0
Record = InternalKey × List ℕ
