-- ===== src/Key/Codec.antt =====
-- Encoding and decoding internal keys.
use jadedb.Common.{ℕ, ◌+◌, ◌-◌, ◌/◌, ◌%◌, ◌^◌, ◌<◌, ◌≡◌, ◌≢◌, refl, ap, ◌∙◌, subst, sym, arith}
use jadedb.Common.{List, [], ◌∷◌, ◌++◌, length, take, drop, length-append, some}
use jadedb.Common.{inl, inr, leb, leb→le, Bool-cases, take-append-drop, length-drop, All-split}
use jadedb.Common.Words.{
  from_be, length-to_be, from_be-to_be, to_be-from_be, from_be-lt, IsByte, IsBytes,
}
use jadedb.Common.Cursor.{At, At-start, At-skip, At-slice, At-slice_end}
use jadedb.Common.Result.{Result, ok, panic, corruption, slice, ok_or, ◌>>=◌}
use jadedb.Key.{InternalKey, ValueKind, delete, put, as_u8, from_u8, tag, encode, decode}

pub tag_fields :
    (seq : ℕ) (kind : ValueKind)
    → (tag seq kind % 256 ≡ as_u8 kind)
      × (tag seq kind / 256 ≡ seq % 2 ^ 56)
      × (tag seq kind < 256 ^ 8)
unfolding tag
tag_fields seq delete = omega arith
tag_fields seq put = omega arith

pub from_u8-as_u8 : (kind : ValueKind) → from_u8 (as_u8 kind) ≡ some kind
unfolding from_u8
from_u8-as_u8 delete = refl
from_u8-as_u8 put = refl

pub length-encode : (k : InternalKey) → length (encode k) ≡ length k.user_key + 8
unfolding encode
length-encode k =
    length-append k.user_key _ ∙ ap (λ n. length k.user_key + n) (length-to_be 8 (tag k.seq k.kind))

-- The two slices of `decode`, on any bytes that end in eight bytes `t`.
user-slice : (u t : List ℕ) → length t ≡ 8 → slice (u ++ t) 0 (length (u ++ t) - 8) ≡ ok u
user-slice u t h = At-slice u t _ (At-start (u ++ t)) (omega (arith, length-append u t))

tag-slice : (u t : List ℕ) → length t ≡ 8 → slice (u ++ t) (length (u ++ t) - 8) 8 ≡ ok t
tag-slice u t h =
    let here = At-skip u t (length u) (At-start (u ++ t)) refl in
    rw (length-append u t, h) (At-slice_end 8 (subst (λ o. At (u ++ t) o t) (omega arith) here) h)

-- What `decode` does once the bytes are split.
abbrev parts : List ℕ → ℕ → Result InternalKey
parts u n = do
  kind ← ok_or (from_u8 (n % 256)) (corruption "bad value kind {}" ((n % 256) ∷ []))
  ok (record { user_key = u; seq = n / 256; kind = kind })

decode_split : (u t : List ℕ) → length t ≡ 8 → decode (u ++ t) ≡ parts u (from_be t)
unfolding decode
decode_split u t h = rw (user-slice u t h, tag-slice u t h) (ground (arith, length-append u t))

-- Decoding an encoded key gives the key back, its sequence number reduced to 56 bits.
pub decode-encode : (k : InternalKey) → decode (encode k) ≡ ok (record k { seq = k.seq % 2 ^ 56 })
unfolding encode
decode-encode k =
    let (low, high, small) = tag_fields k.seq k.kind in
    decode_split k.user_key _ (length-to_be 8 _)
    ∙ rw (from_be-to_be 8 _ small, low, high, from_u8-as_u8)

tag_of_fields :
    (n : ℕ) (kind : ValueKind) → n < 2 ^ 64 → from_u8 (n % 256) ≡ some kind → tag (n / 256) kind ≡ n
unfolding tag from_u8
tag_of_fields n kind small h = ground arith

encode-parts :
    (u t : List ℕ) (k : InternalKey)
    → length t ≡ 8
    → IsBytes t
    → parts u (from_be t) ≡ ok k
    → encode k ≡ u ++ t
unfolding encode
encode-parts u t k n bs h =
    ground (arith, tag_of_fields (from_be t) k.kind (from_be-lt 8 t bs n), to_be-from_be 8 t bs n)

-- If bytes, all below 256, decode to a key, then they are the encoding of that key.
pub encode-decode :
    (bytes : List ℕ) (k : InternalKey) → IsBytes bytes → decode bytes ≡ ok k → encode k ≡ bytes
encode-decode bytes k bs h = elim (Bool-cases (leb 8 (length bytes))) [
  | inl long ↦
      let n = length bytes - 8 in
      let u = take n bytes in
      let t = drop n bytes in
      let whole : u ++ t ≡ bytes = take-append-drop n bytes in
      let eight : length t ≡ 8 = omega (arith, length-drop n bytes, leb→le 8 _ long) in
      let ends : IsBytes t = (All-split IsByte u t (rw whole bs)).1 in
      encode-parts u t k eight ends (sym (decode_split u t eight) ∙ rw whole h) ∙ whole
  | inr short ↦ unfold decode in ground arith
]

-- On any bytes at all, `decode` does not panic.
pub decode-ne-panic : (bytes : List ℕ) → decode bytes ≢ panic
unfolding decode slice
decode-ne-panic bytes = ground arith
