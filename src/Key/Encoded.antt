-- ===== src/Key/Encoded.antt =====
-- `compare_encoded` on the encodings of two keys.
use jadedb.Common.{◌-◌, ◌%◌, ◌^◌, ◌≤◌, ◌<◌, ◌≡◌, arith}
use jadedb.Common.{length, take-append, drop-append, le→leb}
use jadedb.Common.Words.{from_be-to_be}
use jadedb.Key.{
  InternalKey, tag, encode, cmp, encoded_user, encoded_tag, compare_tags, compare_encoded,
}
use jadedb.Key.Codec.{tag_fields, length-encode}

user_length : (k : InternalKey) → length (encode k) - 8 ≡ length k.user_key
user_length k = omega (arith, length-encode k)

pub encoded_user-encode : (k : InternalKey) → encoded_user (encode k) ≡ k.user_key
unfolding encoded_user
encoded_user-encode k = rw (user_length k) (unfold encode in take-append k.user_key _)

encoded_tag-encode : (k : InternalKey) → encoded_tag (encode k) ≡ tag k.seq k.kind
unfolding encoded_tag
encoded_tag-encode k = rw (user_length k) (
    unfold encode in
    rw (drop-append k.user_key) (from_be-to_be 8 (tag k.seq k.kind) (tag_fields k.seq k.kind).2))

-- Comparing the encodings of two keys without decoding them gives the order of the keys, where
-- both sequence numbers fit 56 bits.
pub compare_encoded-cmp :
    (a b : InternalKey)
    → a.seq < 2 ^ 56
    → b.seq < 2 ^ 56
    → compare_encoded (encode a) (encode b) ≡ cmp a b
unfolding compare_encoded cmp compare_tags
compare_encoded-cmp a b ha hb =
    let (al, ah, as') = tag_fields a.seq a.kind in
    let (bl, bh, bs') = tag_fields b.seq b.kind in
    let an : 8 ≤ length (encode a) = omega (arith, length-encode a) in
    let bn : 8 ≤ length (encode b) = omega (arith, length-encode b) in
    let af : a.seq % 2 ^ 56 ≡ a.seq = omega arith in
    let bf : b.seq % 2 ^ 56 ≡ b.seq = omega arith in
    rw (
      encoded_user-encode a,
      encoded_user-encode b,
      encoded_tag-encode a,
      encoded_tag-encode b,
      le→leb 8 _ an,
      le→leb 8 _ bn,
      al,
      bl,
      ah,
      bh,
      af,
      bf,
    )
