-- ===== src/Key/Order.antt =====
-- The order of internal keys is a total order, and the comparison of encoded keys is that order.
use jadedb.Common.{◌≡◌, lt, eq, arith}
use jadedb.Common.Order.{IsOrder, flip, bytes_cmp_refl, eq_of_bytes_cmp}
use jadedb.Common.Order.{bytes_cmp_swap, bytes_cmp_trans}
use jadedb.Key.{InternalKey, ValueKind, as_u8, cmp}

pub eq_of_as_u8 : (k l : ValueKind) → as_u8 k ≡ as_u8 l → k ≡ l
eq_of_as_u8 k l h = ground arith

eq_of_cmp : (a b : InternalKey) → cmp a b ≡ eq → a ≡ b
unfolding cmp
eq_of_cmp a b h = ground (arith, eq_of_bytes_cmp a.user_key b.user_key, eq_of_as_u8 a.kind b.kind)

cmp_refl : (a : InternalKey) → cmp a a ≡ eq
unfolding cmp
cmp_refl a = rw bytes_cmp_refl (ground arith)

cmp_swap : (a b : InternalKey) → cmp b a ≡ flip (cmp a b)
unfolding cmp
cmp_swap a b = ground (arith, bytes_cmp_swap a.user_key b.user_key)

cmp_trans : (a b c : InternalKey) → cmp a b ≡ lt → cmp b c ≡ lt → cmp a c ≡ lt
unfolding cmp
cmp_trans a b c h k = ground (
  arith,
  bytes_cmp_trans a.user_key b.user_key c.user_key,
  eq_of_bytes_cmp a.user_key b.user_key,
  eq_of_bytes_cmp b.user_key c.user_key,
  bytes_cmp_refl a.user_key,
)

-- The order of internal keys is a total order: `cmp` is reflexive, says Equal only of equal keys,
-- is reversed when its arguments are swapped, and is transitive.
pub cmp-IsOrder : IsOrder cmp
cmp-IsOrder = record {
  cmp_refl = cmp_refl;
  eq_of_cmp = eq_of_cmp;
  cmp_swap = cmp_swap;
  cmp_trans = cmp_trans;
}
