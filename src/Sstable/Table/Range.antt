-- ===== src/Sstable/Table/Range.antt =====
-- The range of user keys of a table covers the records that were added in order.
use jadedb.Common.{
  ℕ, ◌≡◌, refl, sym, subst, arith, false, true, Bool, Bool-cases, inl, inr, List, [], ◌∷◌, All,
  All-imp, lt,
}
use jadedb.Common.Order.{bytes_cmp, is_lt, bytes_cmp_refl}
use jadedb.Common.BTreeMap
use jadedb.Common.Result.{ok}
use jadedb.Key.{InternalKey, Record, cmp}
use jadedb.Memtable.Concat.{below_user}
use jadedb.Sstable.Bloom as Bloom
use jadedb.Sstable.Builder.Layout.{last_or}
use jadedb.Sstable.Builder.Built.{users}
use jadedb.Sstable.Reader.Table.{All-last_or}
use jadedb.Sstable.Table.{SsTable, may_contain}

not_below_self : (u : List ℕ) → is_lt (bytes_cmp u u) ≡ false
not_below_self u = rw (bytes_cmp_refl u) refl

-- User keys do not fall along the order of the encoded keys.
in_order : (j k : InternalKey) → cmp j k ≡ lt → is_lt (bytes_cmp k.user_key j.user_key) ≡ false
in_order j k h =
    let clash = below_user j k j.user_key h in
    let self = bytes_cmp_refl j.user_key in ground (arith, clash, self)

-- No record has a user key below the first one's.
above_first :
    (r : Record) (rs : List Record)
    → BTreeMap.IsSorted cmp (r ∷ rs)
    → All (λ x. is_lt (bytes_cmp x.0.user_key r.0.user_key) ≡ false) (r ∷ rs)
above_first r rs h =
    (not_below_self r.0.user_key, All-imp (λ x before. in_order r.0 x.0 before) rs h.0)

-- No record has a user key above the last one's.
below_last :
    (r : Record) (rs : List Record)
    → BTreeMap.IsSorted cmp (r ∷ rs)
    → All (λ x. is_lt (bytes_cmp (last_or r rs).0.user_key x.0.user_key) ≡ false) (r ∷ rs)
below_last r [] h = (not_below_self r.0.user_key, tt)
below_last r (x ∷ xs) h = (
  in_order r.0 (last_or x xs).0 (All-last_or (λ e. cmp r.0 e.0 ≡ lt) x xs h.0.0 h.0.1),
  below_last x xs h.1,
)

module _ (crc32 : List ℕ → ℕ) (t : SsTable) where
  admitted :
      (xs : List Record)
      → All (λ x. is_lt (bytes_cmp x.0.user_key t.smallest) ≡ false) xs
      → All (λ x. is_lt (bytes_cmp t.largest x.0.user_key) ≡ false) xs
      → All (λ u. Bloom.may_contain crc32 t.bloom u ≡ ok true) (users xs)
      → All (λ x. may_contain crc32 t x.0.user_key ≡ ok true) xs
  unfolding may_contain
  admitted [] low high some_bits = tt
  admitted (x ∷ xs) low high some_bits =
      (rw (low.0, high.0) (some_bits.0), admitted xs low.1 high.1 some_bits.1)

  -- The table admits the keys of the records that it was built from.
  pub covers_records :
      (r : Record) (rs : List Record)
      → BTreeMap.IsSorted cmp (r ∷ rs)
      → t.smallest ≡ r.0.user_key
      → t.largest ≡ (last_or r rs).0.user_key
      → All (λ u. Bloom.may_contain crc32 t.bloom u ≡ ok true) (users (r ∷ rs))
      → All (λ x. may_contain crc32 t x.0.user_key ≡ ok true) (r ∷ rs)
  covers_records r rs sorted low high some_bits =
      admitted (r ∷ rs)
        (subst (λ k. All (λ x. is_lt (bytes_cmp x.0.user_key k) ≡ false) (r ∷ rs)) (sym low)
          (above_first r rs sorted))
        (subst (λ k. All (λ x. is_lt (bytes_cmp k x.0.user_key) ≡ false) (r ∷ rs)) (sym high)
          (below_last r rs sorted))
        some_bits

  -- The table answers any key, if its filter does.
  pub answers_keys :
      ((u : List ℕ) → (b : Bool) × (Bloom.may_contain crc32 t.bloom u ≡ ok b))
      → (u : List ℕ) → (b : Bool) × (may_contain crc32 t u ≡ ok b)
  unfolding may_contain
  answers_keys filter u =
      let (b, e) = filter u in
      elim (Bool-cases (is_lt (bytes_cmp u t.smallest))) [
        | inl below ↦ (false, rw below refl)
        | inr not_below ↦ elim (Bool-cases (is_lt (bytes_cmp t.largest u))) [
          | inl above ↦ (false, rw (not_below, above) refl)
          | inr inside ↦ (b, rw (not_below, inside) e)
        ]
      ]
