-- ===== src/Memtable/Concat.antt =====
-- The newest version in lists of records that stand one behind the other in key order.
use jadedb.Common.{
  ℕ, ◌≡◌, refl, sym, ◌∙◌, arith, true, false, Bool-cases, inl, inr, Option, none, some,
}
use jadedb.Common.{List, [], ◌∷◌, ◌++◌, All-split, lt, ltb}
use jadedb.Common.Order.{bytes_cmp, bytes_cmp_trans, eq_of_bytes_cmp}
use jadedb.Common.BTreeMap
use jadedb.Key.{InternalKey, Record, cmp}
use jadedb.Key.Versions.{newest, newer, sees}
use jadedb.Memtable.Lookup.{newest-front}

pub newest_hidden :
    (u : List ℕ) (s : ℕ) (r : Record) (m : List Record)
    → sees u s r.0 ≡ false
    → newest u s (r ∷ m) ≡ newest u s m
unfolding newest
newest_hidden u s r m h = rw h refl

newer-ne-none : (r : Record) (found : Option Record) → (x : Record) × (newer r found ≡ some x)
newer-ne-none r none = (r, refl)
newer-ne-none r (some y) = elim (Bool-cases (ltb r.0.seq y.0.seq)) [
  | inl h ↦ (y, rw h refl)
  | inr h ↦ (r, rw h refl)
]

pub newest_seen :
    (u : List ℕ) (s : ℕ) (r : Record) (m : List Record)
    → sees u s r.0 ≡ true
    → newest u s (r ∷ m) ≡ newer r (newest u s m)
unfolding newest
newest_seen u s r m h = rw h refl

-- What is found in the first of two lists is found in both.
pub newest-append_some :
    (u : List ℕ) (s : ℕ) (xs ys : List Record) (r : Record)
    → BTreeMap.IsSorted cmp (xs ++ ys)
    → newest u s xs ≡ some r
    → newest u s (xs ++ ys) ≡ some r
newest-append_some u s [] ys r h e = absurd (unfold newest in cc)
newest-append_some u s ((k, v) ∷ xs) ys r h e = elim (Bool-cases (sees u s k)) [
  | inl seen ↦
      newest-front u s k v (xs ++ ys) h.0 seen
      ∙ sym (newest-front u s k v xs (All-split _ xs ys h.0).0 seen)
      ∙ e
  | inr hidden ↦
      newest_hidden u s (k, v) (xs ++ ys) hidden
      ∙ newest-append_some u s xs ys r h.1 (sym (newest_hidden u s (k, v) xs hidden) ∙ e)
]

-- What is not found in the first of two lists is looked for in the second.
pub newest-append_none :
    (u : List ℕ) (s : ℕ) (xs ys : List Record)
    → newest u s xs ≡ none
    → newest u s (xs ++ ys) ≡ newest u s ys
newest-append_none u s [] ys e = refl
newest-append_none u s (r ∷ xs) ys e = elim (Bool-cases (sees u s r.0)) [
  | inl seen ↦
      let (x, p) = newer-ne-none r (newest u s xs) in
      let q : some x ≡ none = sym p ∙ sym (newest_seen u s r xs seen) ∙ e in cc
  | inr hidden ↦
      newest_hidden u s r (xs ++ ys) hidden
      ∙ newest-append_none u s xs ys (sym (newest_hidden u s r xs hidden) ∙ e)
]

pub IsSorted-split :
    (xs ys : List Record)
    → BTreeMap.IsSorted cmp (xs ++ ys)
    → BTreeMap.IsSorted cmp xs × BTreeMap.IsSorted cmp ys
IsSorted-split [] ys h = (tt, h)
IsSorted-split (x ∷ xs) ys h =
    let (a, b) = IsSorted-split xs ys h.1 in (((All-split _ xs ys h.0).0, a), b)

-- A key before one whose user key is below `u` has its user key below `u`.
pub below_user :
    (k j : InternalKey) (u : List ℕ)
    → cmp k j ≡ lt
    → bytes_cmp j.user_key u ≡ lt
    → bytes_cmp k.user_key u ≡ lt
unfolding cmp
below_user k j u h p =
    ground (arith, bytes_cmp_trans k.user_key j.user_key u, eq_of_bytes_cmp k.user_key j.user_key)
