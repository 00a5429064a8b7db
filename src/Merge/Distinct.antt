-- ===== src/Merge/Distinct.antt =====
-- What a merge shows of the records that it pops: the first of each user key, which is the newest.
use jadedb.Common.{
  ℕ, ◌≡◌, refl, sym, subst, arith, false, Bool-cases, inl, inr, Option, none, some, if◌then◌else◌,
}
use jadedb.Common.{List, [], ◌∷◌, All, All-imp, lt}
use jadedb.Common.Order.{bytes_cmp, bytes_eq, bytes_eq→≡, bytes_cmp_swap, bytes_cmp_trans, is_lt}
use jadedb.Key.{InternalKey, Record, cmp}
use jadedb.Memtable.{is_last}
use jadedb.Merge.Heap.{Le}
use jadedb.Merge.Runs.{Ordered}

-- the records whose user key differs from that of the record in front
unfoldable pub distinct : Option (List ℕ) → List Record → List Record
distinct last [] = []
distinct last (r ∷ rs) =
    let again = distinct last rs in
    let later = distinct (some r.0.user_key) rs in
    if is_last last r.0.user_key then again else r ∷ later

-- the first record of a user key
unfoldable pub first_of : List ℕ → List Record → Option Record
first_of u [] = none
first_of u (r ∷ rs) = let later = first_of u rs in if bytes_eq r.0.user_key u then some r else later

-- The first record of a key is kept, unless the key is that of the record in front.
pub first_of-distinct :
    (u : List ℕ) (last : Option (List ℕ)) (rs : List Record)
    → is_last last u ≡ false
    → first_of u (distinct last rs) ≡ first_of u rs
unfolding distinct first_of
first_of-distinct u last [] h = refl
first_of-distinct u last (r ∷ rs) h = elim (Bool-cases (bytes_eq r.0.user_key u)) [
  | inl same ↦
      let e = bytes_eq→≡ r.0.user_key u same in
      let kept : is_last last r.0.user_key ≡ false =
        subst (λ w. is_last last w ≡ false) (sym e) h in
      rw (kept, same) refl
  | inr other ↦ elim (Bool-cases (is_last last r.0.user_key)) [
    | inl skip ↦ rw (skip, other) (first_of-distinct u last rs h)
    | inr kept ↦ rw (kept, other) (first_of-distinct u (some r.0.user_key) rs other)
  ]
]

-- User keys rise strictly.
abbrev pub RisingUsers : List Record → Type 0
RisingUsers [] = Unit
RisingUsers (r ∷ rs) = All (λ q. bytes_cmp r.0.user_key q.0.user_key ≡ lt) rs × RisingUsers rs

user_of_Le : (j k : InternalKey) → Le j k → is_lt (bytes_cmp k.user_key j.user_key) ≡ false
unfolding cmp
user_of_Le j k h = ground arith

above : (w u : List ℕ) → is_lt (bytes_cmp u w) ≡ false → bytes_eq w u ≡ false → bytes_cmp w u ≡ lt
above w u h k = let s = bytes_cmp_swap w u in ground (arith, s)

distinct_above :
    (w : List ℕ) (rs : List Record)
    → Ordered rs
    → All (λ q. is_lt (bytes_cmp q.0.user_key w) ≡ false) rs
    → All (λ q. bytes_cmp w q.0.user_key ≡ lt) (distinct (some w) rs)
unfolding distinct
distinct_above w [] o h = tt
distinct_above w (r ∷ rs) o h = elim (Bool-cases (bytes_eq w r.0.user_key)) [
  | inl same ↦ rw same (distinct_above w rs o.1 h.1)
  | inr other ↦
      let up = above w r.0.user_key h.0 other in
      let later =
        distinct_above r.0.user_key rs o.1 (All-imp (λ q l. user_of_Le r.0 q.0 l) rs o.0) in
      rw other (up, All-imp (λ q l. bytes_cmp_trans w r.0.user_key q.0.user_key up l) _ later)
]

-- What is kept of ordered records has rising user keys.
pub distinct-RisingUsers :
    (last : Option (List ℕ)) (rs : List Record) → Ordered rs → RisingUsers (distinct last rs)
unfolding distinct
distinct-RisingUsers last [] o = tt
distinct-RisingUsers last (r ∷ rs) o = elim (Bool-cases (is_last last r.0.user_key)) [
  | inl skip ↦ rw skip (distinct-RisingUsers last rs o.1)
  | inr kept ↦ rw kept (
    distinct_above r.0.user_key rs o.1 (All-imp (λ q l. user_of_Le r.0 q.0 l) rs o.0),
    distinct-RisingUsers (some r.0.user_key) rs o.1,
  )
]
