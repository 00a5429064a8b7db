-- ===== src/Iter/Lookup.antt =====
-- What a merge shows of each user key: the newest version that it may see.
use jadedb.Common.{
  ℕ, ◌≡◌, refl, sym, ap, subst, ◌∙◌, arith, Bool, true, false, Bool-cases, inl, inr, Option, none,
  some, Option-cases, if◌then◌else◌, leb,
}
use jadedb.Common.{List, [], ◌∷◌, All, All-imp, All-split, All-append, All-retain, lt}
use jadedb.Common.BTreeMap
use jadedb.Common.Order.{bytes_cmp, bytes_eq, bytes_eq→≡, bytes_cmp_refl}
use jadedb.Common.Result.{ok}
use jadedb.Key.{Record, cmp, put, delete, ValueKind}
use jadedb.Key.Versions.{newest}
use jadedb.Sstable.Builder.Layout.{concat}
use jadedb.Merge.Runs.{pops, Pops-All, Pops-AllIn, Pops-Ordered, Ordered}
use jadedb.Merge.Fill.{filled-IsMerge, filled-AllIn, AllIn-filled}
use jadedb.Merge.Distinct.{distinct, first_of, first_of-distinct, RisingUsers, distinct-RisingUsers}
use jadedb.Merge.Newest.{IsConsistent, first_of-newest}
use jadedb.Iter.{Item, from_sorted_streams, collect}
use jadedb.Iter.Next.{
  visible, next_visible-IsAdvance, shown, items, items-cons, Holds, collect-to_show,
}

retain-IsSorted :
    (m : ℕ) (s : List Record) → BTreeMap.IsSorted cmp s → BTreeMap.IsSorted cmp (visible m s)
retain-IsSorted m [] h = tt
retain-IsSorted m (r ∷ s) h = elim (Bool-cases (leb r.0.seq m)) [
  | inl seen ↦ rw seen (All-retain _ _ s h.0, retain-IsSorted m s h.1)
  | inr hidden ↦ rw hidden (retain-IsSorted m s h.1)
]

all_visible-IsSorted :
    (m : ℕ) (ss : List (List Record))
    → All (BTreeMap.IsSorted cmp) ss
    → All (λ s. BTreeMap.IsSorted cmp (visible m s)) ss
all_visible-IsSorted m ss h = All-imp (λ s o. retain-IsSorted m s o) ss h

-- A predicate of the visible records, stated of each stream or of all records.
to_visible :
    (P : Record → Type 0) (m : ℕ) (s : List Record)
    → All (λ q. leb q.0.seq m ≡ true → P q) s
    → All P (visible m s)
to_visible P m [] h = tt
to_visible P m (r ∷ s) h = elim (Bool-cases (leb r.0.seq m)) [
  | inl seen ↦ rw seen (h.0 seen, to_visible P m s h.1)
  | inr hidden ↦ rw hidden (to_visible P m s h.1)
]

of_visible :
    (P : Record → Type 0) (m : ℕ) (s : List Record)
    → All P (visible m s)
    → All (λ q. leb q.0.seq m ≡ true → P q) s
of_visible P m [] h = tt
of_visible P m (r ∷ s) h = elim (Bool-cases (leb r.0.seq m)) [
  | inl seen ↦ let h' : All P (r ∷ visible m s) = rw seen at h in (λ _. h'.0, of_visible P m s h'.1)
  | inr hidden ↦
      let h' : All P (visible m s) = rw hidden at h in
      (λ seen. absurd (ground (arith, hidden, seen)), of_visible P m s h')
]

to_streams :
    (P : Record → Type 0) (m : ℕ) (ss : List (List Record))
    → All (λ q. leb q.0.seq m ≡ true → P q) (concat ss)
    → All (λ s. All P (visible m s)) ss
unfolding concat
to_streams P m [] h = tt
to_streams P m (s ∷ ss) h =
    let (front, back) = All-split _ s (concat ss) h in
    (to_visible P m s front, to_streams P m ss back)

of_streams :
    (P : Record → Type 0) (m : ℕ) (ss : List (List Record))
    → All (λ s. All P (visible m s)) ss
    → All (λ q. leb q.0.seq m ≡ true → P q) (concat ss)
unfolding concat
of_streams P m [] h = tt
of_streams P m (s ∷ ss) h =
    All-append _ s (concat ss) (of_visible P m s h.0) (of_streams P m ss h.1)

-- the item with a user key
unfoldable pub find_item : List ℕ → List Item → Option Item
find_item u [] = none
find_item u (i ∷ rest) = let later = find_item u rest in if bytes_eq i.0 u then some i else later

-- User keys rise strictly along a list of items.
unfoldable pub RisingItems : List Item → Type 0
RisingItems [] = Unit
RisingItems (i ∷ rest) = All (λ j. bytes_cmp i.0 j.0 ≡ lt) rest × RisingItems rest

shown_key :
    (skip : Bool) (r : Record) (i : Item) → shown skip (some r) ≡ some i → i.0 ≡ r.0.user_key
unfolding shown
shown_key skip r i e = kind_cases r.0.kind refl
  where
    kind_cases : (k : ValueKind) → r.0.kind ≡ k → i.0 ≡ r.0.user_key
    kind_cases put k = ground (arith, k)
    kind_cases delete k = ground (arith, k)

items-All :
    (w : List ℕ) (skip : Bool) (rs : List Record)
    → All (λ q. bytes_cmp w q.0.user_key ≡ lt) rs
    → All (λ i. bytes_cmp w i.0 ≡ lt) (items skip rs)
items-All w skip [] h = unfold items in tt
items-All w skip (r ∷ rs) h = elim (Option-cases (shown skip (some r))) [
  | inl hidden ↦ rw (items-cons skip r rs none hidden) (items-All w skip rs h.1)
  | inr (i, e) ↦
      rw (items-cons skip r rs (some i) e)
        (subst (λ k. bytes_cmp w k ≡ lt) (sym (shown_key skip r i e)) h.0, items-All w skip rs h.1)
]

items-RisingItems : (skip : Bool) (rs : List Record) → RisingUsers rs → RisingItems (items skip rs)
unfolding RisingItems
items-RisingItems skip [] h = unfold items in tt
items-RisingItems skip (r ∷ rs) h = elim (Option-cases (shown skip (some r))) [
  | inl hidden ↦ rw (items-cons skip r rs none hidden) (items-RisingItems skip rs h.1)
  | inr (i, e) ↦ rw (items-cons skip r rs (some i) e) (
    subst (λ k. All (λ j. bytes_cmp k j.0 ≡ lt) (items skip rs)) (sym (shown_key skip r i e))
        (items-All r.0.user_key skip rs h.0),
    items-RisingItems skip rs h.1,
  )
]

find_above :
    (u : List ℕ) (is : List Item) → All (λ i. bytes_cmp u i.0 ≡ lt) is → find_item u is ≡ none
unfolding find_item
find_above u [] h = refl
find_above u (i ∷ is) h = elim (Bool-cases (bytes_eq i.0 u)) [
  | inl same ↦
      let e = bytes_eq→≡ i.0 u same in
      let clash : bytes_cmp u u ≡ lt = subst (λ w. bytes_cmp u w ≡ lt) e h.0 in
      absurd (ground (arith, clash, bytes_cmp_refl u))
  | inr other ↦ rw other (find_above u is h.1)
]

find_item-items :
    (u : List ℕ) (skip : Bool) (rs : List Record)
    → RisingUsers rs
    → find_item u (items skip rs) ≡ shown skip (first_of u rs)
unfolding find_item first_of
find_item-items u skip [] h = unfold shown in unfold items in refl
find_item-items u skip (r ∷ rs) h =
    let ih = find_item-items u skip rs h.1 in
    elim (Bool-cases (bytes_eq r.0.user_key u)) [
      | inl same ↦
          let user = bytes_eq→≡ r.0.user_key u same in
          let nothing = find_above u (items skip rs) (
            subst (λ k. All (λ j. bytes_cmp k j.0 ≡ lt) (items skip rs)) user
              (items-All r.0.user_key skip rs h.0)) in
          elim (Option-cases (shown skip (some r))) [
            | inl hidden ↦ rw (items-cons skip r rs none hidden, same, hidden) nothing
            | inr (i, e) ↦
                let key : bytes_eq i.0 u ≡ true =
                  subst (λ k. bytes_eq k u ≡ true) (sym (shown_key skip r i e)) same in
                rw (items-cons skip r rs (some i) e, same, e, key) refl
          ]
      | inr other ↦ elim (Option-cases (shown skip (some r))) [
        | inl hidden ↦ rw (items-cons skip r rs none hidden, other) ih
        | inr (i, e) ↦
            let key : bytes_eq i.0 u ≡ false =
              subst (λ k. bytes_eq k u ≡ false) (sym (shown_key skip r i e)) other in
            rw (items-cons skip r rs (some i) e, other, key) ih
      ]
    ]

module _ (ss : List (List Record)) (max_seq : ℕ) (skip : Bool)
    (sorted : All (BTreeMap.IsSorted cmp) ss) where
  -- What the merge of the streams pops.
  record Merged : Type 0 where
    rs : List Record
    holds : Holds (from_sorted_streams ss max_seq skip) rs
    ordered : Ordered rs

  merged : Merged
  merged =
      let law = next_visible-IsAdvance max_seq in
      let start = filled-IsMerge _ _ law ss (all_visible-IsSorted max_seq ss sorted) in
      let (rs, p, short) = pops _ _ law _ _ start in
      record {
        rs = rs;
        holds = unfold from_sorted_streams in record { merge = start; popped = p };
        ordered = Pops-Ordered _ _ law rs _ _ p start;
      }

  -- The items that the iterator gives.
  merged_items :
      (m : Merged)
      → collect (from_sorted_streams ss max_seq skip) ≡ ok (items skip (distinct none m.rs))
  unfolding from_sorted_streams
  merged_items m = collect-to_show (from_sorted_streams ss max_seq skip) m.rs m.holds

  -- Iterating over the merge of sorted streams ends without a panic, and the items that it gives
  -- have rising user keys.
  pub collect-RisingItems :
      (out : List Item) × (collect (from_sorted_streams ss max_seq skip) ≡ ok out) × RisingItems out
  collect-RisingItems = (
    _,
    merged_items merged,
    items-RisingItems skip _ (distinct-RisingUsers none merged.rs merged.ordered),
  )

  -- Iterating over the merge of sorted streams ends without a panic, and what it gives for a user key
  -- is the newest of all versions in the streams with a sequence number up to the bound: its value,
  -- or for a tombstone none or no item at all, where records with the same user key and sequence
  -- number are the same.
  pub collect-newest_item :
      (u : List ℕ)
      → IsConsistent (concat ss)
      → (out : List Item) × (collect (from_sorted_streams ss max_seq skip) ≡ ok out)
        × (find_item u out ≡ shown skip (newest u max_seq (concat ss)))
  unfolding from_sorted_streams
  collect-newest_item u consistent =
      let m = merged in
      let law = next_visible-IsAdvance max_seq in
      let ordered_streams = all_visible-IsSorted max_seq ss sorted in
      let fwd : (P : Record → Type 0)
          → All (λ q. leb q.0.seq max_seq ≡ true → P q) (concat ss)
          → All P m.rs =
        λ P all.
          Pops-All _ _ law P m.rs _ _ m.holds.popped m.holds.merge
            (filled-AllIn _ _ law P ss ordered_streams (to_streams P max_seq ss all)) in
      let bwd : (P : Record → Type 0)
          → All P m.rs
          → All (λ q. leb q.0.seq max_seq ≡ true → P q) (concat ss) =
        λ P all. of_streams P max_seq ss (
          AllIn-filled _ _ law P ss ordered_streams
            (Pops-AllIn _ _ law P m.rs _ _ m.holds.popped m.holds.merge all)) in
      (
        items skip (distinct none m.rs),
        merged_items m,
        find_item-items u skip (distinct none m.rs) (distinct-RisingUsers none m.rs m.ordered)
            ∙ ap (shown skip) (
                first_of-distinct u none m.rs refl
                ∙ first_of-newest max_seq (concat ss) m.rs fwd bwd u m.ordered consistent),
      )
