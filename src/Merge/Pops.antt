-- ===== src/Merge/Pops.antt =====
-- The records that a merge pops: all of its streams, in order.
use jadedb.Common.{
  ℕ, zero, suc, ◌+◌, ◌≤◌, ◌<◌, ◌≡◌, ◌≢◌, refl, sym, ap, subst, arith, true, false, inl, inr, Option,
  none, some, Option-cases,
}
use jadedb.Common.{List, [], ◌∷◌, All, length, set, get_or, get_elem?}
use jadedb.Common.BTreeMap
use jadedb.Common.Result.{ok, panic, ◌>>=◌}
use jadedb.Key.{Record, cmp}
use jadedb.Merge.{HeapItem, push_item, refill}
use jadedb.Merge.Heap.{IsHeap, All-push, All-of_push}

abbrev pub entry : HeapItem → Record
entry x = (x.key, x.value)

abbrev pub stream_of : List (List Record) → ℕ → List Record
stream_of streams i = get_or streams i []

stream_of-set_self :
    (ss : List (List Record)) (i : ℕ) (s : List Record)
    → i < length ss
    → stream_of (set ss i s) i ≡ s
stream_of-set_self [] i s h = absurd (omega arith)
stream_of-set_self (x ∷ ss) zero s h = refl
stream_of-set_self (x ∷ ss) (suc i) s h = stream_of-set_self ss i s (omega (arith, h))

stream_of-set_ne :
    (ss : List (List Record)) (i j : ℕ) (s : List Record)
    → i ≢ j
    → stream_of (set ss i s) j ≡ stream_of ss j
stream_of-set_ne [] i j s h = refl
stream_of-set_ne (x ∷ ss) zero zero s h = absurd (h refl)
stream_of-set_ne (x ∷ ss) zero (suc j) s h = refl
stream_of-set_ne (x ∷ ss) (suc i) zero s h = refl
stream_of-set_ne (x ∷ ss) (suc i) (suc j) s h = stream_of-set_ne ss i j s (λ e. h (ap suc e))

get_elem?-stream_of :
    (ss : List (List Record)) (i : ℕ) → i < length ss → get_elem? ss i ≡ some (stream_of ss i)
get_elem?-stream_of [] i h = absurd (omega arith)
get_elem?-stream_of (x ∷ ss) zero h = refl
get_elem?-stream_of (x ∷ ss) (suc i) h = get_elem?-stream_of ss i (omega (arith, h))

-- the number of records that streams have left
unfoldable pub total : List (List Record) → ℕ
total [] = 0
total (s ∷ ss) = length s + total ss

pub total-set :
    (ss : List (List Record)) (i : ℕ) (s : List Record)
    → i < length ss
    → total (set ss i s) + length (stream_of ss i) ≡ total ss + length s
unfolding total
total-set [] i s h = absurd (omega arith)
total-set (x ∷ ss) zero s h = omega arith
total-set (x ∷ ss) (suc i) s h = omega (arith, total-set ss i s (omega (arith, h)))

-- Taking the items of a stream one after the other gives the records `visible` of it.
pub record IsAdvance (advance : List Record → Option Record × List Record)
    (visible : List Record → List Record) : Type 0 where
  pub ends : (s : List Record) → (advance s).0 ≡ none → visible s ≡ []
  pub gives :
      (s : List Record) (r : Record)
      → (advance s).0 ≡ some r
      → (visible s ≡ r ∷ visible (advance s).1) × (length (advance s).1 < length s)
  pub rest_le : (s : List Record) → length (advance s).1 ≤ length s

module _ (advance : List Record → Option Record × List Record)
    (visible : List Record → List Record) where
  -- the heap and the streams after an item of the source `src` was popped
  abbrev pub heap_after : ℕ → List HeapItem → List (List Record) → List HeapItem
  heap_after src heap ss = push_item (advance (stream_of ss src)).0 src heap

  abbrev pub streams_after : ℕ → List (List Record) → List (List Record)
  streams_after src ss = set ss src (advance (stream_of ss src)).1

  -- The stream of an item exists, and what is left of it follows the item in order.
  abbrev pub Follows : ℕ → HeapItem → List Record → Type 0
  Follows n x s = (x.source < n) × BTreeMap.IsSorted cmp (entry x ∷ visible s)

  -- `P` holds of what the heap and the streams of its items will give.
  abbrev pub AllIn : (Record → Type 0) → List HeapItem → List (List Record) → Type 0
  AllIn P heap ss = All (λ x. P (entry x) × All P (visible (stream_of ss x.source))) heap

  pub record IsMerge (heap : List HeapItem) (ss : List (List Record)) : Type 0 where
    pub ordered : IsHeap heap
    pub follow : All (λ x. Follows (length ss) x (stream_of ss x.source)) heap

  -- The records `rs` are popped one after the other, until the heap is empty.
  unfoldable pub Pops : List Record → List HeapItem → List (List Record) → Type 0
  Pops [] [] ss = Unit
  Pops [] (x ∷ heap) ss = false ≡ true
  Pops (r ∷ rs) [] ss = false ≡ true
  Pops (r ∷ rs) (x ∷ heap) ss =
      (r ≡ entry x) × Pops rs (heap_after x.source heap ss) (streams_after x.source ss)

  pub refill_lem :
      (src : ℕ) (heap : List HeapItem) (ss : List (List Record))
      → src < length ss
      → refill advance src heap ss ≡ ok (heap_after src heap ss, streams_after src ss)
  unfolding refill
  refill_lem src heap ss h =
      ap
        (λ found. (elim found [ none ↦ panic | some s ↦ ok s ]) >>= λ s.
          ok (push_item (advance s).0 src heap, set ss src (advance s).1))
        (get_elem?-stream_of ss src h)

  -- Items of other sources do not see the change of a stream.
  others :
      (Q : HeapItem → List Record → Type 0) (i : ℕ) (s : List Record) (ss : List (List Record))
      (heap : List HeapItem)
      → All (λ y. i ≢ y.source) heap
      → All (λ y. Q y (stream_of ss y.source)) heap
      → All (λ y. Q y (stream_of (set ss i s) y.source)) heap
  others Q i s ss [] ne h = tt
  others Q i s ss (y ∷ heap) ne h =
      (subst (Q y) (sym (stream_of-set_ne ss i y.source s ne.0)) h.0, others Q i s ss heap ne.1 h.1)

  others_before :
      (Q : HeapItem → List Record → Type 0) (i : ℕ) (s : List Record) (ss : List (List Record))
      (heap : List HeapItem)
      → All (λ y. i ≢ y.source) heap
      → All (λ y. Q y (stream_of (set ss i s) y.source)) heap
      → All (λ y. Q y (stream_of ss y.source)) heap
  others_before Q i s ss [] ne h = tt
  others_before Q i s ss (y ∷ heap) ne h = (
    subst (Q y) (stream_of-set_ne ss i y.source s ne.0) h.0,
    others_before Q i s ss heap ne.1 h.1,
  )

  module _ (law : IsAdvance advance visible) (x : HeapItem) (heap : List HeapItem)
      (ss : List (List Record)) (in_range : x.source < length ss)
      (ne : All (λ y. x.source ≢ y.source) heap) where
    -- A predicate of items and their streams holds after a pop, if it held before and holds of the
    -- item that is pushed.
    pub All-after :
        (Q : HeapItem → List Record → Type 0)
        → All (λ y. Q y (stream_of ss y.source)) heap
        → ((r : Record)
            → visible (stream_of ss x.source) ≡ r ∷ visible (advance (stream_of ss x.source)).1
            → Q
                (record { key = r.0; value = r.1; source = x.source })
                (advance (stream_of ss x.source)).1)
        → All
            (λ y. Q y (stream_of (streams_after x.source ss) y.source))
            (heap_after x.source heap ss)
    All-after Q h new =
        let i = x.source in
        let s = stream_of ss i in
        let s' = (advance s).1 in
        let rest = others Q i s' ss heap ne h in
        let goal : Option Record → Type 0 =
          λ item. All (λ y. Q y (stream_of (set ss i s') y.source)) (push_item item i heap) in
        elim (Option-cases (advance s).0) [
          | inl e ↦ subst goal (sym e) rest
          | inr (r, e) ↦
              let item : HeapItem = record { key = r.0; value = r.1; source = i } in
              subst goal (sym e) (
                All-push (λ y. Q y (stream_of (set ss i s') y.source)) item heap
                  (subst (Q item) (sym (stream_of-set_self ss i s' in_range))
                    (new r (law.gives s r e).0))
                  rest)
        ]

    pub AllIn-after :
        (P : Record → Type 0)
        → AllIn P (x ∷ heap) ss
        → AllIn P (heap_after x.source heap ss) (streams_after x.source ss)
    AllIn-after P h =
        All-after (λ y s. P (entry y) × All P (visible s)) h.1 λ r e. subst (All P) e h.0.1

    -- What holds of all that a merge gives after a pop holds of the stream and of the heap before.
    pub AllIn-split :
        (P : Record → Type 0)
        → AllIn P (heap_after x.source heap ss) (streams_after x.source ss)
        → All P (visible (stream_of ss x.source)) × AllIn P heap ss
    AllIn-split P h =
        let i = x.source in
        let s = stream_of ss i in
        let s' = (advance s).1 in
        let Q : HeapItem → List Record → Type 0 = λ y t. P (entry y) × All P (visible t) in
        let given : Option Record → Type 0 =
          λ item. All (λ y. Q y (stream_of (set ss i s') y.source)) (push_item item i heap) in
        elim (Option-cases (advance s).0) [
          | inl e ↦ (
            subst (All P) (sym (law.ends s e)) tt,
            others_before Q i s' ss heap ne (subst given e h),
          )
          | inr (r, e) ↦
              let item : HeapItem = record { key = r.0; value = r.1; source = i } in
              let (new, rest) =
                All-of_push (λ y. Q y (stream_of (set ss i s') y.source)) item heap
                  (subst given e h) in
              let new' : Q item s' = subst (Q item) (stream_of-set_self ss i s' in_range) new in
              (subst (All P) (sym (law.gives s r e).0) new', others_before Q i s' ss heap ne rest)
        ]
