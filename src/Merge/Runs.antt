-- ===== src/Merge/Runs.antt =====
-- A merge of sorted streams pops all of their records, each once, in order.
use jadedb.Common.{
  ℕ, zero, suc, ◌+◌, ◌≤◌, ◌<◌, ◌≡◌, ◌≢◌, refl, sym, ap, subst, arith, inl, inr, Option, none, some,
  Option-cases,
}
use jadedb.Common.{List, [], ◌∷◌, All, All-imp, length, set, length-set}
use jadedb.Common.BTreeMap
use jadedb.Key.{Record, cmp}
use jadedb.Merge.{HeapItem, push, push_item}
use jadedb.Merge.Heap.{Le, Le_of_cmp, Le_refl, Le_trans, Behind, IsHeap, push-IsHeap}
use jadedb.Merge.Pops.{
  entry, stream_of, total, total-set, IsAdvance, heap_after, streams_after, Follows, AllIn, IsMerge,
  Pops, All-after, AllIn-after, AllIn-split,
}

-- No record comes before one that stands in front of it.
abbrev pub Ordered : List Record → Type 0
Ordered [] = Unit
Ordered (r ∷ rs) = All (λ q. Le r.0 q.0) rs × Ordered rs

abbrev pub size : List HeapItem → List (List Record) → ℕ
size heap ss = length heap + total ss

pub length-push : (x : HeapItem) (heap : List HeapItem) → length (push x heap) ≡ suc (length heap)
unfolding push
length-push x [] = refl
length-push x (y ∷ heap) = ground (arith, length-push x heap)

module _ (advance : List Record → Option Record × List Record) (visible : List Record → List Record)
    (law : IsAdvance advance visible) where
  new_sources :
      (x : HeapItem) (heap : List HeapItem)
      → All (Behind x) heap
      → All (λ y. x.source ≢ y.source) heap
  new_sources x heap h = All-imp (λ y b. b.1) heap h

  pub after-IsMerge :
      (x : HeapItem) (heap : List HeapItem) (ss : List (List Record))
      → IsMerge advance visible (x ∷ heap) ss
      → IsMerge advance visible
          (heap_after advance visible x.source heap ss)
          (streams_after advance visible x.source ss)
  after-IsMerge x heap ss h =
      let i = x.source in
      let s' = (advance (stream_of ss i)).1 in
      let ne = new_sources x heap h.ordered.0 in
      let pushed : (item : Option Record) → IsHeap (push_item item i heap) = λ item.
        elim item as (λ k. IsHeap (push_item k i heap)) [
          | none ↦ h.ordered.1
          | some r ↦ push-IsHeap (record { key = r.0; value = r.1; source = i }) heap h.ordered.1 ne
        ] in
      record {
        ordered = pushed (advance (stream_of ss i)).0;
        follow =
            subst
              (λ n.
                All (λ y. Follows advance visible n y (stream_of (set ss i s') y.source))
                  (heap_after advance visible i heap ss))
              (sym (length-set ss i s'))
              (All-after advance visible law x heap ss h.follow.0.0 ne
                (Follows advance visible (length ss)) h.follow.1
                (λ r e. (
                  h.follow.0.0,
                  (subst (λ t. BTreeMap.IsSorted cmp (entry x ∷ t)) e h.follow.0.1).1,
                )));
      }

  size-after :
      (x : HeapItem) (heap : List HeapItem) (ss : List (List Record))
      → x.source < length ss
      → size
          (heap_after advance visible x.source heap ss)
          (streams_after advance visible x.source ss)
        < size (x ∷ heap) ss
  size-after x heap ss h =
      let s = stream_of ss x.source in
      let less = total-set ss x.source (advance s).1 h in
      let goal : Option Record → Type 0 = λ item.
        length (push_item item x.source heap) + total (streams_after advance visible x.source ss)
        < size (x ∷ heap) ss in
      elim (Option-cases (advance s).0) [
        | inl e ↦ subst goal (sym e) (omega (arith, less, law.rest_le s))
        | inr (r, e) ↦
            let shorter = (law.gives s r e).1 in
            subst goal (sym e) (
              omega (
                arith,
                less,
                shorter,
                length-push (record { key = r.0; value = r.1; source = x.source }) heap,
              ))
      ]

  pops_in :
      (n : ℕ) (heap : List HeapItem) (ss : List (List Record))
      → size heap ss ≤ n
      → IsMerge advance visible heap ss
      → (rs : List Record) × Pops advance visible rs heap ss × (length rs ≤ size heap ss)
  unfolding Pops
  pops_in n [] ss l h = ([], tt, omega arith)
  pops_in zero (x ∷ heap) ss l h = absurd (omega (arith, l))
  pops_in (suc n) (x ∷ heap) ss l h =
      let less = size-after x heap ss h.follow.0.0 in
      let (rs, p, short) =
        pops_in n (heap_after advance visible x.source heap ss)
          (streams_after advance visible x.source ss) (omega (arith, less, l))
          (after-IsMerge x heap ss h) in
      (entry x ∷ rs, (refl, p), omega (arith, short, less))

  -- A merge comes to an end, after no more pops than there are records.
  pub pops :
      (heap : List HeapItem) (ss : List (List Record))
      → IsMerge advance visible heap ss
      → (rs : List Record) × Pops advance visible rs heap ss × (length rs ≤ size heap ss)
  pops heap ss h = pops_in (size heap ss) heap ss (omega arith) h

  pub Pops-size :
      (rs : List Record) (heap : List HeapItem) (ss : List (List Record))
      → Pops advance visible rs heap ss
      → IsMerge advance visible heap ss
      → length rs ≤ size heap ss
  unfolding Pops
  Pops-size [] heap ss p h = omega arith
  Pops-size (r ∷ rs) [] ss p h = cc
  Pops-size (r ∷ rs) (x ∷ heap) ss p h = omega (
    arith,
    size-after x heap ss h.follow.0.0,
    Pops-size rs (heap_after advance visible x.source heap ss)
        (streams_after advance visible x.source ss) p.1 (after-IsMerge x heap ss h),
  )

  -- What holds of all records of the streams holds of those that are popped.
  pub Pops-All :
      (P : Record → Type 0) (rs : List Record) (heap : List HeapItem) (ss : List (List Record))
      → Pops advance visible rs heap ss
      → IsMerge advance visible heap ss
      → AllIn advance visible P heap ss
      → All P rs
  unfolding Pops
  Pops-All P [] heap ss p h all = tt
  Pops-All P (r ∷ rs) [] ss p h all = cc
  Pops-All P (r ∷ rs) (x ∷ heap) ss p h all =
      let ne = new_sources x heap h.ordered.0 in
      (
        subst P (sym p.0) all.0.0,
        Pops-All P rs _ _ p.1 (after-IsMerge x heap ss h)
            (AllIn-after advance visible law x heap ss h.follow.0.0 ne P all),
      )

  -- What holds of all records that are popped holds of those of the streams.
  pub Pops-AllIn :
      (P : Record → Type 0) (rs : List Record) (heap : List HeapItem) (ss : List (List Record))
      → Pops advance visible rs heap ss
      → IsMerge advance visible heap ss
      → All P rs
      → AllIn advance visible P heap ss
  unfolding Pops
  Pops-AllIn P [] [] ss p h all = tt
  Pops-AllIn P [] (x ∷ heap) ss p h all = cc
  Pops-AllIn P (r ∷ rs) [] ss p h all = tt
  Pops-AllIn P (r ∷ rs) (x ∷ heap) ss p h all =
      let ne = new_sources x heap h.ordered.0 in
      let (front, back) =
        AllIn-split advance visible law x heap ss h.follow.0.0 ne P
          (Pops-AllIn P rs _ _ p.1 (after-IsMerge x heap ss h) all.1) in
      ((subst P p.0 all.0, front), back)

  -- The first item of the heap comes before all that will be given.
  least :
      (x : HeapItem) (heap : List HeapItem) (ss : List (List Record))
      → IsMerge advance visible (x ∷ heap) ss
      → AllIn advance visible (λ q. Le x.key q.0) (x ∷ heap) ss
  least x heap ss h = (
    (Le_refl x.key, All-imp (λ q c. Le_of_cmp x.key q.0 c) _ h.follow.0.1.0),
    others heap h.ordered.0 h.follow.1,
  )
    where
      others :
          (ys : List HeapItem)
          → All (Behind x) ys
          → All (λ y. Follows advance visible (length ss) y (stream_of ss y.source)) ys
          → AllIn advance visible (λ q. Le x.key q.0) ys ss
      others [] b f = tt
      others (y ∷ ys) b f = (
        (b.0.0, All-imp (λ q c. Le_trans x.key y.key q.0 b.0.0 (Le_of_cmp y.key q.0 c)) _ f.0.1.0),
        others ys b.1 f.1,
      )

  -- Records are popped in order.
  pub Pops-Ordered :
      (rs : List Record) (heap : List HeapItem) (ss : List (List Record))
      → Pops advance visible rs heap ss
      → IsMerge advance visible heap ss
      → Ordered rs
  unfolding Pops
  Pops-Ordered [] heap ss p h = tt
  Pops-Ordered (r ∷ rs) [] ss p h = cc
  Pops-Ordered (r ∷ rs) (x ∷ heap) ss p h =
      let ne = new_sources x heap h.ordered.0 in
      let later = after-IsMerge x heap ss h in
      let above =
        Pops-All (λ q. Le x.key q.0) rs _ _ p.1 later
          (AllIn-after advance visible law x heap ss h.follow.0.0 ne (λ q. Le x.key q.0)
            (least x heap ss h)) in
      (
        subst (λ k. All (λ q. Le k q.0) rs) (sym (ap (λ e. e.0) p.0)) above,
        Pops-Ordered rs _ _ p.1 later,
      )
