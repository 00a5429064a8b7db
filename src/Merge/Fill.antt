-- ===== src/Merge/Fill.antt =====
-- The heap that a merge begins with.
use jadedb.Common.{
  ℕ, suc, ◌+◌, ◌<◌, ◌≡◌, ◌≢◌, ◌↔◌, refl, sym, ap, subst, ◌∙◌, arith, Option, none, some,
}
use jadedb.Common.{List, [], ◌∷◌, ◌++◌, append_assoc, All, All-imp, length, length-append, set}
use jadedb.Common.BTreeMap
use jadedb.Key.{Record, cmp, put}
use jadedb.Merge.{HeapItem, push_item, fill}
use jadedb.Merge.Heap.{All-push, IsHeap, push-IsHeap}
use jadedb.Merge.Pops.{
  entry, stream_of, IsAdvance, heap_after, streams_after, Follows, AllIn, IsMerge, All-after,
  AllIn-split,
}

set-middle :
    (before : List (List Record)) (s t : List Record) (ss : List (List Record))
    → set (before ++ (s ∷ ss)) (length before) t ≡ before ++ (t ∷ ss)
set-middle [] s t ss = refl
set-middle (x ∷ before) s t ss = ap (λ l. x ∷ l) (set-middle before s t ss)

stream_of-middle :
    (before : List (List Record)) (s : List Record) (ss : List (List Record))
    → stream_of (before ++ (s ∷ ss)) (length before) ≡ s
stream_of-middle [] s ss = refl
stream_of-middle (x ∷ before) s ss = stream_of-middle before s ss

-- an item whose only use is its source
abbrev source_item : ℕ → HeapItem
source_item i = record {
  key = record { user_key = []; seq = 0; kind = put };
  value = [];
  source = i;
}

module _ (advance : List Record → Option Record × List Record) (visible : List Record → List Record)
    (law : IsAdvance advance visible) where
  -- a merge whose first streams have been looked at
  record IsFilling (heap : List HeapItem) (before ss : List (List Record)) : Type 0 where
    merge : IsMerge advance visible heap (before ++ ss)
    below : All (λ y. y.source < length before) heap

  push_below :
      (item : Option Record) (i : ℕ) (heap : List HeapItem)
      → All (λ y. y.source < i) heap
      → All (λ y. y.source < suc i) (push_item item i heap)
  push_below none i heap h = All-imp (λ y l. omega (arith, l)) heap h
  push_below (some r) i heap h =
      All-push (λ y. y.source < suc i) (record { key = r.0; value = r.1; source = i }) heap
        (omega arith) (All-imp (λ y l. omega (arith, l)) heap h)

  push_new :
      (item : Option Record) (i : ℕ) (heap : List HeapItem)
      → All (λ y. i ≢ y.source) heap
      → IsHeap heap
      → IsHeap (push_item item i heap)
  push_new none i heap ne h = h
  push_new (some r) i heap ne h =
      push-IsHeap (record { key = r.0; value = r.1; source = i }) heap h ne

  module _ (heap : List HeapItem) (before : List (List Record)) (s : List Record)
      (ss : List (List Record)) (h : IsFilling heap before (s ∷ ss)) where
    abbrev after : List HeapItem
    after = push_item (advance s).0 (length before) heap

    new : All (λ y. length before ≢ y.source) heap
    new = All-imp (λ y l e. omega (arith, l, e)) heap h.below

    middle : length before < length (before ++ (s ∷ ss))
    middle = omega (arith, length-append before (s ∷ ss))

    heap_is : heap_after advance visible (length before) heap (before ++ (s ∷ ss)) ≡ after
    heap_is = ap (λ t. push_item (advance t).0 (length before) heap) (stream_of-middle before s ss)

    streams_is :
        streams_after advance visible (length before) (before ++ (s ∷ ss))
        ≡ before ++ ((advance s).1 ∷ ss)
    streams_is =
        ap (λ t. set (before ++ (s ∷ ss)) (length before) (advance t).1)
          (stream_of-middle before s ss)
        ∙ set-middle before s (advance s).1 ss

    -- One more stream keeps what holds of the items and of their streams.
    All-step :
        (Q : HeapItem → List Record → Type 0)
        → All (λ y. Q y (stream_of (before ++ (s ∷ ss)) y.source)) heap
        → ((r : Record)
            → visible s ≡ r ∷ visible (advance s).1
            → Q (record { key = r.0; value = r.1; source = length before }) (advance s).1)
        → All (λ y. Q y (stream_of (before ++ ((advance s).1 ∷ ss)) y.source)) after
    All-step Q all one =
        let i = length before in
        let item : Record → HeapItem = λ r. record { key = r.0; value = r.1; source = i } in
        let one' =
          subst
            (λ t. (r : Record) → visible t ≡ r ∷ visible (advance t).1 → Q (item r) (advance t).1)
            (sym (stream_of-middle before s ss)) one in
        let done =
          All-after advance visible law (source_item i) heap (before ++ (s ∷ ss)) middle new Q all
            one' in
        subst (λ z. All (λ y. Q y (stream_of (before ++ ((advance s).1 ∷ ss)) y.source)) z) heap_is
          (subst
            (λ z.
              All (λ y. Q y (stream_of z y.source))
                (heap_after advance visible i heap (before ++ (s ∷ ss))))
            streams_is done)

    AllIn-step :
        (P : Record → Type 0)
        → AllIn advance visible P after (before ++ ((advance s).1 ∷ ss))
        → All P (visible s) × AllIn advance visible P heap (before ++ (s ∷ ss))
    AllIn-step P all =
        let i = length before in
        let given =
          subst
            (λ z. AllIn advance visible P z (streams_after advance visible i (before ++ (s ∷ ss))))
            (sym heap_is) (subst (AllIn advance visible P after) (sym streams_is) all) in
        let (front, back) =
          AllIn-split advance visible law (source_item i) heap (before ++ (s ∷ ss)) middle new P
            given in
        (subst (λ t. All P (visible t)) (stream_of-middle before s ss) front, back)

    next-IsFilling :
        BTreeMap.IsSorted cmp (visible s) → IsFilling after (before ++ ((advance s).1 ∷ [])) ss
    next-IsFilling sorted =
        let s' = (advance s).1 in
        let n = length (before ++ (s ∷ ss)) in
        let m = length (before ++ (s' ∷ ss)) in
        let same : n ≡ m =
          omega (arith, length-append before (s ∷ ss), length-append before (s' ∷ ss)) in
        let shift : (before ++ (s' ∷ [])) ++ ss ≡ before ++ (s' ∷ ss) =
          append_assoc before (s' ∷ []) ss in
        let follow =
          All-step (Follows advance visible n) h.merge.follow
            (λ r e. (middle, subst (BTreeMap.IsSorted cmp) e sorted)) in
        record {
          merge = subst (IsMerge advance visible after) (sym shift) (record {
            ordered = push_new (advance s).0 (length before) heap new h.merge.ordered;
            follow =
                subst
                  (λ k.
                    All
                      (λ y. Follows advance visible k y (stream_of (before ++ (s' ∷ ss)) y.source))
                      after)
                  same follow;
          });
          below =
              subst (λ k. All (λ y. y.source < k) after)
                (omega (arith, length-append before (s' ∷ [])))
                (push_below (advance s).0 (length before) heap h.below);
        }

  -- The heap and the streams that `fill` leaves behind the streams `before`.
  abbrev filled_heap : List (List Record) → List (List Record) → List HeapItem → List HeapItem
  filled_heap before ss heap = (fill advance (length before) ss heap).0

  abbrev filled_streams :
      List (List Record) → List (List Record) → List HeapItem → List (List Record)
  filled_streams before ss heap = before ++ (fill advance (length before) ss heap).1

  -- A predicate of what `fill` leaves goes over from one stream to the next.
  fill-step :
      (C : List HeapItem → List (List Record) → Type 0) (before ss : List (List Record))
      (s : List Record) (heap : List HeapItem)
      → (let heap' = push_item (advance s).0 (length before) heap in
          let before' = before ++ ((advance s).1 ∷ []) in
          C (filled_heap before' ss heap') (filled_streams before' ss heap')
          ↔ C (filled_heap before (s ∷ ss) heap) (filled_streams before (s ∷ ss) heap))
  unfolding fill
  fill-step C before ss s heap =
      let heap' = push_item (advance s).0 (length before) heap in
      let before' = before ++ ((advance s).1 ∷ []) in
      let n : length before' ≡ length before + 1 =
        omega (arith, length-append before ((advance s).1 ∷ [])) in
      let eh : filled_heap before' ss heap' ≡ filled_heap before (s ∷ ss) heap =
        ap (λ k. (fill advance k ss heap').0) n in
      let es : filled_streams before' ss heap' ≡ filled_streams before (s ∷ ss) heap =
        append_assoc before ((advance s).1 ∷ []) (fill advance (length before') ss heap').1
        ∙ ap (λ k. before ++ ((advance s).1 ∷ (fill advance k ss heap').1)) n in
      (
        λ c.
            subst (λ z. C (filled_heap before (s ∷ ss) heap) z) es
              (subst (λ z. C z (filled_streams before' ss heap')) eh c),
        λ c.
            subst (λ z. C z (filled_streams before' ss heap')) (sym eh)
              (subst (λ z. C (filled_heap before (s ∷ ss) heap) z) (sym es) c),
      )

  abbrev pub AllStreams : (Record → Type 0) → List (List Record) → Type 0
  AllStreams P ss = All (λ s. All P (visible s)) ss

  fill-IsMerge :
      (before ss : List (List Record)) (heap : List HeapItem)
      → IsFilling heap before ss
      → All (λ s. BTreeMap.IsSorted cmp (visible s)) ss
      → IsMerge advance visible (filled_heap before ss heap) (filled_streams before ss heap)
  fill-IsMerge before [] heap h sorted = unfold fill in h.merge
  fill-IsMerge before (s ∷ ss) heap h sorted =
      (fill-step (IsMerge advance visible) before ss s heap).0 (
        fill-IsMerge (before ++ ((advance s).1 ∷ [])) ss _
          (next-IsFilling heap before s ss h sorted.0) sorted.1)

  fill-AllIn :
      (P : Record → Type 0) (before ss : List (List Record)) (heap : List HeapItem)
      → IsFilling heap before ss
      → All (λ s. BTreeMap.IsSorted cmp (visible s)) ss
      → AllIn advance visible P heap (before ++ ss)
      → AllStreams P ss
      → AllIn advance visible P (filled_heap before ss heap) (filled_streams before ss heap)
  fill-AllIn P before [] heap h sorted all streams = unfold fill in all
  fill-AllIn P before (s ∷ ss) heap h sorted all streams =
      let s' = (advance s).1 in
      let step =
        All-step heap before s ss h (λ y t. P (entry y) × All P (visible t)) all
          (λ r e. subst (All P) e streams.0) in
      (fill-step (AllIn advance visible P) before ss s heap).0 (
        fill-AllIn P (before ++ (s' ∷ [])) ss _ (next-IsFilling heap before s ss h sorted.0)
          sorted.1
          (subst (AllIn advance visible P (push_item (advance s).0 (length before) heap))
            (sym (append_assoc before (s' ∷ []) ss)) step)
          streams.1)

  AllIn-fill :
      (P : Record → Type 0) (before ss : List (List Record)) (heap : List HeapItem)
      → IsFilling heap before ss
      → All (λ s. BTreeMap.IsSorted cmp (visible s)) ss
      → AllIn advance visible P (filled_heap before ss heap) (filled_streams before ss heap)
      → AllIn advance visible P heap (before ++ ss) × AllStreams P ss
  AllIn-fill P before [] heap h sorted all = (unfold fill in all, tt)
  AllIn-fill P before (s ∷ ss) heap h sorted all =
      let s' = (advance s).1 in
      let (behind, streams) =
        AllIn-fill P (before ++ (s' ∷ [])) ss _ (next-IsFilling heap before s ss h sorted.0)
          sorted.1 ((fill-step (AllIn advance visible P) before ss s heap).1 all) in
      let (front, back) = AllIn-step heap before s ss h P (
        subst (AllIn advance visible P (push_item (advance s).0 (length before) heap))
          (append_assoc before (s' ∷ []) ss) behind) in
      (back, (front, streams))

  begin : (ss : List (List Record)) → IsFilling [] [] ss
  begin ss = record { merge = record { ordered = tt; follow = tt }; below = tt }

  -- The heap and the streams that a merge of sorted streams begins with.
  pub filled-IsMerge :
      (ss : List (List Record))
      → All (λ s. BTreeMap.IsSorted cmp (visible s)) ss
      → IsMerge advance visible (fill advance 0 ss []).0 (fill advance 0 ss []).1
  filled-IsMerge ss sorted = fill-IsMerge [] ss [] (begin ss) sorted

  -- What holds of the records of the streams holds of those that the merge will give.
  pub filled-AllIn :
      (P : Record → Type 0) (ss : List (List Record))
      → All (λ s. BTreeMap.IsSorted cmp (visible s)) ss
      → AllStreams P ss
      → AllIn advance visible P (fill advance 0 ss []).0 (fill advance 0 ss []).1
  filled-AllIn P ss sorted streams = fill-AllIn P [] ss [] (begin ss) sorted tt streams

  -- What holds of those that the merge will give holds of the records of the streams.
  pub AllIn-filled :
      (P : Record → Type 0) (ss : List (List Record))
      → All (λ s. BTreeMap.IsSorted cmp (visible s)) ss
      → AllIn advance visible P (fill advance 0 ss []).0 (fill advance 0 ss []).1
      → AllStreams P ss
  AllIn-filled P ss sorted all = (AllIn-fill P [] ss [] (begin ss) sorted all).1
