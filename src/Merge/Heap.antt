-- ===== src/Merge/Heap.antt =====
-- The order of the heap: what is popped has the least key.
use jadedb.Common.{
  ◌≡◌, ◌≢◌, refl, sym, arith, true, false, Bool-cases, inl, inr, List, [], ◌∷◌, All, lt, eq,
}
use jadedb.Common.Order.{is_lt}
use jadedb.Key.{InternalKey, cmp}
use jadedb.Key.Order.{cmp-IsOrder}
use jadedb.Merge.{HeapItem, item_cmp, push}

-- `j` does not come after `k`.
abbrev pub Le : InternalKey → InternalKey → Type 0
Le j k = is_lt (cmp k j) ≡ false

pub Le_refl : (k : InternalKey) → Le k k
Le_refl k = rw (cmp-IsOrder.cmp_refl k) refl

pub Le_trans : (i j k : InternalKey) → Le i j → Le j k → Le i k
Le_trans i j k p q =
    let s = cmp-IsOrder.cmp_swap i j in
    let t = cmp-IsOrder.cmp_swap j k in
    let u = cmp-IsOrder.cmp_swap i k in
    let e = cmp-IsOrder.eq_of_cmp i j in
    let f = cmp-IsOrder.eq_of_cmp j k in
    let tr = cmp-IsOrder.cmp_trans i j k in
    let e' : cmp i j ≡ eq → cmp i k ≡ cmp j k = λ h. rw (e h) refl in
    let f' : cmp j k ≡ eq → cmp i j ≡ cmp i k = λ h. rw (f h) refl in
    ground (arith, s, t, u, e', f', tr)

pub Le_of_cmp : (j k : InternalKey) → cmp j k ≡ lt → Le j k
Le_of_cmp j k h = let s = cmp-IsOrder.cmp_swap j k in ground (arith, s)

-- An item that is not less in the order of the heap has the smaller key, and conversely.
Le_of_item : (x y : HeapItem) → is_lt (item_cmp x y) ≡ false → Le x.key y.key
Le_of_item x y h = ground arith

Le_of_less : (x y : HeapItem) → is_lt (item_cmp x y) ≡ true → Le y.key x.key
Le_of_less x y h = let s = cmp-IsOrder.cmp_swap y.key x.key in ground (arith, s)

-- Each item comes before those behind it, and has another source.
abbrev pub Behind : HeapItem → HeapItem → Type 0
Behind x y = Le x.key y.key × (x.source ≢ y.source)

abbrev pub IsHeap : List HeapItem → Type 0
IsHeap [] = Unit
IsHeap (x ∷ heap) = All (Behind x) heap × IsHeap heap

pub All-push :
    (P : HeapItem → Type 0) (x : HeapItem) (heap : List HeapItem)
    → P x
    → All P heap
    → All P (push x heap)
unfolding push
All-push P x [] p h = (p, tt)
All-push P x (y ∷ heap) p h = elim (Bool-cases (is_lt (item_cmp x y))) [
  | inl less ↦ rw less (h.0, All-push P x heap p h.1)
  | inr first ↦ rw first (p, h)
]

pub All-of_push :
    (P : HeapItem → Type 0) (x : HeapItem) (heap : List HeapItem)
    → All P (push x heap)
    → P x × All P heap
unfolding push
All-of_push P x [] h = h
All-of_push P x (y ∷ heap) h = elim (Bool-cases (is_lt (item_cmp x y))) [
  | inl less ↦
      let h' : P y × All P (push x heap) = rw less at h in
      let (p, rest) = All-of_push P x heap h'.1 in (p, (h'.0, rest))
  | inr first ↦ rw first at h
]

-- Pushing an item of a new source keeps the heap ordered.
pub push-IsHeap :
    (x : HeapItem) (heap : List HeapItem)
    → IsHeap heap
    → All (λ y. x.source ≢ y.source) heap
    → IsHeap (push x heap)
unfolding push
push-IsHeap x [] h new = (tt, tt)
push-IsHeap x (y ∷ heap) h new = elim (Bool-cases (is_lt (item_cmp x y))) [
  | inl less ↦ rw less (
    All-push (Behind y) x heap (Le_of_less x y less, λ e. new.0 (sym e)) h.0,
    push-IsHeap x heap h.1 new.1,
  )
  | inr first ↦
      let le = Le_of_item x y first in
      rw first
        (((le, new.0), behind_all heap (λ z q. Le_trans x.key y.key z.key le q.0) h.0 new.1), h)
]
  where
    behind_all :
        (heap : List HeapItem)
        → ((z : HeapItem) → Behind y z → Le x.key z.key)
        → All (Behind y) heap
        → All (λ z. x.source ≢ z.source) heap
        → All (Behind x) heap
    behind_all [] f b n = tt
    behind_all (z ∷ zs) f b n = ((f z b.0, n.0), behind_all zs f b.1 n.1)
