-- ===== src/Merge.antt =====
-- src/iter.rs, src/compact.rs: the heap with which both files merge sorted streams. The BinaryHeap
-- is the list of its items from the greatest to the least, and `pop` takes the first.
pub mod Heap
pub mod Pops
pub mod Runs
pub mod Fill
pub mod Distinct
pub mod Newest
use jadedb.Common.{ℕ, ◌+◌, compare, Ordering, if◌then◌else◌, Option, none, some}
use jadedb.Common.{List, [], ◌∷◌, set, get_elem?}
use jadedb.Common.Order.{then_cmp, is_lt}
use jadedb.Common.Result.{Result, ok, panic, ◌>>=◌}
use jadedb.Key.{InternalKey, Record, cmp}

pub record HeapItem : Type 0 where
  pub key : InternalKey
  pub value : List ℕ
  pub source : ℕ

-- `Ord for HeapItem`: the reverse of the order of keys, then of sources
abbrev pub item_cmp : HeapItem → HeapItem → Ordering
item_cmp a b = then_cmp (cmp b.key a.key) (compare b.source a.source)

-- `BinaryHeap::push`
unfoldable pub push : HeapItem → List HeapItem → List HeapItem
push x [] = x ∷ []
push x (y ∷ heap) =
    let rest = push x heap in if is_lt (item_cmp x y) then y ∷ rest else x ∷ (y ∷ heap)

-- `&mut streams[src]`
abbrev pub stream_at : List (List Record) → ℕ → Result (List Record)
stream_at streams src = elim (get_elem? streams src) [ none ↦ panic | some s ↦ ok s ]

-- the item of a stream, pushed
abbrev pub push_item : Option Record → ℕ → List HeapItem → List HeapItem
push_item none src heap = heap
push_item (some r) src heap = push (record { key = r.0; value = r.1; source = src }) heap

-- `advance` takes the next item of a stream that is to be merged, and leaves the items behind it.
module _ (advance : List Record → Option Record × List Record) where
  -- The loops over the streams that fill the heap, where the first stream has the number `i`.
  unfoldable pub fill : ℕ → List (List Record) → List HeapItem → List HeapItem × List (List Record)
  fill i [] heap = (heap, [])
  fill i (s ∷ streams) heap =
      let (item, rest) = advance s in
      let (heap', iters) = fill (i + 1) streams (push_item item i heap) in (heap', rest ∷ iters)

  -- the refill of the heap from the stream of an item that was popped
  unfoldable pub refill :
      ℕ → List HeapItem → List (List Record) → Result (List HeapItem × List (List Record))
  refill src heap streams = do
    s ← stream_at streams src
    let item = (advance s).0
    ok (push_item item src heap, set streams src (advance s).1)
