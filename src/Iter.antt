-- ===== src/Iter.antt =====
-- src/iter.rs: the iterator that merges sorted streams, newest versions first.
pub mod Next
pub mod Lookup
pub mod Sources
use jadedb.Common.{ℕ, zero, suc, ◌+◌, leb, length, Bool, if◌then◌else◌, Option, none, some}
use jadedb.Common.{List, [], ◌∷◌}
use jadedb.Common.Result.{Result, ok, panic, ◌>>=◌}
use jadedb.Key.{Record, put, delete}
use jadedb.Memtable.{is_last}
use jadedb.Merge.{HeapItem, fill, refill}
use jadedb.Merge.Pops.{total}

-- a user key, and its value if it is not a tombstone
abbrev pub Item : Type 0
Item = List ℕ × Option (List ℕ)

pub record MergeIterator : Type 0 where
  pub heap : List HeapItem
  pub streams : List (List Record)
  pub last_user : Option (List ℕ)
  pub max_seq : ℕ
  pub skip_tombstones : Bool

-- the loop `while let Some((k, v)) = it.next()`, up to the first visible item
unfoldable pub next_visible : ℕ → List Record → Option Record × List Record
next_visible max_seq [] = (none, [])
next_visible max_seq (r ∷ rest) =
    let later = next_visible max_seq rest in if leb r.0.seq max_seq then (some r, rest) else later

-- `from_sorted_streams`
unfoldable pub from_sorted_streams : List (List Record) → ℕ → Bool → MergeIterator
from_sorted_streams streams max_seq skip_tombstones =
    let (heap, iters) = fill (next_visible max_seq) 0 streams [] in
    record {
      heap = heap;
      streams = iters;
      last_user = none;
      max_seq = max_seq;
      skip_tombstones = skip_tombstones;
    }

-- what a round shows of an item of another user key, or `skipped` for a tombstone that is not shown
abbrev pub show_item :
    HeapItem
    → MergeIterator
    → Result (Option Item × MergeIterator)
    → Result (Option Item × MergeIterator)
show_item item it skipped = elim item.key.kind [
  | delete ↦ if it.skip_tombstones then skipped else ok (some (item.key.user_key, none), it)
  | put ↦ ok (some (item.key.user_key, some item.value), it)
]

-- The loop of `next`, with a bound on the number of rounds. The bound is no limit: `next` gives
-- more than the rounds that the loop takes.
unfoldable pub next_loop : ℕ → MergeIterator → Result (Option Item × MergeIterator)
next_loop zero it = panic
next_loop (suc n) it = elim it.heap [
  | [] ↦ ok (none, it)
  | item ∷ heap ↦ refill (next_visible it.max_seq) item.source heap it.streams >>= λ filled.
      let it' = record it { heap = filled.0; streams = filled.1 } in
      let again = next_loop n it' in
      let shown = record it' { last_user = some item.key.user_key } in
      let later = show_item item shown (next_loop n shown) in
      if is_last it.last_user item.key.user_key then again else later
]

-- `MergeIterator::next`
abbrev pub next : MergeIterator → Result (Option Item × MergeIterator)
next it = next_loop (length it.heap + total it.streams + 1) it

-- `collect()`: the items until `next` gives none
unfoldable pub collect_loop : ℕ → MergeIterator → Result (List Item)
collect_loop zero it = panic
collect_loop (suc n) it = next it >>= λ found.
    let rest = collect_loop n found.1 in
    elim found.0 [ none ↦ ok [] | some item ↦ rest >>= λ items. ok (item ∷ items) ]

abbrev pub collect : MergeIterator → Result (List Item)
collect it = collect_loop (length it.heap + total it.streams + 1) it
