-- ===== src/Memtable.antt =====
-- src/memtable.rs: the table of recent writes, its lookup and its iterator.
pub mod History
pub mod Lookup
pub mod Iterator
pub mod Scan
pub mod Ascending
pub mod Concat
use jadedb.Common.{ℕ, zero, suc, ◌+◌, ◌%◌, ◌^◌, Bool, true, false, Option, none, some}
use jadedb.Common.{List, [], ◌∷◌, length, leb, ltb, if◌then◌else◌, lt, eq, gt}
use jadedb.Common.Words.{u64_max}
use jadedb.Common.Order.{bytes_cmp, bytes_eq}
use jadedb.Common.BTreeMap
use jadedb.Key.{ValueKind, put, InternalKey, cmp, Record}

pub record Entry : Type 0 where
  pub kind : ValueKind
  pub value : List ℕ

pub record MemTable : Type 0 where
  pub map : List Record
  pub approx_bytes : ℕ

abbrev pub new : MemTable
new = record { map = []; approx_bytes = 0 }

-- `fetch_add` wraps at the width of usize.
unfoldable pub put_mem : MemTable → InternalKey → List ℕ → MemTable
put_mem m key value =
    let bytes = length key.user_key + length value + 16 in
    record {
      map = BTreeMap.insert cmp key value m.map;
      approx_bytes = (m.approx_bytes + bytes) % 2 ^ 64;
    }

abbrev pub entry_of : Record → Entry
entry_of (k, v) = record { kind = k.kind; value = v }

-- the loop of `MemTable::get`
unfoldable pub first_visible : List ℕ → ℕ → List Record → Option Entry
first_visible user_key max_seq [] = none
first_visible user_key max_seq ((k, v) ∷ rest) =
    let next = first_visible user_key max_seq rest in
    if bytes_eq k.user_key user_key
    then (if leb k.seq max_seq then some (record { kind = k.kind; value = v }) else next)
    else none

unfoldable pub get : MemTable → List ℕ → ℕ → Option Entry
get m user_key max_seq =
    let start : InternalKey = record { user_key = user_key; seq = u64_max; kind = put } in
    first_visible user_key max_seq (BTreeMap.range_from cmp start m.map)

unfoldable pub is_empty : MemTable → Bool
is_empty m = elim m.map [ [] ↦ true | _ ∷ _ ↦ false ]

-- `std::ops::Bound<&[u8]>`
pub data Bound : Type 0 where
  included excluded : List ℕ → Bound
  unbounded : Bound

pub record MemTableIter : Type 0 where
  pub inner : List Record
  pub skip_key : Option (List ℕ)
  pub exclude : Bool
  pub max_seq : ℕ
  pub last_user : Option (List ℕ)

-- `MemTable::range_from`
unfoldable pub range_from : MemTable → Bound → ℕ → MemTableIter
range_from m start max_seq = record {
  inner = m.map;
  skip_key = elim start [ included k ↦ some k | excluded k ↦ some k | unbounded ↦ none ];
  exclude = elim start [ included k ↦ false | excluded k ↦ true | unbounded ↦ false ];
  max_seq = max_seq;
  last_user = none;
}

-- Does the iterator step over a key for the start of the range?
unfoldable pub is_skipped : Option (List ℕ) → Bool → List ℕ → Bool
is_skipped none exclude user_key = false
is_skipped (some skip) exclude user_key = elim (bytes_cmp user_key skip) [
  | lt ↦ true
  | eq ↦ exclude
  | gt ↦ false
]

-- `last_user.as_ref() == Some(&user_key)`
abbrev pub is_last : Option (List ℕ) → List ℕ → Bool
is_last none user_key = false
is_last (some last) user_key = bytes_eq last user_key

-- the `while let` loop of `MemTableIter::next`, over what `inner` has left
unfoldable pub next_in : MemTableIter → List Record → Option Record × MemTableIter
next_in it [] = (none, record it { inner = [] })
next_in it ((k, v) ∷ rest) =
    let again = next_in it rest in
    if is_skipped it.skip_key it.exclude k.user_key
    then again
    else if ltb it.max_seq k.seq
    then again
    else if is_last it.last_user k.user_key
    then again
    else (some (k, v), record it { inner = rest; last_user = some k.user_key })

unfoldable pub next : MemTableIter → Option Record × MemTableIter
next it = next_in it it.inner

-- `collect()`: the items until `next` gives none; `n` bounds the number of calls.
unfoldable pub collect : ℕ → MemTableIter → List Record
collect zero it = []
collect (suc n) it =
    let (item, it') = next it in
    let rest = collect n it' in elim item [ none ↦ [] | some r ↦ r ∷ rest ]
