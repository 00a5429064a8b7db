-- ===== src/Memtable/Lookup.antt =====
-- `MemTable::get` against the exhaustive search, and the order of the table's entries.
use jadedb.Common.{ℕ, ◌≤◌, ◌<◌, ◌≡◌, refl, true, false, Option, none, some, arith, List, [], ◌∷◌}
use jadedb.Common.{◌∙◌, ap, inl, inr, Option-cases, lt, All, All-imp}
use jadedb.Common.Words.{u64_max}
use jadedb.Common.Order.{
  bytes_cmp, bytes_eq, is_lt, eq_of_bytes_cmp, bytes_cmp_swap, bytes_cmp_refl,
}
use jadedb.Common.Order.{bytes_cmp_trans}
use jadedb.Common.BTreeMap
use jadedb.Key.{InternalKey, Record, cmp, put}
use jadedb.Key.Order.{cmp-IsOrder}
use jadedb.Key.Versions.{newest, sees, SeqsBelow}
use jadedb.Memtable.{Entry, MemTable, entry_of, first_visible, get}

abbrev pub entry_of? : Option Record → Option Entry
entry_of? none = none
entry_of? (some r) = some (entry_of r)

-- Behind a version of `u`, a version of `u` is not newer.
behind :
    (k j : InternalKey) (u : List ℕ)
    → cmp k j ≡ lt
    → bytes_eq j.user_key u ≡ true
    → bytes_eq k.user_key u ≡ true
    → j.seq ≤ k.seq
unfolding cmp
behind k j u h p q =
    ground (arith, eq_of_bytes_cmp j.user_key u, eq_of_bytes_cmp k.user_key u, bytes_cmp_refl u)

-- Behind a key above `u`, every user key is above `u`.
above :
    (k j : InternalKey) (u : List ℕ)
    → cmp k j ≡ lt
    → bytes_cmp u k.user_key ≡ lt
    → bytes_cmp u j.user_key ≡ lt
unfolding cmp
above k j u h p =
    ground (arith, bytes_cmp_trans u k.user_key j.user_key, eq_of_bytes_cmp k.user_key j.user_key)

pub newest_above :
    (u : List ℕ) (s : ℕ) (k : InternalKey) (m : List Record)
    → bytes_cmp u k.user_key ≡ lt
    → BTreeMap.Before cmp k m
    → newest u s m ≡ none
unfolding newest
newest_above u s k [] h b = refl
newest_above u s k ((j, w) ∷ m) h b =
    let rest = newest_above u s k m h b.1 in
    ground (arith, rest, above k j u b.0 h, bytes_cmp_swap u j.user_key)

newest_behind :
    (u : List ℕ) (s : ℕ) (k : InternalKey) (m : List Record) (y : Record)
    → bytes_eq k.user_key u ≡ true
    → BTreeMap.Before cmp k m
    → newest u s m ≡ some y
    → y.0.seq ≤ k.seq
unfolding newest
newest_behind u s k [] y h b e = cc
newest_behind u s k ((j, w) ∷ m) y h b e =
    let rest = newest_behind u s k m y h b.1 in ground (arith, rest, behind k j u b.0)

-- The first version that can be seen is the newest.
pub newest-front :
    (u : List ℕ) (s : ℕ) (k : InternalKey) (v : List ℕ) (m : List Record)
    → BTreeMap.Before cmp k m
    → sees u s k ≡ true
    → newest u s ((k, v) ∷ m) ≡ some (k, v)
unfolding newest
newest-front u s k v m b h = elim (Option-cases (newest u s m)) [
  | inl e ↦ rw (h, e)
  | inr (y, e) ↦
      let q : bytes_eq k.user_key u ≡ true = ground arith in
      let le = newest_behind u s k m y q b e in rw (h, e) (ground arith)
]

first_visible-step :
    (u : List ℕ) (s : ℕ) (k : InternalKey) (v : List ℕ) (m : List Record)
    → BTreeMap.Before cmp k m
    → is_lt (bytes_cmp k.user_key u) ≡ false
    → first_visible u s m ≡ entry_of? (newest u s m)
    → first_visible u s ((k, v) ∷ m) ≡ entry_of? (newest u s ((k, v) ∷ m))
unfolding first_visible
first_visible-step u s k v m b g rest =
    let front = newest-front u s k v m b in
    let swap = bytes_cmp_swap k.user_key u in
    let clear = newest_above u s k m in unfold newest in ground (arith, front, swap, clear, rest)

first_visible-newest :
    (u : List ℕ) (s : ℕ) (m : List Record)
    → BTreeMap.IsSorted cmp m
    → All (λ e. is_lt (bytes_cmp e.0.user_key u) ≡ false) m
    → first_visible u s m ≡ entry_of? (newest u s m)
unfolding first_visible
first_visible-newest u s [] h g = unfold newest in refl
first_visible-newest u s ((k, v) ∷ m) h g =
    let rest = first_visible-newest u s m h.1 g.1 in first_visible-step u s k v m h.0 g.0 rest

start_key : List ℕ → InternalKey
start_key u = record { user_key = u; seq = u64_max; kind = put }

skipped :
    (u : List ℕ) (s : ℕ) (k : InternalKey)
    → k.seq < u64_max
    → is_lt (cmp k (start_key u)) ≡ true
    → sees u s k ≡ false
unfolding cmp start_key
skipped u s k h e = ground arith

reached :
    (u : List ℕ) (k : InternalKey)
    → is_lt (cmp k (start_key u)) ≡ false
    → is_lt (bytes_cmp k.user_key u) ≡ false
unfolding cmp start_key
reached u k e = ground arith

newest-range_from :
    (u : List ℕ) (s : ℕ) (m : List Record)
    → SeqsBelow u64_max m
    → newest u s (BTreeMap.range_from cmp (start_key u) m) ≡ newest u s m
unfolding newest BTreeMap.range_from
newest-range_from u s [] h = refl
newest-range_from u s ((k, v) ∷ m) h =
    let rest = newest-range_from u s m h.1 in ground (arith, rest, skipped u s k h.0)

-- On a table in the order of its keys, whose sequence numbers are below the greatest u64, `get`
-- finds what a search through all entries for the newest visible version finds.
pub get-newest :
    (m : MemTable) (user_key : List ℕ) (max_seq : ℕ)
    → BTreeMap.IsSorted cmp m.map
    → SeqsBelow u64_max m.map
    → get m user_key max_seq ≡ entry_of? (newest user_key max_seq m.map)
unfolding get
get-newest m u s h b =
    unfold start_key in
    first_visible-newest u s _ (BTreeMap.range_from-IsSorted cmp cmp-IsOrder (start_key u) m.map h)
      (All-imp (λ e. reached u e.0) _ (BTreeMap.range_from-ge cmp cmp-IsOrder (start_key u) m.map))
    ∙ ap entry_of? (newest-range_from u s m.map b)
