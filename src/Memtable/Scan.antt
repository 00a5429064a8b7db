-- ===== src/Memtable/Scan.antt =====
-- The range iterator of the memtable: what a full iteration lists.
use jadedb.Common.{ℕ, zero, suc, ◌+◌, ◌<◌, ◌≡◌, refl, sym, ap, subst, ◌∙◌, arith, if◌then◌else◌}
use jadedb.Common.{
  Bool, true, false, not, ◌||◌, Bool-cases, inl, inr, Option, none, some, List, [], ◌∷◌, length,
  All-imp,
}
use jadedb.Common.Order.{bytes_cmp, bytes_eq, bytes_eq→≡, is_lt, bytes_cmp_swap}
use jadedb.Common.BTreeMap
use jadedb.Key.{InternalKey, Record, cmp}
use jadedb.Key.Versions.{newest, sees}
use jadedb.Memtable.{
  MemTable, MemTableIter, Bound, included, excluded, unbounded, range_from, is_skipped, is_last,
  collect,
}
use jadedb.Memtable.Iterator.{
  passes, next_over, next_listed, collect-next, collect-some, collect-none, Behind, behind_key,
  Behind-tail,
}
use jadedb.Memtable.Lookup.{newest-front, newest_above}

newest_hidden :
    (u : List ℕ) (s : ℕ) (k : InternalKey) (v : List ℕ) (m : List Record)
    → sees u s k ≡ false
    → newest u s ((k, v) ∷ m) ≡ newest u s m
unfolding newest
newest_hidden u s k v m h = rw h refl

-- Does the iteration leave out the user key `u`?
abbrev omits : MemTableIter → List ℕ → Bool
omits it u = is_last it.last_user u || is_skipped it.skip_key it.exclude u

-- A version that is stepped over is not seen, or its user key is left out.
passes_hidden :
    (it : MemTableIter) (k : InternalKey) (u : List ℕ)
    → passes it k ≡ true
    → omits it u ≡ false
    → sees u it.max_seq k ≡ false
passes_hidden it k u p o = elim (Bool-cases (bytes_eq k.user_key u)) [
  | inl same ↦
      let e = bytes_eq→≡ k.user_key u same in
      let o' : omits it k.user_key ≡ false = subst (λ w. omits it w ≡ false) (sym e) o in
      ground arith
  | inr other ↦ rw other refl
]

-- Behind a key that differs from the one listed last, there is no version of the latter.
listed_last :
    (last : Option (List ℕ)) (k : InternalKey) (u : List ℕ) (s : ℕ) (v : List ℕ) (m : List Record)
    → BTreeMap.Before cmp k m
    → Behind last ((k, v) ∷ m)
    → bytes_eq k.user_key u ≡ false
    → is_last last u ≡ true
    → newest u s m ≡ none
listed_last none k u s v m b h other l = cc
listed_last (some last) k u s v m b h other l =
    let e = bytes_eq→≡ last u l in
    let after : is_lt (bytes_cmp k.user_key u) ≡ false =
      subst (λ w. is_lt (bytes_cmp k.user_key w) ≡ false) e h.0 in
    newest_above u s k m (ground (arith, bytes_cmp_swap k.user_key u)) b

-- What remains to be found behind a key that was just listed.
found-Behind :
    (it : MemTableIter) (k : InternalKey) (v : List ℕ) (m : List Record) (u : List ℕ)
    → BTreeMap.Before cmp k m
    → Behind it.last_user ((k, v) ∷ m)
    → bytes_eq k.user_key u ≡ false
    → (if is_skipped it.skip_key it.exclude u then none else newest u it.max_seq m)
      ≡ (if omits it u then none else newest u it.max_seq m)
found-Behind it k v m u b h other = elim (Bool-cases (is_last it.last_user u)) [
  | inl last ↦ ground (arith, listed_last it.last_user k u it.max_seq v m b h other last)
  | inr new ↦ rw new refl
]

-- Stepping over an entry.
stepped :
    (it : MemTableIter) (k : InternalKey) (v : List ℕ) (m : List Record) (u : List ℕ)
    → passes it k ≡ true
    → (if omits it u then none else newest u it.max_seq m)
      ≡ (if omits it u then none else newest u it.max_seq ((k, v) ∷ m))
stepped it k v m u p = elim (Bool-cases (omits it u)) [
  | inl out ↦ rw out refl
  | inr o ↦ rw (o, newest_hidden u it.max_seq k v m (passes_hidden it k u p o)) refl
]

-- Listing an entry, where `found` is what was listed behind it.
listed :
    (it : MemTableIter) (k : InternalKey) (v : List ℕ) (m : List Record) (u : List ℕ)
    (found : List Record)
    → passes it k ≡ false
    → BTreeMap.IsSorted cmp ((k, v) ∷ m)
    → Behind it.last_user ((k, v) ∷ m)
    → newest u it.max_seq found ≡ (
        if bytes_eq k.user_key u || is_skipped it.skip_key it.exclude u
        then none
        else newest u it.max_seq m)
    → newest u it.max_seq ((k, v) ∷ found)
      ≡ (if omits it u then none else newest u it.max_seq ((k, v) ∷ m))
listed it k v m u found p s h tail = elim (Bool-cases (bytes_eq k.user_key u)) [
  | inl same ↦
      let e = bytes_eq→≡ k.user_key u same in
      let nothing : newest u it.max_seq found ≡ none = tail ∙ rw same refl in
      let seen : sees u it.max_seq k ≡ true = ground arith in
      let kept : omits it u ≡ false = subst (λ w. omits it w ≡ false) e (ground arith) in
      rw (kept, newest-front u it.max_seq k v m s.0 seen) (unfold newest in rw (seen, nothing) refl)
  | inr other ↦
      let hidden : sees u it.max_seq k ≡ false = rw other refl in
      newest_hidden u it.max_seq k v found hidden
      ∙ tail
      ∙ rw other refl
      ∙ found-Behind it k v m u s.0 h other
      ∙ rw (newest_hidden u it.max_seq k v m hidden) refl
]

collect-newest :
    (rest : List Record) (n : ℕ) (it : MemTableIter) (u : List ℕ)
    → length rest < n
    → BTreeMap.IsSorted cmp rest
    → Behind it.last_user rest
    → newest u it.max_seq (collect n (record it { inner = rest }))
      ≡ (if omits it u then none else newest u it.max_seq rest)
collect-newest rest zero it u l s h = absurd (omega arith)
collect-newest [] (suc n) it u l s h =
    ap (newest u it.max_seq) (collect-none (suc n) it) ∙ nothing_left (omits it u)
  where
    nothing_left :
        (b : Bool) → newest u it.max_seq [] ≡ (if b then none else newest u it.max_seq [])
    nothing_left true = unfold newest in refl
    nothing_left false = refl
collect-newest ((k, v) ∷ rest) (suc n) it u l s h = elim (Bool-cases (passes it k)) [
  | inl p ↦
      let tail =
        collect-newest rest (suc n) it u (omega arith) s.1
          (Behind-tail it.last_user (k, v) rest h) in
      ap (newest u it.max_seq) (collect-next n _ _ (next_over it k v rest p))
      ∙ tail
      ∙ stepped it k v rest u p
  | inr p ↦
      let it' : MemTableIter = record it { last_user = some k.user_key } in
      let tail =
        collect-newest rest n it' u (omega arith) s.1
          (All-imp (λ e b. behind_key k e.0 b) rest s.0) in
      ap (newest u it.max_seq) (collect-some n _ _ (k, v) (next_listed it k v rest p))
      ∙ listed it k v rest u _ p s h tail
]

-- Does a range that begins at a bound hold the user key `u`?
abbrev pub in_range : Bound → List ℕ → Bool
in_range (included k) u = not (is_lt (bytes_cmp u k))
in_range (excluded k) u = is_lt (bytes_cmp k u)
in_range unbounded u = true

range_omits :
    (m : MemTable) (start : Bound) (max_seq : ℕ) (u : List ℕ)
    → omits (range_from m start max_seq) u ≡ not (in_range start u)
unfolding range_from is_skipped
range_omits m (included k) s u = ground arith
range_omits m (excluded k) s u = ground (arith, bytes_cmp_swap u k)
range_omits m unbounded s u = refl

-- A full iteration over a range of a table in key order lists, for each user key, the newest
-- version that a read may see if the key is in the range, and no version of it otherwise.
pub collect-newest-in_range :
    (m : MemTable) (start : Bound) (max_seq : ℕ) (user_key : List ℕ)
    → BTreeMap.IsSorted cmp m.map
    → newest user_key max_seq (collect (length m.map + 1) (range_from m start max_seq))
      ≡ (if in_range start user_key then newest user_key max_seq m.map else none)
collect-newest-in_range m start s u sorted =
    let outside = range_omits m start s u in
    let listed_all : newest u s (collect (length m.map + 1) (range_from m start s))
        ≡ (if omits (range_from m start s) u then none else newest u s m.map) =
      unfold range_from in
      collect-newest m.map (length m.map + 1) (range_from m start s) u (omega arith) sorted tt in
    listed_all ∙ rw outside (swapped (in_range start u))
  where
    swapped :
        (b : Bool)
        → (if not b then none else newest u s m.map) ≡ (if b then newest u s m.map else none)
    swapped true = refl
    swapped false = refl
