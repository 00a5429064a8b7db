-- ===== src/Memtable/Ascending.antt =====
-- The order of what the memtable's iterator lists.
use jadedb.Common.{ℕ, zero, suc, ◌≡◌, sym, subst, arith}
use jadedb.Common.{false, Bool-cases, inl, inr, Option, none, some, List, [], ◌∷◌, All, All-imp, lt}
use jadedb.Common.Order.{bytes_cmp, bytes_cmp_swap, bytes_cmp_trans}
use jadedb.Common.BTreeMap
use jadedb.Key.{InternalKey, Record, cmp}
use jadedb.Memtable.{MemTable, MemTableIter, Bound, range_from, is_last, collect}
use jadedb.Memtable.Iterator.{
  passes, next_over, next_listed, collect-next, collect-some, collect-none, Behind, behind_key,
  Behind-tail,
}

-- All user keys are above the one that was listed last.
abbrev After : Option (List ℕ) → List Record → Type 0
After none rs = Unit
After (some last) rs = All (λ r. bytes_cmp last r.0.user_key ≡ lt) rs

-- User keys strictly ascend.
abbrev pub Ascending : List Record → Type 0
Ascending [] = Unit
Ascending (r ∷ rs) = After (some r.0.user_key) rs × Ascending rs

After-nil : (last : Option (List ℕ)) → After last []
After-nil none = tt
After-nil (some last) = tt

After-cons :
    (it : MemTableIter) (k : InternalKey) (v : List ℕ) (rest out : List Record)
    → passes it k ≡ false
    → Behind it.last_user ((k, v) ∷ rest)
    → After (some k.user_key) out
    → After it.last_user ((k, v) ∷ out)
After-cons it k v rest out p h a = go it.last_user h (ground arith)
  where
    go :
        (last : Option (List ℕ))
        → Behind last ((k, v) ∷ rest)
        → is_last last k.user_key ≡ false
        → After last ((k, v) ∷ out)
    go none h n = tt
    go (some w) h n =
        let below : bytes_cmp w k.user_key ≡ lt =
          ground (arith, h.0, bytes_cmp_swap w k.user_key) in
        (below, All-imp (λ r b. bytes_cmp_trans w k.user_key r.0.user_key below b) out a)

collect-After :
    (rest : List Record) (n : ℕ) (it : MemTableIter)
    → BTreeMap.IsSorted cmp rest
    → Behind it.last_user rest
    → After it.last_user (collect n (record it { inner = rest }))
      × Ascending (collect n (record it { inner = rest }))
collect-After rest zero it s h = unfold collect in (After-nil it.last_user, tt)
collect-After [] (suc n) it s h =
    subst (λ out. After it.last_user out × Ascending out) (sym (collect-none (suc n) it))
      (After-nil it.last_user, tt)
collect-After ((k, v) ∷ rest) (suc n) it s h = elim (Bool-cases (passes it k)) [
  | inl p ↦
      subst (λ out. After it.last_user out × Ascending out)
        (sym (collect-next n _ _ (next_over it k v rest p)))
        (collect-After rest (suc n) it s.1 (Behind-tail it.last_user (k, v) rest h))
  | inr p ↦
      let it' : MemTableIter = record it { last_user = some k.user_key } in
      let tail = collect-After rest n it' s.1 (All-imp (λ e b. behind_key k e.0 b) rest s.0) in
      subst (λ out. After it.last_user out × Ascending out)
        (sym (collect-some n _ _ (k, v) (next_listed it k v rest p)))
        (After-cons it k v rest _ p h tail.0, tail)
]

-- An iteration over a range of a table in key order lists user keys in strictly ascending order,
-- so each of them at most once.
pub collect-Ascending :
    (m : MemTable) (start : Bound) (max_seq n : ℕ)
    → BTreeMap.IsSorted cmp m.map
    → Ascending (collect n (range_from m start max_seq))
collect-Ascending m start s n sorted =
    unfold range_from in (collect-After m.map n (range_from m start s) sorted tt).1
