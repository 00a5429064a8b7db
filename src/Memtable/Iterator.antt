-- ===== src/Memtable/Iterator.antt =====
-- The steps of the memtable's iterator.
use jadedb.Common.{ℕ, zero, suc, ◌≡◌, refl, sym, ap, ◌∙◌, arith, ltb}
use jadedb.Common.{Bool, true, false, ◌||◌, Option, none, some, List, [], ◌∷◌, All, lt}
use jadedb.Common.Order.{bytes_cmp, is_lt, bytes_cmp_swap}
use jadedb.Key.{InternalKey, Record, cmp}
use jadedb.Memtable.{MemTableIter, is_skipped, is_last, next_in, next, collect}

-- Does the iterator step over `k`?
abbrev pub passes : MemTableIter → InternalKey → Bool
passes it k =
    is_skipped it.skip_key it.exclude k.user_key
    || ltb it.max_seq k.seq
    || is_last it.last_user k.user_key

-- The iterator reads only what is left of its entries.
next_in-inner :
    (it : MemTableIter) (xs rest : List Record)
    → next_in (record it { inner = xs }) rest ≡ next_in it rest
unfolding next_in
next_in-inner it xs [] = refl
next_in-inner it xs ((k, v) ∷ rest) = ground (arith, next_in-inner it xs rest)

pub next_over :
    (it : MemTableIter) (k : InternalKey) (v : List ℕ) (rest : List Record)
    → passes it k ≡ true
    → next (record it { inner = (k, v) ∷ rest }) ≡ next (record it { inner = rest })
unfolding next
next_over it k v rest h =
    let both : next_in (record it { inner = (k, v) ∷ rest }) rest
        ≡ next_in (record it { inner = rest }) rest =
      next_in-inner it ((k, v) ∷ rest) rest ∙ sym (next_in-inner it rest rest) in
    unfold next_in in ground (arith, both)

pub next_listed :
    (it : MemTableIter) (k : InternalKey) (v : List ℕ) (rest : List Record)
    → passes it k ≡ false
    → next (record it { inner = (k, v) ∷ rest })
      ≡ (some (k, v), record it { inner = rest; last_user = some k.user_key })
unfolding next next_in
next_listed it k v rest h = ground arith

pub collect-next :
    (n : ℕ) (it it' : MemTableIter) → next it ≡ next it' → collect (suc n) it ≡ collect (suc n) it'
unfolding collect
collect-next n it it' e = ap (λ p. elim p.0 [ none ↦ [] | some r ↦ r ∷ collect n p.1 ]) e

pub collect-some :
    (n : ℕ) (it it' : MemTableIter) (r : Record)
    → next it ≡ (some r, it')
    → collect (suc n) it ≡ r ∷ collect n it'
unfolding collect
collect-some n it it' r e = ap (λ p. elim p.0 [ none ↦ [] | some r ↦ r ∷ collect n p.1 ]) e

pub collect-none : (n : ℕ) (it : MemTableIter) → collect n (record it { inner = [] }) ≡ []
unfolding collect next next_in
collect-none zero it = refl
collect-none (suc n) it = refl

-- No entry is before the user key that was listed last.
abbrev pub Behind : Option (List ℕ) → List Record → Type 0
Behind none m = Unit
Behind (some last) m = All (λ e. is_lt (bytes_cmp e.0.user_key last) ≡ false) m

pub behind_key :
    (k j : InternalKey) → cmp k j ≡ lt → is_lt (bytes_cmp j.user_key k.user_key) ≡ false
unfolding cmp
behind_key k j h = ground (arith, bytes_cmp_swap k.user_key j.user_key)

pub Behind-tail :
    (last : Option (List ℕ)) (r : Record) (m : List Record) → Behind last (r ∷ m) → Behind last m
Behind-tail none r m h = tt
Behind-tail (some last) r m h = h.1
