-- ===== src/Iter/Next.antt =====
-- One call of `next`, and the items that all calls give.
use jadedb.Common.{
  ℕ, zero, suc, ◌+◌, ◌≤◌, ◌<◌, ◌≡◌, refl, sym, ap, subst, ◌∙◌, arith, Bool, true, false, Bool-cases,
  inl, inr, ◌⊎◌, Option, none, some, leb, if◌then◌else◌,
}
use jadedb.Common.{List, [], ◌∷◌, length, retain}
use jadedb.Common.Result.{Result, ok}
use jadedb.Key.{Record, ValueKind, put, delete}
use jadedb.Memtable.{is_last}
use jadedb.Merge.{HeapItem}
use jadedb.Merge.Pops.{
  entry, total, IsAdvance, heap_after, streams_after, IsMerge, Pops, refill_lem,
}
use jadedb.Merge.Runs.{after-IsMerge, Pops-size}
use jadedb.Merge.Distinct.{distinct}
use jadedb.Iter.{
  Item, MergeIterator, next_visible, show_item, next_loop, next, collect_loop, collect,
}

-- the records that a read may see
abbrev pub visible : ℕ → List Record → List Record
visible max_seq s = retain (λ r. leb r.0.seq max_seq) s

ends : (m : ℕ) (s : List Record) → (next_visible m s).0 ≡ none → visible m s ≡ []
unfolding next_visible
ends m [] e = refl
ends m (r ∷ s) e = ground (arith, ends m s)

rest_le : (m : ℕ) (s : List Record) → length (next_visible m s).1 ≤ length s
unfolding next_visible
rest_le m [] = omega arith
rest_le m (r ∷ s) = ground (arith, rest_le m s)

gives :
    (m : ℕ) (s : List Record) (r : Record)
    → (next_visible m s).0 ≡ some r
    → (visible m s ≡ r ∷ visible m (next_visible m s).1) × (length (next_visible m s).1 < length s)
unfolding next_visible
gives m [] r e = cc
gives m (x ∷ s) r e = elim (Bool-cases (leb x.0.seq m)) [
  | inl seen ↦
      let e' : some x ≡ some r = rw seen at e in
      rw seen (ap (λ y. y ∷ visible m s) (let q : x ≡ r = cc in q), omega arith)
  | inr hidden ↦
      let (later, short) = gives m s r (rw hidden at e) in rw hidden (later, omega (arith, short))
]

pub next_visible-IsAdvance : (m : ℕ) → IsAdvance (next_visible m) (visible m)
next_visible-IsAdvance m = record { ends = ends m; gives = gives m; rest_le = rest_le m }

-- the item that is shown for a record
unfoldable pub shown : Bool → Option Record → Option Item
shown skip none = none
shown skip (some r) = elim r.0.kind [
  | delete ↦ if skip then none else some (r.0.user_key, none)
  | put ↦ some (r.0.user_key, some r.1)
]

-- the items that are shown for some records
unfoldable pub items : Bool → List Record → List Item
items skip [] = []
items skip (r ∷ rs) =
    let rest = items skip rs in elim (shown skip (some r)) [ none ↦ rest | some i ↦ i ∷ rest ]

pub items-cons :
    (skip : Bool) (r : Record) (rs : List Record) (i : Option Item)
    → shown skip (some r) ≡ i
    → items skip (r ∷ rs) ≡ (elim i [ none ↦ items skip rs | some item ↦ item ∷ items skip rs ])
unfolding items
items-cons skip r rs i k =
    ap (λ j. elim j [ none ↦ items skip rs | some item ↦ item ∷ items skip rs ]) k

-- The merge of `it` pops the records `rs`.
pub record Holds (it : MergeIterator) (rs : List Record) : Type 0 where
  pub merge : IsMerge (next_visible it.max_seq) (visible it.max_seq) it.heap it.streams
  pub popped : Pops (next_visible it.max_seq) (visible it.max_seq) rs it.heap it.streams

-- what the iterator has still to show, if its merge pops `rs`
abbrev pub to_show : MergeIterator → List Record → List Item
to_show it rs = items it.skip_tombstones (distinct it.last_user rs)

-- A call of `next` ends the iteration, or gives its first item and an iterator over the others.
abbrev pub Gives : MergeIterator → List Record → Result (Option Item × MergeIterator) → Type 0
Gives it rs found =
    ((it' : MergeIterator) × (found ≡ ok (none, it')) × (to_show it rs ≡ []))
    ⊎ ((item : Item) × (it' : MergeIterator) × (rs' : List Record) × (found ≡ ok (some item, it'))
        × (to_show it rs ≡ item ∷ to_show it' rs')
        × Holds it' rs'
        × (length rs' < length rs))

-- Rounds that show nothing do not matter.
Gives-later :
    (it it' : MergeIterator) (rs rs' : List Record) (found : Result (Option Item × MergeIterator))
    → to_show it rs ≡ to_show it' rs'
    → length rs' ≤ length rs
    → Gives it' rs' found
    → Gives it rs found
Gives-later it it' rs rs' found same short (inl (end, e, none_left)) =
    inl (end, e, same ∙ none_left)
Gives-later it it' rs rs' found same short (inr (item, next_it, next_rs, e, first, h, l)) =
    inr (item, next_it, next_rs, e, same ∙ first, h, omega (arith, l, short))

module _ (m : ℕ) (skip : Bool) where
  -- the iterator with these parts
  abbrev iterator : List HeapItem → List (List Record) → Option (List ℕ) → MergeIterator
  iterator heap ss last = record {
    heap = heap;
    streams = ss;
    last_user = last;
    max_seq = m;
    skip_tombstones = skip;
  }

  shown_cases :
      (x : HeapItem) (found : Result (Option Item × MergeIterator)) (it : MergeIterator)
      → it.skip_tombstones ≡ skip
      → ((show_item x it found ≡ found) × (shown skip (some (entry x)) ≡ none))
        ⊎ ((item : Item) × (show_item x it found ≡ ok (some item, it))
            × (shown skip (some (entry x)) ≡ some item))
  unfolding shown
  shown_cases x found it e = kind_cases x.key.kind refl
    where
      kind_cases :
          (k : ValueKind)
          → x.key.kind ≡ k
          → ((show_item x it found ≡ found) × (shown skip (some (entry x)) ≡ none))
            ⊎ ((item : Item) × (show_item x it found ≡ ok (some item, it))
                × (shown skip (some (entry x)) ≡ some item))
      kind_cases put k = inr ((x.key.user_key, some x.value), rw k refl, rw k refl)
      kind_cases delete k = elim (Bool-cases skip) [
        | inl hide ↦ inl (rw (k, e, hide) refl, rw (k, hide) refl)
        | inr keep ↦ inr ((x.key.user_key, none), rw (k, e, keep) refl, rw (k, keep) refl)
      ]

  -- the iterator after a pop
  abbrev popped : HeapItem → List HeapItem → List (List Record) → Option (List ℕ) → MergeIterator
  popped x heap ss last =
      iterator (heap_after (next_visible m) (visible m) x.source heap ss)
        (streams_after (next_visible m) (visible m) x.source ss) last

  next_loop_step :
      (n : ℕ) (x : HeapItem) (heap : List HeapItem) (ss : List (List Record))
      (last : Option (List ℕ))
      → x.source < length ss
      → next_loop (suc n) (iterator (x ∷ heap) ss last) ≡ (
          let after = popped x heap ss (some x.key.user_key) in
          if is_last last x.key.user_key
          then next_loop n (popped x heap ss last)
          else show_item x after (next_loop n after))
  unfolding next_loop
  next_loop_step n x heap ss last h =
      rw (refill_lem (next_visible m) (visible m) x.source heap ss h) refl

  to_show_same :
      (r : Record) (rs : List Record) (last : Option (List ℕ))
      → is_last last r.0.user_key ≡ true
      → items skip (distinct last (r ∷ rs)) ≡ items skip (distinct last rs)
  unfolding distinct
  to_show_same r rs last e = rw e refl

  to_show_new :
      (r : Record) (rs : List Record) (last : Option (List ℕ)) (i : Option Item)
      → is_last last r.0.user_key ≡ false
      → shown skip (some r) ≡ i
      → items skip (distinct last (r ∷ rs)) ≡ (
          let rest = items skip (distinct (some r.0.user_key) rs) in
          elim i [ none ↦ rest | some item ↦ item ∷ rest ])
  unfolding distinct
  to_show_new r rs last i e k = rw e (items-cons skip r (distinct (some r.0.user_key) rs) i k)

  next_loop-Gives :
      (n : ℕ) (rs : List Record) (heap : List HeapItem) (ss : List (List Record))
      (last : Option (List ℕ))
      → length rs < n
      → Holds (iterator heap ss last) rs
      → Gives (iterator heap ss last) rs (next_loop n (iterator heap ss last))
  unfolding Pops
  next_loop-Gives zero rs heap ss last l h = absurd (omega (arith, l))
  next_loop-Gives (suc n) [] [] ss last l h =
      inl (iterator [] ss last, unfold next_loop in refl, unfold distinct in unfold items in refl)
  next_loop-Gives (suc n) [] (x ∷ heap) ss last l h = let clash = h.popped in cc
  next_loop-Gives (suc n) (r ∷ rs) [] ss last l h = let clash = h.popped in cc
  next_loop-Gives (suc n) (r ∷ rs) (x ∷ heap) ss last l h =
      let law = next_visible-IsAdvance m in
      let it = iterator (x ∷ heap) ss last in
      let same_user : r.0.user_key ≡ x.key.user_key = ap (λ e. e.0.user_key) h.popped.0 in
      let holds : (last' : Option (List ℕ)) → Holds (popped x heap ss last') rs =
        λ last'. record { merge = after-IsMerge _ _ law x heap ss h.merge; popped = h.popped.1 } in
      let step = next_loop_step n x heap ss last h.merge.follow.0.0 in
      let ih = λ (last' : Option (List ℕ)).
        next_loop-Gives n rs (popped x heap ss last').heap (popped x heap ss last').streams last'
          (omega (arith, l)) (holds last') in
      let after = popped x heap ss (some x.key.user_key) in
      elim (Bool-cases (is_last last x.key.user_key)) [
        | inl again ↦
            let run : next_loop (suc n) it ≡ next_loop n (popped x heap ss last) =
              step ∙ rw again refl in
            subst (Gives it (r ∷ rs)) (sym run) (
              Gives-later it (popped x heap ss last) (r ∷ rs) rs _
                (to_show_same r rs last (rw same_user again)) (omega arith) (ih last))
        | inr new ↦
            let run : next_loop (suc n) it ≡ show_item x after (next_loop n after) =
              step ∙ rw new refl in
            let new' : is_last last r.0.user_key ≡ false = rw same_user new in
            let rest : to_show after rs ≡ items skip (distinct (some r.0.user_key) rs) =
              ap (λ u. items skip (distinct (some u) rs)) (sym same_user) in
            elim (shown_cases x (next_loop n after) after refl) [
              | inl (hides, none_shown) ↦
                  let hidden : shown skip (some r) ≡ none =
                    ap (λ q. shown skip (some q)) h.popped.0 ∙ none_shown in
                  subst (Gives it (r ∷ rs)) (sym (run ∙ hides)) (
                    Gives-later it after (r ∷ rs) rs _
                      (to_show_new r rs last none new' hidden ∙ sym rest) (omega arith)
                      (ih (some x.key.user_key)))
              | inr (item, shows, some_shown) ↦
                  let given : shown skip (some r) ≡ some item =
                    ap (λ q. shown skip (some q)) h.popped.0 ∙ some_shown in
                  inr (
                    item,
                    after,
                    rs,
                    run ∙ shows,
                    to_show_new r rs last (some item) new' given ∙ ap (λ t. item ∷ t) (sym rest),
                    holds (some x.key.user_key),
                    omega arith,
                  )
            ]
      ]

-- A call of `next` takes the rounds that it needs.
pub next-Gives : (it : MergeIterator) (rs : List Record) → Holds it rs → Gives it rs (next it)
next-Gives it rs h =
    let bound =
      Pops-size (next_visible it.max_seq) (visible it.max_seq) (next_visible-IsAdvance it.max_seq)
        rs it.heap it.streams h.popped h.merge in
    next_loop-Gives it.max_seq it.skip_tombstones (length it.heap + total it.streams + 1) rs it.heap
      it.streams it.last_user (omega (arith, bound)) h

collect_loop-to_show :
    (n : ℕ) (it : MergeIterator) (rs : List Record)
    → length rs < n
    → Holds it rs
    → collect_loop n it ≡ ok (to_show it rs)
unfolding collect_loop
collect_loop-to_show zero it rs l h = absurd (omega (arith, l))
collect_loop-to_show (suc n) it rs l h = elim (next-Gives it rs h) [
  | inl (end, e, none_left) ↦ rw (e, none_left) refl
  | inr (item, it', rs', e, first, h', shorter) ↦
      rw (e, collect_loop-to_show n it' rs' (omega (arith, l, shorter)) h', first) refl
]

-- All calls of `next` give what is to be shown.
pub collect-to_show :
    (it : MergeIterator) (rs : List Record) → Holds it rs → collect it ≡ ok (to_show it rs)
collect-to_show it rs h =
    let bound =
      Pops-size (next_visible it.max_seq) (visible it.max_seq) (next_visible-IsAdvance it.max_seq)
        rs it.heap it.streams h.popped h.merge in
    collect_loop-to_show (length it.heap + total it.streams + 1) it rs (omega (arith, bound)) h
