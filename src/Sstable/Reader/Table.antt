-- ===== src/Sstable/Reader/Table.antt =====
-- `get` and `iter_all` of a table whose file is laid out as the builder does it.
use jadedb.Common.{
  ℕ, ◌+◌, ◌≡◌, refl, sym, ap, subst, ◌∙◌, arith, Bool, true, false, Bool-cases, ◌⊎◌, inl, inr,
}
use jadedb.Common.{Option, none, some, Option-cases, List, [], ◌∷◌, ◌++◌, length, All, lt}
use jadedb.Common.Order.{bytes_cmp, bytes_eq, is_lt, bytes_eq→≡}
use jadedb.Common.BTreeMap
use jadedb.Common.Result.{Result, ok}
use jadedb.Key.{Record, cmp}
use jadedb.Key.Versions.{newest}
use jadedb.Memtable.Lookup.{entry_of?}
use jadedb.Memtable.Concat.{
  newest-append_some, newest-append_none, IsSorted-split, below_user, newest_hidden,
}
use jadedb.Frames.{as_u32}
use jadedb.Sstable.Block.Entries.{block_entries-finish}
use jadedb.Sstable.Index.Codec.{sep_user-encode}
use jadedb.Sstable.Index.{find_from, find_block, sep_user}
use jadedb.Sstable.Cache.{Cached}
use jadedb.Sstable.Builder.Layout.{block_bytes, concat, separator, last_or, laid, IsBlock}
use jadedb.Sstable.Table.{Dir, SsTable, may_contain}
use jadedb.Sstable.Reader.{
  pure, get_in_block, get_in_blocks, get_indexed, search_blocks, table_get, iter_blocks, iter_all,
}
use jadedb.Sstable.Reader.Reads.{Yields, Yields-pure, Yields-bind}
use jadedb.Sstable.Reader.Lookup.{
  Stored, AllStored, read-Yields, get_in_block-Yields, get_in_blocks-Yields,
}

pub All-last_or :
    (P : Record → Type 0) (r : Record) (rs : List Record) → P r → All P rs → P (last_or r rs)
All-last_or P r [] p h = p
All-last_or P r (x ∷ rs) p h = All-last_or P x rs h.0 h.1

-- Where the last of some sorted records is below `u`, none of them is a version of `u`.
newest_below_last :
    (u : List ℕ) (s : ℕ) (r : Record) (rs : List Record)
    → BTreeMap.IsSorted cmp (r ∷ rs)
    → bytes_cmp (last_or r rs).0.user_key u ≡ lt
    → newest u s (r ∷ rs) ≡ none
newest_below_last u s r [] h below =
    newest_hidden u s r [] (rw below refl) ∙ (unfold newest in refl)
newest_below_last u s r (x ∷ rs) h below =
    let before = All-last_or (λ e. cmp r.0 e.0 ≡ lt) x rs h.0.0 h.0.1 in
    let low = below_user r.0 (last_or x rs).0 u before below in
    newest_hidden u s r (x ∷ rs) (rw low refl) ∙ newest_below_last u s x rs h.1 below

newest_below_separator :
    (u : List ℕ) (s : ℕ) (p : List Record)
    → IsBlock p
    → BTreeMap.IsSorted cmp p
    → bytes_cmp (sep_user (separator p)) u ≡ lt
    → newest u s p ≡ none
newest_below_separator u s [] b h below = absurd (b.some_entry refl)
newest_below_separator u s (r ∷ rs) b h below =
    newest_below_last u s r rs h (rw sep_user-encode at below)

module _ (first_key : List Cached → Option (ℕ × ℕ)) (dir : Dir) (disk : ℕ → ℕ → List ℕ)
    (t : SsTable) where
  -- The block at `place` decides what the newest visible version is, if it has one.
  record Decides (u : List ℕ) (s : ℕ) (rs : List Record) (place : ℕ × ℕ) : Type 0 where
    block : List Record
    stored : Stored first_key dir disk t place block
    decides : (r : Record) → newest u s block ≡ some r → newest u s rs ≡ some r

  find_from-Decides :
      (o : ℕ) (ps : List (List Record)) (u : List ℕ) (s : ℕ) (best : Option (ℕ × ℕ))
      → AllStored first_key dir disk t o ps
      → BTreeMap.IsSorted cmp (concat ps)
      → ((ps ≡ []) × (find_from u best (laid o ps) ≡ best))
        ⊎ ((place : ℕ × ℕ) × (find_from u best (laid o ps) ≡ some place)
            × Decides u s (concat ps) place)
  unfolding find_from laid concat AllStored
  find_from-Decides o [] u s best h sorted = inl (refl, refl)
  find_from-Decides o (p ∷ ps) u s best h sorted =
      let n = length (block_bytes p) in
      let place : ℕ × ℕ = (o, as_u32 n) in
      let here : Decides u s (p ++ concat ps) place = record {
        block = p;
        stored = h.0;
        decides = λ r e. newest-append_some u s p (concat ps) r sorted e;
      } in
      let parts = IsSorted-split p (concat ps) sorted in
      elim (Bool-cases (is_lt (bytes_cmp (sep_user (separator p)) u))) [
        | inr at_least ↦ inr (place, rw at_least refl, here)
        | inl below ↦
            let nothing = newest_below_separator u s p h.0.valid parts.0 (ground arith) in
            elim (find_from-Decides (o + n) ps u s (some place) h.1 parts.1) [
              | inl (nil, e) ↦ inr (place, rw below e, here)
              | inr (other, e, d) ↦ inr (
                other,
                rw below e,
                record {
                  block = d.block;
                  stored = d.stored;
                  decides = λ r q. newest-append_none u s p (concat ps) nothing ∙ d.decides r q;
                },
              )
            ]
      ]

  -- The table holds the records of the blocks `ps`, and its filter and its range let them pass.
  pub record IsTable (crc32 : List ℕ → ℕ) (ps : List (List Record)) : Type 0 where
    pub indexed : t.index.entries ≡ laid 0 ps
    pub stored : AllStored first_key dir disk t 0 ps
    pub sorted : BTreeMap.IsSorted cmp (concat ps)
    pub answers : (u : List ℕ) → (b : Bool) × (may_contain crc32 t u ≡ ok b)
    pub covers : All (λ r. may_contain crc32 t r.0.user_key ≡ ok true) (concat ps)

  pub newest_excluded :
      (crc32 : List ℕ → ℕ) (u : List ℕ) (s : ℕ) (rs : List Record)
      → may_contain crc32 t u ≡ ok false
      → All (λ r. may_contain crc32 t r.0.user_key ≡ ok true) rs
      → newest u s rs ≡ none
  newest_excluded crc32 u s [] out h = unfold newest in refl
  newest_excluded crc32 u s (r ∷ rs) out h = elim (Bool-cases (bytes_eq r.0.user_key u)) [
    | inl same ↦
        let e = bytes_eq→≡ r.0.user_key u same in
        let inside : may_contain crc32 t u ≡ ok true =
          subst (λ w. may_contain crc32 t w ≡ ok true) e h.0 in
        let clash : ◌≡◌ {A = Result Bool} (ok false) (ok true) = sym out ∙ inside in cc
    | inr other ↦ newest_hidden u s r rs (rw other refl) ∙ newest_excluded crc32 u s rs out h.1
  ]

  get_place :
      (u : List ℕ) (s : ℕ) (place : Option (ℕ × ℕ))
      → find_block t.index u ≡ place
      → get_indexed first_key dir t u s
        ≡ (elim place [ none ↦ pure (ok none) | some at ↦ get_in_block first_key dir t u s at ])
  unfolding get_indexed
  get_place u s place e =
      ap (λ f. elim f [ none ↦ pure (ok none) | some at ↦ get_in_block first_key dir t u s at ]) e

  -- The block that the index names gives the newest version or nothing.
  get_indexed-Yields :
      (crc32 : List ℕ → ℕ) (ps : List (List Record)) (u : List ℕ) (s : ℕ)
      → IsTable crc32 ps
      → (found : Option Record) × Yields disk (get_indexed first_key dir t u s) (entry_of? found)
        × ((r : Record) → found ≡ some r → newest u s (concat ps) ≡ some r)
  get_indexed-Yields crc32 ps u s h =
      let named : find_block t.index u ≡ find_from u none (laid 0 ps) =
        unfold find_block in ap (find_from u none) h.indexed in
      elim (find_from-Decides 0 ps u s none h.stored h.sorted) [
        | inl (nil, e) ↦ (
          none,
          subst (λ m. Yields disk m none) (sym (get_place u s none (named ∙ e)))
              (Yields-pure disk _ _ refl),
          λ r p. cc,
        )
        | inr (place, e, d) ↦ (
          newest u s d.block,
          subst (λ m. Yields disk m (entry_of? (newest u s d.block)))
              (sym (get_place u s (some place) (named ∙ e)))
              (get_in_block-Yields first_key dir disk t place d.block u s d.stored),
          d.decides,
        )
      ]

  search_blocks-Yields :
      (crc32 : List ℕ → ℕ) (ps : List (List Record)) (u : List ℕ) (s : ℕ)
      → IsTable crc32 ps
      → Yields disk (search_blocks first_key dir t u s) (entry_of? (newest u s (concat ps)))
  unfolding search_blocks
  search_blocks-Yields crc32 ps u s h =
      let (found, read, right) = get_indexed-Yields crc32 ps u s h in
      let all : Yields disk (get_in_blocks first_key dir t u s t.index.entries)
          (entry_of? (newest u s (concat ps))) =
        subst
          (λ es.
            Yields disk (get_in_blocks first_key dir t u s es) (entry_of? (newest u s (concat ps))))
          (sym h.indexed) (get_in_blocks-Yields first_key dir disk t 0 ps u s h.stored h.sorted) in
      Yields-bind disk _ _ _ _ read (elim (Option-cases found) [
        | inl e ↦ rw e all
        | inr (r, e) ↦ rw e (Yields-pure disk _ _ (ap (λ f. ok (entry_of? f)) (sym (right r e))))
      ])

  -- Looking a key up in a table gives the newest of its versions that the read may see.
  pub table_get-newest :
      (crc32 : List ℕ → ℕ) (ps : List (List Record)) (u : List ℕ) (s : ℕ)
      → IsTable crc32 ps
      → Yields disk (table_get first_key dir crc32 t u s) (entry_of? (newest u s (concat ps)))
  unfolding table_get
  table_get-newest crc32 ps u s h =
      let (b, e) = h.answers u in
      Yields-bind disk _ _ b _ (Yields-pure disk _ b e) (elim (Bool-cases b) [
        | inl inside ↦ rw inside (search_blocks-Yields crc32 ps u s h)
        | inr outside ↦
            let out = newest_excluded crc32 u s (concat ps) (e ∙ ap ok outside) h.covers in
            rw outside (Yields-pure disk _ _ (ap (λ f. ok (entry_of? f)) (sym out)))
      ])

  iter_blocks-Yields :
      (o : ℕ) (ps : List (List Record))
      → AllStored first_key dir disk t o ps
      → Yields disk (iter_blocks first_key dir t (laid o ps)) (concat ps)
  unfolding iter_blocks laid concat AllStored
  iter_blocks-Yields o [] h = Yields-pure disk _ _ refl
  iter_blocks-Yields o (p ∷ ps) h =
      let n = length (block_bytes p) in
      Yields-bind disk _ _ _ _ (read-Yields first_key dir disk t (o, as_u32 n) p h.0) (
        Yields-bind disk _ _ p _
          (Yields-pure disk _ _ (block_entries-finish p h.0.valid.number h.0.valid.entries))
          (Yields-bind disk _ _ _ _ (iter_blocks-Yields (o + n) ps h.1)
            (Yields-pure disk _ _ refl)))

  -- Iterating over a table gives its records in order.
  pub iter_all-concat :
      (crc32 : List ℕ → ℕ) (ps : List (List Record))
      → IsTable crc32 ps
      → Yields disk (iter_all first_key dir t) (concat ps)
  unfolding iter_all
  iter_all-concat crc32 ps h =
      subst (λ es. Yields disk (iter_blocks first_key dir t es) (concat ps)) (sym h.indexed)
        (iter_blocks-Yields 0 ps h.stored)
