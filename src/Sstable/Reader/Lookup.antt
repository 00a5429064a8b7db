-- ===== src/Sstable/Reader/Lookup.antt =====
-- Lookup and iteration in a table whose file is laid out as the builder does it.
use jadedb.Common.{ℕ, ◌+◌, ◌≡◌, refl, sym, ap, subst}
use jadedb.Common.{Option, none, some, Option-cases, inl, inr, List, [], ◌∷◌, length}
use jadedb.Common.BTreeMap
use jadedb.Common.Result.{ok}
use jadedb.Key.{Record, cmp}
use jadedb.Key.Versions.{newest}
use jadedb.Memtable.{entry_of}
use jadedb.Memtable.Lookup.{entry_of?}
use jadedb.Memtable.Concat.{newest-append_some, newest-append_none, IsSorted-split}
use jadedb.Frames.{as_u32}
use jadedb.Sstable.Block.Lookup.{block_get-newest}
use jadedb.Sstable.Cache.{Cached}
use jadedb.Sstable.Builder.Layout.{block_bytes, concat, laid, IsBlock}
use jadedb.Sstable.Table.{Dir, SsTable, read_exact}
use jadedb.Sstable.Reader.{read_block, get_in_block, get_in_blocks}
use jadedb.Sstable.Reader.Reads.{Yields, Yields-pure, Yields-bind, read_block-Yields}

module _ (first_key : List Cached → Option (ℕ × ℕ)) (dir : Dir) (disk : ℕ → ℕ → List ℕ)
    (t : SsTable) where
  -- The file of `t` has the block with the records `p` at `place`.
  pub record Stored (place : ℕ × ℕ) (p : List Record) : Type 0 where
    pub content : List ℕ
    pub there : dir t.file_num ≡ some content
    pub exact : read_exact content place.0 place.1 ≡ ok (disk t.file_num place.0)
    pub same : disk t.file_num place.0 ≡ block_bytes p
    pub valid : IsBlock p

  pub read-Yields :
      (place : ℕ × ℕ) (p : List Record)
      → Stored place p
      → Yields disk (read_block first_key dir t place.0 place.1) (record { bytes = block_bytes p })
  read-Yields place p s =
      subst
        (λ bytes.
          Yields disk (read_block first_key dir t place.0 place.1) (record { bytes = bytes }))
        s.same (read_block-Yields disk first_key dir t place.0 place.1 s.content s.there s.exact)

  pub get_in_block-Yields :
      (place : ℕ × ℕ) (p : List Record) (u : List ℕ) (s : ℕ)
      → Stored place p
      → Yields disk (get_in_block first_key dir t u s place) (entry_of? (newest u s p))
  unfolding get_in_block
  get_in_block-Yields (off, len) p u s h = Yields-bind disk _ _ _ _ (read-Yields (off, len) p h) (
      Yields-bind disk _ _ (newest u s p) _
        (Yields-pure disk _ _ (block_get-newest p u s h.valid.number h.valid.entries))
        (Yields-pure disk _ _ (shown (newest u s p))))
    where
      shown :
          (found : Option Record)
          → ok (elim found [ none ↦ none | some r ↦ some (entry_of r) ]) ≡ ok (entry_of? found)
      shown none = refl
      shown (some r) = refl

  -- The blocks `ps`, from offset `o` on, are stored where the index says.
  unfoldable pub AllStored : ℕ → List (List Record) → Type 0
  AllStored o [] = Unit
  AllStored o (p ∷ ps) =
      let n = length (block_bytes p) in Stored (o, as_u32 n) p × AllStored (o + n) ps

  pub get_in_blocks-Yields :
      (o : ℕ) (ps : List (List Record)) (u : List ℕ) (s : ℕ)
      → AllStored o ps
      → BTreeMap.IsSorted cmp (concat ps)
      → Yields disk
          (get_in_blocks first_key dir t u s (laid o ps))
          (entry_of? (newest u s (concat ps)))
  unfolding AllStored laid get_in_blocks concat
  get_in_blocks-Yields o [] u s h sorted = Yields-pure disk _ _ (unfold newest in refl)
  get_in_blocks-Yields o (p ∷ ps) u s h sorted =
      let n = length (block_bytes p) in
      let later = get_in_blocks-Yields (o + n) ps u s h.1 (IsSorted-split p (concat ps) sorted).1 in
      Yields-bind disk _ _ _ _ (get_in_block-Yields (o, as_u32 n) p u s h.0)
        (elim (Option-cases (newest u s p)) [
          | inl e ↦ rw e (
              subst
                (λ f.
                  Yields disk (get_in_blocks first_key dir t u s (laid (o + n) ps)) (entry_of? f))
                (sym (newest-append_none u s p (concat ps) e)) later)
          | inr (r, e) ↦ rw e (
              Yields-pure disk _ _ (
                ap (λ f. ok (entry_of? f)) (sym (newest-append_some u s p (concat ps) r sorted e))))
        ])
