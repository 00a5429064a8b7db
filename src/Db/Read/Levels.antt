-- ===== src/Db/Read/Levels.antt =====
-- Looking a key up in the tables of the lower levels, and in all tables.
use jadedb.Common.{
  ℕ, ◌≡◌, ◌⊎◌, refl, sym, ap, subst, ◌∙◌, arith, true, false, Bool-cases, inl, inr, Option, none,
  some, Option-cases,
}
use jadedb.Common.{List, [], ◌∷◌, ◌++◌, reverse, All, All-split, lt, Ordering}
use jadedb.Common.Order.{bytes_cmp, is_lt, bytes_cmp_trans, bytes_cmp_swap, eq_of_bytes_cmp}
use jadedb.Common.Result.{ok}
use jadedb.Key.{Record}
use jadedb.Key.Versions.{newest}
use jadedb.Memtable.Lookup.{entry_of?}
use jadedb.Memtable.Concat.{newest-append_none}
use jadedb.Sstable.Builder.Layout.{concat}
use jadedb.Sstable.Cache.{Cached}
use jadedb.Sstable.Table.{Dir, SsTable, may_contain}
use jadedb.Sstable.Reader.{pure}
use jadedb.Sstable.Reader.Reads.{Yields, Yields-pure, Yields-bind}
use jadedb.Sstable.Reader.Table.{IsTable}
use jadedb.Version.{in_key_range, find_in_level, find_in_levels, get_sstables_for_key}
use jadedb.Db.Read.{search_tables, get_tables}
use jadedb.Db.Read.Tables.{
  Newer, newest-append_newer, newest-none_right, Stocked, NewestFirst, search-cons, out_of_range,
  upper_tables,
}

module _ (first_key : List Cached → Option (ℕ × ℕ)) (dir : Dir) (disk : ℕ → ℕ → List ℕ)
    (crc32 : List ℕ → ℕ) where
  -- The ranges of the tables rise and do not meet.
  unfoldable pub Disjoint : List SsTable → Type 0
  Disjoint [] = Unit
  Disjoint (t ∷ ts) = All (λ x. bytes_cmp t.largest x.smallest ≡ lt) ts × Disjoint ts

  -- A key that is not above `largest` is below every range behind it.
  all_below :
      (largest u : List ℕ) (ts : List SsTable) (cs : List (List Record)) (s : ℕ)
      → Stocked first_key dir disk crc32 ts cs
      → All (λ x. bytes_cmp largest x.smallest ≡ lt) ts
      → is_lt (bytes_cmp largest u) ≡ false
      → newest u s (concat cs) ≡ none
  unfolding Stocked concat
  all_below largest u [] [] s h d in_it = unfold newest in refl
  all_below largest u [] (c ∷ cs) s h d in_it = cc
  all_below largest u (t ∷ ts) [] s h d in_it = cc
  all_below largest u (t ∷ ts) (c ∷ cs) s h d in_it =
      let swap = bytes_cmp_swap largest u in
      let same = eq_of_bytes_cmp largest u in
      let chain = bytes_cmp_trans u largest t.smallest in
      let moved : bytes_cmp largest u ≡ Ordering.eq → bytes_cmp u t.smallest ≡ lt =
        λ e. subst (λ w. bytes_cmp w t.smallest ≡ lt) (same e) d.0 in
      let below : bytes_cmp u t.smallest ≡ lt = ground (arith, swap, chain, d.0, moved) in
      let out : may_contain crc32 t u ≡ ok false = unfold may_contain in rw below refl in
      newest-append_none u s c (concat cs) (out_of_range first_key dir disk crc32 t c u s h.0 out)
      ∙ all_below largest u ts cs s h.1 d.1 in_it

  outside : (t : SsTable) (u : List ℕ) → in_key_range u t ≡ false → may_contain crc32 t u ≡ ok false
  unfolding may_contain
  outside t u h = ground arith

  not_above :
      (t : SsTable) (u : List ℕ) → in_key_range u t ≡ true → is_lt (bytes_cmp t.largest u) ≡ false
  not_above t u h = ground arith

  -- The table that a search of a level finds has all that the level has of the key.
  record Found (ts : List SsTable) (cs : List (List Record)) (older : List Record) (u : List ℕ)
      (s : ℕ) : Type 0 where
    t : SsTable
    c : List Record
    found : find_in_level ts u ≡ some t
    table : (ps : List (List Record)) × IsTable first_key dir disk t crc32 ps × (concat ps ≡ c)
    same : newest u s (concat cs) ≡ newest u s c
    newer : Newer c older

  -- In a level the only table that may have the key is found.
  find_in_level_lem :
      (ts : List SsTable) (cs : List (List Record)) (older : List Record) (u : List ℕ) (s : ℕ)
      → Stocked first_key dir disk crc32 ts cs
      → Disjoint ts
      → Newer (concat cs) older
      → ((find_in_level ts u ≡ none) × (newest u s (concat cs) ≡ none)) ⊎ Found ts cs older u s
  unfolding Stocked concat find_in_level Disjoint
  find_in_level_lem [] [] older u s h d n = inl (refl, unfold newest in refl)
  find_in_level_lem [] (c ∷ cs) older u s h d n = cc
  find_in_level_lem (t ∷ ts) [] older u s h d n = cc
  find_in_level_lem (t ∷ ts) (c ∷ cs) older u s h d n =
      let (front, back) = All-split _ c (concat cs) n in
      elim (Bool-cases (in_key_range u t)) [
        | inl within ↦
            let rest_none = all_below t.largest u ts cs s h.1 d.0 (not_above t u within) in
            inr (record {
              t = t;
              c = c;
              found = rw within refl;
              table = h.0;
              same = newest-none_right u s c (concat cs) rest_none;
              newer = front;
            })
        | inr out ↦
            let skip =
              newest-append_none u s c (concat cs)
                (out_of_range first_key dir disk crc32 t c u s h.0 (outside t u out)) in
            elim (find_in_level_lem ts cs older u s h.1 d.1 back) [
              | inl (f, nothing) ↦ inl (rw out f, skip ∙ nothing)
              | inr k ↦ inr (record {
                t = k.t;
                c = k.c;
                found = rw out k.found;
                table = k.table;
                same = skip ∙ k.same;
                newer = k.newer;
              })
            ]
      ]

  -- the records of several levels
  unfoldable pub lower : List (List (List Record)) → List Record
  lower [] = []
  lower (cs ∷ css) = concat cs ++ lower css

  -- The levels have the records `css`, newer ones in the upper levels, in tables with disjoint ranges.
  unfoldable pub StockedLevels : List (List SsTable) → List (List (List Record)) → Type 0
  StockedLevels [] [] = Unit
  StockedLevels [] (cs ∷ css) = false ≡ true
  StockedLevels (ts ∷ levels) [] = false ≡ true
  StockedLevels (ts ∷ levels) (cs ∷ css) =
      Stocked first_key dir disk crc32 ts cs
      × Disjoint ts
      × Newer (concat cs) (lower css)
      × StockedLevels levels css

  find_in_levels-cons :
      (ts : List SsTable) (levels : List (List SsTable)) (u : List ℕ) (found : Option SsTable)
      → find_in_level ts u ≡ found
      → find_in_levels (ts ∷ levels) u
        ≡ (elim found [ none ↦ find_in_levels levels u | some t ↦ t ∷ find_in_levels levels u ])
  unfolding find_in_levels
  find_in_levels-cons ts levels u found e =
      ap (λ f. elim f [ none ↦ find_in_levels levels u | some t ↦ t ∷ find_in_levels levels u ]) e

  lower_tables :
      (levels : List (List SsTable)) (css : List (List (List Record))) (u : List ℕ) (s : ℕ)
      → StockedLevels levels css
      → Yields disk
          (search_tables first_key dir crc32 (find_in_levels levels u) u s)
          (entry_of? (newest u s (lower css)))
  unfolding StockedLevels lower
  lower_tables [] [] u s h =
      unfold find_in_levels in unfold search_tables in unfold newest in Yields-pure disk _ _ refl
  lower_tables [] (cs ∷ css) u s h = cc
  lower_tables (ts ∷ levels) [] u s h = cc
  lower_tables (ts ∷ levels) (cs ∷ css) u s h =
      let (stocked, disjoint, newer_than, rest) = h in
      let below = lower_tables levels css u s rest in
      elim (find_in_level_lem ts cs (lower css) u s stocked disjoint newer_than) [
        | inl (f, nothing) ↦
            subst
              (λ ts'.
                Yields disk (search_tables first_key dir crc32 ts' u s)
                  (entry_of? (newest u s (concat cs ++ lower css))))
              (sym (find_in_levels-cons ts levels u none f))
              (rw (newest-append_none u s (concat cs) (lower css) nothing) below)
        | inr k ↦
            let given =
              search-cons first_key dir disk crc32 k.t (find_in_levels levels u) k.c (lower css) u s
                k.table k.newer below in
            let both : newest u s (k.c ++ lower css) ≡ newest u s (concat cs ++ lower css) =
              elim (Option-cases (newest u s k.c)) [
                | inl e ↦
                    newest-append_none u s k.c (lower css) e
                    ∙ sym (newest-append_none u s (concat cs) (lower css) (k.same ∙ e))
                | inr (r, e) ↦
                    newest-append_newer u s k.c (lower css) r k.newer e
                    ∙ sym
                        (newest-append_newer u s (concat cs) (lower css) r newer_than (k.same ∙ e))
              ] in
            subst
              (λ ts'.
                Yields disk (search_tables first_key dir crc32 ts' u s)
                  (entry_of? (newest u s (concat cs ++ lower css))))
              (sym (find_in_levels-cons ts levels u (some k.t) k.found))
              (subst
                (λ f.
                  Yields disk
                    (search_tables first_key dir crc32 (k.t ∷ find_in_levels levels u) u s)
                    (entry_of? f))
                both given)
      ]

  -- Looking a key up in the tables gives the newest of its versions that the read may see, whatever
  -- is cached, if in level 0 a table that comes later has newer versions, if an upper level has newer
  -- versions than those below it, and if the ranges of the tables of a lower level do not meet.
  pub get_tables-newest :
      (l0 : List SsTable) (levels : List (List SsTable)) (cs : List (List Record))
      (css : List (List (List Record))) (u : List ℕ) (s : ℕ)
      → Stocked first_key dir disk crc32 (reverse l0) cs
      → NewestFirst first_key dir disk crc32 cs (lower css)
      → StockedLevels levels css
      → Yields disk
          (get_tables first_key dir crc32 (record { levels = l0 ∷ levels }) u s)
          (entry_of? (newest u s (concat cs ++ lower css)))
  unfolding get_tables get_sstables_for_key
  get_tables-newest l0 levels cs css u s h n below =
      let (found, e, run) =
        upper_tables first_key dir disk crc32 (reverse l0) (find_in_levels levels u) cs (lower css)
          u s h n (lower_tables levels css u s below) in
      let picked : get_sstables_for_key crc32 (record { levels = l0 ∷ levels }) u
          ≡ ok (found ++ find_in_levels levels u) =
        rw e refl in
      Yields-bind disk (pure (get_sstables_for_key crc32 (record { levels = l0 ∷ levels }) u))
        (λ x. search_tables first_key dir crc32 x u s) (found ++ find_in_levels levels u) _
        (Yields-pure disk _ _ picked) run
