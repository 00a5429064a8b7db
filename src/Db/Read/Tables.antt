-- ===== src/Db/Read/Tables.antt =====
-- Looking a key up in the tables of all levels.
use jadedb.Common.{
  ℕ, ◌<◌, ◌≡◌, refl, sym, ap, subst, ◌∙◌, arith, true, false, Bool-cases, inl, inr, Option, none,
  some, Option-cases,
}
use jadedb.Common.{List, [], ◌∷◌, ◌++◌, append_assoc, All}
use jadedb.Common.Order.{bytes_eq, bytes_eq→≡}
use jadedb.Common.Result.{ok}
use jadedb.Key.{Record}
use jadedb.Key.Versions.{newest, newer, sees}
use jadedb.Memtable.Lookup.{entry_of?}
use jadedb.Memtable.Concat.{newest_hidden, newest_seen, newest-append_none}
use jadedb.Merge.Newest.{newest_in, newest_is_seen}
use jadedb.Sstable.Builder.Layout.{concat}
use jadedb.Sstable.Cache.{Cached}
use jadedb.Sstable.Table.{Dir, SsTable, may_contain}
use jadedb.Sstable.Reader.{table_get}
use jadedb.Sstable.Reader.Reads.{Yields, Yields-pure, Yields-bind}
use jadedb.Sstable.Reader.Table.{IsTable, table_get-newest, newest_excluded}
use jadedb.Version.{candidates}
use jadedb.Db.Read.{search_tables}

-- Every version in the first list is newer than those of the same key in the second.
abbrev pub Newer : List Record → List Record → Type 0
Newer xs ys = All (λ a. All (λ b. a.0.user_key ≡ b.0.user_key → b.0.seq < a.0.seq) ys) xs

newer_stays :
    (u : List ℕ) (s : ℕ) (x : Record) (ys : List Record)
    → All (λ b. x.0.user_key ≡ b.0.user_key → b.0.seq < x.0.seq) ys
    → sees u s x.0 ≡ true
    → (found : Option Record) → newest u s ys ≡ found
    → newer x found ≡ some x
newer_stays u s x ys h seen none n = refl
newer_stays u s x ys h seen (some z) n =
    let z_seen = newest_is_seen u s ys z n in
    let x_user : bytes_eq x.0.user_key u ≡ true = ground (arith, seen) in
    let z_user : bytes_eq z.0.user_key u ≡ true = ground (arith, z_seen) in
    let users : x.0.user_key ≡ z.0.user_key =
      bytes_eq→≡ x.0.user_key u x_user ∙ sym (bytes_eq→≡ z.0.user_key u z_user) in
    let lower =
      newest_in (λ b. x.0.user_key ≡ b.0.user_key → b.0.seq < x.0.seq) u s ys z n h users in
    ground (arith, lower)

pub newest-append_newer :
    (u : List ℕ) (s : ℕ) (xs ys : List Record) (r : Record)
    → Newer xs ys
    → newest u s xs ≡ some r
    → newest u s (xs ++ ys) ≡ some r
newest-append_newer u s [] ys r h e = absurd (unfold newest in cc)
newest-append_newer u s (x ∷ xs) ys r h e = elim (Bool-cases (sees u s x.0)) [
  | inr hidden ↦
      newest_hidden u s x (xs ++ ys) hidden
      ∙ newest-append_newer u s xs ys r h.1 (sym (newest_hidden u s x xs hidden) ∙ e)
  | inl seen ↦
      let both = newest_seen u s x (xs ++ ys) seen in
      let e' : newer x (newest u s xs) ≡ some r = sym (newest_seen u s x xs seen) ∙ e in
      elim (Option-cases (newest u s xs)) [
        | inr (y, n) ↦ both ∙ ap (newer x) (newest-append_newer u s xs ys y h.1 n ∙ sym n) ∙ e'
        | inl n ↦
            let first : some x ≡ some r = ap (newer x) (sym n) ∙ e' in
            both
            ∙ ap (newer x) (newest-append_none u s xs ys n)
            ∙ newer_stays u s x ys h.0 seen (newest u s ys) refl
            ∙ first
      ]
]

pub newest-none_right :
    (u : List ℕ) (s : ℕ) (xs ys : List Record)
    → newest u s ys ≡ none
    → newest u s (xs ++ ys) ≡ newest u s xs
unfolding newest
newest-none_right u s [] ys e = e
newest-none_right u s (x ∷ xs) ys e = rw (newest-none_right u s xs ys e) refl

module _ (first_key : List Cached → Option (ℕ × ℕ)) (dir : Dir) (disk : ℕ → ℕ → List ℕ)
    (crc32 : List ℕ → ℕ) where
  -- The tables have the records of the lists.
  unfoldable pub Stocked : List SsTable → List (List Record) → Type 0
  Stocked [] [] = Unit
  Stocked [] (c ∷ cs) = false ≡ true
  Stocked (t ∷ ts) [] = false ≡ true
  Stocked (t ∷ ts) (c ∷ cs) =
      ((ps : List (List Record)) × IsTable first_key dir disk t crc32 ps × (concat ps ≡ c))
      × Stocked ts cs

  pub table_reads :
      (t : SsTable) (c : List Record) (u : List ℕ) (s : ℕ)
      → ((ps : List (List Record)) × IsTable first_key dir disk t crc32 ps × (concat ps ≡ c))
      → Yields disk (table_get first_key dir crc32 t u s) (entry_of? (newest u s c))
  table_reads t c u s (ps, h, e) =
      subst (λ x. Yields disk (table_get first_key dir crc32 t u s) (entry_of? (newest u s x))) e
        (table_get-newest first_key dir disk t crc32 ps u s h)

  -- A search looks at the older tables only where the newer one has no version.
  pub search-cons :
      (t : SsTable) (ts : List SsTable) (c older : List Record) (u : List ℕ) (s : ℕ)
      → ((ps : List (List Record)) × IsTable first_key dir disk t crc32 ps × (concat ps ≡ c))
      → Newer c older
      → Yields disk (search_tables first_key dir crc32 ts u s) (entry_of? (newest u s older))
      → Yields disk
          (search_tables first_key dir crc32 (t ∷ ts) u s)
          (entry_of? (newest u s (c ++ older)))
  unfolding search_tables
  search-cons t ts c older u s h n rest =
      Yields-bind disk _ _ _ _ (table_reads t c u s h) (elim (Option-cases (newest u s c)) [
        | inl e ↦ rw (e, newest-append_none u s c older e) rest
        | inr (r, e) ↦ rw (e, newest-append_newer u s c older r n e) (Yields-pure disk _ _ refl)
      ])

  pub out_of_range :
      (t : SsTable) (c : List Record) (u : List ℕ) (s : ℕ)
      → ((ps : List (List Record)) × IsTable first_key dir disk t crc32 ps × (concat ps ≡ c))
      → may_contain crc32 t u ≡ ok false
      → newest u s c ≡ none
  out_of_range t c u s (ps, h, e) out =
      subst (λ x. newest u s x ≡ none) e
        (newest_excluded first_key dir disk t crc32 u s (concat ps) out h.covers)

  -- In each list, every version is newer than those of the same key in the lists behind it.
  unfoldable pub NewestFirst : List (List Record) → List Record → Type 0
  NewestFirst [] older = Unit
  NewestFirst (c ∷ cs) older = Newer c (concat cs ++ older) × NewestFirst cs older

  pub upper_tables :
      (ts below : List SsTable) (cs : List (List Record)) (older : List Record) (u : List ℕ) (s : ℕ)
      → Stocked ts cs
      → NewestFirst cs older
      → Yields disk (search_tables first_key dir crc32 below u s) (entry_of? (newest u s older))
      → (found : List SsTable) × (candidates crc32 ts u ≡ ok found)
        × Yields disk
            (search_tables first_key dir crc32 (found ++ below) u s)
            (entry_of? (newest u s (concat cs ++ older)))
  unfolding Stocked candidates concat NewestFirst
  upper_tables [] below [] older u s h n rest = ([], refl, rest)
  upper_tables [] below (c ∷ cs) older u s h n rest = cc
  upper_tables (t ∷ ts) below [] older u s h n rest = cc
  upper_tables (t ∷ ts) below (c ∷ cs) older u s h n rest =
      let (found, e, later) = upper_tables ts below cs older u s h.1 n.1 rest in
      let (b, q) = h.0.1.answers u in
      let assoc = append_assoc c (concat cs) older in
      elim (Bool-cases b) [
        | inl yes_bit ↦ (
          t ∷ found,
          rw (q, e, yes_bit) refl,
          subst
              (λ l.
                Yields disk (search_tables first_key dir crc32 (t ∷ (found ++ below)) u s)
                  (entry_of? (newest u s l)))
              (sym assoc) (search-cons t (found ++ below) c (concat cs ++ older) u s h.0 n.0 later),
        )
        | inr no_bit ↦
            let nothing = out_of_range t c u s h.0 (q ∙ ap ok no_bit) in
            (
              found,
              rw (q, e, no_bit) refl,
              subst
                  (λ f.
                    Yields disk (search_tables first_key dir crc32 (found ++ below) u s)
                      (entry_of? f))
                  (sym
                    (ap (newest u s) assoc ∙ newest-append_none u s c (concat cs ++ older) nothing))
                  later,
            )
      ]
