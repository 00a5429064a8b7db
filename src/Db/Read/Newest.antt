-- ===== src/Db/Read/Newest.antt =====
-- What `get_with_seq` finds in the memtables and in the tables.
use jadedb.Common.{
  ℕ, ◌≡◌, ◌⊎◌, refl, sym, ap, subst, ◌∙◌, false, inl, inr, Option, none, some, Option-cases,
}
use jadedb.Common.{List, [], ◌∷◌, ◌++◌, append_assoc, reverse, map}
use jadedb.Common.BTreeMap
use jadedb.Common.Words.{u64_max}
use jadedb.Common.Result.{ok}
use jadedb.Key.{Record, cmp}
use jadedb.Key.Versions.{newest, value_of, SeqsBelow}
use jadedb.Memtable.{MemTable, Entry, get}
use jadedb.Memtable.Lookup.{entry_of?, get-newest}
use jadedb.Memtable.Concat.{newest-append_none}
use jadedb.Sstable.Builder.Layout.{concat}
use jadedb.Sstable.Cache.{Cached}
use jadedb.Sstable.Table.{Dir, SsTable}
use jadedb.Sstable.Reader.{pure, ◌>>=◌, is_visible}
use jadedb.Sstable.Reader.Reads.{Yields, Yields-pure, Yields-bind}
use jadedb.Version.{Version}
use jadedb.Db.Memory.{Inner, get_memory, first_found}
use jadedb.Db.Read.{answer, get_tables, get_with_seq}
use jadedb.Db.Read.Tables.{Newer, newest-append_newer, Stocked, NewestFirst}
use jadedb.Db.Read.Levels.{lower, StockedLevels, get_tables-newest}

-- Memtables in order, each newer than those behind it and than the records `older`.
unfoldable pub AreMems : List MemTable → List Record → Type 0
AreMems [] older = Unit
AreMems (m ∷ mems) older =
    BTreeMap.IsSorted cmp m.map
    × SeqsBelow u64_max m.map
    × Newer m.map (concat (map (λ n. n.map) mems) ++ older)
    × AreMems mems older

-- the records of the memtables
abbrev pub mem_records : List MemTable → List Record
mem_records mems = concat (map (λ m. m.map) mems)

first_found-cons :
    (m : MemTable) (mems : List MemTable) (u : List ℕ) (s : ℕ) (found : Option Entry)
    → get m u s ≡ found
    → first_found u s (m ∷ mems) ≡ (elim found [ some e ↦ some e | none ↦ first_found u s mems ])
unfolding first_found
first_found-cons m mems u s found e =
    ap (λ f. elim f [ some x ↦ some x | none ↦ first_found u s mems ]) e

-- What the memtables give, and what is left to be looked for behind them.
first_found_lem :
    (mems : List MemTable) (older : List Record) (u : List ℕ) (s : ℕ)
    → AreMems mems older
    → ((first_found u s mems ≡ none) × (newest u s (mem_records mems ++ older) ≡ newest u s older))
      ⊎ ((r : Record) × (first_found u s mems ≡ entry_of? (some r))
          × (newest u s (mem_records mems ++ older) ≡ some r))
unfolding AreMems concat
first_found_lem [] older u s h = inl (unfold first_found in refl, refl)
first_found_lem (m ∷ mems) older u s h =
    let (sorted, below, newer, rest) = h in
    let found = get-newest m u s sorted below in
    let assoc = append_assoc m.map (mem_records mems) older in
    elim (Option-cases (newest u s m.map)) [
      | inr (r, e) ↦ inr (
        r,
        first_found-cons m mems u s _ (found ∙ ap entry_of? e),
        ap (newest u s) assoc ∙ newest-append_newer u s m.map (mem_records mems ++ older) r newer e,
      )
      | inl e ↦
          let skip =
            ap (newest u s) assoc ∙ newest-append_none u s m.map (mem_records mems ++ older) e in
          elim (first_found_lem mems older u s rest) [
            | inl (f, q) ↦
                inl (first_found-cons m mems u s _ (found ∙ ap entry_of? e) ∙ f, skip ∙ q)
            | inr (r, f, q) ↦
                inr (r, first_found-cons m mems u s _ (found ∙ ap entry_of? e) ∙ f, skip ∙ q)
          ]
    ]

get_open :
    (first_key : List Cached → Option (ℕ × ℕ)) (dir : Dir) (crc32 : List ℕ → ℕ) (g : Inner)
    (v : Version) (u : List ℕ) (s : ℕ) (found : Option Entry)
    → g.is_closed ≡ false
    → get_memory g u s ≡ found
    → get_with_seq first_key dir crc32 g v u s ≡ (elim found [
      | some e ↦ pure (ok (is_visible e))
      | none ↦ (get_tables first_key dir crc32 v u s >>= λ x. pure (ok (answer first_key dir x)))
    ])
unfolding get_with_seq get_memory
get_open first_key dir crc32 g v u s found is_open e = rw is_open (
    ap
      (λ f. elim f [
        | some x ↦ pure (ok (is_visible x))
        | none ↦ (get_tables first_key dir crc32 v u s >>= λ x. pure (ok (answer first_key dir x)))
      ])
      e)

get_with_seq_found :
    (first_key : List Cached → Option (ℕ × ℕ)) (dir : Dir) (disk : ℕ → ℕ → List ℕ)
    (crc32 : List ℕ → ℕ) (g : Inner) (l0 : List SsTable) (levels : List (List SsTable))
    (cs : List (List Record)) (css : List (List (List Record))) (u : List ℕ) (s : ℕ)
    → g.is_closed ≡ false
    → AreMems (g.mem ∷ reverse g.imms) (concat cs ++ lower first_key dir disk crc32 css)
    → Stocked first_key dir disk crc32 (reverse l0) cs
    → NewestFirst first_key dir disk crc32 cs (lower first_key dir disk crc32 css)
    → StockedLevels first_key dir disk crc32 levels css
    → Yields disk (get_with_seq first_key dir crc32 g (record { levels = l0 ∷ levels }) u s) (
        answer first_key dir (
          entry_of? (
            newest u s (
              mem_records (g.mem ∷ reverse g.imms)
              ++ (concat cs ++ lower first_key dir disk crc32 css)))))
get_with_seq_found first_key dir disk crc32 g l0 levels cs css u s is_open mems stocked first
      below =
    let tables =
      get_tables-newest first_key dir disk crc32 l0 levels cs css u s stocked first below in
    let memory : get_memory g u s ≡ first_found u s (g.mem ∷ reverse g.imms) =
      unfold get_memory in unfold first_found in refl in
    let version : Version = record { levels = l0 ∷ levels } in
    let shown : Option Record → Option (List ℕ) = λ r. answer first_key dir (entry_of? r) in
    let all =
      mem_records (g.mem ∷ reverse g.imms) ++ (concat cs ++ lower first_key dir disk crc32 css) in
    elim (first_found_lem (g.mem ∷ reverse g.imms) (concat cs ++ lower first_key dir disk crc32 css)
      u s mems) [
        | inl (f, q) ↦
            subst (λ m. Yields disk m (shown (newest u s all)))
              (sym (get_open first_key dir crc32 g version u s none is_open (memory ∙ f)))
              (rw q (Yields-bind disk _ _ _ _ tables (Yields-pure disk _ _ refl)))
        | inr (r, f, q) ↦
            subst (λ m. Yields disk m (shown (newest u s all)))
              (sym (
                get_open first_key dir crc32 g version u s (entry_of? (some r)) is_open
                  (memory ∙ f)))
              (rw q (Yields-pure disk _ _ refl))
      ]

-- The answer for an entry is the value of its record.
answer_value :
    (first_key : List Cached → Option (ℕ × ℕ)) (dir : Dir) (r : Option Record)
    → answer first_key dir (entry_of? r) ≡ value_of r
answer_value first_key dir none = refl
answer_value first_key dir (some (k, value)) = refl

-- A read of an open database, through any cache whose blocks are those on the disk, succeeds, and
-- leaves such a cache. It finds the newest version of the key that it may see among those in the
-- memtables and in the tables, and gives its value, or none for a tombstone. The memtables are in key
-- order, each with newer versions than those frozen before it and than the tables, and with sequence
-- numbers below the greatest u64. Each table is laid out as a builder does it, from sorted entries with
-- sequence numbers below 2 ^ 56. The tables of level 0 have newer versions than those in front of them
-- and than the other levels; each other level has disjoint rising ranges, and newer versions than the
-- levels below it.
pub get_with_seq-newest :
    (first_key : List Cached → Option (ℕ × ℕ)) (dir : Dir) (disk : ℕ → ℕ → List ℕ)
    (crc32 : List ℕ → ℕ) (g : Inner) (l0 : List SsTable) (levels : List (List SsTable))
    (cs : List (List Record)) (css : List (List (List Record))) (u : List ℕ) (s : ℕ)
    → g.is_closed ≡ false
    → AreMems (g.mem ∷ reverse g.imms) (concat cs ++ lower first_key dir disk crc32 css)
    → Stocked first_key dir disk crc32 (reverse l0) cs
    → NewestFirst first_key dir disk crc32 cs (lower first_key dir disk crc32 css)
    → StockedLevels first_key dir disk crc32 levels css
    → Yields disk (get_with_seq first_key dir crc32 g (record { levels = l0 ∷ levels }) u s) (
        value_of (
          newest u s (
            mem_records (g.mem ∷ reverse g.imms)
            ++ (concat cs ++ lower first_key dir disk crc32 css))))
get_with_seq-newest first_key dir disk crc32 g l0 levels cs css u s is_open mems stocked first
      below =
    let all =
      mem_records (g.mem ∷ reverse g.imms) ++ (concat cs ++ lower first_key dir disk crc32 css) in
    subst (Yields disk (get_with_seq first_key dir crc32 g (record { levels = l0 ∷ levels }) u s))
      (answer_value first_key dir (newest u s all))
      (get_with_seq_found first_key dir disk crc32 g l0 levels cs css u s is_open mems stocked first
        below)
