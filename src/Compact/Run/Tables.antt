-- ===== src/Compact/Run/Tables.antt =====
-- The table files that a compaction writes for a list of records.
use jadedb.Common.{
  ℕ, ◌+◌, ◌<◌, ◌≡◌, ◌⊎◌, inl, inr, ◌≤◌, arith, Bool, true, false, not, ◌&&◌, leb, some,
}
use jadedb.Common.{List, [], ◌∷◌, ◌++◌, length, map, retain}
use jadedb.Common.Result.{Result, ok}
use jadedb.Key.{Record, put, delete}
use jadedb.Manifest.{FileMeta, add_file}
use jadedb.Options.{Options}
use jadedb.Sstable.Builder.{SsTableBuilder, SsTableMeta, new, add_all, finish}
use jadedb.Sstable.Builder.Layout.{concat}
use jadedb.Sstable.Table.{Dir}
use jadedb.Compact.Run.{Output}

-- Is the record a tombstone that no open snapshot needs, on its way to the last level?
abbrev pub is_obsolete : Options → ℕ → ℕ → Record → Bool
is_obsolete opts level watermark (key, value) = elim key.kind [
  | put ↦ false
  | delete ↦ leb key.seq watermark && leb opts.max_levels (level + 1)
]

-- the records that are not obsolete tombstones
abbrev pub live : Options → ℕ → ℕ → List Record → List Record
live opts level watermark rs = retain (λ r. not (is_obsolete opts level watermark r)) rs

-- the size of the records of a table, with 16 bytes for the other fields of each
abbrev pub size_of : List Record → ℕ
size_of [] = 0
size_of ((key, value) ∷ rs) = length key.user_key + length value + 16 + size_of rs

pub size_of-append : (xs ys : List Record) → size_of (xs ++ ys) ≡ size_of xs + size_of ys
size_of-append [] ys = omega arith
size_of-append (x ∷ xs) ys = omega (arith, size_of-append xs ys)

-- All lists but the last have the size `target`.
abbrev pub AreFull : ℕ → List (List Record) → Type 0
AreFull target [] = Unit
AreFull target (p ∷ ps) =
    let later = AreFull target ps in elim ps [ [] ↦ Unit | _ ∷ _ ↦ (target ≤ size_of p) × later ]

pub AreFull-cons :
    (target : ℕ) (p : List Record) (ps : List (List Record))
    → (ps ≡ []) ⊎ (target ≤ size_of p)
    → AreFull target ps
    → AreFull target (p ∷ ps)
AreFull-cons target p [] h rest = tt
AreFull-cons target p (q ∷ ps) (inl e) rest = cc
AreFull-cons target p (q ∷ ps) (inr large) rest = (large, rest)

module _ (crc32 : List ℕ → ℕ) (probes_of : ℕ → ℕ) (opts : Options) (level : ℕ) where
  -- There is at least one record; and without the last, if there are others, the records do not have
  -- the target size.
  pub record IsCut (p : List Record) : Type 0 where
    pub front : List Record
    pub last : Record
    pub split : p ≡ front ++ (last ∷ [])
    pub early : (front ≡ []) ⊎ (size_of front < opts.target_file_size)

  -- The builder that has been given the records.
  abbrev pub builder_of : List Record → SsTableBuilder
  builder_of rs = add_all (new opts.block_size opts.bloom_bits_per_key) rs

  -- The file with the number `n` is the table of the records `p`, and `m` describes it.
  pub record IsFiled (n : ℕ) (p : List Record) (m : FileMeta) (dir : Dir) : Type 0 where
    pub cut : IsCut p
    pub meta : SsTableMeta
    pub file : List ℕ
    pub finished : finish crc32 probes_of (builder_of p) ≡ ok (meta, file)
    pub numbered : m.file_num ≡ n
    pub placed : m.level ≡ level
    pub lowest : m.smallest ≡ meta.smallest.user_key
    pub highest : m.largest ≡ meta.largest.user_key
    pub sized : m.file_size ≡ length file
    pub stored : dir n ≡ some file

  -- The files from the number `n` on are the tables of the lists `ps`, and `ms` describe them.
  unfoldable pub Filed : ℕ → List (List Record) → List FileMeta → Dir → Type 0
  Filed n [] [] dir = Unit
  Filed n [] (m ∷ ms) dir = false ≡ true
  Filed n (p ∷ ps) [] dir = false ≡ true
  Filed n (p ∷ ps) (m ∷ ms) dir = IsFiled n p m dir × Filed (n + 1) ps ms dir

  -- From the output `out` on, the records `rs` are written to tables of their own.
  pub record Tables (out : Output) (rs : List Record) (result : Result Output) : Type 0 where
    pub tables : List (List Record)
    pub metas : List FileMeta
    pub after : Output
    pub ends : result ≡ ok after
    pub all : concat tables ≡ rs
    pub full : AreFull opts.target_file_size tables
    pub filed : Filed out.next_file_num tables metas after.dir
    pub counted : after.next_file_num ≡ out.next_file_num + length tables
    pub described : after.new_metas ≡ out.new_metas ++ metas
    pub logged : after.edits ≡ out.edits ++ map add_file metas
    pub untouched : (k : ℕ) → k < out.next_file_num → after.dir k ≡ out.dir k
