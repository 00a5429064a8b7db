-- ===== src/Version.antt =====
-- src/version.rs: the tables of the database by level. Level 0 holds the flushed memtables, the
-- newest last; the tables of each other level are in the order of their smallest keys.
use jadedb.Common.{ℕ, ◌+◌, ◌%◌, ◌^◌, ltb, ◌&&◌, not, Bool, if◌then◌else◌, Option, none, some}
use jadedb.Common.{List, [], ◌∷◌, ◌++◌, reverse, length, replicate, get_elem?, set}
use jadedb.Common.Order.{bytes_cmp, is_lt}
use jadedb.Common.Result.{Result, ok, ◌>>=◌}
use jadedb.Manifest.{FileMeta}
use jadedb.Sstable.Table.{Dir, SsTable, open_table, may_contain}

pub record Version : Type 0 where
  pub levels : List (List SsTable)

-- `Version::empty`
abbrev pub empty : ℕ → Version
empty max_levels = record { levels = replicate max_levels [] }

-- `v.levels[level].push(sst)`, if there is such a level
unfoldable pub push_level : List (List SsTable) → ℕ → SsTable → List (List SsTable)
push_level levels level t = elim (get_elem? levels level) [
  | none ↦ levels
  | some tables ↦ set levels level (tables ++ (t ∷ []))
]

-- the loop of `from_metas`, which skips a file that is not there
unfoldable pub open_metas : Dir → List FileMeta → List (List SsTable) → Result (List (List SsTable))
open_metas dir [] levels = ok levels
open_metas dir (f ∷ files) levels =
    let skipped = open_metas dir files levels in
    let opened = open_table dir f.file_num f.smallest f.largest >>= λ t.
    open_metas dir files (push_level levels f.level t) in
    elim (dir f.file_num) [ none ↦ skipped | some _ ↦ opened ]

-- A stable sort: `t` goes in front of the tables that are not less.
unfoldable pub insert_by : (SsTable → SsTable → Bool) → SsTable → List SsTable → List SsTable
insert_by less t [] = t ∷ []
insert_by less t (u ∷ tables) =
    let rest = insert_by less t tables in if less u t then u ∷ rest else t ∷ (u ∷ tables)

-- `sort_by` and `sort_by_key`
unfoldable pub sort_by : (SsTable → SsTable → Bool) → List SsTable → List SsTable
sort_by less [] = []
sort_by less (t ∷ tables) = insert_by less t (sort_by less tables)

abbrev pub smallest_less : SsTable → SsTable → Bool
smallest_less a b = is_lt (bytes_cmp a.smallest b.smallest)

abbrev pub file_num_less : SsTable → SsTable → Bool
file_num_less a b = ltb a.file_num b.file_num

unfoldable pub sort_levels : List (List SsTable) → List (List SsTable)
sort_levels [] = []
sort_levels (tables ∷ levels) = sort_by smallest_less tables ∷ sort_levels levels

-- the loops of `from_metas` over the levels
unfoldable pub arrange : List (List SsTable) → List (List SsTable)
arrange [] = []
arrange (l0 ∷ levels) = sort_by file_num_less l0 ∷ sort_levels levels

-- `Version::from_metas`
unfoldable pub from_metas : Dir → List FileMeta → ℕ → Result Version
from_metas dir files max_levels = do
  levels ← open_metas dir files (empty max_levels).levels
  ok (record { levels = arrange levels })

-- `Version::l0_num_files`
unfoldable pub l0_num_files : Version → ℕ
l0_num_files v = elim v.levels [ [] ↦ 0 | l0 ∷ _ ↦ length l0 ]

-- the sum of `f.file_size` over the tables of a level, which wraps
unfoldable pub file_sizes : List SsTable → ℕ
file_sizes [] = 0
file_sizes (t ∷ tables) = (t.file_size + file_sizes tables) % 2 ^ 64

-- `Version::level_bytes`
unfoldable pub level_bytes : Version → ℕ → ℕ
level_bytes v level = elim (get_elem? v.levels level) [ none ↦ 0 | some tables ↦ file_sizes tables ]

-- `user_key >= sst.smallest && user_key <= sst.largest`
abbrev pub in_key_range : List ℕ → SsTable → Bool
in_key_range user_key t =
    not (is_lt (bytes_cmp user_key t.smallest)) && not (is_lt (bytes_cmp t.largest user_key))

-- `find_in_level`
unfoldable pub find_in_level : List SsTable → List ℕ → Option SsTable
find_in_level [] user_key = none
find_in_level (t ∷ tables) user_key =
    let later = find_in_level tables user_key in if in_key_range user_key t then some t else later

-- the loop of `get_sstables_for_key` over the other levels
unfoldable pub find_in_levels : List (List SsTable) → List ℕ → List SsTable
find_in_levels [] user_key = []
find_in_levels (tables ∷ levels) user_key =
    let rest = find_in_levels levels user_key in
    elim (find_in_level tables user_key) [ none ↦ rest | some t ↦ t ∷ rest ]

module _ (crc32 : List ℕ → ℕ) where
  -- the loop of `get_sstables_for_key` over level 0
  unfoldable pub candidates : List SsTable → List ℕ → Result (List SsTable)
  candidates [] user_key = ok []
  candidates (t ∷ tables) user_key = do
    found ← may_contain crc32 t user_key
    rest ← candidates tables user_key
    ok (if found then t ∷ rest else rest)

  -- `Version::get_sstables_for_key`
  unfoldable pub get_sstables_for_key : Version → List ℕ → Result (List SsTable)
  get_sstables_for_key v user_key = elim v.levels [
    | [] ↦ ok []
    | l0 ∷ levels ↦
        candidates (reverse l0) user_key >>= λ upper. ok (upper ++ find_in_levels levels user_key)
  ]

-- the tables of all levels
unfoldable pub flatten : List (List SsTable) → List SsTable
flatten [] = []
flatten (tables ∷ levels) = tables ++ flatten levels

-- `Version::all_tables`
abbrev pub all_tables : Version → List SsTable
all_tables v = flatten v.levels
