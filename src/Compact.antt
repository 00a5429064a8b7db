-- ===== src/Compact.antt =====
-- src/compact.rs: which tables are to be compacted. The child modules Run and Job model the merge that
-- writes the new tables.
pub mod Range
pub mod Run
pub mod Job
use jadedb.Common.{
  ℕ, zero, suc, ◌+◌, ◌-◌, ◌*◌, ◌^◌, ◌%◌, leb, ltb, not, ◌&&◌, Bool, if◌then◌else◌, Option, none,
  some,
}
use jadedb.Common.{List, [], ◌∷◌, retain, get_elem?}
use jadedb.Common.Order.{bytes_cmp, is_lt}
use jadedb.Common.Result.{Result, ok, panic, ◌>>=◌}
use jadedb.Options.{Options}
use jadedb.Sstable.Table.{SsTable}
use jadedb.Version.{Version, l0_num_files, level_bytes}

pub record CompactionJob : Type 0 where
  pub level : ℕ
  pub inputs_upper : List SsTable
  pub inputs_lower : List SsTable

-- the loop of `key_range` behind the first table
unfoldable pub widen : List ℕ → List ℕ → List SsTable → List ℕ × List ℕ
widen min_k max_k [] = (min_k, max_k)
widen min_k max_k (t ∷ tables) =
    widen (if is_lt (bytes_cmp t.smallest min_k) then t.smallest else min_k)
      (if is_lt (bytes_cmp max_k t.largest) then t.largest else max_k) tables

-- `key_range`
unfoldable pub key_range : List SsTable → Option (List ℕ × List ℕ)
key_range [] = none
key_range (t ∷ tables) = some (widen t.smallest t.largest tables)

-- the test of `overlapping`
abbrev pub overlaps : List ℕ → List ℕ → SsTable → Bool
overlaps smallest largest t =
    not (is_lt (bytes_cmp t.largest smallest)) && not (is_lt (bytes_cmp largest t.smallest))

-- `overlapping`
unfoldable pub overlapping : List SsTable → List ℕ → List ℕ → List SsTable
overlapping level smallest largest = retain (overlaps smallest largest) level

-- `&version.levels[level]`
unfoldable pub level_at : Version → ℕ → Result (List SsTable)
level_at v level = elim (get_elem? v.levels level) [ none ↦ panic | some tables ↦ ok tables ]

-- `opts.base_level_bytes as u64 * (opts.level_ratio as u64).pow(level as u32 - 1)`, which wraps
abbrev pub level_limit : Options → ℕ → ℕ
level_limit opts level = opts.base_level_bytes * opts.level_ratio ^ (level - 1) % 2 ^ 64

-- the branch for level 0
unfoldable pub pick_upper : Version → Result (Option CompactionJob)
pick_upper v = do
  upper ← level_at v 0
  elim (key_range upper) [
    | none ↦ ok none
    | some (min_k, max_k) ↦ level_at v 1 >>= λ next. ok (
        some
          (record { level = 0; inputs_upper = upper; inputs_lower = overlapping next min_k max_k }))
  ]

-- the body of the loop over the other levels, for a level that is too large
unfoldable pub pick_level : Version → ℕ → Result (Option CompactionJob)
pick_level v level = do
  tables ← level_at v level
  elim tables [
    | [] ↦ ok none
    | t ∷ _ ↦ level_at v (level + 1) >>= λ next. ok (
        some (record {
          level = level;
          inputs_upper = t ∷ [];
          inputs_lower = overlapping next t.smallest t.largest;
        }))
  ]

-- the loop over the other levels, with `n` of them left from `level` on
unfoldable pub pick_from : Version → Options → ℕ → ℕ → Result (Option CompactionJob)
pick_from v opts zero level = ok none
pick_from v opts (suc n) level =
    let rest = pick_from v opts n (level + 1) in
    if ltb (level_limit opts level) (level_bytes v level) then pick_level v level else rest

-- `pick_compaction`
unfoldable pub pick_compaction : Version → Options → Result (Option CompactionJob)
pick_compaction v opts =
    if leb opts.l0_compaction_trigger (l0_num_files v)
    then pick_upper v
    else pick_from v opts (opts.max_levels - 1 - 1) 1
