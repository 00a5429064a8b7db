-- ===== src/Sstable/Block/Lookup.antt =====
-- Lookup in a block, and that reading a block does not panic.
use jadedb.Common.{ℕ, ◌≡◌, refl, ap, ◌∙◌, ltb}
use jadedb.Common.{Option, none, some, Bool-cases, inl, inr}
use jadedb.Common.{List, [], ◌∷◌, length, All, arith, if◌then◌else◌}
use jadedb.Common.Words.{IsU32}
use jadedb.Common.Result.{ok}
use jadedb.Key.{Record}
use jadedb.Key.Versions.{newest, newer, sees}
use jadedb.Sstable.Block.{pick, block_get, new, finish}
use jadedb.Sstable.Block.Entries.{IsEntry, add_all, block_entries-finish}

-- The better one of what was found before and of the newest of the rest.
abbrev better : Option Record → Option Record → Option Record
better none found = found
better (some b) found = newer b found

newer_twice :
    (b r : Record) (found : Option Record)
    → newer b (newer r found) ≡ better (if ltb b.0.seq r.0.seq then some r else some b) found
newer_twice b r none = ground arith
newer_twice b r (some y) = ground arith

pick-newest :
    (user_key : List ℕ) (max_seq : ℕ) (best : Option Record) (rs : List Record)
    → pick user_key max_seq best rs ≡ better best (newest user_key max_seq rs)
unfolding pick newest
pick-newest u s none [] = refl
pick-newest u s (some b) [] = refl
pick-newest u s best (r ∷ rs) = elim (Bool-cases (sees u s r.0)) [
  | inl seen ↦ rw seen (pick-newest u s (chosen best) rs ∙ joined best (newest u s rs))
  | inr hidden ↦ rw (hidden, pick-newest u s best rs) refl
]
  where
    chosen : Option Record → Option Record
    chosen best = elim best [
      | none ↦ some r
      | some b ↦ if ltb b.0.seq r.0.seq then some r else some b
    ]

    joined : (best found : Option Record) → better (chosen best) found ≡ better best (newer r found)
    joined none found = refl
    joined (some b) found = ground (arith, newer_twice b r found)

-- Looking up a key in a block that a builder has finished gives the newest version of the key
-- among the added records that the read may see, if their number and lengths fit a u32 and their
-- sequence numbers fit 56 bits.
pub block_get-newest :
    (rs : List Record) (user_key : List ℕ) (max_seq : ℕ)
    → IsU32 (length rs)
    → All IsEntry rs
    → block_get (finish (add_all new rs)) user_key max_seq ≡ ok (newest user_key max_seq rs)
unfolding block_get
block_get-newest rs u s hn h = rw (block_entries-finish rs hn h) (ap ok (pick-newest u s none rs))
