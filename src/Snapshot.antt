-- ===== src/Snapshot.antt =====
-- src/snapshot.rs: the sequence numbers of the open snapshots.
pub mod Watermark
use jadedb.Common.{ℕ, suc, min, ◌==◌, Option, none, some, List, [], ◌∷◌, ◌++◌, set, if◌then◌else◌}
use jadedb.Common.Words.{u64_max}

pub record SnapshotTracker : Type 0 where
  pub active : List ℕ

abbrev pub new : SnapshotTracker
new = record { active = [] }

-- `create_snapshot`: the snapshot itself is its sequence number.
unfoldable pub create_snapshot : SnapshotTracker → ℕ → SnapshotTracker
create_snapshot t seq = record { active = t.active ++ (seq ∷ []) }

-- `iter().position(|&s| s == seq)`
unfoldable pub position : ℕ → List ℕ → Option ℕ
position seq [] = none
position seq (x ∷ xs) =
    let rest = position seq xs in
    if x == seq then some 0 else elim rest [ none ↦ none | some i ↦ some (suc i) ]

unfoldable pub last_of : ℕ → List ℕ → ℕ
last_of d [] = d
last_of d (x ∷ xs) = last_of x xs

unfoldable pub drop_last : List ℕ → List ℕ
drop_last [] = []
drop_last (x ∷ []) = []
drop_last (x ∷ y ∷ xs) = x ∷ drop_last (y ∷ xs)

-- `Vec::swap_remove`: the last element takes the place of the removed one.
unfoldable pub swap_remove : List ℕ → ℕ → List ℕ
swap_remove xs i = drop_last (set xs i (last_of 0 xs))

-- `release`, which dropping a snapshot calls
unfoldable pub release : SnapshotTracker → ℕ → SnapshotTracker
release t seq = elim (position seq t.active) [
  | none ↦ t
  | some i ↦ record { active = swap_remove t.active i }
]

-- `iter().copied().min().unwrap_or(u64::MAX)`
unfoldable pub minimum : List ℕ → Option ℕ
minimum [] = none
minimum (x ∷ xs) = elim (minimum xs) [ none ↦ some x | some m ↦ some (min x m) ]

unfoldable pub watermark : SnapshotTracker → ℕ
watermark t = elim (minimum t.active) [ none ↦ u64_max | some m ↦ m ]
