-- ===== src/Db/Memory.antt =====
-- src/db.rs: the part of `Inner` that a write changes and that a read looks at before the tables.
-- Of the version a write reads only the number of files in level 0. The atomic counters, the lock
-- and the notification of the background thread are left out.
pub mod Write
pub mod Restart
use jadedb.Common.{ℕ, ◌+◌, ◌*◌, ◌%◌, ◌^◌, Bool, ◌||◌, leb, if◌then◌else◌}
use jadedb.Common.{Option, none, some, List, [], ◌∷◌, ◌++◌, length, reverse}
use jadedb.Common.Result.{Result, ok, err, closed}
use jadedb.Options.{Options}
use jadedb.Key.{ValueKind, InternalKey, put, delete}
use jadedb.Memtable.{MemTable, Entry, new, put_mem, get}
use jadedb.Wal.{Wal, append, sync}

pub record Inner : Type 0 where
  pub opts : Options
  pub mem : MemTable
  pub imms : List MemTable
  pub l0_num_files : ℕ
  pub wal : Wal
  pub next_seq : ℕ
  pub is_closed : Bool
  pub stall_count : ℕ

-- What one round of the loop in `write` does: it stalls and is tried again, or the write is done.
pub data Outcome : Type 0 where
  stalled done : Inner → Outcome

-- `g.imms.len() >= 2 || g.version.l0_num_files() >= g.opts.l0_compaction_trigger * 2`
abbrev pub must_stall : Inner → Bool
must_stall g =
    leb 2 (length g.imms) || leb (g.opts.l0_compaction_trigger * 2 % 2 ^ 64) g.l0_num_files

-- `if should_freeze { ... }`
unfoldable pub freeze : Inner → Inner
freeze g =
    if leb g.opts.memtable_bytes g.mem.approx_bytes
    then record g { wal = sync g.wal; mem = new; imms = g.imms ++ (g.mem ∷ []) }
    else g

-- the key that a write gets; the next sequence number wraps at the width of u64
abbrev pub next_key : Inner → List ℕ → ValueKind → InternalKey
next_key g key kind = record { user_key = key; seq = (g.next_seq + 1) % 2 ^ 64; kind = kind }

module _ (crc32 : List ℕ → ℕ) where
  -- the end of a round: log, then memtable, then freeze
  unfoldable pub apply_write : Inner → List ℕ → List ℕ → ValueKind → Inner
  apply_write g key value kind =
      let ik = next_key g key kind in
      freeze (record g {
        next_seq = ik.seq;
        wal = append crc32 g.wal ik value;
        mem = put_mem g.mem ik value;
      })

  -- one round of the loop in `Db::write`
  unfoldable pub write : Inner → List ℕ → List ℕ → ValueKind → Result Outcome
  write g key value kind =
      if g.is_closed
      then err closed
      else if must_stall g
      then ok (stalled (record g { stall_count = g.stall_count + 1 }))
      else ok (done (apply_write g key value kind))

-- the loop of `get_with_seq` over the frozen memtables
unfoldable pub first_found : List ℕ → ℕ → List MemTable → Option Entry
first_found key max_seq [] = none
first_found key max_seq (imm ∷ older) =
    let rest = first_found key max_seq older in
    elim (get imm key max_seq) [ some e ↦ some e | none ↦ rest ]

-- what `get_with_seq` finds in the memtables
unfoldable pub get_memory : Inner → List ℕ → ℕ → Option Entry
get_memory g key max_seq = elim (get g.mem key max_seq) [
  | some e ↦ some e
  | none ↦ first_found key max_seq (reverse g.imms)
]
