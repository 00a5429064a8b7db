-- ===== src/Db/Memory/Write.antt =====
-- What a write does to the reads of the memtables.
use jadedb.Common.{
  ℕ, ◌+◌, ◌<◌, ◌≡◌, refl, sym, ap, ◌∙◌, subst, arith, Bool, true, false, leb, if◌then◌else◌,
}
use jadedb.Common.{
  Bool-cases, inl, inr, Option, none, some, List, [], ◌∷◌, ◌++◌, reverse, reverse-append,
}
use jadedb.Common.Words.{u64_max}
use jadedb.Common.BTreeMap
use jadedb.Common.Result.{ok}
use jadedb.Key.{ValueKind, InternalKey, cmp}
use jadedb.Key.Versions.{newest, sees, SeqsBelow, SeqsBelow-mono}
use jadedb.Memtable.{MemTable, Entry, new, put_mem, get, first_visible}
use jadedb.Memtable.Lookup.{entry_of?, get-newest}
use jadedb.Memtable.History.{newest-insert}
use jadedb.Wal.{Wal, sync, append}
use jadedb.Db.Replay.{put_mem-IsSorted, put_mem-SeqsBelow}
use jadedb.Db.Memory.{Inner, done, freeze, next_key, apply_write, write, first_found, get_memory}

-- The active memtable is in key order, and its sequence numbers are at most the last one given.
pub record IsCurrent (g : Inner) : Type 0 where
  pub sorted : BTreeMap.IsSorted cmp g.mem.map
  pub given : SeqsBelow (g.next_seq + 1) g.mem.map

-- Putting the newest write shows it to the reads that may see it, and to no others.
get-put_mem :
    (m : MemTable) (k : InternalKey) (v : List ℕ) (u : List ℕ) (s : ℕ)
    → BTreeMap.IsSorted cmp m.map
    → SeqsBelow k.seq m.map
    → k.seq < u64_max
    → get (put_mem m k v) u s
      ≡ (if sees u s k then some (record { kind = k.kind; value = v }) else get m u s)
get-put_mem m k v u s sorted below wide =
    let all : SeqsBelow u64_max m.map =
      SeqsBelow-mono k.seq u64_max m.map (omega (arith, wide)) below in
    let inserted : newest u s (put_mem m k v).map
        ≡ (if sees u s k then some (k, v) else newest u s m.map) =
      unfold put_mem in newest-insert u s k v m.map below in
    get-newest (put_mem m k v) u s (put_mem-IsSorted m k v sorted)
      (put_mem-SeqsBelow m k v u64_max wide all)
    ∙ ap entry_of? inserted
    ∙ shown (sees u s k)
  where
    shown :
        (b : Bool)
        → entry_of? (if b then some (k, v) else newest u s m.map)
          ≡ (if b then some (record { kind = k.kind; value = v }) else get m u s)
    shown true = refl
    shown false =
        sym
          (get-newest m u s sorted (SeqsBelow-mono k.seq u64_max m.map (omega (arith, wide)) below))

pub get-new : (u : List ℕ) (s : ℕ) → get new u s ≡ none
unfolding get first_visible BTreeMap.range_from
get-new u s = refl

-- Freezing moves the active memtable to where a read looks next.
get_memory_moved :
    (g : Inner) (w : Wal) (u : List ℕ) (s : ℕ)
    → get_memory (record g { wal = w; mem = new; imms = g.imms ++ (g.mem ∷ []) }) u s
      ≡ get_memory g u s
unfolding get_memory
get_memory_moved g w u s =
    let moved : reverse (g.imms ++ (g.mem ∷ [])) ≡ g.mem ∷ reverse g.imms =
      reverse-append g.imms (g.mem ∷ []) in
    let opened : first_found u s (g.mem ∷ reverse g.imms) ≡ get_memory g u s =
      unfold first_found get_memory in refl in
    ap (λ f. elim f [ some e ↦ some e | none ↦ first_found u s (reverse (g.imms ++ (g.mem ∷ []))) ])
      (get-new u s)
    ∙ ap (first_found u s) moved
    ∙ opened

get_memory-freeze : (g : Inner) (u : List ℕ) (s : ℕ) → get_memory (freeze g) u s ≡ get_memory g u s
unfolding freeze
get_memory-freeze g u s = elim (Bool-cases (leb g.opts.memtable_bytes g.mem.approx_bytes)) [
  | inl full ↦ rw full (get_memory_moved g (sync g.wal) u s)
  | inr room ↦ rw room refl
]

freeze-IsCurrent : (g : Inner) → IsCurrent g → IsCurrent (freeze g)
unfolding freeze
freeze-IsCurrent g h = elim (Bool-cases (leb g.opts.memtable_bytes g.mem.approx_bytes)) [
  | inl full ↦ rw full (record { sorted = tt; given = tt })
  | inr room ↦ rw room h
]

pub done-write :
    (crc32 : List ℕ → ℕ) (g g' : Inner) (key value : List ℕ) (kind : ValueKind)
    → write crc32 g key value kind ≡ ok (done g')
    → apply_write crc32 g key value kind ≡ g'
unfolding write
done-write crc32 g g' key value kind e = ground arith

-- The same for the reads of all memtables.
get_memory-put_mem :
    (g : Inner) (w : Wal) (k : InternalKey) (v : List ℕ) (u : List ℕ) (s : ℕ)
    → IsCurrent g
    → k.seq ≡ g.next_seq + 1
    → k.seq < u64_max
    → get_memory (record g { next_seq = k.seq; wal = w; mem = put_mem g.mem k v }) u s
      ≡ (if sees u s k then some (record { kind = k.kind; value = v }) else get_memory g u s)
unfolding get_memory
get_memory-put_mem g w k v u s h next wide =
    let shown =
      get-put_mem g.mem k v u s h.sorted (subst (λ n. SeqsBelow n g.mem.map) (sym next) h.given)
        wide in
    ap or_older shown ∙ falls (sees u s k)
  where
    or_older : Option Entry → Option Entry
    or_older found = elim found [ some e ↦ some e | none ↦ first_found u s (reverse g.imms) ]

    falls :
        (b : Bool)
        → or_older (if b then some (record { kind = k.kind; value = v }) else get g.mem u s)
          ≡ (if b then some (record { kind = k.kind; value = v }) else or_older (get g.mem u s))
    falls true = refl
    falls false = refl

put_mem-IsCurrent :
    (g : Inner) (w : Wal) (k : InternalKey) (v : List ℕ)
    → IsCurrent g
    → k.seq ≡ g.next_seq + 1
    → IsCurrent (record g { next_seq = k.seq; wal = w; mem = put_mem g.mem k v })
put_mem-IsCurrent g w k v h next = record {
  sorted = put_mem-IsSorted g.mem k v h.sorted;
  given =
      put_mem-SeqsBelow g.mem k v (k.seq + 1) (omega arith)
        (SeqsBelow-mono (g.next_seq + 1) (k.seq + 1) g.mem.map (omega (arith, next)) h.given);
}

applied :
    (crc32 : List ℕ → ℕ) (g : Inner) (key value : List ℕ) (kind : ValueKind) (u : List ℕ) (s : ℕ)
    → IsCurrent g
    → g.next_seq + 1 < u64_max
    → IsCurrent (apply_write crc32 g key value kind)
      × (get_memory (apply_write crc32 g key value kind) u s ≡ (
          if sees u s (next_key g key kind)
          then some (record { kind = kind; value = value })
          else get_memory g u s))
unfolding apply_write
applied crc32 g key value kind u s h wide =
    let k = next_key g key kind in
    let w = append crc32 g.wal k value in
    let next : k.seq ≡ g.next_seq + 1 = omega (arith, wide) in
    (
      freeze-IsCurrent _ (put_mem-IsCurrent g w k value h next),
      get_memory-freeze _ u s
          ∙ get_memory-put_mem g w k value u s h next (omega (arith, wide, next)),
    )

-- Where the active memtable is in order and its sequence numbers are at most the last one given, a
-- write that is done keeps this so. It is seen by every read of its key at its sequence number or
-- above, and changes no other read of the memtables. The new sequence number is below the greatest
-- u64.
pub get_memory-write :
    (crc32 : List ℕ → ℕ) (g g' : Inner) (key value : List ℕ) (kind : ValueKind) (user_key : List ℕ)
    (max_seq : ℕ)
    → IsCurrent g
    → g.next_seq + 1 < u64_max
    → write crc32 g key value kind ≡ ok (done g')
    → IsCurrent g'
      × (get_memory g' user_key max_seq ≡ (
          if sees user_key max_seq (next_key g key kind)
          then some (record { kind = kind; value = value })
          else get_memory g user_key max_seq))
get_memory-write crc32 g g' key value kind u s h wide e =
    subst
      (λ g''.
        IsCurrent g''
        × (get_memory g'' u s ≡ (
            if sees u s (next_key g key kind)
            then some (record { kind = kind; value = value })
            else get_memory g u s)))
      (done-write crc32 g g' key value kind e) (applied crc32 g key value kind u s h wide)
