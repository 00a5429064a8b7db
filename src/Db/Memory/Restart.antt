-- ===== src/Db/Memory/Restart.antt =====
-- Writes to a fresh database, and what a restart makes of its log.
use jadedb.Common.{
  ℕ, ◌+◌, ◌<◌, ◌≡◌, refl, sym, ap, ap₂, reverse, ◌∙◌, subst, arith, Bool, true, false, leb,
  if◌then◌else◌,
}
use jadedb.Common.{Bool-cases, inl, inr, Option, none, some, List, [], ◌∷◌, ◌++◌, All, All-append}
use jadedb.Common.Words.{u64_max, IsU32}
use jadedb.Common.Result.{ok}
use jadedb.Options.{always}
use jadedb.Key.{ValueKind, InternalKey, Record}
use jadedb.Key.Versions.{sees, last_write, Rising, SeqsBelow, SeqsBelow-mono}
use jadedb.Memtable.{new, get}
use jadedb.Memtable.Lookup.{entry_of?}
use jadedb.Frames.{frame}
use jadedb.Wal.{Wal, record_bytes, create, append, sync, recover}
use jadedb.Wal.Codec.{IsStorable}
use jadedb.Wal.Recover.{append_all, content-append, recover-append_all}
use jadedb.Db.{replay}
use jadedb.Db.Replay.{get-replay}
use jadedb.Db.Memory.{
  Inner, done, stalled, freeze, next_key, apply_write, write, get_memory, first_found,
}
use jadedb.Db.Memory.Write.{IsCurrent, done-write, get-new, get_memory-write}

-- An empty database.
pub record IsFresh (g : Inner) : Type 0 where
  pub no_writes : g.mem ≡ new
  pub no_frozen : g.imms ≡ []
  pub no_log : g.wal.content ≡ []
  pub no_seq : g.next_seq ≡ 0

-- The states that rounds of `write` reach from an empty database, with the records they wrote. No
-- write wraps the counter of sequence numbers.
pub data Writes (crc32 : List ℕ → ℕ) : Inner → List Record → Type 0 where
  fresh : (g : Inner) → IsFresh g → Writes crc32 g []
  wrote :
      (g g' : Inner) (rs : List Record) (key value : List ℕ) (kind : ValueKind)
      → Writes crc32 g rs
      → g.next_seq + 1 < u64_max
      → write crc32 g key value kind ≡ ok (done g')
      → Writes crc32 g' (rs ++ ((next_key g key kind, value) ∷ []))
  waited :
      (g g' : Inner) (rs : List Record) (key value : List ℕ) (kind : ValueKind)
      → Writes crc32 g rs
      → write crc32 g key value kind ≡ ok (stalled g')
      → Writes crc32 g' rs

last_write-snoc :
    (u : List ℕ) (s : ℕ) (rs : List Record) (r : Record) (found : Option Record)
    → last_write u s (rs ++ (r ∷ [])) found
      ≡ (if sees u s r.0 then some r else last_write u s rs found)
unfolding last_write
last_write-snoc u s [] r found = refl
last_write-snoc u s (x ∷ rs) r found =
    last_write-snoc u s rs r (if sees u s x.0 then some x else found)

Rising-snoc :
    (b : ℕ) (rs : List Record) (r : Record)
    → Rising b rs
    → b < r.0.seq
    → SeqsBelow r.0.seq rs
    → Rising b (rs ++ (r ∷ []))
Rising-snoc b [] r h l s = (l, tt)
Rising-snoc b (x ∷ rs) r h l s = (h.0, Rising-snoc x.0.seq rs r h.1 s.0 s.1)

append_all-snoc :
    (crc32 : List ℕ → ℕ) (w : Wal) (rs : List Record) (k : InternalKey) (v : List ℕ)
    → append_all crc32 w (rs ++ ((k, v) ∷ [])) ≡ append crc32 (append_all crc32 w rs) k v
unfolding append_all
append_all-snoc crc32 w [] k v = refl
append_all-snoc crc32 w ((j, x) ∷ rs) k v = append_all-snoc crc32 (append crc32 w j x) rs k v

-- What the log and the memtables hold after the writes of `rs`.
record Holds (crc32 : List ℕ → ℕ) (g : Inner) (rs : List Record) : Type 0 where
  logged : g.wal.content ≡ (append_all crc32 (create always) rs).content
  current : IsCurrent g
  rising : Rising 0 rs
  given : SeqsBelow (g.next_seq + 1) rs
  small : g.next_seq < u64_max
  reads : (u : List ℕ) (s : ℕ) → get_memory g u s ≡ entry_of? (last_write u s rs none)

content-sync : (w : Wal) → (sync w).content ≡ w.content
unfolding sync
content-sync w = ground arith

freeze_keeps :
    (g : Inner) → ((freeze g).wal.content ≡ g.wal.content) × ((freeze g).next_seq ≡ g.next_seq)
unfolding freeze
freeze_keeps g = elim (Bool-cases (leb g.opts.memtable_bytes g.mem.approx_bytes)) [
  | inl full ↦ rw full (content-sync g.wal, refl)
  | inr room ↦ rw room (refl, refl)
]

content-write :
    (crc32 : List ℕ → ℕ) (g g' : Inner) (key value : List ℕ) (kind : ValueKind)
    → write crc32 g key value kind ≡ ok (done g')
    → (g'.wal.content ≡ (append crc32 g.wal (next_key g key kind) value).content)
      × (g'.next_seq ≡ (next_key g key kind).seq)
content-write crc32 g g' key value kind e =
    subst
      (λ g''.
        (g''.wal.content ≡ (append crc32 g.wal (next_key g key kind) value).content)
        × (g''.next_seq ≡ (next_key g key kind).seq))
      (done-write crc32 g g' key value kind e) (unfold apply_write in freeze_keeps _)

wrote-Holds :
    (crc32 : List ℕ → ℕ) (g g' : Inner) (rs : List Record) (key value : List ℕ) (kind : ValueKind)
    → Holds crc32 g rs
    → g.next_seq + 1 < u64_max
    → write crc32 g key value kind ≡ ok (done g')
    → Holds crc32 g' (rs ++ ((next_key g key kind, value) ∷ []))
wrote-Holds crc32 g g' rs key value kind h wide e =
    let k = next_key g key kind in
    let w = append_all crc32 (create always) rs in
    let next : k.seq ≡ g.next_seq + 1 = omega (arith, wide) in
    let (content, last) = content-write crc32 g g' key value kind e in
    let below : SeqsBelow k.seq rs = subst (λ n. SeqsBelow n rs) (sym next) h.given in
    record {
      logged =
          content
          ∙ content-append crc32 g.wal k value
          ∙ ap (λ c. c ++ frame crc32 (record_bytes (k, value))) h.logged
          ∙ sym (content-append crc32 w k value)
          ∙ ap (λ w'. w'.content) (sym (append_all-snoc crc32 (create always) rs k value));
      current = (get_memory-write crc32 g g' key value kind key 0 h.current wide e).0;
      rising = Rising-snoc 0 rs (k, value) h.rising (omega (arith, next)) below;
      given =
          All-append _ rs _
            (SeqsBelow-mono (g.next_seq + 1) (g'.next_seq + 1) rs (omega (arith, last, next))
              h.given)
            (omega (arith, last), tt);
      small = omega (arith, last, next, wide);
      reads = λ u s.
          (get_memory-write crc32 g g' key value kind u s h.current wide e).1
          ∙ older (sees u s k) u s
          ∙ ap entry_of? (sym (last_write-snoc u s rs (k, value) none));
    }
  where
    older :
        (b : Bool) (u : List ℕ) (s : ℕ)
        → (if b then some (record { kind = kind; value = value }) else get_memory g u s)
          ≡ entry_of? (if b then some (next_key g key kind, value) else last_write u s rs none)
    older true u s = refl
    older false u s = h.reads u s

waited-same :
    (crc32 : List ℕ → ℕ) (g g' : Inner) (key value : List ℕ) (kind : ValueKind)
    → write crc32 g key value kind ≡ ok (stalled g')
    → record g { stall_count = g.stall_count + 1 } ≡ g'
unfolding write
waited-same crc32 g g' key value kind e = ground arith

get_memory-fresh :
    (g : Inner) (u : List ℕ) (s : ℕ)
    → IsFresh g
    → get_memory g u s ≡ entry_of? (last_write u s [] none)
unfolding get_memory last_write first_found
get_memory-fresh g u s f =
    ap₂ (λ m i. elim (get m u s) [ some e ↦ some e | none ↦ first_found u s (reverse i) ])
      f.no_writes f.no_frozen
    ∙ ap (λ x. elim x [ some e ↦ some e | none ↦ none ]) (get-new u s)

waited-Holds :
    (crc32 : List ℕ → ℕ) (g : Inner) (n : ℕ) (rs : List Record)
    → Holds crc32 g rs
    → Holds crc32 (record g { stall_count = n }) rs
unfolding get_memory
waited-Holds crc32 g n rs h = record {
  logged = h.logged;
  current = record { sorted = h.current.sorted; given = h.current.given };
  rising = h.rising;
  given = h.given;
  small = h.small;
  reads = h.reads;
}

fresh-Holds : (crc32 : List ℕ → ℕ) (g : Inner) → IsFresh g → Holds crc32 g []
fresh-Holds crc32 g f = record {
  logged = f.no_log ∙ (unfold append_all in refl);
  current = record { sorted = rw f.no_writes tt; given = rw f.no_writes tt };
  rising = tt;
  given = tt;
  small = omega (arith, f.no_seq);
  reads = λ u s. get_memory-fresh g u s f;
}

Writes-Holds :
    (crc32 : List ℕ → ℕ) (g : Inner) (rs : List Record) → Writes crc32 g rs → Holds crc32 g rs
Writes-Holds crc32 g _ (fresh _ f) = fresh-Holds crc32 g f
Writes-Holds crc32 g' _ (wrote g _ rs key value kind w l e) =
    wrote-Holds crc32 g g' rs key value kind (Writes-Holds crc32 g rs w) l e
Writes-Holds crc32 g' rs (waited g _ _ key value kind w e) =
    let h = Writes-Holds crc32 g rs w in
    subst (λ g''. Holds crc32 g'' rs) (waited-same crc32 g g' key value kind e)
      (waited-Holds crc32 g (g.stall_count + 1) rs h)

-- After rounds of `write` from an empty database whose records fit the log, recovering the log
-- gives the records that were written, and the memtable replayed from them answers every read as
-- the memtables did.
pub restart_lem :
    (crc32 : List ℕ → ℕ) (g : Inner) (rs : List Record) (user_key : List ℕ) (max_seq : ℕ)
    → ((bytes : List ℕ) → IsU32 (crc32 bytes))
    → Writes crc32 g rs
    → All IsStorable rs
    → (recover crc32 (some g.wal.content) ≡ ok rs)
      × (get (replay 0 new rs).1 user_key max_seq ≡ get_memory g user_key max_seq)
restart_lem crc32 g rs u s crc-IsU32 w storable =
    let h = Writes-Holds crc32 g rs w in
    let all : SeqsBelow u64_max rs =
      SeqsBelow-mono (g.next_seq + 1) u64_max rs (omega (arith, h.small)) h.given in
    (
      ap (λ c. recover crc32 (some c)) h.logged
          ∙ recover-append_all crc32 crc-IsU32 always rs storable,
      get-replay 0 rs u s h.rising all ∙ sym (h.reads u s),
    )
