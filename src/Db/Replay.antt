-- ===== src/Db/Replay.antt =====
-- What `Db::open` rebuilds from the write-ahead log.
use jadedb.Common.{ℕ, suc, ◌≤◌, ◌<◌, ◌≡◌, refl, ◌∙◌, ap, max, none, arith, List, [], ◌∷◌}
use jadedb.Common.{All}
use jadedb.Common.Words.{u64_max}
use jadedb.Common.BTreeMap
use jadedb.Key.{InternalKey, Record, cmp}
use jadedb.Key.Order.{cmp-IsOrder}
use jadedb.Key.Versions.{newest, last_write, Rising, SeqsBelow, SeqsBelow-mono}
use jadedb.Memtable.{MemTable, new, put_mem, get}
use jadedb.Memtable.Lookup.{entry_of?, get-newest}
use jadedb.Memtable.History.{newest-insert}
use jadedb.Db.{replay}

-- Putting an entry keeps the entries of a table in the order of their keys.
pub put_mem-IsSorted :
    (m : MemTable) (k : InternalKey) (v : List ℕ)
    → BTreeMap.IsSorted cmp m.map
    → BTreeMap.IsSorted cmp (put_mem m k v).map
unfolding put_mem
put_mem-IsSorted m k v h = BTreeMap.insert-IsSorted cmp cmp-IsOrder k v m.map h

pub put_mem-SeqsBelow :
    (m : MemTable) (k : InternalKey) (v : List ℕ) (b : ℕ)
    → k.seq < b
    → SeqsBelow b m.map
    → SeqsBelow b (put_mem m k v).map
unfolding put_mem
put_mem-SeqsBelow m k v b h s =
    BTreeMap.All-insert cmp (λ r. r.0.seq < b) k v m.map (λ w. h) (λ j w q. q) s

pub replay-IsSorted :
    (n : ℕ) (m : MemTable) (log : List Record)
    → BTreeMap.IsSorted cmp m.map
    → BTreeMap.IsSorted cmp (replay n m log).1.map
unfolding replay
replay-IsSorted n m [] h = h
replay-IsSorted n m ((k, v) ∷ log) h =
    replay-IsSorted (max n k.seq) (put_mem m k v) log (put_mem-IsSorted m k v h)

replay-SeqsBelow :
    (n : ℕ) (m : MemTable) (log : List Record) (b : ℕ)
    → SeqsBelow b m.map
    → SeqsBelow b log
    → SeqsBelow b (replay n m log).1.map
unfolding replay
replay-SeqsBelow n m [] b h s = h
replay-SeqsBelow n m ((k, v) ∷ log) b h s =
    replay-SeqsBelow (max n k.seq) (put_mem m k v) log b (put_mem-SeqsBelow m k v b s.0 h) s.1

newest-replay :
    (n : ℕ) (m : MemTable) (log : List Record) (b : ℕ) (u : List ℕ) (s : ℕ)
    → SeqsBelow (suc b) m.map
    → Rising b log
    → newest u s (replay n m log).1.map ≡ last_write u s log (newest u s m.map)
unfolding replay last_write
newest-replay n m [] b u s h r = refl
newest-replay n m ((k, v) ∷ log) b u s h r =
    let below : SeqsBelow k.seq m.map = SeqsBelow-mono (suc b) k.seq m.map r.0 h in
    let wide = SeqsBelow-mono (suc b) (suc k.seq) m.map (omega (arith, r.0)) h in
    newest-replay (max n k.seq) (put_mem m k v) log k.seq u s
      (put_mem-SeqsBelow m k v (suc k.seq) (omega arith) wide) r.1
    ∙ ap (last_write u s log) (unfold put_mem in newest-insert u s k v m.map below)

-- A memtable rebuilt from a log with rising sequence numbers, the last of them below the greatest
-- u64, answers a read at any sequence number with the last write of the key in the log that the
-- read may see.
pub get-replay :
    (last_seq : ℕ) (log : List Record) (user_key : List ℕ) (max_seq : ℕ)
    → Rising 0 log
    → SeqsBelow u64_max log
    → get (replay last_seq new log).1 user_key max_seq
      ≡ entry_of? (last_write user_key max_seq log none)
get-replay n log u s r b =
    get-newest _ u s (replay-IsSorted n new log tt) (replay-SeqsBelow n new log u64_max tt b)
    ∙ ap entry_of? (newest-replay n new log 0 u s tt r ∙ unfold newest in refl)

replay_le : (n : ℕ) (m : MemTable) (log : List Record) → n ≤ (replay n m log).0
unfolding replay
replay_le n m [] = omega arith
replay_le n m ((k, v) ∷ log) = omega (arith, replay_le (max n k.seq) (put_mem m k v) log)

-- The sequence number that `Db::open` goes on from is at least the manifest's and that of every
-- recovered write.
pub replay_bound :
    (last_seq : ℕ) (m : MemTable) (log : List Record)
    → (last_seq ≤ (replay last_seq m log).0) × All (λ r. r.0.seq ≤ (replay last_seq m log).0) log
unfolding replay
replay_bound n m [] = (omega arith, tt)
replay_bound n m ((k, v) ∷ log) =
    let (floor, rest) = replay_bound (max n k.seq) (put_mem m k v) log in
    (omega arith, (omega arith, rest))
