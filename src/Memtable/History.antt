-- ===== src/Memtable/History.antt =====
-- A memtable filled from a log of writes.
use jadedb.Common.{ℕ, ◌≡◌, some, arith, List, [], ◌∷◌, if◌then◌else◌}
use jadedb.Common.BTreeMap
use jadedb.Key.{InternalKey, Record, cmp}
use jadedb.Key.Order.{cmp-IsOrder}
use jadedb.Key.Versions.{newest, newest-cons, sees, SeqsBelow}

pub newest-insert :
    (u : List ℕ) (s : ℕ) (k : InternalKey) (v : List ℕ) (m : List Record)
    → SeqsBelow k.seq m
    → newest u s (BTreeMap.insert cmp k v m) ≡ (if sees u s k then some (k, v) else newest u s m)
unfolding BTreeMap.insert newest
newest-insert u s k v [] h = newest-cons u s (k, v) [] tt
newest-insert u s k v ((j, w) ∷ m) h =
    let rest = newest-insert u s k v m h.1 in
    let front = newest-cons u s (k, v) ((j, w) ∷ m) h in
    ground (arith, rest, front, cmp-IsOrder.eq_of_cmp k j)
