-- ===== src/Sstable/Block/Panics.antt =====
-- Reading a block does not panic.
use jadedb.Common.{ℕ, zero, suc, ◌+◌, ◌≤◌, ◌<◌, ◌≡◌, ◌≢◌, refl, ltb, le→leb, ◌==◌, ◌||◌}
use jadedb.Common.{Option, none, some, Bool-cases, inl, inr, [], ◌∷◌, length, arith}
use jadedb.Common.Cursor.{read_le}
use jadedb.Common.Result.{Result, ok, err, panic, slice, ◌>>=◌, ok-ne-panic, >>=-ne-panic}
use jadedb.Key.{InternalKey, Record}
use jadedb.Key.Codec.{decode-ne-panic}
use jadedb.Sstable.Block.{
  Block, BlockEntryIter, iter_entries, next_value, next_decoded, next_key, next_entry,
}
use jadedb.Sstable.Block.{entries_from, block_entries}

-- A step of the iterator that yields an entry has one entry less to go, and no step panics.
abbrev Steps : Result (Option Record × BlockEntryIter) → ℕ → Type 0
Steps m n =
    (m ≢ panic) × ((r : Record) (it : BlockEntryIter) → m ≡ ok (some r, it) → suc it.remaining ≡ n)

value-Steps :
    (ik : InternalKey) (v_len : ℕ) (it : BlockEntryIter)
    → 0 < it.remaining
    → Steps (next_value ik v_len it) it.remaining
unfolding next_value slice
value-Steps ik v_len it h = (ground arith, λ r it' e. ground arith)

decoded-Steps :
    (m : Result InternalKey) (ik_len : ℕ) (it : BlockEntryIter)
    → 0 < it.remaining
    → m ≢ panic
    → it.offset + ik_len + 4 ≤ length it.bytes
    → Steps (next_decoded m ik_len it) it.remaining
unfolding next_decoded read_le slice
decoded-Steps panic ik_len it h ne room = absurd (ne refl)
decoded-Steps (err e) ik_len it h ne room = (λ p. cc, λ r it' p. cc)
decoded-Steps (ok ik) ik_len it h ne room =
    rw (le→leb (it.offset + ik_len + 4) (length it.bytes) room) (value-Steps ik _ _ h)

key-Steps :
    (ik_len : ℕ) (it : BlockEntryIter) → 0 < it.remaining → Steps (next_key ik_len it) it.remaining
unfolding next_key slice
key-Steps ik_len it h = elim (Bool-cases (ltb (length it.bytes) (it.offset + ik_len + 4))) [
  | inl short ↦ rw short (λ p. cc, λ r it' p. cc)
  | inr long ↦
      let room : it.offset + ik_len + 4 ≤ length it.bytes = ground arith in
      rw (long, le→leb (it.offset + ik_len) (length it.bytes) (omega arith))
        (decoded-Steps _ ik_len it h (decode-ne-panic _) room)
]

entry-Steps : (it : BlockEntryIter) → Steps (next_entry it) it.remaining
unfolding next_entry read_le slice
entry-Steps it = elim (Bool-cases (it.remaining == 0 || ltb (length it.bytes) (it.offset + 4))) [
  | inl stop ↦ rw stop (λ p. cc, λ r it' p. cc)
  | inr go ↦
      let room : (0 < it.remaining) × (it.offset + 4 ≤ length it.bytes) = ground arith in
      rw (go, le→leb (it.offset + 4) (length it.bytes) room.1) (key-Steps _ _ room.0)
]

-- What the loop does with an item does not panic if its next rounds do not.
item-ne-panic :
    (fuel : ℕ) (it : BlockEntryIter) (item : Option Record × BlockEntryIter)
    → it.remaining < suc fuel
    → ((it' : BlockEntryIter) → it'.remaining < fuel → entries_from fuel it' ≢ panic)
    → next_entry it ≡ ok item
    → (elim item.0 [ none ↦ ok [] | some r ↦ (do rs ← entries_from fuel item.1; ok (r ∷ rs)) ])
      ≢ panic
item-ne-panic fuel it (none, it') h more e = ok-ne-panic _
item-ne-panic fuel it (some r, it') h more e =
    let fewer = (entry-Steps it).1 r it' e in
    >>=-ne-panic _ _ (more it' (omega (arith, fewer))) λ rs _. ok-ne-panic _

entries_from-ne-panic :
    (fuel : ℕ) (it : BlockEntryIter) → it.remaining < fuel → entries_from fuel it ≢ panic
unfolding entries_from
entries_from-ne-panic zero it h = absurd (omega arith)
entries_from-ne-panic (suc fuel) it h =
    >>=-ne-panic _ _ (entry-Steps it).0
      λ item e. item-ne-panic fuel it item h (λ it' l. entries_from-ne-panic fuel it' l) e

iter_entries-ne-panic : (b : Block) → iter_entries b ≢ panic
unfolding iter_entries read_le slice
iter_entries-ne-panic b = ground arith

-- On any bytes at all, iterating over a block ends and does not panic.
pub block_entries-ne-panic : (b : Block) → block_entries b ≢ panic
unfolding block_entries
block_entries-ne-panic b =
    >>=-ne-panic _ _ (iter_entries-ne-panic b) λ it _. entries_from-ne-panic _ it (omega arith)
