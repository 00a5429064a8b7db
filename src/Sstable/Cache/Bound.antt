-- ===== src/Sstable/Cache/Bound.antt =====
-- How many blocks the cache holds, and what it gives after an insertion.
use jadedb.Common.{ℕ, suc, ◌≤◌, ◌<◌, ◌≡◌, arith, ==_refl, Bool-cases, inl, inr, leb, max}
use jadedb.Common.{Option, some, Option-cases, List, [], ◌∷◌, length}
use jadedb.Sstable.Block.{Block}
use jadedb.Sstable.Cache.{Cached, BlockCache, same_place, find, evict, insert, remove, get}

length_le-remove :
    (place : ℕ × ℕ) (inner : List Cached) → length (remove place inner) ≤ length inner
length_le-remove place [] = omega arith
length_le-remove place ((p, b) ∷ rest) =
    let later = length_le-remove place rest in ground (arith, later)

-- Removing a cached block leaves fewer.
length_lt-remove :
    (place : ℕ × ℕ) (inner : List Cached) (b : Block)
    → find place inner ≡ some b
    → length (remove place inner) < length inner
unfolding find
length_lt-remove place [] b e = cc
length_lt-remove place ((p, x) ∷ rest) b e =
    let less = length_le-remove place rest in
    elim (Bool-cases (same_place p place)) [
      | inl same ↦ rw same (omega (arith, less))
      | inr other ↦
          let later = length_lt-remove place rest b (rw other at e) in
          rw other (omega (arith, later))
    ]

module _ (first_key : List Cached → Option (ℕ × ℕ)) where
  -- `keys().next()` gives a cached key, if there is one.
  pub record IsFirst : Type 0 where
    pub picks :
        (e : Cached) (rest : List Cached)
        → (k : ℕ × ℕ) × (first_key (e ∷ rest) ≡ some k) × (b : Block) × (find k (e ∷ rest) ≡ some b)

  -- An eviction makes room.
  length-evict :
      (capacity : ℕ) (inner : List Cached)
      → IsFirst
      → length inner ≤ max capacity 1
      → length (evict first_key (record { inner = inner; capacity = capacity })) < max capacity 1
  unfolding evict
  length-evict capacity [] h fits = elim (Option-cases (first_key [])) [
    | inl nothing ↦ rw nothing (ground arith)
    | inr (k, first) ↦ rw first (ground arith)
  ]
  length-evict capacity (x ∷ rest) h fits =
      let (k, first, b, found) = h.picks x rest in
      let less = length_lt-remove k (x ∷ rest) b found in
      rw first (elim (Bool-cases (leb capacity (suc (length rest)))) [
        | inl full ↦ rw full (omega (arith, less, fits))
        | inr room ↦ rw room (ground (arith, room))
      ])

  -- A cache never holds more blocks than its capacity, or one block if the capacity is zero.
  pub length-insert :
      (c : BlockCache) (file_num offset : ℕ) (block : Block)
      → IsFirst
      → length c.inner ≤ max c.capacity 1
      → length (insert first_key c file_num offset block).inner ≤ max c.capacity 1
  unfolding insert
  length-insert c n o block h fits =
      let less = length-evict c.capacity c.inner h fits in
      omega (arith, less, length_le-remove (n, o) (evict first_key c))

  -- An inserted block is found at its place, whatever the cache held.
  pub get-insert :
      (c : BlockCache) (file_num offset : ℕ) (block : Block)
      → get (insert first_key c file_num offset block) file_num offset ≡ some block
  unfolding insert find
  get-insert c n o block = ground (arith, ==_refl n, ==_refl o)
