-- ===== src/Sstable/Reader/Reads.antt =====
-- Reads through a cache that holds what is on the disk.
use jadedb.Common.{ℕ, ◌≡◌, refl, ap, ◌∙◌, arith, Bool, true, false}
use jadedb.Common.{
  Option, none, some, Option-cases, inl, inr, List, [], ◌∷◌, length, All, All-retain, leb,
  if◌then◌else◌,
}
use jadedb.Common.Result.{Result, ok}
use jadedb.Sstable.Block.{Block}
use jadedb.Sstable.Cache.{Cached, BlockCache, find, evict, insert, remove}
use jadedb.Sstable.Cache as Cache
use jadedb.Sstable.Table.{Dir, SsTable, open_file, read_exact}
use jadedb.Sstable.Reader.{Reads, pure, ◌>>=◌, load_block, read_block}

-- Every cached block has the bytes that `disk` has at its place.
abbrev pub Coherent : (ℕ → ℕ → List ℕ) → BlockCache → Type 0
Coherent disk c = All (λ e. e.1.bytes ≡ disk e.0.0 e.0.1) c.inner

-- A read gives `a`, whatever a coherent cache holds, and leaves a coherent cache.
pub Yields : {A : Type 0} → (ℕ → ℕ → List ℕ) → Reads A → A → Type 0
Yields disk m a =
    (c : BlockCache) → Coherent disk c → (c' : BlockCache) × (m c ≡ (ok a, c')) × Coherent disk c'

pub Yields-pure :
    {A : Type 0} (disk : ℕ → ℕ → List ℕ) (r : Result A) (a : A) → r ≡ ok a → Yields disk (pure r) a
unfolding Yields
Yields-pure disk r a e c h = (c, ap (λ r. (r, c)) e, h)

pub Yields-bind :
    {A B : Type 0} (disk : ℕ → ℕ → List ℕ) (m : Reads A) (f : A → Reads B) (a : A) (b : B)
    → Yields disk m a
    → Yields disk (f a) b
    → Yields disk (m >>= f) b
unfolding Yields
Yields-bind disk m f a b hm hf c h =
    let (c', e, h') = hm c h in let (c'', e', h'') = hf c' h' in (c'', rw e e', h'')

-- A read through an empty cache.
pub Yields-new :
    {A : Type 0} (disk : ℕ → ℕ → List ℕ) (m : Reads A) (a : A) (capacity : ℕ)
    → Yields disk m a
    → (m (Cache.new capacity)).0 ≡ ok a
unfolding Yields
Yields-new disk m a capacity h = let (c', e, kept) = h (Cache.new capacity) tt in ap (λ p. p.0) e

Coherent-evict :
    (disk : ℕ → ℕ → List ℕ) (first_key : List Cached → Option (ℕ × ℕ)) (c : BlockCache)
    → Coherent disk c
    → All (λ e. e.1.bytes ≡ disk e.0.0 e.0.1) (evict first_key c)
unfolding evict
Coherent-evict disk first_key c h = elim (Option-cases (first_key c.inner)) [
  | inl e ↦ rw e (kept (leb c.capacity (length c.inner)) c.inner h)
  | inr (k, e) ↦
      rw e (kept (leb c.capacity (length c.inner)) (remove k c.inner) (All-retain _ _ c.inner h))
]
  where
    kept :
        (b : Bool) (less : List Cached)
        → All (λ e. e.1.bytes ≡ disk e.0.0 e.0.1) less
        → All (λ e. e.1.bytes ≡ disk e.0.0 e.0.1) (if b then less else c.inner)
    kept true less l = l
    kept false less l = h

pub insert-Coherent :
    (disk : ℕ → ℕ → List ℕ) (first_key : List Cached → Option (ℕ × ℕ)) (c : BlockCache)
    (file_num off : ℕ) (b : Block)
    → Coherent disk c
    → b.bytes ≡ disk file_num off
    → Coherent disk (insert first_key c file_num off b)
unfolding insert
insert-Coherent disk first_key c n off b h e =
    (e, All-retain _ _ (evict first_key c) (Coherent-evict disk first_key c h))

find-Coherent :
    (disk : ℕ → ℕ → List ℕ) (inner : List Cached) (n off : ℕ) (b : Block)
    → All (λ e. e.1.bytes ≡ disk e.0.0 e.0.1) inner
    → find (n, off) inner ≡ some b
    → b.bytes ≡ disk n off
unfolding find
find-Coherent disk [] n off b h e = cc
find-Coherent disk (((m, o), x) ∷ rest) n off b h e =
    let later = find-Coherent disk rest n off b h.1 in ground (arith, later, h.0)

load_block_lem :
    (first_key : List Cached → Option (ℕ × ℕ)) (dir : Dir) (t : SsTable) (off len : ℕ)
    (content bytes : List ℕ) (c : BlockCache)
    → dir t.file_num ≡ some content
    → read_exact content off len ≡ ok bytes
    → load_block first_key dir t off len c ≡ (
      ok (record { bytes = bytes }),
      insert first_key c t.file_num off (record { bytes = bytes }),
    )
unfolding load_block open_file
load_block_lem first_key dir t off len content bytes c there exact = rw (there, exact) refl

read_block-hit :
    (first_key : List Cached → Option (ℕ × ℕ)) (dir : Dir) (t : SsTable) (off len : ℕ)
    (c : BlockCache) (found : Option Block)
    → Cache.get c t.file_num off ≡ found
    → read_block first_key dir t off len c
      ≡ (elim found [ some b ↦ (ok b, c) | none ↦ load_block first_key dir t off len c ])
unfolding read_block
read_block-hit first_key dir t off len c found e =
    ap (λ f. elim f [ some b ↦ (ok b, c) | none ↦ load_block first_key dir t off len c ]) e

-- Reading a block gives what is on the disk, whether the cache has it or not.
pub read_block-Yields :
    (disk : ℕ → ℕ → List ℕ) (first_key : List Cached → Option (ℕ × ℕ)) (dir : Dir) (t : SsTable)
    (off len : ℕ) (content : List ℕ)
    → dir t.file_num ≡ some content
    → read_exact content off len ≡ ok (disk t.file_num off)
    → Yields disk (read_block first_key dir t off len) (record { bytes = disk t.file_num off })
unfolding Yields
read_block-Yields disk first_key dir t off len content there exact c h =
    elim (Option-cases (Cache.get c t.file_num off)) [
      | inl miss ↦ (
        insert first_key c t.file_num off (record { bytes = disk t.file_num off }),
        read_block-hit first_key dir t off len c none miss
            ∙ load_block_lem first_key dir t off len content (disk t.file_num off) c there exact,
        insert-Coherent disk first_key c t.file_num off _ h refl,
      )
      | inr (b, hit) ↦ (
        c,
        read_block-hit first_key dir t off len c (some b) hit
            ∙ ap (λ bytes. (ok (record { bytes = bytes }), c))
                (find-Coherent disk c.inner t.file_num off b h hit),
        h,
      )
    ]
