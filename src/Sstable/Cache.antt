-- ===== src/Sstable/Cache.antt =====
-- src/sstable/reader.rs: the cache of data blocks. `first_key` is the order of iteration of the
-- HashMap: the key that `keys().next()` gives.
pub mod Bound
use jadedb.Common.{ℕ, ◌==◌, Bool, not, ◌&&◌, leb, if◌then◌else◌, Option, none, some}
use jadedb.Common.{List, [], ◌∷◌, length, retain}
use jadedb.Sstable.Block.{Block}

-- the cached blocks by file number and offset
abbrev pub Cached : Type 0
Cached = (ℕ × ℕ) × Block

pub record BlockCache : Type 0 where
  pub inner : List Cached
  pub capacity : ℕ

abbrev pub new : ℕ → BlockCache
new capacity = record { inner = []; capacity = capacity }

abbrev pub same_place : ℕ × ℕ → ℕ × ℕ → Bool
same_place a b = a.0 == b.0 && a.1 == b.1

-- `HashMap::get`
unfoldable pub find : ℕ × ℕ → List Cached → Option Block
find place [] = none
find place ((p, b) ∷ rest) =
    let later = find place rest in if same_place p place then some b else later

-- `HashMap::remove`
abbrev pub remove : ℕ × ℕ → List Cached → List Cached
remove place inner = retain (λ e. not (same_place e.0 place)) inner

-- `BlockCache::get`
abbrev pub get : BlockCache → ℕ → ℕ → Option Block
get c file_num offset = find (file_num, offset) c.inner

module _ (first_key : List Cached → Option (ℕ × ℕ)) where
  -- `if g.len() >= self.capacity { ... }`
  unfoldable pub evict : BlockCache → List Cached
  evict c =
      if leb c.capacity (length c.inner)
      then elim (first_key c.inner) [ none ↦ c.inner | some k ↦ remove k c.inner ]
      else c.inner

  -- `BlockCache::insert`
  unfoldable pub insert : BlockCache → ℕ → ℕ → Block → BlockCache
  insert c file_num offset block = record c {
    inner = ((file_num, offset), block) ∷ remove (file_num, offset) (evict c);
  }
