-- ===== src/Sstable/Builder/Layout.antt =====
-- How a table file is laid out: its blocks one behind the other, each with its place in the index.
use jadedb.Common.{ℕ, ◌+◌, ◌≤◌, ◌≡◌, ◌≢◌, refl, sym, ap, ◌∙◌, arith, ◌==◌, if◌then◌else◌}
use jadedb.Common.{List, [], ◌∷◌, ◌++◌, append_assoc, length, length-append, All}
use jadedb.Common.Words.{to_le, length-to_le, IsU32}
use jadedb.Key.{Record}
use jadedb.Key as Key
use jadedb.Frames.{as_u32}
use jadedb.Sstable.Block.{Block, finish}
use jadedb.Sstable.Block as Block
use jadedb.Sstable.Block.Entries.{IsEntry, add_all}
use jadedb.Sstable.Index.{IndexEntry}

-- the bytes of the block with the records `p`
abbrev pub block_bytes : List Record → List ℕ
block_bytes p = (finish (add_all Block.new p)).bytes

-- the records of several blocks
unfoldable pub concat : List (List Record) → List Record
concat [] = []
concat (p ∷ ps) = p ++ concat ps

-- the bytes of several blocks
unfoldable pub flat : List (List Record) → List ℕ
flat [] = []
flat (p ∷ ps) = block_bytes p ++ flat ps

-- the last of some records, `r` if there is none
abbrev pub last_or : Record → List Record → Record
last_or r [] = r
last_or r (x ∷ xs) = last_or x xs

-- the encoded key of the last record of a block
abbrev pub separator : List Record → List ℕ
separator [] = []
separator (r ∷ rs) = Key.encode (last_or r rs).0

-- the index of blocks that begin at offset `o`
unfoldable pub laid : ℕ → List (List Record) → List IndexEntry
laid o [] = []
laid o (p ∷ ps) =
    (separator p, (o, as_u32 (length (block_bytes p)))) ∷ laid (o + length (block_bytes p)) ps

-- the bytes of the block at offset `off`, of blocks that begin at offset `o`
unfoldable pub disk_at : ℕ → List (List Record) → ℕ → List ℕ
disk_at o [] off = []
disk_at o (p ∷ ps) off =
    let later = disk_at (o + length (block_bytes p)) ps off in
    if o == off then block_bytes p else later

-- A block holds records that fit it, at least one, and its bytes have a u32 length.
pub record IsBlock (p : List Record) : Type 0 where
  pub number : IsU32 (length p)
  pub entries : All IsEntry p
  pub some_entry : p ≢ []
  pub small : IsU32 (length (block_bytes p))

pub length-block_bytes : (p : List Record) → 4 ≤ length (block_bytes p)
unfolding finish
length-block_bytes p =
    let es = (add_all Block.new p).entries in
    omega (
      arith,
      length-append (to_le 4 (as_u32 (length es))) (Block.entry_bytes es),
      length-to_le 4 (as_u32 (length es)),
    )

pub concat-append : (ps qs : List (List Record)) → concat (ps ++ qs) ≡ concat ps ++ concat qs
unfolding concat
concat-append [] qs = refl
concat-append (p ∷ ps) qs =
    ap (λ t. p ++ t) (concat-append ps qs) ∙ sym (append_assoc p (concat ps) (concat qs))

pub flat-append : (ps qs : List (List Record)) → flat (ps ++ qs) ≡ flat ps ++ flat qs
unfolding flat
flat-append [] qs = refl
flat-append (p ∷ ps) qs =
    ap (λ t. block_bytes p ++ t) (flat-append ps qs)
    ∙ sym (append_assoc (block_bytes p) (flat ps) (flat qs))

pub laid-append :
    (o : ℕ) (ps qs : List (List Record))
    → laid o (ps ++ qs) ≡ laid o ps ++ laid (o + length (flat ps)) qs
unfolding laid flat
laid-append o [] qs = ap (λ n. laid n qs) (omega arith)
laid-append o (p ∷ ps) qs =
    let n = length (block_bytes p) in
    let next : o + n + length (flat ps) ≡ o + length (block_bytes p ++ flat ps) =
      omega (arith, length-append (block_bytes p) (flat ps)) in
    ap (λ t. (separator p, (o, as_u32 n)) ∷ t)
      (laid-append (o + n) ps qs ∙ ap (λ m. laid (o + n) ps ++ laid m qs) next)

-- No block stands before the first.
pub disk_at_head :
    (o : ℕ) (p : List Record) (ps : List (List Record)) → disk_at o (p ∷ ps) o ≡ block_bytes p
unfolding disk_at
disk_at_head o p ps = ground arith

pub disk_at_later :
    (o : ℕ) (p : List Record) (ps : List (List Record)) (off : ℕ)
    → o + length (block_bytes p) ≤ off
    → disk_at o (p ∷ ps) off ≡ disk_at (o + length (block_bytes p)) ps off
unfolding disk_at
disk_at_later o p ps off h = let n = length-block_bytes p in ground (arith, n)
