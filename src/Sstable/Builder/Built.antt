-- ===== src/Sstable/Builder/Built.antt =====
-- What a table builder holds after some records were added.
use jadedb.Common.{
  ℕ, ◌+◌, ◌≡◌, ◌≢◌, refl, sym, ap, subst, ◌∙◌, arith, true, false, Bool-cases, inl, inr, leb,
}
use jadedb.Common.{
  List, [], ◌∷◌, ◌++◌, append-nil, append_assoc, length, map, map_append, All, All-append, Option,
  none, some,
}
use jadedb.Key.{Record, InternalKey}
use jadedb.Key as Key
use jadedb.Frames.{as_u32}
use jadedb.Sstable.Block as Block
use jadedb.Sstable.Block.Entries as Entries
use jadedb.Sstable.Block.Entries.{entries-add_all, stored}
use jadedb.Sstable.Index as Index
use jadedb.Sstable.Builder.{
  SsTableBuilder, new, is_empty_block, flush_block, add_entry, add, add_all,
}
use jadedb.Sstable.Builder.Layout.{
  block_bytes, concat, flat, last_or, separator, laid, concat-append, flat-append, laid-append,
}

-- the user keys of records
abbrev pub users : List Record → List (List ℕ)
users rs = map (λ r. r.0.user_key) rs

abbrev pub first_key : List Record → Option InternalKey
first_key [] = none
first_key (r ∷ rs) = some r.0

abbrev pub last_key : List Record → Option InternalKey
last_key [] = none
last_key (r ∷ rs) = some (last_or r rs).0

-- The builder holds the records `rs`: those of the finished blocks `ps`, and those of the open
-- block `q`.
pub record Holds (b : SsTableBuilder) (rs : List Record) : Type 0 where
  pub ps : List (List Record)
  pub q : List Record
  pub all : rs ≡ concat ps ++ q
  pub nonempty : All (λ p. p ≢ []) ps
  pub blocks : b.bytes ≡ flat ps
  pub indexed : b.index.entries ≡ laid 0 ps
  pub open_block : b.block ≡ Entries.add_all Block.new q
  pub separated : b.last_key ≡ separator q
  pub keys : b.user_keys ≡ users rs
  pub lowest : b.smallest ≡ first_key rs
  pub highest : b.largest ≡ last_key rs

pub new-Holds : (block_size bits_per_key : ℕ) → Holds (new block_size bits_per_key) []
new-Holds block_size bits_per_key = record {
  ps = [];
  q = [];
  all = unfold concat in refl;
  nonempty = tt;
  blocks = unfold flat in refl;
  indexed = unfold laid in refl;
  open_block = unfold Entries.add_all in refl;
  separated = refl;
  keys = refl;
  lowest = refl;
  highest = refl;
}

add_all-snoc :
    (b : Block.BlockBuilder) (rs : List Record) (r : Record)
    → Entries.add_all b (rs ++ (r ∷ [])) ≡ Block.add (Entries.add_all b rs) (Key.encode r.0) r.1
unfolding Entries.add_all
add_all-snoc b [] r = refl
add_all-snoc b (x ∷ rs) r = add_all-snoc (Block.add b (Key.encode x.0) x.1) rs r

last_or-snoc : (x : Record) (rs : List Record) (r : Record) → last_or x (rs ++ (r ∷ [])) ≡ r
last_or-snoc x [] r = refl
last_or-snoc x (y ∷ rs) r = last_or-snoc y rs r

separator-snoc : (rs : List Record) (r : Record) → separator (rs ++ (r ∷ [])) ≡ Key.encode r.0
separator-snoc [] r = refl
separator-snoc (x ∷ rs) r = ap (λ y. Key.encode y.0) (last_or-snoc x rs r)

first_key-snoc :
    (rs : List Record) (k : InternalKey) (v : List ℕ)
    → first_key (rs ++ ((k, v) ∷ [])) ≡ (elim (first_key rs) [ none ↦ some k | some j ↦ some j ])
first_key-snoc [] k v = refl
first_key-snoc (x ∷ rs) k v = refl

last_key-snoc : (rs : List Record) (r : Record) → last_key (rs ++ (r ∷ [])) ≡ some r.0
last_key-snoc [] r = refl
last_key-snoc (x ∷ rs) r = ap (λ y. some y.0) (last_or-snoc x rs r)

pub add_entry-Holds :
    (b : SsTableBuilder) (rs : List Record) (k : InternalKey) (v : List ℕ)
    → Holds b rs
    → Holds (add_entry b k v) (rs ++ ((k, v) ∷ []))
unfolding add_entry
add_entry-Holds b rs k v h = record {
  ps = h.ps;
  q = h.q ++ ((k, v) ∷ []);
  all = ap (λ t. t ++ ((k, v) ∷ [])) h.all ∙ append_assoc (concat h.ps) h.q ((k, v) ∷ []);
  nonempty = h.nonempty;
  blocks = h.blocks;
  indexed = h.indexed;
  open_block =
      ap (λ o. Block.add o (Key.encode k) v) h.open_block ∙ sym (add_all-snoc Block.new h.q (k, v));
  separated = sym (separator-snoc h.q (k, v));
  keys =
      ap (λ t. t ++ (k.user_key ∷ [])) h.keys
      ∙ sym (map_append (λ r. r.0.user_key) rs ((k, v) ∷ []));
  lowest =
      ap (λ t. elim t [ none ↦ some k | some j ↦ some j ]) h.lowest ∙ sym (first_key-snoc rs k v);
  highest = sym (last_key-snoc rs (k, v));
}

-- The open block is empty only if it has no records.
is_empty_block-add_all :
    (q : List Record)
    → is_empty_block (Entries.add_all Block.new q) ≡ (elim q [ [] ↦ true | _ ∷ _ ↦ false ])
unfolding is_empty_block
is_empty_block-add_all q =
    ap (λ es. elim es [ [] ↦ true | _ ∷ _ ↦ false ]) (entries-add_all Block.new q) ∙ shape q
  where
    shape :
        (q : List Record)
        → (elim (map stored q) [ [] ↦ true | _ ∷ _ ↦ false ])
          ≡ (elim q [ [] ↦ true | _ ∷ _ ↦ false ])
    shape [] = refl
    shape (r ∷ q) = refl

-- The builder holds `rs` and has no open block.
abbrev pub IsClosed : SsTableBuilder → List Record → Type 0
IsClosed b rs = (h : Holds b rs) × (h.q ≡ [])

cons_ne_nil : (r : Record) (q : List Record) → r ∷ q ≢ []
cons_ne_nil r q c = cc

IsClosed-Holds :
    (b : SsTableBuilder) (rs : List Record) (r : Record) (q : List Record) (h : Holds b rs)
    → h.q ≡ r ∷ q
    → IsClosed
        (record b {
          bytes = b.bytes ++ (Block.finish b.block).bytes;
          index =
              Index.push b.index b.last_key
                (length b.bytes)
                (as_u32 (length (Block.finish b.block).bytes));
          last_key = [];
          block = Block.new;
        })
        rs
unfolding Index.push
IsClosed-Holds b rs r q h e =
    let p = r ∷ q in
    let raw : (Block.finish b.block).bytes ≡ block_bytes p =
      ap (λ o. (Block.finish o).bytes) (h.open_block ∙ ap (Entries.add_all Block.new) e) in
    let one_concat : concat (p ∷ []) ≡ p = unfold concat in append-nil p in
    let one_flat : flat (p ∷ []) ≡ block_bytes p = unfold flat in append-nil (block_bytes p) in
    let zero_more : 0 + length (flat h.ps) ≡ length (flat h.ps) = omega arith in
    let one_laid : laid (0 + length (flat h.ps)) (p ∷ [])
        ≡ (separator p, (length (flat h.ps), as_u32 (length (block_bytes p)))) ∷ [] =
      unfold laid in ap (λ o. (separator p, (o, as_u32 (length (block_bytes p)))) ∷ []) zero_more in
    let entry : (b.last_key, (length b.bytes, as_u32 (length (Block.finish b.block).bytes)))
        ≡ (separator p, (length (flat h.ps), as_u32 (length (block_bytes p)))) =
      λ i. ((h.separated ∙ ap separator e) i, (length (h.blocks i), as_u32 (length (raw i)))) in
    let last : Index.IndexEntry =
      (b.last_key, (length b.bytes, as_u32 (length (Block.finish b.block).bytes))) in
    let pushed : b.index.entries ++ (last ∷ []) ≡ laid 0 h.ps ++ (last ∷ []) =
      ap (λ t. t ++ (last ∷ [])) h.indexed in
    (
      record {
        ps = h.ps ++ (p ∷ []);
        q = [];
        all =
            h.all
            ∙ ap (λ t. concat h.ps ++ t) (e ∙ sym one_concat)
            ∙ sym (concat-append h.ps (p ∷ []))
            ∙ sym (append-nil (concat (h.ps ++ (p ∷ []))));
        nonempty = All-append _ h.ps (p ∷ []) h.nonempty ((λ c. cons_ne_nil r q c), tt);
        blocks =
            ap (λ t. t ++ (Block.finish b.block).bytes) h.blocks
            ∙ ap (λ t. flat h.ps ++ t) (raw ∙ sym one_flat)
            ∙ sym (flat-append h.ps (p ∷ []));
        indexed =
            pushed
            ∙ ap (λ x. laid 0 h.ps ++ (x ∷ [])) entry
            ∙ ap (λ t. laid 0 h.ps ++ t) (sym one_laid)
            ∙ sym (laid-append 0 h.ps (p ∷ []));
        open_block = unfold Entries.add_all in refl;
        separated = refl;
        keys = h.keys;
        lowest = h.lowest;
        highest = h.highest;
      },
      refl,
    )

-- A flush closes the open block, if it has records.
flush_block_lem :
    (b : SsTableBuilder) (rs : List Record) (h : Holds b rs) (q : List Record)
    → h.q ≡ q
    → IsClosed (flush_block b) rs
unfolding flush_block
flush_block_lem b rs h [] e =
    let test : is_empty_block b.block ≡ true =
      ap is_empty_block (h.open_block ∙ ap (Entries.add_all Block.new) e)
      ∙ is_empty_block-add_all [] in
    rw test (h, e)
flush_block_lem b rs h (r ∷ q) e =
    let test : is_empty_block b.block ≡ false =
      ap is_empty_block (h.open_block ∙ ap (Entries.add_all Block.new) e)
      ∙ is_empty_block-add_all (r ∷ q) in
    rw test (IsClosed-Holds b rs r q h e)

pub flush_block-IsClosed :
    (b : SsTableBuilder) (rs : List Record) → Holds b rs → IsClosed (flush_block b) rs
flush_block-IsClosed b rs h = flush_block_lem b rs h h.q refl

add-Holds :
    (b : SsTableBuilder) (rs : List Record) (k : InternalKey) (v : List ℕ)
    → Holds b rs
    → Holds (add b k v) (rs ++ ((k, v) ∷ []))
unfolding add
add-Holds b rs k v h =
    let b' = add_entry b k v in
    let h' = add_entry-Holds b rs k v h in
    elim (Bool-cases (leb b'.block_size b'.block.size)) [
      | inl full ↦ rw full ((flush_block-IsClosed b' (rs ++ ((k, v) ∷ [])) h').0)
      | inr room ↦ rw room h'
    ]

-- A builder holds the records that were added to it.
pub add_all-Holds :
    (b : SsTableBuilder) (before rs : List Record)
    → Holds b before
    → Holds (add_all b rs) (before ++ rs)
unfolding add_all
add_all-Holds b before [] h = subst (Holds b) (sym (append-nil before)) h
add_all-Holds b before ((k, v) ∷ rs) h =
    subst (Holds (add_all (add b k v) rs)) (append_assoc before ((k, v) ∷ []) rs)
      (add_all-Holds (add b k v) (before ++ ((k, v) ∷ [])) rs (add-Holds b before k v h))
