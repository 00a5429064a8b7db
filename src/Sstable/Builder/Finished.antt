-- ===== src/Sstable/Builder/Finished.antt =====
-- What `finish` writes for the records that were added.
use jadedb.Common.{ℕ, ◌≡◌, ◌≢◌, refl, sym, ap, subst, ◌∙◌}
use jadedb.Common.{List, [], ◌∷◌, ◌++◌, append-nil, length, All}
use jadedb.Common.Result.{ok}
use jadedb.Key.{Record}
use jadedb.Sstable.Bloom as Bloom
use jadedb.Sstable.Bloom.Contains.{no_false_negative}
use jadedb.Sstable.Index as Index
use jadedb.Sstable.Builder.{
  SsTableBuilder, SsTableMeta, new, add_all, flush_block, finish, file_bytes, expect,
}
use jadedb.Sstable.Builder.Layout.{concat, flat, last_or, laid}
use jadedb.Sstable.Builder.Built.{Holds, users, new-Holds, add_all-Holds, flush_block-IsClosed}

-- what a builder has laid out for a file
pub record Written (crc32 : List ℕ → ℕ) (probes_of : ℕ → ℕ) (r : Record) (rs : List Record)
    (done : SsTableMeta × List ℕ) : Type 0 where
  pub ps : List (List Record)
  pub bloom : Bloom.BloomFilter
  pub per_key : ℕ
  pub all : concat ps ≡ r ∷ rs
  pub nonempty : All (λ p. p ≢ []) ps
  pub built : Bloom.build crc32 probes_of (users (r ∷ rs)) per_key ≡ ok bloom
  pub lowest : done.0.smallest ≡ r.0
  pub highest : done.0.largest ≡ (last_or r rs).0
  pub size : done.0.file_size ≡ length done.1
  pub file :
      done.1
      ≡ file_bytes (flat ps) (Index.encode (record { entries = laid 0 ps })) (Bloom.encode bloom)

finish-Written :
    (crc32 : List ℕ → ℕ) (probes_of : ℕ → ℕ) (b : SsTableBuilder) (r : Record) (rs : List Record)
    → Holds b (r ∷ rs)
    → (done : SsTableMeta × List ℕ) × (finish crc32 probes_of b ≡ ok done)
      × Written crc32 probes_of r rs done
unfolding finish expect
finish-Written crc32 probes_of b r rs open_holds =
    let b' = flush_block b in
    let (h, closed) = flush_block-IsClosed b (r ∷ rs) open_holds in
    let (bloom, built, answers) = no_false_negative crc32 probes_of b'.user_keys b'.bits_per_key in
    let file = file_bytes b'.bytes (Index.encode b'.index) (Bloom.encode bloom) in
    let index : b'.index ≡ record { entries = laid 0 h.ps } =
      λ i. record { entries = h.indexed i } in
    (
      (record { smallest = r.0; largest = (last_or r rs).0; file_size = length file }, file),
      rw (built, h.lowest, h.highest) refl,
      record {
        ps = h.ps;
        bloom = bloom;
        per_key = b'.bits_per_key;
        all = sym (h.all ∙ ap (λ q. concat h.ps ++ q) closed ∙ append-nil (concat h.ps));
        nonempty = h.nonempty;
        built =
            subst (λ us. Bloom.build crc32 probes_of us b'.bits_per_key ≡ ok bloom) h.keys built;
        lowest = refl;
        highest = refl;
        size = refl;
        file =
            ap (λ t. file_bytes t (Index.encode b'.index) (Bloom.encode bloom)) h.blocks
            ∙ ap (λ x. file_bytes (flat h.ps) (Index.encode x) (Bloom.encode bloom)) index;
      },
    )

-- A builder finishes the table of some records.
built-Written :
    (crc32 : List ℕ → ℕ) (probes_of : ℕ → ℕ) (block_size bits_per_key : ℕ) (r : Record)
    (rs : List Record)
    → (done : SsTableMeta × List ℕ) × (finish crc32 probes_of
          (add_all (new block_size bits_per_key) (r ∷ rs))
        ≡ ok done)
      × Written crc32 probes_of r rs done
built-Written crc32 probes_of block_size bits_per_key r rs =
    let b = new block_size bits_per_key in
    finish-Written crc32 probes_of (add_all b (r ∷ rs)) r rs
      (add_all-Holds b [] (r ∷ rs) (new-Holds block_size bits_per_key))

-- A builder that finishes a table has written it.
pub finished-Written :
    (crc32 : List ℕ → ℕ) (probes_of : ℕ → ℕ) (block_size bits_per_key : ℕ) (r : Record)
    (rs : List Record) (done : SsTableMeta × List ℕ)
    → finish crc32 probes_of (add_all (new block_size bits_per_key) (r ∷ rs)) ≡ ok done
    → Written crc32 probes_of r rs done
finished-Written crc32 probes_of block_size bits_per_key r rs done e =
    let (done', e', w) = built-Written crc32 probes_of block_size bits_per_key r rs in
    let same : done' ≡ done = cc in subst (Written crc32 probes_of r rs) same w

-- Finishing a builder to which a first and further records were added does not panic. It gives the
-- first key and the last, and the length of the file.
pub finish-add_all :
    (crc32 : List ℕ → ℕ) (probes_of : ℕ → ℕ) (block_size bits_per_key : ℕ) (r : Record)
    (rs : List Record)
    → (meta : SsTableMeta) × (file : List ℕ) × (finish crc32 probes_of
          (add_all (new block_size bits_per_key) (r ∷ rs))
        ≡ ok (meta, file))
      × (meta.smallest ≡ r.0)
      × (meta.largest ≡ (last_or r rs).0)
      × (meta.file_size ≡ length file)
finish-add_all crc32 probes_of block_size bits_per_key r rs =
    let (done, e, w) = built-Written crc32 probes_of block_size bits_per_key r rs in
    (done.0, done.1, e, w.lowest, w.highest, w.size)
