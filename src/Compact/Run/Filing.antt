-- ===== src/Compact/Run/Filing.antt =====
-- How a builder is filled with records, finished and filed.
use jadedb.Common.{
  ℕ, ◌+◌, ◌%◌, ◌^◌, ◌<◌, ◌≡◌, ◌≢◌, ◌⊎◌, inl, inr, ◌≤◌, ◌==◌, ==_refl, refl, sym, ap, subst, ◌∙◌,
  arith, false, Option, none, some,
}
use jadedb.Common.{List, [], ◌∷◌, ◌++◌, length, map, append-nil, append_assoc}
use jadedb.Common.Result.{Result, ok}
use jadedb.Key.{Record}
use jadedb.Manifest.{FileMeta, add_file}
use jadedb.Options.{Options}
use jadedb.Sstable.Builder.{SsTableBuilder, SsTableMeta, add, add_all, finish}
use jadedb.Sstable.Builder.Finished.{finish-add_all}
use jadedb.Sstable.Builder.Layout.{concat}
use jadedb.Compact.Run.{Output, flush_builder, open_builder, with_table}
use jadedb.Compact.Run.Tables.{
  size_of, size_of-append, AreFull-cons, builder_of, IsCut, Filed, Tables,
}

pub add_all-snoc :
    (b : SsTableBuilder) (rs : List Record) (r : Record)
    → add_all b (rs ++ (r ∷ [])) ≡ add (add_all b rs) r.0 r.1
unfolding add_all
add_all-snoc b [] r = refl
add_all-snoc b (x ∷ rs) r = add_all-snoc (add b x.0 x.1) rs r

module _ (crc32 : List ℕ → ℕ) (probes_of : ℕ → ℕ) (opts : Options) (level : ℕ) where
  -- The builder of an output has been given the records `q`; there is none before the first.
  unfoldable pub Holding : List Record → Output → Type 0
  Holding [] out = out.builder ≡ none
  Holding (r ∷ q) out =
      (out.builder ≡ some (builder_of crc32 probes_of opts level (r ∷ q)))
      × (out.current_size ≡ size_of (r ∷ q))
      × (size_of (r ∷ q) < opts.target_file_size)

  pub open_builder-Holding :
      (q : List Record) (out : Output)
      → Holding q out
      → (◌≡◌ {A = SsTableBuilder × ℕ}
          (open_builder crc32 probes_of opts level out)
          (builder_of crc32 probes_of opts level q, size_of q))
  unfolding Holding add_all
  open_builder-Holding [] out h = rw h refl
  open_builder-Holding (r ∷ q) out h = rw (h.0, h.1) refl

  -- Records that a builder holds may get one more.
  pub Holding-IsCut :
      (q : List Record) (r : Record) (out : Output)
      → Holding q out
      → IsCut crc32 probes_of opts level (q ++ (r ∷ []))
  unfolding Holding
  Holding-IsCut [] r out h = record { front = []; last = r; split = refl; early = inl refl }
  Holding-IsCut (x ∷ q) r out h = record {
    front = x ∷ q;
    last = r;
    split = refl;
    early = inr (h.2);
  }

  -- Records of less than the target size may be those of a table.
  pub small-IsCut :
      (r : Record) (q : List Record)
      → size_of (r ∷ q) < opts.target_file_size
      → IsCut crc32 probes_of opts level (r ∷ q)
  small-IsCut r [] h = record { front = []; last = r; split = refl; early = inl refl }
  small-IsCut r (x ∷ q) h =
      let rest = small-IsCut x q (omega (arith, h)) in
      let size = ap size_of rest.split ∙ size_of-append rest.front (rest.last ∷ []) in
      record {
        front = r ∷ rest.front;
        last = rest.last;
        split = ap (λ t. r ∷ t) rest.split;
        early = inr (omega (arith, h, size));
      }

  pub Holding-seen :
      (q : List Record) (out : Output) (u : List ℕ)
      → Holding q out
      → Holding q (record out { last_user = some u })
  unfolding Holding
  Holding-seen [] out u h = h
  Holding-seen (r ∷ q) out u h = h

  pub Holding-snoc :
      (q : List Record) (r : Record) (out : Output)
      → out.builder ≡ some (builder_of crc32 probes_of opts level (q ++ (r ∷ [])))
      → out.current_size ≡ size_of (q ++ (r ∷ []))
      → size_of (q ++ (r ∷ [])) < opts.target_file_size
      → Holding (q ++ (r ∷ [])) out
  unfolding Holding
  Holding-snoc [] r out e size small = (e, size, small)
  Holding-snoc (x ∷ q) r out e size small = (e, size, small)

  -- The builder, its size and the user key seen last do not matter.
  pub Tables-from :
      (out : Output) (builder : Option SsTableBuilder) (size : ℕ) (last : Option (List ℕ))
      (rs : List Record) (result : Result Output)
      → Tables crc32 probes_of opts level
          (record out { builder = builder; current_size = size; last_user = last })
          rs
          result
      → Tables crc32 probes_of opts level out rs result
  Tables-from out builder size last rs result h = record {
    tables = h.tables;
    metas = h.metas;
    after = h.after;
    ends = h.ends;
    all = h.all;
    full = h.full;
    filed = h.filed;
    counted = h.counted;
    described = h.described;
    logged = h.logged;
    untouched = h.untouched;
  }

  -- Nothing is left to be written.
  pub no_tables :
      (out : Output) → (h : Tables crc32 probes_of opts level out [] (ok out)) × (h.tables ≡ [])
  unfolding Filed concat
  no_tables out = (
    record {
      tables = [];
      metas = [];
      after = out;
      ends = refl;
      all = refl;
      full = tt;
      filed = tt;
      counted = omega arith;
      described = sym (append-nil out.new_metas);
      logged = sym (append-nil out.edits);
      untouched = λ k l. refl;
    },
    refl,
  )

  -- A table in front of others.
  pub one_more :
      (out : Output) (p : List Record) (meta : SsTableMeta) (file : List ℕ) (rs : List Record)
      (result : Result Output)
      → IsCut crc32 probes_of opts level p
      → finish crc32 probes_of (builder_of crc32 probes_of opts level p) ≡ ok (meta, file)
      → meta.file_size ≡ length file
      → out.next_file_num + 1 < 2 ^ 64
      → (h : Tables crc32 probes_of opts level (with_table level out meta file) rs result)
      → (h.tables ≡ []) ⊎ (opts.target_file_size ≤ size_of p)
      → Tables crc32 probes_of opts level out (p ++ rs) result
  unfolding Filed concat
  one_more out p meta file rs result cut finished sized room h full =
      let n = out.next_file_num in
      let next : (n + 1) % 2 ^ 64 ≡ n + 1 = omega (arith, room) in
      let fm : FileMeta = record {
        file_num = n;
        level = level;
        smallest = meta.smallest.user_key;
        largest = meta.largest.user_key;
        file_size = meta.file_size;
      } in
      let here : h.after.dir n ≡ some file =
        h.untouched n (omega (arith, next)) ∙ (rw (==_refl n) refl) in
      record {
        tables = p ∷ h.tables;
        metas = fm ∷ h.metas;
        after = h.after;
        ends = h.ends;
        all = ap (λ t. p ++ t) h.all;
        full = AreFull-cons opts.target_file_size p h.tables full h.full;
        filed = (
          record {
            cut = cut;
            meta = meta;
            file = file;
            finished = finished;
            numbered = refl;
            placed = refl;
            lowest = refl;
            highest = refl;
            sized = sized;
            stored = here;
          },
          subst (λ m. Filed crc32 probes_of opts level m h.tables h.metas h.after.dir) next h.filed,
        );
        counted = omega (arith, h.counted, next);
        described = h.described ∙ append_assoc out.new_metas (fm ∷ []) h.metas;
        logged = h.logged ∙ append_assoc out.edits (add_file fm ∷ []) (map add_file h.metas);
        untouched = λ k l.
            h.untouched k (omega (arith, next))
            ∙ (let other : (k == n) ≡ false = ground arith in rw other refl);
      }

  -- A builder that has been given records is finished and filed.
  pub flush_lem :
      (q : List Record) (out : Output)
      → q ≢ []
      → out.builder ≡ some (builder_of crc32 probes_of opts level q)
      → (meta : SsTableMeta) × (file : List ℕ) × (finish crc32 probes_of
            (builder_of crc32 probes_of opts level q)
          ≡ ok (meta, file))
        × (meta.file_size ≡ length file)
        × (flush_builder crc32 probes_of opts level out ≡ ok (with_table level out meta file))
  unfolding flush_builder
  flush_lem [] out ne e = absurd (ne refl)
  flush_lem (r ∷ q) out ne e =
      let (meta, file, finished, low, high, sized) =
        finish-add_all crc32 probes_of opts.block_size opts.bloom_bits_per_key r q in
      (meta, file, finished, sized, rw (e, finished) refl)
