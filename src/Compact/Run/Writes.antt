-- ===== src/Compact/Run/Writes.antt =====
-- The records that the loop of a compaction writes, one after the other.
use jadedb.Common.{
  ℕ, zero, suc, ◌+◌, ◌≤◌, ◌<◌, ◌≡◌, refl, sym, ap, ◌∙◌, arith, true, false, Bool-cases, inl, inr,
  leb, if◌then◌else◌, none, some,
}
use jadedb.Common.{List, [], ◌∷◌, length}
use jadedb.Common.Result.{Result, ok, err, panic, ◌>>=◌, >>=-eq-ok}
use jadedb.Key.{Record}
use jadedb.Memtable.{is_last}
use jadedb.Options.{Options}
use jadedb.Merge.{HeapItem}
use jadedb.Merge.Pops.{entry, IsAdvance, IsMerge, Pops, heap_after, streams_after, refill_lem}
use jadedb.Merge.Runs.{after-IsMerge}
use jadedb.Merge.Distinct.{distinct}
use jadedb.Sstable.Builder.{add, finish}
use jadedb.Compact.Run.{
  Output, next_item, is_dropped, flush_builder, open_builder, write_record, compact_loop,
}

-- every record of a stream is taken
abbrev pub all_of : List Record → List Record
all_of s = s

pub next_item-IsAdvance : IsAdvance next_item all_of
next_item-IsAdvance = record {
  ends =
      λ s. elim s as (λ t. (next_item t).0 ≡ none → t ≡ []) [ [] ↦ λ e. refl | r ∷ rest ↦ λ e. cc ];
  gives = gives;
  rest_le = rest_le;
}
  where
    gives :
        (s : List Record) (r : Record)
        → (next_item s).0 ≡ some r
        → (s ≡ r ∷ (next_item s).1) × (length (next_item s).1 < length s)
    gives [] r e = cc
    gives (x ∷ s) r e = (ap (λ y. y ∷ s) (let same : x ≡ r = cc in same), omega arith)

    rest_le : (s : List Record) → length (next_item s).1 ≤ length s
    rest_le [] = omega arith
    rest_le (x ∷ s) = omega arith

module _ (crc32 : List ℕ → ℕ) (probes_of : ℕ → ℕ) (opts : Options) (level watermark : ℕ) where
  -- The records are written one after the other, but for the tombstones that may be dropped.
  unfoldable pub write_kept : List Record → Output → Result Output
  write_kept [] out = ok out
  write_kept (r ∷ rs) out =
      let seen = record out { last_user = some r.0.user_key } in
      let dropped = write_kept rs seen in
      let written = write_record crc32 probes_of opts level r seen >>= λ out'. write_kept rs out' in
      if is_dropped opts level watermark r.0 then dropped else written

  last_user_same :
      (a b : Output) → ◌≡◌ {A = Result Output} (ok a) (ok b) → b.last_user ≡ a.last_user
  last_user_same a b e = let same : a ≡ b = cc in ap (λ o. o.last_user) (sym same)

  -- Writing a record leaves the user key that was seen last.
  last_user-write_record :
      (r : Record) (out out' : Output)
      → write_record crc32 probes_of opts level r out ≡ ok out'
      → out'.last_user ≡ out.last_user
  unfolding write_record flush_builder
  last_user-write_record r out out' e =
      let size =
        (open_builder crc32 probes_of opts level out).1 + length r.0.user_key + length r.1 + 16 in
      elim (Bool-cases (leb opts.target_file_size size)) [
        | inl large ↦
            let (done, f, e2) =
              >>=-eq-ok
                (finish crc32 probes_of
                  (add (open_builder crc32 probes_of opts level out).0 r.0 r.1))
                _ (rw large at e) in
            last_user_same _ out' e2
        | inr small ↦ last_user_same _ out' (rw small at e)
      ]

  bind_same :
      (m : Result Output) (f g : Output → Result Output)
      → ((a : Output) → m ≡ ok a → f a ≡ g a)
      → (m >>= f) ≡ (m >>= g)
  bind_same (ok a) f g h = h a refl
  bind_same (err e) f g h = refl
  bind_same panic f g h = refl

  -- what one round does, where `next` is the loop from there on
  abbrev one_round : Record → (Output → Result Output) → Output → Result Output
  one_round r next out =
      let seen = record out { last_user = some r.0.user_key } in
      if is_last out.last_user r.0.user_key
      then next out
      else if is_dropped opts level watermark r.0
      then next seen
      else (write_record crc32 probes_of opts level r seen >>= next)

  compact_loop_step :
      (n : ℕ) (x : HeapItem) (heap : List HeapItem) (ss : List (List Record)) (out : Output)
      → x.source < length ss
      → compact_loop crc32 probes_of opts level (suc n) watermark (x ∷ heap) ss out
        ≡ one_round
            (entry x)
            (compact_loop crc32 probes_of opts level n watermark
              (heap_after next_item all_of x.source heap ss)
              (streams_after next_item all_of x.source ss))
            out
  unfolding compact_loop
  compact_loop_step n x heap ss out h = rw (refill_lem next_item all_of x.source heap ss h) refl

  kept_again :
      (r : Record) (rs : List Record) (out : Output)
      → is_last out.last_user r.0.user_key ≡ true
      → write_kept (distinct out.last_user (r ∷ rs)) out
        ≡ write_kept (distinct out.last_user rs) out
  unfolding distinct
  kept_again r rs out again = rw again refl

  kept_new :
      (r : Record) (rs : List Record) (out : Output)
      → is_last out.last_user r.0.user_key ≡ false
      → write_kept (distinct out.last_user (r ∷ rs)) out ≡ (
          let seen = record out { last_user = some r.0.user_key } in
          if is_dropped opts level watermark r.0
          then write_kept (distinct (some r.0.user_key) rs) seen
          else (write_record crc32 probes_of opts level r seen >>= λ o.
              write_kept (distinct (some r.0.user_key) rs) o))
  unfolding distinct write_kept
  kept_new r rs out new = rw new refl

  round_kept :
      (r : Record) (rs : List Record) (next : Output → Result Output) (out : Output)
      → ((o : Output) → next o ≡ write_kept (distinct o.last_user rs) o)
      → one_round r next out ≡ write_kept (distinct out.last_user (r ∷ rs)) out
  round_kept r rs next out ih =
      let seen : Output = record out { last_user = some r.0.user_key } in
      elim (Bool-cases (is_last out.last_user r.0.user_key)) [
        | inl again ↦ rw again (ih out ∙ sym (kept_again r rs out again))
        | inr new ↦
            rw (kept_new r rs out new) (elim (Bool-cases (is_dropped opts level watermark r.0)) [
              | inl drop ↦ rw (new, drop) (ih seen)
              | inr keep ↦
                  rw (new, keep)
                    (bind_same (write_record crc32 probes_of opts level r seen) next
                      (λ o. write_kept (distinct (some r.0.user_key) rs) o)
                      (λ o e.
                        ih o
                        ∙ ap (λ last. write_kept (distinct last rs) o)
                            (last_user-write_record r seen o e)))
            ])
      ]

  -- The loop writes the first record of each user key.
  pub compact_loop-write_kept :
      (n : ℕ) (rs : List Record) (heap : List HeapItem) (ss : List (List Record)) (out : Output)
      → length rs < n
      → Pops next_item all_of rs heap ss
      → IsMerge next_item all_of heap ss
      → compact_loop crc32 probes_of opts level n watermark heap ss out
        ≡ write_kept (distinct out.last_user rs) out
  unfolding Pops
  compact_loop-write_kept zero rs heap ss out l p h = absurd (omega (arith, l))
  compact_loop-write_kept (suc n) [] [] ss out l p h =
      unfold compact_loop in unfold distinct in unfold write_kept in refl
  compact_loop-write_kept (suc n) [] (x ∷ heap) ss out l p h = cc
  compact_loop-write_kept (suc n) (r ∷ rs) [] ss out l p h = cc
  compact_loop-write_kept (suc n) (r ∷ rs) (x ∷ heap) ss out l p h =
      let ih = λ (o : Output).
        compact_loop-write_kept n rs (heap_after next_item all_of x.source heap ss)
          (streams_after next_item all_of x.source ss) o (omega (arith, l)) p.1
          (after-IsMerge next_item all_of next_item-IsAdvance x heap ss h) in
      let step =
        compact_loop_step n x heap ss out h.follow.0.0
        ∙ ap
            (λ e.
              one_round e
                (compact_loop crc32 probes_of opts level n watermark
                  (heap_after next_item all_of x.source heap ss)
                  (streams_after next_item all_of x.source ss))
                out)
            (sym p.0) in
      step ∙ round_kept r rs _ out ih
