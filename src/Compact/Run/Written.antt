-- ===== src/Compact/Run/Written.antt =====
-- What `write_kept` writes are tables of the records that are not obsolete tombstones.
use jadedb.Common.{
  ℕ, ◌+◌, ◌^◌, ◌<◌, ◌≤◌, leb→le, ◌≡◌, ◌≢◌, refl, sym, ap, subst, ◌∙◌, arith, true, false,
  Bool-cases, inl, inr, leb, some,
}
use jadedb.Common.{List, [], ◌∷◌, ◌++◌, length, append-nil, append_assoc, length-append}
use jadedb.Common.Result.{Result, ok, ◌>>=◌}
use jadedb.Key.{Record}
use jadedb.Options.{Options}
use jadedb.Sstable.Builder.{add}
use jadedb.Compact.Run.{Output, is_dropped, flush_builder, open_builder, write_record, with_table}
use jadedb.Compact.Run.Writes.{write_kept}
use jadedb.Compact.Run.Tables.{is_obsolete, live, builder_of, Tables, size_of, size_of-append}
use jadedb.Compact.Run.Filing.{
  add_all-snoc, Holding, open_builder-Holding, Holding-seen, Holding-snoc, Holding-IsCut,
  small-IsCut, Tables-from, no_tables, one_more, flush_lem,
}

module _ (crc32 : List ℕ → ℕ) (probes_of : ℕ → ℕ) (opts : Options) (level watermark : ℕ) where
  is_dropped-is_obsolete :
      (r : Record) → is_dropped opts level watermark r.0 ≡ is_obsolete opts level watermark r
  unfolding is_dropped
  is_dropped-is_obsolete (k, v) = refl

  -- the rest of a compaction, with the last table
  abbrev finish_kept : List Record → Output → Result Output
  finish_kept rs out =
      write_kept crc32 probes_of opts level watermark rs out
      >>= flush_builder crc32 probes_of opts level

  snoc-ne-nil : (q : List Record) (r : Record) → q ++ (r ∷ []) ≢ []
  snoc-ne-nil [] r e = cc
  snoc-ne-nil (x ∷ q) r e = cc

  -- The output after a record was added to a builder.
  abbrev added : Record → Output → Output
  added r out = record out {
    builder = some (add (open_builder crc32 probes_of opts level out).0 r.0 r.1);
    current_size =
        (open_builder crc32 probes_of opts level out).1 + length r.0.user_key + length r.1 + 16;
    last_user = some r.0.user_key;
  }

  written_last :
      (q : List Record) (out : Output)
      → Holding crc32 probes_of opts level q out
      → out.next_file_num + length q < 2 ^ 64
      → Tables crc32 probes_of opts level out q (flush_builder crc32 probes_of opts level out)
  unfolding Holding
  written_last [] out h room =
      let done : flush_builder crc32 probes_of opts level out ≡ ok out =
        unfold flush_builder in rw h refl in
      subst (Tables crc32 probes_of opts level out []) (sym done)
        (no_tables crc32 probes_of opts level out).0
  written_last (r ∷ q) out (holds, size, small) room =
      let (meta, file, finished, sized, e) =
        flush_lem crc32 probes_of opts level (r ∷ q) out (λ e. cc) holds in
      let more =
        one_more crc32 probes_of opts level out (r ∷ q) meta file []
          (ok (with_table level out meta file)) (small-IsCut crc32 probes_of opts level r q small)
          finished sized (omega (arith, room))
          (no_tables crc32 probes_of opts level (with_table level out meta file)).0
          (inl (no_tables crc32 probes_of opts level (with_table level out meta file)).1) in
      rw e (
        subst (λ t. Tables crc32 probes_of opts level out t (ok (with_table level out meta file)))
          (append-nil (r ∷ q)) more)

  -- A round that writes a record, where `go_on` is for the rounds behind it.
  written_next :
      (r : Record) (rs q : List Record) (out : Output)
      → is_dropped opts level watermark r.0 ≡ false
      → Holding crc32 probes_of opts level q out
      → out.next_file_num + length q + length (r ∷ rs) < 2 ^ 64
      → ((q' : List Record) (out' : Output)
          → Holding crc32 probes_of opts level q' out'
          → out'.next_file_num + length q' + length rs < 2 ^ 64
          → Tables crc32 probes_of opts level out'
              (q' ++ live opts level watermark rs)
              (finish_kept rs out'))
      → Tables crc32 probes_of opts level
          (added r out)
          ((q ++ (r ∷ [])) ++ live opts level watermark rs)
          (finish_kept (r ∷ rs) out)
  written_next r rs q out kept h room go_on =
      let out1 = added r out in
      let before = open_builder-Holding crc32 probes_of opts level q out h in
      let holds : out1.builder ≡ some (builder_of crc32 probes_of opts level (q ++ (r ∷ []))) =
        ap (λ b. some (add b.0 r.0 r.1)) before ∙ ap some (sym (add_all-snoc _ q r)) in
      let counted : (open_builder crc32 probes_of opts level out).1 ≡ size_of q =
        ap (λ b. b.1) before in
      let size : out1.current_size ≡ size_of (q ++ (r ∷ [])) =
        omega (arith, counted, size_of-append q (r ∷ [])) in
      let more = length-append q (r ∷ []) in
      elim (Bool-cases (leb opts.target_file_size out1.current_size)) [
        | inl large ↦
            let (meta, file, finished, sized, e) =
              flush_lem crc32 probes_of opts level (q ++ (r ∷ [])) out1 (snoc-ne-nil q r) holds in
            let out2 = with_table level out1 meta file in
            let goes_on : finish_kept (r ∷ rs) out ≡ finish_kept rs out2 =
              unfold write_kept in unfold write_record in rw (kept, large, e) refl in
            let full : opts.target_file_size ≤ size_of (q ++ (r ∷ [])) =
              omega (arith, size, leb→le opts.target_file_size out1.current_size large) in
            rw goes_on (
              one_more crc32 probes_of opts level out1 (q ++ (r ∷ [])) meta file _ _
                (Holding-IsCut crc32 probes_of opts level q r out h) finished sized
                (omega (arith, room)) (go_on [] out2 (unfold Holding in refl) (omega (arith, room)))
                (inr full))
        | inr small ↦
            let goes_on : finish_kept (r ∷ rs) out ≡ finish_kept rs out1 =
              unfold write_kept in unfold write_record in rw (kept, small) refl in
            let less : out1.current_size < opts.target_file_size = ground (arith, small) in
            rw goes_on (
              go_on (q ++ (r ∷ [])) out1
                (Holding-snoc crc32 probes_of opts level q r out1 holds size
                  (omega (arith, size, less)))
                (omega (arith, room, more)))
      ]

  -- From an output whose builder has been given `q`, the tables hold `q` and the live records of `rs`.
  pub written :
      (rs q : List Record) (out : Output)
      → Holding crc32 probes_of opts level q out
      → out.next_file_num + length q + length rs < 2 ^ 64
      → Tables crc32 probes_of opts level out
          (q ++ live opts level watermark rs)
          (finish_kept rs out)
  written [] q out h room =
      unfold write_kept in
      subst
        (λ t.
          Tables crc32 probes_of opts level out t (flush_builder crc32 probes_of opts level out))
        (sym (append-nil q)) (written_last q out h (omega (arith, room)))
  written (r ∷ rs) q out h room =
      let seen : Output = record out { last_user = some r.0.user_key } in
      elim (Bool-cases (is_obsolete opts level watermark r)) [
        | inl drop ↦
            let dropped : is_dropped opts level watermark r.0 ≡ true =
              is_dropped-is_obsolete r ∙ drop in
            let goes_on : finish_kept (r ∷ rs) out ≡ finish_kept rs seen =
              unfold write_kept in rw dropped refl in
            let left : live opts level watermark (r ∷ rs) ≡ live opts level watermark rs =
              rw drop refl in
            rw (left, goes_on)
              (Tables-from crc32 probes_of opts level out _ _ _ _ _ (
                written rs q seen (Holding-seen crc32 probes_of opts level q out r.0.user_key h)
                  (omega (arith, room))))
        | inr keep ↦
            let kept : is_dropped opts level watermark r.0 ≡ false =
              is_dropped-is_obsolete r ∙ keep in
            let left : q ++ live opts level watermark (r ∷ rs)
                ≡ (q ++ (r ∷ [])) ++ live opts level watermark rs =
              rw keep (sym (append_assoc q (r ∷ []) (live opts level watermark rs))) in
            rw left (
              Tables-from crc32 probes_of opts level out _ _ _ _ _ (
                written_next r rs q out kept h room
                  (λ q' out' holds enough. written rs q' out' holds enough)))
      ]
