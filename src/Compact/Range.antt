-- ===== src/Compact/Range.antt =====
-- The range of keys of a compaction, and the tables that it takes in.
use jadedb.Common.{
  ℕ, ◌≡◌, refl, sym, ap, subst, arith, Bool, true, false, Bool-cases, inl, inr, ◌+◌, zero, suc, leb,
  ltb, ◌-◌, Option, none, some, if◌then◌else◌,
}
use jadedb.Common.{List, [], ◌∷◌, All, All-imp, All-retain, retain, Ordering}
use mathlib.Core.List.{Mem, mem-cons_self, mem-cons_of_mem}
use jadedb.Common.Order.{
  bytes_cmp, is_lt, bytes_cmp_refl, bytes_cmp_swap, bytes_cmp_trans, eq_of_bytes_cmp,
}
use jadedb.Common.Result.{Result, ok, ◌>>=◌, >>=-eq-ok}
use jadedb.Options.{Options}
use jadedb.Sstable.Table.{SsTable}
use jadedb.Version.{Version, l0_num_files, level_bytes}
use jadedb.Compact.{
  CompactionJob, level_at, level_limit, pick_upper, pick_level, pick_from, pick_compaction, widen,
  key_range, overlaps, overlapping,
}

-- `a` is not above `b`.
abbrev pub AtMost : List ℕ → List ℕ → Type 0
AtMost a b = is_lt (bytes_cmp b a) ≡ false

AtMost-refl : (a : List ℕ) → AtMost a a
AtMost-refl a = rw (bytes_cmp_refl a) refl

AtMost-trans : (a b c : List ℕ) → AtMost a b → AtMost b c → AtMost a c
AtMost-trans a b c p q =
    let s = bytes_cmp_swap a b in
    let t = bytes_cmp_swap b c in
    let u = bytes_cmp_swap a c in
    let e = eq_of_bytes_cmp a b in
    let f = eq_of_bytes_cmp b c in
    let e' : bytes_cmp a b ≡ Ordering.eq → bytes_cmp a c ≡ bytes_cmp b c =
      λ h. ap (λ w. bytes_cmp w c) (e h) in
    let f' : bytes_cmp b c ≡ Ordering.eq → bytes_cmp a b ≡ bytes_cmp a c =
      λ h. ap (bytes_cmp a) (f h) in
    ground (arith, s, t, u, e', f', bytes_cmp_trans a b c)

AtMost-of_lt : (a b : List ℕ) → is_lt (bytes_cmp a b) ≡ true → AtMost a b
AtMost-of_lt a b h = let s = bytes_cmp_swap a b in ground (arith, s)

-- The range takes in what it took in before, and the ranges of the tables.
widen_lem :
    (a b : List ℕ) (ts : List SsTable)
    → AtMost (widen a b ts).0 a
      × AtMost b (widen a b ts).1
      × All (λ t. AtMost (widen a b ts).0 t.smallest × AtMost t.largest (widen a b ts).1) ts
unfolding widen
widen_lem a b [] = (AtMost-refl a, AtMost-refl b, tt)
widen_lem a b (t ∷ ts) =
    let a' = if is_lt (bytes_cmp t.smallest a) then t.smallest else a in
    let b' = if is_lt (bytes_cmp b t.largest) then t.largest else b in
    let (low, high, rest) = widen_lem a' b' ts in
    let low_a : AtMost a' a × AtMost a' t.smallest =
      elim (Bool-cases (is_lt (bytes_cmp t.smallest a))) [
        | inl less ↦ rw less (AtMost-of_lt t.smallest a less, AtMost-refl t.smallest)
        | inr keep ↦ rw keep (AtMost-refl a, keep)
      ] in
    let high_b : AtMost b b' × AtMost t.largest b' =
      elim (Bool-cases (is_lt (bytes_cmp b t.largest))) [
        | inl more ↦ rw more (AtMost-of_lt b t.largest more, AtMost-refl t.largest)
        | inr keep ↦ rw keep (AtMost-refl b, keep)
      ] in
    (
      AtMost-trans (widen a' b' ts).0 a' a low low_a.0,
      AtMost-trans b b' (widen a' b' ts).1 high_b.0 high,
      (
        (
          AtMost-trans (widen a' b' ts).0 a' t.smallest low low_a.1,
          AtMost-trans t.largest b' (widen a' b' ts).1 high_b.1 high,
        ),
        rest,
      ),
    )

-- The key range of some tables takes in the range of each of them.
key_range_lem :
    (ts : List SsTable) (min_k max_k : List ℕ)
    → key_range ts ≡ some (min_k, max_k)
    → All (λ t. AtMost min_k t.smallest × AtMost t.largest max_k) ts
key_range_lem [] a b e = absurd (unfold key_range in cc)
key_range_lem (t ∷ ts) a b e =
    let w = widen t.smallest t.largest ts in
    let wide : some w ≡ some (a, b) = unfold key_range in e in
    let same : w ≡ (a, b) = cc in
    let (low, high, rest) = widen_lem t.smallest t.largest ts in
    subst (λ r. All (λ x. AtMost r.0 x.smallest × AtMost x.largest r.1) (t ∷ ts)) same
      ((low, high), rest)

-- `k` lies in the range of the table.
abbrev pub Covers : SsTable → List ℕ → Type 0
Covers t k = AtMost t.smallest k × AtMost k t.largest

-- Two ranges with a key in common meet.
overlaps-Covers :
    (a b k : List ℕ) (t x : SsTable)
    → AtMost a t.smallest × AtMost t.largest b
    → Covers t k
    → Covers x k
    → overlaps a b x ≡ true
overlaps-Covers a b k t x (low, high) (t_low, t_high) (x_low, x_high) =
    let below = AtMost-trans a k x.largest (AtMost-trans a t.smallest k low t_low) x_high in
    let above = AtMost-trans x.smallest k b x_low (AtMost-trans k t.largest b t_high high) in
    rw (below, above) refl

-- Each element of a list is in it.
own_members : (l : List SsTable) → All (λ x. Mem x l) l
own_members [] = tt
own_members (x ∷ l) = (mem-cons_self, All-imp (λ y m. mem-cons_of_mem x m) l (own_members l))

-- `retain` keeps what passes its test.
kept_members :
    (p : SsTable → Bool) (l : List SsTable) → All (λ x. p x ≡ true → Mem x (retain p l)) l
kept_members p [] = tt
kept_members p (x ∷ l) =
    let rest = kept_members p l in
    let goal = λ (r : List SsTable). All (λ y. p y ≡ true → Mem y r) (x ∷ l) in
    elim (Bool-cases (p x)) [
      | inl kept ↦
          let e : retain p (x ∷ l) ≡ x ∷ retain p l = rw kept refl in
          subst goal (sym e)
            ((λ _. mem-cons_self), All-imp (λ y m h. mem-cons_of_mem x (m h)) l rest)
      | inr out ↦
          let e : retain p (x ∷ l) ≡ retain p l = rw out refl in
          subst goal (sym e) ((λ h. cc), rest)
    ]

-- The job takes in all tables of the next level that share a key with one of its upper tables, and
-- only tables of that level.
unfoldable Complete : Version → CompactionJob → Type 0
Complete v job =
    (next : List SsTable) × (level_at v (job.level + 1) ≡ ok next)
    × All (λ t. All (λ x. (k : List ℕ) → Covers t k → Covers x k → Mem x job.inputs_lower) next)
        job.inputs_upper
    × All (λ x. Mem x next) job.inputs_lower

overlapping_lem :
    (upper next : List SsTable) (a b : List ℕ)
    → All (λ t. AtMost a t.smallest × AtMost t.largest b) upper
    → All
        (λ t. All (λ x. (k : List ℕ) → Covers t k → Covers x k → Mem x (overlapping next a b)) next)
        upper
      × All (λ x. Mem x next) (overlapping next a b)
unfolding overlapping
overlapping_lem upper next a b wide = (
  All-imp
      (λ t h.
        All-imp (λ x m k in_t in_x. m (overlaps-Covers a b k t x h in_t in_x)) next
          (kept_members (overlaps a b) next))
      upper wide,
  All-retain (λ x. Mem x next) (overlaps a b) next (own_members next),
)

some_job :
    (job j : CompactionJob)
    → ◌≡◌ {A = Result (Option CompactionJob)} (ok (some j)) (ok (some job))
    → j ≡ job
some_job job j e = cc

upper_branch :
    (v : Version) (job : CompactionJob) (upper : List SsTable) (range : Option (List ℕ × List ℕ))
    → key_range upper ≡ range
    → (elim range [
      | none ↦ ok none
      | some (min_k, max_k) ↦ level_at v 1 >>= λ next. ok (
          some (record {
            level = 0;
            inputs_upper = upper;
            inputs_lower = overlapping next min_k max_k;
          }))
    ])
      ≡ ok (some job)
    → Complete v job
unfolding Complete
upper_branch v job upper none p e = cc
upper_branch v job upper (some (a, b)) p e =
    let (next, at, e2) = >>=-eq-ok (level_at v 1) _ e in
    let j : CompactionJob = record {
      level = 0;
      inputs_upper = upper;
      inputs_lower = overlapping next a b;
    } in
    let done : Complete v j =
      (let (both, only) = overlapping_lem upper next a b (key_range_lem upper a b p) in
        (next, at, both, only)) in
    subst (Complete v) (some_job job j e2) done

pick_upper_lem : (v : Version) (job : CompactionJob) → pick_upper v ≡ ok (some job) → Complete v job
unfolding pick_upper
pick_upper_lem v job e =
    let (upper, at, e1) = >>=-eq-ok (level_at v 0) _ e in
    upper_branch v job upper (key_range upper) refl e1

level_branch :
    (v : Version) (job : CompactionJob) (level : ℕ) (tables : List SsTable)
    → (elim tables [
      | [] ↦ ok none
      | t ∷ _ ↦ level_at v (level + 1) >>= λ next. ok (
          some (record {
            level = level;
            inputs_upper = t ∷ [];
            inputs_lower = overlapping next t.smallest t.largest;
          }))
    ])
      ≡ ok (some job)
    → Complete v job
unfolding Complete
level_branch v job level [] e = cc
level_branch v job level (t ∷ ts) e =
    let (next, at, e2) = >>=-eq-ok (level_at v (level + 1)) _ e in
    let j : CompactionJob = record {
      level = level;
      inputs_upper = t ∷ [];
      inputs_lower = overlapping next t.smallest t.largest;
    } in
    let own : All (λ x. AtMost t.smallest x.smallest × AtMost x.largest t.largest) (t ∷ []) =
      ((AtMost-refl t.smallest, AtMost-refl t.largest), tt) in
    let done : Complete v j =
      (let (both, only) = overlapping_lem (t ∷ []) next t.smallest t.largest own in
        (next, at, both, only)) in
    subst (Complete v) (some_job job j e2) done

pick_level_lem :
    (v : Version) (level : ℕ) (job : CompactionJob)
    → pick_level v level ≡ ok (some job)
    → Complete v job
unfolding pick_level
pick_level_lem v level job e =
    let (tables, at, e1) = >>=-eq-ok (level_at v level) _ e in level_branch v job level tables e1

pick_from_lem :
    (v : Version) (opts : Options) (n level : ℕ) (job : CompactionJob)
    → pick_from v opts n level ≡ ok (some job)
    → Complete v job
unfolding pick_from
pick_from_lem v opts zero level job e = cc
pick_from_lem v opts (suc n) level job e =
    elim (Bool-cases (ltb (level_limit opts level) (level_bytes v level))) [
      | inl large ↦ pick_level_lem v level job (rw large at e)
      | inr small ↦ pick_from_lem v opts n (level + 1) job (rw small at e)
    ]

-- A compaction that is picked has a next level. Of its tables it takes in each that has a key in its
-- range which also lies in the range of one of the upper tables, both ends of a range included; and
-- its lower tables are all tables of that level.
pub pick_compaction_lem :
    (v : Version) (opts : Options) (job : CompactionJob)
    → pick_compaction v opts ≡ ok (some job)
    → (next : List SsTable) × (level_at v (job.level + 1) ≡ ok next)
      × All
          (λ t. All (λ x. (k : List ℕ) → Covers t k → Covers x k → Mem x job.inputs_lower) next)
          job.inputs_upper
      × All (λ x. Mem x next) job.inputs_lower
unfolding pick_compaction Complete
pick_compaction_lem v opts job e =
    elim (Bool-cases (leb opts.l0_compaction_trigger (l0_num_files v))) [
      | inl many ↦ pick_upper_lem v job (rw many at e)
      | inr few ↦ pick_from_lem v opts (opts.max_levels - 1 - 1) 1 job (rw few at e)
    ]
