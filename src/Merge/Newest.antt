-- ===== src/Merge/Newest.antt =====
-- The first record of a key among ordered ones is the newest.
use jadedb.Common.{
  ℕ, ◌≤◌, ◌≡◌, ◌⊎◌, refl, sym, ap, subst, ◌∙◌, arith, true, false, Bool-cases, inl, inr, none, some,
  Option-cases, Ordering,
}
use jadedb.Common.{List, [], ◌∷◌, All, All-imp, leb, ltb}
use jadedb.Common.Order.{bytes_cmp, bytes_eq, bytes_eq→≡, bytes_cmp_refl}
use jadedb.Key.{InternalKey, Record, cmp}
use jadedb.Key.Versions.{newest, newer, sees}
use jadedb.Merge.Heap.{Le}
use jadedb.Merge.Runs.{Ordered}
use jadedb.Merge.Distinct.{first_of}

newest-none :
    (u : List ℕ) (s : ℕ) (l : List Record) → newest u s l ≡ none → All (λ q. sees u s q.0 ≡ false) l
unfolding newest
newest-none u s [] e = tt
newest-none u s (r ∷ l) e = elim (Option-cases (newest u s l)) [
  | inl n ↦ (ground (arith, n), newest-none u s l n)
  | inr (y, n) ↦ absurd (ground (arith, n))
]

-- Either the first record is the newest, or the newest is behind it.
newest_split :
    (u : List ℕ) (s : ℕ) (r : Record) (l : List Record) (y : Record)
    → newest u s (r ∷ l) ≡ some y
    → ((r ≡ y) × ((z : Record) → newest u s l ≡ some z → z.0.seq ≤ r.0.seq))
      ⊎ ((newest u s l ≡ some y) × (sees u s r.0 ≡ true → r.0.seq ≤ y.0.seq))
unfolding newest
newest_split u s r l y e = elim (Bool-cases (sees u s r.0)) [
  | inr hidden ↦ inr (rw hidden at e, λ seen. cc)
  | inl seen ↦ elim (Option-cases (newest u s l)) [
    | inl n ↦
        let e' : newer r (newest u s l) ≡ some y = rw seen at e in
        let e'' : some r ≡ some y = rw n at e' in (inl (cc, λ z k. cc))
    | inr (z, n) ↦
        let e' : newer r (newest u s l) ≡ some y = rw seen at e in
        let e'' : newer r (some z) ≡ some y = rw n at e' in
        elim (Bool-cases (ltb r.0.seq z.0.seq)) [
          | inl less ↦
              let e3 : some z ≡ some y = rw less at e'' in
              let same : z ≡ y = cc in
              inr (n ∙ e3, λ t. subst (λ w. r.0.seq ≤ w.0.seq) same (ground (arith, less)))
          | inr first ↦
              let e3 : some r ≡ some y = rw first at e'' in
              inl (
                cc,
                λ w k.
                    let same : z ≡ w = cc in
                    subst (λ v. v.0.seq ≤ r.0.seq) same (ground (arith, first)),
              )
        ]
  ]
]

pub newest_in :
    (P : Record → Type 0) (u : List ℕ) (s : ℕ) (l : List Record) (y : Record)
    → newest u s l ≡ some y
    → All P l
    → P y
newest_in P u s [] y e h = absurd (unfold newest in cc)
newest_in P u s (r ∷ l) y e h = elim (newest_split u s r l y e) [
  | inl (same, rest) ↦ subst P same h.0
  | inr (later, above) ↦ newest_in P u s l y later h.1
]

pub newest_is_seen :
    (u : List ℕ) (s : ℕ) (l : List Record) (y : Record)
    → newest u s l ≡ some y
    → sees u s y.0 ≡ true
unfolding newest
newest_is_seen u s [] y e = cc
newest_is_seen u s (r ∷ l) y e = ground (arith, newest_is_seen u s l y)

newest_max :
    (u : List ℕ) (s : ℕ) (l : List Record) (y : Record)
    → newest u s l ≡ some y
    → All (λ q. sees u s q.0 ≡ true → q.0.seq ≤ y.0.seq) l
newest_max u s [] y e = tt
newest_max u s (r ∷ l) y e = elim (newest_split u s r l y e) [
  | inr (later, above) ↦ (above, newest_max u s l y later)
  | inl (same, rest) ↦ (
    λ seen. subst (λ w. r.0.seq ≤ w.0.seq) same (omega arith),
    elim (Option-cases (newest u s l)) [
      | inl n ↦
          All-imp (λ q hidden seen. absurd (ground (arith, hidden, seen))) l (newest-none u s l n)
      | inr (z, n) ↦
          let low : z.0.seq ≤ y.0.seq = subst (λ w. z.0.seq ≤ w.0.seq) same (rest z n) in
          All-imp (λ q below seen. omega (arith, below seen, low)) l (newest_max u s l z n)
    ],
  )
]

first_of-none :
    (u : List ℕ) (rs : List Record)
    → first_of u rs ≡ none
    → All (λ q. bytes_eq q.0.user_key u ≡ false) rs
unfolding first_of
first_of-none u [] e = tt
first_of-none u (r ∷ rs) e = elim (Bool-cases (bytes_eq r.0.user_key u)) [
  | inl same ↦ absurd (ground (arith, same))
  | inr other ↦ (other, first_of-none u rs (rw other at e))
]

none-first_of :
    (u : List ℕ) (rs : List Record)
    → All (λ q. bytes_eq q.0.user_key u ≡ false) rs
    → first_of u rs ≡ none
unfolding first_of
none-first_of u [] h = refl
none-first_of u (r ∷ rs) h = rw (h.0) (none-first_of u rs h.1)

first_of_in :
    (P : Record → Type 0) (u : List ℕ) (rs : List Record) (r : Record)
    → first_of u rs ≡ some r
    → All P rs
    → P r
unfolding first_of
first_of_in P u [] r e h = cc
first_of_in P u (x ∷ rs) r e h = elim (Bool-cases (bytes_eq x.0.user_key u)) [
  | inl same ↦ subst P (let e' : some x ≡ some r = rw same at e in cc) h.0
  | inr other ↦ first_of_in P u rs r (rw other at e) h.1
]

first_of_user :
    (u : List ℕ) (rs : List Record) (r : Record)
    → first_of u rs ≡ some r
    → bytes_eq r.0.user_key u ≡ true
unfolding first_of
first_of_user u [] r e = cc
first_of_user u (x ∷ rs) r e = elim (Bool-cases (bytes_eq x.0.user_key u)) [
  | inl same ↦
      let e' : some x ≡ some r = rw same at e in
      let q : x ≡ r = cc in subst (λ w. bytes_eq w.0.user_key u ≡ true) q same
  | inr other ↦ first_of_user u rs r (rw other at e)
]

seq_of_Le :
    (u : List ℕ) (j k : InternalKey)
    → Le j k
    → bytes_eq j.user_key u ≡ true
    → bytes_eq k.user_key u ≡ true
    → k.seq ≤ j.seq
unfolding cmp
seq_of_Le u j k h p q =
    let same : k.user_key ≡ j.user_key =
      bytes_eq→≡ k.user_key u q ∙ sym (bytes_eq→≡ j.user_key u p) in
    let e : bytes_cmp k.user_key j.user_key ≡ Ordering.eq =
      ap (λ w. bytes_cmp w j.user_key) same ∙ bytes_cmp_refl j.user_key in
    ground (arith, e)

first_of_max :
    (u : List ℕ) (rs : List Record) (r : Record)
    → Ordered rs
    → first_of u rs ≡ some r
    → All (λ q. bytes_eq q.0.user_key u ≡ true → q.0.seq ≤ r.0.seq) rs
unfolding first_of
first_of_max u [] r o e = tt
first_of_max u (x ∷ rs) r o e = elim (Bool-cases (bytes_eq x.0.user_key u)) [
  | inl same ↦
      let e' : some x ≡ some r = rw same at e in
      let q : x ≡ r = cc in
      subst (λ w. All (λ q. bytes_eq q.0.user_key u ≡ true → q.0.seq ≤ w.0.seq) (x ∷ rs)) q
        (λ p. omega arith, All-imp (λ y le p. seq_of_Le u x.0 y.0 le same p) rs o.0)
  | inr other ↦ (λ p. absurd (ground (arith, other, p)), first_of_max u rs r o.1 (rw other at e))
]

-- Records with the same user key and sequence number are the same.
abbrev pub IsConsistent : List Record → Type 0
IsConsistent l = All (λ a. All (λ b. a.0.user_key ≡ b.0.user_key → a.0.seq ≡ b.0.seq → a ≡ b) l) l

module _ (s : ℕ) (l rs : List Record)
    (fwd : (P : Record → Type 0) → All (λ q. leb q.0.seq s ≡ true → P q) l → All P rs)
    (bwd : (P : Record → Type 0) → All P rs → All (λ q. leb q.0.seq s ≡ true → P q) l) where
  -- If ordered records are those of `l` that a read at `s` may see, then the first of a key is the
  -- newest that the read finds in `l`.
  pub first_of-newest : (u : List ℕ) → Ordered rs → IsConsistent l → first_of u rs ≡ newest u s l
  first_of-newest u ordered consistent = elim (Option-cases (newest u s l)) [
    | inl n ↦
        none-first_of u rs (
          fwd (λ q. bytes_eq q.0.user_key u ≡ false)
            (All-imp (λ q hidden visible. ground (arith, hidden, visible)) l (newest-none u s l n)))
        ∙ sym n
    | inr (y, n) ↦
        let seen = newest_is_seen u s l y n in
        let y_user : bytes_eq y.0.user_key u ≡ true = ground (arith, seen) in
        let y_low : leb y.0.seq s ≡ true = ground (arith, seen) in
        elim (Option-cases (first_of u rs)) [
          | inl f ↦
              let out = bwd _ (first_of-none u rs f) in
              let no_user =
                newest_in (λ q. leb q.0.seq s ≡ true → bytes_eq q.0.user_key u ≡ false) u s l y n
                  out y_low in
              absurd (ground (arith, no_user, y_user))
          | inr (r, f) ↦
              let r_user = first_of_user u rs r f in
              let up =
                newest_in
                  (λ q. leb q.0.seq s ≡ true → bytes_eq q.0.user_key u ≡ true → q.0.seq ≤ r.0.seq) u
                  s l y n (bwd _ (first_of_max u rs r ordered f)) y_low y_user in
              let max_all =
                fwd (λ q. bytes_eq q.0.user_key u ≡ true → q.0.seq ≤ y.0.seq)
                  (All-imp (λ q below visible same. below (ground (arith, visible, same))) l
                    (newest_max u s l y n)) in
              let down =
                first_of_in (λ q. bytes_eq q.0.user_key u ≡ true → q.0.seq ≤ y.0.seq) u rs r f
                  max_all r_user in
              let equal_all =
                newest_in
                  (λ a. All (λ b. a.0.user_key ≡ b.0.user_key → a.0.seq ≡ b.0.seq → a ≡ b) l) u s l
                  y n consistent in
              let equal =
                first_of_in (λ b. y.0.user_key ≡ b.0.user_key → y.0.seq ≡ b.0.seq → y ≡ b) u rs r f
                  (fwd _ (All-imp (λ q e visible. e) l equal_all)) in
              let users : y.0.user_key ≡ r.0.user_key =
                bytes_eq→≡ y.0.user_key u y_user ∙ sym (bytes_eq→≡ r.0.user_key u r_user) in
              f ∙ ap some (sym (equal users (omega (arith, up, down)))) ∙ sym n
        ]
  ]
