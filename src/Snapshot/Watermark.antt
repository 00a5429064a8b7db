-- ===== src/Snapshot/Watermark.antt =====
-- Which snapshots are open, and the watermark as their least sequence number.
use jadedb.Common.{
  ℕ, suc, ◌+◌, ◌-◌, ◌≤◌, ◌<◌, ◌≡◌, ◌⊎◌, inl, inr, refl, sym, subst, ap, ◌==◌, Option-cases,
  Bool-cases, none, some, arith,
}
use jadedb.Common.{List, [], ◌∷◌, ◌++◌, set, length, length-set, if◌then◌else◌, All}
use jadedb.Common.Words.{u64_max}
use jadedb.Snapshot.{SnapshotTracker, create_snapshot, position, last_of, drop_last, swap_remove}
use jadedb.Snapshot.{release, minimum, watermark}

-- how many of the open snapshots have the sequence number `q`
unfoldable pub count : ℕ → List ℕ → ℕ
count q [] = 0
count q (x ∷ xs) = (if x == q then 1 else 0) + count q xs

pub count-append : (q : ℕ) (xs ys : List ℕ) → count q (xs ++ ys) ≡ count q xs + count q ys
unfolding count
count-append q [] ys = omega arith
count-append q (x ∷ xs) ys = omega (arith, count-append q xs ys)

count-drop_last :
    (q d : ℕ) (xs : List ℕ) (x : ℕ)
    → count q (x ∷ xs) ≡ count q (drop_last (x ∷ xs)) + count q (last_of d (x ∷ xs) ∷ [])
unfolding count drop_last last_of
count-drop_last q d [] x = omega arith
count-drop_last q d (y ∷ xs) x = omega (arith, count-drop_last q x xs y)

drop_last-cons : (x : ℕ) (xs : List ℕ) → 0 < length xs → drop_last (x ∷ xs) ≡ x ∷ drop_last xs
unfolding drop_last
drop_last-cons x [] h = absurd (omega arith)
drop_last-cons x (y ∷ xs) h = refl

position-cons :
    (s x : ℕ) (xs : List ℕ) (i : ℕ)
    → position s (x ∷ xs) ≡ some i
    → ((x ≡ s) × (i ≡ 0)) ⊎ ((j : ℕ) × (i ≡ suc j) × (position s xs ≡ some j))
unfolding position
position-cons s x xs i h = elim (Option-cases (position s xs)) [
  | inl e ↦ inl (ground arith, ground arith)
  | inr (j, e) ↦ elim (Bool-cases (x == s)) [
    | inl t ↦ inl (ground arith, ground arith)
    | inr f ↦ inr (j, ground arith, e)
  ]
]

swap_first :
    (q d s : ℕ) (xs : List ℕ)
    → count q (s ∷ xs) ≡ count q (drop_last (last_of d (s ∷ xs) ∷ xs)) + count q (s ∷ [])
unfolding count last_of
swap_first q d s [] = unfold drop_last in omega arith
swap_first q d s (y ∷ r) =
    rw (drop_last-cons (last_of y r) (y ∷ r) (omega arith)) (omega (arith, count-drop_last q s r y))

swap_later :
    (q d s : ℕ) (xs : List ℕ) (x j : ℕ)
    → position s xs ≡ some j
    → count q xs ≡ count q (drop_last (set xs j (last_of x xs))) + count q (s ∷ [])
    → count q (x ∷ xs) ≡ count q (drop_last (x ∷ set xs j (last_of d (x ∷ xs)))) + count q (s ∷ [])
unfolding count last_of
swap_later q d s [] x j p h = unfold position in cc
swap_later q d s (y ∷ r) x j p h =
    rw
      (drop_last-cons x (set (y ∷ r) j (last_of y r))
        (omega (arith, length-set (y ∷ r) j (last_of y r))))
      (omega (arith, h))

-- Removing the element at `i` takes it out of the count and leaves all others.
count-swap_remove :
    (q d : ℕ) (xs : List ℕ) (i s : ℕ)
    → position s xs ≡ some i
    → count q xs ≡ count q (drop_last (set xs i (last_of d xs))) + count q (s ∷ [])
count-swap_remove q d [] i s h = unfold position in cc
count-swap_remove q d (x ∷ xs) i s h = elim (position-cons s x xs i h) [
  | inl (e, z) ↦ rw (z, e) (swap_first q d s xs)
  | inr (j, z, p) ↦ rw z (swap_later q d s xs x j p (count-swap_remove q x xs j s p))
]

not_found : (s : ℕ) (xs : List ℕ) → position s xs ≡ none → count s xs ≡ 0
unfolding count position
not_found s [] h = refl
not_found s (x ∷ xs) h = ground (arith, not_found s xs)

-- Opening a snapshot adds one at its sequence number, and closing one takes one away at its
-- sequence number, if there is one; the count at every other number stays.
pub count-release :
    (t : SnapshotTracker) (seq q : ℕ)
    → (count q (create_snapshot t seq).active ≡ (if seq == q then 1 else 0) + count q t.active)
      × (count q (release t seq).active
          ≡ (if seq == q then count q t.active - 1 else count q t.active))
unfolding create_snapshot release swap_remove
count-release t seq q = (unfold count in omega (arith, count-append q t.active (seq ∷ [])), closed)
  where
    closed :
        count q (release t seq).active
        ≡ (if seq == q then count q t.active - 1 else count q t.active)
    closed = elim (Option-cases (position seq t.active)) [
      | inl e ↦ rw (e, release) (ground (arith, not_found seq t.active e))
      | inr (i, e) ↦
          let taken = count-swap_remove q 0 t.active i seq e in
          rw (e, release) (unfold count in ground (arith, taken))
    ]

minimum-none : (xs : List ℕ) → minimum xs ≡ none → xs ≡ []
unfolding minimum
minimum-none [] e = refl
minimum-none (x ∷ xs) e = ground arith

minimum_in : (xs : List ℕ) (m : ℕ) → minimum xs ≡ some m → 0 < count m xs
unfolding minimum count
minimum_in [] m e = cc
minimum_in (x ∷ xs) m e = elim (Option-cases (minimum xs)) [
  | inl n ↦ ground arith
  | inr (k, p) ↦ let inside = minimum_in xs k p in ground (arith, inside)
]

minimum-le : (xs : List ℕ) (m q : ℕ) → minimum xs ≡ some m → 0 < count q xs → m ≤ q
unfolding minimum count
minimum-le [] m q e h = cc
minimum-le (x ∷ xs) m q e h = elim (Option-cases (minimum xs)) [
  | inl n ↦ let none_left = minimum-none xs n in ground (arith, ap (count q) none_left)
  | inr (k, p) ↦ let below = minimum-le xs k q p in ground (arith, below)
]

All-counted : (m : ℕ) (xs : List ℕ) → ((q : ℕ) → 0 < count q xs → m ≤ q) → All (λ s. m ≤ s) xs
unfolding count
All-counted m [] h = tt
All-counted m (x ∷ xs) h = (h x (ground arith), All-counted m xs λ q l. h q (ground arith))

-- The watermark is at most the sequence number of every open snapshot, and it is one of these
-- numbers, or the greatest u64 if no snapshot is open.
pub watermark_lem :
    (t : SnapshotTracker)
    → All (λ s. watermark t ≤ s) t.active
      × ((0 < count (watermark t) t.active) ⊎ ((t.active ≡ []) × (watermark t ≡ u64_max)))
unfolding watermark
watermark_lem t = elim (Option-cases (minimum t.active)) [
  | inl n ↦
      let closed = minimum-none t.active n in
      (subst (All (λ s. watermark t ≤ s)) (sym closed) tt, inr (closed, rw (n, watermark)))
  | inr (m, e) ↦ (
    All-counted (watermark t) t.active λ q h. rw (e, watermark) (minimum-le t.active m q e h),
    inl (rw (e, watermark) (minimum_in t.active m e)),
  )
]
