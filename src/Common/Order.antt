-- ===== src/Common/Order.antt =====
-- `std::cmp::Ordering`, the laws that the trait `Ord` asks of `cmp`, and the order of byte slices.
use Prim.Native.Nat.{ℕ, compare, Ordering}
use Prim.Native.Nat.Ordering.{lt, eq, gt}
use mathlib.Core.Path.{◌≡◌, refl}
use mathlib.Core.Bool.{Bool, true, false}
use mathlib.Core.List.{List, [], ◌∷◌}
use native.Mathlib.Omega.{arith}

-- `Ordering::reverse`
abbrev pub flip : Ordering → Ordering
flip lt = gt
flip eq = eq
flip gt = lt

-- `match first { Equal => second, o => o }`
abbrev pub then_cmp : Ordering → Ordering → Ordering
then_cmp lt second = lt
then_cmp eq second = second
then_cmp gt second = gt

abbrev pub is_lt : Ordering → Bool
is_lt lt = true
is_lt eq = false
is_lt gt = false

abbrev pub is_eq : Ordering → Bool
is_eq lt = false
is_eq eq = true
is_eq gt = false

pub record IsOrder {ℓ} {K : Type ℓ} (cmp : K → K → Ordering) : Type ℓ where
  pub cmp_swap : (j k : K) → cmp k j ≡ flip (cmp j k)
  pub eq_of_cmp : (j k : K) → cmp j k ≡ eq → j ≡ k
  pub cmp_refl : (k : K) → cmp k k ≡ eq
  pub cmp_trans : (i j k : K) → cmp i j ≡ lt → cmp j k ≡ lt → cmp i k ≡ lt

pub compare-IsOrder : IsOrder compare
compare-IsOrder = ground arith

-- `<[u8] as Ord>::cmp`: the first difference decides, and a proper prefix is less.
unfoldable pub bytes_cmp : List ℕ → List ℕ → Ordering
bytes_cmp [] [] = eq
bytes_cmp [] (y ∷ ys) = lt
bytes_cmp (x ∷ xs) [] = gt
bytes_cmp (x ∷ xs) (y ∷ ys) = then_cmp (compare x y) (bytes_cmp xs ys)

-- `a == b` on byte slices, as `Ord` and `Eq` agree on them
abbrev pub bytes_eq : List ℕ → List ℕ → Bool
bytes_eq a b = is_eq (bytes_cmp a b)

pub bytes_cmp_refl : (a : List ℕ) → bytes_cmp a a ≡ eq
unfolding bytes_cmp
bytes_cmp_refl [] = refl
bytes_cmp_refl (x ∷ xs) = ground (arith, bytes_cmp_refl xs)

pub eq_of_bytes_cmp : (a b : List ℕ) → bytes_cmp a b ≡ eq → a ≡ b
unfolding bytes_cmp
eq_of_bytes_cmp [] [] h = refl
eq_of_bytes_cmp [] (y ∷ ys) h = cc
eq_of_bytes_cmp (x ∷ xs) [] h = cc
eq_of_bytes_cmp (x ∷ xs) (y ∷ ys) h = ground (arith, eq_of_bytes_cmp xs ys)

pub bytes_cmp_swap : (a b : List ℕ) → bytes_cmp b a ≡ flip (bytes_cmp a b)
unfolding bytes_cmp
bytes_cmp_swap [] [] = refl
bytes_cmp_swap [] (y ∷ ys) = refl
bytes_cmp_swap (x ∷ xs) [] = refl
bytes_cmp_swap (x ∷ xs) (y ∷ ys) = ground (arith, bytes_cmp_swap xs ys)

pub bytes_cmp_trans :
    (a b c : List ℕ) → bytes_cmp a b ≡ lt → bytes_cmp b c ≡ lt → bytes_cmp a c ≡ lt
unfolding bytes_cmp
bytes_cmp_trans [] [] c h k = cc
bytes_cmp_trans [] (y ∷ ys) [] h k = cc
bytes_cmp_trans [] (y ∷ ys) (z ∷ zs) h k = refl
bytes_cmp_trans (x ∷ xs) [] c h k = cc
bytes_cmp_trans (x ∷ xs) (y ∷ ys) [] h k = cc
bytes_cmp_trans (x ∷ xs) (y ∷ ys) (z ∷ zs) h k = ground (arith, bytes_cmp_trans xs ys zs)

pub bytes_cmp-IsOrder : IsOrder bytes_cmp
bytes_cmp-IsOrder = record {
  cmp_refl = bytes_cmp_refl;
  eq_of_cmp = eq_of_bytes_cmp;
  cmp_swap = bytes_cmp_swap;
  cmp_trans = bytes_cmp_trans;
}

pub bytes_eq_refl : (a : List ℕ) → bytes_eq a a ≡ true
bytes_eq_refl a = rw (bytes_cmp_refl a)

pub bytes_eq→≡ : (a b : List ℕ) → bytes_eq a b ≡ true → a ≡ b
bytes_eq→≡ a b h = ground (arith, eq_of_bytes_cmp a b)
