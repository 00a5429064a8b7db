-- ===== src/Common/BTreeMap.antt =====
-- `std::collections::BTreeMap` as the list of its entries in the order of the keys.
use Prim.Native.Nat.{Ordering}
use Prim.Native.Nat.Ordering.{lt, eq, gt}
use mathlib.Core.Path.{◌≡◌}
use mathlib.Core.Bool.{false}
use mathlib.Core.List.{List, [], ◌∷◌}
use native.Mathlib.Omega.{arith}
use jadedb.Common.Tests.{if◌then◌else◌}
use jadedb.Common.Lists.{All}
use jadedb.Common.Order.{IsOrder, is_lt}

module _ {ℓ κ} {K : Type ℓ} {V : Type κ} (cmp : K → K → Ordering) where
  -- The key of an equal entry stays, its value is replaced.
  unfoldable pub insert : K → V → List (K × V) → List (K × V)
  insert k v [] = (k, v) ∷ []
  insert k v ((j, w) ∷ m) =
      let rest = insert k v m in
      elim (cmp k j) [ lt ↦ (k, v) ∷ (j, w) ∷ m | eq ↦ (j, v) ∷ m | gt ↦ (j, w) ∷ rest ]

  -- `map.range(start..)`
  unfoldable pub range_from : K → List (K × V) → List (K × V)
  range_from start [] = []
  range_from start ((j, w) ∷ m) =
      let rest = range_from start m in if is_lt (cmp j start) then rest else (j, w) ∷ rest

  -- `k` comes before every key of the list.
  abbrev pub Before : K → List (K × V) → Type 0
  Before k m = All (λ e. cmp k e.0 ≡ lt) m

  abbrev pub IsSorted : List (K × V) → Type 0
  IsSorted [] = Unit
  IsSorted ((k, v) ∷ m) = Before k m × IsSorted m

  pub All-insert {μ} :
      (P : K × V → Type μ) (k : K) (v : V) (m : List (K × V))
      → ((w : V) → P (k, w))
      → ((j : K) (w : V) → P (j, w) → P (j, v))
      → All P m
      → All P (insert k v m)
  unfolding insert
  All-insert P k v [] new same h = (new v, tt)
  All-insert P k v ((j, w) ∷ m) new same h =
      let rest = All-insert P k v m new same h.1 in ground (arith, rest, new v, same j w)

  pub All-range_from {μ} :
      (P : K × V → Type μ) (start : K) (m : List (K × V)) → All P m → All P (range_from start m)
  unfolding range_from
  All-range_from P start [] h = tt
  All-range_from P start ((j, w) ∷ m) h = ground (arith, All-range_from P start m h.1)

module _ {ℓ κ} {K : Type ℓ} {V : Type κ} (cmp : K → K → Ordering) (o : IsOrder cmp) where
  Before-trans : (k j : K) (m : List (K × V)) → cmp k j ≡ lt → Before cmp j m → Before cmp k m
  Before-trans k j [] h b = tt
  Before-trans k j ((i, w) ∷ m) h b = (o.cmp_trans k j i h b.0, Before-trans k j m h b.1)

  -- `insert` keeps the entries in the order of their keys.
  pub insert-IsSorted :
      (k : K) (v : V) (m : List (K × V)) → IsSorted cmp m → IsSorted cmp (insert cmp k v m)
  unfolding insert
  insert-IsSorted k v [] s = (tt, tt)
  insert-IsSorted k v ((j, w) ∷ m) s = ground (
    arith,
    Before-trans k j m,
    insert-IsSorted k v m s.1,
    All-insert cmp (λ e. cmp j e.0 ≡ lt) k v m,
    o.cmp_swap k j,
  )

  pub range_from-IsSorted :
      (start : K) (m : List (K × V)) → IsSorted cmp m → IsSorted cmp (range_from cmp start m)
  unfolding range_from
  range_from-IsSorted start [] s = tt
  range_from-IsSorted start ((j, w) ∷ m) s =
      ground (
        arith,
        range_from-IsSorted start m s.1,
        All-range_from cmp (λ e. cmp j e.0 ≡ lt) start m s.0,
      )

  pub range_from-ge :
      (start : K) (m : List (K × V))
      → All (λ e. is_lt (cmp e.0 start) ≡ false) (range_from cmp start m)
  unfolding range_from
  range_from-ge start [] = tt
  range_from-ge start ((j, w) ∷ m) = ground (arith, range_from-ge start m)
