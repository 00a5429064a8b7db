-- ===== src/Common/Cursor.antt =====
-- A decoder that walks a buffer: what is left to read at an offset, and the reads that it allows.
use Prim.Native.Nat.{ℕ, ◌+◌, ◌^◌, ◌≤◌, ◌<◌}
use mathlib.Core.Path.{◌≡◌, refl, sym, ap, ◌∙◌, subst}
use mathlib.Core.List.{List, [], ◌++◌, append_assoc, append-nil}
use native.Mathlib.Omega.{arith}
use jadedb.Common.Tests.{le→leb}
use mathlib.Core.Option.{none, some}
use mathlib.Core.List.{◌∷◌}
use Prim.Native.Nat.{zero, suc}
use jadedb.Common.Lists.{drop, get_elem?, length, length-append, take-append, drop-append}
use jadedb.Common.Words.{to_le, from_le, length-to_le, from_le-to_le}
use jadedb.Common.Result.{Error, Result, ok, err, panic, ◌>>=◌, slice}
use mathlib.Core.Logic.{◌≢◌}

-- `rest` is what `buf` holds from offset `o` on.
pub record At (buf : List ℕ) (o : ℕ) (rest : List ℕ) : Type 0 where
  pub front : List ℕ
  pub split : buf ≡ front ++ rest
  pub reached : length front ≡ o

-- `uN::from_le_bytes(buf[o..o + w].try_into().unwrap())`
unfoldable pub read_le : ℕ → List ℕ → ℕ → Result ℕ
read_le w buf o = do bytes ← slice buf o w; ok (from_le bytes)

module _ {buf : List ℕ} {o : ℕ} where
  pub At-length : {rest : List ℕ} → At buf o rest → length buf ≡ o + length rest
  At-length {rest} c = ap length c.split ∙ omega (arith, length-append c.front rest, c.reached)

  -- Reading `a` leaves the rest.
  pub At-skip :
      (a rest : List ℕ) (n : ℕ) → At buf o (a ++ rest) → length a ≡ n → At buf (o + n) rest
  At-skip a rest n c e = record {
    front = c.front ++ a;
    split = c.split ∙ sym (append_assoc c.front a rest);
    reached = omega (arith, length-append c.front a, c.reached);
  }

  pub At-slice :
      (a rest : List ℕ) (n : ℕ) → At buf o (a ++ rest) → length a ≡ n → slice buf o n ≡ ok a
  unfolding slice
  At-slice a rest n c e =
      let within : o + n ≤ length buf = omega (arith, At-length c, length-append a rest) in
      rw (le→leb _ _ within, c.split, ← c.reached, ← e, drop-append, take-append)

  pub At-read :
      (w x : ℕ) (rest : List ℕ)
      → At buf o (to_le w x ++ rest)
      → x < 256 ^ w
      → read_le w buf o ≡ ok x
  unfolding read_le
  At-read w x rest c h =
      rw (At-slice (to_le w x) rest w c (length-to_le w x)) (ap ok (from_le-to_le w x h))

  pub At-past : (w x : ℕ) (rest : List ℕ) → At buf o (to_le w x ++ rest) → At buf (o + w) rest
  At-past w x rest c = At-skip (to_le w x) rest w c (length-to_le w x)

pub At-start : (buf : List ℕ) → At buf 0 buf
At-start buf = record { front = []; split = refl; reached = refl }

-- Reading all that is left.
pub At-slice_end :
    {buf : List ℕ} {o : ℕ} {a : List ℕ} (n : ℕ) → At buf o a → length a ≡ n → slice buf o n ≡ ok a
At-slice_end {buf} {o} {a} n c e = At-slice a [] n (subst (At buf o) (sym (append-nil a)) c) e

pub slice-ne-panic : (buf : List ℕ) (o n : ℕ) → o + n ≤ length buf → slice buf o n ≢ panic
unfolding slice
slice-ne-panic buf o n h = rw (le→leb _ _ h) (λ p. cc)

pub read_le-ne-panic : (w : ℕ) (buf : List ℕ) (o : ℕ) → o + w ≤ length buf → read_le w buf o ≢ panic
unfolding read_le slice
read_le-ne-panic w buf o h = rw (le→leb _ _ h) (λ p. cc)

-- `buf[o]`
unfoldable pub index : List ℕ → ℕ → Result ℕ
index buf o = elim (get_elem? buf o) [ none ↦ panic | some b ↦ ok b ]

get_elem?-append :
    (front : List ℕ) (b : ℕ) (rest : List ℕ)
    → get_elem? (front ++ (b ∷ rest)) (length front) ≡ some b
get_elem?-append [] b rest = refl
get_elem?-append (x ∷ front) b rest = get_elem?-append front b rest

pub At-index :
    {buf : List ℕ} {o : ℕ} (b : ℕ) (rest : List ℕ) → At buf o (b ∷ rest) → index buf o ≡ ok b
unfolding index
At-index b rest c = rw (c.split, ← c.reached, index, get_elem?-append c.front b rest)

get_elem?-ne-none : (buf : List ℕ) (o : ℕ) → o < length buf → get_elem? buf o ≢ none
get_elem?-ne-none [] o h = absurd (omega arith)
get_elem?-ne-none (x ∷ buf) zero h = λ p. cc
get_elem?-ne-none (x ∷ buf) (suc o) h = get_elem?-ne-none buf o (omega arith)

pub index-ne-panic : (buf : List ℕ) (o : ℕ) → o < length buf → index buf o ≢ panic
unfolding index
index-ne-panic buf o h = ground (arith, get_elem?-ne-none buf o h)

pub read_le_short : (w : ℕ) (buf : List ℕ) (o : ℕ) → length buf < o + w → read_le w buf o ≡ panic
unfolding read_le slice
read_le_short w buf o h = ground arith

pub read_le-ne-err : (w : ℕ) (buf : List ℕ) (o : ℕ) (e : Error) → read_le w buf o ≢ err e
unfolding read_le slice
read_le-ne-err w buf o e = ground arith

pub index_lem : (buf : List ℕ) (o b : ℕ) → get_elem? buf o ≡ some b → index buf o ≡ ok b
unfolding index
index_lem buf o b e = rw (e, index)

-- `buf[o..]`
pub At-drop : {buf : List ℕ} {o : ℕ} {rest : List ℕ} → At buf o rest → drop o buf ≡ rest
At-drop {rest = rest} c = rw (c.split, ← c.reached) (drop-append c.front rest)
