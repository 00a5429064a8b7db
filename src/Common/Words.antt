-- ===== src/Common/Words.antt =====
-- Machine words as native numbers, and `to_le_bytes`, `from_le_bytes`, `to_be_bytes` and
-- `from_be_bytes` of Rust's integers, for any number of bytes `w`.
use Prim.Native.Nat.{ℕ, zero, suc, ◌+◌, ◌*◌, ◌/◌, ◌%◌, ◌^◌, ◌≤◌, ◌<◌}
use mathlib.Core.Path.{◌≡◌, refl, ap, ◌∙◌}
use mathlib.Core.List.{List, [], ◌∷◌, reverse, reverse-reverse}
use native.Mathlib.Omega.{arith}
use jadedb.Common.Lists.{length, All, length-reverse, All-reverse}

abbrev pub u32_max : ℕ
u32_max = 4294967295

abbrev pub u64_max : ℕ
u64_max = 18446744073709551615

abbrev pub IsU32 : ℕ → Type 0
IsU32 n = n ≤ u32_max

abbrev pub IsU64 : ℕ → Type 0
IsU64 n = n ≤ u64_max

abbrev pub IsByte : ℕ → Type 0
IsByte b = b < 256

abbrev pub IsBytes : List ℕ → Type 0
IsBytes bs = All IsByte bs

unfoldable pub to_le : ℕ → ℕ → List ℕ
to_le zero x = []
to_le (suc w) x = (x % 256) ∷ to_le w (x / 256)

unfoldable pub from_le : List ℕ → ℕ
from_le [] = 0
from_le (b ∷ bs) = b + 256 * from_le bs

unfoldable pub to_be : ℕ → ℕ → List ℕ
to_be w x = reverse (to_le w x)

unfoldable pub from_be : List ℕ → ℕ
from_be bs = from_le (reverse bs)

pub length-to_le : (w x : ℕ) → length (to_le w x) ≡ w
unfolding to_le
length-to_le zero x = refl
length-to_le (suc w) x = ap suc (length-to_le w (x / 256))

pub to_le-IsBytes : (w x : ℕ) → IsBytes (to_le w x)
unfolding to_le
to_le-IsBytes zero x = tt
to_le-IsBytes (suc w) x = (omega arith, to_le-IsBytes w (x / 256))

pow_step : (w : ℕ) → 256 ^ suc w ≡ 256 * 256 ^ w
pow_step w = grind arith

-- Reading back what was written, for every value that fits `w` bytes.
pub from_le-to_le : (w x : ℕ) → x < 256 ^ w → from_le (to_le w x) ≡ x
unfolding from_le to_le
from_le-to_le zero x h = omega arith
from_le-to_le (suc w) x h =
    let p = pow_step w in omega (arith, from_le-to_le w (x / 256) (omega arith))

pub length-to_be : (w x : ℕ) → length (to_be w x) ≡ w
unfolding to_be
length-to_be w x = length-reverse (to_le w x) ∙ length-to_le w x

pub to_be-IsBytes : (w x : ℕ) → IsBytes (to_be w x)
unfolding to_be
to_be-IsBytes w x = All-reverse IsByte (to_le w x) (to_le-IsBytes w x)

pub from_be-to_be : (w x : ℕ) → x < 256 ^ w → from_be (to_be w x) ≡ x
unfolding from_be to_be
from_be-to_be w x h = ap from_le (reverse-reverse (to_le w x)) ∙ from_le-to_le w x h

-- What is read is at most what the bytes can hold.
pub from_le-lt : (bs : List ℕ) → IsBytes bs → from_le bs < 256 ^ length bs
unfolding from_le
from_le-lt [] h = omega arith
from_le-lt (b ∷ bs) h =
    let p = pow_step (length bs) in let q = from_le-lt bs h.1 in omega (arith, h.0)

pub to_le-from_le : (bs : List ℕ) → IsBytes bs → to_le (length bs) (from_le bs) ≡ bs
unfolding from_le to_le
to_le-from_le [] h = refl
to_le-from_le (b ∷ bs) h =
    let low : (b + 256 * from_le bs) % 256 ≡ b = omega (arith, h.0) in
    let high : (b + 256 * from_le bs) / 256 ≡ from_le bs = omega (arith, h.0) in
    rw (low, high, to_le-from_le bs h.1)

-- Writing back what was read.
pub to_be-from_be : (w : ℕ) (bs : List ℕ) → IsBytes bs → length bs ≡ w → to_be w (from_be bs) ≡ bs
unfolding to_be from_be
to_be-from_be w bs h e =
    rw (← e, ← length-reverse bs, to_le-from_le (reverse bs) (All-reverse IsByte bs h))
      (reverse-reverse bs)

pub from_be-lt : (w : ℕ) (bs : List ℕ) → IsBytes bs → length bs ≡ w → from_be bs < 256 ^ w
unfolding from_be
from_be-lt w bs h e =
    rw (← e, ← length-reverse bs) (from_le-lt (reverse bs) (All-reverse IsByte bs h))
