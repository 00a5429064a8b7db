-- ===== src/Common/Result.antt =====
-- src/error.rs: the errors, and results that may also be a panic of the Rust runtime.
use Prim.Native.Nat.{ℕ, ◌+◌}
use Prim.Native.String.{String}
use mathlib.Core.Path.{◌≡◌, refl}
use mathlib.Core.Logic.{◌≢◌, ◌⊎◌, inl, inr}
use mathlib.Core.Bool.{Bool, true, false}
use mathlib.Core.Option.{Option, none, some}
use mathlib.Core.List.{List}
use jadedb.Common.Tests.{leb, if◌then◌else◌}
use jadedb.Common.Lists.{length, take, drop}

-- A message is its format string and the numbers that are put in.
pub data Error : Type 0 where
  io : String → Error
  corruption : String → List ℕ → Error
  invalid_argument : String → Error
  closed : Error

-- `Result<T, Error>`; `panic` is the outcome of an index or a slice out of bounds.
pub data Result {ℓ} (A : Type ℓ) : Type ℓ where
  ok : A → Result A
  err : Error → Result A
  panic : Result A

-- `if !test { return Err(error) }`
abbrev pub guard : Bool → Error → Result (Unit {0})
guard false error = err error
guard true _ = ok tt

-- the operator `?`: go on with a value, or return the error
infixl 5 ◌>>=◌
abbrev pub ◌>>=◌ {ℓ κ} : {T : Type ℓ} {U : Type κ} → Result T → (T → Result U) → Result U
panic >>= next = panic
err error >>= next = err error
ok value >>= next = next value

infixl 5 ◌>>◌
abbrev pub ◌>>◌ {ℓ} : {U : Type ℓ} → Result (Unit {0}) → Result U → Result U
first >> second = first >>= λ _. second

-- `&data[o..o + n]`
unfoldable pub slice : List ℕ → ℕ → ℕ → Result (List ℕ)
slice xs o n = if leb (o + n) (length xs) then ok (take n (drop o xs)) else panic

-- `option.ok_or(e)`
abbrev pub ok_or {ℓ} : {A : Type ℓ} → Option A → Error → Result A
ok_or none e = err e
ok_or (some a) e = ok a

pub bind_assoc {ℓ κ μ} :
    {A : Type ℓ} {B : Type κ} {C : Type μ} (m : Result A) (f : A → Result B) (g : B → Result C)
    → (m >>= f >>= g) ≡ (m >>= λ a. f a >>= g)
bind_assoc (ok a) f g = refl
bind_assoc (err e) f g = refl
bind_assoc panic f g = refl

-- Inversion of a successful bind.
pub >>=-eq-ok {ℓ κ} :
    {T : Type ℓ} {U : Type κ} (first : Result T) (next : T → Result U) {u : U}
    → (first >>= next) ≡ ok u
    → (t : T) × (first ≡ ok t) × (next t ≡ ok u)
>>=-eq-ok panic next h = cc
>>=-eq-ok (err error) next h = cc
>>=-eq-ok (ok t) next h = (t, refl, h)

-- A chain does not panic if its parts do not.
pub >>=-ne-panic {ℓ κ} :
    {A : Type ℓ} {B : Type κ} (m : Result A) (f : A → Result B)
    → m ≢ panic
    → ((a : A) → m ≡ ok a → f a ≢ panic)
    → (m >>= f) ≢ panic
>>=-ne-panic (ok a) f h k = k a refl
>>=-ne-panic (err e) f h k = λ p. cc
>>=-ne-panic panic f h k = absurd (h refl)

pub guard-ne-panic {ℓ} :
    {B : Type ℓ} (b : Bool) (e : Error) (k : Result B)
    → (b ≡ true → k ≢ panic)
    → (guard b e >> k) ≢ panic
guard-ne-panic true e k h = h refl
guard-ne-panic false e k h = λ p. cc

pub ok_or-ne-panic {ℓ κ} :
    {A : Type ℓ} {B : Type κ} (o : Option A) (e : Error) (f : A → Result B)
    → ((a : A) → f a ≢ panic)
    → (ok_or o e >>= f) ≢ panic
ok_or-ne-panic none e f h = λ p. cc
ok_or-ne-panic (some a) e f h = h a

pub ok-ne-panic {ℓ} : {A : Type ℓ} (a : A) → ok a ≢ panic
ok-ne-panic a p = cc

pub Result-cases {ℓ} :
    {A : Type ℓ} (m : Result A)
    → ((a : A) × (m ≡ ok a)) ⊎ (((e : Error) × (m ≡ err e)) ⊎ (m ≡ panic))
Result-cases (ok a) = inl (a, refl)
Result-cases (err e) = inr (inl (e, refl))
Result-cases panic = inr (inr refl)
