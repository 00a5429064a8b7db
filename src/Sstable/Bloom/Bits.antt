-- ===== src/Sstable/Bloom/Bits.antt =====
-- Setting a bit of the filter: the bit is set, and no other bit is cleared.
use Prim.Native.Nat.{bit_and, bit_or}
use jadedb.Common.{
  ℕ, zero, suc, ◌/◌, ◌%◌, ◌<◌, ◌≡◌, refl, sym, ap, ◌∙◌, ◌==◌, ltb, All-set, All-get_elem?,
  get_elem?_lt, get_elem?-set_self, get_elem?-set_ne, Bool-cases, inl, inr, Bool, true, false, not,
  ◌&&◌, ◌||◌,
}
use jadedb.Common.{List, length, get_elem?, set, length-set, none, some, arith, ==_iff}
use jadedb.Common.Words.{IsByte, IsBytes}
use jadedb.Common.Cursor.{index_lem}
use jadedb.Common.Result.{ok}
use jadedb.Sstable.Bloom.{mask, set_bit}

-- A test of all numbers below a bound.
holds_below : (ℕ → Bool) → ℕ → Bool
holds_below test zero = true
holds_below test (suc bound) = holds_below test bound && test bound

holds_below_sound :
    (test : ℕ → Bool) (bound : ℕ)
    → holds_below test bound ≡ true
    → (i : ℕ) → i < bound
    → test i ≡ true
unfolding holds_below
holds_below_sound test zero h i below = absurd (omega arith)
holds_below_sound test (suc bound) h i below =
    let halves : (holds_below test bound ≡ true) × (test bound ≡ true) = ground arith in
    let smaller = holds_below_sound test bound halves.0 i in ground (arith, smaller)

-- bit `j` of a byte
abbrev pub test_bit : ℕ → ℕ → Bool
test_bit byte j = not (bit_and byte (mask j) == 0)

-- For one byte and two bits: `|` sets the one, keeps the other, and gives a byte.
abbrev sets : ℕ → ℕ → ℕ → Bool
sets byte i j =
    test_bit (bit_or byte (mask i)) i
    && (not (test_bit byte j) || test_bit (bit_or byte (mask i)) j)
    && ltb (bit_or byte (mask i)) 256

set_table : holds_below (λ b. holds_below (λ i. holds_below (λ j. sets b i j) 8) 8) 256 ≡ true
unfolding holds_below
set_table = refl

set_byte : (byte i j : ℕ) → byte < 256 → i < 8 → j < 8 → sets byte i j ≡ true
set_byte byte i j hb hi hj =
    let at_byte =
      holds_below_sound (λ b. holds_below (λ i. holds_below (λ j. sets b i j) 8) 8) 256 set_table
        byte hb in
    let at_bit = holds_below_sound (λ i. holds_below (λ j. sets byte i j) 8) 8 at_byte i hi in
    holds_below_sound (λ j. sets byte i j) 8 at_bit j hj

-- bit `h` of the filter
unfoldable pub bit_at : List ℕ → ℕ → Bool
bit_at bits h = elim (get_elem? bits (h / 8)) [ none ↦ false | some byte ↦ test_bit byte (h % 8) ]

-- What a write to the filter keeps: its size, its bytes, and every bit that is set.
pub record Grows (bits bits' : List ℕ) : Type 0 where
  pub same_length : length bits' ≡ length bits
  pub bytes : IsBytes bits'
  pub keeps : (j : ℕ) → bit_at bits j ≡ true → bit_at bits' j ≡ true

pub Grows-refl : (bits : List ℕ) → IsBytes bits → Grows bits bits
Grows-refl bits h = record { same_length = refl; bytes = h; keeps = λ j b. b }

pub Grows-trans : (a b c : List ℕ) → Grows a b → Grows b c → Grows a c
Grows-trans a b c g k = record {
  same_length = k.same_length ∙ g.same_length;
  bytes = k.bytes;
  keeps = λ j t. k.keeps j (g.keeps j t);
}

pub bit_at_lem :
    (bits : List ℕ) (h byte : ℕ)
    → get_elem? bits (h / 8) ≡ some byte
    → bit_at bits h ≡ test_bit byte (h % 8)
unfolding bit_at
bit_at_lem bits h byte e = rw (e, bit_at)

set_facts :
    (byte i j : ℕ)
    → byte < 256
    → i < 8
    → j < 8
    → (test_bit (bit_or byte (mask i)) i ≡ true)
      × (test_bit byte j ≡ true → test_bit (bit_or byte (mask i)) j ≡ true)
      × (bit_or byte (mask i) < 256)
set_facts byte i j hb hi hj = let s = set_byte byte i j hb hi hj in ground (arith, s)

set-keeps :
    (bits : List ℕ) (h j byte : ℕ)
    → byte < 256
    → get_elem? bits (h / 8) ≡ some byte
    → h / 8 < length bits
    → bit_at bits j ≡ true
    → bit_at (set bits (h / 8) (bit_or byte (mask (h % 8)))) j ≡ true
set-keeps bits h j byte small e l t =
    let byte' = bit_or byte (mask (h % 8)) in
    elim (Bool-cases (h / 8 == j / 8)) [
      | inl q ↦
          let same : h / 8 ≡ j / 8 = (==_iff _ _).0 q in
          let old = bit_at_lem bits j byte (ap (get_elem? bits) (sym same) ∙ e) in
          let new = bit_at_lem (set bits (h / 8) byte') j byte' (
            ap (get_elem? (set bits (h / 8) byte')) (sym same)
            ∙ get_elem?-set_self bits (h / 8) byte' l) in
          new ∙ (set_facts byte (h % 8) (j % 8) small (omega arith) (omega arith)).1 (sym old ∙ t)
      | inr q ↦
          let other = get_elem?-set_ne bits (h / 8) (j / 8) byte' (ground arith) in
          unfold bit_at in rw (other, bit_at) t
    ]

-- Setting a bit within the filter succeeds, sets the bit, and keeps all others that are set.
pub set_bit_lem :
    (bits : List ℕ) (h : ℕ)
    → IsBytes bits
    → h / 8 < length bits
    → (bits' : List ℕ) × (set_bit bits h ≡ ok bits') × Grows bits bits' × (bit_at bits' h ≡ true)
unfolding set_bit
set_bit_lem bits h bs l =
    let (byte, e) = get_elem?_lt bits (h / 8) l in
    let small : byte < 256 = All-get_elem? IsByte bits (h / 8) byte bs e in
    let byte' = bit_or byte (mask (h % 8)) in
    let (sets_it, _, byte_small) = set_facts byte (h % 8) 0 small (omega arith) (omega arith) in
    (
      set bits (h / 8) byte',
      rw (index_lem bits (h / 8) byte e),
      record {
        same_length = length-set bits (h / 8) byte';
        bytes = All-set IsByte bits (h / 8) byte' byte_small bs;
        keeps = λ j. set-keeps bits h j byte small e l;
      },
      bit_at_lem (set bits (h / 8) byte') h byte' (get_elem?-set_self bits (h / 8) byte' l)
          ∙ sets_it,
    )
