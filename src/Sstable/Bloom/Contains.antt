-- ===== src/Sstable/Bloom/Contains.antt =====
-- A filter answers `true` for every key that it was built from, also after it was stored.
use Prim.Native.Nat.{bit_and}
use jadedb.Common.{Bool, false, ◌||◌}
use jadedb.Common.{
  ℕ, zero, suc, ◌+◌, ◌*◌, ◌/◌, ◌%◌, min, max, ◌≤◌, ◌<◌, ◌≡◌, refl, sym, subst, ◌∙◌, ◌==◌, true,
  false, arith, Bool-cases, inl, inr, ==_iff,
}
use jadedb.Common.{
  List, [], ◌∷◌, ◌++◌, length, replicate, length-replicate, All-replicate, get_elem?_lt, le→leb,
  All, All-of-splits,
}
use jadedb.Common.Words.{to_le, IsByte, IsBytes, IsU32, IsU64}
use jadedb.Common.Cursor.{At, At-start, At-read, At-length, At-drop, At-past, index_lem}
use jadedb.Common.Result.{ok}
use jadedb.Sstable.Bloom.{BloomFilter, mask, place, add_probes, check_probes, hash_pair}
use jadedb.Sstable.Bloom.{is_empty, add_keys, build, may_contain, encode, decode}
use jadedb.Sstable.Bloom.Bits.{
  test_bit, bit_at, bit_at_lem, Grows, Grows-refl, Grows-trans, set_bit_lem,
}

place-lt : (h1 h2 i nbits : ℕ) → 0 < nbits → place h1 h2 i nbits < nbits
unfolding place
place-lt h1 h2 i nbits h = omega arith

-- The probes `i` up to `i + n` of a key are set.
abbrev Probed : ℕ → ℕ → ℕ → ℕ → ℕ → List ℕ → Type 0
Probed h1 h2 nbits n i bits = (j : ℕ) → i ≤ j → j < i + n → bit_at bits (place h1 h2 j nbits) ≡ true

add_probes_lem :
    (h1 h2 nbits n i : ℕ) (bits : List ℕ)
    → IsBytes bits
    → 0 < nbits
    → nbits ≤ 8 * length bits
    → (bits' : List ℕ) × (add_probes h1 h2 nbits n i bits ≡ ok bits')
      × Grows bits bits'
      × Probed h1 h2 nbits n i bits'
unfolding add_probes
add_probes_lem h1 h2 nbits zero i bits bs pos fits =
    (bits, refl, Grows-refl bits bs, λ j lo hi. absurd (omega arith))
add_probes_lem h1 h2 nbits (suc n) i bits bs pos fits =
    let p = place h1 h2 i nbits in
    let inside : p / 8 < length bits = omega (arith, place-lt h1 h2 i nbits pos) in
    let (bits₁, e₁, g₁, t₁) = set_bit_lem bits p bs inside in
    let (bits₂, e₂, g₂, t₂) =
      add_probes_lem h1 h2 nbits n (i + 1) bits₁ g₁.bytes pos (omega (arith, g₁.same_length)) in
    (
      bits₂,
      rw e₁ e₂,
      Grows-trans bits bits₁ bits₂ g₁ g₂,
      λ j lo hi. elim (Bool-cases (j == i)) [
        | inl q ↦ g₂.keeps (place h1 h2 j nbits) (rw ((==_iff j i).0 q) t₁)
        | inr q ↦ t₂ j (ground arith) (omega arith)
      ],
    )

check_probes_lem :
    (h1 h2 nbits n i : ℕ) (bits : List ℕ)
    → 0 < nbits
    → nbits ≤ 8 * length bits
    → Probed h1 h2 nbits n i bits
    → check_probes h1 h2 nbits n i bits ≡ ok true
unfolding check_probes
check_probes_lem h1 h2 nbits zero i bits pos fits t = refl
check_probes_lem h1 h2 nbits (suc n) i bits pos fits t =
    let p = place h1 h2 i nbits in
    let (byte, e) = get_elem?_lt bits (p / 8) (omega (arith, place-lt h1 h2 i nbits pos)) in
    let here : test_bit byte (p % 8) ≡ true =
      sym (bit_at_lem bits p byte e) ∙ t i (omega arith) (omega arith) in
    let clear : (bit_and byte (mask (p % 8)) == 0) ≡ false = ground arith in
    rw (index_lem bits (p / 8) byte e, clear)
      (check_probes_lem h1 h2 nbits n (i + 1) bits pos fits
        (λ j lo hi. t j (omega arith) (omega arith)))

check_probes_total :
    (h1 h2 nbits n i : ℕ) (bits : List ℕ)
    → 0 < nbits
    → nbits ≤ 8 * length bits
    → (b : Bool) × (check_probes h1 h2 nbits n i bits ≡ ok b)
unfolding check_probes
check_probes_total h1 h2 nbits zero i bits pos fits = (true, refl)
check_probes_total h1 h2 nbits (suc n) i bits pos fits =
    let p = place h1 h2 i nbits in
    let (byte, e) = get_elem?_lt bits (p / 8) (omega (arith, place-lt h1 h2 i nbits pos)) in
    let (b, rest) = check_probes_total h1 h2 nbits n (i + 1) bits pos fits in
    elim (Bool-cases (bit_and byte (mask (p % 8)) == 0)) [
      | inl clear ↦ (false, rw (index_lem bits (p / 8) byte e, clear) refl)
      | inr set ↦ (b, rw (index_lem bits (p / 8) byte e, set) rest)
    ]

-- A filter has bits, and a byte for each of them.
pub record IsSized (f : BloomFilter) : Type 0 where
  pub some_bits : 0 < f.nbits
  pub enough : f.nbits ≤ 8 * length f.bits

-- What holds of `x` and of every member of `keys` holds of every member of `x ∷ keys`.
member-cons :
    (P : List ℕ → Type 0) (x : List ℕ) (keys : List (List ℕ))
    → P x
    → ((before after : List (List ℕ)) (key : List ℕ) → keys ≡ before ++ (key ∷ after) → P key)
    → (before after : List (List ℕ)) (key : List ℕ) → x ∷ keys ≡ before ++ (key ∷ after)
    → P key
member-cons P x keys p q [] after key e = subst P (ground arith) p
member-cons P x keys p q (b ∷ before) after key e = q before after key (ground arith)

module _ (crc32 : List ℕ → ℕ) where
  add_keys_lem :
      (nbits k : ℕ) (keys : List (List ℕ)) (bits : List ℕ)
      → IsBytes bits
      → 0 < nbits
      → nbits ≤ 8 * length bits
      → (bits' : List ℕ) × (add_keys crc32 nbits k keys bits ≡ ok bits')
        × Grows bits bits'
        × ((before after : List (List ℕ)) (key : List ℕ)
            → keys ≡ before ++ (key ∷ after)
            → Probed (hash_pair crc32 key).0 (hash_pair crc32 key).1 nbits k 0 bits')
  unfolding add_keys
  add_keys_lem nbits k [] bits bs pos fits =
      (bits, refl, Grows-refl bits bs, λ before after key e. absurd (not_nil before after key e))
    where
      not_nil : (before after : List (List ℕ)) (key : List ℕ) → ¬ ([] ≡ before ++ (key ∷ after))
      not_nil [] after key e = cc
      not_nil (b ∷ before) after key e = cc
  add_keys_lem nbits k (x ∷ keys) bits bs pos fits =
      let (h1, h2) = hash_pair crc32 x in
      let (bits₁, e₁, g₁, t₁) = add_probes_lem h1 h2 nbits k 0 bits bs pos fits in
      let (bits₂, e₂, g₂, t₂) =
        add_keys_lem nbits k keys bits₁ g₁.bytes pos (omega (arith, g₁.same_length)) in
      (
        bits₂,
        rw e₁ e₂,
        Grows-trans bits bits₁ bits₂ g₁ g₂,
        member-cons (λ key. Probed (hash_pair crc32 key).0 (hash_pair crc32 key).1 nbits k 0 bits₂)
            x keys (λ j lo hi. g₂.keeps (place h1 h2 j nbits) (t₁ j lo hi)) t₂,
      )

  may_contain_total :
      (f : BloomFilter) → IsSized f → (key : List ℕ) → (b : Bool) × (may_contain crc32 f key ≡ ok b)
  unfolding may_contain
  may_contain_total f h key =
      let (h1, h2) = hash_pair crc32 key in
      let (b, e) = check_probes_total h1 h2 f.nbits f.k 0 f.bits h.some_bits h.enough in
      elim (Bool-cases (is_empty f.bits || f.nbits == 0)) [
        | inl open_end ↦ (true, rw open_end refl)
        | inr checked ↦ (b, rw checked e)
      ]

  built :
      (probes_of : ℕ → ℕ) (keys : List (List ℕ)) (bits_per_key : ℕ)
      → (f : BloomFilter) × (build crc32 probes_of keys bits_per_key ≡ ok f)
        × ((before after : List (List ℕ)) (key : List ℕ)
            → keys ≡ before ++ (key ∷ after)
            → may_contain crc32 f key ≡ ok true)
        × IsSized f
        × (f.k ≤ 30)
  unfolding build may_contain
  built probes_of keys bits_per_key =
      let per_key = max bits_per_key 1 in
      let nbits = max (length keys * per_key) 64 in
      let k = min (max (probes_of per_key) 1) 30 in
      let bits : List ℕ = replicate ((nbits + 7) / 8) 0 in
      let size = length-replicate {A = ℕ} ((nbits + 7) / 8) 0 in
      let pos : 0 < nbits = omega arith in
      let fits : nbits ≤ 8 * length bits = omega (arith, size) in
      let (bits', e, g, t) =
        add_keys_lem nbits k keys bits (All-replicate IsByte ((nbits + 7) / 8) 0 (omega arith)) pos
          fits in
      (
        record { bits = bits'; nbits = nbits; k = k },
        rw e,
        λ before after key m.
            answers bits' nbits k key pos (omega (arith, g.same_length)) (t before after key m),
        record { some_bits = pos; enough = omega (arith, g.same_length, fits) },
        omega arith,
      )
    where
      answers :
          (bits : List ℕ) (nbits k : ℕ) (key : List ℕ)
          → 0 < nbits
          → nbits ≤ 8 * length bits
          → Probed (hash_pair crc32 key).0 (hash_pair crc32 key).1 nbits k 0 bits
          → may_contain crc32 (record { bits = bits; nbits = nbits; k = k }) key ≡ ok true
      answers bits nbits k key pos fits t =
          let checked =
            check_probes_lem (hash_pair crc32 key).0 (hash_pair crc32 key).1 nbits k 0 bits pos fits
              t in
          ground (arith, checked)

  -- Building a filter succeeds, and the filter answers `true` for each of its keys.
  pub no_false_negative :
      (probes_of : ℕ → ℕ) (keys : List (List ℕ)) (bits_per_key : ℕ)
      → (f : BloomFilter) × (build crc32 probes_of keys bits_per_key ≡ ok f)
        × All (λ key. may_contain crc32 f key ≡ ok true) keys
  no_false_negative probes_of keys bits_per_key =
      let (f, e, answers, sized, k) = built probes_of keys bits_per_key in
      (f, e, All-of-splits _ keys answers)

  -- A filter that was built answers every key, and its numbers are those it was built with.
  pub build_lem :
      (probes_of : ℕ → ℕ) (keys : List (List ℕ)) (bits_per_key : ℕ) (f : BloomFilter)
      → build crc32 probes_of keys bits_per_key ≡ ok f
      → All (λ key. may_contain crc32 f key ≡ ok true) keys
        × ((key : List ℕ) → (b : Bool) × (may_contain crc32 f key ≡ ok b))
        × IsSized f
        × (f.k ≤ 30)
  build_lem probes_of keys bits_per_key f e =
      let (f', e', answers, sized, k) = built probes_of keys bits_per_key in
      let same : f' ≡ f = ground arith in
      subst
        (λ f''.
          All (λ key. may_contain crc32 f'' key ≡ ok true) keys
          × ((key : List ℕ) → (b : Bool) × (may_contain crc32 f'' key ≡ ok b))
          × IsSized f''
          × (f''.k ≤ 30))
        same (All-of-splits _ keys answers, may_contain_total f' sized, sized, k)

-- Reading back a stored filter gives the filter, if its numbers of probes and of bits fit a u32
-- and a u64.
pub decode-encode_filter : (f : BloomFilter) → IsU32 f.k → IsU64 f.nbits → decode (encode f) ≡ ok f
unfolding decode encode
decode-encode_filter f hk hn =
    let bytes = to_le 4 f.k ++ (to_le 8 f.nbits ++ f.bits) in
    let c0 : At bytes 0 bytes = At-start bytes in
    let c1 = At-past 4 f.k (to_le 8 f.nbits ++ f.bits) c0 in
    let c2 = At-past 8 f.nbits f.bits c1 in
    rw (
      le→leb 12 (length bytes) (omega (arith, At-length c2)),
      At-read 4 f.k _ c0 (omega arith),
      At-read 8 f.nbits _ c1 (omega arith),
      At-drop c2,
    )
