-- ===== src/Compat/HashValue/Bits.antt =====
-- The bits of a hash: `bit`, and the iterator from its start, give those of its bytes in order.
use libra_v.Prelude.{
  ℕ, zero, suc, ◌+◌, ◌-◌, ◌/◌, ◌%◌, ◌^◌, ◌≤◌, ◌<◌, ◌≡◌, refl, sym, ap, subst, inl, inr, List, [],
  ◌∷◌, Bytes, none, some, length, get_elem?, drop, arith, ltb, ltb→lt, lt→ltb, ◌==◌, ok, Bool-cases,
}
use Prim.Native.Nat.{bit_and}
use libra_v.Prelude.Bits.{bits_of, bit_of, drop-bits_of, length-bits_of, bit_and-mask}
use libra_v.Compat.HashValue.{HashValueV5, IsHash, low_bit, bit, byte_at}
use libra_v.Compat.HashValue.Iterator.{HashValueBitIterator, iter_bits, get_bit, next, collect}

low_bit-odd : (v : ℕ) → low_bit v ≡ (v % 2 == 1)
low_bit-odd v = let masked : bit_and v 1 ≡ v % 2 = bit_and-mask 1 v in rw masked (ground arith)

byte_within : (bytes : Bytes) (i : ℕ) → i < length bytes → (b : ℕ) × (get_elem? bytes i ≡ some b)
byte_within [] i h = absurd (omega arith)
byte_within (b ∷ bytes) zero h = (b, refl)
byte_within (b ∷ bytes) (suc i) h = byte_within bytes i (omega arith)

drop_all : {A : Type 0} → (i : ℕ) (xs : List A) → length xs ≤ i → drop i xs ≡ []
drop_all zero [] h = refl
drop_all (suc i) [] h = refl
drop_all zero (x ∷ xs) h = absurd (omega arith)
drop_all (suc i) (x ∷ xs) h = drop_all i xs (omega arith)

-- The iterator over a hash after `i` items.
abbrev pub at : HashValueV5 → ℕ → HashValueBitIterator
at h i = record { hash_bytes = h.hash; start = i; end = 256 }

module _ (h : HashValueV5) (w : IsHash h) where
  pub byte_of : (i : ℕ) → i < 256 → (b : ℕ) × (get_elem? h.hash (i / 8) ≡ some b)
  byte_of i hi = byte_within h.hash (i / 8) (omega (arith, w.length_law))

  get_bit-at :
      (i j b : ℕ)
      → j < 256
      → get_elem? h.hash (j / 8) ≡ some b
      → get_bit (at h i) j ≡ ok (bit_of b j)
  unfolding get_bit
  get_bit-at i j b hj found =
      rw (lt→ltb j 256 hj, w.length_law, found, low_bit-odd (b / 2 ^ (7 - j % 8)), get_bit) refl

  pub next-at :
      (i b : ℕ)
      → i < 256
      → get_elem? h.hash (i / 8) ≡ some b
      → next (at h i) ≡ ok (some (bit_of b i), at h (i + 1))
  unfolding next
  next-at i b hi found = rw (lt→ltb i 256 hi, get_bit-at (i + 1) i b hi found, next) refl

  pub next-end : next (at h 256) ≡ ok (none, at h 256)
  unfolding next
  next-end = refl

  byte_at-some : (i b : ℕ) → get_elem? h.hash i ≡ some b → byte_at h.hash i ≡ ok b
  byte_at-some i b found = rw (found, byte_at) refl

  pub bit-bit_of :
      (i b : ℕ) → i < 256 → get_elem? h.hash (i / 8) ≡ some b → bit h i ≡ ok (bit_of b i)
  unfolding bit
  bit-bit_of i b hi found =
      rw (lt→ltb i 256 hi, byte_at-some (i / 8) b found, bit)
        (ap ok (low_bit-odd (b / 2 ^ (7 - i % 8))))

  -- The bits from `i` on, by the bit `i` and the rest.
  pub drop-at :
      (i b : ℕ)
      → get_elem? h.hash (i / 8) ≡ some b
      → drop i (bits_of 8 h.hash) ≡ bit_of b i ∷ drop (i + 1) (bits_of 8 h.hash)
  drop-at i b found =
      let next : suc i ≡ i + 1 = omega arith in
      subst (λ j. drop i (bits_of 8 h.hash) ≡ bit_of b i ∷ drop j (bits_of 8 h.hash)) next
        (drop-bits_of h.hash i b found)

  pub drop-end : drop 256 (bits_of 8 h.hash) ≡ []
  drop-end = drop_all 256 (bits_of 8 h.hash) (omega (arith, length-bits_of 8 h.hash, w.length_law))

  collect_end : (fuel : ℕ) → collect (suc fuel) (at h 256) ≡ ok (drop 256 (bits_of 8 h.hash))
  unfolding collect next
  collect_end fuel = ap ok (sym drop-end)

  collect_from :
      (fuel i : ℕ)
      → i ≤ 256
      → 256 < i + fuel
      → collect fuel (at h i) ≡ ok (drop i (bits_of 8 h.hash))
  unfolding collect
  collect_from zero i low enough = absurd (omega arith)
  collect_from (suc fuel) i low enough = elim (Bool-cases (ltb i 256)) [
    | inl e ↦
        let (b, found) = byte_of i (ltb→lt i 256 e) in
        let rest = collect_from fuel (i + 1) (omega (arith, ltb→lt i 256 e)) (omega arith) in
        rw (next-at i b (ltb→lt i 256 e) found, rest, drop-at i b found, collect) refl
    | inr e ↦
        let last : i ≡ 256 = ground arith in
        subst (λ j. collect (suc fuel) (at h j) ≡ ok (drop j (bits_of 8 h.hash))) (sym last)
          (collect_end fuel)
  ]

  -- The iterator of a hash yields the bits of its bytes, each from the highest bit, and ends after
  -- 256 calls.
  pub collect-iter_bits : collect 257 (iter_bits h) ≡ ok (bits_of 8 h.hash)
  unfolding iter_bits
  collect-iter_bits = collect_from 257 0 (omega arith) (omega arith)
