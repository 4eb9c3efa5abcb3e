-- ===== src/Compat/HashValue/Prefix.antt =====
-- `common_prefix_bits_len`: how many leading bits two hashes share.
use libra_v.Prelude.{
  Result, ℕ, zero, suc, ◌+◌, ◌/◌, ◌≤◌, ◌<◌, ◌≡◌, ◌≢◌, refl, sym, ◌∙◌, ap, subst, Bool, true, false,
  some, get_elem?, arith, ltb, ltb→lt, ok, Bool-cases, inl, inr, ok-injective,
}
use libra_v.Prelude.Bits.{bit_of}
use libra_v.Compat.HashValue.{HashValueV5, HashError, IsHash, bit}
use libra_v.Compat.HashValue.Iterator.{iter_bits, next, same, count_equal, common_prefix_bits_len}
use libra_v.Compat.HashValue.Bits.{at, byte_of, next-at, bit-bit_of}

same_eq : (x y : Bool) → same x y ≡ true → x ≡ y
same_eq true y h = sym h
same_eq false false h = refl
same_eq false true h = cc

same_ne : (x y : Bool) → same x y ≡ false → x ≢ y
same_ne true true h e = cc
same_ne true false h e = cc
same_ne false true h e = cc
same_ne false false h e = cc

-- What a count of equal bits from `i` on says.
pub record Agrees (a b : HashValueV5) (i n : ℕ) : Type 0 where
  pub within : i + n ≤ 256
  pub equal : (j : ℕ) → i ≤ j → j < i + n → bit a j ≡ bit b j
  pub differ : i + n < 256 → bit a (i + n) ≢ bit b (i + n)

module _ (a b : HashValueV5) (wa : IsHash a) (wb : IsHash b) where
  count_end : (fuel count : ℕ) → count_equal (suc fuel) (at a 256) (at b 256) count ≡ ok count
  unfolding count_equal next
  count_end fuel count = refl

  module _ (i x y : ℕ) (hi : i < 256) (at_a : get_elem? a.hash (i / 8) ≡ some x)
      (at_b : get_elem? b.hash (i / 8) ≡ some y) where
    count_stops :
        (fuel count : ℕ)
        → same (bit_of x i) (bit_of y i) ≡ false
        → count_equal (suc fuel) (at a i) (at b i) count ≡ ok count
    unfolding count_equal
    count_stops fuel count s =
        rw (next-at a wa i x hi at_a, next-at b wb i y hi at_b, count_equal)
          (ap
            (λ (t : Bool). elim t as (λ _. Result HashError ℕ) [
              | true ↦ count_equal fuel (at a (i + 1)) (at b (i + 1)) (count + 1)
              | false ↦ ok count
            ])
            s)

    count_goes_on :
        (fuel count : ℕ)
        → same (bit_of x i) (bit_of y i) ≡ true
        → count_equal (suc fuel) (at a i) (at b i) count
          ≡ count_equal fuel (at a (i + 1)) (at b (i + 1)) (count + 1)
    unfolding count_equal
    count_goes_on fuel count s =
        rw (next-at a wa i x hi at_a, next-at b wb i y hi at_b, count_equal)
          (ap
            (λ (t : Bool). elim t as (λ _. Result HashError ℕ) [
              | true ↦ count_equal fuel (at a (i + 1)) (at b (i + 1)) (count + 1)
              | false ↦ ok count
            ])
            s)

    differs-Agrees : same (bit_of x i) (bit_of y i) ≡ false → Agrees a b i 0
    differs-Agrees s =
        let here : i + 0 ≡ i = omega arith in
        record {
          within = omega arith;
          equal = λ j low high. absurd (omega arith);
          differ = λ h.
              rw (here, bit-bit_of a wa i x hi at_a, bit-bit_of b wb i y hi at_b)
                (λ e. same_ne (bit_of x i) (bit_of y i) s (ok-injective e));
        }

    equal-Agrees :
        (n : ℕ)
        → same (bit_of x i) (bit_of y i) ≡ true
        → Agrees a b (i + 1) n
        → Agrees a b i (suc n)
    equal-Agrees n s rest =
        let place : i + suc n ≡ i + 1 + n = omega arith in
        let first : bit a i ≡ bit b i =
          bit-bit_of a wa i x hi at_a
          ∙ ap ok (same_eq (bit_of x i) (bit_of y i) s)
          ∙ sym (bit-bit_of b wb i y hi at_b) in
        record {
          within = omega (arith, rest.within);
          equal = λ j low high. elim (Bool-cases (ltb i j)) [
            | inl l ↦ rest.equal j (omega (arith, ltb→lt i j l)) (omega arith)
            | inr l ↦ let same_place : j ≡ i = ground arith in rw same_place first
          ];
          differ = rw place rest.differ;
        }

  count-Agrees :
      (fuel i count : ℕ)
      → i ≤ 256
      → 256 < i + fuel
      → (n : ℕ) × (count_equal fuel (at a i) (at b i) count ≡ ok (count + n)) × Agrees a b i n
  count-Agrees zero i count low enough = absurd (omega arith)
  count-Agrees (suc fuel) i count low enough = elim (Bool-cases (ltb i 256)) [
    | inr e ↦
        let last : i ≡ 256 = ground arith in
        let none_left : count + 0 ≡ count = omega arith in
        (
          0,
          subst (λ j. count_equal (suc fuel) (at a j) (at b j) count ≡ ok (count + 0)) (sym last)
              (count_end fuel count ∙ ap ok (sym none_left)),
          record {
            within = omega arith;
            equal = λ j hj hn. absurd (omega arith);
            differ = λ h. absurd (omega arith);
          },
        )
    | inl e ↦
        let hi = ltb→lt i 256 e in
        let (x, at_a) = byte_of a wa i hi in
        let (y, at_b) = byte_of b wb i hi in
        elim (Bool-cases (same (bit_of x i) (bit_of y i))) [
          | inl s ↦
              let (n, run, rest) =
                count-Agrees fuel (i + 1) (count + 1) (omega arith) (omega arith) in
              let total : count + 1 + n ≡ count + suc n = omega arith in
              (
                suc n,
                count_goes_on i x y hi at_a at_b fuel count s ∙ run ∙ ap ok total,
                equal-Agrees i x y hi at_a at_b n s rest,
              )
          | inr s ↦
              let none_more : count ≡ count + 0 = omega arith in
              (
                0,
                count_stops i x y hi at_a at_b fuel count s ∙ ap ok none_more,
                differs-Agrees i x y hi at_a at_b s,
              )
        ]
  ]

  -- The common prefix of two hashes is returned without a failed assertion: all bits before it are
  -- the same, and where it is shorter than the hash, the next bits differ.
  pub common_prefix_bits_len-Agrees : (n : ℕ) × (common_prefix_bits_len a b ≡ ok n) × Agrees a b 0 n
  unfolding common_prefix_bits_len iter_bits
  common_prefix_bits_len-Agrees =
      let (n, run, agrees) = count-Agrees 257 0 0 (omega arith) (omega arith) in
      let total : 0 + n ≡ n = omega arith in (n, run ∙ ap ok total, agrees)
