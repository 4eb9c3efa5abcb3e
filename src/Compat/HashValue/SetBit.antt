-- ===== src/Compat/HashValue/SetBit.antt =====
-- `|=` of one bit in the array that `from_bit_iter` fills.
use Prim.Native.Nat.{bit_or}
use libra_v.Prelude.{
  Bool-cases, ltb, ltb→lt, inl, inr, ℕ, zero, suc, ◌+◌, ◌-◌, ◌*◌, ◌/◌, ◌%◌, ◌^◌, ◌≤◌, ◌<◌, ◌≡◌,
  refl, sym, ◌∙◌, ap, Bool, true, false, ◌&&◌, List, [], ◌∷◌, ◌++◌, Bytes, length, All, arith, ◌==◌,
}
use libra_v.Prelude.Bits.{length-bits, bits, bits_of}
use libra_v.Compat.HashValue.{set_bit}

-- A list of bits with the bit `i` set.
abbrev pub raise : List Bool → ℕ → List Bool
raise [] i = []
raise (x ∷ xs) zero = true ∷ xs
raise (x ∷ xs) (suc i) = x ∷ raise xs i

abbrev alike : List Bool → List Bool → Bool
alike [] [] = true
alike (true ∷ xs) (true ∷ ys) = alike xs ys
alike (false ∷ xs) (false ∷ ys) = alike xs ys
alike _ _ = false

alike_eq : (xs ys : List Bool) → alike xs ys ≡ true → xs ≡ ys
alike_eq [] [] h = refl
alike_eq [] (y ∷ ys) h = cc
alike_eq (true ∷ xs) [] h = cc
alike_eq (false ∷ xs) [] h = cc
alike_eq (true ∷ xs) (true ∷ ys) h = ap (λ t. true ∷ t) (alike_eq xs ys h)
alike_eq (true ∷ xs) (false ∷ ys) h = cc
alike_eq (false ∷ xs) (true ∷ ys) h = cc
alike_eq (false ∷ xs) (false ∷ ys) h = ap (λ t. false ∷ t) (alike_eq xs ys h)

-- A test that holds of the numbers below `n`.
abbrev each_below : ℕ → (ℕ → Bool) → Bool
each_below zero p = true
each_below (suc n) p = p n && each_below n p

each_below-at : (n : ℕ) (p : ℕ → Bool) (x : ℕ) → each_below n p ≡ true → x < n → p x ≡ true
each_below-at zero p x h lt = absurd (omega arith)
each_below-at (suc n) p x h lt = ground (arith, each_below-at n p x)

raises : ℕ → ℕ → Bool
raises b k =
    alike (bits 8 (bit_or b (2 ^ (7 - k)))) (raise (bits 8 b) k)
    && (bit_or b (2 ^ (7 - k)) / 256 == 0)

-- One bit of one byte, checked for all of them.
raises_table : each_below 256 (λ b. each_below 8 (raises b)) ≡ true
unfolding raises bits
raises_table = refl

raises-at : (b k : ℕ) → b < 256 → k < 8 → raises b k ≡ true
raises-at b k hb hk =
    each_below-at 8 (raises b) k
      (each_below-at 256 (λ c. each_below 8 (raises c)) b raises_table hb) hk

raise_first : (xs ys : List Bool) (i : ℕ) → i < length xs → raise (xs ++ ys) i ≡ raise xs i ++ ys
raise_first [] ys i h = absurd (omega arith)
raise_first (x ∷ xs) ys zero h = refl
raise_first (x ∷ xs) ys (suc i) h = ap (λ t. x ∷ t) (raise_first xs ys i (omega arith))

raise_second :
    (xs ys : List Bool) (i j : ℕ) → i ≡ length xs + j → raise (xs ++ ys) i ≡ xs ++ raise ys j
raise_second [] ys i j h = ap (raise ys) (omega arith)
raise_second (x ∷ xs) ys zero j h = absurd (omega arith)
raise_second (x ∷ xs) ys (suc i) j h = ap (λ t. x ∷ t) (raise_second xs ys i j (omega arith))

-- The bits of an array after `|=`.
pub record Raised (buf new : Bytes) (i : ℕ) : Type 0 where
  pub bits_eq : bits_of 8 new ≡ raise (bits_of 8 buf) i
  pub byte_law : All (λ b. b < 2 ^ 8) new
  pub length_law : length new ≡ length buf

first-Raised :
    (b k : ℕ) (buf : Bytes)
    → b < 2 ^ 8
    → All (λ b. b < 2 ^ 8) buf
    → k < 8
    → Raised (b ∷ buf) (bit_or b (2 ^ (7 - k)) ∷ buf) k
unfolding raises bits_of
first-Raised b k buf hb h hk =
    let table = raises-at b k hb hk in
    let fits : bit_or b (2 ^ (7 - k)) < 2 ^ 8 = ground arith in
    let same : alike (bits 8 (bit_or b (2 ^ (7 - k)))) (raise (bits 8 b) k) ≡ true = ground arith in
    record {
      bits_eq =
          ap (λ t. t ++ bits_of 8 buf) (alike_eq _ _ same)
          ∙ sym (raise_first (bits 8 b) (bits_of 8 buf) k (omega (arith, length-bits 8 b)));
      byte_law = (fits, h);
      length_law = refl;
    }

later-Raised :
    (b i j : ℕ) (buf new : Bytes)
    → b < 2 ^ 8
    → i ≡ 8 + j
    → Raised buf new j
    → Raised (b ∷ buf) (b ∷ new) i
unfolding bits_of
later-Raised b i j buf new hb hi r = record {
  bits_eq =
      ap (λ t. bits 8 b ++ t) r.bits_eq
      ∙ sym (raise_second (bits 8 b) (bits_of 8 buf) i j (omega (arith, length-bits 8 b)));
  byte_law = (hb, r.byte_law);
  length_law = ap suc r.length_law;
}

pub set_bit-Raised :
    (buf : Bytes) (i : ℕ)
    → All (λ b. b < 2 ^ 8) buf
    → i < length buf * 8
    → Raised buf (set_bit buf i) i
unfolding set_bit
set_bit-Raised [] i h within = absurd (omega arith)
set_bit-Raised (b ∷ buf) i (hb, h) within = elim (Bool-cases (ltb i 8)) [
  | inl e ↦
      let place : i / 8 ≡ 0 = omega (arith, ltb→lt i 8 e) in
      let offset : i % 8 ≡ i = omega (arith, ltb→lt i 8 e) in
      rw (place, offset) (first-Raised b i buf hb h (ltb→lt i 8 e))
  | inr e ↦
      let high : 8 ≤ i = ground arith in
      let place : i / 8 ≡ suc ((i - 8) / 8) = omega arith in
      let offset : i % 8 ≡ (i - 8) % 8 = omega arith in
      rw (place, offset)
        (later-Raised b i (i - 8) buf _ hb (omega arith)
          (set_bit-Raised buf (i - 8) h (omega arith)))
]
