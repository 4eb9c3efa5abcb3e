-- ===== src/Tests/Hex.antt =====
-- A decoder of hexadecimal texts with the laws of the crate hex.
use libra_v.Prelude.{
  ◌^◌, ◌<◌, All, replicate, ◌++◌, arith, zero, suc, ℕ, ◌+◌, ◌*◌, ◌/◌, ◌%◌, ◌≡◌, refl, true, false,
  [], ◌∷◌, Text, Bytes, Option, none, some, length, ◌==◌, if◌then◌else◌, Bool, sym, ap, subst, inl,
  inr, Option-cases,
}
use libra_v.Compat.Hex.{HexCrate, Spells, digit_value, digit_value_small, hex_bytes}

abbrev byte_of_digits : Option ℕ → Option ℕ → Option Bytes → Option Bytes
byte_of_digits (some x) (some y) (some bytes) = some ((x * 16 + y) ∷ bytes)
byte_of_digits _ _ _ = none

abbrev decode : Text → Option Bytes
decode [] = some []
decode (c ∷ []) = none
decode (c ∷ (d ∷ s)) = byte_of_digits (digit_value c) (digit_value d) (decode s)

abbrev of_length : ℕ → Option Bytes → Option Bytes
of_length n none = none
of_length n (some bytes) = if length bytes == n then some bytes else none

pub decode-Spells : (s : Text) (bytes : Bytes) → Spells s bytes → decode s ≡ some bytes
decode-Spells [] [] h = refl
decode-Spells [] (b ∷ bytes) h = elim h [ ]
decode-Spells (c ∷ []) [] h = elim h [ ]
decode-Spells (c ∷ []) (b ∷ bytes) h = elim h [ ]
decode-Spells (c ∷ (d ∷ s)) [] h = elim h [ ]
decode-Spells (c ∷ (d ∷ s)) (b ∷ bytes) (x, y, h) =
    let whole : b / 16 * 16 + b % 16 ≡ b = omega arith in
    rw (x, y, decode-Spells s bytes h, whole) refl

joined :
    (x y : ℕ) (c d : ℕ) (s : Text) (bytes rest : Bytes)
    → x < 16
    → y < 16
    → digit_value c ≡ some x
    → digit_value d ≡ some y
    → Spells s rest
    → (x * 16 + y) ∷ rest ≡ bytes
    → Spells (c ∷ (d ∷ s)) bytes
joined x y c d s [] rest hx hy ex ey h e = cc
joined x y c d s (b ∷ bytes) rest hx hy ex ey h e =
    let same : x * 16 + y ≡ b = cc in
    let same_rest : rest ≡ bytes = cc in
    let high : x ≡ b / 16 = omega arith in
    let low : y ≡ b % 16 = omega arith in (cc, cc, rw (sym same_rest) h)

pub Spells-decode : (s : Text) (bytes : Bytes) → decode s ≡ some bytes → Spells s bytes
Spells-decode [] [] h = tt
Spells-decode [] (b ∷ bytes) h = cc
Spells-decode (c ∷ []) bytes h = cc
Spells-decode (c ∷ (d ∷ s)) bytes h = elim (Option-cases (digit_value c)) [
  | inl e ↦ let bad : decode (c ∷ (d ∷ s)) ≡ none = rw e refl in cc
  | inr (x, ex) ↦ elim (Option-cases (digit_value d)) [
    | inl e ↦ let bad : decode (c ∷ (d ∷ s)) ≡ none = rw (ex, e) refl in cc
    | inr (y, ey) ↦ elim (Option-cases (decode s)) [
      | inl e ↦ let bad : decode (c ∷ (d ∷ s)) ≡ none = rw (ex, ey, e) refl in cc
      | inr (rest, er) ↦
          let whole : decode (c ∷ (d ∷ s)) ≡ some ((x * 16 + y) ∷ rest) = rw (ex, ey, er) refl in
          joined x y c d s bytes rest (digit_value_small c x ex) (digit_value_small d y ey) ex ey
            (Spells-decode s rest er) cc
    ]
  ]
]

kept_only :
    (t : Bool) (n : ℕ) (found bytes : Bytes)
    → (length found == n) ≡ t
    → (if t then some found else none) ≡ some bytes
    → (found ≡ bytes) × (length found ≡ n)
kept_only true n found bytes e h = (cc, ground arith)
kept_only false n found bytes e h = cc

pub of_length-some :
    (n : ℕ) (m : Option Bytes) (bytes : Bytes)
    → of_length n m ≡ some bytes
    → (m ≡ some bytes) × (length bytes ≡ n)
of_length-some n none bytes h = cc
of_length-some n (some found) bytes h =
    let (same, count) = kept_only (length found == n) n found bytes refl h in
    (ap some same, subst (λ (b : Bytes). length b ≡ n) same count)

pub of_length-kept :
    (n : ℕ) (bytes : Bytes) → length bytes ≡ n → of_length n (some bytes) ≡ some bytes
of_length-kept n bytes h = ground arith

abbrev pub hex : HexCrate
hex = record {
  array_from_hex = λ n s. of_length n (decode s);
  encode = hex_bytes;
  decode_law = λ n s bytes count small_bytes spelled.
      rw (decode-Spells s bytes spelled) (of_length-kept n bytes count);
  decoded_law = λ n s bytes h.
      let (found, count) = of_length-some n (decode s) bytes h in
      (count, Spells-decode s bytes found);
  encode_law = λ bytes small_bytes. refl;
}

pub small_zeros :
    (n : ℕ) (bytes : Bytes)
    → All (λ b. b < 2 ^ 8) bytes
    → All (λ b. b < 2 ^ 8) (replicate n 0 ++ bytes)
small_zeros zero bytes h = h
small_zeros (suc n) bytes h = (omega arith, small_zeros n bytes h)
