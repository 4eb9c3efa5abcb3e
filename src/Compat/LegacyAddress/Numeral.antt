-- ===== src/Compat/LegacyAddress/Numeral.antt =====
-- The number that a literal of an address writes in base 16, and the address with that number.
use libra_v.Prelude.{
  ℕ, zero, suc, ◌+◌, ◌-◌, ◌*◌, ◌/◌, ◌%◌, ◌^◌, ◌≤◌, ◌<◌, ◌≡◌, refl, sym, ap, subst, ◌∙◌, false, [],
  ◌∷◌, ◌++◌, Text, Bytes, Option, none, some, length, replicate, All, arith, ltb, leb, Result, ok,
  err, codes, ◌↔◌, inl, inr, Bool-cases, Option-cases, length-append, length-replicate,
}
use libra_v.Compat.Hex.{HexCrate, Spells, Spells-small, digit_value, digit_value_small}
use libra_v.Compat.LegacyAddress.{
  LegacyAddressV5, IsAddress, AccountAddressParseError, pad_digits, address_from_hex,
  address_or_error, after_0x, from_hex_literal,
}
use libra_v.Compat.LegacyAddress.Literal.{pad_digits-zeros}

-- The digits of a text after the number `acc`, if each of its characters is one.
abbrev pub numeral : ℕ → Text → Option ℕ
numeral acc [] = some acc
numeral acc (c ∷ s) = elim (digit_value c) [ none ↦ none | some d ↦ numeral (acc * 16 + d) s ]

-- The number of the bytes after `acc`, the first byte being the highest.
abbrev pub be_value : ℕ → Bytes → ℕ
be_value acc [] = acc
be_value acc (b ∷ bytes) = be_value (acc * 256 + b) bytes

-- At most 32 digits, which write the number of the address.
abbrev pub Writes : Text → LegacyAddressV5 → Type 0
Writes digits a =
    (length digits ≤ 32) × (numeral 0 digits ≡ some (be_value 0 a.address)) × IsAddress a

numeral_step :
    (acc c d : ℕ) (s : Text)
    → digit_value c ≡ some d
    → numeral acc (c ∷ s) ≡ numeral (acc * 16 + d) s
numeral_step acc c d s h = rw (h, numeral) refl

numeral_bad : (acc c : ℕ) (s : Text) → digit_value c ≡ none → numeral acc (c ∷ s) ≡ none
numeral_bad acc c s h = rw (h, numeral) refl

numeral_steps :
    (acc c d x y : ℕ) (s : Text)
    → digit_value c ≡ some x
    → digit_value d ≡ some y
    → numeral acc (c ∷ (d ∷ s)) ≡ numeral ((acc * 16 + x) * 16 + y) s
numeral_steps acc c d x y s hx hy =
    numeral_step acc c x (d ∷ s) hx ∙ numeral_step (acc * 16 + x) d y s hy

numeral-spelled :
    (s : Text) (bytes : Bytes) (acc : ℕ)
    → Spells s bytes
    → numeral acc s ≡ some (be_value acc bytes)
numeral-spelled [] [] acc h = refl
numeral-spelled [] (b ∷ bytes) acc h = elim h [ ]
numeral-spelled (c ∷ []) [] acc h = elim h [ ]
numeral-spelled (c ∷ []) (b ∷ bytes) acc h = elim h [ ]
numeral-spelled (c ∷ (d ∷ s)) [] acc h = elim h [ ]
numeral-spelled (c ∷ (d ∷ s)) (b ∷ bytes) acc (x, y, h) =
    let joined : (acc * 16 + b / 16) * 16 + b % 16 ≡ acc * 256 + b = omega arith in
    let steps = numeral_steps acc c d (b / 16) (b % 16) s x y in
    steps ∙ rw joined (numeral-spelled s bytes (acc * 256 + b) h)

length-spelled : (s : Text) (bytes : Bytes) → Spells s bytes → length s ≡ 2 * length bytes
length-spelled [] [] h = omega arith
length-spelled [] (b ∷ bytes) h = elim h [ ]
length-spelled (c ∷ []) [] h = elim h [ ]
length-spelled (c ∷ []) (b ∷ bytes) h = elim h [ ]
length-spelled (c ∷ (d ∷ s)) [] h = elim h [ ]
length-spelled (c ∷ (d ∷ s)) (b ∷ bytes) (x, y, h) = omega (arith, length-spelled s bytes h)

numeral-zeros : (n : ℕ) (s : Text) → numeral 0 (replicate n 48 ++ s) ≡ numeral 0 s
numeral-zeros zero s = refl
numeral-zeros (suc n) s = numeral-zeros n s

be_value-injective :
    (bs cs : Bytes) (m n : ℕ)
    → length bs ≡ length cs
    → All (λ b. b < 2 ^ 8) bs
    → All (λ b. b < 2 ^ 8) cs
    → be_value m bs ≡ be_value n cs
    → (m ≡ n) × (bs ≡ cs)
be_value-injective [] [] m n count hb hc e = (e, refl)
be_value-injective [] (c ∷ cs) m n count hb hc e = absurd (omega arith)
be_value-injective (b ∷ bs) [] m n count hb hc e = absurd (omega arith)
be_value-injective (b ∷ bs) (c ∷ cs) m n count (hb, hbs) (hc, hcs) e =
    let (front, rest) =
      be_value-injective bs cs (m * 256 + b) (n * 256 + c) (omega arith) hbs hcs e in
    let same : b ≡ c = omega arith in (omega arith, rw (same, rest) refl)

unwritten : (v : ℕ) → none ≡ some v → ⊥
unwritten v h = cc

same_number : (m n : ℕ) → some m ≡ some n → m ≡ n
same_number m n h = cc

-- Digits of an even number spell bytes.
spelling :
    (n : ℕ) (s : Text) (acc v : ℕ)
    → length s ≡ 2 * n
    → numeral acc s ≡ some v
    → (bytes : Bytes) × Spells s bytes × (length bytes ≡ n)
spelling zero [] acc v count h = ([], tt, refl)
spelling zero (c ∷ s) acc v count h = absurd (omega arith)
spelling (suc n) [] acc v count h = absurd (omega arith)
spelling (suc n) (c ∷ []) acc v count h = absurd (omega arith)
spelling (suc n) (c ∷ (d ∷ s)) acc v count h = elim (Option-cases (digit_value c)) [
  | inl e ↦ absurd (unwritten v (sym (numeral_bad acc c (d ∷ s) e) ∙ h))
  | inr (x, ex) ↦ elim (Option-cases (digit_value d)) [
    | inl e ↦
        let step = numeral_step acc c x (d ∷ s) ex in
        let bad = numeral_bad (acc * 16 + x) d s e in
        absurd (unwritten v (sym bad ∙ (sym step ∙ h)))
    | inr (y, ey) ↦
        let next = numeral_steps acc c d x y s ex ey in
        let (bytes, spelled, size) =
          spelling n s ((acc * 16 + x) * 16 + y) v (omega arith) (sym next ∙ h) in
        let hx = digit_value_small c x ex in
        let hy = digit_value_small d y ey in
        let high : (x * 16 + y) / 16 ≡ x = omega arith in
        let low : (x * 16 + y) % 16 ≡ y = omega arith in
        ((x * 16 + y) ∷ bytes, (rw high ex, rw low ey, spelled), ap suc size)
  ]
]

padded :
    (digits : Text)
    → length digits ≤ 32
    → pad_digits digits (length digits) ≡ replicate (32 - length digits) 48 ++ digits
padded digits h = pad_digits-zeros digits (length digits) (32 - length digits) (omega arith)

length-padded :
    (digits : Text) → length digits ≤ 32 → length (replicate (32 - length digits) 48 ++ digits) ≡ 32
length-padded digits h = omega (
  arith,
  length-append (replicate (32 - length digits) 48) digits,
  length-replicate {A = ℕ} (32 - length digits) 48,
)

not_padded : (digits : Text) → 32 < length digits → pad_digits digits (length digits) ≡ digits
unfolding pad_digits
not_padded digits h =
    let full : ltb (length digits) 32 ≡ false = ground arith in rw (full, pad_digits) refl

not_longer :
    (digits : Text) (bytes : Bytes)
    → length bytes ≡ 16
    → Spells (pad_digits digits (length digits)) bytes
    → length digits ≤ 32
not_longer digits bytes size h = elim (Bool-cases (leb (length digits) 32)) [
  | inl e ↦ ground arith
  | inr e ↦
      let long : 32 < length digits = ground arith in
      let bare = subst (λ (t : Text). Spells t bytes) (not_padded digits long) h in
      absurd (omega (arith, length-spelled digits bytes bare))
]

abbrev bytes_of : Result AccountAddressParseError LegacyAddressV5 → Bytes
bytes_of (ok a) = a.address
bytes_of (err e) = []

address_or_error-ok :
    (o : Option Bytes) (a : LegacyAddressV5) → address_or_error o ≡ ok a → o ≡ some a.address
address_or_error-ok none a h = cc
address_or_error-ok (some bytes) a h = let same : bytes ≡ a.address = ap bytes_of h in ap some same

after_0x-some :
    (literal digits : Text) → after_0x literal ≡ some digits → literal ≡ codes "0x" ++ digits
after_0x-some [] digits h = cc
after_0x-some (c ∷ []) digits h = cc
after_0x-some (c ∷ (d ∷ s)) digits h =
    let zero_first : c ≡ 48 = ground arith in
    let x_next : d ≡ 120 = ground arith in
    let same : s ≡ digits = ground arith in rw (zero_first, x_next, same) refl

not_read : (a : LegacyAddressV5) → err AccountAddressParseError.unable_to_parse ≡ ok a → ⊥
not_read a h = cc

module _ (hex : HexCrate) where
  read-Writes :
      (digits : Text) (bytes : Bytes)
      → hex.array_from_hex 16 (pad_digits digits (length digits)) ≡ some bytes
      → Writes digits (record { address = bytes })
  read-Writes digits bytes h =
      let (size, spelled) = hex.decoded_law 16 (pad_digits digits (length digits)) bytes h in
      let few = not_longer digits bytes size spelled in
      let whole = subst (λ (t : Text). Spells t bytes) (padded digits few) spelled in
      (
        few,
        sym (numeral-zeros (32 - length digits) digits) ∙ numeral-spelled _ bytes 0 whole,
        record {
          length_law = size;
          byte_law = Spells-small (pad_digits digits (length digits)) bytes spelled;
        },
      )

  Writes-read :
      (digits : Text) (a : LegacyAddressV5)
      → Writes digits a
      → hex.array_from_hex 16 (pad_digits digits (length digits)) ≡ some a.address
  Writes-read digits a (few, number, w) =
      let long = replicate (32 - length digits) 48 ++ digits in
      let same : numeral 0 long ≡ some (be_value 0 a.address) =
        numeral-zeros (32 - length digits) digits ∙ number in
      let (bytes, spelled, size) =
        spelling 16 long 0 (be_value 0 a.address) (length-padded digits few) same in
      let small = Spells-small long bytes spelled in
      let value : be_value 0 bytes ≡ be_value 0 a.address =
        same_number (be_value 0 bytes) (be_value 0 a.address)
          (sym (numeral-spelled long bytes 0 spelled) ∙ same) in
      let (_, found) =
        be_value-injective bytes a.address 0 0 (size ∙ sym w.length_law) small w.byte_law value in
      rw (padded digits few, sym found) (hex.decode_law 16 long bytes size small spelled)

  digits_iff :
      (digits : Text) (a : LegacyAddressV5)
      → (from_hex_literal hex (codes "0x" ++ digits) ≡ ok a) ↔ Writes digits a
  unfolding from_hex_literal address_from_hex
  digits_iff digits a =
      let two : suc (suc (length digits)) - 2 ≡ length digits = omega arith in
      rw two (
        λ h. read-Writes digits a.address (address_or_error-ok _ a h),
        λ w. ap address_or_error (Writes-read digits a w),
      )

  literal-prefix :
      (literal : Text) (a : LegacyAddressV5)
      → from_hex_literal hex literal ≡ ok a
      → (digits : Text) × (literal ≡ codes "0x" ++ digits)
  unfolding from_hex_literal
  literal-prefix literal a h = elim (Option-cases (after_0x literal)) [
    | inl e ↦
        let failed : from_hex_literal hex literal ≡ err AccountAddressParseError.unable_to_parse =
          rw (e, from_hex_literal) refl in
        absurd (not_read a (sym failed ∙ h))
    | inr (digits, e) ↦ (digits, after_0x-some literal digits e)
  ]

  -- A literal is read as an address exactly when it is `0x`, which is not optional, with at most 32 digits of
  -- either case after it, and they write the number of the address in base 16, its first byte being
  -- the highest.
  pub from_hex_literal_iff :
      (literal : Text) (a : LegacyAddressV5)
      → (from_hex_literal hex literal ≡ ok a)
        ↔ ((digits : Text) × (literal ≡ codes "0x" ++ digits) × Writes digits a)
  from_hex_literal_iff literal a = (
    λ h.
        let (digits, e) = literal-prefix literal a h in
        let same = subst (λ (t : Text). from_hex_literal hex t ≡ ok a) e h in
        (digits, e, (digits_iff digits a).0 same),
    λ found.
        let (digits, e, w) = found in
        subst (λ (t : Text). from_hex_literal hex t ≡ ok a) (sym e) ((digits_iff digits a).1 w),
  )
