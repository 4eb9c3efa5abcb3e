-- ===== src/Compat/Hex.antt =====
-- Hexadecimal texts, as the readers of version five write them and the crate hex reads them.
use libra_v.Prelude.{
  ℕ, ◌+◌, ◌-◌, ◌*◌, ◌/◌, ◌%◌, ◌^◌, ◌<◌, ◌≡◌, [], ◌∷◌, ◌++◌, Text, Bytes, Option, none, some, length,
  All, leb, ◌&&◌, ltb, if◌then◌else◌, arith,
}

-- `{:02x}` of a byte, and of the bytes in a row.
abbrev pub hex_digit : ℕ → ℕ
hex_digit d = if ltb d 10 then 48 + d else 87 + d

abbrev pub hex_byte : ℕ → Text
hex_byte b = hex_digit (b / 16) ∷ (hex_digit (b % 16) ∷ [])

abbrev pub hex_bytes : Bytes → Text
hex_bytes [] = []
hex_bytes (b ∷ bytes) = hex_byte b ++ hex_bytes bytes

-- The value of a digit of either case.
abbrev pub digit_value : ℕ → Option ℕ
digit_value c =
    if leb 48 c && leb c 57
    then some (c - 48)
    else if leb 97 c && leb c 102
    then some (c - 87)
    else if leb 65 c && leb c 70
    then some (c - 55)
    else none

-- The text has two digits for each byte, the higher one first.
abbrev pub Spells : Text → Bytes → Type 0
Spells [] [] = Unit
Spells (c ∷ (d ∷ s)) (b ∷ bytes) =
    (digit_value c ≡ some (b / 16)) × (digit_value d ≡ some (b % 16)) × Spells s bytes
Spells _ _ = ⊥

-- The crate hex: `FromHex` for arrays of a number of bytes, and `encode`.
pub record HexCrate : Type 0 where
  pub array_from_hex : ℕ → Text → Option Bytes
  pub encode : Bytes → Text
  pub decode_law :
      (n : ℕ) (s : Text) (bytes : Bytes)
      → length bytes ≡ n
      → All (λ b. b < 2 ^ 8) bytes
      → Spells s bytes
      → array_from_hex n s ≡ some bytes
  pub decoded_law :
      (n : ℕ) (s : Text) (bytes : Bytes)
      → array_from_hex n s ≡ some bytes
      → (length bytes ≡ n) × Spells s bytes
  pub encode_law : (bytes : Bytes) → All (λ b. b < 2 ^ 8) bytes → encode bytes ≡ hex_bytes bytes

pub digit_value-hex_digit : (d : ℕ) → d < 16 → digit_value (hex_digit d) ≡ some d
digit_value-hex_digit d h = ground arith

pub hex_bytes-Spells : (bytes : Bytes) → All (λ b. b < 2 ^ 8) bytes → Spells (hex_bytes bytes) bytes
hex_bytes-Spells [] h = tt
hex_bytes-Spells (b ∷ bytes) (hb, h) = (
  digit_value-hex_digit (b / 16) (omega arith),
  digit_value-hex_digit (b % 16) (omega arith),
  hex_bytes-Spells bytes h,
)

pub length-hex_bytes : (bytes : Bytes) → length (hex_bytes bytes) ≡ 2 * length bytes
length-hex_bytes [] = omega arith
length-hex_bytes (b ∷ bytes) = omega (arith, length-hex_bytes bytes)

pub digit_value_small : (c d : ℕ) → digit_value c ≡ some d → d < 16
digit_value_small c d h = ground arith

pub Spells-small : (s : Text) (bytes : Bytes) → Spells s bytes → All (λ b. b < 2 ^ 8) bytes
Spells-small [] [] h = tt
Spells-small [] (b ∷ bytes) h = elim h [ ]
Spells-small (c ∷ []) [] h = elim h [ ]
Spells-small (c ∷ []) (b ∷ bytes) h = elim h [ ]
Spells-small (c ∷ (d ∷ s)) [] h = elim h [ ]
Spells-small (c ∷ (d ∷ s)) (b ∷ bytes) (x, y, h) =
    let high = digit_value_small c (b / 16) x in (omega arith, Spells-small s bytes h)
