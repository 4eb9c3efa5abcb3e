-- ===== src/Compat/HashValue.antt =====
-- compatibility/src/version_five/hash_value_v5.rs: the hashes of version five, their bits and texts.
pub mod Iterator
pub mod Bits
pub mod Back
pub mod Prefix
pub mod SetBit
pub mod FromBits
pub mod Hex
use Prim.Native.Nat.{bit_and, bit_or}
use libra_v.Prelude.{
  ℕ, zero, suc, ◌+◌, ◌-◌, ◌*◌, ◌/◌, ◌%◌, ◌^◌, ◌<◌, ◌≡◌, Bool, true, false, List, [], ◌∷◌, ◌++◌,
  Text, Bytes, Option, none, some, length, get_elem?, replicate, take, All, leb, ◌&&◌, ltb, ◌==◌,
  not, if◌then◌else◌, Result, ok, err, ◌>>=◌, codes,
}
use libra_v.Compat.Hex.{hex_bytes, HexCrate}

pub data HashError : Type 0 where
  parse panic : HashError

abbrev pub hash_length : ℕ
hash_length = 32

abbrev pub hash_length_in_bits : ℕ
hash_length_in_bits = hash_length * 8

pub record HashValueV5 : Type 0 where
  pub hash : Bytes

-- What the type `[u8; 32]` says of the field.
pub record IsHash (h : HashValueV5) : Type 0 where
  pub length_law : length h.hash ≡ 32
  pub byte_law : All (λ b. b < 2 ^ 8) h.hash

unfoldable pub from_slice : Bytes → Result HashError HashValueV5
from_slice bytes =
    if length bytes == hash_length then ok (record { hash = bytes }) else err HashError.parse

abbrev pub to_vec : HashValueV5 → Bytes
to_vec h = h.hash

unfoldable pub zero_hash : HashValueV5
zero_hash = record { hash = replicate hash_length 0 }

-- `assert!`, and an index into the array; both stop the process where they fail.
abbrev pub byte_at : Bytes → ℕ → Result HashError ℕ
byte_at bytes i = elim (get_elem? bytes i) [ none ↦ err HashError.panic | some b ↦ ok b ]

-- `byte & 1 != 0` of the byte shifted.
abbrev pub low_bit : ℕ → Bool
low_bit v = not (bit_and v 1 == 0)

unfoldable pub bit : HashValueV5 → ℕ → Result HashError Bool
bit h index = elim (ltb index hash_length_in_bits) [
  | false ↦ err HashError.panic
  | true ↦ do b ← byte_at h.hash (index / 8); ok (low_bit (b / 2 ^ (7 - index % 8)))
]

unfoldable pub nibble : HashValueV5 → ℕ → Result HashError ℕ
nibble h index = elim (ltb index (hash_length * 2)) [
  | false ↦ err HashError.panic
  | true ↦ do
    b ← byte_at h.hash (index / 2)
    ok (bit_and (b / 2 ^ (if index % 2 == 0 then 4 else 0)) 15)
]

-- `buf[i / 8] |= 1 << (7 - i % 8)`; the index is in range by the test of the length.
abbrev pub modify : List ℕ → ℕ → (ℕ → ℕ) → List ℕ
modify [] i f = []
modify (b ∷ bytes) zero f = f b ∷ bytes
modify (b ∷ bytes) (suc i) f = b ∷ modify bytes i f

unfoldable pub set_bit : Bytes → ℕ → Bytes
set_bit buf i = modify buf (i / 8) (λ b. bit_or b (2 ^ (7 - i % 8)))

unfoldable pub set_bits : List Bool → ℕ → Bytes → Bytes
set_bits [] i buf = buf
set_bits (true ∷ bits) i buf = set_bits bits (i + 1) (set_bit buf i)
set_bits (false ∷ bits) i buf = set_bits bits (i + 1) buf

unfoldable pub from_bit_iter : List Bool → Result HashError HashValueV5
from_bit_iter iter =
    if length iter == hash_length_in_bits
    then ok (record { hash = set_bits iter 0 (replicate hash_length 0) })
    else err HashError.parse

-- `{:08b}` of a byte.
abbrev pub binary_digits : ℕ → ℕ → Text
binary_digits zero v = []
binary_digits (suc n) v = binary_digits n (v / 2) ++ ((48 + v % 2) ∷ [])

abbrev pub binary_bytes : Bytes → Text
binary_bytes [] = []
binary_bytes (b ∷ bytes) = binary_digits 8 b ++ binary_bytes bytes

unfoldable pub fmt_binary : HashValueV5 → Text
fmt_binary h = binary_bytes h.hash

unfoldable pub fmt_lower_hex : Bool → HashValueV5 → Text
fmt_lower_hex alternate h = (if alternate then codes "0x" else []) ++ hex_bytes h.hash

unfoldable pub fmt_debug : HashValueV5 → Text
unfolding fmt_lower_hex
fmt_debug h = codes "HashValue(" ++ (fmt_lower_hex false h ++ codes ")")

unfoldable pub fmt_display : HashValueV5 → Text
fmt_display h = hex_bytes (take 4 h.hash)

unfoldable pub to_hex : HashValueV5 → Text
to_hex h = fmt_lower_hex false h

unfoldable pub to_hex_literal : HashValueV5 → Text
to_hex_literal h = fmt_lower_hex true h

-- What serde writes: a text in formats for people, else the bytes in a named wrapper.
pub data Serialized : Type 0 where
  str : Text → Serialized
  newtype_struct : Text → Bytes → Serialized

module _ (hex : HexCrate) where
  unfoldable pub from_hex : Text → Result HashError HashValueV5
  from_hex s = elim (hex.array_from_hex hash_length s) [
    | none ↦ err HashError.parse
    | some bytes ↦ ok (record { hash = bytes })
  ]

  unfoldable pub serialize : Bool → HashValueV5 → Serialized
  serialize human_readable h =
      if human_readable
      then Serialized.str (to_hex h)
      else Serialized.newtype_struct (codes "HashValue") h.hash

  -- The formats that do not describe themselves take the wrapper's name from the reader.
  unfoldable pub deserialize : Bool → Serialized → Result HashError HashValueV5
  deserialize true (Serialized.str s) = from_hex s
  deserialize true (Serialized.newtype_struct name bytes) = err HashError.parse
  deserialize false (Serialized.newtype_struct name bytes) = from_slice bytes
  deserialize false (Serialized.str s) = err HashError.parse
