-- ===== src/Compat/LegacyAddress.antt =====
-- compatibility/src/version_five/legacy_address_v5.rs: the addresses of sixteen bytes of version five
-- and their texts. A text is its bytes here; the random addresses are left out.
pub mod Literal
pub mod Numeral
use libra_v.Prelude.{
  ℕ, zero, suc, ◌+◌, ◌-◌, ◌*◌, ◌/◌, ◌%◌, ◌^◌, ◌<◌, ◌≡◌, Bool, true, false, List, [], ◌∷◌, ◌++◌,
  Text, Bytes, Option, none, some, length, replicate, All, ltb, ◌==◌, ◌&&◌, if◌then◌else◌, Result,
  ok, err, ◌>>=◌, codes,
}
use libra_v.Compat.Hex.{hex_bytes, HexCrate}

pub data AccountAddressParseError : Type 0 where
  unable_to_parse : AccountAddressParseError

abbrev pub address_length : ℕ
address_length = 16

pub record LegacyAddressV5 : Type 0 where
  pub address : Bytes

-- What the type `[u8; 16]` says of the field.
pub record IsAddress (a : LegacyAddressV5) : Type 0 where
  pub length_law : length a.address ≡ 16
  pub byte_law : All (λ b. b < 2 ^ 8) a.address

unfoldable pub zero_address : LegacyAddressV5
zero_address = record { address = replicate address_length 0 }

unfoldable pub legacy_core_code_address : LegacyAddressV5
legacy_core_code_address = record { address = replicate 15 0 ++ (1 ∷ []) }

unfoldable pub from_bytes : Bytes → Result AccountAddressParseError LegacyAddressV5
from_bytes bytes =
    if length bytes == address_length
    then ok (record { address = bytes })
    else err AccountAddressParseError.unable_to_parse

-- `{:02X}` of the bytes in a row.
abbrev pub upper_digit : ℕ → ℕ
upper_digit d = if ltb d 10 then 48 + d else 55 + d

abbrev pub upper_bytes : Bytes → Text
upper_bytes [] = []
upper_bytes (b ∷ bytes) = upper_digit (b / 16) ∷ (upper_digit (b % 16) ∷ upper_bytes bytes)

abbrev pub prefix_if : Bool → Text
prefix_if true = codes "0x"
prefix_if false = []

unfoldable pub lower_hex : Bool → LegacyAddressV5 → Text
lower_hex alternate a = prefix_if alternate ++ hex_bytes a.address

unfoldable pub upper_hex : Bool → LegacyAddressV5 → Text
upper_hex alternate a = prefix_if alternate ++ upper_bytes a.address

-- `Display` and `Debug`.
unfoldable pub address_to_string : LegacyAddressV5 → Text
unfolding upper_hex
address_to_string a = upper_hex false a

unfoldable pub address_to_hex : LegacyAddressV5 → Text
unfolding lower_hex
address_to_hex a = lower_hex false a

-- `trim_start_matches('0')`.
unfoldable pub trim_zeros : Text → Text
trim_zeros [] = []
trim_zeros (c ∷ s) = let rest = trim_zeros s in if c == 48 then rest else c ∷ s

abbrev pub zero_if_empty : Text → Text
zero_if_empty [] = codes "0"
zero_if_empty (c ∷ s) = c ∷ s

-- `strip_prefix("0x")`, in place of the test by `starts_with` and the slice from 2.
abbrev pub after_0x : Text → Option Text
after_0x [] = none
after_0x (c ∷ []) = none
after_0x (c ∷ (d ∷ s)) = if (c == 48) && (d == 120) then some s else none

-- The digits after the prefix, with zeros before them up to 32; `2` is the length of the prefix.
unfoldable pub pad_digits : Text → ℕ → Text
pad_digits digits hex_len =
    if ltb hex_len (address_length * 2)
    then replicate (address_length * 2 - hex_len) 48 ++ digits
    else digits

-- `map_err` and `map(Self)`.
abbrev pub address_or_error : Option Bytes → Result AccountAddressParseError LegacyAddressV5
address_or_error none = err AccountAddressParseError.unable_to_parse
address_or_error (some bytes) = ok (record { address = bytes })

-- What serde writes: a text in formats for people, else the bytes in a named wrapper.
pub data AddressForm : Type 0 where
  str : Text → AddressForm
  newtype_struct : Text → Bytes → AddressForm

module _ (hex : HexCrate) where
  unfoldable pub short_str_lossless : LegacyAddressV5 → Text
  short_str_lossless a = zero_if_empty (trim_zeros (hex.encode a.address))

  unfoldable pub address_to_hex_literal : LegacyAddressV5 → Text
  address_to_hex_literal a = codes "0x" ++ short_str_lossless a

  unfoldable pub address_from_hex : Text → Result AccountAddressParseError LegacyAddressV5
  address_from_hex s = address_or_error (hex.array_from_hex address_length s)

  unfoldable pub from_hex_literal : Text → Result AccountAddressParseError LegacyAddressV5
  from_hex_literal literal = elim (after_0x literal) [
    | none ↦ err AccountAddressParseError.unable_to_parse
    | some digits ↦ address_from_hex (pad_digits digits (length literal - 2))
  ]

  unfoldable pub serialize_address : Bool → LegacyAddressV5 → AddressForm
  serialize_address true a = AddressForm.str (address_to_hex a)
  serialize_address false a = AddressForm.newtype_struct (codes "LegacyAddressV5") a.address

  -- The array of the wrapper is read with its length.
  unfoldable pub deserialize_address :
      Bool → AddressForm → Result AccountAddressParseError LegacyAddressV5
  deserialize_address true (AddressForm.str s) = address_from_hex s
  deserialize_address true (AddressForm.newtype_struct name bytes) =
      err AccountAddressParseError.unable_to_parse
  deserialize_address false (AddressForm.newtype_struct name bytes) = from_bytes bytes
  deserialize_address false (AddressForm.str s) = err AccountAddressParseError.unable_to_parse
