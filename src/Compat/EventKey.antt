-- ===== src/Compat/EventKey.antt =====
-- compatibility/src/version_five/event_v5.rs: the keys of the streams of events of version five.
pub mod Parts
use libra_v.Prelude.{
  ℕ, ◌+◌, ◌<◌, ◌≡◌, ◌^◌, Bool, true, false, List, [], ◌∷◌, ◌++◌, Text, Bytes, Option, none, some,
  length, take, drop, All, ◌==◌, if◌then◌else◌, Result, ok, err, ◌>>=◌, codes,
}
use libra_v.Prelude.Endian.{le_bytes, from_le_bytes}
use libra_v.Compat.Hex.{hex_bytes, HexCrate}
use libra_v.Compat.LegacyAddress.{LegacyAddressV5, address_length, from_bytes, prefix_if}

-- A text or bytes that are no key, and a failed `expect`.
pub data EventKeyError : Type 0 where
  parse panic : EventKeyError

abbrev pub key_length : ℕ
key_length = address_length + 8

pub record EventKeyV5 : Type 0 where
  pub key : Bytes

-- What the type `[u8; 24]` says of the field.
pub record IsKey (k : EventKeyV5) : Type 0 where
  pub length_law : length k.key ≡ 24
  pub byte_law : All (λ b. b < 2 ^ 8) k.key

-- The last sixteen bytes, as an address.
unfoldable pub get_creator_address : EventKeyV5 → Result EventKeyError LegacyAddressV5
get_creator_address k = elim (from_bytes (drop 8 k.key)) [
  | ok a ↦ ok a
  | err e ↦ err EventKeyError.panic
]

-- The slice has eight bytes by the type of the key.
unfoldable pub get_creation_number : EventKeyV5 → ℕ
get_creation_number k = from_le_bytes (take 8 k.key)

-- The array of zeros is split at 8 and both parts are written over.
unfoldable pub new_from_address : LegacyAddressV5 → ℕ → EventKeyV5
new_from_address addr salt = record { key = le_bytes 8 salt ++ addr.address }

unfoldable pub key_from_bytes : Bytes → Result EventKeyError EventKeyV5
key_from_bytes bytes =
    if length bytes == key_length then ok (record { key = bytes }) else err EventKeyError.parse

unfoldable pub key_lower_hex : Bool → EventKeyV5 → Text
key_lower_hex alternate k = prefix_if alternate ++ hex_bytes k.key

unfoldable pub key_to_string : EventKeyV5 → Text
unfolding key_lower_hex
key_to_string k = key_lower_hex false k

unfoldable pub key_to_debug : EventKeyV5 → Text
unfolding key_lower_hex
key_to_debug k = codes "EventKey(" ++ (key_lower_hex false k ++ codes ")")

abbrev pub key_or_error : Option Bytes → Result EventKeyError EventKeyV5
key_or_error none = err EventKeyError.parse
key_or_error (some bytes) = ok (record { key = bytes })

-- What serde writes: a text in formats for people, else the bytes in a named wrapper.
pub data KeyForm : Type 0 where
  str : Text → KeyForm
  newtype_struct : Text → Bytes → KeyForm

module _ (hex : HexCrate) where
  unfoldable pub key_from_hex : Text → Result EventKeyError EventKeyV5
  key_from_hex s = key_or_error (hex.array_from_hex key_length s)

  unfoldable pub serialize_key : Bool → EventKeyV5 → KeyForm
  serialize_key true k = KeyForm.str (key_to_string k)
  serialize_key false k = KeyForm.newtype_struct (codes "EventKey") k.key

  -- The slice of the wrapper has any length, which `try_from` tests.
  unfoldable pub deserialize_key : Bool → KeyForm → Result EventKeyError EventKeyV5
  deserialize_key true (KeyForm.str s) = key_from_hex s
  deserialize_key true (KeyForm.newtype_struct name bytes) = err EventKeyError.parse
  deserialize_key false (KeyForm.newtype_struct name bytes) = key_from_bytes bytes
  deserialize_key false (KeyForm.str s) = err EventKeyError.parse

pub record EventHandleV5 : Type 0 where
  pub count : ℕ
  pub key : EventKeyV5

abbrev pub new_handle : EventKeyV5 → ℕ → EventHandleV5
new_handle key count = record { count = count; key = key }
