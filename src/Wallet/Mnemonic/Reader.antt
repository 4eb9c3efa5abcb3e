-- ===== src/Wallet/Mnemonic/Reader.antt =====
-- U11BitReader of tools/wallet/src/core/mnemonic.rs: eleven bits at a time from a byte slice.
pub mod Stream
use Prim.Native.Nat.{bit_and, bit_or}
use libra_v.Prelude.{
  ℕ, zero, suc, ◌+◌, ◌-◌, ◌*◌, ◌/◌, ◌%◌, ◌^◌, ◌≤◌, ◌<◌, ◌≡◌, Bytes, Option, none, some, get_elem?,
}

pub record U11BitReader : Type 0 where
  pub bytes : Bytes
  -- Counted in bits.
  pub position : ℕ

unfoldable pub new_reader : Bytes → U11BitReader
new_reader bytes = record { bytes = bytes; position = 0 }

-- `value << 1` of a `u16`, with the bit of the byte below it.
unfoldable pub shift_in : ℕ → ℕ → ℕ → ℕ
shift_in value byte i = bit_or (value * 2 % 2 ^ 16) (bit_and (byte / 2 ^ (7 - i % 8)) 1)

-- The `for` loop with `left` rounds to go; `none` is an index past the slice.
unfoldable pub read_bits : Bytes → ℕ → ℕ → ℕ → Option ℕ
read_bits bytes zero i value = some value
read_bits bytes (suc left) i value = elim (get_elem? bytes (i / 8)) [
  | none ↦ none
  | some byte ↦ read_bits bytes left (i + 1) (shift_in value byte i)
]

unfoldable pub read_u11 : U11BitReader → Option (ℕ × U11BitReader)
read_u11 r = elim (read_bits r.bytes 11 r.position 0) [
  | none ↦ none
  | some value ↦ some (value, record { bytes = r.bytes; position = r.position + 11 })
]
