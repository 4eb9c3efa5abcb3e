-- ===== src/Tests/Addresses.antt =====
-- Addresses and keys of events of version five at concrete bytes.
use libra_v.Prelude.{Text, ◌≡◌, refl, [], ◌∷◌, ◌++◌, replicate, arith, ok, codes, ◌↔◌}
use libra_v.Compat.LegacyAddress.{
  LegacyAddressV5, IsAddress, short_str_lossless, address_to_hex_literal, from_hex_literal,
  trim_zeros, address_to_string, upper_hex,
}
use libra_v.Compat.LegacyAddress.Literal.{from_hex_literal-address_to_hex_literal}
use libra_v.Compat.LegacyAddress.Numeral.{Writes, from_hex_literal_iff}
use libra_v.Compat.EventKey.{
  EventKeyV5, IsKey, new_from_address, get_creator_address, get_creation_number,
}
use libra_v.Prelude.Endian.{le_bytes}
use libra_v.Compat.EventKey.Parts.{new_from_address_iff}
use libra_v.Tests.Hex.{hex, small_zeros}

abbrev alice : LegacyAddressV5
alice = record { address = replicate 14 0 ++ (10 ∷ 188 ∷ []) }

alice-IsAddress : IsAddress alice
alice-IsAddress = record {
  length_law = refl;
  byte_law = small_zeros 14 (10 ∷ 188 ∷ []) (omega arith, (omega arith, tt));
}

from_hex_literal-address_to_hex_literal_example :
    from_hex_literal hex (address_to_hex_literal hex alice) ≡ ok alice
from_hex_literal-address_to_hex_literal_example =
    from_hex_literal-address_to_hex_literal hex alice alice-IsAddress

literal_of_alice : address_to_hex_literal hex alice ≡ codes "0xabc"
unfolding address_to_hex_literal short_str_lossless trim_zeros
literal_of_alice = refl

text_of_alice : address_to_string alice ≡ codes "00000000000000000000000000000ABC"
unfolding address_to_string upper_hex
text_of_alice = refl

from_hex_literal_iff_example :
    (from_hex_literal hex (codes "0xaBc") ≡ ok alice)
    ↔ ((digits : Text) × (codes "0xaBc" ≡ codes "0x" ++ digits) × Writes digits alice)
from_hex_literal_iff_example = from_hex_literal_iff hex (codes "0xaBc") alice

alice-Writes : Writes (codes "aBc") alice
alice-Writes = (omega arith, refl, alice-IsAddress)

-- The third stream of the address.
abbrev third : EventKeyV5
third = record { key = (2 ∷ replicate 7 0) ++ (replicate 14 0 ++ (10 ∷ 188 ∷ [])) }

third-IsKey : IsKey third
third-IsKey = record {
  length_law = refl;
  byte_law = (omega arith, small_zeros 21 (10 ∷ 188 ∷ []) (omega arith, (omega arith, tt)));
}

new_from_address_iff_example :
    (new_from_address alice 2 ≡ third)
    ↔ ((get_creator_address third ≡ ok alice) × (get_creation_number third ≡ 2))
new_from_address_iff_example =
    new_from_address_iff third alice 2 third-IsKey alice-IsAddress (omega arith)

third_of_alice : new_from_address alice 2 ≡ third
unfolding new_from_address le_bytes
third_of_alice = refl
