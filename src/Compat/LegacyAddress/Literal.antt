-- ===== src/Compat/LegacyAddress/Literal.antt =====
-- A literal of an address, written without its leading zeros and read back.
use libra_v.Prelude.{
  ℕ, zero, suc, ◌+◌, ◌-◌, ◌≡◌, refl, ap, subst, Bool, true, false, [], ◌∷◌, ◌++◌, Text, length,
  replicate, arith, ltb, ◌==◌, ok,
}
use libra_v.Compat.Hex.{HexCrate, hex_bytes, hex_bytes-Spells, length-hex_bytes}
use libra_v.Compat.LegacyAddress.{
  LegacyAddressV5, IsAddress, trim_zeros, zero_if_empty, pad_digits, short_str_lossless,
  address_to_hex_literal, address_from_hex, from_hex_literal, address_to_hex, lower_hex,
  serialize_address, deserialize_address, from_bytes,
}

-- The text is its trimmed text after zeros.
record Trimmed (s : Text) : Type 0 where
  zeros : ℕ
  count : zeros + length (trim_zeros s) ≡ length s
  whole : replicate zeros 48 ++ trim_zeros s ≡ s

Trimmed-cons : (c : ℕ) (s : Text) (t : Bool) → (c == 48) ≡ t → Trimmed s → Trimmed (c ∷ s)
unfolding trim_zeros
Trimmed-cons c s true e r =
    let same : c ≡ 48 = ground arith in
    let cut : trim_zeros (c ∷ s) ≡ trim_zeros s = rw e refl in
    record {
      zeros = suc r.zeros;
      count = rw cut (omega (arith, r.count));
      whole = rw (cut, same) (ap (λ t. 48 ∷ t) r.whole);
    }
Trimmed-cons c s false e r =
    let kept : trim_zeros (c ∷ s) ≡ c ∷ s = rw e refl in
    record { zeros = 0; count = rw kept (omega arith); whole = rw kept refl }

trimmed : (s : Text) → Trimmed s
unfolding trim_zeros
trimmed [] = record { zeros = 0; count = omega arith; whole = refl }
trimmed (c ∷ s) = Trimmed-cons c s (c == 48) refl (trimmed s)

pub pad_digits-zeros :
    (digits : Text) (n zeros : ℕ)
    → zeros + n ≡ 32
    → pad_digits digits n ≡ replicate zeros 48 ++ digits
unfolding pad_digits
pad_digits-zeros digits n zero h =
    let full : ltb n 32 ≡ false = ground arith in rw (full, pad_digits) refl
pad_digits-zeros digits n (suc zeros) h =
    let few : ltb n 32 ≡ true = ground arith in
    let missing : 32 - n ≡ suc zeros = omega arith in rw (few, missing, pad_digits) refl

-- Padding the shortened text gives the text back; a text of zeros is shortened to one of them.
pad_short :
    (s t : Text)
    → length s ≡ 32
    → Trimmed s
    → trim_zeros s ≡ t
    → pad_digits (zero_if_empty t) (length (zero_if_empty t)) ≡ s
unfolding pad_digits
pad_short s [] count r e =
    let short : length (trim_zeros s) ≡ 0 = ap length e in
    let all : r.zeros ≡ 32 = omega (arith, r.count) in
    let found = subst (λ (t : Text). replicate r.zeros 48 ++ t ≡ s) e r.whole in
    subst (λ (n : ℕ). replicate n 48 ++ [] ≡ s) all found
pad_short s (c ∷ t) count r e =
    let short : length (trim_zeros s) ≡ suc (length t) = ap length e in
    let sum : r.zeros + suc (length t) ≡ 32 = omega (arith, r.count) in
    let found = subst (λ (u : Text). replicate r.zeros 48 ++ u ≡ s) e r.whole in
    rw (pad_digits-zeros (c ∷ t) (suc (length t)) r.zeros sum) found

module _ (hex : HexCrate) where
  encoded : (a : LegacyAddressV5) → IsAddress a → hex.encode a.address ≡ hex_bytes a.address
  encoded a w = hex.encode_law a.address w.byte_law

  decoded : (a : LegacyAddressV5) → IsAddress a → address_from_hex hex (hex_bytes a.address) ≡ ok a
  unfolding address_from_hex
  decoded a w =
      rw
        (
          hex.decode_law 16 (hex_bytes a.address) a.address w.length_law w.byte_law
              (hex_bytes-Spells a.address w.byte_law),
          address_from_hex,
        )
        refl

  -- The literal of an address, written without its leading zeros, is read back as that address.
  pub from_hex_literal-address_to_hex_literal :
      (a : LegacyAddressV5)
      → IsAddress a
      → from_hex_literal hex (address_to_hex_literal hex a) ≡ ok a
  unfolding from_hex_literal address_to_hex_literal short_str_lossless
  from_hex_literal-address_to_hex_literal a w =
      let count : length (hex_bytes a.address) ≡ 32 =
        omega (arith, length-hex_bytes a.address, w.length_law) in
      let padded =
        pad_short (hex_bytes a.address) (trim_zeros (hex_bytes a.address)) count
          (trimmed (hex_bytes a.address)) refl in
      let two : suc (suc (length (zero_if_empty (trim_zeros (hex_bytes a.address))))) - 2
          ≡ length (zero_if_empty (trim_zeros (hex_bytes a.address))) =
        omega arith in
      rw (encoded a w, two, padded) (decoded a w)

  -- An address that serde has written is read back, both as a text and as bytes.
  pub deserialize_address-serialize_address :
      (human_readable : Bool) (a : LegacyAddressV5)
      → IsAddress a
      → deserialize_address hex human_readable (serialize_address hex human_readable a) ≡ ok a
  unfolding deserialize_address serialize_address address_to_hex lower_hex from_bytes
  deserialize_address-serialize_address true a w = decoded a w
  deserialize_address-serialize_address false a w = rw w.length_law refl
