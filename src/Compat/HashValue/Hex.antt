-- ===== src/Compat/HashValue/Hex.antt =====
-- The texts of a hash: `to_hex` and its nibbles, `Display`, and what serde writes and reads.
use Prim.Native.Nat.{bit_and}
use libra_v.Prelude.{
  ℕ, zero, suc, ◌/◌, ◌%◌, ◌^◌, ◌<◌, ◌≡◌, refl, subst, Bool, true, false, [], ◌∷◌, Bytes, some,
  length, get_elem?, All, arith, lt→ltb, ◌==◌, if◌then◌else◌, ok,
}
use libra_v.Prelude.Bits.{bit_and-mask}
use libra_v.Compat.HashValue.{
  HashValueV5, IsHash, to_hex, fmt_lower_hex, from_hex, from_slice, serialize, deserialize, nibble,
  byte_at,
}
use libra_v.Compat.Hex.{hex_digit, hex_bytes, HexCrate, hex_bytes-Spells}

module _ (hex : HexCrate) where
  from_hex-to_hex : (h : HashValueV5) → IsHash h → from_hex hex (to_hex h) ≡ ok h
  unfolding from_hex to_hex fmt_lower_hex
  from_hex-to_hex h w =
      let decoded =
        hex.decode_law 32 (hex_bytes h.hash) h.hash w.length_law w.byte_law
          (hex_bytes-Spells h.hash w.byte_law) in
      rw (decoded, from_hex) refl

  from_slice-hash : (h : HashValueV5) → IsHash h → from_slice h.hash ≡ ok h
  unfolding from_slice
  from_slice-hash h w = rw w.length_law refl

  -- A hash that serde has written is read back, both as a text and as bytes.
  pub deserialize-serialize :
      (human_readable : Bool) (h : HashValueV5)
      → IsHash h
      → deserialize hex human_readable (serialize hex human_readable h) ≡ ok h
  unfolding deserialize serialize
  deserialize-serialize true h w = from_hex-to_hex h w
  deserialize-serialize false h w = from_slice-hash h w

-- The digit of a byte at an even or an odd place.
abbrev half : ℕ → ℕ → ℕ
half b i = if i % 2 == 0 then b / 16 else b % 16

digit_at :
    (bytes : Bytes) (i b : ℕ)
    → get_elem? bytes (i / 2) ≡ some b
    → get_elem? (hex_bytes bytes) i ≡ some (hex_digit (half b i))
digit_at [] i b h = cc
digit_at (c ∷ bytes) zero b h = let e : c ≡ b = cc in rw e refl
digit_at (c ∷ bytes) (suc zero) b h = let e : c ≡ b = cc in rw e refl
digit_at (c ∷ bytes) (suc (suc i)) b h =
    let next : suc (suc i) / 2 ≡ suc (i / 2) = omega arith in
    let parity : suc (suc i) % 2 ≡ i % 2 = omega arith in
    let found = subst (λ (k : ℕ). get_elem? (c ∷ bytes) k ≡ some b) next h in
    rw parity (digit_at bytes i b found)

byte_found :
    (bytes : Bytes) (i : ℕ)
    → All (λ b. b < 2 ^ 8) bytes
    → i < length bytes
    → (b : ℕ) × (get_elem? bytes i ≡ some b) × (b < 2 ^ 8)
byte_found [] i h lt = absurd (omega arith)
byte_found (b ∷ bytes) zero (hb, h) lt = (b, refl, hb)
byte_found (b ∷ bytes) (suc i) (hb, h) lt = byte_found bytes i h (omega arith)

nibble-half :
    (h : HashValueV5) (i b : ℕ)
    → i < 64
    → get_elem? h.hash (i / 2) ≡ some b
    → b < 2 ^ 8
    → nibble h i ≡ ok (half b i)
unfolding nibble
nibble-half h i b hi found hb =
    let high : bit_and (b / 2 ^ 4) 15 ≡ b / 16 = omega (arith, bit_and-mask 4 (b / 2 ^ 4)) in
    let low : bit_and (b / 2 ^ 0) 15 ≡ b % 16 = omega (arith, bit_and-mask 4 (b / 2 ^ 0)) in
    let at : byte_at h.hash (i / 2) ≡ ok b = rw (found, byte_at) refl in
    rw (lt→ltb i 64 hi, at, nibble) (ground arith)

-- The hex text of a hash is its nibbles in order, as digits.
pub to_hex-nibble :
    (h : HashValueV5) (i : ℕ)
    → IsHash h
    → i < 64
    → (v : ℕ) × (nibble h i ≡ ok v) × (get_elem? (to_hex h) i ≡ some (hex_digit v))
unfolding to_hex fmt_lower_hex
to_hex-nibble h i w hi =
    let (b, found, hb) = byte_found h.hash (i / 2) w.byte_law (omega (arith, w.length_law)) in
    (half b i, nibble-half h i b hi found hb, digit_at h.hash i b found)
