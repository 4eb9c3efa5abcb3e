-- ===== src/Wallet/Mnemonic/Reader/Stream.antt =====
-- The reader returns the bits of the slice, eleven at a time.
use native.Mathlib.Nat.{pow-suc, pow-le-pow_right}
use libra_v.Prelude.{
  ℕ, zero, suc, ◌+◌, ◌-◌, ◌*◌, ◌/◌, ◌%◌, ◌^◌, ◌≤◌, ◌<◌, ◌≡◌, refl, sym, ◌∙◌, ap, subst, [], ◌∷◌,
  ◌++◌, append_assoc, some, length, get_elem?, drop, arith, Bytes,
}
use libra_v.Prelude.Bits.{bit_or-sum, bit_and-mask, bits, bits_of, bit_of, drop-bits_of}
use libra_v.Wallet.Mnemonic.Reader.{U11BitReader, shift_in, read_bits, read_u11}

get-within : (bytes : Bytes) (i : ℕ) → i < length bytes → (b : ℕ) × (get_elem? bytes i ≡ some b)
get-within [] i h = absurd (omega arith)
get-within (b ∷ bytes) zero h = (b, refl)
get-within (b ∷ bytes) (suc i) h = get-within bytes i (omega arith)

shift_in-sum :
    (value byte i : ℕ)
    → value < 2 ^ 15
    → shift_in value byte i ≡ value * 2 + byte / 2 ^ (7 - i % 8) % 2
unfolding shift_in
shift_in-sum value byte i h =
    let kept : value * 2 % 2 ^ 16 ≡ value * 2 ^ 1 = omega arith in
    rw (kept, bit_and-mask 1 (byte / 2 ^ (7 - i % 8)))
      (bit_or-sum 1 value (byte / 2 ^ (7 - i % 8) % 2) (omega arith))

bits-shift_in :
    (k value byte i : ℕ)
    → value < 2 ^ 15
    → bits (suc k) (shift_in value byte i) ≡ bits k value ++ (bit_of byte i ∷ [])
unfolding bits
bits-shift_in k value byte i h =
    let sum = shift_in-sum value byte i h in
    let half : shift_in value byte i / 2 ≡ value = omega (arith, sum) in
    let low : shift_in value byte i % 2 ≡ byte / 2 ^ (7 - i % 8) % 2 = omega (arith, sum) in
    rw (half, low) refl

power_le : (k j : ℕ) → k ≤ j → 2 ^ k ≤ 2 ^ j
power_le k j h = pow-le-pow_right {n = 2} (omega arith) h

-- With `left` bits to go and the last `k` bits in `value`, the bits read are those of the slice.
pub read_bits-stream :
    (bytes : Bytes) (left i k value : ℕ)
    → value < 2 ^ k
    → k + left ≤ 11
    → i + left ≤ length bytes * 8
    → (v : ℕ) × (read_bits bytes left i value ≡ some v)
      × (v < 2 ^ (k + left))
      × (bits (k + left) v ++ drop (i + left) (bits_of 8 bytes)
          ≡ bits k value ++ drop i (bits_of 8 bytes))
unfolding read_bits
read_bits-stream bytes zero i k value hv width within =
    let same : k + 0 ≡ k = omega arith in
    let here : i + 0 ≡ i = omega arith in (value, refl, rw same hv, rw (same, here) refl)
read_bits-stream bytes (suc left) i k value hv width within =
    let (byte, at) = get-within bytes (i / 8) (omega arith) in
    let room : 2 ^ k ≤ 2 ^ 15 = power_le k 15 (omega arith) in
    let small : value < 2 ^ 15 = omega arith in
    let sum = shift_in-sum value byte i small in
    let (v, run, fits, stream) =
      read_bits-stream bytes left (i + 1) (suc k) (shift_in value byte i)
        (omega (arith, pow-suc 2 k)) (omega arith) (omega arith) in
    let next : suc i ≡ i + 1 = omega arith in
    let bit =
      subst (λ j. drop i (bits_of 8 bytes) ≡ bit_of byte i ∷ drop j (bits_of 8 bytes)) next
        (drop-bits_of bytes i byte at) in
    let width' : k + suc left ≡ suc k + left = omega arith in
    let here : i + suc left ≡ i + 1 + left = omega arith in
    (
      v,
      rw (at, read_bits) run,
      rw width' fits,
      rw (width', here, stream, bits-shift_in k value byte i small)
          (append_assoc (bits k value) (bit_of byte i ∷ []) (drop (i + 1) (bits_of 8 bytes))
            ∙ ap (λ t. bits k value ++ t) (sym bit)),
    )

-- A word read at a place with eleven bits left is the number of these bits.
pub read_u11-stream :
    (r : U11BitReader)
    → r.position + 11 ≤ length r.bytes * 8
    → (v : ℕ) × (read_u11 r ≡ some (v, record { bytes = r.bytes; position = r.position + 11 }))
      × (v < 2 ^ 11)
      × (bits 11 v ++ drop (r.position + 11) (bits_of 8 r.bytes)
          ≡ drop r.position (bits_of 8 r.bytes))
unfolding read_u11 bits
read_u11-stream r within =
    let (v, run, fits, stream) =
      read_bits-stream r.bytes 11 r.position 0 0 (omega arith) (omega arith) within in
    (v, rw (run, read_u11) refl, fits, stream)
