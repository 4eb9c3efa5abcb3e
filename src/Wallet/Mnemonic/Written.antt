-- ===== src/Wallet/Mnemonic/Written.antt =====
-- The bytes that the writer ends with, when it was given the words of an entropy.
use libra_v.Prelude.{
  Bool-cases, ==_iff, ℕ, zero, suc, ◌+◌, ◌-◌, ◌*◌, ◌/◌, ◌%◌, ◌^◌, ◌≤◌, ◌<◌, ◌≡◌, refl, sym, ◌∙◌, ap,
  List, [], ◌∷◌, ◌++◌, append_assoc, append-nil, Bytes, length, length-append, All, All-append,
  arith, Bool, inl, inr, ◌==◌,
}
use native.Mathlib.Nat.{pow-suc, one-le-pow, div-lt_iff_lt-mul, div-add-mod', mod-lt, div-le_self}
use libra_v.Prelude.Bits.{
  times_double, bits_of-one, bits, bits_of, bits-fields, bits-injective, bits_of-injective,
  bits_of-append, length-bits, length-bits_of, append-split,
}
use libra_v.Wallet.Mnemonic.Writer.{U11BitWriter, write_buffer}
use libra_v.Wallet.Mnemonic.Writer.Stream.{Holds}

power_sum : (q k w : ℕ) → w ≡ q + k → 2 ^ q * 2 ^ k ≡ 2 ^ w
power_sum q zero w h = let same : w ≡ q = omega arith in rw same (omega arith)
power_sum q (suc k) zero h = absurd (omega arith)
power_sum q (suc k) (suc w) h =
    omega (arith, times_double (2 ^ q) k, pow-suc 2 w, power_sum q k w (omega arith))

byte_high : (u x c : ℕ) → 8 ≡ x + u → c < 2 ^ 8 → c / 2 ^ u < 2 ^ x
byte_high u x c sum h =
    let whole : 2 ^ x * 2 ^ u ≡ 2 ^ 8 = power_sum x u 8 sum in
    (div-lt_iff_lt-mul {k = 2 ^ u} {x = c} {y = 2 ^ x} (one-le-pow u 2 (omega arith))).1
      (omega arith)

-- The bytes that the writer ends with, when the bits given were those of bytes `front` and of the
-- high part of a byte `c`.
module _ (w : U11BitWriter) (vs : List ℕ) (front : Bytes) (c : ℕ) (held : Holds w vs) where
  partial_byte :
      (tail : List Bool)
      → bits_of 11 vs ++ tail ≡ bits_of 8 (front ++ (c ∷ []))
      → All (λ b. b < 2 ^ 8) front
      → c < 2 ^ 8
      → length w.bytes ≡ length front
      → (w.bytes ≡ front) × (w.buffer ≡ c / 2 ^ w.unused)
  partial_byte tail stream hf hc count =
      let x = 8 - w.unused in
      let joined : bits_of 8 w.bytes ++ (bits x w.buffer ++ tail) ≡ bits_of 8 front ++ bits 8 c =
        sym (append_assoc (bits_of 8 w.bytes) (bits x w.buffer) tail)
        ∙ ap (λ t. t ++ tail) held.stream
        ∙ stream
        ∙ bits_of-append 8 front (c ∷ [])
        ∙ ap (λ t. bits_of 8 front ++ t) (bits_of-one 8 c) in
      let (bytes_eq, rest) =
        append-split (bits_of 8 w.bytes) (bits_of 8 front) _ _
          (omega (arith, length-bits_of 8 w.bytes, length-bits_of 8 front)) joined in
      let parts : c ≡ c / 2 ^ w.unused * 2 ^ w.unused + c % 2 ^ w.unused =
        sym (div-add-mod' c (2 ^ w.unused)) in
      let fields =
        bits-fields w.unused x 8 (c / 2 ^ w.unused) (c % 2 ^ w.unused) (omega (arith, held.high))
          (mod-lt c (one-le-pow w.unused 2 (omega arith))) in
      let (high, low) =
        append-split (bits x w.buffer) (bits x (c / 2 ^ w.unused)) _ _
          (length-bits x w.buffer ∙ sym (length-bits x (c / 2 ^ w.unused)))
          (rest ∙ ap (bits 8) parts ∙ fields) in
      (
        bits_of-injective 8 w.bytes front held.byte_law hf count bytes_eq,
        bits-injective x w.buffer (c / 2 ^ w.unused) held.fits
            (byte_high w.unused x c (omega (arith, held.high)) hc) high,
      )

  -- With no bits in the buffer the bytes are all there.
  whole_byte :
      (tail : List Bool)
      → bits_of 11 vs ++ tail ≡ bits_of 8 (front ++ (c ∷ []))
      → All (λ b. b < 2 ^ 8) front
      → c < 2 ^ 8
      → length w.bytes ≡ suc (length front)
      → w.bytes ≡ front ++ (c ∷ [])
  whole_byte tail stream hf hc count =
      let x = 8 - w.unused in
      let total = length-append front (c ∷ []) in
      let joined : bits_of 8 w.bytes ++ (bits x w.buffer ++ tail)
          ≡ bits_of 8 (front ++ (c ∷ [])) ++ [] =
        sym (append_assoc (bits_of 8 w.bytes) (bits x w.buffer) tail)
        ∙ ap (λ t. t ++ tail) held.stream
        ∙ stream
        ∙ sym (append-nil (bits_of 8 (front ++ (c ∷ [])))) in
      let (bytes_eq, rest) =
        append-split (bits_of 8 w.bytes) (bits_of 8 (front ++ (c ∷ []))) _ _
          (omega
            (arith, length-bits_of 8 w.bytes, length-bits_of 8 (front ++ (c ∷ [])), total, count))
          joined in
      bits_of-injective 8 w.bytes (front ++ (c ∷ [])) held.byte_law
        (All-append (λ b. b < 2 ^ 8) front (c ∷ []) hf (hc, tt)) (omega (arith, total, count))
        bytes_eq

  -- How many bytes are whole and how many bits are in the buffer.
  sizes : length w.bytes * 8 + (8 - w.unused) ≡ length vs * 11
  sizes = omega (
    arith,
    ap length held.stream,
    length-append (bits_of 8 w.bytes) (bits (8 - w.unused) w.buffer),
    length-bits_of 8 w.bytes,
    length-bits (8 - w.unused) w.buffer,
    length-bits_of 11 vs,
  )

  pub written :
      (tail : List Bool)
      → bits_of 11 vs ++ tail ≡ bits_of 8 (front ++ (c ∷ []))
      → All (λ b. b < 2 ^ 8) front
      → c < 2 ^ 8
      → length vs * 4 ≡ length front * 3
      → 16 ≤ length front
      → length front ≤ 32
      → length front % 4 ≡ 0
      → write_buffer w ≡ front ++ (c / 2 ^ (8 - length vs / 3) ∷ [])
  unfolding write_buffer
  written tail stream hf hc count low high whole =
      let total = sizes in
      elim (Bool-cases (w.unused == 8)) [
        | inl e ↦
            let full : w.unused ≡ 8 = (==_iff w.unused 8).0 e in
            let shift : 8 - length vs / 3 ≡ 0 = omega (arith, held.low) in
            let last : c / 2 ^ 0 ≡ c = omega arith in
            let bytes_eq = whole_byte tail stream hf hc (omega arith) in
            rw (e, shift, last) bytes_eq
        | inr e ↦
            let partial : w.unused < 8 = ground (arith, held.high) in
            let shift : 8 - length vs / 3 ≡ w.unused = omega (arith, held.low) in
            let (bytes_eq, buffer_eq) = partial_byte tail stream hf hc (omega (arith, held.low)) in
            let byte : w.buffer % 2 ^ 8 ≡ c / 2 ^ w.unused =
              omega (arith, div-le_self c (2 ^ w.unused), buffer_eq) in
            rw (e, shift, bytes_eq, byte) refl
      ]
