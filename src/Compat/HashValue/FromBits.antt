-- ===== src/Compat/HashValue/FromBits.antt =====
-- `from_bit_iter`: a hash has the bits that it was built from.
use libra_v.Prelude.{
  ◌>>=◌, ℕ, zero, suc, ◌+◌, ◌*◌, ◌^◌, ◌<◌, ◌≡◌, refl, sym, ◌∙◌, ap, Bool, true, false, List, [],
  ◌∷◌, ◌++◌, append_assoc, Bytes, length, length-append, replicate, All, arith, ok,
}
use libra_v.Prelude.Bits.{bits, bits_of, length-bits_of, bits_of-injective}
use libra_v.Compat.HashValue.Iterator.{iter_bits, collect}
use libra_v.Compat.HashValue.Bits.{collect-iter_bits}
use libra_v.Compat.HashValue.{HashValueV5, IsHash, set_bit, set_bits, from_bit_iter}
use libra_v.Compat.HashValue.SetBit.{raise, set_bit-Raised}

raise_at :
    (before : List Bool) (x : Bool) (after : List Bool)
    → raise (before ++ (x ∷ after)) (length before) ≡ before ++ (true ∷ after)
raise_at [] x after = refl
raise_at (y ∷ before) x after = ap (λ t. y ∷ t) (raise_at before x after)

-- The loop turns the zeros that are left into the bits that are left.
set_bits-Raised :
    (xs before : List Bool) (i : ℕ) (buf : Bytes)
    → i ≡ length before
    → All (λ b. b < 2 ^ 8) buf
    → bits_of 8 buf ≡ before ++ replicate (length xs) false
    → (bits_of 8 (set_bits xs i buf) ≡ before ++ xs)
      × All (λ b. b < 2 ^ 8) (set_bits xs i buf)
      × (length (set_bits xs i buf) ≡ length buf)
unfolding set_bits
set_bits-Raised [] before i buf hi h start = (start, h, refl)
set_bits-Raised (false ∷ xs) before i buf hi h start =
    let (e, f, g) =
      set_bits-Raised xs (before ++ (false ∷ [])) (i + 1) buf
        (omega (arith, length-append before (false ∷ []))) h
        (start ∙ sym (append_assoc before (false ∷ []) (replicate (length xs) false))) in
    (e ∙ append_assoc before (false ∷ []) xs, f, g)
set_bits-Raised (true ∷ xs) before i buf hi h start =
    let zeros = replicate (length xs) false in
    let total = ap length start in
    let within : i < length buf * 8 =
      omega (arith, length-bits_of 8 buf, length-append before (false ∷ zeros), hi) in
    let r = set_bit-Raised buf i h within in
    let next : bits_of 8 (set_bit buf i) ≡ (before ++ (true ∷ [])) ++ zeros =
      r.bits_eq
      ∙ ap (λ t. raise t i) start
      ∙ ap (raise (before ++ (false ∷ zeros))) hi
      ∙ raise_at before false zeros
      ∙ sym (append_assoc before (true ∷ []) zeros) in
    let (e, f, g) =
      set_bits-Raised xs (before ++ (true ∷ [])) (i + 1) (set_bit buf i)
        (omega (arith, length-append before (true ∷ []))) r.byte_law next in
    (e ∙ append_assoc before (true ∷ []) xs, f, g ∙ r.length_law)

small_zeros : (n : ℕ) → All (λ b. b < 2 ^ 8) (replicate n 0)
small_zeros zero = tt
small_zeros (suc n) = (omega arith, small_zeros n)

zeros_bits : bits_of 8 (replicate 32 0) ≡ replicate 256 false
unfolding bits_of bits
zeros_bits = refl

-- Any 256 bits make a hash, whose bytes have these bits.
pub from_bit_iter-IsHash :
    (xs : List Bool)
    → length xs ≡ 256
    → (h : HashValueV5) × (from_bit_iter xs ≡ ok h) × IsHash h × (bits_of 8 h.hash ≡ xs)
unfolding from_bit_iter
from_bit_iter-IsHash xs count =
    let zero_bytes = small_zeros 32 in
    let start : bits_of 8 (replicate 32 0) ≡ replicate (length xs) false = rw count zeros_bits in
    let (e, f, g) = set_bits-Raised xs [] 0 (replicate 32 0) refl zero_bytes start in
    (
      record { hash = set_bits xs 0 (replicate 32 0) },
      rw (count, from_bit_iter) refl,
      record { length_law = g; byte_law = f },
      e,
    )

-- Collecting the bits of a hash and building a hash from them gives the hash back.
pub from_bit_iter-collect :
    (h : HashValueV5) → IsHash h → (collect 257 (iter_bits h) >>= λ bits. from_bit_iter bits) ≡ ok h
from_bit_iter-collect h w =
    let count : length (bits_of 8 h.hash) ≡ 256 =
      omega (arith, length-bits_of 8 h.hash, w.length_law) in
    let (h', run, w', bits_eq) = from_bit_iter-IsHash (bits_of 8 h.hash) count in
    let same : h'.hash ≡ h.hash =
      bits_of-injective 8 h'.hash h.hash w'.byte_law w.byte_law (w'.length_law ∙ sym w.length_law)
        bits_eq in
    let whole : h' ≡ h = λ i. record { hash = same i } in
    rw (collect-iter_bits h w) (run ∙ ap ok whole)
