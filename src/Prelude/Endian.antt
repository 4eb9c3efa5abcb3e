-- ===== src/Prelude/Endian.antt =====
-- Numbers as a fixed number of bytes, the lowest byte first, and back.
use libra_v.Prelude.{
  ℕ, zero, suc, ◌+◌, ◌*◌, ◌/◌, ◌%◌, ◌^◌, ◌<◌, ◌≡◌, refl, [], ◌∷◌, Bytes, All, length, arith, ap,
}

-- `to_le_bytes`, or `LittleEndian::write_u64`, by the number of bytes.
unfoldable pub le_bytes : ℕ → ℕ → Bytes
le_bytes zero n = []
le_bytes (suc k) n = n % 256 ∷ le_bytes k (n / 256)

-- `from_le_bytes`.
unfoldable pub from_le_bytes : Bytes → ℕ
from_le_bytes [] = 0
from_le_bytes (b ∷ bytes) = b + 256 * from_le_bytes bytes

-- `256 ^ k`.
abbrev pub bound : ℕ → ℕ
bound zero = 1
bound (suc k) = 256 * bound k

pub le_bytes-injective :
    (k m n : ℕ) → m < bound k → n < bound k → le_bytes k m ≡ le_bytes k n → m ≡ n
unfolding le_bytes
le_bytes-injective zero m n hm hn h = omega arith
le_bytes-injective (suc k) m n hm hn h =
    let tails : le_bytes k (m / 256) ≡ le_bytes k (n / 256) = cc h in
    let heads : m % 256 ≡ n % 256 = cc h in
    omega (arith, le_bytes-injective k (m / 256) (n / 256) (omega arith) (omega arith) tails)

pub length-le_bytes : (k n : ℕ) → length (le_bytes k n) ≡ k
unfolding le_bytes
length-le_bytes zero n = refl
length-le_bytes (suc k) n = ap suc (length-le_bytes k (n / 256))

pub from_le_bytes-le_bytes : (k n : ℕ) → n < bound k → from_le_bytes (le_bytes k n) ≡ n
unfolding le_bytes from_le_bytes
from_le_bytes-le_bytes zero n h = omega arith
from_le_bytes-le_bytes (suc k) n h = omega (arith, from_le_bytes-le_bytes k (n / 256) (omega arith))

pub le_bytes-from_le_bytes :
    (k : ℕ) (bytes : Bytes)
    → length bytes ≡ k
    → All (λ b. b < 2 ^ 8) bytes
    → le_bytes k (from_le_bytes bytes) ≡ bytes
unfolding le_bytes from_le_bytes
le_bytes-from_le_bytes zero [] count h = refl
le_bytes-from_le_bytes zero (b ∷ bytes) count h = absurd (omega arith)
le_bytes-from_le_bytes (suc k) [] count h = absurd (omega arith)
le_bytes-from_le_bytes (suc k) (b ∷ bytes) count (hb, h) =
    let low : (b + 256 * from_le_bytes bytes) % 256 ≡ b = omega arith in
    let high : (b + 256 * from_le_bytes bytes) / 256 ≡ from_le_bytes bytes = omega arith in
    rw (low, high) (ap (λ t. b ∷ t) (le_bytes-from_le_bytes k bytes (omega arith) h))
