-- ===== src/Tests/Hashes.antt =====
-- Hashes of version five at concrete bytes, with a decoder of hexadecimal digits.
use libra_v.Prelude.{
  ℕ, zero, suc, ◌^◌, ◌<◌, ◌≡◌, refl, true, ◌∷◌, replicate, All, arith, ok, err, ◌>>=◌, codes,
}
use libra_v.Prelude.Bits.{bits_of}
use libra_v.Compat.HashValue.{
  HashValueV5, HashError, IsHash, from_bit_iter, serialize, deserialize, fmt_display,
}
use libra_v.Tests.Hex.{hex}
use libra_v.Compat.HashValue.Iterator.{
  iter_bits, collect, next_back, common_prefix_bits_len, count_equal, next, get_bit,
}
use libra_v.Compat.HashValue.Bits.{collect-iter_bits}
use libra_v.Compat.HashValue.Back.{next_back_panics}
use libra_v.Compat.HashValue.Prefix.{Agrees, common_prefix_bits_len-Agrees}
use libra_v.Compat.HashValue.FromBits.{from_bit_iter-collect}
use libra_v.Compat.HashValue.Hex.{deserialize-serialize}

abbrev first : HashValueV5
first = record { hash = 165 ∷ replicate 31 0 }

abbrev second : HashValueV5
second = record { hash = 167 ∷ replicate 31 0 }

small : (b n : ℕ) → b < 2 ^ 8 → All (λ c. c < 2 ^ 8) (b ∷ replicate n 0)
small b zero h = (h, tt)
small b (suc n) h = (h, small 0 n (omega arith))

first-IsHash : IsHash first
first-IsHash = record { length_law = refl; byte_law = small 165 31 (omega arith) }

second-IsHash : IsHash second
second-IsHash = record { length_law = refl; byte_law = small 167 31 (omega arith) }

collect-first : collect 257 (iter_bits first) ≡ ok (bits_of 8 first.hash)
collect-first = collect-iter_bits first first-IsHash

next_back_panics_example : next_back (iter_bits first) ≡ err HashError.panic
unfolding iter_bits
next_back_panics_example = next_back_panics (iter_bits first) (omega arith)

common_prefix_bits_len-Agrees_example :
    (n : ℕ) × (common_prefix_bits_len first second ≡ ok n) × Agrees first second 0 n
common_prefix_bits_len-Agrees_example =
    common_prefix_bits_len-Agrees first second first-IsHash second-IsHash

common_prefix-six : common_prefix_bits_len first second ≡ ok 6
unfolding common_prefix_bits_len count_equal iter_bits next get_bit
common_prefix-six = refl

from_bit_iter-collect_example :
    (collect 257 (iter_bits first) >>= λ bits. from_bit_iter bits) ≡ ok first
from_bit_iter-collect_example = from_bit_iter-collect first first-IsHash

deserialize-serialize_example : deserialize hex true (serialize hex true first) ≡ ok first
deserialize-serialize_example = deserialize-serialize hex true first first-IsHash

display_first : fmt_display first ≡ codes "a5000000"
unfolding fmt_display
display_first = refl
