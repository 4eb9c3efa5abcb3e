-- ===== src/Wallet/KeyFactory/Info.antt =====
-- The info bytes of tools/wallet/src/core/key_factory.rs tell the children apart.
use libra_v.Prelude.{ℕ, ◌<◌, ◌^◌, ◌≡◌, [], ◌∷◌, ◌++◌, Bytes, arith}
use libra_v.Prelude.Endian.{le_bytes-injective}
use libra_v.Wallet.KeyFactory.{info, info_prefix}

append-injective : (xs : Bytes) {ys zs : Bytes} → xs ++ ys ≡ xs ++ zs → ys ≡ zs
append-injective [] h = h
append-injective (x ∷ xs) h = append-injective xs (cc h)

-- Two child numbers of a u64 have the same info bytes only if they are equal, so that no two children
-- are derived from one input.
pub info-injective : (m n : ℕ) → m < 2 ^ 64 → n < 2 ^ 64 → info m ≡ info n → m ≡ n
unfolding info
info-injective m n hm hn h =
    le_bytes-injective 8 m n (omega arith) (omega arith) (append-injective info_prefix h)
