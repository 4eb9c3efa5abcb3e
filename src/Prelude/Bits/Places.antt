-- ===== src/Prelude/Bits/Places.antt =====
-- The bits of a byte string by their number: bit `i` is in byte `i / 8`, the highest bit first.
use Prim.Native.Nat.{ℕ, zero, suc, ◌-◌, ◌/◌, ◌%◌, ◌^◌}
use mathlib.Core.Path.{◌≡◌, refl, subst}
use mathlib.Core.Bool.{Bool}
use mathlib.Core.List.{List, [], ◌∷◌}
use mathlib.Core.Option.{Option, some}
use native.Mathlib.Omega.{arith}
use libra_v.Prelude.Tests.{◌==◌}
use libra_v.Prelude.Lists.{get_elem?, drop}
use libra_v.Prelude.Bits.Lists.{bits, bits_of}

abbrev pub bit_of : ℕ → ℕ → Bool
bit_of byte i = byte / 2 ^ (7 - i % 8) % 2 == 1

some_eq : {a b : ℕ} → ◌≡◌ {A = Option ℕ} (some a) (some b) → a ≡ b
some_eq h = cc

pub drop-bits_of :
    (bytes : List ℕ) (i byte : ℕ)
    → get_elem? bytes (i / 8) ≡ some byte
    → drop i (bits_of 8 bytes) ≡ bit_of byte i ∷ drop (suc i) (bits_of 8 bytes)
unfolding bits bits_of
drop-bits_of [] i byte h = cc
drop-bits_of (b ∷ bytes) zero byte h =
    let same : b / 2 / 2 / 2 / 2 / 2 / 2 / 2 % 2 ≡ byte / 2 ^ 7 % 2 = omega (arith, some_eq h) in
    rw same refl
drop-bits_of (b ∷ bytes) (suc zero) byte h =
    let same : b / 2 / 2 / 2 / 2 / 2 / 2 % 2 ≡ byte / 2 ^ 6 % 2 = omega (arith, some_eq h) in
    rw same refl
drop-bits_of (b ∷ bytes) (suc (suc zero)) byte h =
    let same : b / 2 / 2 / 2 / 2 / 2 % 2 ≡ byte / 2 ^ 5 % 2 = omega (arith, some_eq h) in
    rw same refl
drop-bits_of (b ∷ bytes) (suc (suc (suc zero))) byte h =
    let same : b / 2 / 2 / 2 / 2 % 2 ≡ byte / 2 ^ 4 % 2 = omega (arith, some_eq h) in rw same refl
drop-bits_of (b ∷ bytes) (suc (suc (suc (suc zero)))) byte h =
    let same : b / 2 / 2 / 2 % 2 ≡ byte / 2 ^ 3 % 2 = omega (arith, some_eq h) in rw same refl
drop-bits_of (b ∷ bytes) (suc (suc (suc (suc (suc zero))))) byte h =
    let same : b / 2 / 2 % 2 ≡ byte / 2 ^ 2 % 2 = omega (arith, some_eq h) in rw same refl
drop-bits_of (b ∷ bytes) (suc (suc (suc (suc (suc (suc zero)))))) byte h =
    let same : b / 2 % 2 ≡ byte / 2 ^ 1 % 2 = omega (arith, some_eq h) in rw same refl
drop-bits_of (b ∷ bytes) (suc (suc (suc (suc (suc (suc (suc zero))))))) byte h =
    let same : b % 2 ≡ byte / 2 ^ 0 % 2 = omega (arith, some_eq h) in rw same refl
drop-bits_of (b ∷ bytes) (suc (suc (suc (suc (suc (suc (suc (suc i)))))))) byte h =
    let next : (suc (suc (suc (suc (suc (suc (suc (suc i)))))))) / 8 ≡ suc (i / 8) = omega arith in
    let place : (suc (suc (suc (suc (suc (suc (suc (suc i)))))))) % 8 ≡ i % 8 = omega arith in
    let found = subst (λ (t : ℕ). get_elem? (b ∷ bytes) t ≡ some byte) next h in
    rw place (drop-bits_of bytes i byte found)
