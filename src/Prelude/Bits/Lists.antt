-- ===== src/Prelude/Bits/Lists.antt =====
-- The bits of a number, highest first, and of a list of numbers one after the other.
use Prim.Native.Nat.{ℕ, zero, suc, ◌+◌, ◌*◌, ◌/◌, ◌%◌, ◌^◌, ◌<◌}
use mathlib.Core.Path.{◌≡◌, refl, sym, ◌∙◌}
use mathlib.Core.Bool.{Bool}
use mathlib.Core.List.{List, [], ◌∷◌, ◌++◌, append_assoc, append-nil}
use native.Mathlib.Nat.{pow-suc}
use native.Mathlib.Omega.{arith}
use libra_v.Prelude.Tests.{◌==◌}
use libra_v.Prelude.Lists.{length, length-append, All}
use libra_v.Prelude.Bits.Fields.{times_double}

unfoldable pub bits : ℕ → ℕ → List Bool
bits zero v = []
bits (suc n) v = bits n (v / 2) ++ ((v % 2 == 1) ∷ [])

unfoldable pub bits_of : ℕ → List ℕ → List Bool
bits_of n [] = []
bits_of n (v ∷ vs) = bits n v ++ bits_of n vs

pub length-bits : (n v : ℕ) → length (bits n v) ≡ n
unfolding bits
length-bits zero v = refl
length-bits (suc n) v =
    omega (arith, length-append (bits n (v / 2)) ((v % 2 == 1) ∷ []), length-bits n (v / 2))

pub length-bits_of : (n : ℕ) (vs : List ℕ) → length (bits_of n vs) ≡ length vs * n
unfolding bits_of
length-bits_of n [] = omega arith
length-bits_of n (v ∷ vs) =
    omega (arith, length-append (bits n v) (bits_of n vs), length-bits n v, length-bits_of n vs)

-- The bits of two fields, of which the lower has `n` bits.
pub bits-fields :
    (n m w a b : ℕ) → w ≡ n + m → b < 2 ^ n → bits w (a * 2 ^ n + b) ≡ bits m a ++ bits n b
unfolding bits
bits-fields zero m w a b width h =
    let same : w ≡ m = omega arith in
    let value : a * 2 ^ 0 + b ≡ a = omega arith in rw (same, value) (sym (append-nil (bits m a)))
bits-fields (suc n) m zero a b width h = absurd (omega arith)
bits-fields (suc n) m (suc w) a b width h =
    let halved : (a * 2 ^ suc n + b) / 2 ≡ a * 2 ^ n + b / 2 = omega (arith, times_double a n) in
    let low : (a * 2 ^ suc n + b) % 2 ≡ b % 2 = omega (arith, times_double a n) in
    let rest = bits-fields n m w a (b / 2) (omega arith) (omega (arith, pow-suc 2 n)) in
    rw (halved, low, rest) (append_assoc (bits m a) (bits n (b / 2)) ((b % 2 == 1) ∷ []))

module _ {ℓ} {A : Type ℓ} where
  -- Two lists split at the same length.
  pub append-split :
      (xs ys us vs : List A) → length xs ≡ length ys → xs ++ us ≡ ys ++ vs → (xs ≡ ys) × (us ≡ vs)
  append-split [] [] us vs h e = (refl, e)
  append-split [] (y ∷ ys) us vs h e = absurd (omega arith)
  append-split (x ∷ xs) [] us vs h e = absurd (omega arith)
  append-split (x ∷ xs) (y ∷ ys) us vs h e =
      let (p, q) = append-split xs ys us vs (omega arith) cc in (cc, q)

pub bits-injective : (n v w : ℕ) → v < 2 ^ n → w < 2 ^ n → bits n v ≡ bits n w → v ≡ w
unfolding bits
bits-injective zero v w hv hw e = omega arith
bits-injective (suc n) v w hv hw e =
    let (high, low) =
      append-split (bits n (v / 2)) (bits n (w / 2)) _ _
        (length-bits n (v / 2) ∙ sym (length-bits n (w / 2))) e in
    let half =
      bits-injective n (v / 2) (w / 2) (omega (arith, pow-suc 2 n)) (omega (arith, pow-suc 2 n))
        high in
    ground arith

pub bits_of-append : (n : ℕ) (vs ws : List ℕ) → bits_of n (vs ++ ws) ≡ bits_of n vs ++ bits_of n ws
unfolding bits_of
bits_of-append n [] ws = refl
bits_of-append n (v ∷ vs) ws =
    rw (bits_of-append n vs ws) (sym (append_assoc (bits n v) (bits_of n vs) (bits_of n ws)))

pub bits_of-injective :
    (n : ℕ) (vs ws : List ℕ)
    → All (λ v. v < 2 ^ n) vs
    → All (λ w. w < 2 ^ n) ws
    → length vs ≡ length ws
    → bits_of n vs ≡ bits_of n ws
    → vs ≡ ws
unfolding bits_of
bits_of-injective n [] [] hv hw l e = refl
bits_of-injective n [] (w ∷ ws) hv hw l e = absurd (omega arith)
bits_of-injective n (v ∷ vs) [] hv hw l e = absurd (omega arith)
bits_of-injective n (v ∷ vs) (w ∷ ws) (pv, hv) (pw, hw) l e =
    let (first, others) =
      append-split (bits n v) (bits n w) _ _ (length-bits n v ∙ sym (length-bits n w)) e in
    let p = bits-injective n v w pv pw first in
    let q = bits_of-injective n vs ws hv hw (omega arith) others in cc

pub bits_of-one : (n v : ℕ) → bits_of n (v ∷ []) ≡ bits n v
unfolding bits_of
bits_of-one n v = append-nil (bits n v)
