-- ===== src/Wallet/Mnemonic/Words/Order.antt =====
-- The order of the texts, and the sorted tables.
use Prim.Native.Nat.{Ordering}
use libra_v.Prelude.{
  ℕ, zero, suc, ◌<◌, ◌≡◌, refl, Bool, true, false, ◌&&◌, List, [], ◌∷◌, Text, some, get_elem?,
  arith, length,
}
use libra_v.Wallet.Mnemonic.Words.{text_cmp, words}

abbrev pub is_lt : Text → Text → Bool
is_lt s t = elim (text_cmp s t) [ Ordering.lt ↦ true | _ ↦ false ]

pub lt_trans :
    (r s t : Text)
    → text_cmp r s ≡ Ordering.lt
    → text_cmp s t ≡ Ordering.lt
    → text_cmp r t ≡ Ordering.lt
lt_trans [] [] t h1 h2 = cc
lt_trans [] (b ∷ s) [] h1 h2 = cc
lt_trans [] (b ∷ s) (c ∷ t) h1 h2 = refl
lt_trans (a ∷ r) [] t h1 h2 = cc
lt_trans (a ∷ r) (b ∷ s) [] h1 h2 = cc
lt_trans (a ∷ r) (b ∷ s) (c ∷ t) h1 h2 = ground (arith, lt_trans r s t)

pub text_cmp_refl : (s : Text) → text_cmp s s ≡ Ordering.eq
text_cmp_refl [] = refl
text_cmp_refl (a ∷ s) = ground (arith, text_cmp_refl s)

pub text_cmp_eq : (s t : Text) → text_cmp s t ≡ Ordering.eq → s ≡ t
text_cmp_eq [] [] h = refl
text_cmp_eq [] (b ∷ t) h = cc
text_cmp_eq (a ∷ s) [] h = cc
text_cmp_eq (a ∷ s) (b ∷ t) h = ground (arith, text_cmp_eq s t)

pub gt_of_lt : (s t : Text) → text_cmp s t ≡ Ordering.lt → text_cmp t s ≡ Ordering.gt
gt_of_lt [] [] h = cc
gt_of_lt [] (b ∷ t) h = refl
gt_of_lt (a ∷ s) [] h = cc
gt_of_lt (a ∷ s) (b ∷ t) h = ground (arith, gt_of_lt s t)

-- Each text is before the next one.
abbrev pub is_sorted : List Text → Bool
is_sorted [] = true
is_sorted (s ∷ []) = true
is_sorted (s ∷ (t ∷ table)) = is_lt s t && is_sorted (t ∷ table)

is_lt→lt : (s t : Text) → is_lt s t ≡ true → text_cmp s t ≡ Ordering.lt
is_lt→lt s t h = ground arith

first_is_least :
    (s : Text) (table : List Text) (i : ℕ) (t : Text)
    → is_sorted (s ∷ table) ≡ true
    → get_elem? table i ≡ some t
    → text_cmp s t ≡ Ordering.lt
first_is_least s [] i t h found = cc
first_is_least s (r ∷ table) zero t h found = ground (arith, is_lt→lt s r)
first_is_least s (r ∷ table) (suc i) t h found =
    ground (arith, is_lt→lt s r, lt_trans s r t, first_is_least r table i t)

pub sorted_lt :
    (table : List Text) (i j : ℕ) (s t : Text)
    → is_sorted table ≡ true
    → i < j
    → get_elem? table i ≡ some s
    → get_elem? table j ≡ some t
    → text_cmp s t ≡ Ordering.lt
sorted_lt [] i j s t h lt fi fj = cc
sorted_lt (r ∷ table) i zero s t h lt fi fj = absurd (omega arith)
sorted_lt (r ∷ []) i (suc j) s t h lt fi fj = cc
sorted_lt (r ∷ (q ∷ table)) zero (suc j) s t h lt fi fj =
    ground (arith, first_is_least r (q ∷ table) j t)
sorted_lt (r ∷ (q ∷ table)) (suc i) (suc j) s t h lt fi fj =
    ground (arith, sorted_lt (q ∷ table) i j s t)

pub words_sorted : is_sorted words ≡ true
unfolding words
words_sorted = refl

pub length-words : length words ≡ 2048
unfolding words
length-words = refl
