-- ===== src/Wallet/Mnemonic/Words/Search.antt =====
-- The binary search in a sorted table, and in the table of the words.
use Prim.Native.Nat.{Ordering}
use libra_v.Prelude.{
  ℕ, zero, suc, ◌+◌, ◌-◌, ◌/◌, ◌≤◌, ◌<◌, ◌≡◌, refl, sym, ◌↔◌, inl, inr, true, List, [], ◌∷◌, Text,
  some, get_elem?, length, arith, Option-cases,
}
use libra_v.Wallet.Mnemonic.Words.{words, text_cmp, search_between, binary_search}
use libra_v.Wallet.Mnemonic.Words.Order.{
  is_sorted, sorted_lt, text_cmp_refl, text_cmp_eq, gt_of_lt, words_sorted,
}

pub get-within :
    (table : List Text) (i : ℕ) → i < length table → (w : Text) × (get_elem? table i ≡ some w)
get-within [] i h = absurd (omega arith)
get-within (w ∷ table) zero h = (w, refl)
get-within (w ∷ table) (suc i) h = get-within table i (omega arith)

pub get_lt : (table : List Text) (i : ℕ) (w : Text) → get_elem? table i ≡ some w → i < length table
get_lt [] i w h = cc
get_lt (v ∷ table) zero w h = omega arith
get_lt (v ∷ table) (suc i) w h = omega (arith, get_lt table i w h)

-- The order of two words of the table is that of their places.
same_place :
    (table : List Text) (i j : ℕ) (s t : Text)
    → get_elem? table i ≡ some s
    → get_elem? table j ≡ some t
    → i ≡ j
    → text_cmp s t ≡ Ordering.eq
same_place table i j s t fi fj e =
    let same : some s ≡ some t = rw (sym fi, sym fj, e) refl in
    let q : s ≡ t = cc in rw q (text_cmp_refl t)

places :
    (table : List Text) (i j : ℕ) (s t : Text)
    → is_sorted table ≡ true
    → get_elem? table i ≡ some s
    → get_elem? table j ≡ some t
    → (text_cmp s t ≡ Ordering.lt → i < j)
      × (text_cmp s t ≡ Ordering.eq → i ≡ j)
      × (text_cmp s t ≡ Ordering.gt → j < i)
places table i j s t sorted fi fj =
    let before = sorted_lt table i j s t sorted in
    let after = sorted_lt table j i t s sorted in
    let flip = gt_of_lt t s in
    let same = same_place table i j s t fi fj in
    (λ h. ground arith, λ h. ground arith, λ h. ground arith)

sound :
    (table : List Text) (word : Text) (fuel lo hi i : ℕ)
    → search_between table word fuel lo hi ≡ some i
    → get_elem? table i ≡ some word
unfolding search_between
sound table word zero lo hi i h = cc
sound table word (suc fuel) lo hi i h =
    let upper = sound table word fuel (suc (lo + (hi - lo) / 2)) hi i in
    let lower = sound table word fuel lo (lo + (hi - lo) / 2) i in
    elim (Option-cases (get_elem? table (lo + (hi - lo) / 2))) [
      | inl e ↦ ground (arith, upper, lower)
      | inr (w, e) ↦ ground (arith, upper, lower, text_cmp_eq w word)
    ]

-- Enough fuel finds the place of the word.
complete :
    (table : List Text) (word : Text) (fuel lo hi i : ℕ)
    → is_sorted table ≡ true
    → get_elem? table i ≡ some word
    → lo ≤ i
    → i < hi
    → hi ≤ length table
    → hi < lo + fuel
    → search_between table word fuel lo hi ≡ some i
unfolding search_between
complete table word zero lo hi i sorted found low high within fuel_ok = absurd (omega arith)
complete table word (suc fuel) lo hi i sorted found low high within fuel_ok =
    let middle = lo + (hi - lo) / 2 in
    let (w, at_middle) = get-within table middle (omega arith) in
    let (before, same, after) = places table middle i w word sorted at_middle found in
    let upper = complete table word fuel (suc middle) hi i sorted found in
    let lower = complete table word fuel lo middle i sorted found in ground arith

binary_search_iff :
    (table : List Text) (word : Text) (i : ℕ)
    → is_sorted table ≡ true
    → (binary_search table word ≡ some i) ↔ (get_elem? table i ≡ some word)
unfolding binary_search
binary_search_iff table word i sorted = (
  sound table word (suc (length table)) 0 (length table) i,
  λ found.
      complete table word (suc (length table)) 0 (length table) i sorted found (omega arith)
        (get_lt table i word found) (omega arith) (omega arith),
)

-- The search that `from` makes in the table of the program returns a place exactly when the text is
-- the word at that place, so that each of the words is found and no other text.
pub words-binary_search_iff :
    (word : Text) (i : ℕ) → (binary_search words word ≡ some i) ↔ (get_elem? words i ≡ some word)
words-binary_search_iff word i = binary_search_iff words word i words_sorted
