-- ===== src/Wallet/Mnemonic/Split.antt =====
-- Joining words with spaces and splitting at the spaces.
use libra_v.Prelude.{
  ℕ, zero, suc, ◌≡◌, refl, Bool, true, ◌&&◌, not, List, [], ◌∷◌, ◌++◌, Text, some, get_elem?, ◌==◌,
  arith,
}
use libra_v.Wallet.Mnemonic.{join_words, split_words}
use libra_v.Wallet.Mnemonic.Words.{words}

-- A text without spaces.
abbrev pub is_word : Text → Bool
is_word [] = true
is_word (c ∷ s) = not (c == 32) && is_word s

abbrev pub all_words : List Text → Bool
all_words [] = true
all_words (w ∷ ws) = is_word w && all_words ws

pub words-all_words : all_words words ≡ true
unfolding words
words-all_words = refl

pub get-is_word :
    (table : List Text) (i : ℕ) (w : Text)
    → all_words table ≡ true
    → get_elem? table i ≡ some w
    → is_word w ≡ true
get-is_word [] i w h found = cc
get-is_word (v ∷ table) zero w h found = ground arith
get-is_word (v ∷ table) (suc i) w h found = ground (arith, get-is_word table i w)

split_one : (w : Text) → is_word w ≡ true → split_words w ≡ w ∷ []
split_one [] h = refl
split_one (c ∷ w) h = let rest = split_one w in ground arith

split_first : (w s : Text) → is_word w ≡ true → split_words (w ++ (32 ∷ s)) ≡ w ∷ split_words s
split_first [] s h = refl
split_first (c ∷ w) s h = let rest = split_first w s in ground arith

pub split_words-join_words :
    (w : Text) (ws : List Text)
    → all_words (w ∷ ws) ≡ true
    → split_words (join_words (w ∷ ws)) ≡ w ∷ ws
split_words-join_words w [] h = ground (arith, split_one w)
split_words-join_words w (v ∷ ws) h =
    ground (arith, split_first w (join_words (v ∷ ws)), split_words-join_words v ws)
