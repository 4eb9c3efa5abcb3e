-- ===== src/Wallet/Mnemonic/Found.antt =====
-- The loop of `Mnemonic::from`, which looks its words up in the table and writes their places.
use libra_v.Prelude.{
  ℕ, ◌%◌, ◌^◌, ◌<◌, ◌≡◌, refl, sym, ◌∙◌, ap, List, [], ◌∷◌, ◌++◌, append_assoc, append-nil, Text,
  some, none, arith, ok, err, ok-injective, err≢ok, Option-cases, inl, inr, ◌↔◌,
}
use libra_v.Wallet.Mnemonic.{MnemonicError, write_words}
use libra_v.Wallet.Mnemonic.Words.{words, binary_search}
use libra_v.Wallet.Mnemonic.Words.Order.{length-words}
use libra_v.Wallet.Mnemonic.Words.Search.{words-binary_search_iff, get_lt}
use libra_v.Wallet.Mnemonic.Writer.{U11BitWriter, write_u11}
use libra_v.Wallet.Mnemonic.Writer.Stream.{write_all}
use libra_v.Wallet.Mnemonic.Values.{Numbered, write_words-Numbered}

pub unknown_word :
    (word : Text) (ws found : List Text) (w : U11BitWriter)
    → binary_search words word ≡ none
    → write_words (word ∷ ws) found w ≡ err MnemonicError.unknown_word
unfolding write_words
unknown_word word ws found w e = rw (e, write_words) refl

pub known_word :
    (word : Text) (ws found : List Text) (w : U11BitWriter) (i : ℕ)
    → binary_search words word ≡ some i
    → write_words (word ∷ ws) found w
      ≡ write_words ws (found ++ (word ∷ [])) (write_u11 w (i % 2 ^ 16))
unfolding write_words
known_word word ws found w i e = rw (e, (words-binary_search_iff word i).0 e, write_words) refl

pair_eq :
    (a b : List Text) (v w : U11BitWriter)
    → a ≡ b
    → v ≡ w
    → ◌≡◌ {A = List Text × U11BitWriter} (a, v) (b, w)
pair_eq a b v w e f = cc

-- What the loop returns: the words that it was given after those found before, and the writer with
-- the numbers of these words in the table.
abbrev pub Placed : List Text → List Text → U11BitWriter → List Text → U11BitWriter → Type 0
Placed ws found w out w' =
    (vs : List ℕ) × Numbered vs ws × (out ≡ found ++ ws) × (w' ≡ write_all w vs)

placed :
    (ws found out : List Text) (w w' : U11BitWriter)
    → write_words ws found w ≡ ok (out, w')
    → Placed ws found w out w'
unfolding write_words write_all
placed [] found out w w' h =
    let same = ok-injective h in
    ([], tt, sym (ap (λ p. p.0) same) ∙ sym (append-nil found), sym (ap (λ p. p.1) same))
placed (word ∷ ws) found out w w' h = elim (Option-cases (binary_search words word)) [
  | inl e ↦ absurd (err≢ok (sym (unknown_word word ws found w e) ∙ h))
  | inr (i, e) ↦
      let at = (words-binary_search_iff word i).0 e in
      let small : i < 2 ^ 11 = omega (arith, get_lt words i word at, length-words) in
      let (vs, n, list, writer) =
        placed ws (found ++ (word ∷ [])) out (write_u11 w (i % 2 ^ 16)) w'
          (sym (known_word word ws found w i e) ∙ h) in
      let whole : i % 2 ^ 16 ≡ i = omega arith in
      (
        i ∷ vs,
        (small, at, n),
        list ∙ append_assoc found (word ∷ []) ws,
        writer ∙ ap (λ v. write_all (write_u11 w v) vs) whole,
      )
]

refused :
    (ws found : List Text) (w : U11BitWriter) (e : MnemonicError)
    → write_words ws found w ≡ err e
    → e ≡ MnemonicError.unknown_word
unfolding write_words
refused [] found w e h = cc
refused (word ∷ ws) found w e h = elim (Option-cases (binary_search words word)) [
  | inl missing ↦ let same = sym h ∙ unknown_word word ws found w missing in cc
  | inr (i, at) ↦
      refused ws (found ++ (word ∷ [])) (write_u11 w (i % 2 ^ 16)) e
        (sym (known_word word ws found w i at) ∙ h)
]

-- The loop over the words of a text returns exactly when each of them stands in the table; it has then
-- collected these words and written their places in the table, each below 2 ^ 11. The only error is
-- that of an unknown word, and no index is out of range.
pub write_words_iff :
    (ws found : List Text) (w : U11BitWriter)
    → ((out : List Text) (w' : U11BitWriter)
        → (write_words ws found w ≡ ok (out, w')) ↔ Placed ws found w out w')
      × ((e : MnemonicError) → write_words ws found w ≡ err e → e ≡ MnemonicError.unknown_word)
write_words_iff ws found w = (
  λ out w'. (
    placed ws found out w w',
    λ q.
        let (vs, n, list, writer) = q in
        write_words-Numbered vs ws found w n
        ∙ ap ok (pair_eq (found ++ ws) out (write_all w vs) w' (sym list) (sym writer)),
  ),
  λ e. refused ws found w e,
)
