-- ===== src/Wallet/Mnemonic/Inverse.antt =====
-- What a mnemonic determines: its entropy, and the text that `Mnemonic::from` read.
use libra_v.Prelude.{
  ℕ, ◌%◌, ◌^◌, ◌<◌, ◌≡◌, refl, sym, ◌∙◌, ap, subst, List, [], ◌∷◌, ◌++◌, append_assoc, append-nil,
  Text, Bytes, length, length-append, All, arith, ok, err, true, false, ok-injective, Option-cases,
  >>=-eq-ok, ◌==◌, ==_iff, Bool-cases, context, ◌>>=◌, err≢ok, inl, inr,
}
use libra_v.Prelude.Bits.{append-split}
use libra_v.Wallet.Mnemonic.{
  Mnemonic, MnemonicError, Sha256, new, from, to_string, check_sum, good_count, good_entropy,
  write_words, join_words, split_words, split_last,
}
use libra_v.Wallet.Mnemonic.Words.{words, binary_search}
use libra_v.Wallet.Mnemonic.Writer.{U11BitWriter, new_writer, write_u11, write_buffer}
use libra_v.Wallet.Mnemonic.Writer.Stream.{write_all}
use libra_v.Wallet.Mnemonic.Found.{unknown_word, known_word}
use libra_v.Wallet.Mnemonic.Values.{write_words-Numbered}
use libra_v.Wallet.Mnemonic.RoundTrip.{new-IsMnemonicOf, rewritten}

module _ (sha : Sha256) where
  -- The bytes written for the words of an entropy start with it.
  starts_with_entropy :
      (entropy : Bytes) (m : Mnemonic)
      → good_entropy (length entropy) ≡ true
      → All (λ b. b < 2 ^ 8) entropy
      → new sha entropy ≡ ok m
      → (w : U11BitWriter) × (c : ℕ) × (write_words m.words [] new_writer ≡ ok (m.words, w))
        × (write_buffer w ≡ entropy ++ (c ∷ []))
  starts_with_entropy entropy m good bytes made =
      let (vs, ws, of) = new-IsMnemonicOf sha entropy good in
      let same : ws ≡ m.words = ap Mnemonic.words (ok-injective (sym of.made ∙ made)) in
      let run = write_words-Numbered vs ws [] new_writer of.numbered in
      (
        write_all new_writer vs,
        _,
        subst (λ l. write_words l [] new_writer ≡ ok (l, write_all new_writer vs)) same run,
        rewritten sha entropy vs ws of good bytes,
      )

  -- Entropies of an accepted length that have the same mnemonic are the same.
  pub new-injective :
      (e e' : Bytes) (m : Mnemonic)
      → good_entropy (length e) ≡ true
      → good_entropy (length e') ≡ true
      → All (λ b. b < 2 ^ 8) e
      → All (λ b. b < 2 ^ 8) e'
      → new sha e ≡ ok m
      → new sha e' ≡ ok m
      → e ≡ e'
  new-injective e e' m good good' bytes bytes' made made' =
      let (w, c, run, ends) = starts_with_entropy e m good bytes made in
      let (w', c', run', ends') = starts_with_entropy e' m good' bytes' made' in
      let same : w ≡ w' = ap (λ p. p.1) (ok-injective (sym run ∙ run')) in
      let whole : e ++ (c ∷ []) ≡ e' ++ (c' ∷ []) = sym ends ∙ ap write_buffer same ∙ ends' in
      let size = ap length whole in
      let (front, last) =
        append-split e e' (c ∷ []) (c' ∷ [])
          (omega (arith, length-append e (c ∷ []), length-append e' (c' ∷ []))) whole in
      front

split_words-some : (s : Text) → (w : Text) × (ws : List Text) × (split_words s ≡ w ∷ ws)
split_words-some [] = ([], [], refl)
split_words-some (c ∷ s) =
    let (w, ws, e) = split_words-some s in
    elim (Bool-cases (c == 32)) [
      | inl h ↦ ([], w ∷ ws, rw (h, e) refl)
      | inr h ↦ (c ∷ w, ws, rw (h, e) refl)
    ]

join_words-cons_first :
    (c : ℕ) (w : Text) (ws : List Text) → join_words ((c ∷ w) ∷ ws) ≡ c ∷ join_words (w ∷ ws)
join_words-cons_first c w [] = refl
join_words-cons_first c w (v ∷ ws) = refl

-- Splitting loses nothing.
join_words-split_words : (s : Text) → join_words (split_words s) ≡ s
join_words-split_words [] = refl
join_words-split_words (c ∷ s) =
    let (w, ws, e) = split_words-some s in
    let ih : join_words (w ∷ ws) ≡ s = ap join_words (sym e) ∙ join_words-split_words s in
    elim (Bool-cases (c == 32)) [
      | inl h ↦ let space : c ≡ 32 = (==_iff c 32).0 h in rw (h, e, ih, space) refl
      | inr h ↦ rw (h, e) (join_words-cons_first c w ws ∙ ap (λ t. c ∷ t) ih)
    ]

no_more :
    (found out : List Text) (w w' : U11BitWriter)
    → write_words [] found w ≡ ok (out, w')
    → out ≡ found ++ []
unfolding write_words
no_more found out w w' h = sym (ap (λ p. p.0) (ok-injective h)) ∙ sym (append-nil found)

-- The words that `from` collects are the ones it was given.
write_words-words :
    (ws found out : List Text) (w w' : U11BitWriter)
    → write_words ws found w ≡ ok (out, w')
    → out ≡ found ++ ws
write_words-words [] found out w w' h = no_more found out w w' h
write_words-words (word ∷ ws) found out w w' h = elim (Option-cases (binary_search words word)) [
  | inl e ↦ absurd (err≢ok (sym (unknown_word word ws found w e) ∙ h))
  | inr (i, e) ↦
      write_words-words ws (found ++ (word ∷ [])) out (write_u11 w (i % 2 ^ 16)) w'
        (sym (known_word word ws found w i e) ∙ h)
      ∙ append_assoc found (word ∷ []) ws
]

module _ (sha : Sha256) where
  check_sum-words :
      (n : ℕ) (bytes : Bytes) (found : List Text) (m : Mnemonic)
      → check_sum sha n bytes found ≡ ok m
      → m.words ≡ found
  unfolding check_sum
  check_sum-words n bytes found m h =
      let (parts, split, rest) = >>=-eq-ok (context (split_last bytes) MnemonicError.panic) _ h in
      ground arith

  from_good :
      (s : Text)
      → good_count (length (split_words s)) ≡ true
      → from sha s ≡ (
          write_words (split_words s) [] new_writer >>= λ p.
          check_sum sha (length (split_words s)) (write_buffer p.1) p.0)
  unfolding from
  from_good s good = rw (good, from) refl

  from_bad :
      (s : Text)
      → good_count (length (split_words s)) ≡ false
      → from sha s ≡ err MnemonicError.word_count
  unfolding from
  from_bad s bad = rw (bad, from) refl

  -- A mnemonic that `from` accepts displays as the text that it was read from.
  pub to_string-from : (s : Text) (m : Mnemonic) → from sha s ≡ ok m → to_string m ≡ s
  unfolding to_string
  to_string-from s m h = elim (Bool-cases (good_count (length (split_words s)))) [
    | inr bad ↦ absurd (err≢ok (sym (from_bad s bad) ∙ h))
    | inl good ↦
        let (p, run, rest) =
          >>=-eq-ok (write_words (split_words s) [] new_writer) _ (sym (from_good s good) ∙ h) in
        let found = check_sum-words (length (split_words s)) (write_buffer p.1) p.0 m rest in
        let list = write_words-words (split_words s) [] p.0 new_writer p.1 run in
        ap join_words (found ∙ list) ∙ join_words-split_words s
  ]
