-- ===== src/Wallet/Mnemonic/Values.antt =====
-- The loops of `Mnemonic::new` and `Mnemonic::from` as readings and writings of word numbers.
use libra_v.Prelude.{
  ℕ, zero, suc, ◌+◌, ◌*◌, ◌%◌, ◌^◌, ◌≤◌, ◌<◌, ◌≡◌, refl, ap, List, [], ◌∷◌, ◌++◌, append_assoc,
  append-nil, Text, some, length, get_elem?, drop, All, arith, ok, true,
}
use libra_v.Prelude.Bits.{bits, bits_of}
use libra_v.Wallet.Mnemonic.{read_words, write_words, Sha256}
use libra_v.Wallet.Mnemonic.Words.{words}
use libra_v.Wallet.Mnemonic.Words.Order.{length-words}
use libra_v.Wallet.Mnemonic.Words.Search.{get-within, words-binary_search_iff}
use libra_v.Wallet.Mnemonic.Split.{get-is_word, words-all_words, all_words}
use libra_v.Wallet.Mnemonic.Reader.{U11BitReader}
use libra_v.Wallet.Mnemonic.Reader.Stream.{read_u11-stream}
use libra_v.Wallet.Mnemonic.Writer.{U11BitWriter, write_u11}
use libra_v.Wallet.Mnemonic.Writer.Stream.{write_all}

-- The words `ws` stand in the table at the numbers `vs`.
abbrev pub Numbered : List ℕ → List Text → Type 0
Numbered [] [] = Unit
Numbered (v ∷ vs) (w ∷ ws) = (v < 2 ^ 11) × (get_elem? words v ≡ some w) × Numbered vs ws
Numbered _ _ = ⊥

pub Numbered-bound : (vs : List ℕ) (ws : List Text) → Numbered vs ws → All (λ v. v < 2 ^ 11) vs
Numbered-bound [] [] n = tt
Numbered-bound [] (w ∷ ws) n = elim n [ ]
Numbered-bound (v ∷ vs) [] n = elim n [ ]
Numbered-bound (v ∷ vs) (w ∷ ws) (h, _, n) = (h, Numbered-bound vs ws n)

pub length-Numbered : (vs : List ℕ) (ws : List Text) → Numbered vs ws → length vs ≡ length ws
length-Numbered [] [] n = refl
length-Numbered [] (w ∷ ws) n = elim n [ ]
length-Numbered (v ∷ vs) [] n = elim n [ ]
length-Numbered (v ∷ vs) (w ∷ ws) (_, _, n) = ap suc (length-Numbered vs ws n)

pub Numbered-all_words : (vs : List ℕ) (ws : List Text) → Numbered vs ws → all_words ws ≡ true
Numbered-all_words [] [] n = refl
Numbered-all_words [] (w ∷ ws) n = elim n [ ]
Numbered-all_words (v ∷ vs) [] n = elim n [ ]
Numbered-all_words (v ∷ vs) (w ∷ ws) (_, found, n) =
    rw (get-is_word words v w words-all_words found, Numbered-all_words vs ws n) refl

module _ (sha : Sha256) where
  pub read_words-Numbered :
      (left : ℕ) (r : U11BitReader) (found : List Text)
      → r.position + left * 11 ≤ length r.bytes * 8
      → (vs : List ℕ) × (ws : List Text) × Numbered vs ws
        × (length vs ≡ left)
        × (read_words sha left r found ≡ ok (found ++ ws))
        × (bits_of 11 vs ++ drop (r.position + left * 11) (bits_of 8 r.bytes)
            ≡ drop r.position (bits_of 8 r.bytes))
  unfolding read_words bits_of
  read_words-Numbered zero r found within =
      let here : r.position + 0 * 11 ≡ r.position = omega arith in
      ([], [], tt, refl, rw (append-nil found) refl, rw here refl)
  read_words-Numbered (suc left) r found within =
      let (v, run, fits, stream) = read_u11-stream r (omega arith) in
      let (w, at) = get-within words v (omega (arith, length-words)) in
      let r' : U11BitReader = record { bytes = r.bytes; position = r.position + 11 } in
      let (vs, ws, n, count, rest, others) =
        read_words-Numbered left r' (found ++ (w ∷ [])) (omega arith) in
      let here : r.position + suc left * 11 ≡ r.position + 11 + left * 11 = omega arith in
      (
        v ∷ vs,
        w ∷ ws,
        (fits, at, n),
        ap suc count,
        rw (run, at, rest) (ap ok (append_assoc found (w ∷ []) ws)),
        rw
            (
              here,
              append_assoc (bits 11 v) (bits_of 11 vs)
                  (drop (r.position + 11 + left * 11) (bits_of 8 r.bytes)),
              others,
            )
            stream,
      )

-- The words are found again, and their numbers written.
pub write_words-Numbered :
    (vs : List ℕ) (ws found : List Text) (w : U11BitWriter)
    → Numbered vs ws
    → write_words ws found w ≡ ok (found ++ ws, write_all w vs)
unfolding write_words write_all
write_words-Numbered [] [] found w n = rw (append-nil found) refl
write_words-Numbered [] (word ∷ ws) found w n = elim n [ ]
write_words-Numbered (v ∷ vs) [] found w n = elim n [ ]
write_words-Numbered (v ∷ vs) (word ∷ ws) found w (h, at, n) =
    let place = (words-binary_search_iff word v).1 at in
    let small : v % 2 ^ 16 ≡ v = omega arith in
    rw
      (
        place,
        at,
        small,
        write_words-Numbered vs ws (found ++ (word ∷ [])) (write_u11 w v) n,
        write_words,
      )
      (ap (λ xs. ok (xs, write_all (write_u11 w v) vs)) (append_assoc found (word ∷ []) ws))
