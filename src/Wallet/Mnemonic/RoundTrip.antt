-- ===== src/Wallet/Mnemonic/RoundTrip.antt =====
-- `Mnemonic::from` reads back what `Mnemonic::new` makes of an entropy.
use libra_v.Prelude.{
  ℕ, zero, suc, ◌+◌, ◌-◌, ◌*◌, ◌/◌, ◌%◌, ◌^◌, ◌≤◌, ◌<◌, ◌≡◌, refl, ◌∙◌, subst, List, [], ◌∷◌, ◌++◌,
  Text, Bytes, some, length, length-append, get_or, drop, All, arith, ok, true,
}
use libra_v.Prelude.Bits.{bits_of}
use libra_v.Wallet.Mnemonic.{
  Mnemonic, Sha256, new, from, to_string, check_sum, write_words, split_last, good_count,
  good_entropy, read_words, join_words, split_words,
}
use libra_v.Wallet.Mnemonic.Reader.{new_reader}
use libra_v.Wallet.Mnemonic.Writer.{U11BitWriter, new_writer, write_buffer}
use libra_v.Wallet.Mnemonic.Writer.Stream.{write_all, write_all-Holds}
use libra_v.Wallet.Mnemonic.Split.{split_words-join_words}
use libra_v.Wallet.Mnemonic.Written.{written}
use libra_v.Wallet.Mnemonic.Values.{
  Numbered, Numbered-bound, length-Numbered, Numbered-all_words, read_words-Numbered,
  write_words-Numbered,
}

split_last-snoc : (bs : Bytes) (b : ℕ) → split_last (bs ++ (b ∷ [])) ≡ some (b, bs)
split_last-snoc [] b = refl
split_last-snoc (a ∷ []) b = refl
split_last-snoc (a ∷ (c ∷ bs)) b = rw (split_last-snoc (c ∷ bs) b) refl

module _ (sha : Sha256) (entropy : Bytes) where
  abbrev pub check_byte : ℕ
  check_byte = get_or (sha.digest entropy) 0 0

  -- The word numbers of an entropy, and the bits that they carry.
  pub record IsMnemonicOf (vs : List ℕ) (ws : List Text) : Type 0 where
    pub numbered : Numbered vs ws
    pub count : length vs * 4 ≡ length entropy * 3
    pub made : new sha entropy ≡ ok (record { words = ws })
    pub stream :
        bits_of 11 vs ++ drop (length vs * 11) (bits_of 8 (entropy ++ (check_byte ∷ [])))
        ≡ bits_of 8 (entropy ++ (check_byte ∷ []))

  pub good_entropy-bounds :
      good_entropy (length entropy) ≡ true
      → (16 ≤ length entropy) × (length entropy ≤ 32) × (length entropy % 4 ≡ 0)
  unfolding good_entropy
  good_entropy-bounds good = ground arith

  new_made :
      (found : List Text)
      → good_entropy (length entropy) ≡ true
      → read_words sha (length entropy * 3 / 4) (new_reader (entropy ++ (check_byte ∷ []))) []
        ≡ ok found
      → new sha entropy ≡ ok (record { words = found })
  unfolding new
  new_made found good run = rw (good, run, new) refl

  pub new-IsMnemonicOf :
      good_entropy (length entropy) ≡ true → (vs : List ℕ) × (ws : List Text) × IsMnemonicOf vs ws
  unfolding new_reader
  new-IsMnemonicOf good =
      let (low, high, whole) = good_entropy-bounds good in
      let total = length-append entropy (check_byte ∷ []) in
      let (vs, ws, numbered, count, run, stream) =
        read_words-Numbered sha (length entropy * 3 / 4) (new_reader (entropy ++ (check_byte ∷ [])))
          [] (omega arith) in
      let place : 0 + length entropy * 3 / 4 * 11 ≡ length vs * 11 = omega arith in
      (
        vs,
        ws,
        record {
          numbered = numbered;
          count = omega arith;
          made = new_made ws good run;
          stream =
              subst
                (λ j.
                  bits_of 11 vs ++ drop j (bits_of 8 (entropy ++ (check_byte ∷ [])))
                  ≡ bits_of 8 (entropy ++ (check_byte ∷ [])))
                place stream;
        },
      )

count_good : (n len : ℕ) → 16 ≤ len → len ≤ 32 → len % 4 ≡ 0 → n * 4 ≡ len * 3 → good_count n ≡ true
unfolding good_count
count_good n len low high whole count = ground arith

no_words : good_count 0 ≡ true → ⊥
unfolding good_count
no_words h = cc

get_or-All : (P : ℕ → Type 0) (bytes : Bytes) (i d : ℕ) → All P bytes → P d → P (get_or bytes i d)
get_or-All P [] i d h hd = hd
get_or-All P (b ∷ bytes) zero d (hb, h) hd = hb
get_or-All P (b ∷ bytes) (suc i) d (hb, h) hd = get_or-All P bytes i d h hd

module _ (sha : Sha256) (entropy : Bytes) where
  -- The bytes that `from` has written when it has read the words of the entropy.
  pub rewritten :
      (vs : List ℕ) (ws : List Text)
      → IsMnemonicOf sha entropy vs ws
      → good_entropy (length entropy) ≡ true
      → All (λ b. b < 2 ^ 8) entropy
      → write_buffer (write_all new_writer vs)
        ≡ entropy ++ (check_byte sha entropy / 2 ^ (8 - length vs / 3) ∷ [])
  rewritten vs ws m good bytes =
      let (low, high, whole) = good_entropy-bounds sha entropy good in
      let c =
        get_or-All (λ b. b < 2 ^ 8) (sha.digest entropy) 0 0 (sha.byte_law entropy) (omega arith) in
      written (write_all new_writer vs) vs entropy (check_byte sha entropy)
        (write_all-Holds vs (Numbered-bound vs ws m.numbered)) _ m.stream bytes c m.count low high
        whole

  check_sum-ok :
      (n : ℕ) (ws : List Text) (bytes : Bytes)
      → bytes ≡ entropy ++ (check_byte sha entropy / 2 ^ (8 - n / 3) ∷ [])
      → check_sum sha n bytes ws ≡ ok (record { words = ws })
  unfolding check_sum
  check_sum-ok n ws bytes e =
      rw (e, split_last-snoc entropy (check_byte sha entropy / 2 ^ (8 - n / 3))) (ground arith)

  from_split :
      (s : Text) (found : List Text) (w : U11BitWriter)
      → good_count (length (split_words s)) ≡ true
      → write_words (split_words s) [] new_writer ≡ ok (found, w)
      → from sha s ≡ check_sum sha (length (split_words s)) (write_buffer w) found
  unfolding from
  from_split s found w good run = rw (good, run, from) refl

  from_run :
      (s : Text) (list found : List Text) (w : U11BitWriter)
      → split_words s ≡ list
      → good_count (length list) ≡ true
      → write_words list [] new_writer ≡ ok (found, w)
      → from sha s ≡ check_sum sha (length list) (write_buffer w) found
  from_run s list found w split =
      subst
        (λ l.
          good_count (length l) ≡ true
          → write_words l [] new_writer ≡ ok (found, w)
          → from sha s ≡ check_sum sha (length l) (write_buffer w) found)
        split (from_split s found w)

  from_string :
      (vs : List ℕ) (ws : List Text)
      → Numbered vs ws
      → good_count (length ws) ≡ true
      → from sha (to_string (record { words = ws }))
        ≡ check_sum sha (length ws) (write_buffer (write_all new_writer vs)) ws
  unfolding to_string
  from_string vs [] n good = absurd (no_words good)
  from_string vs (w ∷ ws) n good =
      from_run (join_words (w ∷ ws)) (w ∷ ws) (w ∷ ws) (write_all new_writer vs)
        (split_words-join_words w ws (Numbered-all_words vs (w ∷ ws) n)) good
        (write_words-Numbered vs (w ∷ ws) [] new_writer n)

  -- An entropy of 16, 20, 24, 28 or 32 bytes has a mnemonic, of three words for four bytes, without
  -- an index out of range, and its text is read back as that mnemonic, whatever the digest.
  pub from-new :
      good_entropy (length entropy) ≡ true
      → All (λ b. b < 2 ^ 8) entropy
      → (m : Mnemonic) × (new sha entropy ≡ ok m)
        × (from sha (to_string m) ≡ ok m)
        × (length m.words * 4 ≡ length entropy * 3)
  from-new good bytes =
      let (vs, ws, m) = new-IsMnemonicOf sha entropy good in
      let same = length-Numbered vs ws m.numbered in
      let (low, high, whole) = good_entropy-bounds sha entropy good in
      let count : length ws * 4 ≡ length entropy * 3 = omega (arith, m.count) in
      let fine = count_good (length ws) (length entropy) low high whole count in
      let end = rewritten vs ws m good bytes in
      let end' =
        subst
          (λ n.
            write_buffer (write_all new_writer vs)
            ≡ entropy ++ (check_byte sha entropy / 2 ^ (8 - n / 3) ∷ []))
          same end in
      (
        record { words = ws },
        m.made,
        from_string vs ws m.numbered fine ∙ check_sum-ok (length ws) ws _ end',
        count,
      )
