-- ===== src/Wallet/Mnemonic.antt =====
-- tools/wallet/src/core/mnemonic.rs: the BIP39 mnemonic of an entropy, and back.
pub mod Words
pub mod Reader
pub mod Writer
pub mod Split
pub mod Values
pub mod Found
pub mod Written
pub mod RoundTrip
pub mod Inverse
pub mod Files
use libra_v.Prelude.{
  ℕ, zero, suc, ◌+◌, ◌-◌, ◌*◌, ◌/◌, ◌%◌, ◌^◌, ◌≤◌, ◌<◌, ◌≡◌, ◌∷◌, [], ◌++◌, List, Text, Bytes, Bool,
  true, false, Option, none, some, length, get_elem?, get_or, All, ltb, leb, ◌==◌, ◌&&◌, ◌||◌, not,
  if◌then◌else◌, Result, ok, err, ◌>>=◌, context,
}
use libra_v.Wallet.Mnemonic.Words.{words, binary_search}
use libra_v.Wallet.Mnemonic.Reader.{U11BitReader, new_reader, read_u11}
use libra_v.Wallet.Mnemonic.Writer.{U11BitWriter, new_writer, write_u11, write_buffer}

-- The digest of the crate sha2.
pub record Sha256 : Type 0 where
  pub digest : Bytes → Bytes
  pub length_law : (bytes : Bytes) → length (digest bytes) ≡ 32
  pub byte_law : (bytes : Bytes) → All (λ b. b < 256) (digest bytes)

pub data MnemonicError : Type 0 where
  word_count unknown_word checksum_failed entropy_length reserved no_file io panic : MnemonicError

pub record Mnemonic : Type 0 where
  pub words : List Text

-- `join(" ")`, which `Display` writes.
abbrev pub join_words : List Text → Text
join_words [] = []
join_words (w ∷ []) = w
join_words (w ∷ (v ∷ ws)) = w ++ (32 ∷ join_words (v ∷ ws))

unfoldable pub to_string : Mnemonic → Text
to_string m = join_words m.words

-- `split(' ')`: the word being read, reversed onto nothing, and the words after it.
abbrev pub cons_first : ℕ → List Text → List Text
cons_first c [] = (c ∷ []) ∷ []
cons_first c (w ∷ ws) = (c ∷ w) ∷ ws

abbrev pub split_words : Text → List Text
split_words [] = [] ∷ []
split_words (c ∷ s) = let rest = split_words s in if c == 32 then [] ∷ rest else cons_first c rest

-- The loop over the words: the words found and the writer.
unfoldable pub write_words :
    List Text → List Text → U11BitWriter → Result MnemonicError (List Text × U11BitWriter)
write_words [] found w = ok (found, w)
write_words (word ∷ rest) found w = elim (binary_search words word) [
  | none ↦ err MnemonicError.unknown_word
  | some idx ↦ do
    entry ← context (get_elem? words idx) MnemonicError.panic
    write_words rest (found ++ (entry ∷ [])) (write_u11 w (idx % 2 ^ 16))
]

-- `split_last`.
abbrev pub split_last : Bytes → Option (ℕ × Bytes)
split_last [] = none
split_last (b ∷ []) = some (b, [])
split_last (b ∷ (c ∷ bs)) = elim (split_last (c ∷ bs)) [
  | none ↦ none
  | some (z, front) ↦ some (z, b ∷ front)
]

unfoldable pub good_count : ℕ → Bool
good_count n = leb 12 n && leb n 24 && (n % 3 == 0)

unfoldable pub good_entropy : ℕ → Bool
good_entropy n = leb 16 n && leb n 32 && (n % 4 == 0)

module _ (sha : Sha256) where
  unfoldable pub check_sum : ℕ → Bytes → List Text → Result MnemonicError Mnemonic
  check_sum len bytes found = do
    (checksum, entropy) ← context (split_last bytes) MnemonicError.panic
    elim (checksum == get_or (sha.digest entropy) 0 0 / 2 ^ (8 - len / 3)) [
      | true ↦ ok (record { words = found })
      | false ↦ err MnemonicError.checksum_failed
    ]

  unfoldable pub from : Text → Result MnemonicError Mnemonic
  from s =
      let list = split_words s in
      elim (good_count (length list)) [
        | true ↦ do
          (found, w) ← write_words list [] new_writer
          check_sum (length list) (write_buffer w) found
        | false ↦ err MnemonicError.word_count
      ]

  -- The words of the values read; an index past the slice or the table stops the process.
  unfoldable pub read_words : ℕ → U11BitReader → List Text → Result MnemonicError (List Text)
  read_words zero r found = ok found
  read_words (suc left) r found = do
    (value, r') ← context (read_u11 r) MnemonicError.panic
    word ← context (get_elem? words value) MnemonicError.panic
    read_words left r' (found ++ (word ∷ []))

  unfoldable pub new : Bytes → Result MnemonicError Mnemonic
  new entropy =
      let len = length entropy in
      elim (good_entropy len) [
        | true ↦ do
          found ←
              read_words (len * 3 / 4)
                (new_reader (entropy ++ (get_or (sha.digest entropy) 0 0 ∷ []))) []
          ok (record { words = found })
        | false ↦ err MnemonicError.entropy_length
      ]
