-- ===== src/Tests/Mnemonic.antt =====
-- Mnemonics on a digest whose first byte is the one of sixteen zero bytes under SHA-256.
use libra_v.Prelude.{
  List, Text, Result, Text, sym, ok-injective, ℕ, zero, suc, ◌*◌, ◌^◌, ◌<◌, ◌≡◌, ◌↔◌, refl, true,
  [], ◌∷◌, ◌++◌, ok, err, Bytes, length, replicate, codes, All, arith,
}
use libra_v.Wallet.Mnemonic.{
  Mnemonic, MnemonicError, Sha256, new, from, to_string, good_entropy, good_count, write_words,
  check_sum, read_words,
}
use libra_v.Wallet.Mnemonic.Words.{words, binary_search, search_between}
use libra_v.Wallet.Mnemonic.Found.{Placed, write_words_iff}
use libra_v.Wallet.Mnemonic.Writer.{U11BitWriter}
use libra_v.Wallet.Mnemonic.Reader.{new_reader, read_u11, read_bits, shift_in}
use libra_v.Wallet.Mnemonic.Writer.{
  new_writer, write_u11, write_buffer, fill_partial, fill_full, keep_rest, shift_into,
}
use libra_v.Wallet.Mnemonic.Writer.Stream.{Holds, write_all, write_all-Holds}
use libra_v.Wallet.Mnemonic.RoundTrip.{from-new}
use libra_v.Wallet.Mnemonic.Inverse.{new-injective, to_string-from}
use libra_v.Wallet.Mnemonic.Files.{Node, Disk, exists, is_file, write, read, read-write-new}

replicate-All : (n : ℕ) → All (λ b. b < 2 ^ 8) (replicate n 55)
replicate-All zero = tt
replicate-All (suc n) = (omega arith, replicate-All n)

abbrev sha : Sha256
sha = record {
  digest = λ bytes. replicate 32 55;
  length_law = λ bytes. refl;
  byte_law = λ bytes. replicate-All 32;
}

abbrev zeros : Bytes
zeros = replicate 16 0

abbrev abandon : Mnemonic
abandon = record { words = replicate 11 (codes "abandon") ++ (codes "about" ∷ []) }

new-zeros : new sha zeros ≡ ok abandon
unfolding new good_entropy read_words new_reader read_u11 read_bits shift_in words
new-zeros = refl

from_abandon : from sha (to_string abandon) ≡ ok abandon
unfolding from to_string good_count write_words check_sum words binary_search search_between
    new_writer write_u11 write_buffer fill_partial fill_full keep_rest shift_into
from_abandon = refl

from_zoo :
    from sha (to_string (record { words = replicate 12 (codes "zoo") }))
    ≡ err MnemonicError.checksum_failed
unfolding from to_string good_count write_words check_sum words binary_search search_between
    new_writer write_u11 write_buffer fill_partial fill_full keep_rest shift_into
from_zoo = refl

good_zeros : good_entropy (length zeros) ≡ true
unfolding good_entropy
good_zeros = refl

byte_zeros : All (λ b. b < 2 ^ 8) zeros
byte_zeros = omega arith

from-new_example :
    (m : Mnemonic) × (new sha zeros ≡ ok m)
    × (from sha (to_string m) ≡ ok m)
    × (length m.words * 4 ≡ 16 * 3)
from-new_example = from-new sha zeros good_zeros byte_zeros

new-injective_example : zeros ≡ zeros
new-injective_example =
    new-injective sha zeros zeros abandon good_zeros good_zeros byte_zeros byte_zeros new-zeros
      new-zeros

to_string-from_example : to_string abandon ≡ to_string abandon
to_string-from_example = to_string-from sha (to_string abandon) abandon from_abandon

write_words_iff_example :
    ((out : List Text) (w : U11BitWriter)
      → (write_words (codes "zoo" ∷ []) [] new_writer ≡ ok (out, w))
        ↔ Placed (codes "zoo" ∷ []) [] new_writer out w)
    × ((e : MnemonicError)
        → write_words (codes "zoo" ∷ []) [] new_writer ≡ err e
        → e ≡ MnemonicError.unknown_word)
write_words_iff_example = write_words_iff (codes "zoo" ∷ []) [] new_writer

abbrev load_file : Node → Result MnemonicError Text
load_file Node.absent = err MnemonicError.io
load_file Node.directory = err MnemonicError.io
load_file (Node.file s) = ok s

abbrev disk : Disk
disk = record {
  save = λ s n. ok (Node.file s);
  load = load_file;
  save_law = λ s n n' h. sym (ok-injective h);
  load_law = λ s. refl;
}

write-abandon : write sha disk abandon Node.absent ≡ ok (Node.file (to_string abandon))
unfolding write exists is_file
write-abandon = refl

read-write-new_example : read sha disk (Node.file (to_string abandon)) ≡ ok abandon
read-write-new_example =
    read-write-new sha disk zeros abandon Node.absent (Node.file (to_string abandon)) good_zeros
      byte_zeros new-zeros write-abandon

write_all-Holds_example :
    Holds (write_all new_writer (2_047 ∷ (1_365 ∷ (0 ∷ [])))) (2_047 ∷ (1_365 ∷ (0 ∷ [])))
write_all-Holds_example =
    write_all-Holds (2_047 ∷ (1_365 ∷ (0 ∷ []))) (omega arith, (omega arith, (omega arith, tt)))
