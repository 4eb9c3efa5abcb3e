-- ===== src/Wallet/Mnemonic/Files.antt =====
-- `Mnemonic::write` and `Mnemonic::read`: the mnemonic in a file.
use libra_v.Prelude.{
  ◌^◌, ◌<◌, ◌≡◌, refl, sym, ◌∙◌, Bool, true, false, ◌&&◌, not, Text, Bytes, length, All, Result, ok,
  err, ◌>>=◌, subst, ok-injective,
}
use libra_v.Wallet.Mnemonic.{Mnemonic, MnemonicError, Sha256, new, from, to_string, good_entropy}
use libra_v.Wallet.Mnemonic.RoundTrip.{from-new}

-- What stands at a path.
pub data Node : Type 0 where
  absent directory : Node
  file : Text → Node

-- The file system: `File::create` with `write_all`, and `read_to_string`.
pub record Disk : Type 0 where
  pub save : Text → Node → Result MnemonicError Node
  pub load : Node → Result MnemonicError Text
  pub save_law : (s : Text) (n n' : Node) → save s n ≡ ok n' → n' ≡ Node.file s
  pub load_law : (s : Text) → load (Node.file s) ≡ ok s

unfoldable pub exists : Node → Bool
exists Node.absent = false
exists Node.directory = true
exists (Node.file s) = true

unfoldable pub is_file : Node → Bool
is_file Node.absent = false
is_file Node.directory = false
is_file (Node.file s) = true

module _ (sha : Sha256) (disk : Disk) where
  unfoldable pub write : Mnemonic → Node → Result MnemonicError Node
  write m n = elim (exists n && not (is_file n)) [
    | true ↦ err MnemonicError.reserved
    | false ↦ disk.save (to_string m) n
  ]

  unfoldable pub read : Node → Result MnemonicError Mnemonic
  read n = elim (exists n && is_file n) [
    | true ↦ do mnemonic_string ← disk.load n; from sha mnemonic_string
    | false ↦ err MnemonicError.no_file
  ]

  pub write-saves : (m : Mnemonic) (n n' : Node) → write m n ≡ ok n' → n' ≡ Node.file (to_string m)
  unfolding write exists is_file
  write-saves m Node.absent n' h = disk.save_law (to_string m) Node.absent n' h
  write-saves m Node.directory n' h = cc
  write-saves m (Node.file s) n' h = disk.save_law (to_string m) (Node.file s) n' h

  read-file : (s : Text) → read (Node.file s) ≡ from sha s
  unfolding read exists is_file
  read-file s = rw (disk.load_law s) refl

  -- The mnemonic of an entropy that is written without an error is read back from its file.
  pub read-write-new :
      (entropy : Bytes) (m : Mnemonic) (n n' : Node)
      → good_entropy (length entropy) ≡ true
      → All (λ b. b < 2 ^ 8) entropy
      → new sha entropy ≡ ok m
      → write m n ≡ ok n'
      → read n' ≡ ok m
  read-write-new entropy m n n' good bytes made written =
      let (m', made', back, count) = from-new sha entropy good bytes in
      let same : m' ≡ m = ok-injective (sym made' ∙ made) in
      rw (write-saves m n n' written)
        (read-file (to_string m) ∙ subst (λ x. from sha (to_string x) ≡ ok x) same back)
