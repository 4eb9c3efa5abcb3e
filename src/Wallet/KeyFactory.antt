-- ===== src/Wallet/KeyFactory.antt =====
-- tools/wallet/src/core/key_factory.rs: the derivation of child keys. The cryptography of the crates
-- hkdf, pbkdf2 and diem_crypto is a record of operations.
pub mod Info
use libra_v.Prelude.{
  ℕ, zero, suc, ◌/◌, ◌%◌, List, [], ◌∷◌, ◌++◌, Bytes, Text, codes, length, ◌==◌, if◌then◌else◌,
  Result, ok, err, ◌>>=◌, take,
}
use libra_v.Prelude.Endian.{le_bytes}
use libra_v.Platform.{Platform}

-- The errors of the cryptography, the assertion on the length of `Main`, and the errors of the
-- wallet.
pub data WalletError : Type 0 where
  crypto_error bad_main : WalletError
  already_generated already_in_wallet missing_address : WalletError

pub record Crypto (p : Platform) : Type 0 where
  pub hkdf_extract : Bytes → Bytes → Result WalletError Bytes
  pub hkdf_expand : Bytes → Bytes → ℕ → Result WalletError Bytes
  pub pbkdf2 : Text → Bytes → ℕ → Bytes
  pub private_key_of : Bytes → Result WalletError p.Ed25519PrivateKey
  -- `AuthenticationKey::ed25519` of the public key
  pub ed25519 : p.Ed25519PrivateKey → p.AuthenticationKey
  pub derived_address : p.AuthenticationKey → p.AccountAddress

abbrev pub mnemonic_salt_prefix : Bytes
mnemonic_salt_prefix =
    codes "0L WALLET: UNREST, FIRES, AND VIOLENCE AS PROTESTS RAGE ACROSS US: mnemonic salt prefix$"

abbrev pub main_key_salt : Bytes
main_key_salt =
    codes "0L WALLET: 30 MILLION AMERICANS HAVE FILED INITIAL UNEMPLOYMENT CLAIMS: master key salt$"

abbrev pub info_prefix : Bytes
info_prefix = codes "0L WALLET: US DEATHS NEAR 100,000, AN INCALCULABLE LOSS: derived key$"

-- The info bytes of a child.
unfoldable pub info : ℕ → Bytes
unfolding le_bytes
info child = info_prefix ++ le_bytes 8 child

pub record KeyFactory : Type 0 where
  pub main : Bytes

pub record ExtendedPrivKey (p : Platform) : Type 0 where
  pub child_number : ℕ
  pub private_key : p.Ed25519PrivateKey

module _ (p : Platform) (c : Crypto p) where
  -- `Seed::new`.
  unfoldable pub new_seed : Text → Text → Bytes
  new_seed mnemonic salt = c.pbkdf2 mnemonic (mnemonic_salt_prefix ++ salt) 2_048

  -- `Main::from`, which asserts the length.
  unfoldable pub main_from : Bytes → Result WalletError Bytes
  main_from bytes = if length bytes == 32 then ok bytes else err bad_main

  -- `KeyFactory::new`.
  unfoldable pub new_factory : Bytes → Result WalletError KeyFactory
  unfolding main_from
  new_factory seed = do
    extracted ← c.hkdf_extract main_key_salt seed
    main ← main_from (take 32 extracted)
    ok (record { main = main })

  unfoldable pub private_child : KeyFactory → ℕ → Result WalletError (ExtendedPrivKey p)
  unfolding info
  private_child self child = do
    expanded ← c.hkdf_expand self.main (info child) 32
    sk ← c.private_key_of expanded
    ok (record { child_number = child; private_key = sk })

  abbrev pub get_authentication_key : ExtendedPrivKey p → p.AuthenticationKey
  get_authentication_key self = c.ed25519 self.private_key

  abbrev pub get_address : ExtendedPrivKey p → p.AccountAddress
  get_address self = c.derived_address (get_authentication_key self)
