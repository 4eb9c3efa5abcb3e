-- ===== src/Tests/Wallet.antt =====
-- The wallet on a small cryptography, whose child keys are the bytes of their numbers.
use libra_v.Prelude.{
  ℕ, ◌<◌, none, some, [], ◌∷◌, ◌≡◌, refl, ok, err, Bytes, drop, length, replicate, codes, arith,
}
use libra_v.Prelude.Endian.{le_bytes}
use libra_v.Wallet.KeyFactory.{
  Crypto, KeyFactory, ExtendedPrivKey, crypto_error, private_child, info, info_prefix, new_factory,
  main_from,
}
use libra_v.Wallet.Library.{
  WalletLibrary, new_from_mnemonic, generate_addresses, get_addresses, get_private_key,
}
use libra_v.Wallet.Library.Addresses.{child_address, Derives}
use libra_v.Wallet.Library.Generate.{
  addresses_from, generate_addresses_fills, generate_addresses_hangs,
}
use libra_v.Tests.Sample.{sample}

abbrev head_or_zero : Bytes → ℕ
head_or_zero [] = 0
head_or_zero (b ∷ bytes) = b

abbrev crypto : Crypto sample
crypto = record {
  hkdf_extract = λ salt seed. ok (replicate 32 1);
  hkdf_expand = λ main bytes n. ok (drop (length info_prefix) bytes);
  pbkdf2 = λ password salt rounds. [];
  private_key_of = λ bytes. ok bytes;
  ed25519 = λ key. key;
  derived_address = head_or_zero;
}

abbrev factory : KeyFactory
factory = record { main = replicate 32 1 }

abbrev wallet : WalletLibrary sample
wallet = record { mnemonic = codes "abandon"; key_factory = factory; addr_map = []; key_leaf = 0 }

abbrev key_of : ℕ → ExtendedPrivKey sample
key_of i = record { child_number = i; private_key = le_bytes 8 i }

made : new_from_mnemonic sample crypto (codes "abandon") ≡ ok wallet
unfolding new_from_mnemonic new_factory main_from
made = refl

derives : Derives sample crypto factory key_of 3
unfolding private_child info le_bytes
derives = record { derived = λ i hi. refl; distinct = λ i j hi hj h. omega arith }

generate_addresses_fills_example :
    (w' : WalletLibrary sample) × (generate_addresses sample crypto 5 wallet 3 ≡ some (ok w'))
    × (w'.key_leaf ≡ 3)
    × (get_addresses sample crypto w' ≡ ok (addresses_from sample crypto key_of 0 3))
    × ((i : ℕ)
        → i < 3
        → get_private_key sample crypto w' (child_address sample crypto key_of i)
          ≡ ok (key_of i).private_key)
generate_addresses_fills_example =
    generate_addresses_fills sample crypto (codes "abandon") wallet key_of 5 3 made derives
      (omega arith) (omega arith)

abbrev broken : Crypto sample
broken = record crypto { hkdf_expand = λ main bytes n. err crypto_error }

fails : private_child sample broken factory 0 ≡ err crypto_error
unfolding private_child
fails = refl

generate_addresses_hangs_example : generate_addresses sample broken 100 wallet 3 ≡ none
generate_addresses_hangs_example =
    generate_addresses_hangs sample broken wallet crypto_error 3 100 (omega arith) fails
