-- ===== src/Wallet/Library.antt =====
-- tools/wallet/src/core/wallet_library.rs: the wallet. Its hash map is kept as an association list in
-- the order of the keys, its mnemonic as the text of its words. The random constructor is left out.
pub mod Addresses
pub mod Generate
use libra_v.Prelude.{
  ℕ, zero, suc, ◌+◌, ◌%◌, ◌^◌, Option, none, some, List, [], ◌∷◌, Bool, Text, codes, length, ltb,
  ◌==◌, if◌then◌else◌, Result, ok, err, ◌>>=◌, context,
}
use libra_v.Platform.{Platform}
use libra_v.Genesis.BTreeMap.{BTreeMap, lookup, insert}
use libra_v.Wallet.KeyFactory.{
  WalletError, already_generated, already_in_wallet, missing_address, Crypto, KeyFactory,
  ExtendedPrivKey, new_seed, new_factory, private_child, get_authentication_key, get_address,
}

pub record WalletLibrary (p : Platform) : Type 0 where
  pub mnemonic : Text
  pub key_factory : KeyFactory
  pub addr_map : BTreeMap p ℕ
  pub key_leaf : ℕ

module _ (p : Platform) (c : Crypto p) where
  unfoldable pub new_from_mnemonic : Text → Result WalletError (WalletLibrary p)
  unfolding new_seed new_factory
  new_from_mnemonic mnemonic = do
    key_factory ← new_factory p c (new_seed p c mnemonic (codes "0L"))
    ok (record { mnemonic = mnemonic; key_factory = key_factory; addr_map = []; key_leaf = 0 })

  -- The bump of the child number, which wraps around in a release build.
  abbrev pub increment : ℕ → ℕ
  increment n = (n + 1) % 2 ^ 64

  -- What is returned once the address was inserted, and what was there before.
  abbrev pub if_new :
      p.AuthenticationKey → ℕ → Option ℕ → Result WalletError (p.AuthenticationKey × ℕ)
  if_new key leaf none = ok (key, leaf)
  if_new key leaf (some old) = err already_in_wallet

  abbrev pub add_child :
      WalletLibrary p
      → Result WalletError (ExtendedPrivKey p)
      → WalletLibrary p × Result WalletError (p.AuthenticationKey × ℕ)
  add_child self (err e) = (self, err e)
  add_child self (ok child) =
      let key = get_authentication_key p c child in
      let address = c.derived_address key in
      (
        record self {
          addr_map = insert p address self.key_leaf self.addr_map;
          key_leaf = increment self.key_leaf;
        },
        if_new key self.key_leaf (lookup p address self.addr_map),
      )

  -- The wallet that the call leaves, also when it returns an error, and the result.
  unfoldable pub new_address :
      WalletLibrary p → WalletLibrary p × Result WalletError (p.AuthenticationKey × ℕ)
  unfolding private_child
  new_address self = add_child self (private_child p c self.key_factory self.key_leaf)

  -- The loop, by the number of its rounds; `none` when these are used up.
  unfoldable pub generate_loop : ℕ → WalletLibrary p → ℕ → Option (WalletLibrary p)
  unfolding new_address
  generate_loop zero self depth = if self.key_leaf == depth then some self else none
  generate_loop (suc fuel) self depth =
      let rest = generate_loop fuel (new_address self).0 depth in
      if self.key_leaf == depth then some self else rest

  unfoldable pub generate_addresses :
      ℕ → WalletLibrary p → ℕ → Option (Result WalletError (WalletLibrary p))
  unfolding generate_loop
  generate_addresses fuel self depth =
      if ltb depth self.key_leaf
      then some (err already_generated)
      else elim (generate_loop fuel self depth) [ none ↦ none | some w ↦ some (ok w) ]

  unfoldable pub new_address_at_child_number :
      WalletLibrary p → ℕ → Result WalletError p.AccountAddress
  unfolding private_child
  new_address_at_child_number self child_number = do
    child ← private_child p c self.key_factory child_number
    ok (get_address p c child)

  -- `get` of the reversed map, into which the pairs are collected in turn, so that the last one of a
  -- number wins.
  unfoldable pub rev_get : ℕ → BTreeMap p ℕ → Option p.AccountAddress
  rev_get i [] = none
  rev_get i ((k, v) ∷ m) = elim (rev_get i m) [
    | some a ↦ some a
    | none ↦ (if v == i then some k else none)
  ]

  -- The loop over the numbers from `i`, `k` of them.
  unfoldable pub collect_from : BTreeMap p ℕ → ℕ → ℕ → Result WalletError (List p.AccountAddress)
  unfolding rev_get
  collect_from m zero i = ok []
  collect_from m (suc k) i = do
    a ← context (rev_get i m) already_in_wallet
    rest ← collect_from m k (suc i)
    ok (a ∷ rest)

  unfoldable pub get_addresses : WalletLibrary p → Result WalletError (List p.AccountAddress)
  unfolding collect_from
  get_addresses self = collect_from self.addr_map (length self.addr_map) 0

  unfoldable pub get_private_key :
      WalletLibrary p → p.AccountAddress → Result WalletError p.Ed25519PrivateKey
  unfolding private_child lookup
  get_private_key self address = do
    child ← context (lookup p address self.addr_map) missing_address
    key ← private_child p c self.key_factory child
    ok key.private_key

  unfoldable pub authentication_key_of :
      WalletLibrary p → p.AccountAddress → Result WalletError p.AuthenticationKey
  unfolding private_child lookup
  authentication_key_of self address = do
    child ← context (lookup p address self.addr_map) missing_address
    key ← private_child p c self.key_factory child
    ok (get_authentication_key p c key)
