-- ===== src/Genesis/Compare/Checks.antt =====
-- tools/genesis/src/compare.rs: the checks of the validators and of the supply, and the export of the
-- balances. What is read of the database is an argument, and an address that is parsed from its own
-- literal is itself.
pub mod Validators
use libra_v.Prelude.{
  ℕ, Option, none, some, List, [], ◌∷◌, Bool, length, any, ◌==◌, if◌then◌else◌, Result, ok, err,
  ◌>>=◌, context,
}
use libra_v.Platform.{Platform}
use libra_v.Types.Coin.{GasCoinStoreResource, SlowWalletBalance}
use libra_v.Compat.LegacyRecovery.{LegacyRecoveryV6, RecoveryError}
use libra_v.Genesis.Compare.{Chain}

-- The assertions that stop a check, and the errors of the reader of the database.
pub data CheckError : Type 0 where
  set_length_mismatch validator_missing supply_mismatch : CheckError
  db_error db_none : CheckError

pub record JsonDump (p : Platform) : Type 0 where
  pub account : p.AccountAddress
  pub balance : Option (GasCoinStoreResource p)
  pub slow : Option SlowWalletBalance

-- The two contexts of `get_val_set` and of `get_struct` around what the database returns.
abbrev pub two_contexts {ℓ} : {A : Type ℓ} → Option (Option A) → Result CheckError A
two_contexts none = err db_error
two_contexts (some none) = err db_none
two_contexts (some (some a)) = ok a

module _ (p : Platform) where
  -- The addresses of the validator set's payload.
  unfoldable pub get_val_set :
      Option (Option (List p.AccountAddress)) → Result CheckError (List p.AccountAddress)
  get_val_set on_chain = two_contexts on_chain

  abbrev pub contains_address : List p.AccountAddress → p.AccountAddress → Bool
  contains_address addrs v = any (λ a. p.account_eq.beq a v) addrs

  unfoldable pub check_each :
      List p.AccountAddress → List p.AccountAddress → Result CheckError (Unit {0})
  check_each addrs [] = ok tt
  check_each addrs (v ∷ expected_vals) =
      let rest = check_each addrs expected_vals in
      if contains_address addrs v then rest else err validator_missing

  unfoldable pub check_val_set :
      List p.AccountAddress → Option (Option (List p.AccountAddress)) → Result CheckError (Unit {0})
  unfolding get_val_set check_each
  check_val_set expected_vals on_chain = do
    addrs ← get_val_set on_chain
    (if length addrs == length expected_vals
        then check_each addrs expected_vals
        else err set_length_mismatch)

  unfoldable pub check_supply : ℕ → ℕ → Result CheckError (Unit {0})
  check_supply expected_supply on_chain_supply =
      if expected_supply == on_chain_supply then ok tt else err supply_mismatch

  abbrev pub dump_of :
      Chain p
      → Option p.AccountAddress
      → Result RecoveryError (List (JsonDump p))
      → Result RecoveryError (List (JsonDump p))
  dump_of chain none rest = rest
  dump_of chain (some account) rest = do
    slow ← chain.slow_wallet account
    balance ← chain.coin_store account
    list ← rest
    ok (record { account = account; balance = balance; slow = slow } ∷ list)

  -- The list that is written to the file; a read that fails stops the export.
  unfoldable pub export_account_balances :
      List (LegacyRecoveryV6 p) → Chain p → Result RecoveryError (List (JsonDump p))
  export_account_balances [] chain = ok []
  export_account_balances (old ∷ recovery) chain =
      dump_of chain old.account (export_account_balances recovery chain)
