-- ===== src/Genesis/Compare.antt =====
-- tools/genesis/src/compare.rs: the audit of a genesis against the recovery file. The database is
-- the argument `chain`, by the two resources that the audit reads of an account; the progress bar
-- and the messages on the console are left out, and so is `user_supply`, which is never read.
pub mod Exact
pub mod Returns
pub mod Checks
use libra_v.Prelude.{
  ℕ, suc, Option, none, some, List, [], ◌∷◌, ◌++◌, Bool, Result, ok, err, ◌>>=◌, context, ltb, ◌==◌,
  if◌then◌else◌, not, true, false,
}
use libra_v.Platform.{Platform}
use libra_v.Types.Coin.{GasCoinStoreResource, SlowWalletBalance}
use libra_v.Types.Resources.{LegacyBalanceResourceV6, SlowWalletResource}
use libra_v.Compat.LegacyRecovery.{
  LegacyRecoveryV6, AccountRole, system, validator, operator, end_user, drop, RecoveryError,
  unwrap_none, strip_system_address,
}

pub data Message : Type 0 where
  account_is_none unexpected_balance unexpected_slow_wallet_unlocked unlocked_greater_than_balance :
      Message

pub record CompareError (p : Platform) : Type 0 where
  pub index : ℕ
  pub account : Option p.AccountAddress
  pub expected : ℕ
  pub migrated : ℕ
  pub message : Message

-- The resources of the accounts in the database. A read that fails stops the audit.
pub record Chain (p : Platform) : Type 0 where
  pub coin_store : p.AccountAddress → Result RecoveryError (Option (GasCoinStoreResource p))
  pub slow_wallet : p.AccountAddress → Result RecoveryError (Option SlowWalletBalance)

module _ (p : Platform) where
  abbrev pub if_not : Bool → CompareError p → List (CompareError p)
  if_not true e = []
  if_not false e = e ∷ []

  -- The two checks of a slow wallet. `unwrap` stops at an account that has none on chain; nothing is
  -- read for a record without one.
  unfoldable pub check_slow :
      ℕ
      → p.AccountAddress
      → ℕ
      → Option SlowWalletResource
      → Result RecoveryError (Option SlowWalletBalance)
      → Result RecoveryError (List (CompareError p))
  check_slow i account coin none new_slow = ok []
  check_slow i account coin (some old_slow) (err e) = err e
  check_slow i account coin (some old_slow) (ok none) = err unwrap_none
  check_slow i account coin (some old_slow) (ok (some new_slow)) = ok (
      if_not (new_slow.unlocked == old_slow.unlocked) (record {
        index = i;
        account = some account;
        expected = old_slow.unlocked;
        migrated = new_slow.unlocked;
        message = unexpected_slow_wallet_unlocked;
      })
      ++ if_not (not (ltb coin new_slow.unlocked)) (record {
        index = i;
        account = some account;
        expected = new_slow.unlocked;
        migrated = coin;
        message = unlocked_greater_than_balance;
      }))

  -- What follows once the balance on chain is read; an account without one is skipped.
  unfoldable pub check_account :
      ℕ
      → p.AccountAddress
      → LegacyRecoveryV6 p
      → Result RecoveryError (Option (GasCoinStoreResource p))
      → Result RecoveryError (Option SlowWalletBalance)
      → Result RecoveryError (List (CompareError p))
  unfolding check_slow
  check_account i account old (err e) slow = err e
  check_account i account old (ok none) slow = ok []
  check_account i account old (ok (some on_chain)) slow = do
    old_balance ← context old.balance unwrap_none
    slow_errors ← check_slow i account on_chain.coin old.slow_wallet slow
    ok (
        if_not (on_chain.coin == old_balance.coin) (record {
          index = i;
          account = some account;
          expected = old_balance.coin;
          migrated = on_chain.coin;
          message = unexpected_balance;
        })
        ++ slow_errors)

  unfoldable pub check_record :
      Chain p
      → ℕ
      → LegacyRecoveryV6 p
      → AccountRole
      → Option p.AccountAddress
      → Result RecoveryError (List (CompareError p))
  unfolding check_account
  check_record chain i old drop account = ok []
  check_record chain i old role none = ok (
      record { index = i; account = none; expected = 0; migrated = 0; message = account_is_none }
      ∷ [])
  check_record chain i old role (some account) =
      check_account i account old (chain.coin_store account) (chain.slow_wallet account)

  unfoldable pub check_all :
      Chain p → ℕ → List (LegacyRecoveryV6 p) → Result RecoveryError (List (CompareError p))
  unfolding check_record
  check_all chain i [] = ok []
  check_all chain i (old ∷ rest) = do
    errors ← check_record chain i old old.role old.account
    more ← check_all chain (suc i) rest
    ok (errors ++ more)

  unfoldable pub compare_recovery_vec_to_genesis_tx :
      List (LegacyRecoveryV6 p) → Chain p → Result RecoveryError (List (CompareError p))
  unfolding check_all
  compare_recovery_vec_to_genesis_tx recovery chain = do
    stripped ← strip_system_address p recovery
    check_all chain 0 stripped
