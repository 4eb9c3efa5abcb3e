-- ===== src/Genesis/Users.antt =====
-- tools/genesis/src/genesis_functions.rs: the loop over all users, the cumulative deposits, and the
-- calls for the supply and the rewards.
pub mod Plan
pub mod Steps
pub mod Refine
pub mod Minted
pub mod Deposits
use libra_v.Prelude.{
  ℕ, Option, none, some, List, [], ◌∷◌, Bool, codes, Result, ok, err, ◌>>=◌, is_some, if◌then◌else◌,
  ◌*◌,
}
use libra_v.Platform.{Platform}
use libra_v.Compat.LegacyRecovery.{
  LegacyRecoveryV6, AccountRole, system, validator, operator, end_user, drop,
}
use libra_v.Genesis.BTreeMap.{BTreeMap}
use libra_v.Genesis.CommWallet.{WalletState, prepare_cw_and_receipts}
use libra_v.Genesis.Session.{Stop, bad_wallets, u64_value, signer, Vm}
use libra_v.Genesis.Functions.{
  MigrateError, call, tombstone_call, deposits_call, Migrated, genesis_migrate_one_user,
  genesis_migrate_slow_wallet, genesis_migrate_infra_escrow, genesis_migrate_receipts,
  genesis_migrate_ancestry, genesis_migrate_community_wallet,
}

module _ (p : Platform) (vm : Vm p) where
  unfoldable pub set_tombstone : vm.SessionExt → p.AccountAddress → Result Stop vm.SessionExt
  set_tombstone session user = vm.exec_function session (tombstone_call p user)

  -- Whatever error the function returns is only logged.
  abbrev pub logged : Migrated p vm → Result Stop vm.SessionExt
  logged m = m >>= λ (s, error). ok s

  abbrev pub when : Bool → Result Stop vm.SessionExt → vm.SessionExt → Result Stop vm.SessionExt
  when test m session = if test then m else ok session

  -- The body of the loop for an account that is not dropped.
  unfoldable pub migrate_user : vm.SessionExt → LegacyRecoveryV6 p → Result Stop vm.SessionExt
  unfolding genesis_migrate_one_user genesis_migrate_slow_wallet genesis_migrate_infra_escrow
      genesis_migrate_receipts genesis_migrate_ancestry genesis_migrate_community_wallet
  migrate_user session a = do
    s1 ← logged (genesis_migrate_one_user p vm session a)
    s2 ← when (is_some a.slow_wallet) (logged (genesis_migrate_slow_wallet p vm s1 a)) s1
    s3 ← when (is_some a.comm_wallet) (genesis_migrate_community_wallet p vm s2 a.account) s2
    s4 ← when (is_some a.ancestry) (logged (genesis_migrate_ancestry p vm s3 a)) s3
    s5 ← when (is_some a.receipts) (logged (genesis_migrate_receipts p vm s4 a)) s4
    when (is_some a.my_pledge) (logged (genesis_migrate_infra_escrow p vm s5 a)) s5

  unfoldable pub drop_or_migrate :
      vm.SessionExt
      → LegacyRecoveryV6 p
      → AccountRole
      → Option p.AccountAddress
      → Result Stop vm.SessionExt
  unfolding set_tombstone migrate_user
  drop_or_migrate session a drop (some account) = set_tombstone session account
  drop_or_migrate session a role account = migrate_user session a

  unfoldable pub genesis_migrate_all_users :
      vm.SessionExt → List (LegacyRecoveryV6 p) → Result Stop vm.SessionExt
  unfolding drop_or_migrate
  genesis_migrate_all_users session [] = ok session
  genesis_migrate_all_users session (a ∷ user_recovery) = do
    s ← drop_or_migrate session a a.role a.account
    genesis_migrate_all_users s user_recovery

  unfoldable pub deposits_all :
      vm.SessionExt → BTreeMap p (WalletState p) → Result Stop vm.SessionExt
  deposits_all session [] = ok session
  deposits_all session ((addr, wallet) ∷ list) = do
    s ← vm.exec_function session (deposits_call p addr wallet)
    deposits_all s list

  unfoldable pub genesis_migrate_cumu_deposits :
      vm.SessionExt → List (LegacyRecoveryV6 p) → Result Stop vm.SessionExt
  unfolding deposits_all
  genesis_migrate_cumu_deposits session user_recovery =
      elim (prepare_cw_and_receipts p user_recovery) [
        | err e ↦ err bad_wallets
        | ok (dr, cw) ↦ deposits_all session cw.list
      ]

  unfoldable pub set_final_supply : vm.SessionExt → Result Stop vm.SessionExt
  set_final_supply session = vm.exec_function session (
      call p (codes "libra_coin") (codes "genesis_set_final_supply")
        (signer p.account_one ∷ u64_value (100_000_000_000 * 1_000_000) ∷ []))

  unfoldable pub set_validator_baseline_reward : vm.SessionExt → ℕ → Result Stop vm.SessionExt
  set_validator_baseline_reward session nominal_reward = vm.exec_function session (
      call p (codes "proof_of_fee") (codes "genesis_migrate_reward")
        (signer p.account_one ∷ u64_value nominal_reward ∷ []))
