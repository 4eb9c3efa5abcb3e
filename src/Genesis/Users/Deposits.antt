-- ===== src/Genesis/Users/Deposits.antt =====
-- `genesis_migrate_cumu_deposits` of tools/genesis/src/genesis_functions.rs: the calls that it makes
-- and the deposits that they carry.
use mathlib.Core.Path.{fun_ext}
use libra_v.Prelude.{codes, ◌<◌, ◌^◌, ◌≡◌, refl, ap, List, [], ◌∷◌, map, ok, ◌>>=◌, All}
use libra_v.Platform.{Platform}
use libra_v.Compat.LegacyRecovery.{LegacyRecoveryV6}
use libra_v.Genesis.BTreeMap.{BTreeMap, known}
use libra_v.Genesis.CommWallet.{
  WalletState, AllCommWallets, DonorReceipts, rebuild_donor_receipts, rebuild_cw_cumu_deposits,
}
use libra_v.Genesis.CommWallet.Conserve.{IsComplete, all_credited, ledger}
use libra_v.Genesis.CommWallet.Rebuild.{prepare_cw_and_receipts_conserves}
use libra_v.Genesis.Session.{Call, Vm, run, signer, u64_value, vector_address}
use libra_v.Genesis.Functions.{call, deposits_call}
use libra_v.Genesis.Users.{deposits_all, genesis_migrate_cumu_deposits}

module _ (p : Platform) (vm : Vm p) where
  -- For each wallet a call of `genesis_migrate_cumulative_deposits`, signed by the core account and by
  -- the wallet, with the value, the index and the depositors.
  abbrev pub deposits_plan : BTreeMap p (WalletState p) → List (Call p)
  deposits_plan [] = []
  deposits_plan ((addr, wallet) ∷ list) =
      call p (codes "cumulative_deposits") (codes "genesis_migrate_cumulative_deposits") (
        signer p.account_one
        ∷ signer addr
        ∷ u64_value wallet.cumulative_value
        ∷ u64_value wallet.cumulative_index
        ∷ vector_address wallet.depositors
        ∷ [])
      ∷ deposits_plan list

  deposits_run :
      (list : BTreeMap p (WalletState p)) (s : vm.SessionExt)
      → deposits_all p vm s list ≡ run vm s (deposits_plan list)
  unfolding deposits_all run
  deposits_run [] s = refl
  deposits_run ((addr, wallet) ∷ list) s =
      ap (λ f. vm.exec_function s (deposits_call p addr wallet) >>= f) (fun_ext (deposits_run list))

  -- One list of wallets serves every session.
  pub one_list :
      (recovery : List (LegacyRecoveryV6 p)) (dr : DonorReceipts p) (cw : AllCommWallets p)
      → rebuild_donor_receipts p recovery ≡ ok dr
      → rebuild_cw_cumu_deposits p recovery ≡ ok cw
      → All (IsComplete p (known p cw.list)) dr.list
      → all_credited p (known p cw.list) dr.list < 2 ^ 64
      → (list : BTreeMap p (WalletState p)) × ((s : vm.SessionExt)
          → genesis_migrate_cumu_deposits p vm s recovery ≡ run vm s (deposits_plan list))
        × (map ledger list ≡ map ledger cw.list)
  unfolding genesis_migrate_cumu_deposits
  one_list recovery dr cw donors wallets complete small =
      let (dr', cw', prepared, audits, credited, total) =
        prepare_cw_and_receipts_conserves p recovery dr cw donors wallets complete small in
      (
        cw'.list,
        λ s. rw (prepared, genesis_migrate_cumu_deposits) (deposits_run cw'.list s),
        credited.ledgers,
      )

  -- If both rebuilds of the file return, every rebuilt receipt has a value for each destination and
  -- the values that go to community wallets fit a u64 together, then the migration of the deposits
  -- makes the calls of a list of wallets, one for each in turn, and this list has the addresses,
  -- the cumulative values and the indices of the rebuilt wallets, in their order.
  pub genesis_migrate_cumu_deposits-run :
      (recovery : List (LegacyRecoveryV6 p)) (dr : DonorReceipts p) (cw : AllCommWallets p)
      (s : vm.SessionExt)
      → rebuild_donor_receipts p recovery ≡ ok dr
      → rebuild_cw_cumu_deposits p recovery ≡ ok cw
      → All (IsComplete p (known p cw.list)) dr.list
      → all_credited p (known p cw.list) dr.list < 2 ^ 64
      → (list : BTreeMap p (WalletState p)) × (genesis_migrate_cumu_deposits p vm s recovery
          ≡ run vm s (deposits_plan list))
        × (map ledger list ≡ map ledger cw.list)
  genesis_migrate_cumu_deposits-run recovery dr cw s donors wallets complete small =
      let (list, runs, ledgers) = one_list recovery dr cw donors wallets complete small in
      (list, runs s, ledgers)
