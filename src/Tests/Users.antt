-- ===== src/Tests/Users.antt =====
-- The migration of the users and the preparation of the community wallets on a small recovery file.
use libra_v.Prelude.{
  map, ◌+◌, ◌%◌, ◌^◌, some, List, [], ◌∷◌, ◌≡◌, refl, ok, retain, arith, replicate,
}
use libra_v.Genesis.BTreeMap.{BTreeMap, lookup, insert, known, sum_by}
use libra_v.Genesis.CommWallet.{
  WalletState, AllCommWallets, DonorReceipts, rebuild_donor_receipts, rebuild_cw_cumu_deposits,
  donor_list, cw_list, prepare_cw_and_receipts,
}
use libra_v.Genesis.CommWallet.Conserve.{ledger, audit, all_credited, Credited}
use libra_v.Genesis.CommWallet.Rebuild.{deposits, prepare_cw_and_receipts_conserves}
use libra_v.Genesis.ParseJson.Drop.{coins}
use libra_v.Genesis.Session.{run}
use libra_v.Genesis.Users.{genesis_migrate_cumu_deposits, genesis_migrate_all_users}
use libra_v.Genesis.Users.Plan.{plan}
use libra_v.Genesis.Users.Refine.{genesis_migrate_all_users-run}
use libra_v.Genesis.Users.Minted.{mint, is_created, genesis_migrate_all_users-mint}
use libra_v.Genesis.Users.Deposits.{deposits_plan, genesis_migrate_cumu_deposits-run}
use libra_v.Tests.Sample.{sample}
use libra_v.Tests.Records.{Entry, recovery, alice}

abbrev keyed : List Entry
keyed = record alice { auth_key = some (replicate 32 7) } ∷ recovery

genesis_migrate_all_users-run_example :
    genesis_migrate_all_users sample (mint sample) 0 keyed ≡ run (mint sample) 0 (plan sample keyed)
genesis_migrate_all_users-run_example =
    genesis_migrate_all_users-run sample (mint sample) keyed 0
      (refl, (refl, (refl, (refl, (refl, (refl, tt))))))

genesis_migrate_all_users-mint_example :
    genesis_migrate_all_users sample (mint sample) 5 keyed
    ≡ ok (5 + coins (retain (is_created sample) keyed))
genesis_migrate_all_users-mint_example =
    genesis_migrate_all_users-mint sample keyed 5 (refl, (refl, (refl, (refl, (refl, (refl, tt))))))

abbrev pub wallets : AllCommWallets sample
wallets = record {
  list =
      (
        43_981,
        record {
          cumulative_value = 70;
          cumulative_index = 70;
          depositors = [];
          audit_deposits_with_receipts = 0;
        },
      )
      ∷ [];
  total_deposits = 70;
}

abbrev pub donors : DonorReceipts sample
donors = record {
  list =
      (
        4_661,
        record {
          destination = 43_981 ∷ 99 ∷ [];
          cumulative = 60 ∷ 7 ∷ [];
          last_payment_timestamp = 0 ∷ 0 ∷ [];
          last_payment_value = 60 ∷ 7 ∷ [];
          audit_not_found = [];
        },
      )
      ∷ [];
  total_cumu = 0;
  audit_not_cw = [];
}

pub rebuilt_donors : rebuild_donor_receipts sample recovery ≡ ok donors
unfolding rebuild_donor_receipts donor_list insert
rebuilt_donors = refl

pub rebuilt_wallets : rebuild_cw_cumu_deposits sample recovery ≡ ok wallets
unfolding rebuild_cw_cumu_deposits cw_list insert
rebuilt_wallets = refl

prepare_cw_and_receipts_conserves_example :
    (dr' : DonorReceipts sample) × (cw' : AllCommWallets sample) × (prepare_cw_and_receipts sample
        recovery
      ≡ ok (dr', cw'))
    × (sum_by sample audit cw'.list ≡ all_credited sample (known sample wallets.list) donors.list)
    × Credited sample (known sample wallets.list) donors.list dr'.list wallets.list cw'.list
    × (cw'.total_deposits ≡ deposits recovery % 2 ^ 64)
unfolding lookup
prepare_cw_and_receipts_conserves_example =
    prepare_cw_and_receipts_conserves sample recovery donors wallets rebuilt_donors rebuilt_wallets
      (omega arith, tt) (omega arith)

genesis_migrate_cumu_deposits-run_example :
    (list : BTreeMap sample (WalletState sample)) × (genesis_migrate_cumu_deposits sample
        (mint sample)
        0
        recovery
      ≡ run (mint sample) 0 (deposits_plan sample (mint sample) list))
    × (map ledger list ≡ map ledger wallets.list)
unfolding lookup
genesis_migrate_cumu_deposits-run_example =
    genesis_migrate_cumu_deposits-run sample (mint sample) recovery donors wallets 0 rebuilt_donors
      rebuilt_wallets (omega arith, tt) (omega arith)
