-- ===== src/Tests/Audit.antt =====
-- The recovery of an account, the community wallets and the audit of a genesis on small inputs.
use libra_v.Prelude.{none, some, [], ◌∷◌, ◌≡◌, ◌↔◌, refl, All, retain, arith, ok, replicate}
use libra_v.Compat.LegacyRecovery.{
  default_recovery, get_legacy_recovery, AccountState, strip_system_address, is_system, operator,
  read_resources, role_of, to_byte_slice,
}
use libra_v.Compat.LegacyRecovery.Strip.{HasAccount, is_user}
use libra_v.Compat.LegacyRecovery.Roles.{HasRole, get_legacy_recovery-HasRole}
use libra_v.Genesis.BTreeMap.{known, lookup}
use libra_v.Genesis.CommWallet.{AllCommWallets, DonorReceipts, update_cw_with_donor}
use libra_v.Genesis.CommWallet.Conserve.{Credited, update_cw_with_donor_conserves}
use libra_v.Genesis.Compare.{
  Chain, unexpected_slow_wallet_unlocked, check_all, check_record, check_account, check_slow,
  compare_recovery_vec_to_genesis_tx,
}
use libra_v.Genesis.Compare.Exact.{
  IsMigrated, NamesAccount, compare_silent_iff, compare_names_accounts,
}
use libra_v.Tests.Sample.{sample, hex_text}
use libra_v.Tests.Records.{carol, root, Entry}

-- The state of a validator's operator with a balance of 9.
abbrev state : AccountState sample
state = record {
  get_account_address = ok (some 4_660);
  get_account_resource = ok (some (replicate 32 7));
  get_coin_store_resource = ok (some 9);
  get_validator_config_resource = ok (some 1);
  get_validator_operator_config_resource = ok (some 2);
  get_community_wallets = ok none;
  get_ancestry = ok none;
  get_receipts = ok none;
  get_cumulative_deposit = ok none;
  get_slow_wallet = ok none;
  get_slow_wallet_list = ok none;
  get_user_burn_preference = ok none;
  get_burn_tracker = ok none;
  get_my_vouches = ok none;
  get_tx_schedule = ok none;
  get_fee_maker = ok none;
  get_jail = ok none;
  get_my_pledges = ok none;
  get_burn_counter = ok none;
  get_registry = ok none;
  get_epoch_fee_maker_registry = ok none;
  get_match_index = ok none;
  get_validator_universe = ok none;
  get_consensus_reward = ok none;
}

abbrev recovered : Entry
recovered = record (default_recovery sample) {
  account = some 4_660;
  auth_key = some (replicate 32 7);
  role = operator;
  balance = some (record { coin = 9 });
  val_cfg = some 1;
  val_operator_cfg = some 2;
}

recovers : get_legacy_recovery sample state ≡ ok recovered
unfolding get_legacy_recovery read_resources role_of to_byte_slice
recovers = refl

get_legacy_recovery-HasRole_example : HasRole sample recovered
get_legacy_recovery-HasRole_example = get_legacy_recovery-HasRole sample state recovered recovers

-- One community wallet, and a donor who also paid to an account that is none.
abbrev wallets : AllCommWallets sample
wallets = record {
  list =
      (
        43_981,
        record {
          cumulative_value = 70;
          cumulative_index = 70;
          depositors = [];
          audit_deposits_with_receipts = 0;
        },
      )
      ∷ [];
  total_deposits = 70;
}

abbrev donors : DonorReceipts sample
donors = record {
  list =
      (
        4_661,
        record {
          destination = 43_981 ∷ 99 ∷ [];
          cumulative = 60 ∷ 7 ∷ [];
          last_payment_timestamp = 0 ∷ 0 ∷ [];
          last_payment_value = 60 ∷ 7 ∷ [];
          audit_not_found = [];
        },
      )
      ∷ [];
  total_cumu = 0;
  audit_not_cw = [];
}

update_cw_with_donor_conserves_example :
    (cw' : AllCommWallets sample) × (donors' : DonorReceipts sample) × (update_cw_with_donor sample
        wallets donors
      ≡ ok (cw', donors'))
    × Credited sample (known sample wallets.list) donors.list donors'.list wallets.list cw'.list
    × (cw'.total_deposits ≡ wallets.total_deposits)
unfolding lookup
update_cw_with_donor_conserves_example =
    update_cw_with_donor_conserves sample wallets donors (omega arith, tt) (omega arith)

-- A chain that holds the coins of the two accounts that are audited below.
abbrev pub chain : Chain sample
chain = record {
  coin_store = λ a. ok (some (record { coin = 900; deposit_events = 0; withdraw_events = 1 }));
  slow_wallet = λ a. ok (some (record { unlocked = 250; total = 900 }));
}

compare_silent_iff_example :
    (compare_recovery_vec_to_genesis_tx sample (root ∷ carol ∷ []) chain ≡ ok []) ↔ (
      All (HasAccount sample) (root ∷ carol ∷ [])
      × All (IsMigrated chain) (retain (is_user sample) (root ∷ carol ∷ [])))
compare_silent_iff_example = compare_silent_iff sample (root ∷ carol ∷ []) chain

-- The slow wallet of the chain has unlocked less than that of the file.
reports :
    compare_recovery_vec_to_genesis_tx sample (root ∷ carol ∷ []) chain
    ≡ ok (
        record {
          index = 0;
          account = some 4_662;
          expected = 300;
          migrated = 250;
          message = unexpected_slow_wallet_unlocked;
        }
        ∷ [])
unfolding compare_recovery_vec_to_genesis_tx check_all check_record check_account check_slow
    strip_system_address is_system hex_text
reports = refl

compare_names_accounts_example : All (NamesAccount sample) (
    record {
      index = 0;
      account = some 4_662;
      expected = 300;
      migrated = 250;
      message = unexpected_slow_wallet_unlocked;
    }
    ∷ [])
compare_names_accounts_example = compare_names_accounts sample (root ∷ carol ∷ []) chain _ reports
