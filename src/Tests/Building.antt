-- ===== src/Tests/Building.antt =====
-- The registrations, the migration stage and the audit of a genesis on small arguments.
use libra_v.Prelude.{
  ℕ, ◌+◌, ◌≡◌, ◌↔◌, refl, true, false, Option, none, some, [], ◌∷◌, ◌++◌, Text, map, replicate,
  length, codes, ok, err, arith,
}
use libra_v.Genesis.BTreeMap.{BTreeMap, lookup}
use libra_v.Genesis.CommWallet.{WalletState}
use libra_v.Genesis.CommWallet.Conserve.{ledger}
use libra_v.Genesis.Session.{run}
use libra_v.Genesis.Users.Plan.{plan}
use libra_v.Genesis.Users.Minted.{mint}
use libra_v.Genesis.Users.Deposits.{deposits_plan}
use libra_v.Genesis.Registration.{
  StringOwnerConfiguration, parse_key, parse_required_option, parse_optional_option, working, trim,
  u64_from_str, bool_from_str,
}
use libra_v.Genesis.Registration.Config.{
  KeyTypes, StringOperatorConfiguration, ValidatorConfiguration, Client, get_config,
  get_validator_configs, read_owner, read_operator, agree, owner_file, operator_file,
}
use libra_v.Genesis.Registration.Agree.{Names, get_config-Names}
use libra_v.Genesis.Registration.Collect.{AllRead, get_validator_configs_iff}
use libra_v.Genesis.Encode.{Vendor, migrate}
use libra_v.Genesis.Encode.Stages.{core_record, reward_plan, migrate-run}
use libra_v.Genesis.Build.{World, BuildError, audit}
use libra_v.Genesis.Build.Audit.{Audited, audit_passes_iff}
use libra_v.Tests.Sample.{sample, ℕ-eq}
use libra_v.Tests.Records.{recovery, alice, fund, donor, carol, root}
use libra_v.Tests.Users.{rebuilt_donors, rebuilt_wallets, donors, wallets}
use libra_v.Compat.LegacyRecovery.{strip_system_address, is_system}
use libra_v.Genesis.Compare.{
  check_all, check_record, check_account, check_slow, compare_recovery_vec_to_genesis_tx,
}
use libra_v.Genesis.Compare.Checks.{export_account_balances}
use libra_v.Tests.Sample.{hex_text}
use libra_v.Tests.Audit.{chain}

abbrev keys : KeyTypes sample
keys = record {
  Ed25519PublicKey = ℕ;
  ed25519_eq = ℕ-eq;
  ed25519_from = λ s. some (length s);
  BlsPublicKey = ℕ;
  bls_from = λ s. some (length s);
  ProofOfPossession = ℕ;
  proof_from = λ s. some (length s);
  NetworkKey = ℕ;
  network_from = λ s. some (length s);
  HostAndPort = ℕ;
  address_from_str = λ s. ok (length s);
}

abbrev hex_zeros : ℕ → Option Text
hex_zeros n = some (replicate n 48)

abbrev owner : StringOwnerConfiguration
owner = record {
  owner_account_address = some (codes "0xab");
  owner_account_public_key = hex_zeros 64;
  operator_account_address = some (codes "0xab");
  operator_account_public_key = some (codes "0x" ++ replicate 64 48);
  voter_account_address = some (codes "0xab");
  voter_account_public_key = hex_zeros 64;
  stake_amount = some (codes "10");
  commission_percentage = none;
  join_during_genesis = some (codes "false");
}

abbrev operator : StringOperatorConfiguration sample keys
operator = record {
  operator_account_address = some (codes "0xab");
  operator_account_public_key = some (codes "0x" ++ replicate 64 48);
  consensus_public_key = hex_zeros 96;
  consensus_proof_of_possession = hex_zeros 192;
  validator_network_public_key = hex_zeros 64;
  validator_host = 6180;
  full_node_network_public_key = none;
  full_node_host = none;
}

abbrev client : Client sample keys
client = record { owner_config = λ file. ok owner; operator_config = λ file. ok operator }

abbrev registered : ValidatorConfiguration sample keys
registered = record {
  owner_account_address = 4;
  owner_account_public_key = 64;
  operator_account_address = 4;
  operator_account_public_key = 66;
  voter_account_address = 4;
  voter_account_public_key = 64;
  consensus_public_key = some 96;
  proof_of_possession = some 192;
  validator_network_public_key = some 64;
  validator_host = some 6180;
  full_node_network_public_key = none;
  full_node_host = none;
  stake_amount = 10;
  commission_percentage = 0;
  join_during_genesis = false;
}

read_alice : get_config sample keys client (codes "alice") ≡ ok registered
unfolding get_config read_owner read_operator agree parse_required_option parse_optional_option
    parse_key working trim u64_from_str bool_from_str
read_alice = refl

get_config-Names_example :
    (c : StringOwnerConfiguration) × (d : StringOperatorConfiguration sample keys)
    × (client.owner_config (owner_file sample keys (codes "alice")) ≡ ok c)
    × (client.operator_config (operator_file sample keys (codes "alice")) ≡ ok d)
    × Names sample keys
        (owner_file sample keys (codes "alice"))
        c.operator_account_address
        c.operator_account_public_key
        registered
    × Names sample keys
        (operator_file sample keys (codes "alice"))
        d.operator_account_address
        d.operator_account_public_key
        registered
get_config-Names_example = get_config-Names sample keys client (codes "alice") registered read_alice

get_validator_configs_iff_example :
    (get_validator_configs sample keys client (codes "alice" ∷ []) ≡ ok (registered ∷ []))
    ↔ AllRead sample keys client (codes "alice" ∷ []) (registered ∷ [])
get_validator_configs_iff_example =
    get_validator_configs_iff sample keys client (codes "alice" ∷ []) (registered ∷ [])

abbrev vendor : Vendor sample (mint sample)
vendor = record {
  Validator = ℕ;
  ReleaseBundle = ℕ;
  ChangeSet = ℕ;
  validate_genesis_config = λ config. ok tt;
  new_session = λ bundle id. 0;
  initialize = λ s chain config. ok s;
  initialize_features = λ s. ok s;
  initialize_diem_coin = λ s. ok s;
  initialize_on_chain_governance = λ s config. ok s;
  create_and_initialize_validators = λ s validators. ok s;
  set_genesis_end = λ s. ok s;
  emit_new_block_and_epoch_event = λ s. ok s;
  publish_framework = λ s bundle. ok s;
  finish = λ s. ok s;
  squash = λ a b. ok (a + b);
  delta_is_empty = λ c. true;
  has_deletion = λ c. false;
  verify_genesis_write_set = λ c. ok tt;
}

migrate-run_example :
    (list : BTreeMap sample (WalletState sample)) × (migrate sample (mint sample) vendor recovery 0
      ≡ run (mint sample) 0 (
          reward_plan sample (mint sample) vendor (core_record sample (mint sample) vendor recovery)
          ++ (plan sample recovery ++ deposits_plan sample (mint sample) list)))
    × (map ledger list ≡ map ledger wallets.list)
unfolding lookup
migrate-run_example =
    migrate-run sample (mint sample) vendor root (alice ∷ (fund ∷ (donor ∷ (carol ∷ [])))) donors
      wallets 0 (refl, (refl, (refl, (refl, (refl, tt))))) rebuilt_donors rebuilt_wallets
      (omega arith, tt) (omega arith)

-- A database with less unlocked than the file says.
abbrev world : World sample (mint sample) vendor keys
world = record {
  Settings = ℕ;
  default_settings = 0;
  client = client;
  layout = ok (codes "alice" ∷ []);
  framework_file = ok 1;
  local_framework = ok 2;
  head_release_bundle = 3;
  new_info = λ chain vals bundle config. err BuildError.bad_info;
  create_dir_all = ok tt;
  check_if_file_exists = λ name. ok tt;
  get_genesis = λ info. 0;
  waypoint = λ info. ok [];
  write_file = λ name. ok tt;
  database = λ genesis. ok chain;
  write_balances = λ balances. ok tt;
}

audit_passes_iff_example :
    (audit sample (mint sample) vendor keys world (root ∷ (carol ∷ [])) 0 ≡ ok tt)
    ↔ Audited sample (mint sample) vendor keys world (root ∷ (carol ∷ [])) 0
audit_passes_iff_example =
    audit_passes_iff sample (mint sample) vendor keys world root (carol ∷ []) 0

-- The audit passes on a genesis in which it finds an error.
audit_of_errors : audit sample (mint sample) vendor keys world (root ∷ (carol ∷ [])) 0 ≡ ok tt
unfolding audit export_account_balances compare_recovery_vec_to_genesis_tx check_all check_record
    check_account check_slow strip_system_address is_system hex_text
audit_of_errors = refl
