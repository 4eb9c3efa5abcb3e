-- ===== src/Genesis/Build.antt =====
-- `build` and `fetch_genesis_info` of tools/genesis/src/genesis_builder.rs: the genesis is encoded,
-- saved and audited. Files, the client and the database are arguments; messages are left out.
pub mod Audit
use libra_v.Prelude.{
  ℕ, Bool, true, false, Option, none, some, List, [], ◌∷◌, Text, codes, Result, ok, err, ◌>>=◌,
  if◌then◌else◌,
}
use libra_v.Platform.{Platform}
use libra_v.Compat.LegacyRecovery.{LegacyRecoveryV6, RecoveryError}
use libra_v.Genesis.Session.{Stop, Vm}
use libra_v.Genesis.Supply.{Supply, populate_supply_stats_from_legacy}
use libra_v.Genesis.Compare.{Chain, compare_recovery_vec_to_genesis_tx}
use libra_v.Genesis.Compare.Checks.{JsonDump, export_account_balances}
use libra_v.Genesis.Registration.{ConfigError}
use libra_v.Genesis.Registration.Config.{
  KeyTypes, ValidatorConfiguration, Client, get_validator_configs,
}
use libra_v.Genesis.Encode.{
  GenesisConfiguration, Vendor, libra_genesis_default, encode_genesis_change_set,
}

pub data BuildError : Type 0 where
  -- A panic while the change set is encoded, and one during the audit.
  stopped : Stop → BuildError
  audit_stopped : RecoveryError → BuildError
  bad_configs : List (Text × ConfigError) → BuildError
  bad_layout bad_framework bad_info not_created not_confirmed not_saved no_waypoint no_database :
      BuildError

abbrev pub or_error {ℓ} :
    {E : Type 0} {A : Type ℓ} → (E → BuildError) → Result E A → Result BuildError A
or_error f (ok a) = ok a
or_error f (err e) = err (f e)

-- `GenesisConfiguration` of diem_genesis. The three settings that `default` gives are `defaults`.
pub record BuilderConfiguration (D : Type 0) : Type 0 where
  pub allow_new_validators : Bool
  pub epoch_duration_secs : ℕ
  pub is_test : Bool
  pub min_stake : ℕ
  pub min_voting_threshold : ℕ
  pub max_stake : ℕ
  pub recurring_lockup_duration_secs : ℕ
  pub required_proposer_stake : ℕ
  pub rewards_apy_percentage : ℕ
  pub voting_duration_secs : ℕ
  pub voting_power_increase_limit : ℕ
  pub employee_vesting_start : Option ℕ
  pub employee_vesting_period_duration : Option ℕ
  pub defaults : D

unfoldable pub silly_config : {D : Type 0} → D → GenesisConfiguration → BuilderConfiguration D
silly_config defaults cfg = record {
  allow_new_validators = cfg.allow_new_validators;
  epoch_duration_secs = cfg.epoch_duration_secs;
  is_test = cfg.is_test;
  min_stake = cfg.min_stake;
  min_voting_threshold = cfg.min_voting_threshold;
  max_stake = cfg.max_stake;
  recurring_lockup_duration_secs = cfg.recurring_lockup_duration_secs;
  required_proposer_stake = cfg.required_proposer_stake;
  rewards_apy_percentage = cfg.rewards_apy_percentage;
  voting_duration_secs = cfg.voting_duration_secs;
  voting_power_increase_limit = cfg.voting_power_increase_limit;
  employee_vesting_start = none;
  employee_vesting_period_duration = none;
  defaults = defaults;
}

module _ (p : Platform) (vm : Vm p) (v : Vendor p vm) (k : KeyTypes p) where
  -- `GenesisInfo` of diem_genesis, by the fields that are read.
  pub record GenesisInfo : Type 0 where
    pub validators : List v.Validator
    pub framework : v.ReleaseBundle
    pub chain_id : p.NamedChain
    pub genesis : Option v.ChangeSet

  -- What the build takes from outside.
  pub record World : Type 1 where
    pub Settings : Type 0
    pub default_settings : Settings
    pub client : Client p k
    -- layout.yaml and framework.mrb, fetched and decoded.
    pub layout : Result BuildError (List Text)
    pub framework_file : Result BuildError v.ReleaseBundle
    pub local_framework : Result BuildError v.ReleaseBundle
    pub head_release_bundle : v.ReleaseBundle
    pub new_info :
        p.NamedChain
        → List (ValidatorConfiguration p k)
        → v.ReleaseBundle
        → BuilderConfiguration Settings
        → Result BuildError GenesisInfo
    pub create_dir_all : Result BuildError (Unit {0})
    -- The question whether a file may be written over.
    pub check_if_file_exists : Text → Result BuildError (Unit {0})
    pub get_genesis : GenesisInfo → v.ChangeSet
    pub waypoint : GenesisInfo → Result BuildError Text
    pub write_file : Text → Result BuildError (Unit {0})
    pub database : v.ChangeSet → Result BuildError (Chain p)
    pub write_balances : List (JsonDump p) → Result BuildError (Unit {0})

  module _ (w : World) where
    unfoldable pub fetch_genesis_info :
        Bool → GenesisConfiguration → p.NamedChain → Result BuildError GenesisInfo
    unfolding silly_config
    fetch_genesis_info use_local_framework config chain_id = do
      users ← w.layout
      validators ← or_error BuildError.bad_configs (get_validator_configs p k w.client users)
      framework ← if use_local_framework then w.local_framework else w.framework_file
      w.new_info chain_id validators framework (silly_config w.default_settings config)

    unfoldable pub genesis_info :
        Option (List (ValidatorConfiguration p k))
        → Bool
        → GenesisConfiguration
        → p.NamedChain
        → Result BuildError GenesisInfo
    unfolding fetch_genesis_info silly_config
    genesis_info (some vals) use_local_framework config chain =
        w.new_info chain vals w.head_release_bundle (silly_config w.default_settings config)
    genesis_info none use_local_framework config chain =
        fetch_genesis_info use_local_framework config chain

    -- Files that are there are asked for unless the validators are given.
    unfoldable pub confirm :
        Option (List (ValidatorConfiguration p k)) → Result BuildError (Unit {0})
    confirm (some vals) = ok tt
    confirm none = do
      genesis_ok ← w.check_if_file_exists (codes "genesis.blob")
      w.check_if_file_exists (codes "waypoint.txt")

    -- The audit of a genesis that has a recovery file. Of what it finds only a stop is looked at.
    unfoldable pub audit : List (LegacyRecoveryV6 p) → v.ChangeSet → Result BuildError (Unit {0})
    audit [] genesis = ok tt
    audit (r ∷ rest) genesis = do
      chain ← w.database genesis
      errors ←
          or_error BuildError.audit_stopped (compare_recovery_vec_to_genesis_tx p (r ∷ rest) chain)
      balances ← or_error BuildError.audit_stopped (export_account_balances p (r ∷ rest) chain)
      w.write_balances balances

    unfoldable pub build :
        Bool
        → List (LegacyRecoveryV6 p)
        → p.NamedChain
        → Option (List (ValidatorConfiguration p k))
        → Result BuildError (List Text)
    unfolding genesis_info confirm audit
    build use_local_framework recovery chain_name testnet_vals = do
      created ← w.create_dir_all
      confirmed ← confirm testnet_vals
      let config = libra_genesis_default p chain_name in
          do
            info ← genesis_info testnet_vals use_local_framework config chain_name
            tx ← or_error BuildError.stopped (
                encode_genesis_change_set p vm v info.validators recovery info.framework
                  info.chain_id config)
            let gen_info : GenesisInfo = record info { genesis = some tx } in
                do
                  saved ← w.write_file (codes "genesis.blob")
                  waypoint ← w.waypoint gen_info
                  noted ← w.write_file (codes "waypoint.txt")
                  audited ← audit recovery (w.get_genesis gen_info)
                  ok (codes "genesis.blob" ∷ (codes "waypoint.txt" ∷ []))
