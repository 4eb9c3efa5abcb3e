-- ===== src/Genesis/Encode.antt =====
-- tools/genesis/src/vm.rs and genesis.rs: the change set of a genesis. The stages that the vendored
-- crate diem_vm_genesis runs are arguments; the progress bars and the log are left out.
pub mod Stages
use libra_v.Prelude.{
  ℕ, ◌+◌, ◌*◌, Bool, true, false, Option, none, some, List, [], ◌∷◌, ◌++◌, Bytes, replicate, find,
  Result, ok, err, ◌>>=◌, if◌then◌else◌, not,
}
use libra_v.Prelude.Eq.{Eq}
use libra_v.Platform.{Platform}
use libra_v.Types.Resources.{ConsensusRewardResource}
use libra_v.Compat.LegacyRecovery.{LegacyRecoveryV6}
use libra_v.Genesis.Session.{Stop, Vm}
use libra_v.Genesis.Users.{
  genesis_migrate_all_users, genesis_migrate_cumu_deposits, set_final_supply,
  set_validator_baseline_reward,
}

pub record GenesisConfiguration : Type 0 where
  pub allow_new_validators : Bool
  pub epoch_duration_secs : ℕ
  pub is_test : Bool
  pub max_stake : ℕ
  pub min_stake : ℕ
  pub min_voting_threshold : ℕ
  pub recurring_lockup_duration_secs : ℕ
  pub required_proposer_stake : ℕ
  pub rewards_apy_percentage : ℕ
  pub voting_duration_secs : ℕ
  pub voting_power_increase_limit : ℕ
  pub employee_vesting_start : ℕ
  pub employee_vesting_period_duration : ℕ

-- The functions of diem_vm_genesis and of the session that the encoding calls.
pub record Vendor (p : Platform) (vm : Vm p) : Type 1 where
  pub Validator : Type 0
  pub ReleaseBundle : Type 0
  pub ChangeSet : Type 0
  pub validate_genesis_config : GenesisConfiguration → Result Stop (Unit {0})
  -- A session over the modules of the bundle, if there is one, under the identifier's 32 bytes.
  pub new_session : Option ReleaseBundle → Bytes → vm.SessionExt
  pub initialize : vm.SessionExt → p.NamedChain → GenesisConfiguration → Result Stop vm.SessionExt
  pub initialize_features : vm.SessionExt → Result Stop vm.SessionExt
  pub initialize_diem_coin : vm.SessionExt → Result Stop vm.SessionExt
  pub initialize_on_chain_governance :
      vm.SessionExt → GenesisConfiguration → Result Stop vm.SessionExt
  pub create_and_initialize_validators : vm.SessionExt → List Validator → Result Stop vm.SessionExt
  pub set_genesis_end : vm.SessionExt → Result Stop vm.SessionExt
  pub emit_new_block_and_epoch_event : vm.SessionExt → Result Stop vm.SessionExt
  pub publish_framework : vm.SessionExt → ReleaseBundle → Result Stop vm.SessionExt
  pub finish : vm.SessionExt → Result Stop ChangeSet
  pub squash : ChangeSet → ChangeSet → Result Stop ChangeSet
  pub delta_is_empty : ChangeSet → Bool
  pub has_deletion : ChangeSet → Bool
  pub verify_genesis_write_set : ChangeSet → Result Stop (Unit {0})

module _ (p : Platform) where
  -- One day for the main net, two minutes for the tests, a quarter of an hour for the others.
  unfoldable pub epoch_duration : p.NamedChain → ℕ
  epoch_duration chain =
      if p.chain_eq.beq chain p.mainnet
      then 24 * 60 * 60
      else if p.chain_eq.beq chain p.testing
      then 2 * 60
      else 15 * 60

  unfoldable pub libra_genesis_default : p.NamedChain → GenesisConfiguration
  unfolding epoch_duration
  libra_genesis_default chain =
      let epoch_duration_secs = epoch_duration chain in
      record {
        allow_new_validators = true;
        epoch_duration_secs = epoch_duration_secs;
        is_test = false;
        max_stake = 0;
        min_stake = 0;
        min_voting_threshold = 0;
        recurring_lockup_duration_secs = epoch_duration_secs + 1;
        required_proposer_stake = 0;
        rewards_apy_percentage = 1;
        voting_duration_secs = 1;
        voting_power_increase_limit = 1;
        employee_vesting_start = 1;
        employee_vesting_period_duration = 1;
      }

  module _ (vm : Vm p) (v : Vendor p vm) where
    -- `e.account == Some(CORE_CODE_ADDRESS)`, the address 0x1.
    abbrev pub is_core : Option p.AccountAddress → Bool
    is_core none = false
    is_core (some a) = p.account_eq.beq a p.account_one

    unfoldable pub framework_state : List (LegacyRecoveryV6 p) → Option (LegacyRecoveryV6 p)
    framework_state recovery = find (λ e. is_core e.account) recovery

    abbrev pub reward_of :
        Option (ConsensusRewardResource) → vm.SessionExt → Result Stop vm.SessionExt
    reward_of none session = ok session
    reward_of (some cr) session = set_validator_baseline_reward p vm session cr.nominal_reward

    abbrev pub baseline_reward :
        Option (LegacyRecoveryV6 p) → vm.SessionExt → Result Stop vm.SessionExt
    baseline_reward none session = ok session
    baseline_reward (some f) session = reward_of f.consensus_reward session

    -- The migration, which is left out for an empty recovery file.
    unfoldable pub migrate : List (LegacyRecoveryV6 p) → vm.SessionExt → Result Stop vm.SessionExt
    migrate [] session = ok session
    migrate (r ∷ rest) session = do
      s1 ← baseline_reward (framework_state (r ∷ rest)) session
      s2 ← genesis_migrate_all_users p vm s1 (r ∷ rest)
      genesis_migrate_cumu_deposits p vm s2 (r ∷ rest)

    abbrev pub assert_that : Bool → Result Stop (Unit {0})
    assert_that true = ok tt
    assert_that false = err Stop.assert_failed

    -- The session of the on-chain genesis, up to its end.
    unfoldable pub first_session :
        List v.Validator
        → List (LegacyRecoveryV6 p)
        → v.ReleaseBundle
        → p.NamedChain
        → GenesisConfiguration
        → Result Stop vm.SessionExt
    first_session validators recovery framework chain_id config = do
      s1 ← v.initialize (v.new_session (some framework) (replicate 32 0)) chain_id config
      s2 ← v.initialize_features s1
      s3 ← v.initialize_diem_coin s2
      s4 ← set_final_supply p vm s3
      s5 ← v.initialize_on_chain_governance s4 config
      s6 ← migrate recovery s5
      s7 ← v.create_and_initialize_validators s6 validators
      s8 ← v.set_genesis_end s7
      v.emit_new_block_and_epoch_event s8

    unfoldable pub encode_genesis_change_set :
        List v.Validator
        → List (LegacyRecoveryV6 p)
        → v.ReleaseBundle
        → p.NamedChain
        → GenesisConfiguration
        → Result Stop v.ChangeSet
    encode_genesis_change_set validators recovery framework chain_id config = do
      valid ← v.validate_genesis_config config
      s ← first_session validators recovery framework chain_id config
      cs1 ← v.finish s
      t ← v.publish_framework (v.new_session none (replicate 31 0 ++ (1 ∷ []))) framework
      cs2 ← v.finish t
      change_set ← v.squash cs1 cs2
      no_delta ← assert_that (v.delta_is_empty change_set)
      no_deletion ← assert_that (not (v.has_deletion change_set))
      verified ← v.verify_genesis_write_set change_set
      ok change_set
