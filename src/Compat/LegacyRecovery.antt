-- ===== src/Compat/LegacyRecovery.antt =====
-- compatibility/src/legacy_recovery_v6.rs: the record of one account that the migration carries
-- from one chain to the next, and its extraction from the state of an account.

use libra_v.Prelude.{
  ℕ, Option, none, some, List, [], Bool, Text, Result, ok, err, ◌>>=◌, context, if◌then◌else◌,
  contains, replicate, ◌∷◌, length, ◌==◌, Bytes,
}
pub mod Strip
pub mod Roles
use mathlib.Core.Option
use libra_v.Platform.{Platform}
use libra_v.Types.Resources.{
  LegacyBalanceResourceV6, CumulativeDepositResource, CommunityWalletsResource, SlowWalletResource,
  SlowWalletListResource, CurrencyInfoResource, AncestryResource, ReceiptsResource,
  UserBurnPreferenceResource, BurnCounterResource, BurnTrackerResource, MyVouchesResource,
  TxScheduleResource, FeeMakerResource, EpochFeeMakerRegistryResource, JailResource,
  MyPledgesResource, RegistryResource, MatchIndexResource, ValidatorUniverseResource,
  ConsensusRewardResource,
}

pub data AccountRole : Type 0 where
  system validator operator end_user drop : AccountRole

pub record LegacyRecoveryV6 (p : Platform) : Type 0 where
  pub account : Option p.AccountAddress
  pub auth_key : Option p.AuthenticationKey
  pub role : AccountRole
  pub balance : Option LegacyBalanceResourceV6
  pub val_cfg : Option p.ValidatorConfig
  pub val_operator_cfg : Option p.ValidatorOperatorConfigResource
  pub comm_wallet : Option (CommunityWalletsResource p)
  pub currency_info : Option (CurrencyInfoResource p)
  pub ancestry : Option (AncestryResource p)
  pub receipts : Option (ReceiptsResource p)
  pub cumulative_deposits : Option (CumulativeDepositResource p)
  pub slow_wallet : Option SlowWalletResource
  pub slow_wallet_list : Option (SlowWalletListResource p)
  pub user_burn_preference : Option UserBurnPreferenceResource
  pub burn_tracker : Option BurnTrackerResource
  pub my_vouches : Option (MyVouchesResource p)
  pub tx_schedule : Option (TxScheduleResource p)
  pub fee_maker : Option FeeMakerResource
  pub jail : Option JailResource
  pub my_pledge : Option (MyPledgesResource p)
  pub burn_counter : Option BurnCounterResource
  pub donor_voice_registry : Option (RegistryResource p)
  pub epoch_fee_maker_registry : Option (EpochFeeMakerRegistryResource p)
  pub match_index : Option (MatchIndexResource p)
  pub validator_universe : Option (ValidatorUniverseResource p)
  pub consensus_reward : Option ConsensusRewardResource

-- `LegacyRecoveryV6::default()`, whose role is `AccountRole::default()`.
abbrev pub default_recovery : (p : Platform) → LegacyRecoveryV6 p
default_recovery p = record {
  account = none;
  auth_key = none;
  role = end_user;
  balance = none;
  val_cfg = none;
  val_operator_cfg = none;
  comm_wallet = none;
  currency_info = none;
  ancestry = none;
  receipts = none;
  cumulative_deposits = none;
  slow_wallet = none;
  slow_wallet_list = none;
  user_burn_preference = none;
  burn_tracker = none;
  my_vouches = none;
  tx_schedule = none;
  fee_maker = none;
  jail = none;
  my_pledge = none;
  burn_counter = none;
  donor_voice_registry = none;
  epoch_fee_maker_registry = none;
  match_index = none;
  validator_universe = none;
  consensus_reward = none;
}

-- What stops `get_legacy_recovery` and `strip_system_address`: an error of the state's reader, an
-- authentication key that is not 32 bytes long, and an `unwrap` of a missing account.
pub data RecoveryError : Type 0 where
  state_error bad_auth_key unwrap_none : RecoveryError

-- diem_types::account_state::AccountState, by what its getters return.
pub record AccountState (p : Platform) : Type 0 where
  pub get_account_address : Result RecoveryError (Option p.AccountAddress)
  -- the bytes of the authentication key of the account resource
  pub get_account_resource : Result RecoveryError (Option Bytes)
  pub get_coin_store_resource : Result RecoveryError (Option ℕ)
  pub get_validator_config_resource : Result RecoveryError (Option p.ValidatorConfig)
  pub get_validator_operator_config_resource :
      Result RecoveryError (Option p.ValidatorOperatorConfigResource)
  pub get_community_wallets : Result RecoveryError (Option (CommunityWalletsResource p))
  pub get_ancestry : Result RecoveryError (Option (AncestryResource p))
  pub get_receipts : Result RecoveryError (Option (ReceiptsResource p))
  pub get_cumulative_deposit : Result RecoveryError (Option (CumulativeDepositResource p))
  pub get_slow_wallet : Result RecoveryError (Option SlowWalletResource)
  pub get_slow_wallet_list : Result RecoveryError (Option (SlowWalletListResource p))
  pub get_user_burn_preference : Result RecoveryError (Option UserBurnPreferenceResource)
  pub get_burn_tracker : Result RecoveryError (Option BurnTrackerResource)
  pub get_my_vouches : Result RecoveryError (Option (MyVouchesResource p))
  pub get_tx_schedule : Result RecoveryError (Option (TxScheduleResource p))
  pub get_fee_maker : Result RecoveryError (Option FeeMakerResource)
  pub get_jail : Result RecoveryError (Option JailResource)
  pub get_my_pledges : Result RecoveryError (Option (MyPledgesResource p))
  pub get_burn_counter : Result RecoveryError (Option BurnCounterResource)
  pub get_registry : Result RecoveryError (Option (RegistryResource p))
  pub get_epoch_fee_maker_registry : Result RecoveryError (Option (EpochFeeMakerRegistryResource p))
  pub get_match_index : Result RecoveryError (Option (MatchIndexResource p))
  pub get_validator_universe : Result RecoveryError (Option (ValidatorUniverseResource p))
  pub get_consensus_reward : Result RecoveryError (Option ConsensusRewardResource)

-- `try_into` a `[u8; 32]`.
unfoldable pub to_byte_slice : Bytes → Result RecoveryError Bytes
to_byte_slice bytes = if length bytes == 32 then ok bytes else err bad_auth_key

-- The 63 digits that the address of a system account holds.
abbrev pub system_digits : Text
system_digits = replicate 63 b'0'

module _ (p : Platform) where
  -- The role after each of the three tests that may write it; a later test overrides.
  unfoldable pub role_of :
      Option p.AccountAddress
      → Option p.ValidatorConfig
      → Option p.ValidatorOperatorConfigResource
      → AccountRole
  role_of account val_cfg (some operator_cfg) = operator
  role_of account (some cfg) none = validator
  role_of (some a) none none = if p.account_eq.beq a p.account_one then system else end_user
  role_of none none none = end_user

  -- The body of `if let Some(account_resource)`; without the resource only the account is kept.
  unfoldable pub read_resources :
      AccountState p
      → Option p.AccountAddress
      → Option Bytes
      → Result RecoveryError (LegacyRecoveryV6 p)
  unfolding role_of to_byte_slice
  read_resources s account none = ok (record (default_recovery p) { account = account })
  read_resources s account (some key) = do
    byte_slice ← to_byte_slice key
    account' ← s.get_account_address
    coin ← s.get_coin_store_resource
    val_cfg ← s.get_validator_config_resource
    val_operator_cfg ← s.get_validator_operator_config_resource
    comm_wallet ← s.get_community_wallets
    ancestry ← s.get_ancestry
    receipts ← s.get_receipts
    cumulative_deposits ← s.get_cumulative_deposit
    slow_wallet ← s.get_slow_wallet
    slow_wallet_list ← s.get_slow_wallet_list
    user_burn_preference ← s.get_user_burn_preference
    burn_tracker ← s.get_burn_tracker
    my_vouches ← s.get_my_vouches
    tx_schedule ← s.get_tx_schedule
    fee_maker ← s.get_fee_maker
    jail ← s.get_jail
    my_pledge ← s.get_my_pledges
    burn_counter ← s.get_burn_counter
    donor_voice_registry ← s.get_registry
    epoch_fee_maker_registry ← s.get_epoch_fee_maker_registry
    match_index ← s.get_match_index
    validator_universe ← s.get_validator_universe
    consensus_reward ← s.get_consensus_reward
    ok (record {
      account = account;
      auth_key = some (p.authentication_key_new byte_slice);
      role = role_of account' val_cfg val_operator_cfg;
      balance = Option.map (λ c. record { coin = c }) coin;
      val_cfg = val_cfg;
      val_operator_cfg = val_operator_cfg;
      comm_wallet = comm_wallet;
      currency_info = none;
      ancestry = ancestry;
      receipts = receipts;
      cumulative_deposits = cumulative_deposits;
      slow_wallet = slow_wallet;
      slow_wallet_list = slow_wallet_list;
      user_burn_preference = user_burn_preference;
      burn_tracker = burn_tracker;
      my_vouches = my_vouches;
      tx_schedule = tx_schedule;
      fee_maker = fee_maker;
      jail = jail;
      my_pledge = my_pledge;
      burn_counter = burn_counter;
      donor_voice_registry = donor_voice_registry;
      epoch_fee_maker_registry = epoch_fee_maker_registry;
      match_index = match_index;
      validator_universe = validator_universe;
      consensus_reward = consensus_reward;
    })

  unfoldable pub get_legacy_recovery : AccountState p → Result RecoveryError (LegacyRecoveryV6 p)
  unfolding read_resources
  get_legacy_recovery s = do
    account ← s.get_account_address
    resource ← s.get_account_resource
    read_resources s account resource

  unfoldable pub is_system : p.AccountAddress → Bool
  is_system a = contains (p.account_to_string a) system_digits

  -- `retain` calls `unwrap` on the account of every record.
  unfoldable pub strip_system_address :
      List (LegacyRecoveryV6 p) → Result RecoveryError (List (LegacyRecoveryV6 p))
  strip_system_address [] = ok []
  strip_system_address (e ∷ list) = do
    account ← context e.account unwrap_none
    rest ← strip_system_address list
    ok (if is_system account then rest else e ∷ rest)
