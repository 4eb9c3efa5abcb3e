-- ===== src/Types/Resources.antt =====
-- types/src/move_resource and types/src/core_types/legacy_currency_info.rs: the Move resources of
-- an account, as the migration reads them.
use libra_v.Prelude.{ℕ, List, Bytes, Bool}
use libra_v.Platform.{Platform}

pub record LegacyBalanceResourceV6 : Type 0 where
  pub coin : ℕ

pub record CumulativeDepositResource (p : Platform) : Type 0 where
  pub value : ℕ
  pub index : ℕ
  pub depositors : List p.AccountAddress

pub record CommunityWalletsResource (p : Platform) : Type 0 where
  pub list : List p.AccountAddress

pub record SlowWalletResource : Type 0 where
  pub unlocked : ℕ
  pub transferred : ℕ

pub record SlowWalletListResource (p : Platform) : Type 0 where
  pub list : List p.AccountAddress
  pub drip_events : p.EventHandle

pub record CurrencyInfoResource (p : Platform) : Type 0 where
  pub total_value : ℕ
  pub preburn_value : ℕ
  pub to_xdx_exchange_rate : ℕ
  pub is_synthetic : Bool
  pub scaling_factor : ℕ
  pub fractional_part : ℕ
  pub currency_code : p.Identifier
  pub can_mint : Bool

pub record AncestryResource (p : Platform) : Type 0 where
  pub tree : List p.AccountAddress

pub record ReceiptsResource (p : Platform) : Type 0 where
  pub destination : List p.AccountAddress
  pub cumulative : List ℕ
  pub last_payment_timestamp : List ℕ
  pub last_payment_value : List ℕ

pub record UserBurnPreferenceResource : Type 0 where
  pub send_community : Bool

pub record BurnCounterResource : Type 0 where
  pub lifetime_burned : ℕ
  pub lifetime_recycled : ℕ

pub record BurnTrackerResource : Type 0 where
  pub prev_supply : ℕ
  pub prev_balance : ℕ
  pub burn_at_last_calc : ℕ
  pub cumu_burn : ℕ

pub record MyVouchesResource (p : Platform) : Type 0 where
  pub my_buddies : List p.AccountAddress
  pub epoch_vouched : List ℕ

pub record IdResource (p : Platform) : Type 0 where
  pub creation_num : ℕ
  pub addr : p.AccountAddress

pub record PaymentResource (p : Platform) : Type 0 where
  pub payee : p.AccountAddress
  pub value : ℕ
  pub description : Bytes

pub record TimedTransferResource (p : Platform) : Type 0 where
  pub uid : IdResource p
  pub deadline : ℕ
  pub tx : PaymentResource p
  pub epoch_latest_veto_received : ℕ

pub record GuidCapabilityResource (p : Platform) : Type 0 where
  pub addr : p.AccountAddress

pub record TxScheduleResource (p : Platform) : Type 0 where
  pub scheduled : List (TimedTransferResource p)
  pub veto : List (TimedTransferResource p)
  pub paid : List (TimedTransferResource p)
  pub guid_capability : GuidCapabilityResource p

pub record FeeMakerResource : Type 0 where
  pub epoch : ℕ
  pub lifetime : ℕ

pub record EpochFeeMakerRegistryResource (p : Platform) : Type 0 where
  pub fee_makers : List p.AccountAddress
  pub epoch_fees_made : ℕ

pub record JailResource : Type 0 where
  pub is_jailed : Bool
  pub lifetime_jailed : ℕ
  pub lifetime_vouchees_jailed : ℕ
  pub consecutive_failure_to_rejoin : ℕ

pub record PledgeAccountResource (p : Platform) : Type 0 where
  pub address_of_beneficiary : p.AccountAddress
  pub amount : ℕ
  pub pledge : ℕ
  pub epoch_of_last_deposit : ℕ
  pub lifetime_pledged : ℕ
  pub lifetime_withdrawn : ℕ

pub record MyPledgesResource (p : Platform) : Type 0 where
  pub list : List (PledgeAccountResource p)

pub record RegistryResource (p : Platform) : Type 0 where
  pub list : List p.AccountAddress
  pub liquidation_queue : List p.AccountAddress

pub record MatchIndexResource (p : Platform) : Type 0 where
  pub addr : List p.AccountAddress
  pub index : List ℕ
  pub ratio : List p.F64

pub record ValidatorUniverseResource (p : Platform) : Type 0 where
  pub validators : List p.AccountAddress

pub record ConsensusRewardResource : Type 0 where
  pub nominal_reward : ℕ
  pub net_reward : ℕ
  pub entry_fee : ℕ
  pub clearing_bid : ℕ
  pub median_win_bid : ℕ
  pub median_history : List ℕ
