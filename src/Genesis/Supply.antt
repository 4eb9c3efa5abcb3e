-- ===== src/Genesis/Supply.antt =====
-- tools/genesis/src/supply.rs: the sums of the balances by kind of account. The progress bar is left
-- out. The fields that are computed later are written nowhere in the file and stay 0.
pub mod Tally
pub mod Exact
use libra_v.Prelude.{Option, none, some, List, [], ◌∷◌, ltb, if◌then◌else◌}
use libra_v.Platform.{Platform}
use libra_v.Types.Resources.{LegacyBalanceResourceV6, SlowWalletResource, CumulativeDepositResource}
use libra_v.Compat.LegacyRecovery.{LegacyRecoveryV6}

pub record Supply (p : Platform) : Type 0 where
  pub total : p.F64
  pub normal : p.F64
  pub validator : p.F64
  pub slow_total : p.F64
  pub slow_locked : p.F64
  pub slow_validator_locked : p.F64
  pub slow_unlocked : p.F64
  pub donor_voice : p.F64
  pub make_whole : p.F64
  pub split_factor : p.F64
  pub escrow_pct : p.F64
  pub epoch_reward_base_case : p.F64
  pub expected_user_balance : p.F64
  pub expected_user_ratio : p.F64
  pub expected_circulating : p.F64
  pub expected_circulating_ratio : p.F64

module _ (p : Platform) where
  -- The literal with every field 0.0.
  abbrev pub zero_supply : Supply p
  zero_supply =
      let zero = p.of_u64 0 in
      record {
        total = zero;
        normal = zero;
        validator = zero;
        slow_total = zero;
        slow_locked = zero;
        slow_validator_locked = zero;
        slow_unlocked = zero;
        donor_voice = zero;
        make_whole = zero;
        split_factor = zero;
        escrow_pct = zero;
        epoch_reward_base_case = zero;
        expected_user_balance = zero;
        expected_user_ratio = zero;
        expected_circulating = zero;
        expected_circulating_ratio = zero;
      }

  abbrev pub user_total : Option LegacyBalanceResourceV6 → p.F64
  user_total (some b) = p.of_u64 b.coin
  user_total none = p.of_u64 0

  -- The special case of a validator with a slow locked balance.
  inc_validator : Option p.ValidatorConfig → p.F64 → p.F64 → Supply p → Supply p
  inc_validator none user locked s = s
  inc_validator (some cfg) user locked s = record s {
    validator = p.add s.validator user;
    slow_validator_locked = p.add s.slow_validator_locked locked;
  }

  -- The branch of a slow wallet.
  inc_slow : SlowWalletResource → Option p.ValidatorConfig → p.F64 → Supply p → Supply p
  unfolding inc_validator
  inc_slow sl val_cfg user s =
      let s = record s { slow_total = p.add s.slow_total user } in
      let unlocked = p.of_u64 sl.unlocked in
      let locked = p.sub user unlocked in
      if ltb 0 sl.unlocked
      then if p.gtb user unlocked
        then inc_validator val_cfg user locked (record s {
          slow_unlocked = p.add s.slow_unlocked unlocked;
          slow_locked = p.add s.slow_locked locked;
        })
        else record s { slow_unlocked = p.add s.slow_unlocked user }
      else s

  -- The three kinds of account.
  inc_kind :
      Option SlowWalletResource
      → Option (CumulativeDepositResource p)
      → Option p.ValidatorConfig
      → p.F64
      → Supply p
      → Supply p
  unfolding inc_slow
  inc_kind (some sl) cd val_cfg user s = inc_slow sl val_cfg user s
  inc_kind none (some cd) val_cfg user s = record s {
    slow_locked = p.add s.slow_locked user;
    slow_total = p.add s.slow_total user;
  }
  inc_kind none none val_cfg user s = record s { normal = p.add s.normal user }

  pub inc_supply : Supply p → LegacyRecoveryV6 p → Supply p
  unfolding inc_kind
  inc_supply s r =
      let user = user_total r.balance in
      inc_kind r.slow_wallet r.cumulative_deposits r.val_cfg user
        (record s { total = p.add s.total user })

  inc_all : Supply p → List (LegacyRecoveryV6 p) → Supply p
  unfolding inc_supply
  inc_all s [] = s
  inc_all s (r ∷ rec) = inc_all (inc_supply s r) rec

  pub populate_supply_stats_from_legacy : List (LegacyRecoveryV6 p) → Supply p
  unfolding inc_all
  populate_supply_stats_from_legacy rec = inc_all zero_supply rec
