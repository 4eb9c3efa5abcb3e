-- ===== src/Types/TxConfigs.antt =====
-- types/src/core_types/app_cfg.rs: the costs that a user sets for the kinds of transactions.
pub mod Costs
use libra_v.Prelude.{ℕ, ◌/◌, max, Option, none, some}
use libra_v.Platform.{Platform}

pub data TxType : Type 0 where
  baseline critical mgmt miner cheap : TxType

pub record TxCost : Type 0 where
  pub max_gas_unit_for_tx : ℕ
  pub coin_price_per_unit : ℕ
  pub user_tx_timeout : ℕ

pub record TxConfigs : Type 0 where
  pub baseline_cost : TxCost
  pub critical_txs_cost : Option TxCost
  pub management_txs_cost : Option TxCost
  pub miner_txs_cost : Option TxCost
  pub cheap_txs_cost : Option TxCost

abbrev pub price_or_one : Option ℕ → ℕ
price_or_one none = 1
price_or_one (some price) = price

module _ (p : Platform) where
  -- The multipliers of the program are whole numbers.
  unfoldable pub new_cost : ℕ → ℕ → Option ℕ → TxCost
  new_cost units price_multiplier min_gas_price = record {
    max_gas_unit_for_tx = units;
    coin_price_per_unit = p.to_u64 (
        p.mul (p.of_u64 (max p.gas_unit_price (price_or_one min_gas_price)))
          (p.of_u64 price_multiplier));
    user_tx_timeout = 5_000;
  }

  unfoldable pub default_baseline_cost : TxCost
  unfolding new_cost
  default_baseline_cost = new_cost (p.max_gas_amount / 50) 2 none

  unfoldable pub default_critical_txs_cost : TxCost
  unfolding new_cost
  default_critical_txs_cost = new_cost (p.max_gas_amount / 6) 5 none

  unfoldable pub default_management_txs_cost : TxCost
  unfolding new_cost
  default_management_txs_cost = new_cost (p.max_gas_amount / 12) 4 none

  unfoldable pub default_miner_txs_cost : TxCost
  unfolding new_cost
  default_miner_txs_cost = new_cost (p.max_gas_amount / 25) 3 none

  unfoldable pub default_cheap_txs_cost : TxCost
  unfolding new_cost
  default_cheap_txs_cost = new_cost (p.max_gas_amount / 100) 1 none

  pub prod_baseline_cost : TxCost
  unfolding new_cost
  prod_baseline_cost = new_cost (p.max_gas_amount / 50) 2 (some 100)

  pub framework_upgrade : TxCost
  unfolding new_cost
  framework_upgrade = new_cost 100_000 50 (some 100)

  abbrev cost_of : TxConfigs → Option TxType → Option TxCost
  cost_of self (some critical) = self.critical_txs_cost
  cost_of self (some mgmt) = self.management_txs_cost
  cost_of self (some miner) = self.miner_txs_cost
  cost_of self (some cheap) = self.cheap_txs_cost
  cost_of self (some baseline) = some self.baseline_cost
  cost_of self none = some self.baseline_cost

  -- `unwrap_or_default`: the default is the baseline cost of the program, not that of the user.
  abbrev pub cost_or_default : Option TxCost → TxCost
  cost_or_default none = default_baseline_cost
  cost_or_default (some cost) = cost

  unfoldable pub get_cost : TxConfigs → Option TxType → TxCost
  get_cost self tx_type = cost_or_default (cost_of self tx_type)

  unfoldable pub default_tx_configs : TxConfigs
  unfolding default_baseline_cost default_critical_txs_cost default_management_txs_cost
      default_miner_txs_cost default_cheap_txs_cost
  default_tx_configs = record {
    baseline_cost = default_baseline_cost;
    critical_txs_cost = some default_critical_txs_cost;
    management_txs_cost = some default_management_txs_cost;
    miner_txs_cost = some default_miner_txs_cost;
    cheap_txs_cost = some default_cheap_txs_cost;
  }
