-- ===== src/Types/TxConfigs/Costs.antt =====
-- The prices of types/src/core_types/app_cfg.rs: `TxCost::new` and `TxConfigs::get_cost`.
use libra_v.Prelude.{ℕ, ◌*◌, ◌/◌, ◌≤◌, ◌^◌, ◌≡◌, max, Option, none, some, arith, refl}
use libra_v.Platform.{Platform}
use libra_v.Types.TxConfigs.{
  TxType, new_cost, price_or_one, get_cost, default_tx_configs, baseline, critical, mgmt, miner,
  cheap,
}

module _ (p : Platform) where
  -- The price of a unit is the multiple of the larger of the network's price and the price asked for,
  -- as long as the product is exact in floating point.
  pub coin_price-new_cost :
      (units multiplier : ℕ) (floor : Option ℕ)
      → max p.gas_unit_price (price_or_one floor) * multiplier ≤ 2 ^ 53
      → (new_cost p units multiplier floor).coin_price_per_unit
        ≡ max p.gas_unit_price (price_or_one floor) * multiplier
  unfolding new_cost
  coin_price-new_cost units multiplier floor h =
      rw (p.mul-of_u64 _ multiplier h) (p.to_u64-of_u64 _ h)

  abbrev pub multiplier_of : Option TxType → ℕ
  multiplier_of none = 2
  multiplier_of (some baseline) = 2
  multiplier_of (some critical) = 5
  multiplier_of (some mgmt) = 4
  multiplier_of (some miner) = 3
  multiplier_of (some cheap) = 1

  abbrev pub share_of : Option TxType → ℕ
  share_of none = 50
  share_of (some baseline) = 50
  share_of (some critical) = 6
  share_of (some mgmt) = 12
  share_of (some miner) = 25
  share_of (some cheap) = 100

  -- If five times the larger of the network's price and 1 is at most 2 ^ 53, then with the default
  -- costs a transaction of each kind pays its multiple of that price for a unit, and may use its
  -- share of the network's limit.
  pub get_cost-default :
      (kind : Option TxType)
      → max p.gas_unit_price 1 * 5 ≤ 2 ^ 53
      → ((get_cost p (default_tx_configs p) kind).coin_price_per_unit
          ≡ max p.gas_unit_price 1 * multiplier_of kind)
        × ((get_cost p (default_tx_configs p) kind).max_gas_unit_for_tx
            ≡ p.max_gas_amount / share_of kind)
  unfolding get_cost default_tx_configs new_cost
  get_cost-default none h = (coin_price-new_cost (p.max_gas_amount / 50) 2 none (omega arith), refl)
  get_cost-default (some baseline) h =
      (coin_price-new_cost (p.max_gas_amount / 50) 2 none (omega arith), refl)
  get_cost-default (some critical) h =
      (coin_price-new_cost (p.max_gas_amount / 6) 5 none (omega arith), refl)
  get_cost-default (some mgmt) h =
      (coin_price-new_cost (p.max_gas_amount / 12) 4 none (omega arith), refl)
  get_cost-default (some miner) h =
      (coin_price-new_cost (p.max_gas_amount / 25) 3 none (omega arith), refl)
  get_cost-default (some cheap) h =
      (coin_price-new_cost (p.max_gas_amount / 100) 1 none (omega arith), refl)
