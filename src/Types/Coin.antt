-- ===== src/Types/Coin.antt =====
-- types/src/move_resource/gas_coin.rs: the balances of an account on chain. The event handles of a
-- coin store are opaque.
use libra_v.Prelude.{ℕ}
use libra_v.Platform.{Platform}

pub record GasCoinStoreResource (p : Platform) : Type 0 where
  pub coin : ℕ
  pub deposit_events : p.EventHandle
  pub withdraw_events : p.EventHandle

pub record SlowWalletBalance : Type 0 where
  pub unlocked : ℕ
  pub total : ℕ
