-- ===== src/Genesis/Session.antt =====
-- A session of the Move virtual machine, as the functions of the genesis use it: `exec_function` of
-- diem_vm_genesis runs a function of the framework, and stops the process when it aborts.
use libra_v.Prelude.{ℕ, List, [], ◌∷◌, Bytes, Text, Result, ok, ◌>>=◌}
use libra_v.Platform.{Platform}

-- A Move function that aborts, an `unwrap` of a missing account, an `unwrap` or `expect` of an
-- address that cannot be parsed, an error of the rebuilt community wallets, and a
-- failed assertion.
pub data Stop : Type 0 where
  move_abort unwrap_none bad_address bad_wallets assert_failed : Stop

pub data MoveValue (p : Platform) : Type 0 where
  signer address : p.AccountAddress → MoveValue p
  u64_value : ℕ → MoveValue p
  vector_u8 : Bytes → MoveValue p
  vector_address : List p.AccountAddress → MoveValue p
  vector_u64 : List ℕ → MoveValue p

-- The module and the function that are called, and the values that are serialised.
pub record Call (p : Platform) : Type 0 where
  pub in_module : Text
  pub function : Text
  pub values : List (MoveValue p)

pub record Vm (p : Platform) : Type 1 where
  pub SessionExt : Type 0
  pub exec_function : SessionExt → Call p → Result Stop SessionExt

module _ {p : Platform} (vm : Vm p) where
  -- The calls one after the other, up to the first that aborts.
  unfoldable pub run : vm.SessionExt → List (Call p) → Result Stop vm.SessionExt
  run session [] = ok session
  run session (c ∷ calls) = vm.exec_function session c >>= λ s. run s calls
