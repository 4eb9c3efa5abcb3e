-- ===== src/Genesis/ParseJson.antt =====
-- tools/genesis/src/parse_json.rs: the repairs of the recovery file. Reading and writing of the
-- files is left out: the records and the drop list are arguments.
pub mod Repair
pub mod Drop
use libra_v.Prelude.{
  Option, none, some, List, [], ◌∷◌, Bool, Bytes, map, any, replicate, ltb, if◌then◌else◌,
}
use libra_v.Platform.{Platform}
use libra_v.Types.Resources.{LegacyBalanceResourceV6, SlowWalletResource}
use libra_v.Compat.LegacyRecovery.{LegacyRecoveryV6, default_recovery, drop}

abbrev pub tombstone : Bytes
tombstone = replicate 32 9

module _ (p : Platform) where
  -- The body of the loop of `fix_slow_wallet` over the three fields that it reads: the record, and
  -- the account if it was pushed to `errs`.
  pub fix_entry :
      LegacyRecoveryV6 p
      → Option p.AccountAddress
      → Option LegacyBalanceResourceV6
      → Option SlowWalletResource
      → LegacyRecoveryV6 p × Option p.AccountAddress
  fix_entry e (some account) (some balance) (some s) =
      if ltb balance.coin s.unlocked
      then (record e { slow_wallet = some (record s { unlocked = balance.coin }) }, some account)
      else (e, none)
  fix_entry e (some account) (some balance) none = (e, none)
  fix_entry e (some account) none s = (e, none)
  fix_entry e none b s = (e, none)

  abbrev pub push : Option p.AccountAddress → List p.AccountAddress → List p.AccountAddress
  push none errs = errs
  push (some a) errs = a ∷ errs

  pub fix_slow_wallet :
      List (LegacyRecoveryV6 p) → List (LegacyRecoveryV6 p) × List p.AccountAddress
  unfolding fix_entry
  fix_slow_wallet [] = ([], [])
  fix_slow_wallet (e ∷ r) =
      let (e', fixed) = fix_entry e e.account e.balance e.slow_wallet in
      let (r', errs) = fix_slow_wallet r in (e' ∷ r', push fixed errs)

  -- What replaces the record of a dropped account.
  abbrev pub dead : p.AccountAddress → LegacyRecoveryV6 p
  dead account = record (default_recovery p) {
    account = some account;
    auth_key = some (p.authentication_key_new tombstone);
    role = drop;
  }

  abbrev pub listed : List p.AccountAddress → p.AccountAddress → Bool
  listed mapped account = any (λ a. p.account_eq.beq a account) mapped

  pub drop_entry :
      List p.AccountAddress → LegacyRecoveryV6 p → Option p.AccountAddress → LegacyRecoveryV6 p
  drop_entry mapped e none = e
  drop_entry mapped e (some account) = if listed mapped account then dead account else e

  pub drop_accounts : List p.AccountAddress → List (LegacyRecoveryV6 p) → List (LegacyRecoveryV6 p)
  unfolding drop_entry
  drop_accounts mapped r = map (λ e. drop_entry mapped e e.account) r
