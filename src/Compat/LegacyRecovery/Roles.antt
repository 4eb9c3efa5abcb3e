-- ===== src/Compat/LegacyRecovery/Roles.antt =====
-- The role that `get_legacy_recovery` of compatibility/src/legacy_recovery_v6.rs gives an account.
use libra_v.Prelude.{
  Option, none, some, ◌≡◌, ◌↔◌, true, false, ok, is_some, arith, Bytes, refl, Ensures, Ensures-ok,
  Ensures-bind,
}
use libra_v.Platform.{Platform}
use libra_v.Compat.LegacyRecovery.{
  default_recovery, LegacyRecoveryV6, AccountState, validator, operator, drop, role_of,
  read_resources, get_legacy_recovery, to_byte_slice, RecoveryError,
}

module _ (p : Platform) where
  -- The roles of a record exclude one another in this order: an operator has an operator's
  -- configuration, a validator has only a validator's.
  pub record HasRole (r : LegacyRecoveryV6 p) : Type 0 where
    pub of_operator : (r.role ≡ operator) ↔ (is_some r.val_operator_cfg ≡ true)
    pub of_validator :
        (r.role ≡ validator) ↔ (is_some r.val_cfg ≡ true) × (is_some r.val_operator_cfg ≡ false)
    pub not_dropped : r.role ≡ drop → ⊥

  default_HasRole :
      (a : Option p.AccountAddress) → HasRole (record (default_recovery p) { account = a })
  default_HasRole a = record {
    of_operator = ground arith;
    of_validator = ground arith;
    not_dropped = λ h. cc;
  }

  role_HasRole :
      (account : Option p.AccountAddress) (r : LegacyRecoveryV6 p)
      → r.role ≡ role_of p account r.val_cfg r.val_operator_cfg
      → HasRole r
  unfolding role_of
  role_HasRole account r h = record {
    of_operator = ground arith;
    of_validator = ground arith;
    not_dropped = ground arith;
  }

  role_Ensures :
      (account : Option p.AccountAddress) (r : LegacyRecoveryV6 p)
      → r.role ≡ role_of p account r.val_cfg r.val_operator_cfg
      → Ensures {E = RecoveryError} HasRole (ok r)
  role_Ensures account r h = Ensures-ok r (role_HasRole account r h)

  read_HasRole :
      (s : AccountState p) (account : Option p.AccountAddress) (resource : Option Bytes)
      → Ensures HasRole (read_resources p s account resource)
  unfolding read_resources
  read_HasRole s account none = Ensures-ok _ (default_HasRole account)
  read_HasRole s account (some key) = Ensures-bind (to_byte_slice key) _ λ byte_slice.
      Ensures-bind s.get_account_address _ λ account'.
        Ensures-bind s.get_coin_store_resource _ λ coin.
          Ensures-bind s.get_validator_config_resource _ λ val_cfg.
            Ensures-bind s.get_validator_operator_config_resource _ λ val_operator_cfg.
              Ensures-bind s.get_community_wallets _ λ a1. Ensures-bind s.get_ancestry _ λ a2.
                Ensures-bind s.get_receipts _ λ a3. Ensures-bind s.get_cumulative_deposit _ λ a4.
                  Ensures-bind s.get_slow_wallet _ λ a5. Ensures-bind s.get_slow_wallet_list _ λ a6.
                    Ensures-bind s.get_user_burn_preference _ λ a7.
                      Ensures-bind s.get_burn_tracker _ λ a8. Ensures-bind s.get_my_vouches _ λ a9.
                        Ensures-bind s.get_tx_schedule _ λ b1. Ensures-bind s.get_fee_maker _ λ b2.
                          Ensures-bind s.get_jail _ λ b3. Ensures-bind s.get_my_pledges _ λ b4.
                            Ensures-bind s.get_burn_counter _ λ b5.
                              Ensures-bind s.get_registry _ λ b6.
                                Ensures-bind s.get_epoch_fee_maker_registry _ λ b7.
                                  Ensures-bind s.get_match_index _ λ b8.
                                    Ensures-bind s.get_validator_universe _ λ b9.
                                      Ensures-bind s.get_consensus_reward _
                                        λ c1. role_Ensures account' _ refl

  -- If the recovery of an account returns, its role follows from its configurations: it is an
  -- operator exactly with an operator's configuration, a validator exactly with a validator's
  -- alone, and it is never dropped.
  pub get_legacy_recovery-HasRole :
      (s : AccountState p) (r : LegacyRecoveryV6 p) → get_legacy_recovery p s ≡ ok r → HasRole r
  unfolding get_legacy_recovery
  get_legacy_recovery-HasRole s =
      (Ensures-bind s.get_account_address _ λ account.
        Ensures-bind s.get_account_resource _ λ resource. read_HasRole s account resource).holds
