-- ===== src/Genesis/Users/Refine.antt =====
-- `genesis_migrate_all_users` of tools/genesis/src/genesis_functions.rs makes the calls of the plan.
use libra_v.Prelude.{
  Option, none, some, List, [], ◌∷◌, ◌≡◌, refl, Result-cases, inl, inr, is_some, true, All,
}
use libra_v.Platform.{Platform}
use libra_v.Compat.LegacyRecovery.{
  LegacyRecoveryV6, AccountRole, system, validator, operator, end_user, drop,
}
use libra_v.Compat.LegacyRecovery.Strip.{HasAccount}
use libra_v.Genesis.Session.{Vm, run}
use libra_v.Genesis.Functions.{
  tombstone_call, genesis_migrate_one_user, genesis_migrate_slow_wallet,
  genesis_migrate_infra_escrow, genesis_migrate_receipts, genesis_migrate_ancestry,
}
use libra_v.Genesis.Users.{migrate_user, drop_or_migrate, genesis_migrate_all_users, set_tombstone}
use libra_v.Genesis.Users.Plan.{user_plan, plan_of, plan}
use libra_v.Genesis.Users.Steps.{
  then_run, user_step, slow_step, community_step, ancestry_step, receipts_step, escrow_step,
}

module _ (p : Platform) (vm : Vm p) where
  user_run :
      (s : vm.SessionExt) (r : LegacyRecoveryV6 p) (a : p.AccountAddress)
      → r.account ≡ some a
      → migrate_user p vm s r ≡ run vm s (user_plan p a r)
  unfolding migrate_user genesis_migrate_one_user genesis_migrate_slow_wallet
      genesis_migrate_infra_escrow genesis_migrate_receipts genesis_migrate_ancestry
  user_run s r a h = rw h (
      then_run p vm _ _ s (user_step p vm s a r.auth_key r.balance) λ s1.
        then_run p vm _ _ s1 (slow_step p vm s1 a r.auth_key r.balance r.slow_wallet) λ s2.
          then_run p vm _ _ s2 (community_step p vm s2 a r.comm_wallet) λ s3.
            then_run p vm _ _ s3 (ancestry_step p vm s3 a r.auth_key r.balance r.ancestry) λ s4.
              then_run p vm _ _ s4 (receipts_step p vm s4 a r.auth_key r.balance r.receipts)
                λ s5. escrow_step p vm s5 a r.auth_key r.my_pledge)

  record_run :
      (s : vm.SessionExt) (r : LegacyRecoveryV6 p) (role : AccountRole)
      (account : Option p.AccountAddress)
      → r.account ≡ account
      → is_some account ≡ true
      → drop_or_migrate p vm s r role account ≡ run vm s (plan_of p r role account)
  unfolding drop_or_migrate set_tombstone run
  record_run s r drop (some a) same h =
      elim (Result-cases (vm.exec_function s (tombstone_call p a))) [
        | inl (e, stops) ↦ rw stops refl
        | inr (t, runs) ↦ rw runs refl
      ]
  record_run s r drop none same h = cc
  record_run s r system none same h = cc
  record_run s r validator none same h = cc
  record_run s r operator none same h = cc
  record_run s r end_user none same h = cc
  record_run s r system (some a) same h = user_run s r a same
  record_run s r validator (some a) same h = user_run s r a same
  record_run s r operator (some a) same h = user_run s r a same
  record_run s r end_user (some a) same h = user_run s r a same

  -- If every record has an account, the migration of all users makes exactly the calls of the plan,
  -- in its order, and ends as they end. In the plan a dropped account gets its tombstone alone.
  -- Every other one with a key and a balance is created and gets its slow wallet, its ancestry and
  -- its receipts, as far as its record has them; its community wallet is migrated in any case,
  -- after its slow wallet, and its pledges come last and need only the key.
  pub genesis_migrate_all_users-run :
      (recovery : List (LegacyRecoveryV6 p)) (s : vm.SessionExt)
      → All (HasAccount p) recovery
      → genesis_migrate_all_users p vm s recovery ≡ run vm s (plan p recovery)
  unfolding genesis_migrate_all_users run
  genesis_migrate_all_users-run [] s h = refl
  genesis_migrate_all_users-run (r ∷ recovery) s (hr, h) =
      then_run p vm _ _ s (record_run s r r.role r.account refl hr)
        λ t. genesis_migrate_all_users-run recovery t h
