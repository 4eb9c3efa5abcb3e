-- ===== src/Genesis/Encode/Stages.antt =====
-- The migration stage of the encoding in tools/genesis/src/vm.rs, as one list of calls.
use libra_v.Prelude.{
  true, false, Bool, if◌then◌else◌, codes, ◌<◌, ◌^◌, ◌≡◌, refl, Option, none, some, List, [], ◌∷◌,
  ◌++◌, map, ok, All, Result-cases, inl, inr,
}
use libra_v.Platform.{Platform}
use libra_v.Types.Resources.{ConsensusRewardResource}
use libra_v.Compat.LegacyRecovery.{LegacyRecoveryV6}
use libra_v.Compat.LegacyRecovery.Strip.{HasAccount}
use libra_v.Genesis.BTreeMap.{BTreeMap, known}
use libra_v.Genesis.CommWallet.{
  WalletState, AllCommWallets, DonorReceipts, rebuild_donor_receipts, rebuild_cw_cumu_deposits,
}
use libra_v.Genesis.CommWallet.Conserve.{IsComplete, all_credited, ledger}
use libra_v.Genesis.Session.{Call, Vm, run, signer, u64_value}
use libra_v.Genesis.Functions.{call}
use libra_v.Genesis.Users.{set_validator_baseline_reward}
use libra_v.Genesis.Users.Plan.{plan}
use libra_v.Genesis.Users.Steps.{then_run}
use libra_v.Genesis.Users.Refine.{genesis_migrate_all_users-run}
use libra_v.Genesis.Users.Deposits.{deposits_plan, one_list}
use libra_v.Genesis.Encode.{Vendor, is_core, framework_state, reward_of, baseline_reward, migrate}

module _ (p : Platform) (vm : Vm p) (v : Vendor p vm) where
  abbrev pub reward_call : ConsensusRewardResource → Call p
  reward_call cr =
      call p (codes "proof_of_fee") (codes "genesis_migrate_reward")
        (signer p.account_one ∷ u64_value cr.nominal_reward ∷ [])

  abbrev pub reward_calls : Option ConsensusRewardResource → List (Call p)
  reward_calls none = []
  reward_calls (some cr) = reward_call cr ∷ []

  abbrev pub core_or :
      Option p.AccountAddress
      → LegacyRecoveryV6 p
      → Option (LegacyRecoveryV6 p)
      → Option (LegacyRecoveryV6 p)
  core_or none e rest = rest
  core_or (some a) e rest = if p.account_eq.beq a p.account_one then some e else rest

  -- The first record of the account 0x1.
  abbrev pub core_record : List (LegacyRecoveryV6 p) → Option (LegacyRecoveryV6 p)
  core_record [] = none
  core_record (e ∷ rest) = core_or e.account e (core_record rest)

  found_core :
      (account : Option p.AccountAddress) (t : Bool) (e : LegacyRecoveryV6 p)
      (others rest : Option (LegacyRecoveryV6 p))
      → is_core p vm v account ≡ t
      → others ≡ rest
      → elim t as (λ _. Option (LegacyRecoveryV6 p)) [ true ↦ some e | false ↦ others ]
        ≡ core_or account e rest
  found_core none true e others rest h same = cc
  found_core none false e others rest h same = same
  found_core (some a) true e others rest h same = rw h refl
  found_core (some a) false e others rest h same = rw h same

  framework-core_record :
      (list : List (LegacyRecoveryV6 p)) → framework_state p vm v list ≡ core_record list
  unfolding framework_state
  framework-core_record [] = refl
  framework-core_record (e ∷ rest) =
      found_core e.account (is_core p vm v e.account) e _ (core_record rest) refl
        (framework-core_record rest)

  -- The reward of the framework's account, if it has one.
  abbrev pub reward_plan : Option (LegacyRecoveryV6 p) → List (Call p)
  reward_plan none = []
  reward_plan (some f) = reward_calls f.consensus_reward

  run_one : (s : vm.SessionExt) (c : Call p) → vm.exec_function s c ≡ run vm s (c ∷ [])
  unfolding run
  run_one s c = elim (Result-cases (vm.exec_function s c)) [
    | inl (e, stops) ↦ rw stops refl
    | inr (t, runs) ↦ rw runs refl
  ]

  reward_run :
      (cr : Option ConsensusRewardResource) (s : vm.SessionExt)
      → reward_of p vm v cr s ≡ run vm s (reward_calls cr)
  unfolding run set_validator_baseline_reward
  reward_run none s = refl
  reward_run (some cr) s = run_one s (reward_call cr)

  baseline_run :
      (f : Option (LegacyRecoveryV6 p)) (s : vm.SessionExt)
      → baseline_reward p vm v f s ≡ run vm s (reward_plan f)
  unfolding run
  baseline_run none s = refl
  baseline_run (some f) s = reward_run f.consensus_reward s

  core_run :
      (list : List (LegacyRecoveryV6 p)) (s : vm.SessionExt)
      → baseline_reward p vm v (framework_state p vm v list) s
        ≡ run vm s (reward_plan (core_record list))
  core_run list s = rw (framework-core_record list) (baseline_run (core_record list) s)

  -- If every record of a recovery file that is not empty has an account, both rebuilds return, and
  -- the rebuilt receipts are complete and their credits fit a u64 together, then the migration
  -- makes one list of calls: the reward that the first record of 0x1 holds, if it holds one, the plan of
  -- all users, and one call for each community wallet, which has the address, the cumulative value
  -- and the index of the rebuilt one.
  pub migrate-run :
      (r : LegacyRecoveryV6 p) (rest : List (LegacyRecoveryV6 p)) (dr : DonorReceipts p)
      (cw : AllCommWallets p) (s : vm.SessionExt)
      → All (HasAccount p) (r ∷ rest)
      → rebuild_donor_receipts p (r ∷ rest) ≡ ok dr
      → rebuild_cw_cumu_deposits p (r ∷ rest) ≡ ok cw
      → All (IsComplete p (known p cw.list)) dr.list
      → all_credited p (known p cw.list) dr.list < 2 ^ 64
      → (list : BTreeMap p (WalletState p)) × (migrate p vm v (r ∷ rest) s
          ≡ run vm s (
              reward_plan (core_record (r ∷ rest))
              ++ (plan p (r ∷ rest) ++ deposits_plan p vm list)))
        × (map ledger list ≡ map ledger cw.list)
  unfolding migrate
  migrate-run r rest dr cw s accounts donors wallets complete small =
      let recovery = r ∷ rest in
      let (list, deposits, ledgers) = one_list p vm recovery dr cw donors wallets complete small in
      (
        list,
        then_run p vm _ _ s (core_run recovery s) λ t.
            then_run p vm _ _ t (genesis_migrate_all_users-run p vm recovery t accounts) deposits,
        ledgers,
      )
