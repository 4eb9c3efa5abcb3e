-- ===== src/Genesis/Users/Minted.antt =====
-- The coins that the migration of tools/genesis/src/genesis_functions.rs asks the framework to mint.
use libra_v.Prelude.{
  ℕ, ◌+◌, Option, none, some, List, [], ◌∷◌, ◌++◌, ◌≡◌, refl, ap, ◌∙◌, Bool, codes, text_eq, ok,
  is_some, true, false, ◌&&◌, if◌then◌else◌, All, map, retain, arith,
}
use libra_v.Platform.{Platform}
use libra_v.Types.Resources.{
  LegacyBalanceResourceV6, MyPledgesResource, PledgeAccountResource, CommunityWalletsResource,
}
use libra_v.Compat.LegacyRecovery.{
  LegacyRecoveryV6, AccountRole, system, validator, operator, end_user, drop,
}
use libra_v.Compat.LegacyRecovery.Strip.{HasAccount}
use libra_v.Genesis.ParseJson.Drop.{coin_of, coins}
use libra_v.Genesis.Session.{Call, MoveValue, u64_value, Vm, run}
use libra_v.Genesis.Functions.{user_call, slow_call, escrow_call, receipts_call, ancestry_call}
use libra_v.Genesis.Users.{genesis_migrate_all_users}
use libra_v.Genesis.Users.Plan.{created, pledged, community, user_plan, plan_of, plan}
use libra_v.Genesis.Users.Refine.{genesis_migrate_all_users-run}

module _ (p : Platform) where
  -- The balance among the values of a call, which is its fourth.
  abbrev balance_value : List (MoveValue p) → ℕ
  balance_value (core ∷ user ∷ key ∷ u64_value n ∷ []) = n
  balance_value _ = 0

  -- What a call mints: the balance, if it creates a user.
  abbrev pub minted : Call p → ℕ
  minted c = if text_eq c.function (codes "migrate_legacy_user") then balance_value c.values else 0

  -- A machine that counts what is minted and never aborts.
  abbrev pub mint : Vm p
  mint = record { SessionExt = ℕ; exec_function = λ n c. ok (n + minted c) }

  abbrev minted_by : List (Call p) → ℕ
  minted_by [] = 0
  minted_by (c ∷ calls) = minted c + minted_by calls

  run-mint : (calls : List (Call p)) (n : ℕ) → run mint n calls ≡ ok (n + minted_by calls)
  unfolding run
  run-mint [] n = ap ok (omega arith)
  run-mint (c ∷ calls) n = run-mint calls (n + minted c) ∙ ap ok (omega arith)

  minted_by-append : (xs ys : List (Call p)) → minted_by (xs ++ ys) ≡ minted_by xs + minted_by ys
  minted_by-append [] ys = omega arith
  minted_by-append (c ∷ xs) ys = omega (arith, minted_by-append xs ys)

  -- A record of an account that is created: not dropped, and with a key.
  abbrev is_kept : AccountRole → Bool
  is_kept drop = false
  is_kept role = true

  abbrev pub is_created : LegacyRecoveryV6 p → Bool
  is_created r = is_kept r.role && is_some r.auth_key

  created_user :
      (a : p.AccountAddress) (key : Option p.AuthenticationKey)
      (balance : Option LegacyBalanceResourceV6)
      → minted_by (created p key balance (some a) (λ k b x. user_call p x k b))
        ≡ (if is_some key then coin_of balance else 0)
  created_user a (some key) (some balance) = omega arith
  created_user a (some key) none = refl
  created_user a none balance = refl

  created_other {ℓ} :
      {A : Type ℓ} (key : Option p.AuthenticationKey) (balance : Option LegacyBalanceResourceV6)
      (o : Option A) (c : A → Call p)
      → ((x : A) → minted (c x) ≡ 0)
      → minted_by (created p key balance o (λ k b x. c x)) ≡ 0
  created_other (some key) (some balance) (some x) c h = omega (arith, h x)
  created_other (some key) (some balance) none c h = refl
  created_other (some key) none o c h = refl
  created_other none balance o c h = refl

  escrow_none :
      (a : p.AccountAddress) (list : List (PledgeAccountResource p))
      → minted_by (map (escrow_call p a) list) ≡ 0
  escrow_none a [] = refl
  escrow_none a (x ∷ list) = omega (arith, escrow_none a list)

  pledged_none :
      (a : p.AccountAddress) (key : Option p.AuthenticationKey)
      (pledges : Option (MyPledgesResource p))
      → minted_by (pledged p a key pledges) ≡ 0
  pledged_none a (some key) (some pledges) = escrow_none a pledges.list
  pledged_none a (some key) none = refl
  pledged_none a none pledges = refl

  community_none :
      (a : p.AccountAddress) (wallets : Option (CommunityWalletsResource p))
      → minted_by (community p a wallets) ≡ 0
  community_none a none = refl
  community_none a (some wallets) = refl

  minted_by-user_plan :
      (a : p.AccountAddress) (r : LegacyRecoveryV6 p)
      → minted_by (user_plan p a r) ≡ (if is_some r.auth_key then coin_of r.balance else 0)
  minted_by-user_plan a r =
      let slow = created p r.auth_key r.balance r.slow_wallet (λ k b x. slow_call p a x) in
      let tree = created p r.auth_key r.balance r.ancestry (λ k b x. ancestry_call p a x.tree) in
      let receipts =
        created p r.auth_key r.balance r.receipts (λ k b x. receipts_call p a x x.destination) in
      let pledges = pledged p a r.auth_key r.my_pledge in
      let wallets = community p a r.comm_wallet in
      omega (
        arith,
        minted_by-append (created p r.auth_key r.balance (some a) (λ k b x. user_call p x k b))
            (slow ++ (wallets ++ (tree ++ (receipts ++ pledges)))),
        minted_by-append slow (wallets ++ (tree ++ (receipts ++ pledges))),
        minted_by-append wallets (tree ++ (receipts ++ pledges)),
        minted_by-append tree (receipts ++ pledges),
        minted_by-append receipts pledges,
        created_user a r.auth_key r.balance,
        created_other r.auth_key r.balance r.slow_wallet (slow_call p a) (λ x. refl),
        community_none a r.comm_wallet,
        created_other r.auth_key r.balance r.ancestry (λ x. ancestry_call p a x.tree) (λ x. refl),
        created_other r.auth_key r.balance r.receipts (λ x. receipts_call p a x x.destination)
            (λ x. refl),
        pledged_none a r.auth_key r.my_pledge,
      )

  minted_by-plan_of :
      (r : LegacyRecoveryV6 p) (role : AccountRole) (account : Option p.AccountAddress)
      → is_some account ≡ true
      → minted_by (plan_of p r role account)
        ≡ (if is_kept role && is_some r.auth_key then coin_of r.balance else 0)
  minted_by-plan_of r role none h = cc
  minted_by-plan_of r drop (some a) h = refl
  minted_by-plan_of r system (some a) h = minted_by-user_plan a r
  minted_by-plan_of r validator (some a) h = minted_by-user_plan a r
  minted_by-plan_of r operator (some a) h = minted_by-user_plan a r
  minted_by-plan_of r end_user (some a) h = minted_by-user_plan a r

  coins-retain :
      (r : LegacyRecoveryV6 p) (recovery : List (LegacyRecoveryV6 p))
      → coins (retain is_created (r ∷ recovery))
        ≡ (if is_created r then coin_of r.balance else 0) + coins (retain is_created recovery)
  coins-retain r recovery = ground arith

  minted_by-plan :
      (recovery : List (LegacyRecoveryV6 p))
      → All (HasAccount p) recovery
      → minted_by (plan p recovery) ≡ coins (retain is_created recovery)
  minted_by-plan [] h = refl
  minted_by-plan (r ∷ recovery) (hr, h) = omega (
    arith,
    minted_by-append (plan_of p r r.role r.account) (plan p recovery),
    minted_by-plan_of r r.role r.account hr,
    minted_by-plan recovery h,
    coins-retain r recovery,
  )

  -- If every record has an account, then on a machine that never aborts and adds up the balances of
  -- the calls that create a user, the migration of all users adds exactly the coins of the accounts
  -- that are not dropped and have a key, whatever else their records hold.
  pub genesis_migrate_all_users-mint :
      (recovery : List (LegacyRecoveryV6 p)) (n : ℕ)
      → All (HasAccount p) recovery
      → genesis_migrate_all_users p mint n recovery ≡ ok (n + coins (retain is_created recovery))
  genesis_migrate_all_users-mint recovery n h =
      genesis_migrate_all_users-run p mint recovery n h
      ∙ run-mint (plan p recovery) n
      ∙ ap ok (ap (λ k. n + k) (minted_by-plan recovery h))
