-- ===== src/Genesis/Users/Plan.antt =====
-- The calls that the migration of tools/genesis/src/genesis_functions.rs makes of the virtual
-- machine, written down without the session.
use libra_v.Prelude.{Option, none, some, List, [], ◌∷◌, ◌++◌, map}
use libra_v.Platform.{Platform}
use libra_v.Types.Resources.{LegacyBalanceResourceV6, MyPledgesResource, CommunityWalletsResource}
use libra_v.Compat.LegacyRecovery.{LegacyRecoveryV6, AccountRole, drop}
use libra_v.Genesis.Session.{Call}
use libra_v.Genesis.Functions.{
  user_call, slow_call, escrow_call, receipts_call, ancestry_call, community_call, tombstone_call,
}

module _ (p : Platform) where
  -- An account with a key and a balance is created; without either nothing is migrated but its
  -- community wallet and its pledges.
  abbrev pub created {ℓ} :
      {A : Type ℓ}
      → Option p.AuthenticationKey
      → Option LegacyBalanceResourceV6
      → Option A
      → (p.AuthenticationKey → LegacyBalanceResourceV6 → A → Call p)
      → List (Call p)
  created (some key) (some balance) (some a) c = c key balance a ∷ []
  created (some key) (some balance) none c = []
  created (some key) none a c = []
  created none balance a c = []

  abbrev pub pledged :
      p.AccountAddress → Option p.AuthenticationKey → Option (MyPledgesResource p) → List (Call p)
  pledged a (some key) (some pledges) = map (escrow_call p a) pledges.list
  pledged a (some key) none = []
  pledged a none pledges = []

  abbrev pub community : p.AccountAddress → Option (CommunityWalletsResource p) → List (Call p)
  community a none = []
  community a (some wallets) = community_call p a ∷ []

  -- The calls for the account `a` of a record that is not dropped, in their order.
  abbrev pub user_plan : p.AccountAddress → LegacyRecoveryV6 p → List (Call p)
  user_plan a r =
      created r.auth_key r.balance (some a) (λ key balance b. user_call p b key balance)
      ++ (created r.auth_key r.balance r.slow_wallet (λ key balance slow. slow_call p a slow)
          ++ (community a r.comm_wallet
              ++ (created r.auth_key r.balance r.ancestry
                    (λ key balance x. ancestry_call p a x.tree)
                  ++ (created r.auth_key r.balance r.receipts
                        (λ key balance x. receipts_call p a x x.destination)
                      ++ pledged a r.auth_key r.my_pledge))))

  abbrev pub plan_of : LegacyRecoveryV6 p → AccountRole → Option p.AccountAddress → List (Call p)
  plan_of r drop (some a) = tombstone_call p a ∷ []
  plan_of r role (some a) = user_plan a r
  plan_of r role none = []

  abbrev pub plan : List (LegacyRecoveryV6 p) → List (Call p)
  plan [] = []
  plan (r ∷ recovery) = plan_of r r.role r.account ++ plan recovery
