-- ===== src/Genesis/ParseJson/Drop.antt =====
-- `drop_accounts` of tools/genesis/src/parse_json.rs.
use libra_v.Prelude.{
  ℕ, ◌+◌, Option, none, some, List, [], ◌∷◌, ◌≡◌, refl, map, retain, Bool, false, arith,
}
use libra_v.Platform.{Platform}
use libra_v.Types.Resources.{LegacyBalanceResourceV6}
use libra_v.Compat.LegacyRecovery.{LegacyRecoveryV6}
use libra_v.Genesis.ParseJson.{drop_entry, drop_accounts, listed}

abbrev pub coin_of : Option LegacyBalanceResourceV6 → ℕ
coin_of none = 0
coin_of (some b) = b.coin

-- The coins of all balances of a recovery file.
abbrev pub coins : {p : Platform} → List (LegacyRecoveryV6 p) → ℕ
coins [] = 0
coins (e ∷ r) = coin_of e.balance + coins r

module _ (p : Platform) (mapped : List p.AccountAddress) where
  abbrev pub is_listed : Option p.AccountAddress → Bool
  is_listed none = false
  is_listed (some a) = listed p mapped a

  coins-drop_entry :
      (e : LegacyRecoveryV6 p)
      → coin_of (drop_entry p mapped e e.account).balance
          + coins (retain (λ x. is_listed x.account) (e ∷ []))
        ≡ coin_of e.balance
  unfolding drop_entry
  coins-drop_entry e = ground arith

  drop_entry_idem :
      (e : LegacyRecoveryV6 p)
      → drop_entry p mapped
          (drop_entry p mapped e e.account)
          (drop_entry p mapped e e.account).account
        ≡ drop_entry p mapped e e.account
  unfolding drop_entry
  drop_entry_idem e = ground arith

  account-drop_entry :
      (e : LegacyRecoveryV6 p) → (drop_entry p mapped e e.account).account ≡ e.account
  unfolding drop_entry
  account-drop_entry e = ground arith

  coins-retain :
      (e : LegacyRecoveryV6 p) (r : List (LegacyRecoveryV6 p))
      → coins (retain (λ x. is_listed x.account) (e ∷ r))
        ≡ coins (retain (λ x. is_listed x.account) (e ∷ []))
          + coins (retain (λ x. is_listed x.account) r)
  coins-retain e r = ground arith

  -- Dropping accounts takes out of the file exactly the coins of the listed accounts.
  pub coins-drop_accounts :
      (r : List (LegacyRecoveryV6 p))
      → coins (drop_accounts p mapped r) + coins (retain (λ e. is_listed e.account) r) ≡ coins r
  unfolding drop_accounts
  coins-drop_accounts [] = omega arith
  coins-drop_accounts (e ∷ r) =
      omega (arith, coins-drop_entry e, coins-retain e r, coins-drop_accounts r)

  -- Dropping accounts keeps every account at its place, and a second drop by the same list changes
  -- nothing.
  pub drop_accounts_stable :
      (r : List (LegacyRecoveryV6 p))
      → (map (λ e. e.account) (drop_accounts p mapped r) ≡ map (λ e. e.account) r)
        × (drop_accounts p mapped (drop_accounts p mapped r) ≡ drop_accounts p mapped r)
  unfolding drop_accounts
  drop_accounts_stable [] = (refl, refl)
  drop_accounts_stable (e ∷ r) =
      let (accounts, again) = drop_accounts_stable r in
      (cc (account-drop_entry e, accounts), cc (drop_entry_idem e, again))
