-- ===== src/Genesis/Compare/Returns.antt =====
-- When the audit of tools/genesis/src/compare.rs returns a list of errors, instead of a stop.
use libra_v.Prelude.{
  ℕ, suc, Option, none, some, List, [], ◌∷◌, ◌++◌, ◌≡◌, ◌↔◌, refl, Result, ok, err, >>=-eq-ok, All,
  retain,
}
use libra_v.Platform.{Platform}
use libra_v.Types.Coin.{GasCoinStoreResource, SlowWalletBalance}
use libra_v.Types.Resources.{LegacyBalanceResourceV6, SlowWalletResource}
use libra_v.Compat.LegacyRecovery.{
  LegacyRecoveryV6, AccountRole, RecoveryError, drop, unwrap_none, strip_system_address,
}
use libra_v.Compat.LegacyRecovery.Strip.{HasAccount, is_user, strip_exact, strip_total}
use libra_v.Genesis.Compare.{
  CompareError, Chain, check_slow, check_account, check_record, check_all,
  compare_recovery_vec_to_genesis_tx,
}

-- A slow wallet of the file has one on chain, which can be read.
abbrev SlowRead :
    Option SlowWalletResource → Result RecoveryError (Option SlowWalletBalance) → Type 0
SlowRead none new_slow = Unit
SlowRead (some old_slow) (ok (some new_slow)) = Unit
SlowRead (some old_slow) (ok none) = ⊥
SlowRead (some old_slow) (err e) = ⊥

module _ {p : Platform} where
  -- The balance can be read; if there is one, the file has one too, and its slow wallet is found.
  abbrev BalanceRead :
      Option LegacyBalanceResourceV6
      → Option SlowWalletResource
      → Result RecoveryError (Option (GasCoinStoreResource p))
      → Result RecoveryError (Option SlowWalletBalance)
      → Type 0
  BalanceRead balance old_slow (err e) slow = ⊥
  BalanceRead balance old_slow (ok none) slow = Unit
  BalanceRead none old_slow (ok (some on_chain)) slow = ⊥
  BalanceRead (some balance) old_slow (ok (some on_chain)) slow = SlowRead old_slow slow

  abbrev ReadOf : Chain p → LegacyRecoveryV6 p → AccountRole → Option p.AccountAddress → Type 0
  ReadOf chain old drop account = Unit
  ReadOf chain old role none = Unit
  ReadOf chain old role (some a) =
      BalanceRead old.balance old.slow_wallet (chain.coin_store a) (chain.slow_wallet a)

  -- Nothing that the audit looks up for the record is missing.
  abbrev pub IsComparable : Chain p → LegacyRecoveryV6 p → Type 0
  IsComparable chain old = ReadOf chain old old.role old.account

module _ (p : Platform) where
  abbrev Returns : Result RecoveryError (List (CompareError p)) → Type 0
  Returns m = (errors : List (CompareError p)) × (m ≡ ok errors)

  not_returned : (e : RecoveryError) → Returns (err e) → ⊥
  not_returned e (errors, h) = cc

  slow-Returns :
      (i : ℕ) (a : p.AccountAddress) (coin : ℕ) (o : Option SlowWalletResource)
      (n : Result RecoveryError (Option SlowWalletBalance))
      → Returns (check_slow p i a coin o n) ↔ SlowRead o n
  unfolding check_slow
  slow-Returns i a coin none n = (λ h. tt, λ h. ([], refl))
  slow-Returns i a coin (some o) (err e) = (λ h. not_returned e h, λ h. absurd h)
  slow-Returns i a coin (some o) (ok none) = (λ h. not_returned unwrap_none h, λ h. absurd h)
  slow-Returns i a coin (some o) (ok (some n)) = (λ h. tt, λ h. (_, refl))

  balance-Returns :
      (i : ℕ) (a : p.AccountAddress) (old : LegacyRecoveryV6 p)
      (balance : Option LegacyBalanceResourceV6)
      (on_chain : Result RecoveryError (Option (GasCoinStoreResource p)))
      (slow : Result RecoveryError (Option SlowWalletBalance))
      → old.balance ≡ balance
      → Returns (check_account p i a old on_chain slow)
        ↔ BalanceRead balance old.slow_wallet on_chain slow
  unfolding check_account
  balance-Returns i a old balance (err e) slow same = (λ h. not_returned e h, λ h. absurd h)
  balance-Returns i a old balance (ok none) slow same = (λ h. tt, λ h. ([], refl))
  balance-Returns i a old none (ok (some on_chain)) slow same =
      rw same (λ h. not_returned unwrap_none h, λ h. absurd h)
  balance-Returns i a old (some balance) (ok (some on_chain)) slow same = rw same (
    λ h.
        let (errors, run) = h in
        let (found, checked, rest) =
          >>=-eq-ok (check_slow p i a on_chain.coin old.slow_wallet slow) _ run in
        (slow-Returns i a on_chain.coin old.slow_wallet slow).0 (found, checked),
    λ h.
        let (found, checked) = (slow-Returns i a on_chain.coin old.slow_wallet slow).1 h in
        rw checked (_, refl),
  )

  record-Returns :
      (chain : Chain p) (i : ℕ) (old : LegacyRecoveryV6 p) (role : AccountRole)
      (account : Option p.AccountAddress)
      → Returns (check_record p chain i old role account) ↔ ReadOf chain old role account
  unfolding check_record
  record-Returns chain i old drop account = (λ h. tt, λ h. ([], refl))
  record-Returns chain i old role none = (λ h. tt, λ h. (_, refl))
  record-Returns chain i old role (some a) =
      balance-Returns i a old old.balance (chain.coin_store a) (chain.slow_wallet a) refl

  returned-IsComparable :
      (chain : Chain p) (i : ℕ) (list : List (LegacyRecoveryV6 p))
      → Returns (check_all p chain i list)
      → All (IsComparable chain) list
  unfolding check_all
  returned-IsComparable chain i [] h = tt
  returned-IsComparable chain i (old ∷ list) (errors, h) =
      let (first, here, h') = >>=-eq-ok (check_record p chain i old old.role old.account) _ h in
      let (more, there, h'') = >>=-eq-ok (check_all p chain (suc i) list) _ h' in
      (
        (record-Returns chain i old old.role old.account).0 (first, here),
        returned-IsComparable chain (suc i) list (more, there),
      )

  check_all-Returns :
      (chain : Chain p) (i : ℕ) (list : List (LegacyRecoveryV6 p))
      → All (IsComparable chain) list
      → Returns (check_all p chain i list)
  unfolding check_all
  check_all-Returns chain i [] h = ([], refl)
  check_all-Returns chain i (old ∷ list) (here, there) =
      let (first, e) = (record-Returns chain i old old.role old.account).1 here in
      let (more, f) = check_all-Returns chain (suc i) list there in (first ++ more, rw (e, f) refl)

  -- The audit returns a list of errors exactly when every record has an account and, for those that are
  -- not of the system and not dropped, the balance on chain can be read, and where there is
  -- one, the file has a balance and a slow wallet of the file has one on chain.
  pub compare_returns_iff :
      (recovery : List (LegacyRecoveryV6 p)) (chain : Chain p)
      → ((errors : List (CompareError p)) × (compare_recovery_vec_to_genesis_tx p recovery chain
            ≡ ok errors))
        ↔ (All (HasAccount p) recovery × All (IsComparable chain) (retain (is_user p) recovery))
  unfolding compare_recovery_vec_to_genesis_tx
  compare_returns_iff recovery chain = (
    λ h.
        let (errors, run) = h in
        let (list, stripped, checked) = >>=-eq-ok (strip_system_address p recovery) _ run in
        let (accounts, same) = (strip_exact p recovery list).0 stripped in
        (accounts, rw same at (returned-IsComparable chain 0 list (errors, checked))),
    λ h.
        let (errors, run) = check_all-Returns chain 0 _ h.1 in
        (errors, rw (strip_total p recovery h.0) run),
  )
