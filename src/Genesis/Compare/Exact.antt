-- ===== src/Genesis/Compare/Exact.antt =====
-- What the audit of tools/genesis/src/compare.rs reports.
use libra_v.Prelude.{
  ℕ, suc, ◌≤◌, Option, none, some, List, [], ◌∷◌, ◌≡◌, ◌≢◌, ◌↔◌, refl, Result, ok, err, >>=-eq-ok,
  All, All-append, arith, context, is_some, true, ap, ◌∙◌, retain, append_nil, ok-injective, Bool,
  false, ◌==◌,
}
use libra_v.Platform.{Platform}
use libra_v.Types.Coin.{GasCoinStoreResource, SlowWalletBalance}
use libra_v.Types.Resources.{LegacyBalanceResourceV6, SlowWalletResource}
use libra_v.Compat.LegacyRecovery.{
  LegacyRecoveryV6, AccountRole, RecoveryError, drop, unwrap_none, strip_system_address,
}
use libra_v.Compat.LegacyRecovery.Strip.{
  HasAccount, is_user, strip_exact, stripped_accounts, strip_total,
}
use libra_v.Genesis.Compare.{
  account_is_none, CompareError, Chain, if_not, check_slow, check_account, check_record, check_all,
  compare_recovery_vec_to_genesis_tx,
}

-- The slow wallet is read, and has as much unlocked on chain as in the file, and no more than `coin`.
abbrev SlowMigrated :
    ℕ → Option SlowWalletResource → Result RecoveryError (Option SlowWalletBalance) → Type 0
SlowMigrated coin none new_slow = Unit
SlowMigrated coin (some old_slow) (err e) = ⊥
SlowMigrated coin (some old_slow) (ok none) = ⊥
SlowMigrated coin (some old_slow) (ok (some new_slow)) =
    (new_slow.unlocked ≡ old_slow.unlocked) × (new_slow.unlocked ≤ coin)

module _ {p : Platform} where
  -- The balance on chain is that of the file; an account without a balance on chain is not judged.
  abbrev BalanceMigrated :
      LegacyRecoveryV6 p
      → Option LegacyBalanceResourceV6
      → Result RecoveryError (Option (GasCoinStoreResource p))
      → Result RecoveryError (Option SlowWalletBalance)
      → Type 0
  BalanceMigrated old balance (err e) slow = ⊥
  BalanceMigrated old balance (ok none) slow = Unit
  BalanceMigrated old none (ok (some on_chain)) slow = ⊥
  BalanceMigrated old (some balance) (ok (some on_chain)) slow =
      (on_chain.coin ≡ balance.coin) × SlowMigrated on_chain.coin old.slow_wallet slow

  abbrev MigratedOf : Chain p → LegacyRecoveryV6 p → AccountRole → Option p.AccountAddress → Type 0
  MigratedOf chain old drop account = Unit
  MigratedOf chain old role none = ⊥
  MigratedOf chain old role (some a) =
      BalanceMigrated old old.balance (chain.coin_store a) (chain.slow_wallet a)

  -- The record agrees with the chain.
  abbrev pub IsMigrated : Chain p → LegacyRecoveryV6 p → Type 0
  IsMigrated chain old = MigratedOf chain old old.role old.account

module _ (p : Platform) where
  slow_iff :
      (i : ℕ) (a : p.AccountAddress) (coin : ℕ) (o : Option SlowWalletResource)
      (n : Result RecoveryError (Option SlowWalletBalance))
      → (check_slow p i a coin o n ≡ ok []) ↔ SlowMigrated coin o n
  unfolding check_slow
  slow_iff i a coin none n = ground arith
  slow_iff i a coin (some o) (err e) = ground arith
  slow_iff i a coin (some o) (ok none) = ground arith
  slow_iff i a coin (some o) (ok (some n)) = ground arith

  balance_iff :
      (i : ℕ) (a : p.AccountAddress) (old : LegacyRecoveryV6 p)
      (on_chain : Result RecoveryError (Option (GasCoinStoreResource p)))
      (slow : Result RecoveryError (Option SlowWalletBalance))
      → (check_account p i a old on_chain slow ≡ ok [])
        ↔ BalanceMigrated old old.balance on_chain slow
  unfolding check_account
  balance_iff i a old (err e) slow = ground arith
  balance_iff i a old (ok none) slow = ground arith
  balance_iff i a old (ok (some on_chain)) slow =
      ground (arith, slow_iff i a on_chain.coin old.slow_wallet slow)

  record_iff :
      (chain : Chain p) (i : ℕ) (old : LegacyRecoveryV6 p) (role : AccountRole)
      (account : Option p.AccountAddress)
      → (check_record p chain i old role account ≡ ok []) ↔ MigratedOf chain old role account
  unfolding check_record
  record_iff chain i old drop account = ground arith
  record_iff chain i old role none = (λ h. cc, λ h. absurd h)
  record_iff chain i old role (some a) =
      balance_iff i a old (chain.coin_store a) (chain.slow_wallet a)

  check_all_silent :
      (chain : Chain p) (i : ℕ) (list : List (LegacyRecoveryV6 p))
      → check_all p chain i list ≡ ok []
      → All (IsMigrated chain) list
  unfolding check_all
  check_all_silent chain i [] h = tt
  check_all_silent chain i (old ∷ list) h =
      let (errors, here, h') = >>=-eq-ok (check_record p chain i old old.role old.account) _ h in
      let (more, there, h'') = >>=-eq-ok (check_all p chain (suc i) list) _ h' in
      let (none_here, none_there) = append_nil errors more (ok-injective h'') in
      (
        (record_iff chain i old old.role old.account).0 (here ∙ ap ok none_here),
        check_all_silent chain (suc i) list (there ∙ ap ok none_there),
      )

  check_all_migrated :
      (chain : Chain p) (i : ℕ) (list : List (LegacyRecoveryV6 p))
      → All (IsMigrated chain) list
      → check_all p chain i list ≡ ok []
  unfolding check_all
  check_all_migrated chain i [] h = refl
  check_all_migrated chain i (old ∷ list) (here, there) = rw (
    (record_iff chain i old old.role old.account).1 here,
    check_all_migrated chain (suc i) list there,
  )

  -- The audit reports nothing exactly when every record has an account and those that are not of
  -- the system and not dropped agree with the chain, which can be read, wherever the account has a balance there: the
  -- same balance, and for a slow wallet the same unlocked coins, which are no more than the balance.
  pub compare_silent_iff :
      (recovery : List (LegacyRecoveryV6 p)) (chain : Chain p)
      → (compare_recovery_vec_to_genesis_tx p recovery chain ≡ ok [])
        ↔ (All (HasAccount p) recovery × All (IsMigrated chain) (retain (is_user p) recovery))
  unfolding compare_recovery_vec_to_genesis_tx
  compare_silent_iff recovery chain = (
    λ h.
        let (list, stripped, checked) = >>=-eq-ok (strip_system_address p recovery) _ h in
        let (accounts, same) = (strip_exact p recovery list).0 stripped in
        (accounts, rw same at (check_all_silent chain 0 list checked)),
    λ h. rw (strip_total p recovery h.0) (check_all_migrated chain 0 _ h.1),
  )

  abbrev pub NamesAccount : CompareError p → Type 0
  NamesAccount e = (is_some e.account ≡ true) × (e.message ≢ account_is_none)

  All-if_not : (b : Bool) (e : CompareError p) → NamesAccount e → All NamesAccount (if_not p b e)
  All-if_not true e h = tt
  All-if_not false e h = (h, tt)

  slow_named :
      (i : ℕ) (a : p.AccountAddress) (coin : ℕ) (o : Option SlowWalletResource)
      (n : Result RecoveryError (Option SlowWalletBalance)) (errors : List (CompareError p))
      → check_slow p i a coin o n ≡ ok errors
      → All NamesAccount errors
  unfolding check_slow
  slow_named i a coin none n errors h = rw (← ok-injective h) tt
  slow_named i a coin (some o) (err e) errors h = cc
  slow_named i a coin (some o) (ok none) errors h = cc
  slow_named i a coin (some o) (ok (some n)) errors h = rw (← ok-injective h) (
      All-append NamesAccount (if_not p (n.unlocked == o.unlocked) _) (if_not p _ _)
        (All-if_not (n.unlocked == o.unlocked) _ (refl, cc)) (All-if_not _ _ (refl, cc)))

  account_named :
      (i : ℕ) (a : p.AccountAddress) (old : LegacyRecoveryV6 p)
      (on_chain : Result RecoveryError (Option (GasCoinStoreResource p)))
      (slow : Result RecoveryError (Option SlowWalletBalance)) (errors : List (CompareError p))
      → check_account p i a old on_chain slow ≡ ok errors
      → All NamesAccount errors
  unfolding check_account
  account_named i a old (err e) slow errors h = cc
  account_named i a old (ok none) slow errors h = rw (← ok-injective h) tt
  account_named i a old (ok (some on_chain)) slow errors h =
      let (balance, here, h') = >>=-eq-ok (context old.balance unwrap_none) _ h in
      let (slow_errors, there, h'') =
        >>=-eq-ok (check_slow p i a on_chain.coin old.slow_wallet slow) _ h' in
      rw (← ok-injective h'') (
        All-append NamesAccount _ _ (ground arith)
          (slow_named i a on_chain.coin old.slow_wallet slow slow_errors there))

  record_named :
      (chain : Chain p) (i : ℕ) (old : LegacyRecoveryV6 p) (role : AccountRole)
      (account : Option p.AccountAddress) (errors : List (CompareError p))
      → is_some account ≡ true
      → check_record p chain i old role account ≡ ok errors
      → All NamesAccount errors
  unfolding check_record
  record_named chain i old drop account errors some_account h = rw (← ok-injective h) tt
  record_named chain i old role none errors some_account h = cc
  record_named chain i old role (some a) errors some_account h =
      account_named i a old (chain.coin_store a) (chain.slow_wallet a) errors h

  check_all_named :
      (chain : Chain p) (i : ℕ) (list : List (LegacyRecoveryV6 p)) (errors : List (CompareError p))
      → All (HasAccount p) list
      → check_all p chain i list ≡ ok errors
      → All NamesAccount errors
  unfolding check_all
  check_all_named chain i [] errors accounts h = rw (← ok-injective h) tt
  check_all_named chain i (old ∷ list) errors (account, accounts) h =
      let (first, here, h') = >>=-eq-ok (check_record p chain i old old.role old.account) _ h in
      let (more, there, h'') = >>=-eq-ok (check_all p chain (suc i) list) _ h' in
      rw (← ok-injective h'') (
        All-append NamesAccount first more
          (record_named chain i old old.role old.account first account here)
          (check_all_named chain (suc i) list more accounts there))

  -- Every error that the audit returns names an account. The message "account is None" is never
  -- reported: a record without an account stops the audit before its check.
  pub compare_names_accounts :
      (recovery : List (LegacyRecoveryV6 p)) (chain : Chain p) (errors : List (CompareError p))
      → compare_recovery_vec_to_genesis_tx p recovery chain ≡ ok errors
      → All NamesAccount errors
  unfolding compare_recovery_vec_to_genesis_tx
  compare_names_accounts recovery chain errors h =
      let (list, stripped, checked) = >>=-eq-ok (strip_system_address p recovery) _ h in
      check_all_named chain 0 list errors (stripped_accounts p recovery list stripped) checked
