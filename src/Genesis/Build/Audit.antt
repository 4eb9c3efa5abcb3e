-- ===== src/Genesis/Build/Audit.antt =====
-- What the audit of `build` in tools/genesis/src/genesis_builder.rs lets through.
use libra_v.Prelude.{
  ◌≡◌, ◌↔◌, refl, sym, ap, subst, List, [], ◌∷◌, Option, none, some, Result, ok, err, >>=-eq-ok,
  ok-injective, err≢ok, All, retain, is_some, true,
}
use libra_v.Platform.{Platform}
use libra_v.Compat.LegacyRecovery.{LegacyRecoveryV6, RecoveryError}
use libra_v.Compat.LegacyRecovery.Strip.{HasAccount, is_user}
use libra_v.Genesis.Session.{Vm}
use libra_v.Genesis.Compare.{Chain, compare_recovery_vec_to_genesis_tx}
use libra_v.Genesis.Compare.Checks.{JsonDump, dump_of, export_account_balances}
use libra_v.Genesis.Compare.Returns.{IsComparable, compare_returns_iff}
use libra_v.Genesis.Registration.Config.{KeyTypes}
use libra_v.Genesis.Encode.{Vendor}
use libra_v.Genesis.Build.{BuildError, or_error, World, audit}

or_error-ok :
    {E A : Type 0} (f : E → BuildError) (m : Result E A) (a : A) → or_error f m ≡ ok a → m ≡ ok a
or_error-ok f (ok b) a h = ap ok (ok-injective h)
or_error-ok f (err e) a h = absurd (err≢ok h)

module _ (p : Platform) where
  -- One entry for each record, with the balance and the slow wallet that its account has on chain.
  abbrev pub AllDumped : Chain p → List (LegacyRecoveryV6 p) → List (JsonDump p) → Type 0
  AllDumped chain [] [] = Unit
  AllDumped chain (old ∷ recovery) (d ∷ dumps) =
      (old.account ≡ some d.account)
      × (chain.coin_store d.account ≡ ok d.balance)
      × (chain.slow_wallet d.account ≡ ok d.slow)
      × AllDumped chain recovery dumps
  AllDumped chain _ _ = ⊥

  Dumped : Chain p → Option p.AccountAddress → JsonDump p → Type 0
  Dumped chain account d =
      (account ≡ some d.account)
      × (chain.coin_store d.account ≡ ok d.balance)
      × (chain.slow_wallet d.account ≡ ok d.slow)

  dump_of-ok :
      (chain : Chain p) (account : Option p.AccountAddress)
      (rest : Result RecoveryError (List (JsonDump p))) (dumps : List (JsonDump p))
      → is_some account ≡ true
      → dump_of p chain account rest ≡ ok dumps
      → (d : JsonDump p) × (list : List (JsonDump p)) × (dumps ≡ d ∷ list)
        × Dumped chain account d
        × (rest ≡ ok list)
  unfolding Dumped
  dump_of-ok chain none rest dumps here h = cc
  dump_of-ok chain (some a) rest dumps here h =
      let (slow, e1, h1) = >>=-eq-ok (chain.slow_wallet a) _ h in
      let (balance, e2, h2) = >>=-eq-ok (chain.coin_store a) _ h1 in
      let (list, e3, h3) = >>=-eq-ok rest _ h2 in
      (
        record { account = a; balance = balance; slow = slow },
        list,
        sym (ok-injective h3),
        (refl, e2, e1),
        e3,
      )

  exported :
      (chain : Chain p) (recovery : List (LegacyRecoveryV6 p)) (dumps : List (JsonDump p))
      → All (HasAccount p) recovery
      → export_account_balances p recovery chain ≡ ok dumps
      → AllDumped chain recovery dumps
  unfolding export_account_balances Dumped
  exported chain [] dumps has h = subst (AllDumped chain []) (ok-injective h) tt
  exported chain (old ∷ recovery) dumps (here, has) h =
      let (d, list, same, dumped, rest) =
        dump_of-ok chain old.account (export_account_balances p recovery chain) dumps here h in
      let (e1, e2, e3) = dumped in
      subst (AllDumped chain (old ∷ recovery)) (sym same)
        (e1, e2, e3, exported chain recovery list has rest)

  exports :
      (chain : Chain p) (recovery : List (LegacyRecoveryV6 p)) (dumps : List (JsonDump p))
      → AllDumped chain recovery dumps
      → export_account_balances p recovery chain ≡ ok dumps
  unfolding export_account_balances
  exports chain [] [] h = refl
  exports chain [] (d ∷ dumps) h = elim h [ ]
  exports chain (old ∷ recovery) [] h = elim h [ ]
  exports chain (old ∷ recovery) (d ∷ dumps) (e1, e2, e3, h) =
      rw (e1, e3, e2, exports chain recovery dumps h) refl

module _ (p : Platform) (vm : Vm p) (v : Vendor p vm) (k : KeyTypes p) (w : World p vm v k) where
  -- The database was read, nothing that the comparison or the export looks up was missing, and the
  -- balances were saved.
  pub record Audited (recovery : List (LegacyRecoveryV6 p)) (genesis : v.ChangeSet) : Type 0 where
    pub chain : Chain p
    pub dumps : List (JsonDump p)
    pub opened : w.database genesis ≡ ok chain
    pub accounts : All (HasAccount p) recovery
    pub comparable : All (IsComparable chain) (retain (is_user p) recovery)
    pub dumped : AllDumped p chain recovery dumps
    pub saved : w.write_balances dumps ≡ ok tt

  passed :
      (r : LegacyRecoveryV6 p) (rest : List (LegacyRecoveryV6 p)) (genesis : v.ChangeSet)
      → audit p vm v k w (r ∷ rest) genesis ≡ ok tt
      → Audited (r ∷ rest) genesis
  unfolding audit
  passed r rest genesis h =
      let (chain, opened, h1) = >>=-eq-ok (w.database genesis) _ h in
      let stop = BuildError.audit_stopped in
      let compare = compare_recovery_vec_to_genesis_tx p (r ∷ rest) chain in
      let export = export_account_balances p (r ∷ rest) chain in
      let (errors, ran, h2) = >>=-eq-ok (or_error stop compare) _ h1 in
      let (dumps, wrote, h3) = >>=-eq-ok (or_error stop export) _ h2 in
      let (accounts, comparable) =
        (compare_returns_iff p (r ∷ rest) chain).0 (errors, or_error-ok stop compare errors ran) in
      record {
        chain = chain;
        dumps = dumps;
        opened = opened;
        accounts = accounts;
        comparable = comparable;
        dumped = exported p chain (r ∷ rest) dumps accounts (or_error-ok stop export dumps wrote);
        saved = h3;
      }

  passes :
      (r : LegacyRecoveryV6 p) (rest : List (LegacyRecoveryV6 p)) (genesis : v.ChangeSet)
      → Audited (r ∷ rest) genesis
      → audit p vm v k w (r ∷ rest) genesis ≡ ok tt
  unfolding audit
  passes r rest genesis a =
      let (errors, ran) = (compare_returns_iff p (r ∷ rest) a.chain).1 (a.accounts, a.comparable) in
      rw (a.opened, ran, exports p a.chain (r ∷ rest) a.dumps a.dumped, audit) a.saved

  -- The audit of a recovery file that is not empty passes exactly when the database can be opened and
  -- read, every record has an account, each user that is not dropped and has a balance on chain has one in the
  -- file and, for a slow wallet in the file, one on chain, and the balances on chain, one entry for
  -- each record, can be saved. Whether the balances agree with the file does not matter.
  pub audit_passes_iff :
      (r : LegacyRecoveryV6 p) (rest : List (LegacyRecoveryV6 p)) (genesis : v.ChangeSet)
      → (audit p vm v k w (r ∷ rest) genesis ≡ ok tt) ↔ Audited (r ∷ rest) genesis
  audit_passes_iff r rest genesis = (passed r rest genesis, passes r rest genesis)
