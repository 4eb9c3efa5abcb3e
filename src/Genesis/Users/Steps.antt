-- ===== src/Genesis/Users/Steps.antt =====
-- Each migration of one resource in tools/genesis/src/genesis_functions.rs makes the calls of its
-- part of the plan.
use mathlib.Core.Path.{fun_ext}
use libra_v.Prelude.{
  Option, none, some, List, [], ◌∷◌, ◌++◌, ◌≡◌, refl, ap, Result-cases, inl, inr, ◌∙◌, Result, ok,
  err, ◌>>=◌, is_some, map, arith,
}
use libra_v.Platform.{Platform}
use libra_v.Types.Resources.{
  LegacyBalanceResourceV6, SlowWalletResource, AncestryResource, ReceiptsResource,
  MyPledgesResource, PledgeAccountResource, CommunityWalletsResource,
}
use libra_v.Genesis.Session.{Stop, Call, Vm, run}
use libra_v.Genesis.Functions.{
  new_addr_type, parse_all, user_call, slow_call, escrow_call, receipts_call, ancestry_call,
  community_call, after, Migrated, with_address, migrate_one, migrate_slow, escrow_all,
  migrate_escrow, migrate_receipts, migrate_ancestry, genesis_migrate_community_wallet,
}
use libra_v.Genesis.Users.{logged, when}
use libra_v.Genesis.Users.Plan.{created, pledged, community}

module _ (p : Platform) where
  parse_again : (a : p.AccountAddress) → new_addr_type p a ≡ some a
  unfolding new_addr_type
  parse_again a = p.from_hex_literal-to_string a

  parse_all-again : (list : List p.AccountAddress) → parse_all p list ≡ ok list
  unfolding parse_all
  parse_all-again [] = refl
  parse_all-again (a ∷ list) = ground (arith, parse_again a, parse_all-again list)

  module _ (vm : Vm p) where
    pub run-append :
        (xs ys : List (Call p)) (s : vm.SessionExt)
        → run vm s (xs ++ ys) ≡ (run vm s xs >>= λ t. run vm t ys)
    unfolding run
    run-append [] ys s = refl
    run-append (c ∷ xs) ys s = elim (Result-cases (vm.exec_function s c)) [
      | inl (e, stops) ↦ rw stops refl
      | inr (t, runs) ↦ rw runs (run-append xs ys t)
    ]

    -- Two parts that make their calls, one after the other.
    pub then_run :
        {m : Result Stop vm.SessionExt} {k : vm.SessionExt → Result Stop vm.SessionExt}
        (xs ys : List (Call p)) (s : vm.SessionExt)
        → m ≡ run vm s xs
        → ((t : vm.SessionExt) → k t ≡ run vm t ys)
        → (m >>= k) ≡ run vm s (xs ++ ys)
    then_run {m} {k} xs ys s first second =
        rw (run-append xs ys s, first) (ap (λ f. run vm s xs >>= f) (fun_ext second))

    pub one_call :
        (s : vm.SessionExt) (c : Call p)
        → logged p vm (after p vm (vm.exec_function s c)) ≡ run vm s (c ∷ [])
    unfolding run
    one_call s c = elim (Result-cases (vm.exec_function s c)) [
      | inl (e, stops) ↦ rw stops refl
      | inr (t, runs) ↦ rw runs refl
    ]

    with_parsed :
        (s : vm.SessionExt) (a : p.AccountAddress) (f : p.AccountAddress → Migrated p vm)
        → with_address p vm s a f ≡ f a
    with_parsed s a f = rw (parse_again a, with_address) refl

    pub user_step :
        (s : vm.SessionExt) (a : p.AccountAddress) (key : Option p.AuthenticationKey)
        (balance : Option LegacyBalanceResourceV6)
        → logged p vm (migrate_one p vm s (some a) key balance)
          ≡ run vm s (created p key balance (some a) (λ k b x. user_call p x k b))
    unfolding migrate_one run
    user_step s a (some key) (some balance) = rw (with_parsed s a _) (one_call s _)
    user_step s a (some key) none = refl
    user_step s a none balance = refl

    pub slow_step :
        (s : vm.SessionExt) (a : p.AccountAddress) (key : Option p.AuthenticationKey)
        (balance : Option LegacyBalanceResourceV6) (slow : Option SlowWalletResource)
        → when p vm (is_some slow) (logged p vm (migrate_slow p vm s (some a) key balance slow)) s
          ≡ run vm s (created p key balance slow (λ k b x. slow_call p a x))
    unfolding migrate_slow run
    slow_step s a (some key) (some balance) (some slow) = rw (with_parsed s a _) (one_call s _)
    slow_step s a (some key) (some balance) none = refl
    slow_step s a (some key) none (some slow) = refl
    slow_step s a (some key) none none = refl
    slow_step s a none balance (some slow) = refl
    slow_step s a none balance none = refl

    pub community_step :
        (s : vm.SessionExt) (a : p.AccountAddress) (wallets : Option (CommunityWalletsResource p))
        → when p vm (is_some wallets) (genesis_migrate_community_wallet p vm s (some a)) s
          ≡ run vm s (community p a wallets)
    unfolding genesis_migrate_community_wallet run
    community_step s a none = refl
    community_step s a (some wallets) =
        elim (Result-cases (vm.exec_function s (community_call p a))) [
          | inl (e, stops) ↦ rw stops refl
          | inr (t, runs) ↦ rw runs refl
        ]

    pub ancestry_step :
        (s : vm.SessionExt) (a : p.AccountAddress) (key : Option p.AuthenticationKey)
        (balance : Option LegacyBalanceResourceV6) (ancestry : Option (AncestryResource p))
        → when p vm
            (is_some ancestry)
            (logged p vm (migrate_ancestry p vm s (some a) key balance ancestry))
            s
          ≡ run vm s (created p key balance ancestry (λ k b x. ancestry_call p a x.tree))
    unfolding migrate_ancestry run
    ancestry_step s a (some key) (some balance) (some ancestry) =
        rw (with_parsed s a _, parse_all-again ancestry.tree) (one_call s _)
    ancestry_step s a (some key) (some balance) none = refl
    ancestry_step s a (some key) none (some ancestry) = refl
    ancestry_step s a (some key) none none = refl
    ancestry_step s a none balance (some ancestry) = refl
    ancestry_step s a none balance none = refl

    pub receipts_step :
        (s : vm.SessionExt) (a : p.AccountAddress) (key : Option p.AuthenticationKey)
        (balance : Option LegacyBalanceResourceV6) (receipts : Option (ReceiptsResource p))
        → when p vm
            (is_some receipts)
            (logged p vm (migrate_receipts p vm s (some a) key balance receipts))
            s
          ≡ run vm s (created p key balance receipts (λ k b x. receipts_call p a x x.destination))
    unfolding migrate_receipts run
    receipts_step s a (some key) (some balance) (some receipts) =
        rw (with_parsed s a _, parse_all-again receipts.destination) (one_call s _)
    receipts_step s a (some key) (some balance) none = refl
    receipts_step s a (some key) none (some receipts) = refl
    receipts_step s a (some key) none none = refl
    receipts_step s a none balance (some receipts) = refl
    receipts_step s a none balance none = refl

    escrow_run :
        (a : p.AccountAddress) (list : List (PledgeAccountResource p)) (s : vm.SessionExt)
        → escrow_all p vm s a list ≡ run vm s (map (escrow_call p a) list)
    unfolding escrow_all run
    escrow_run a [] s = refl
    escrow_run a (pledge ∷ list) s =
        ap (λ f. vm.exec_function s (escrow_call p a pledge) >>= f) (fun_ext (escrow_run a list))

    logged-after : (m : Result Stop vm.SessionExt) → logged p vm (after p vm m) ≡ m
    logged-after (ok s) = refl
    logged-after (err e) = refl

    pub escrow_step :
        (s : vm.SessionExt) (a : p.AccountAddress) (key : Option p.AuthenticationKey)
        (pledges : Option (MyPledgesResource p))
        → when p vm (is_some pledges) (logged p vm (migrate_escrow p vm s (some a) key pledges)) s
          ≡ run vm s (pledged p a key pledges)
    unfolding migrate_escrow run
    escrow_step s a (some key) (some pledges) =
        logged-after (escrow_all p vm s a pledges.list) ∙ escrow_run a pledges.list s
    escrow_step s a (some key) none = refl
    escrow_step s a none (some pledges) = refl
    escrow_step s a none none = refl
