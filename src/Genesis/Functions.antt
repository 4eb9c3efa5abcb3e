-- ===== src/Genesis/Functions.antt =====
-- tools/genesis/src/genesis_functions.rs: the migration of the users into the session of a genesis.
-- A function with an `anyhow::Result` returns the session that it leaves and its error, if any.
-- Logging and the progress bar are left out.
use libra_v.Prelude.{Option, none, some, List, [], ◌∷◌, ◌++◌, Text, codes, Result, ok, err, ◌>>=◌}
use libra_v.Platform.{Platform}
use libra_v.Types.Resources.{
  LegacyBalanceResourceV6, SlowWalletResource, AncestryResource, ReceiptsResource,
  MyPledgesResource, PledgeAccountResource,
}
use libra_v.Compat.LegacyRecovery.{LegacyRecoveryV6}
use libra_v.Genesis.Session.{
  Stop, unwrap_none, bad_address, MoveValue, signer, address, u64_value, vector_u8, vector_address,
  vector_u64, Call, Vm,
}
use libra_v.Genesis.CommWallet.{WalletState}

-- The errors that the migration of one user returns.
pub data MigrateError : Type 0 where
  no_user_account no_user_pledge could_not_parse : MigrateError

module _ (p : Platform) where
  -- The text of an address, parsed again.
  unfoldable pub new_addr_type : p.AccountAddress → Option p.AccountAddress
  new_addr_type a = p.from_hex_literal (codes "0x" ++ p.account_to_string a)

  abbrev pub call : Text → Text → List (MoveValue p) → Call p
  call in_module function values = record {
    in_module = in_module;
    function = function;
    values = values;
  }

  abbrev pub user_call : p.AccountAddress → p.AuthenticationKey → LegacyBalanceResourceV6 → Call p
  user_call a key balance = call (codes "genesis_migration") (codes "migrate_legacy_user") (
      signer p.account_one
      ∷ signer a
      ∷ vector_u8 (p.authentication_key_to_vec key)
      ∷ u64_value balance.coin
      ∷ [])

  abbrev pub slow_call : p.AccountAddress → SlowWalletResource → Call p
  slow_call a slow =
      call (codes "slow_wallet") (codes "fork_migrate_slow_wallet") (
        signer p.account_one ∷ signer a ∷ u64_value slow.unlocked ∷ u64_value slow.transferred ∷ [])

  abbrev pub escrow_call : p.AccountAddress → PledgeAccountResource p → Call p
  escrow_call a pledge = call (codes "genesis_migration") (codes "fork_escrow_init") (
      signer p.account_one
      ∷ signer a
      ∷ u64_value pledge.pledge
      ∷ u64_value pledge.lifetime_pledged
      ∷ u64_value pledge.lifetime_withdrawn
      ∷ [])

  abbrev pub receipts_call : p.AccountAddress → ReceiptsResource p → List p.AccountAddress → Call p
  receipts_call a receipts destinations = call (codes "receipts") (codes "genesis_migrate_user") (
      signer p.account_zero
      ∷ signer a
      ∷ vector_address destinations
      ∷ vector_u64 receipts.cumulative
      ∷ vector_u64 receipts.last_payment_timestamp
      ∷ vector_u64 receipts.last_payment_value
      ∷ [])

  abbrev pub ancestry_call : p.AccountAddress → List p.AccountAddress → Call p
  ancestry_call a tree =
      call (codes "ancestry") (codes "fork_migrate")
        (signer p.account_one ∷ signer a ∷ vector_address tree ∷ [])

  abbrev pub community_call : p.AccountAddress → Call p
  community_call a =
      call (codes "community_wallet_init") (codes "migrate_community_wallet_account")
        (signer p.account_one ∷ signer a ∷ [])

  abbrev pub deposits_call : p.AccountAddress → WalletState p → Call p
  deposits_call a wallet =
      call (codes "cumulative_deposits") (codes "genesis_migrate_cumulative_deposits") (
        signer p.account_one
        ∷ signer a
        ∷ u64_value wallet.cumulative_value
        ∷ u64_value wallet.cumulative_index
        ∷ vector_address wallet.depositors
        ∷ [])

  abbrev pub tombstone_call : p.AccountAddress → Call p
  tombstone_call a =
      call (codes "account") (codes "set_tombstone") (signer p.account_zero ∷ address a ∷ [])

  -- Every address of a list parsed again; the first that cannot be parsed stops the process.
  unfoldable pub parse_all : List p.AccountAddress → Result Stop (List p.AccountAddress)
  parse_all [] = ok []
  parse_all (a ∷ list) = elim (new_addr_type a) [
    | none ↦ err bad_address
    | some b ↦ do rest ← parse_all list; ok (b ∷ rest)
  ]

  module _ (vm : Vm p) where
    -- The session after a call, and the error of the function.
    abbrev pub Migrated : Type 0
    Migrated = Result Stop (vm.SessionExt × Option MigrateError)

    abbrev pub after : Result Stop vm.SessionExt → Migrated
    after m = m >>= λ s. ok (s, none)

    -- The account is parsed again and used; if it cannot be, the function returns the error.
    abbrev pub with_address :
        vm.SessionExt → p.AccountAddress → (p.AccountAddress → Migrated) → Migrated
    with_address session a use_it = elim (new_addr_type a) [
      | none ↦ ok (session, some could_not_parse)
      | some b ↦ use_it b
    ]

    unfoldable pub migrate_one :
        vm.SessionExt
        → Option p.AccountAddress
        → Option p.AuthenticationKey
        → Option LegacyBalanceResourceV6
        → Migrated
    migrate_one session (some a) (some key) (some balance) =
        with_address session a λ b. after (vm.exec_function session (user_call b key balance))
    migrate_one session _ _ _ = ok (session, some no_user_account)

    unfoldable pub genesis_migrate_one_user : vm.SessionExt → LegacyRecoveryV6 p → Migrated
    unfolding migrate_one
    genesis_migrate_one_user session r = migrate_one session r.account r.auth_key r.balance

    unfoldable pub migrate_slow :
        vm.SessionExt
        → Option p.AccountAddress
        → Option p.AuthenticationKey
        → Option LegacyBalanceResourceV6
        → Option SlowWalletResource
        → Migrated
    migrate_slow session (some a) (some key) (some balance) (some slow) =
        with_address session a λ b. after (vm.exec_function session (slow_call b slow))
    migrate_slow session _ _ _ _ = ok (session, some no_user_account)

    unfoldable pub genesis_migrate_slow_wallet : vm.SessionExt → LegacyRecoveryV6 p → Migrated
    unfolding migrate_slow
    genesis_migrate_slow_wallet session r =
        migrate_slow session r.account r.auth_key r.balance r.slow_wallet

    unfoldable pub escrow_all :
        vm.SessionExt
        → p.AccountAddress
        → List (PledgeAccountResource p)
        → Result Stop vm.SessionExt
    escrow_all session a [] = ok session
    escrow_all session a (pledge ∷ list) = do
      s ← vm.exec_function session (escrow_call a pledge)
      escrow_all s a list

    unfoldable pub migrate_escrow :
        vm.SessionExt
        → Option p.AccountAddress
        → Option p.AuthenticationKey
        → Option (MyPledgesResource p)
        → Migrated
    unfolding escrow_all
    migrate_escrow session (some a) (some key) (some pledges) =
        after (escrow_all session a pledges.list)
    migrate_escrow session _ _ _ = ok (session, some no_user_pledge)

    unfoldable pub genesis_migrate_infra_escrow : vm.SessionExt → LegacyRecoveryV6 p → Migrated
    unfolding migrate_escrow
    genesis_migrate_infra_escrow session r = migrate_escrow session r.account r.auth_key r.my_pledge

    abbrev pub if_receipts :
        vm.SessionExt → p.AccountAddress → Option (ReceiptsResource p) → Migrated
    if_receipts session b none = ok (session, none)
    if_receipts session b (some receipts) = do
      destinations ← parse_all receipts.destination
      after (vm.exec_function session (receipts_call b receipts destinations))

    unfoldable pub migrate_receipts :
        vm.SessionExt
        → Option p.AccountAddress
        → Option p.AuthenticationKey
        → Option LegacyBalanceResourceV6
        → Option (ReceiptsResource p)
        → Migrated
    unfolding parse_all
    migrate_receipts session (some a) (some key) (some balance) receipts =
        with_address session a λ b. if_receipts session b receipts
    migrate_receipts session _ _ _ receipts = ok (session, some no_user_account)

    unfoldable pub genesis_migrate_receipts : vm.SessionExt → LegacyRecoveryV6 p → Migrated
    unfolding migrate_receipts
    genesis_migrate_receipts session r =
        migrate_receipts session r.account r.auth_key r.balance r.receipts

    unfoldable pub migrate_ancestry :
        vm.SessionExt
        → Option p.AccountAddress
        → Option p.AuthenticationKey
        → Option LegacyBalanceResourceV6
        → Option (AncestryResource p)
        → Migrated
    unfolding parse_all
    migrate_ancestry session (some a) (some key) (some balance) (some ancestry) =
        with_address session a λ b. do
          tree ← parse_all ancestry.tree
          after (vm.exec_function session (ancestry_call b tree))
    migrate_ancestry session _ _ _ _ = ok (session, some no_user_account)

    unfoldable pub genesis_migrate_ancestry : vm.SessionExt → LegacyRecoveryV6 p → Migrated
    unfolding migrate_ancestry
    genesis_migrate_ancestry session r =
        migrate_ancestry session r.account r.auth_key r.balance r.ancestry

    unfoldable pub genesis_migrate_community_wallet :
        vm.SessionExt → Option p.AccountAddress → Result Stop vm.SessionExt
    genesis_migrate_community_wallet session none = err unwrap_none
    genesis_migrate_community_wallet session (some a) = vm.exec_function session (community_call a)
