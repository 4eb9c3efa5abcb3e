-- ===== src/Genesis/CommWallet.antt =====
-- tools/genesis/src/process_comm_wallet.rs: the donors of the community wallets, rebuilt from the
-- receipts. A u64 wraps around, as in a release build.
pub mod Conserve
pub mod Rebuild
use libra_v.Prelude.{
  ℕ, zero, suc, ◌+◌, ◌%◌, ◌^◌, Option, none, some, List, [], ◌∷◌, ◌++◌, Bool, Result, ok, err,
  ◌>>=◌, context, get_elem?, any, if◌then◌else◌,
}
use libra_v.Platform.{Platform}
use libra_v.Types.Resources.{ReceiptsResource, CumulativeDepositResource}
use libra_v.Compat.LegacyRecovery.{LegacyRecoveryV6}
use libra_v.Genesis.BTreeMap.{BTreeMap, lookup, insert, update}

pub record WalletState (p : Platform) : Type 0 where
  pub cumulative_value : ℕ
  pub cumulative_index : ℕ
  pub depositors : List p.AccountAddress
  pub audit_deposits_with_receipts : ℕ

pub record AllCommWallets (p : Platform) : Type 0 where
  pub list : BTreeMap p (WalletState p)
  pub total_deposits : ℕ

pub record ReceiptsResourceV7 (p : Platform) : Type 0 where
  pub destination : List p.AccountAddress
  pub cumulative : List ℕ
  pub last_payment_timestamp : List ℕ
  pub last_payment_value : List ℕ
  pub audit_not_found : List p.AccountAddress

pub record DonorReceipts (p : Platform) : Type 0 where
  pub list : BTreeMap p (ReceiptsResourceV7 p)
  pub total_cumu : ℕ
  pub audit_not_cw : List p.AccountAddress

-- The `unwrap` of a missing account, and the `expect` of a missing cumulative value.
pub data Panic : Type 0 where
  unwrap_none cant_parse_value : Panic

abbrev pub u64 : ℕ → ℕ
u64 n = n % 2 ^ 64

module _ (p : Platform) where
  abbrev pub holds : List p.AccountAddress → p.AccountAddress → Bool
  holds xs a = any (λ x. p.account_eq.beq x a) xs

  -- `if !xs.contains(a) { xs.push(a) }`
  abbrev pub push_new : List p.AccountAddress → p.AccountAddress → List p.AccountAddress
  push_new xs a = if holds xs a then xs else xs ++ a ∷ []

  abbrev pub cast_receipts : ReceiptsResource p → ReceiptsResourceV7 p
  cast_receipts r = record {
    destination = r.destination;
    cumulative = r.cumulative;
    last_payment_timestamp = r.last_payment_timestamp;
    last_payment_value = r.last_payment_value;
    audit_not_found = [];
  }

  unfoldable pub donor_list :
      List (LegacyRecoveryV6 p)
      → BTreeMap p (ReceiptsResourceV7 p)
      → Result Panic (BTreeMap p (ReceiptsResourceV7 p))
  donor_list [] list = ok list
  donor_list (e ∷ recovery) list = elim e.receipts [
    | none ↦ donor_list recovery list
    | some r ↦ elim e.account [
      | none ↦ err unwrap_none
      | some a ↦ donor_list recovery (insert p a (cast_receipts r) list)
    ]
  ]

  unfoldable pub rebuild_donor_receipts : List (LegacyRecoveryV6 p) → Result Panic (DonorReceipts p)
  unfolding donor_list
  rebuild_donor_receipts recovery = do
    list ← donor_list recovery []
    ok (record { list = list; total_cumu = 0; audit_not_cw = [] })

  abbrev pub cast_wallet : CumulativeDepositResource p → WalletState p
  cast_wallet cd = record {
    cumulative_value = cd.value;
    cumulative_index = cd.index;
    depositors = [];
    audit_deposits_with_receipts = 0;
  }

  unfoldable pub cw_list :
      List (LegacyRecoveryV6 p) → AllCommWallets p → Result Panic (AllCommWallets p)
  cw_list [] cw = ok cw
  cw_list (e ∷ recovery) cw = elim e.cumulative_deposits [
    | none ↦ cw_list recovery cw
    | some cd ↦ elim e.account [
      | none ↦ err unwrap_none
      | some a ↦ cw_list recovery (record {
        list = insert p a (cast_wallet cd) cw.list;
        total_deposits = u64 (cw.total_deposits + cd.value);
      })
    ]
  ]

  unfoldable pub rebuild_cw_cumu_deposits :
      List (LegacyRecoveryV6 p) → Result Panic (AllCommWallets p)
  unfolding cw_list
  rebuild_cw_cumu_deposits recovery = cw_list recovery (record { list = []; total_deposits = 0 })

  -- What the closure over the destinations writes: the wallets, the list of addresses that are no
  -- community wallet, and the destinations that `filter_map` keeps.
  pub record Walk : Type 0 where
    pub wallets : BTreeMap p (WalletState p)
    pub not_cw : List p.AccountAddress
    pub not_found : List p.AccountAddress

  -- One destination that is a community wallet.
  abbrev pub deposit : p.AccountAddress → ℕ → WalletState p → WalletState p
  deposit donor value w = record w {
    audit_deposits_with_receipts = u64 (w.audit_deposits_with_receipts + value);
    depositors = push_new w.depositors donor;
  }

  pub visit :
      p.AccountAddress
      → List ℕ
      → ℕ
      → p.AccountAddress
      → Walk
      → Option (WalletState p)
      → Result Panic Walk
  visit donor cumulative i maybe_cw s (some w) = do
    value ← context (get_elem? cumulative i) cant_parse_value
    ok (record s { wallets = update p maybe_cw (deposit donor value w) s.wallets })
  visit donor cumulative i maybe_cw s none =
      ok
        (record s { not_cw = push_new s.not_cw maybe_cw; not_found = s.not_found ++ maybe_cw ∷ [] })

  pub walk : p.AccountAddress → List ℕ → ℕ → List p.AccountAddress → Walk → Result Panic Walk
  unfolding visit
  walk donor cumulative i [] s = ok s
  walk donor cumulative i (maybe_cw ∷ destination) s = do
    s' ← visit donor cumulative i maybe_cw s (lookup p maybe_cw s.wallets)
    walk donor cumulative (suc i) destination s'

  -- The loop over the donors.
  pub update_list :
      BTreeMap p (ReceiptsResourceV7 p)
      → BTreeMap p (WalletState p)
      → List p.AccountAddress
      → Result Panic
          (BTreeMap p (ReceiptsResourceV7 p) × BTreeMap p (WalletState p) × List p.AccountAddress)
  unfolding walk
  update_list [] wallets not_cw = ok ([], wallets, not_cw)
  update_list ((donor, receipt) ∷ rest) wallets not_cw = do
    s ←
        walk donor receipt.cumulative 0 receipt.destination
          (record { wallets = wallets; not_cw = not_cw; not_found = [] })
    (rest', wallets', not_cw') ← update_list rest s.wallets s.not_cw
    ok ((donor, record receipt { audit_not_found = s.not_found }) ∷ rest', wallets', not_cw')

  pub update_cw_with_donor :
      AllCommWallets p → DonorReceipts p → Result Panic (AllCommWallets p × DonorReceipts p)
  unfolding update_list
  update_cw_with_donor cw donors = do
    (list, wallets, not_cw) ← update_list donors.list cw.list donors.audit_not_cw
    ok (record cw { list = wallets }, record donors { list = list; audit_not_cw = not_cw })

  pub prepare_cw_and_receipts :
      List (LegacyRecoveryV6 p) → Result Panic (DonorReceipts p × AllCommWallets p)
  unfolding rebuild_donor_receipts rebuild_cw_cumu_deposits update_cw_with_donor
  prepare_cw_and_receipts recovery = do
    dr ← rebuild_donor_receipts recovery
    cw ← rebuild_cw_cumu_deposits recovery
    (cw', dr') ← update_cw_with_donor cw dr
    ok (dr', cw')
