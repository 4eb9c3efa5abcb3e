-- ===== src/Genesis/CommWallet/Conserve.antt =====
-- `update_cw_with_donor` of tools/genesis/src/process_comm_wallet.rs: what the receipts add to the
-- wallets, and which destinations are reported.
use mathlib.Core.Path.{ap₂}
use libra_v.Prelude.{
  ℕ, zero, suc, ◌+◌, ◌≤◌, ◌<◌, ◌^◌, some, List, [], ◌∷◌, ◌++◌, ◌≡◌, refl, Bool, true, false, not,
  ok, get_or, length, retain, map, arith, if◌then◌else◌, append-nil, append_assoc, get_elem?, All,
  ◌∙◌, retain-cons, ap, Option-cases, inl, inr,
}
use libra_v.Platform.{Platform}
use libra_v.Genesis.BTreeMap.{
  BTreeMap, lookup, update, known, known-update, sum_by, sum_by-update, le-sum_by, map-update,
}
use libra_v.Genesis.CommWallet.{
  WalletState, ReceiptsResourceV7, AllCommWallets, DonorReceipts, Walk, deposit, push_new, visit,
  walk, update_list, update_cw_with_donor,
}

abbrev pub audit : {p : Platform} → WalletState p → ℕ
audit w = w.audit_deposits_with_receipts

-- A wallet without its audit and its depositors.
abbrev pub ledger : {p : Platform} → p.AccountAddress × WalletState p → p.AccountAddress × ℕ × ℕ
ledger (a, w) = (a, w.cumulative_value, w.cumulative_index)

get_elem?-lt : (xs : List ℕ) (i : ℕ) → i < length xs → get_elem? xs i ≡ some (get_or xs i 0)
get_elem?-lt [] i h = elim h [ ]
get_elem?-lt (x ∷ xs) zero h = refl
get_elem?-lt (x ∷ xs) (suc i) h = get_elem?-lt xs i (omega arith)

module _ (p : Platform) (is_cw : p.AccountAddress → Bool) where
  -- The values of the receipts from the `i`-th destination on that go to community wallets.
  abbrev pub credited : List ℕ → ℕ → List p.AccountAddress → ℕ
  credited cumulative i [] = 0
  credited cumulative i (d ∷ ds) =
      (if is_cw d then get_or cumulative i 0 else 0) + credited cumulative (suc i) ds

  -- `s'` is the state after the destinations `ds`.
  record Walked (s s' : Walk p) (value : ℕ) (ds : List p.AccountAddress) : Type 0 where
    keys : (a : p.AccountAddress) → known p s'.wallets a ≡ is_cw a
    audits : sum_by p audit s'.wallets ≡ sum_by p audit s.wallets + value
    ledgers : map ledger s'.wallets ≡ map ledger s.wallets
    missing : s'.not_found ≡ s.not_found ++ retain (λ a. not (is_cw a)) ds

  abbrev share : List ℕ → ℕ → p.AccountAddress → ℕ
  share cumulative i d = if is_cw d then get_or cumulative i 0 else 0

  abbrev hit : p.AccountAddress → p.AccountAddress → ℕ → WalletState p → Walk p → Walk p
  hit donor d value w s = record s { wallets = update p d (deposit p donor value w) s.wallets }

  hit-Walked :
      (donor d : p.AccountAddress) (value : ℕ) (w : WalletState p) (s : Walk p)
      → ((a : p.AccountAddress) → known p s.wallets a ≡ is_cw a)
      → lookup p d s.wallets ≡ some w
      → is_cw d ≡ true
      → sum_by p audit s.wallets + value < 2 ^ 64
      → Walked s (hit donor d value w s) value (d ∷ [])
  hit-Walked donor d value w s keys found is small = record {
    keys = λ a. known-update p d a (deposit p donor value w) s.wallets ∙ keys a;
    audits = omega (
      arith,
      sum_by-update p audit d (deposit p donor value w) w s.wallets found,
      le-sum_by p audit d w s.wallets found,
    );
    ledgers = map-update p ledger d (deposit p donor value w) w s.wallets found (λ j. refl);
    missing = ground (arith, append-nil s.not_found);
  }

  miss_Walked :
      (d : p.AccountAddress) (s : Walk p) (not_cw : List p.AccountAddress)
      → ((a : p.AccountAddress) → known p s.wallets a ≡ is_cw a)
      → is_cw d ≡ false
      → Walked s (record s { not_cw = not_cw; not_found = s.not_found ++ d ∷ [] }) 0 (d ∷ [])
  miss_Walked d s not_cw keys is = record {
    keys = keys;
    audits = omega arith;
    ledgers = refl;
    missing = ground arith;
  }

  visit-Walked :
      (donor d : p.AccountAddress) (cumulative : List ℕ) (i : ℕ) (s : Walk p)
      → ((a : p.AccountAddress) → known p s.wallets a ≡ is_cw a)
      → i < length cumulative
      → sum_by p audit s.wallets + share cumulative i d < 2 ^ 64
      → (s' : Walk p) × (visit p donor cumulative i d s (lookup p d s.wallets) ≡ ok s')
        × Walked s s' (share cumulative i d) (d ∷ [])
  unfolding visit
  visit-Walked donor d cumulative i s keys inside small =
      elim (Option-cases (lookup p d s.wallets)) [
        | inl gone ↦
            let is : is_cw d ≡ false = ground (arith, keys d) in
            (
              record s { not_cw = push_new p s.not_cw d; not_found = s.not_found ++ d ∷ [] },
              rw gone,
              rw is (miss_Walked d s (push_new p s.not_cw d) keys is),
            )
        | inr (w, found) ↦
            let is : is_cw d ≡ true = ground (arith, keys d) in
            let value = get_or cumulative i 0 in
            (
              hit donor d value w s,
              rw (found, get_elem?-lt cumulative i inside),
              rw is (hit-Walked donor d value w s keys found is (ground arith)),
            )
      ]

  Walked-trans :
      {s t u : Walk p} {m n : ℕ} {d : p.AccountAddress} {ds : List p.AccountAddress}
      → Walked s t m (d ∷ [])
      → Walked t u n ds
      → Walked s u (m + n) (d ∷ ds)
  Walked-trans {s} {t} {u} {d = d} {ds = ds} h k = record {
    keys = k.keys;
    audits = omega (arith, h.audits, k.audits);
    ledgers = k.ledgers ∙ h.ledgers;
    missing =
        let absent = λ (xs : List p.AccountAddress). retain (λ a. not (is_cw a)) xs in
        k.missing
        ∙ ap (λ x. x ++ absent ds) h.missing
        ∙ append_assoc s.not_found (absent (d ∷ [])) (absent ds)
        ∙ ap (λ x. s.not_found ++ x) (retain-cons (λ a. not (is_cw a)) d ds);
  }

  walk-Walked :
      (donor : p.AccountAddress) (cumulative : List ℕ) (i : ℕ) (ds : List p.AccountAddress)
      (s : Walk p)
      → ((a : p.AccountAddress) → known p s.wallets a ≡ is_cw a)
      → i + length ds ≤ length cumulative
      → sum_by p audit s.wallets + credited cumulative i ds < 2 ^ 64
      → (s' : Walk p) × (walk p donor cumulative i ds s ≡ ok s')
        × Walked s s' (credited cumulative i ds) ds
  unfolding walk
  walk-Walked donor cumulative i [] s keys long small = (
    s,
    refl,
    record { keys = keys; audits = omega arith; ledgers = refl; missing = rw append-nil },
  )
  walk-Walked donor cumulative i (d ∷ ds) s keys long small =
      let (t, first, ht) = visit-Walked donor d cumulative i s keys (omega arith) (omega arith) in
      let (u, rest, hu) =
        walk-Walked donor cumulative (suc i) ds t ht.keys (omega arith)
          (omega (arith, ht.audits)) in
      (u, rw first rest, Walked-trans ht hu)

  abbrev pub all_credited : BTreeMap p (ReceiptsResourceV7 p) → ℕ
  all_credited [] = 0
  all_credited ((donor, r) ∷ rest) = credited r.cumulative 0 r.destination + all_credited rest

  -- Every destination of a receipt has a cumulative value.
  abbrev pub IsComplete : p.AccountAddress × ReceiptsResourceV7 p → Type 0
  IsComplete (donor, r) = length r.destination ≤ length r.cumulative

  abbrev pub reported :
      p.AccountAddress × ReceiptsResourceV7 p → p.AccountAddress × List p.AccountAddress
  reported (donor, r) = (donor, r.audit_not_found)

  abbrev pub absent :
      p.AccountAddress × ReceiptsResourceV7 p → p.AccountAddress × List p.AccountAddress
  absent (donor, r) = (donor, retain (λ a. not (is_cw a)) r.destination)

  -- What the update of the wallets by the donors has done.
  pub record Credited (donors donors' : BTreeMap p (ReceiptsResourceV7 p))
      (wallets wallets' : BTreeMap p (WalletState p)) : Type 0 where
    pub audits : sum_by p audit wallets' ≡ sum_by p audit wallets + all_credited donors
    pub ledgers : map ledger wallets' ≡ map ledger wallets
    pub reports : map reported donors' ≡ map absent donors

  update_list-Credited :
      (donors : BTreeMap p (ReceiptsResourceV7 p)) (wallets : BTreeMap p (WalletState p))
      (not_cw : List p.AccountAddress)
      → ((a : p.AccountAddress) → known p wallets a ≡ is_cw a)
      → All IsComplete donors
      → sum_by p audit wallets + all_credited donors < 2 ^ 64
      → (donors' : BTreeMap p (ReceiptsResourceV7 p)) × (wallets' : BTreeMap p (WalletState p))
        × (not_cw' : List p.AccountAddress) × (update_list p donors wallets not_cw
            ≡ ok (donors', wallets', not_cw'))
        × Credited donors donors' wallets wallets'
  unfolding update_list
  update_list-Credited [] wallets not_cw keys complete small =
      ([], wallets, not_cw, refl, record { audits = omega arith; ledgers = refl; reports = refl })
  update_list-Credited ((donor, r) ∷ rest) wallets not_cw keys (long, complete) small =
      let start : Walk p = record { wallets = wallets; not_cw = not_cw; not_found = [] } in
      let (s, walked, hs) =
        walk-Walked donor r.cumulative 0 r.destination start keys (omega arith) (omega arith) in
      let (rest', wallets', not_cw', updated, hu) =
        update_list-Credited rest s.wallets s.not_cw hs.keys complete (omega (arith, hs.audits)) in
      (
        (donor, record r { audit_not_found = s.not_found }) ∷ rest',
        wallets',
        not_cw',
        rw walked (rw updated),
        record {
          audits = omega (arith, hs.audits, hu.audits);
          ledgers = hu.ledgers ∙ hs.ledgers;
          reports = ap₂ (λ x xs. (donor, x) ∷ xs) hs.missing hu.reports;
        },
      )

module _ (p : Platform) where
  -- If every receipt has a value for each of its destinations, and all audited deposits together fit
  -- a u64, the update returns. The audits of the wallets then grow by exactly the values of the
  -- receipts that go to a community wallet, all other numbers of the wallets and the total of the
  -- deposits stay, and every donor is reported with its destinations that are no community wallet,
  -- in their order.
  pub update_cw_with_donor_conserves :
      (cw : AllCommWallets p) (donors : DonorReceipts p)
      → All (IsComplete p (known p cw.list)) donors.list
      → sum_by p audit cw.list + all_credited p (known p cw.list) donors.list < 2 ^ 64
      → (cw' : AllCommWallets p) × (donors' : DonorReceipts p) × (update_cw_with_donor p cw donors
          ≡ ok (cw', donors'))
        × Credited p (known p cw.list) donors.list donors'.list cw.list cw'.list
        × (cw'.total_deposits ≡ cw.total_deposits)
  unfolding update_cw_with_donor
  update_cw_with_donor_conserves cw donors complete small =
      let (list, wallets, not_cw, updated, h) =
        update_list-Credited p (known p cw.list) donors.list cw.list donors.audit_not_cw (λ a. refl)
          complete small in
      (
        record cw { list = wallets },
        record donors { list = list; audit_not_cw = not_cw },
        rw updated,
        h,
        refl,
      )
