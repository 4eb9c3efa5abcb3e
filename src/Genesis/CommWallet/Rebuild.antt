-- ===== src/Genesis/CommWallet/Rebuild.antt =====
-- `rebuild_cw_cumu_deposits` and `prepare_cw_and_receipts` of tools/genesis/src/process_comm_wallet.rs.
use libra_v.Prelude.{
  ℕ, ◌+◌, ◌%◌, ◌<◌, ◌^◌, ◌≡◌, refl, Option, none, some, List, [], ◌∷◌, ok, All, arith, Option-cases,
  ◌∙◌, subst, ok-injective, err≢ok, inl, inr,
}
use libra_v.Platform.{Platform}
use libra_v.Types.Resources.{CumulativeDepositResource}
use libra_v.Compat.LegacyRecovery.{LegacyRecoveryV6}
use libra_v.Genesis.BTreeMap.{BTreeMap, insert, known, sum_by}
use libra_v.Genesis.CommWallet.{
  WalletState, AllCommWallets, DonorReceipts, u64, cast_wallet, cw_list, rebuild_donor_receipts,
  rebuild_cw_cumu_deposits, prepare_cw_and_receipts,
}
use libra_v.Genesis.CommWallet.Conserve.{
  audit, all_credited, Credited, IsComplete, update_cw_with_donor_conserves,
}

abbrev pub value_of : {p : Platform} → Option (CumulativeDepositResource p) → ℕ
value_of none = 0
value_of (some cd) = cd.value

-- The deposits that the records of the file name.
abbrev pub deposits : {p : Platform} → List (LegacyRecoveryV6 p) → ℕ
deposits [] = 0
deposits (e ∷ recovery) = value_of e.cumulative_deposits + deposits recovery

module _ (p : Platform) where
  audit-insert :
      (a : p.AccountAddress) (w : WalletState p) (m : BTreeMap p (WalletState p))
      → audit w ≡ 0
      → sum_by p audit m ≡ 0
      → sum_by p audit (insert p a w m) ≡ 0
  unfolding insert
  audit-insert a w [] hw hm = omega arith
  audit-insert a w ((b, v) ∷ m) hw hm = ground (arith, audit-insert a w m hw)

  -- A list of wallets without audits whose total of deposits is a u64.
  record IsFresh (cw : AllCommWallets p) (total : ℕ) : Type 0 where
    pub audits : sum_by p audit cw.list ≡ 0
    pub total_u64 : cw.total_deposits ≡ total % 2 ^ 64

  cw_list-IsFresh :
      (recovery : List (LegacyRecoveryV6 p)) (cw cw' : AllCommWallets p) (total : ℕ)
      → IsFresh cw total
      → cw_list p recovery cw ≡ ok cw'
      → IsFresh cw' (total + deposits recovery)
  unfolding cw_list
  cw_list-IsFresh [] cw cw' total fresh h =
      subst (λ x. IsFresh x (total + 0)) (ok-injective h)
        (record { audits = fresh.audits; total_u64 = omega (arith, fresh.total_u64) })
  cw_list-IsFresh (e ∷ recovery) cw cw' total fresh h = elim (Option-cases e.cumulative_deposits) [
    | inl missing ↦
        let same : total + deposits recovery ≡ total + (0 + deposits recovery) = omega arith in
        rw (missing, ← same) (cw_list-IsFresh recovery cw cw' total fresh (rw missing at h))
    | inr (cd, found) ↦ elim (Option-cases e.account) [
      | inl absent ↦ absurd (err≢ok (rw (found, absent) at h))
      | inr (a, here) ↦
          let next : AllCommWallets p = record {
            list = insert p a (cast_wallet p cd) cw.list;
            total_deposits = u64 (cw.total_deposits + cd.value);
          } in
          let fresh' : IsFresh next (total + cd.value) = record {
            audits = audit-insert a (cast_wallet p cd) cw.list refl fresh.audits;
            total_u64 = omega (arith, fresh.total_u64);
          } in
          let same : total + cd.value + deposits recovery ≡ total + (cd.value + deposits recovery) =
            omega arith in
          rw (found, ← same)
            (cw_list-IsFresh recovery next cw' (total + cd.value) fresh' (rw (found, here) at h))
    ]
  ]

  rebuilt-IsFresh :
      (recovery : List (LegacyRecoveryV6 p)) (cw : AllCommWallets p)
      → rebuild_cw_cumu_deposits p recovery ≡ ok cw
      → IsFresh cw (deposits recovery)
  unfolding rebuild_cw_cumu_deposits
  rebuilt-IsFresh recovery cw h =
      let start : 0 + deposits recovery ≡ deposits recovery = omega arith in
      rw (← start) (
        cw_list-IsFresh recovery (record { list = []; total_deposits = 0 }) cw 0
          (record { audits = refl; total_u64 = omega arith }) h)

  -- If both rebuilds of the file return, every rebuilt receipt has a value for each destination and
  -- the values that go to community wallets fit a u64 together, then the preparation returns: the
  -- audits of the wallets add up to exactly these values, the other numbers of the wallets and the
  -- order of the donors are the rebuilt ones, each donor is reported with its destinations that are
  -- no community wallet, and the total of the deposits is the sum of the file modulo 2 ^ 64.
  pub prepare_cw_and_receipts_conserves :
      (recovery : List (LegacyRecoveryV6 p)) (dr : DonorReceipts p) (cw : AllCommWallets p)
      → rebuild_donor_receipts p recovery ≡ ok dr
      → rebuild_cw_cumu_deposits p recovery ≡ ok cw
      → All (IsComplete p (known p cw.list)) dr.list
      → all_credited p (known p cw.list) dr.list < 2 ^ 64
      → (dr' : DonorReceipts p) × (cw' : AllCommWallets p) × (prepare_cw_and_receipts p recovery
          ≡ ok (dr', cw'))
        × (sum_by p audit cw'.list ≡ all_credited p (known p cw.list) dr.list)
        × Credited p (known p cw.list) dr.list dr'.list cw.list cw'.list
        × (cw'.total_deposits ≡ deposits recovery % 2 ^ 64)
  unfolding prepare_cw_and_receipts
  prepare_cw_and_receipts_conserves recovery dr cw donors wallets complete small =
      let fresh = rebuilt-IsFresh recovery cw wallets in
      let (cw', dr', updated, credited, total) =
        update_cw_with_donor_conserves p cw dr complete (omega (arith, fresh.audits)) in
      (
        dr',
        cw',
        rw (donors, wallets, updated) refl,
        omega (arith, fresh.audits, credited.audits),
        credited,
        total ∙ fresh.total_u64,
      )
