-- ===== src/Storage/RestoreBundle/Search.antt =====
-- The searches for the manifests in tools/storage/src/restore_bundle.rs.
use libra_v.Prelude.{
  ℕ, ◌<◌, ◌≤◌, ◌≡◌, refl, sym, subst, ◌⊎◌, inl, inr, Option, none, some, List, [], ◌∷◌, Bool, true,
  false, Text, ltb, Result, ok, >>=-eq-ok, ok-injective, arith, Result-cases,
}
use libra_v.Storage.RestoreBundle.{
  StorageError, TransactionBackup, Files, RestoreBundle, assert, no_epoch_manifest, version_not_set,
  max_path, with_snapshot, search_snapshot_manifest, verify_valid_transaction_list,
  pick_transaction, search_transaction_manifest,
}

module _ (fs : Files) where
  -- The transactions of a manifest include the version.
  abbrev pub Covers : Text → ℕ → Type 0
  Covers path version =
      (tm : TransactionBackup) × (fs.read_transaction path ≡ ok tm)
      × (tm.first_version ≤ version)
      × (version ≤ tm.last_version)

  verified :
      (path : Text) (version : ℕ)
      → verify_valid_transaction_list fs path version ≡ ok tt
      → Covers path version
  unfolding verify_valid_transaction_list
  verified path version h = elim (Result-cases (fs.read_transaction path)) [
    | inl (e, fails) ↦ ground arith
    | inr (tm, found) ↦ (tm, found, ground arith, ground arith)
  ]

  -- Only the transaction manifest changes, and only to one that covers the version.
  pub record Picked (s s' : RestoreBundle) : Type 0 where
    pub version : s'.version ≡ s.version
    pub epoch : s'.epoch ≡ s.epoch
    pub epoch_manifest : s'.epoch_manifest ≡ s.epoch_manifest
    pub picked :
        (s'.transaction_manifest ≡ s.transaction_manifest)
        ⊎ Covers s'.transaction_manifest s.version

  Covers-either :
      (entry t : Text) (version : ℕ)
      → Covers entry version
      → (t ≡ entry) ⊎ Covers t version
      → Covers t version
  Covers-either entry t version covers (inl same) = subst (λ x. Covers x version) (sym same) covers
  Covers-either entry t version covers (inr other) = other

  pick-Picked : (files : List Text) (s : RestoreBundle) → Picked s (pick_transaction fs s files)
  unfolding pick_transaction
  pick-Picked [] s = record {
    version = refl;
    epoch = refl;
    epoch_manifest = refl;
    picked = inl refl;
  }
  pick-Picked (entry ∷ files) s =
      elim (Result-cases (verify_valid_transaction_list fs entry s.version)) [
        | inl (e, invalid) ↦ rw (invalid, pick_transaction) (pick-Picked files s)
        | inr (u, valid) ↦
            let rest = pick-Picked files (record s { transaction_manifest = entry }) in
            rw (valid, pick_transaction)
              (record {
                version = rest.version;
                epoch = rest.epoch;
                epoch_manifest = rest.epoch_manifest;
                picked =
                    inr (
                      Covers-either entry _ s.version (verified entry s.version valid) rest.picked);
              })
      ]

  pub asserted :
      {A : Type 0} (test : Bool) (e : StorageError) (m : Result StorageError A) {a : A}
      → assert fs test e m ≡ ok a
      → (test ≡ true) × (m ≡ ok a)
  asserted true e m h = (refl, h)
  asserted false e m h = cc

  pub transaction-Picked :
      (s s' : RestoreBundle) → search_transaction_manifest fs s ≡ ok s' → Picked s s'
  unfolding search_transaction_manifest
  transaction-Picked s s' h =
      let (there, h1) = asserted (fs.exists s.epoch_manifest) no_epoch_manifest _ h in
      let (positive, h2) = asserted (ltb 0 s.version) version_not_set _ h1 in
      let (files, found, h3) = >>=-eq-ok (fs.transactions s.restore_bundle_dir) _ h2 in
      subst (Picked s) (ok-injective h3) (pick-Picked files s)

  -- The search for the snapshot needs the manifest and the version, and changes neither.
  pub record Snapped (s s' : RestoreBundle) : Type 0 where
    pub exists : fs.exists s.epoch_manifest ≡ true
    pub positive : 0 < s.version
    pub version : s'.version ≡ s.version
    pub epoch : s'.epoch ≡ s.epoch
    pub epoch_manifest : s'.epoch_manifest ≡ s.epoch_manifest
    pub transaction_manifest : s'.transaction_manifest ≡ s.transaction_manifest

  snapped :
      (s : RestoreBundle) (found : Option Text)
      → fs.exists s.epoch_manifest ≡ true
      → 0 < s.version
      → Snapped s (with_snapshot fs s found)
  snapped s none there positive = record {
    exists = there;
    positive = positive;
    version = refl;
    epoch = refl;
    epoch_manifest = refl;
    transaction_manifest = refl;
  }
  snapped s (some path) there positive = record {
    exists = there;
    positive = positive;
    version = refl;
    epoch = refl;
    epoch_manifest = refl;
    transaction_manifest = refl;
  }

  pub snapshot-Snapped :
      (s s' : RestoreBundle) → search_snapshot_manifest fs s ≡ ok s' → Snapped s s'
  unfolding search_snapshot_manifest
  snapshot-Snapped s s' h =
      let (there, h1) = asserted (fs.exists s.epoch_manifest) no_epoch_manifest _ h in
      let (positive, h2) = asserted (ltb 0 s.version) version_not_set _ h1 in
      let (files, found, h3) =
        >>=-eq-ok (fs.state_epoch s.restore_bundle_dir s.epoch s.version) _ h2 in
      subst (Snapped s) (ok-injective h3) (snapped s (max_path fs files) there (ground arith))
