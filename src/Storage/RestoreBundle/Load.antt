-- ===== src/Storage/RestoreBundle/Load.antt =====
-- What `load` of tools/storage/src/restore_bundle.rs makes sure of.
use libra_v.Prelude.{
  ℕ, ◌<◌, ◌≡◌, refl, ap, sym, ◌∙◌, subst, ◌⊎◌, inl, inr, Option, none, some, true, Text, ok,
  >>=-eq-ok, ok-injective, arith,
}
use libra_v.Storage.RestoreBundle.{
  EpochEndingBackup, Waypoint, Files, RestoreBundle, no_epoch_manifest, use_epoch, max_path,
  any_epoch_manifest, set_version, with_version, search_snapshot_manifest, load, head,
}
use libra_v.Storage.RestoreBundle.Search.{Covers, asserted, transaction-Picked, snapshot-Snapped}

module _ (fs : Files) where
  -- The epoch and the version are those of the manifest, where it has a waypoint.
  abbrev pub FromManifest : RestoreBundle → EpochEndingBackup → Option Waypoint → Type 0
  FromManifest s manifest none = Unit
  FromManifest s manifest (some wp) = (s.version ≡ wp.version) × (s.epoch ≡ manifest.first_epoch)

  from_manifest :
      (s : RestoreBundle) (manifest : EpochEndingBackup) (wp : Option Waypoint)
      → FromManifest (with_version fs s manifest.first_epoch wp) manifest wp
        × ((with_version fs s manifest.first_epoch wp).epoch_manifest ≡ s.epoch_manifest)
        × ((with_version fs s manifest.first_epoch wp).transaction_manifest
            ≡ s.transaction_manifest)
  from_manifest s manifest none = (tt, refl, refl)
  from_manifest s manifest (some wp) = ((refl, refl), refl, refl)

  use_epoch_keeps :
      (s s' : RestoreBundle) (found : Option Text)
      → use_epoch fs s found ≡ ok s'
      → s'.transaction_manifest ≡ s.transaction_manifest
  use_epoch_keeps s s' none h = ground arith
  use_epoch_keeps s s' (some path) h =
      let (manifest, read, h') = >>=-eq-ok (fs.read_epoch path) _ h in
      ap (λ (x : RestoreBundle). x.transaction_manifest) (sym (ok-injective h'))

  any_epoch_keeps :
      (s s' : RestoreBundle)
      → any_epoch_manifest fs s ≡ ok s'
      → s'.transaction_manifest ≡ s.transaction_manifest
  unfolding any_epoch_manifest
  any_epoch_keeps s s' h =
      let (files, found, h') = >>=-eq-ok (fs.epoch_ending s.restore_bundle_dir) _ h in
      use_epoch_keeps s s' (max_path fs files) h'

  -- What a bundle that was loaded from `s` satisfies.
  pub record IsChecked (s s' : RestoreBundle) : Type 0 where
    pub exists : fs.exists s'.epoch_manifest ≡ true
    pub positive : 0 < s'.version
    pub manifest : EpochEndingBackup
    pub reads : fs.read_epoch s'.epoch_manifest ≡ ok manifest
    pub from : FromManifest s' manifest (head manifest.waypoints)
    pub transactions :
        (s'.transaction_manifest ≡ s.transaction_manifest)
        ⊎ Covers fs s'.transaction_manifest s'.version

  from_same :
      (s s' : RestoreBundle) (manifest : EpochEndingBackup) (wp : Option Waypoint)
      → s'.version ≡ s.version
      → s'.epoch ≡ s.epoch
      → FromManifest s manifest wp
      → FromManifest s' manifest wp
  from_same s s' manifest none hv he h = tt
  from_same s s' manifest (some wp) hv he (version, epoch) = (hv ∙ version, he ∙ epoch)

  versioned :
      (s s' : RestoreBundle)
      → set_version fs s ≡ ok s'
      → (manifest : EpochEndingBackup) × (fs.read_epoch s'.epoch_manifest ≡ ok manifest)
        × FromManifest s' manifest (head manifest.waypoints)
        × (s'.transaction_manifest ≡ s.transaction_manifest)
  unfolding set_version
  versioned s s' h =
      let (there, h1) = asserted fs (fs.exists s.epoch_manifest) no_epoch_manifest _ h in
      let (manifest, read, h2) = >>=-eq-ok (fs.read_epoch s.epoch_manifest) _ h1 in
      let (from, same, kept) = from_manifest s manifest (head manifest.waypoints) in
      let (reads, set, keeps) =
        subst
          (λ x.
            (fs.read_epoch x.epoch_manifest ≡ ok manifest)
            × FromManifest x manifest (head manifest.waypoints)
            × (x.transaction_manifest ≡ s.transaction_manifest))
          (ok-injective h2) (rw same read, from, kept) in
      (manifest, reads, set, keeps)

  transactions_from :
      {t t' : Text} {v v' : ℕ} (path : Text)
      → t ≡ t'
      → v ≡ v'
      → (path ≡ t) ⊎ Covers fs path v
      → (path ≡ t') ⊎ Covers fs path v'
  transactions_from path ht hv (inl same) = inl (same ∙ ht)
  transactions_from path ht hv (inr covers) = inr (subst (Covers fs path) hv covers)

  -- If the load returns, the manifest of the epoch exists, the version is positive and, with the
  -- epoch, that of the first waypoint of this manifest, where it has one; and the manifest of the
  -- transactions is the one from before the load or includes the version.
  pub load-IsChecked : (s s' : RestoreBundle) → load fs s ≡ ok s' → IsChecked s s'
  unfolding load
  load-IsChecked s s' h =
      let (s1, any, h1) = >>=-eq-ok (any_epoch_manifest fs s) _ h in
      let (s2, set, h2) = >>=-eq-ok (set_version fs s1) _ h1 in
      let (s3, snapshot, h3) = >>=-eq-ok (search_snapshot_manifest fs s2) _ h2 in
      let (manifest, read, from, kept) = versioned s1 s2 set in
      let hs = snapshot-Snapped fs s2 s3 snapshot in
      let ht = transaction-Picked fs s3 s' h3 in
      let same_manifest = ht.epoch_manifest ∙ hs.epoch_manifest in
      let same_version = ht.version ∙ hs.version in
      record {
        exists = ap fs.exists same_manifest ∙ hs.exists;
        positive = omega (arith, same_version, hs.positive);
        manifest = manifest;
        reads = ap fs.read_epoch same_manifest ∙ read;
        from =
            from_same s2 s' manifest (head manifest.waypoints) same_version (ht.epoch ∙ hs.epoch)
              from;
        transactions =
            transactions_from s'.transaction_manifest
              (hs.transaction_manifest ∙ kept ∙ any_epoch_keeps s s1 any) (sym ht.version)
              ht.picked;
      }
