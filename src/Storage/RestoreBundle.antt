-- ===== src/Storage/RestoreBundle.antt =====
-- tools/storage/src/restore_bundle.rs: the search for the manifests of an epoch. The file system is
-- a record of operations: the paths that the crate glob finds, and the manifests that are read and
-- parsed. Logging is left out, and so is the bundle that an operation with an error leaves behind.
pub mod Search
pub mod Load
use libra_v.Prelude.{
  ℕ, Option, none, some, List, [], ◌∷◌, Bool, ◌&&◌, Text, ltb, if◌then◌else◌, Result, ok, err,
  ◌>>=◌,
}

-- What stops a search: a pattern, a file or a manifest that cannot be read, the two assertions, and
-- the two errors of a transaction manifest.
pub data StorageError : Type 0 where
  bad_pattern bad_manifest : StorageError
  no_epoch_manifest version_not_set : StorageError
  bundle_too_old bundle_too_new : StorageError

pub record Waypoint : Type 0 where
  pub version : ℕ
  pub value : Text

pub record EpochEndingBackup : Type 0 where
  pub first_epoch : ℕ
  pub waypoints : List Waypoint

pub record TransactionBackup : Type 0 where
  pub first_version : ℕ
  pub last_version : ℕ

pub record Files : Type 0 where
  pub exists : Text → Bool
  -- the order of paths
  pub path_lt : Text → Text → Bool
  -- the readable paths of the patterns, whose gaps are the directory, the epoch and the version
  pub epoch_ending : Text → Result StorageError (List Text)
  pub epoch_ending_of : Text → ℕ → Result StorageError (List Text)
  pub state_epoch : Text → ℕ → ℕ → Result StorageError (List Text)
  pub transactions : Text → Result StorageError (List Text)
  pub read_epoch : Text → Result StorageError EpochEndingBackup
  pub read_transaction : Text → Result StorageError TransactionBackup

pub record RestoreBundle : Type 0 where
  pub restore_bundle_dir : Text
  pub epoch : ℕ
  pub version : ℕ
  pub waypoint : Option Waypoint
  pub epoch_manifest : Text
  pub snapshot_manifest : Text
  pub transaction_manifest : Text

abbrev pub new_bundle : Text → RestoreBundle
new_bundle restore_bundle_dir = record {
  restore_bundle_dir = restore_bundle_dir;
  epoch = 0;
  version = 0;
  waypoint = none;
  epoch_manifest = [];
  snapshot_manifest = [];
  transaction_manifest = [];
}

-- `Vec::pop` of a copy.
abbrev pub last {ℓ} : {A : Type ℓ} → List A → Option A
last [] = none
last (x ∷ []) = some x
last (x ∷ y ∷ xs) = last (y ∷ xs)

abbrev pub head {ℓ} : {A : Type ℓ} → List A → Option A
head [] = none
head (x ∷ xs) = some x

module _ (fs : Files) where
  -- `Iterator::max`, the last of the greatest paths.
  unfoldable pub max_from : Text → List Text → Text
  max_from best [] = best
  max_from best (x ∷ xs) = max_from (if fs.path_lt x best then best else x) xs

  unfoldable pub max_path : List Text → Option Text
  unfolding max_from
  max_path [] = none
  max_path (x ∷ xs) = some (max_from x xs)

  unfoldable pub is_loaded : RestoreBundle → Bool
  is_loaded self =
      ltb 0 self.epoch
      && ltb 0 self.version
      && fs.exists self.epoch_manifest
      && fs.exists self.snapshot_manifest
      && fs.exists self.transaction_manifest

  -- The body of `if let Some(p)` in `any_epoch_manifest`.
  abbrev pub use_epoch : RestoreBundle → Option Text → Result StorageError RestoreBundle
  use_epoch self none = ok self
  use_epoch self (some p) = do
    manifest ← fs.read_epoch p
    ok (record self {
      epoch_manifest = p;
      epoch = manifest.first_epoch;
      waypoint = last manifest.waypoints;
    })

  unfoldable pub any_epoch_manifest : RestoreBundle → Result StorageError RestoreBundle
  unfolding max_path
  any_epoch_manifest self = do
    file_list ← fs.epoch_ending self.restore_bundle_dir
    use_epoch self (max_path file_list)

  abbrev pub with_epoch_manifest : RestoreBundle → Option Text → RestoreBundle
  with_epoch_manifest self none = self
  with_epoch_manifest self (some p) = record self { epoch_manifest = p }

  unfoldable pub specific_epoch_manifest : RestoreBundle → ℕ → Result StorageError RestoreBundle
  unfolding max_path
  specific_epoch_manifest self epoch = do
    file_list ← fs.epoch_ending_of self.restore_bundle_dir epoch
    ok (with_epoch_manifest self (max_path file_list))

  abbrev pub with_version : RestoreBundle → ℕ → Option Waypoint → RestoreBundle
  with_version self first_epoch none = self
  with_version self first_epoch (some wp) = record self {
    version = wp.version;
    epoch = first_epoch;
  }

  -- An assertion.
  abbrev pub assert {ℓ} :
      {A : Type ℓ} → Bool → StorageError → Result StorageError A → Result StorageError A
  assert test e m = if test then m else err e

  unfoldable pub set_version : RestoreBundle → Result StorageError RestoreBundle
  set_version self = assert (fs.exists self.epoch_manifest) no_epoch_manifest (do
    manifest ← fs.read_epoch self.epoch_manifest
    ok (with_version self manifest.first_epoch (head manifest.waypoints)))

  abbrev pub with_snapshot : RestoreBundle → Option Text → RestoreBundle
  with_snapshot self none = self
  with_snapshot self (some p) = record self { snapshot_manifest = p }

  unfoldable pub search_snapshot_manifest : RestoreBundle → Result StorageError RestoreBundle
  unfolding max_path
  search_snapshot_manifest self = assert (fs.exists self.epoch_manifest) no_epoch_manifest (
      assert (ltb 0 self.version) version_not_set (do
        file_list ← fs.state_epoch self.restore_bundle_dir self.epoch self.version
        ok (with_snapshot self (max_path file_list))))

  unfoldable pub verify_valid_transaction_list : Text → ℕ → Result StorageError (Unit {0})
  verify_valid_transaction_list transaction_manifest version = do
    tm ← fs.read_transaction transaction_manifest
    (if ltb tm.last_version version
        then err bundle_too_old
        else if ltb version tm.first_version
        then err bundle_too_new
        else ok tt)

  -- The loop over the entries; every valid one overwrites.
  unfoldable pub pick_transaction : RestoreBundle → List Text → RestoreBundle
  unfolding verify_valid_transaction_list
  pick_transaction self [] = self
  pick_transaction self (entry ∷ file_list) =
      elim (verify_valid_transaction_list entry self.version) [
        | err e ↦ pick_transaction self file_list
        | ok u ↦ pick_transaction (record self { transaction_manifest = entry }) file_list
      ]

  unfoldable pub search_transaction_manifest : RestoreBundle → Result StorageError RestoreBundle
  unfolding pick_transaction
  search_transaction_manifest self = assert (fs.exists self.epoch_manifest) no_epoch_manifest (
      assert (ltb 0 self.version) version_not_set (do
        file_list ← fs.transactions self.restore_bundle_dir
        ok (pick_transaction self file_list)))

  unfoldable pub load : RestoreBundle → Result StorageError RestoreBundle
  unfolding any_epoch_manifest set_version search_snapshot_manifest search_transaction_manifest
  load self = do
    s1 ← any_epoch_manifest self
    s2 ← set_version s1
    s3 ← search_snapshot_manifest s2
    search_transaction_manifest s3
