-- ===== src/Tests/Storage.antt =====
-- The load of a restore bundle from a small file system.
use libra_v.Prelude.{some, [], ◌∷◌, ◌≡◌, refl, ok, codes, true, text_eq, if◌then◌else◌}
use libra_v.Storage.RestoreBundle.{
  Files, RestoreBundle, new_bundle, any_epoch_manifest, set_version, search_snapshot_manifest,
  search_transaction_manifest, pick_transaction, verify_valid_transaction_list, max_path, max_from,
  load,
}
use libra_v.Storage.RestoreBundle.Load.{IsChecked, load-IsChecked}

-- One epoch, and two archives of transactions, of which the second is the right one.
abbrev files : Files
files = record {
  exists = λ path. true;
  path_lt = λ a b. true;
  epoch_ending = λ dir. ok (codes "epoch" ∷ []);
  epoch_ending_of = λ dir epoch. ok [];
  state_epoch = λ dir epoch version. ok (codes "state" ∷ []);
  transactions = λ dir. ok (codes "old" ∷ codes "new" ∷ []);
  read_epoch = λ path.
      ok (record { first_epoch = 116; waypoints = record { version = 38; value = [] } ∷ [] });
  read_transaction = λ path. ok (
      if text_eq path (codes "old")
      then record { first_version = 0; last_version = 20 }
      else record { first_version = 21; last_version = 40 });
}

abbrev start : RestoreBundle
start = new_bundle (codes "dir")

abbrev loaded : RestoreBundle
loaded = record start {
  epoch = 116;
  version = 38;
  waypoint = some (record { version = 38; value = [] });
  epoch_manifest = codes "epoch";
  snapshot_manifest = codes "state";
  transaction_manifest = codes "new";
}

loads : load files start ≡ ok loaded
unfolding load any_epoch_manifest set_version search_snapshot_manifest search_transaction_manifest
    pick_transaction verify_valid_transaction_list max_path max_from
loads = refl

load-IsChecked_example : IsChecked files start loaded
load-IsChecked_example = load-IsChecked files start loaded loads
