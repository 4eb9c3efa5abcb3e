-- ===== src/Tests/Network.antt =====
-- A refresh of a playlist and the choice of a node on a small input.
use mathlib.Core.List.{Perm}
use mathlib.Core.List.Perm
use libra_v.Prelude.{
  ℕ, some, List, [], ◌∷◌, Option, ◌≡◌, refl, map, codes, text_eq, if◌then◌else◌, ok, Text,
}
use libra_v.Types.Playlist.{
  HostProfile, NetworkPlaylist, new_host, rms, refresh_sync_status, sum_squares, mark_sync,
  insert_by_version, sort_by_version, good_urls, the_good_ones, check_sync, the_best_one,
}
use libra_v.Types.Playlist.Refresh.{
  IsSorted, root_mean_square, refreshed, refreshed_list, refresh_exact,
}
use libra_v.Tests.Sample.{sample, root}

abbrev playlist : NetworkPlaylist sample
playlist = record {
  chain_name = 1;
  nodes =
      new_host sample (codes "a") ∷ new_host sample (codes "b") ∷ new_host sample (codes "c") ∷ [];
}

-- The node "a" is far behind, and "b" and "c" are near one another.
abbrev index : Text → Option ℕ
index url =
    if text_eq url (codes "a")
    then some 10
    else if text_eq url (codes "b")
    then some 60
    else some 50

abbrev same : List (HostProfile sample) → List (HostProfile sample)
same list = list

refresh_exact_example :
    Perm
      (refreshed_list sample same same index playlist).nodes
      (map (refreshed sample index (root_mean_square sample index playlist.nodes)) playlist.nodes)
    × IsSorted sample (refreshed_list sample same same index playlist).nodes
    × ((refreshed_list sample same same index playlist).chain_name ≡ 1)
refresh_exact_example = refresh_exact sample same same index playlist Perm.refl Perm.refl

picks : the_best_one sample (refreshed_list sample same same index playlist) ≡ ok (codes "c")
unfolding the_best_one refresh_sync_status sum_squares rms mark_sync insert_by_version
    sort_by_version good_urls root the_good_ones check_sync
picks = refl
