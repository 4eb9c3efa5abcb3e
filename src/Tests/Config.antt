-- ===== src/Tests/Config.antt =====
-- The configuration of the tools: profiles, pledges, playlists and costs, on small inputs.
use libra_v.Prelude.{
  ℕ, none, some, [], ◌∷◌, ◌≡◌, refl, ok, err, arith, if◌then◌else◌, codes, true, false, context,
  find,
}
use libra_v.Types.Pledge.{Pledge, pledge_validator}
use libra_v.Types.Profile.{
  Profile, default_profile, check_has_pledge, maybe_offer_validator_pledge, no_profile_at_index,
  could_not_find_a_profile,
}
use libra_v.Types.Profile.Pledges.{validator_offer_recurs}
use libra_v.Types.Playlist.{NetworkPlaylist, new_playlist, from_playlist_url}
use libra_v.Types.AppCfg.{
  AppCfg, overwrite, default_cfg, get_profile, or_default, maybe_add_profile, try_remove_profile,
  maybe_add_custom_playlist, update_network_playlist, get_network_profile, is_chain, matches,
}
use libra_v.Types.AppCfg.Profiles.{profile_of, DistinctAccounts, profile_of-maybe_add_profile}
use libra_v.Types.AppCfg.Lookup.{
  best_match, without_first, get_profile-best_match, try_remove_profile_first,
}
use libra_v.Types.AppCfg.Playlists.{playlist_of, playlist_of-maybe_add_custom_playlist}
use libra_v.Types.AppCfg.{get_profile_idx, find_nickname, find_idx}
use libra_v.Tests.Sample.{sample, hex_text}

abbrev profile : ℕ → Profile sample
profile account = record (default_profile sample) { account = account; nickname = codes "user" }

abbrev cfg : AppCfg sample
cfg = record (default_cfg sample (codes "/home")) { user_profiles = profile 17 ∷ profile 18 ∷ [] }

profile_of-maybe_add_profile_example :
    (self' : AppCfg sample) × (maybe_add_profile sample cfg (profile 19) ≡ ok self')
    × ((a : ℕ)
        → profile_of sample a self'.user_profiles ≡ (
            if sample.account_eq.beq 19 a
            then some (profile 19)
            else profile_of sample a cfg.user_profiles))
    × (DistinctAccounts sample cfg.user_profiles → DistinctAccounts sample self'.user_profiles)
profile_of-maybe_add_profile_example = profile_of-maybe_add_profile sample cfg (profile 19)

get_profile-best_match_example :
    get_profile sample cfg (some (codes "12"))
    ≡ context
        (best_match sample
          (or_default sample (some (codes "12")) cfg.workspace.default_profile)
          cfg.user_profiles)
        no_profile_at_index
get_profile-best_match_example = get_profile-best_match sample cfg (some (codes "12")) (omega arith)

try_remove_profile_first_example :
    try_remove_profile sample cfg (codes "12")
    ≡ elim (find (matches sample (codes "12")) cfg.user_profiles) [
      | none ↦ err could_not_find_a_profile
      | some e ↦
          ok (record cfg { user_profiles = without_first sample (codes "12") cfg.user_profiles })
    ]
try_remove_profile_first_example = try_remove_profile_first sample cfg (codes "12") (omega arith)

abbrev only : AppCfg sample
only = record cfg { user_profiles = profile 17 ∷ [] }

abbrev playlist : NetworkPlaylist sample
playlist = new_playlist sample (some (codes "node")) (some 2)

playlist_of-maybe_add_custom_playlist_example :
    playlist_of sample 1 (maybe_add_custom_playlist sample cfg playlist).network_playlist ≡ (
      if is_chain sample 1 playlist
      then some playlist
      else playlist_of sample 1 cfg.network_playlist)
playlist_of-maybe_add_custom_playlist_example =
    playlist_of-maybe_add_custom_playlist sample cfg playlist 1

abbrev updated : AppCfg sample
updated = maybe_add_custom_playlist sample cfg playlist

updates :
    update_network_playlist sample (λ url. ok playlist) cfg (some 2) none ≡ ok (updated, playlist)
unfolding update_network_playlist maybe_add_custom_playlist overwrite from_playlist_url new_playlist
updates = refl

abbrev pledge : Pledge
pledge = pledge_validator sample

unpledged : check_has_pledge sample 1 (profile 17) 1 ≡ ok false
unfolding check_has_pledge
unpledged = refl

validator_offer_recurs_example :
    (self' : Profile sample) × (maybe_offer_validator_pledge sample 1 true (profile 17) ≡ ok self')
    × (check_has_pledge sample 1 self' 1 ≡ ok false)
validator_offer_recurs_example = validator_offer_recurs sample 1 true (profile 17) unpledged

abbrev confirm : Profile sample → Profile sample
confirm e = record e { on_chain = true }

found : get_profile sample cfg (some (codes "12")) ≡ ok (profile 18)
unfolding get_profile get_profile_idx find_nickname find_idx matches hex_text
found = refl

abbrev two_networks : AppCfg sample
two_networks = record cfg { network_playlist = playlist ∷ [] }

abbrev emptied : NetworkPlaylist sample → NetworkPlaylist sample
emptied np = record np { nodes = [] }

listed : get_network_profile sample two_networks (some 2) ≡ ok playlist
unfolding get_network_profile new_playlist
listed = refl
