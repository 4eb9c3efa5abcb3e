-- ===== src/Types/AppCfg.antt =====
-- types/src/core_types/app_cfg.rs: the configuration of the command-line tools, with its profiles and
-- playlists. Writing the file and fetching a playlist are arguments; a function that takes `&mut
-- self` returns the configuration that it leaves, and a mutable reference is a function that the
-- caller applies to what it refers to. Messages on the console are left out.
pub mod Profiles
pub mod Lookup
pub mod Playlists
pub mod Setup
pub mod Updates
use libra_v.Prelude.{
  ℕ, suc, Option, none, some, List, [], ◌∷◌, ◌++◌, Bool, true, false, ◌||◌, Text, contains, length,
  get_elem?, remove_at, ◌==◌, if◌then◌else◌, Result, ok, err, ◌>>=◌, ◌>>◌, context, unwrap_or, find,
}
use libra_v.Platform.{Platform}
use libra_v.Types.Profile.{
  CfgError, no_profiles_found, could_not_find_a_profile, no_profile_at_index, no_network_profiles,
  could_not_find_a_network_profile, Profile, new_profile,
}
use libra_v.Types.Playlist.{
  HostProfile, NetworkPlaylist, find_default_playlist, from_playlist_url, pick_one,
  refresh_sync_status,
}
use libra_v.Types.TxConfigs.{TxConfigs, default_tx_configs}

pub record Workspace (p : Platform) : Type 0 where
  pub default_profile : Option Text
  pub default_chain_id : p.NamedChain
  pub node_home : Text

pub record AppCfg (p : Platform) : Type 0 where
  pub workspace : Workspace p
  pub user_profiles : List (Profile p)
  pub network_playlist : List (NetworkPlaylist p)
  pub tx_configs : TxConfigs

module _ (p : Platform) where
  -- `AppCfg::default()`; `home` is `global_config_dir()`.
  abbrev pub default_cfg : Text → AppCfg p
  default_cfg home = record {
    workspace = record { default_profile = none; default_chain_id = p.mainnet; node_home = home };
    user_profiles = [];
    network_playlist = [];
    tx_configs = default_tx_configs p;
  }

  pub set_chain_id : AppCfg p → p.NamedChain → AppCfg p
  set_chain_id self chain_id = record self {
    workspace = record self.workspace { default_chain_id = chain_id };
  }

  pub set_default : Workspace p → Text → Workspace p
  set_default self profile = record self { default_profile = some profile }

  -- The nickname or the address holds the fragment.
  unfoldable pub matches : Text → Profile p → Bool
  matches n e = contains e.nickname n || contains (p.account_to_string e.account) n

  unfoldable pub find_idx : Text → List (Profile p) → ℕ → Option ℕ
  unfolding matches
  find_idx n [] i = none
  find_idx n (e ∷ rest) i =
      let later = find_idx n rest (suc i) in if matches n e then some i else later

  abbrev pub or_default : Option Text → Option Text → Option Text
  or_default none d = d
  or_default (some n) d = some n

  unfoldable pub find_nickname : List (Profile p) → Option Text → Result CfgError ℕ
  unfolding find_idx
  find_nickname profiles none = err no_profiles_found
  find_nickname profiles (some n) = context (find_idx n profiles 0) could_not_find_a_profile

  unfoldable pub get_profile_idx : AppCfg p → Option Text → Result CfgError ℕ
  unfolding find_nickname
  get_profile_idx self nickname =
      if length self.user_profiles == 0
      then err no_profiles_found
      else if length self.user_profiles == 1
      then ok 0
      else find_nickname self.user_profiles (or_default nickname self.workspace.default_profile)

  unfoldable pub get_profile : AppCfg p → Option Text → Result CfgError (Profile p)
  unfolding get_profile_idx
  get_profile self nickname =
      context (get_elem? self.user_profiles (unwrap_or (get_profile_idx self nickname) 0))
        no_profile_at_index

  pub modify_at : (Profile p → Profile p) → List (Profile p) → ℕ → List (Profile p)
  modify_at f [] i = []
  modify_at f (x ∷ xs) ℕ.zero = f x ∷ xs
  modify_at f (x ∷ xs) (suc i) = x ∷ modify_at f xs i

  pub get_profile_mut :
      AppCfg p → Option Text → (Profile p → Profile p) → Result CfgError (AppCfg p)
  unfolding get_profile_idx modify_at
  get_profile_mut self nickname f = do
    let idx = unwrap_or (get_profile_idx self nickname) 0
    found ← context (get_elem? self.user_profiles idx) no_profile_at_index
    ok (record self { user_profiles = modify_at f self.user_profiles idx })

  -- `find` the first profile of the account and write to it, or push.
  pub replace_or_push : Profile p → List (Profile p) → List (Profile p)
  replace_or_push profile [] = profile ∷ []
  replace_or_push profile (e ∷ rest) =
      if p.account_eq.beq e.account profile.account
      then profile ∷ rest
      else e ∷ replace_or_push profile rest

  pub maybe_add_profile : AppCfg p → Profile p → Result CfgError (AppCfg p)
  unfolding replace_or_push
  maybe_add_profile self profile =
      ok (record self { user_profiles = replace_or_push profile self.user_profiles })

  pub try_remove_profile : AppCfg p → Text → Result CfgError (AppCfg p)
  unfolding get_profile_idx
  try_remove_profile self nickname = do
    idx ← get_profile_idx self (some nickname)
    ok (record self { user_profiles = remove_at self.user_profiles idx })

  abbrev pub or_chain : AppCfg p → Option p.NamedChain → p.NamedChain
  or_chain self none = self.workspace.default_chain_id
  or_chain self (some chain_id) = chain_id

  abbrev pub is_chain : p.NamedChain → NetworkPlaylist p → Bool
  is_chain chain_id each = p.chain_eq.beq each.chain_name chain_id

  abbrev pub ensure_some : List (NetworkPlaylist p) → Result CfgError (List (NetworkPlaylist p))
  ensure_some [] = err no_network_profiles
  ensure_some (np ∷ list) = ok (np ∷ list)

  unfoldable pub get_network_profile :
      AppCfg p → Option p.NamedChain → Result CfgError (NetworkPlaylist p)
  get_network_profile self chain_id = do
    np ← ensure_some self.network_playlist
    context (find (is_chain (or_chain self chain_id)) np) could_not_find_a_network_profile

  pub modify_first :
      p.NamedChain
      → (NetworkPlaylist p → NetworkPlaylist p)
      → List (NetworkPlaylist p)
      → List (NetworkPlaylist p)
  modify_first chain_id f [] = []
  modify_first chain_id f (play ∷ rest) =
      if is_chain chain_id play then f play ∷ rest else play ∷ modify_first chain_id f rest

  pub get_network_profile_mut :
      AppCfg p
      → Option p.NamedChain
      → (NetworkPlaylist p → NetworkPlaylist p)
      → Result CfgError (AppCfg p)
  unfolding get_network_profile modify_first
  get_network_profile_mut self chain_id f = do
    found ← get_network_profile self chain_id
    ok (record self {
      network_playlist = modify_first (or_chain self chain_id) f self.network_playlist;
    })

  -- The loop writes to every playlist of the chain; `found` says whether there was one.
  unfoldable pub overwrite :
      NetworkPlaylist p → List (NetworkPlaylist p) → List (NetworkPlaylist p) × Bool
  overwrite new [] = ([], false)
  overwrite new (play ∷ rest) =
      let (rest', found) = overwrite new rest in
      if p.chain_eq.beq play.chain_name new.chain_name
      then (new ∷ rest', true)
      else (play ∷ rest', found)

  abbrev pub push_if_missing :
      NetworkPlaylist p → List (NetworkPlaylist p) × Bool → List (NetworkPlaylist p)
  push_if_missing new (list, true) = list
  push_if_missing new (list, false) = list ++ new ∷ []

  unfoldable pub maybe_add_custom_playlist : AppCfg p → NetworkPlaylist p → AppCfg p
  unfolding overwrite
  maybe_add_custom_playlist self new = record self {
    network_playlist = push_if_missing new (overwrite new self.network_playlist);
  }

  unfoldable pub update_network_playlist :
      (p.Url → Result CfgError (NetworkPlaylist p))
      → AppCfg p
      → Option p.NamedChain
      → Option p.Url
      → Result CfgError (AppCfg p × NetworkPlaylist p)
  unfolding maybe_add_custom_playlist from_playlist_url
  update_network_playlist fetch self chain_id playlist_url = do
    let url : p.Url = elim playlist_url [ none ↦ find_default_playlist p chain_id | some u ↦ u ]
    np ← from_playlist_url p fetch url chain_id
    ok (maybe_add_custom_playlist self np, np)

  pub pick_url : AppCfg p → Option p.NamedChain → Result CfgError p.Url
  unfolding get_network_profile
  pick_url self chain_id = do np ← get_network_profile self chain_id; pick_one p np

  -- The configuration on disk after the call, and the playlist that is returned. `save_file` writes
  -- `self`, which the refresh of the copy `np` has not changed.
  pub refresh_network_profile_and_save :
      (shuffle arrive : List (HostProfile p) → List (HostProfile p))
      → (p.Url → Option ℕ)
      → AppCfg p
      → Option p.NamedChain
      → Result CfgError (AppCfg p × NetworkPlaylist p)
  unfolding get_network_profile
  refresh_network_profile_and_save shuffle arrive index self chain_id = do
    np ← get_network_profile self chain_id
    ok (self, refresh_sync_status p shuffle arrive index np)

  abbrev pub push_playlist : AppCfg p → Option (NetworkPlaylist p) → AppCfg p
  push_playlist cfg none = cfg
  push_playlist cfg (some np) = record cfg {
    workspace = record cfg.workspace { default_chain_id = np.chain_name };
    network_playlist = cfg.network_playlist ++ np ∷ [];
  }

  -- `home` is `global_config_dir()`; the result is what `save_file` writes.
  pub init_app_configs :
      Text
      → p.AuthenticationKey
      → p.AccountAddress
      → Option Text
      → Option p.NamedChain
      → Option (NetworkPlaylist p)
      → AppCfg p
  init_app_configs home authkey account config_path chain_name network_playlist =
      let profile = new_profile p authkey account in
      let cfg : AppCfg p = record (default_cfg home) {
        workspace = record {
          default_profile = some profile.nickname;
          default_chain_id = elim chain_name [ none ↦ p.mainnet | some id ↦ id ];
          node_home = elim config_path [ none ↦ home | some path ↦ path ];
        };
        user_profiles = profile ∷ [];
      } in
      push_playlist cfg network_playlist
