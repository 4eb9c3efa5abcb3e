-- ===== src/Types/AppCfg/Setup.antt =====
-- What `AppCfg::init_app_configs` of types/src/core_types/app_cfg.rs leaves for the tools to look up.
use libra_v.Prelude.{Option, none, some, ◌≡◌, refl, Text, ok, arith}
use libra_v.Platform.{Platform}
use libra_v.Types.Profile.{new_profile}
use libra_v.Types.Playlist.{NetworkPlaylist}
use libra_v.Types.AppCfg.{get_profile, get_network_profile, init_app_configs}

module _ (p : Platform) where
  -- After the set-up any nickname, also a missing one, gives the new profile, and when a playlist was
  -- given, the default chain has this playlist.
  pub init_app_configs-ready :
      (home : Text) (authkey : p.AuthenticationKey) (account : p.AccountAddress)
      (path : Option Text) (chain : Option p.NamedChain) (nickname : Option Text)
      (np : NetworkPlaylist p)
      → (get_profile p (init_app_configs p home authkey account path chain (some np)) nickname
          ≡ ok (new_profile p authkey account))
        × (get_profile p (init_app_configs p home authkey account path chain none) nickname
            ≡ ok (new_profile p authkey account))
        × (get_network_profile p (init_app_configs p home authkey account path chain (some np)) none
            ≡ ok np)
        × (get_network_profile p
              (init_app_configs p home authkey account path chain (some np))
              (some np.chain_name)
            ≡ ok np)
  unfolding get_profile init_app_configs get_network_profile
  init_app_configs-ready home authkey account path chain nickname np = (
    refl,
    refl,
    ground (arith, p.chain_eq.beq_iff np.chain_name np.chain_name),
    ground (arith, p.chain_eq.beq_iff np.chain_name np.chain_name),
  )
