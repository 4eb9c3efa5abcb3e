-- ===== src/Types/AppCfg/Playlists.antt =====
-- Overwriting and looking up the playlists of the networks in types/src/core_types/app_cfg.rs.
use libra_v.Prelude.{
  Option, none, some, List, [], ◌∷◌, ◌++◌, ◌≡◌, refl, ap, true, false, find, Result, ok, ◌>>=◌,
  >>=-eq-ok, subst, context, arith, if◌then◌else◌, Bool-cases, inl, inr,
}
use libra_v.Platform.{Platform}
use libra_v.Types.Profile.{CfgError, could_not_find_a_network_profile}
use libra_v.Types.Playlist.{NetworkPlaylist, from_playlist_url, find_default_playlist}
use libra_v.Types.AppCfg.{
  AppCfg, is_chain, overwrite, push_if_missing, maybe_add_custom_playlist, ensure_some,
  get_network_profile, update_network_playlist, or_chain,
}

module _ (p : Platform) where
  -- The playlist that a lookup by chain finds.
  abbrev pub playlist_of : p.NamedChain → List (NetworkPlaylist p) → Option (NetworkPlaylist p)
  playlist_of c = find (is_chain p c)

  find-append :
      (c : p.NamedChain) (list : List (NetworkPlaylist p)) (new : NetworkPlaylist p)
      → playlist_of c (list ++ new ∷ []) ≡ elim (playlist_of c list) [
        | none ↦ (if is_chain p c new then some new else none)
        | some e ↦ some e
      ]
  find-append c [] new = ground arith
  find-append c (e ∷ list) new = ground (arith, find-append c list new)

  -- `found` tells whether the chain was there.
  overwrite-found :
      (new : NetworkPlaylist p) (list : List (NetworkPlaylist p))
      → (overwrite p new list).1 ≡ false
      → (playlist_of new.chain_name list ≡ none) × ((overwrite p new list).0 ≡ list)
  unfolding overwrite
  overwrite-found new [] h = (refl, refl)
  overwrite-found new (e ∷ list) h = ground (arith, overwrite-found new list)

  playlist_of-overwrite-other :
      (c : p.NamedChain) (new : NetworkPlaylist p) (list : List (NetworkPlaylist p))
      → is_chain p c new ≡ false
      → playlist_of c (overwrite p new list).0 ≡ playlist_of c list
  unfolding overwrite
  playlist_of-overwrite-other c new [] other = refl
  playlist_of-overwrite-other c new (e ∷ list) other = ground (
    arith,
    playlist_of-overwrite-other c new list other,
    p.chain_eq.beq_iff e.chain_name new.chain_name,
    p.chain_eq.beq_iff e.chain_name c,
    p.chain_eq.beq_iff new.chain_name c,
  )

  playlist_of-overwrite :
      (c : p.NamedChain) (new : NetworkPlaylist p) (list : List (NetworkPlaylist p))
      → (overwrite p new list).1 ≡ true
      → playlist_of c (overwrite p new list).0
        ≡ (if is_chain p c new then some new else playlist_of c list)
  unfolding overwrite
  playlist_of-overwrite c new [] h = cc
  playlist_of-overwrite c new (e ∷ list) h = ground (
    arith,
    playlist_of-overwrite c new list,
    playlist_of-overwrite-other c new list,
    p.chain_eq.beq_iff e.chain_name new.chain_name,
    p.chain_eq.beq_iff e.chain_name c,
    p.chain_eq.beq_iff new.chain_name c,
  )

  added :
      (new : NetworkPlaylist p) (c : p.NamedChain) (list : List (NetworkPlaylist p))
      → playlist_of c (push_if_missing p new (overwrite p new list))
        ≡ (if is_chain p c new then some new else playlist_of c list)
  added new c list = elim (Bool-cases (overwrite p new list).1) [
    | inl found ↦ rw found (playlist_of-overwrite c new list found)
    | inr missing ↦
        let (absent, kept) = overwrite-found new list missing in
        rw (missing, kept)
          (ground (
            arith,
            find-append c list new,
            absent,
            p.chain_eq.beq_iff new.chain_name c,
            λ (e : new.chain_name ≡ c). ap (λ k. playlist_of k list) e,
          ))
  ]

  -- After a playlist is added, its chain is looked up to it, and every other chain to what it was.
  pub playlist_of-maybe_add_custom_playlist :
      (self : AppCfg p) (new : NetworkPlaylist p) (c : p.NamedChain)
      → playlist_of c (maybe_add_custom_playlist p self new).network_playlist
        ≡ (if is_chain p c new then some new else playlist_of c self.network_playlist)
  unfolding maybe_add_custom_playlist overwrite
  playlist_of-maybe_add_custom_playlist self new c = added new c self.network_playlist

  -- `get_network_profile` finds the first playlist of the chain asked for, or of the default chain.
  pub get_network_profile_lem :
      (self : AppCfg p) (c : Option p.NamedChain) (np : NetworkPlaylist p)
      → playlist_of (or_chain p self c) self.network_playlist ≡ some np
      → get_network_profile p self c ≡ ok np
  unfolding get_network_profile
  get_network_profile_lem self c np h = by_list self.network_playlist (or_chain p self c) np h
    where
      by_list :
          (list : List (NetworkPlaylist p)) (k : p.NamedChain) (np : NetworkPlaylist p)
          → playlist_of k list ≡ some np
          → (do
            nps ← ensure_some p list
            context (find (is_chain p k) nps) could_not_find_a_network_profile)
            ≡ ok np
      by_list [] k np h = cc
      by_list (e ∷ list) k np h = ground arith

  stored :
      (self : AppCfg p) (np : NetworkPlaylist p)
      → get_network_profile p (maybe_add_custom_playlist p self np) (some np.chain_name) ≡ ok np
  stored self np =
      get_network_profile_lem (maybe_add_custom_playlist p self np) (some np.chain_name) np (
        ground (
          arith,
          playlist_of-maybe_add_custom_playlist self np np.chain_name,
          p.chain_eq.beq_iff np.chain_name np.chain_name,
        ))

  -- An update that succeeds stores the playlist it returns: a lookup of its chain finds it from then
  -- on, and every other chain has the playlist that it had.
  pub get_network_profile-update :
      (fetch : p.Url → Result CfgError (NetworkPlaylist p)) (self self' : AppCfg p)
      (c : Option p.NamedChain) (url : Option p.Url) (np : NetworkPlaylist p)
      → update_network_playlist p fetch self c url ≡ ok (self', np)
      → (get_network_profile p self' (some np.chain_name) ≡ ok np)
        × ((k : p.NamedChain)
            → is_chain p k np ≡ false
            → playlist_of k self'.network_playlist ≡ playlist_of k self.network_playlist)
  unfolding update_network_playlist
  get_network_profile-update fetch self self' c url np h =
      let address : p.Url = elim url [ none ↦ find_default_playlist p c | some u ↦ u ] in
      let (got, fetched, stores) = >>=-eq-ok (from_playlist_url p fetch address c) _ h in
      let new : got ≡ np = cc in
      let after : maybe_add_custom_playlist p self np ≡ self' =
        subst (λ x. maybe_add_custom_playlist p self x ≡ self') new cc in
      subst
        (λ x.
          (get_network_profile p x (some np.chain_name) ≡ ok np)
          × ((k : p.NamedChain)
              → is_chain p k np ≡ false
              → playlist_of k x.network_playlist ≡ playlist_of k self.network_playlist))
        after
        (
          stored self np,
          λ k other. ground (arith, playlist_of-maybe_add_custom_playlist self np k, other),
        )
