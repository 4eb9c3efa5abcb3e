-- ===== src/Types/Playlist/Pick.antt =====
-- `the_good_ones`, `the_best_one` and `pick_one` of types/src/core_types/network_playlist.rs.
use libra_v.Prelude.{
  Option, none, some, List, [], ◌∷◌, ◌≡◌, refl, Bool, ◌&&◌, map, Result, ok, err, find, context,
  arith,
}
use libra_v.Platform.{Platform}
use libra_v.Types.Profile.{CfgError, no_verified_nodes, no_urls_to_choose_from}
use libra_v.Types.Playlist.{
  HostProfile, NetworkPlaylist, first, good_urls, the_best_one, pick_one, all_urls,
}

module _ (p : Platform) where
  -- A host that answers and is in step.
  abbrev pub is_good : HostProfile p → Bool
  is_good e = e.is_sync && e.is_api

  abbrev url_of : Option (HostProfile p) → Option p.Url
  url_of none = none
  url_of (some e) = some e.url

  first-good_urls :
      (nodes : List (HostProfile p)) → first p (good_urls p nodes) ≡ url_of (find is_good nodes)
  unfolding good_urls
  first-good_urls [] = refl
  first-good_urls (e ∷ nodes) = ground (arith, first-good_urls nodes)

  -- The url of the first host, or the error that there is none.
  abbrev pub first_url : List (HostProfile p) → Result CfgError p.Url
  first_url [] = err no_urls_to_choose_from
  first_url (e ∷ nodes) = ok e.url

  abbrev pub best_or : Result CfgError p.Url → Option (HostProfile p) → Result CfgError p.Url
  best_or fallback none = fallback
  best_or fallback (some e) = ok e.url

  pub the_best_one-find :
      (self : NetworkPlaylist p)
      → the_best_one p self ≡ best_or (err no_verified_nodes) (find is_good self.nodes)
  unfolding the_best_one
  the_best_one-find self = ground (arith, first-good_urls self.nodes)

  first-urls :
      (nodes : List (HostProfile p))
      → context (first p (map (λ e. e.url) nodes)) no_urls_to_choose_from ≡ first_url nodes
  first-urls [] = refl
  first-urls (e ∷ nodes) = refl

  -- A playlist picks the url of its first good host; without a good host it picks that of its first
  -- host, and it fails only if it has no host at all.
  pub pick_one-find :
      (self : NetworkPlaylist p)
      → pick_one p self ≡ best_or (first_url self.nodes) (find is_good self.nodes)
  unfolding pick_one all_urls
  pick_one-find self = ground (arith, the_best_one-find self, first-urls self.nodes)
