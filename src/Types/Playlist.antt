-- ===== src/Types/Playlist.antt =====
-- types/src/core_types/network_playlist.rs: the fullnodes that the tools may connect to. What the
-- network answers and how the random generator and the pending requests order the nodes are
-- arguments; a u64 wraps around, as in a release build.
pub mod Refresh
pub mod Pick
use libra_v.Prelude.{
  ℕ, ◌+◌, ◌*◌, ◌%◌, ◌^◌, Option, none, some, List, [], ◌∷◌, ◌++◌, Bool, true, false, ◌&&◌, Text,
  codes, length, leb, if◌then◌else◌, Result, ok, err, ◌>>=◌, context, map,
}
use libra_v.Platform.{Platform}
use libra_v.Types.Profile.{CfgError, no_verified_nodes, no_best_one, no_urls_to_choose_from}

pub record HostProfile (p : Platform) : Type 0 where
  pub url : p.Url
  pub note : Text
  pub version : ℕ
  pub is_api : Bool
  pub is_sync : Bool

pub record NetworkPlaylist (p : Platform) : Type 0 where
  pub chain_name : p.NamedChain
  pub nodes : List (HostProfile p)

module _ (p : Platform) where
  abbrev pub default_host : HostProfile p
  default_host = record {
    url = p.localhost_url;
    version = 0;
    is_api = false;
    is_sync = false;
    note = codes "default";
  }

  abbrev pub new_host : p.Url → HostProfile p
  new_host url = record default_host { url = url }

  abbrev pub default_playlist : NetworkPlaylist p
  default_playlist = record { chain_name = p.mainnet; nodes = default_host ∷ [] }

  unfoldable pub find_default_playlist : Option p.NamedChain → p.Url
  find_default_playlist none = p.playlist_url
  find_default_playlist (some chain) =
      if p.chain_eq.beq chain p.testnet then p.playlist_testnet_url else p.playlist_url

  pub add_url : NetworkPlaylist p → p.Url → NetworkPlaylist p
  add_url self url = record self { nodes = self.nodes ++ new_host url ∷ [] }

  unfoldable pub replace_all_urls : NetworkPlaylist p → p.Url → NetworkPlaylist p
  replace_all_urls self url = record self { nodes = new_host url ∷ [] }

  unfoldable pub new_playlist : Option p.Url → Option p.NamedChain → NetworkPlaylist p
  unfolding replace_all_urls
  new_playlist url chain_name =
      let np : NetworkPlaylist p = elim url [
        | none ↦ default_playlist
        | some u ↦ replace_all_urls default_playlist u
      ] in
      elim chain_name [ none ↦ np | some n ↦ record np { chain_name = n } ]

  unfoldable pub localhost : Option p.NamedChain → NetworkPlaylist p
  localhost chain_name = record {
    chain_name = elim chain_name [ none ↦ p.mainnet | some n ↦ n ];
    nodes =
        record {
          url = p.localhost_url;
          note = codes "localhost";
          version = 0;
          is_api = true;
          is_sync = true;
        }
        ∷ [];
  }

  -- `fetch` is the request and the parse of its answer.
  unfoldable pub from_playlist_url :
      (p.Url → Result CfgError (NetworkPlaylist p))
      → p.Url
      → Option p.NamedChain
      → Result CfgError (NetworkPlaylist p)
  from_playlist_url fetch playlist_url chain_id = do
    play ← fetch playlist_url
    ok (elim chain_id [ none ↦ play | some c ↦ record play { chain_name = c } ])

  unfoldable pub default_for_network :
      (p.Url → Result CfgError (NetworkPlaylist p))
      → Option p.NamedChain
      → Result CfgError (NetworkPlaylist p)
  unfolding from_playlist_url find_default_playlist new_playlist
  default_for_network fetch none = from_playlist_url fetch (find_default_playlist none) none
  default_for_network fetch (some chain) =
      if p.chain_eq.beq chain p.testing
      then ok (new_playlist none (some p.testing))
      else from_playlist_url fetch (find_default_playlist (some chain)) (some chain)

  unfoldable pub all_urls : NetworkPlaylist p → List p.Url
  all_urls self = map (λ e. e.url) self.nodes

  unfoldable pub good_urls : List (HostProfile p) → List p.Url
  good_urls [] = []
  good_urls (e ∷ nodes) =
      let rest = good_urls nodes in if e.is_sync && e.is_api then e.url ∷ rest else rest

  abbrev pub bail_if_empty : List p.Url → Result CfgError (List p.Url)
  bail_if_empty [] = err no_verified_nodes
  bail_if_empty (u ∷ urls) = ok (u ∷ urls)

  unfoldable pub the_good_ones : NetworkPlaylist p → Result CfgError (List p.Url)
  unfolding good_urls
  the_good_ones self = bail_if_empty (good_urls self.nodes)

  abbrev pub first : List p.Url → Option p.Url
  first [] = none
  first (u ∷ urls) = some u

  unfoldable pub the_best_one : NetworkPlaylist p → Result CfgError p.Url
  unfolding the_good_ones
  the_best_one self = do good ← the_good_ones self; context (first good) no_best_one

  unfoldable pub pick_one : NetworkPlaylist p → Result CfgError p.Url
  unfolding the_best_one all_urls
  pick_one self = elim (the_best_one self) [
    | ok u ↦ ok u
    | err e ↦ context (first (all_urls self)) no_urls_to_choose_from
  ]

  -- `get_index` of the host: the version of its ledger, or no answer.
  unfoldable pub check_sync : (p.Url → Option ℕ) → HostProfile p → HostProfile p
  check_sync index self = elim (index self.url) [
    | none ↦ record self { is_api = false }
    | some version ↦ record self { version = version; is_api = true }
  ]

  abbrev pub u64 : ℕ → ℕ
  u64 n = n % 2 ^ 64

  unfoldable pub sum_squares : List (HostProfile p) → ℕ
  sum_squares [] = 0
  sum_squares (e ∷ list) = u64 (u64 (e.version * e.version) + sum_squares list)

  unfoldable pub rms : List (HostProfile p) → p.F64
  unfolding sum_squares
  rms list = p.sqrt (p.div (p.of_u64 (sum_squares list)) (p.of_u64 (length list)))

  unfoldable pub mark_sync : p.F64 → HostProfile p → HostProfile p
  mark_sync r e = if p.geb (p.of_u64 e.version) r then record e { is_sync = true } else e

  -- `sort_by_key(|p| p.version)`, which is stable.
  unfoldable pub insert_by_version : HostProfile p → List (HostProfile p) → List (HostProfile p)
  insert_by_version e [] = e ∷ []
  insert_by_version e (x ∷ xs) =
      if leb e.version x.version then e ∷ x ∷ xs else x ∷ insert_by_version e xs

  unfoldable pub sort_by_version : List (HostProfile p) → List (HostProfile p)
  unfolding insert_by_version
  sort_by_version [] = []
  sort_by_version (e ∷ list) = insert_by_version e (sort_by_version list)

  -- `shuffle` is the order that the random generator gives, `arrive` the order of the answers.
  unfoldable pub refresh_sync_status :
      (shuffle arrive : List (HostProfile p) → List (HostProfile p))
      → (p.Url → Option ℕ)
      → NetworkPlaylist p
      → NetworkPlaylist p
  unfolding check_sync rms mark_sync sort_by_version
  refresh_sync_status shuffle arrive index self =
      let sync_list = arrive (map (check_sync index) (shuffle self.nodes)) in
      record self { nodes = sort_by_version (map (mark_sync (rms sync_list)) sync_list) }

  unfoldable pub check_which_are_alive :
      (shuffle arrive : List (HostProfile p) → List (HostProfile p))
      → (p.Url → Option ℕ)
      → NetworkPlaylist p
      → NetworkPlaylist p
  unfolding check_sync
  check_which_are_alive shuffle arrive index self = record self {
    nodes = arrive (map (check_sync index) (shuffle self.nodes));
  }
