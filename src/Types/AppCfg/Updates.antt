-- ===== src/Types/AppCfg/Updates.antt =====
-- Writing through the mutable references of types/src/core_types/app_cfg.rs: `get_profile_mut` and
-- `get_network_profile_mut`.
use libra_v.Prelude.{
  ℕ, zero, suc, ◌≡◌, refl, ap, sym, Option, none, some, List, [], ◌∷◌, Text, length, get_elem?,
  find, ok, ◌>>=◌, >>=-eq-ok, ok-injective, subst, context, unwrap_or, arith,
}
use libra_v.Platform.{Platform}
use libra_v.Types.Profile.{Profile, CfgError, no_profile_at_index, could_not_find_a_network_profile}
use libra_v.Types.Playlist.{NetworkPlaylist}
use libra_v.Types.AppCfg.{
  AppCfg, matches, find_idx, find_nickname, get_profile_idx, get_profile, or_default, modify_at,
  get_profile_mut, is_chain, or_chain, ensure_some, get_network_profile, modify_first,
  get_network_profile_mut,
}
use libra_v.Types.AppCfg.Playlists.{get_network_profile_lem}

context-ok {ℓ} :
    {A : Type ℓ} {a : A} (o : Option A) (e : CfgError) → context o e ≡ ok a → o ≡ some a
context-ok none e h = cc
context-ok (some x) e h = cc

module _ (p : Platform) where
  module _ (f : Profile p → Profile p) (nickname : (e : Profile p) → (f e).nickname ≡ e.nickname)
      (account : (e : Profile p) → (f e).account ≡ e.account) where
    matches_same : (n : Text) (e : Profile p) → matches p n (f e) ≡ matches p n e
    unfolding matches
    matches_same n e = rw (nickname e, account e) refl

    length-modify_at :
        (list : List (Profile p)) (i : ℕ) → length (modify_at p f list i) ≡ length list
    unfolding modify_at
    length-modify_at [] i = refl
    length-modify_at (e ∷ list) zero = refl
    length-modify_at (e ∷ list) (suc i) = ap suc (length-modify_at list i)

    find_idx-modify_at :
        (n : Text) (list : List (Profile p)) (i k : ℕ)
        → find_idx p n (modify_at p f list i) k ≡ find_idx p n list k
    unfolding find_idx modify_at
    find_idx-modify_at n [] i k = refl
    find_idx-modify_at n (e ∷ list) zero k = ground (arith, matches_same n e)
    find_idx-modify_at n (e ∷ list) (suc i) k = ground (arith, find_idx-modify_at n list i (suc k))

    find_nickname-modify_at :
        (list : List (Profile p)) (i : ℕ) (o : Option Text)
        → find_nickname p (modify_at p f list i) o ≡ find_nickname p list o
    unfolding find_nickname
    find_nickname-modify_at list i none = refl
    find_nickname-modify_at list i (some n) = rw (find_idx-modify_at n list i 0) refl

    get_profile_idx-modify_at :
        (self : AppCfg p) (o : Option Text) (i : ℕ)
        → get_profile_idx p (record self { user_profiles = modify_at p f self.user_profiles i }) o
          ≡ get_profile_idx p self o
    unfolding get_profile_idx
    get_profile_idx-modify_at self o i =
        let profiles = self.user_profiles in
        rw
          (
            length-modify_at profiles i,
            find_nickname-modify_at profiles i (or_default p o self.workspace.default_profile),
          )
          refl

    get_elem?-modify_at :
        (list : List (Profile p)) (i : ℕ) (e : Profile p)
        → get_elem? list i ≡ some e
        → get_elem? (modify_at p f list i) i ≡ some (f e)
    unfolding modify_at
    get_elem?-modify_at [] i e h = cc
    get_elem?-modify_at (x ∷ list) zero e h = cc h
    get_elem?-modify_at (x ∷ list) (suc i) e h = get_elem?-modify_at list i e h

    abbrev index_of : AppCfg p → Option Text → ℕ
    index_of self o = unwrap_or (get_profile_idx p self o) 0

    found_at :
        (self : AppCfg p) (o : Option Text) (e : Profile p)
        → get_profile p self o ≡ ok e
        → get_elem? self.user_profiles (index_of self o) ≡ some e
    unfolding get_profile
    found_at self o e h = context-ok _ no_profile_at_index h

    at_found :
        (self : AppCfg p) (o : Option Text) (e : Profile p)
        → get_elem? self.user_profiles (index_of self o) ≡ some e
        → get_profile p self o ≡ ok e
    unfolding get_profile
    at_found self o e h = ap (λ x. context x no_profile_at_index) h

    mut_at :
        (self : AppCfg p) (o : Option Text) (e : Profile p)
        → get_elem? self.user_profiles (index_of self o) ≡ some e
        → get_profile_mut p self o f
          ≡ ok (record self { user_profiles = modify_at p f self.user_profiles (index_of self o) })
    unfolding get_profile_mut
    mut_at self o e h =
        ap
          (λ x. context x no_profile_at_index >>= λ found.
            ok (record self { user_profiles = modify_at p f self.user_profiles (index_of self o) }))
          h

    -- A write to a looked-up profile that keeps its nickname and its account succeeds exactly where
    -- the lookup does, and the same lookup then gives what was written.
    pub get_profile-get_profile_mut :
        (self : AppCfg p) (o : Option Text) (e : Profile p)
        → get_profile p self o ≡ ok e
        → (self' : AppCfg p) × (get_profile_mut p self o f ≡ ok self')
          × (get_profile p self' o ≡ ok (f e))
          × (length self'.user_profiles ≡ length self.user_profiles)
    get_profile-get_profile_mut self o e h =
        let i = index_of self o in
        let here = found_at self o e h in
        let same = ap (λ r. unwrap_or r 0) (get_profile_idx-modify_at self o i) in
        let there = get_elem?-modify_at self.user_profiles i e here in
        let self' : AppCfg p = record self { user_profiles = modify_at p f self.user_profiles i } in
        (
          self',
          mut_at self o e here,
          at_found self' o (f e)
              (subst (λ k. get_elem? self'.user_profiles k ≡ some (f e)) (sym same) there),
          length-modify_at self.user_profiles i,
        )

  find-modify_first :
      (c : p.NamedChain) (f : NetworkPlaylist p → NetworkPlaylist p)
      (list : List (NetworkPlaylist p)) (np : NetworkPlaylist p)
      → ((x : NetworkPlaylist p) → (f x).chain_name ≡ x.chain_name)
      → find (is_chain p c) list ≡ some np
      → find (is_chain p c) (modify_first p c f list) ≡ some (f np)
  unfolding modify_first
  find-modify_first c f [] np keeps h = cc
  find-modify_first c f (e ∷ list) np keeps h =
      let kept : is_chain p c (f e) ≡ is_chain p c e = rw (keeps e) refl in
      ground (arith, kept, find-modify_first c f list np keeps)

  ensured : (list nps : List (NetworkPlaylist p)) → ensure_some p list ≡ ok nps → list ≡ nps
  ensured [] nps h = cc
  ensured (e ∷ list) nps h = ok-injective h

  found_in :
      (self : AppCfg p) (o : Option p.NamedChain) (np : NetworkPlaylist p)
      → get_network_profile p self o ≡ ok np
      → find (is_chain p (or_chain p self o)) self.network_playlist ≡ some np
  unfolding get_network_profile
  found_in self o np h =
      let (nps, some_list, first) = >>=-eq-ok (ensure_some p self.network_playlist) _ h in
      rw (ensured self.network_playlist nps some_list)
        (context-ok _ could_not_find_a_network_profile first)

  -- A write to a looked-up playlist that keeps the name of its chain succeeds where the lookup does,
  -- and the same lookup then gives what was written.
  pub get_network_profile-get_network_profile_mut :
      (self : AppCfg p) (o : Option p.NamedChain) (f : NetworkPlaylist p → NetworkPlaylist p)
      (np : NetworkPlaylist p)
      → ((x : NetworkPlaylist p) → (f x).chain_name ≡ x.chain_name)
      → get_network_profile p self o ≡ ok np
      → (self' : AppCfg p) × (get_network_profile_mut p self o f ≡ ok self')
        × (get_network_profile p self' o ≡ ok (f np))
  unfolding get_network_profile_mut
  get_network_profile-get_network_profile_mut self o f np keeps h =
      let c = or_chain p self o in
      let first = found_in self o np h in
      let self' : AppCfg p = record self {
        network_playlist = modify_first p c f self.network_playlist;
      } in
      (
        self',
        ap (λ m. m >>= λ found. ok self') h,
        get_network_profile_lem p self' o (f np)
            (find-modify_first c f self.network_playlist np keeps first),
      )
