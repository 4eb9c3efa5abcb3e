-- ===== src/Types/AppCfg/Lookup.antt =====
-- Finding and removing a profile by its nickname in types/src/core_types/app_cfg.rs.
use libra_v.Prelude.{
  Result-cases, ◌⊎◌, ℕ, zero, suc, ◌+◌, ◌<◌, ◌≤◌, Option, none, some, List, [], ◌∷◌, ◌≡◌, ◌↔◌, refl,
  ap, Text, length, get_elem?, remove_at, find, ok, err, context, unwrap_or, arith, if◌then◌else◌,
  Bool-cases, Option-cases, inl, inr,
}
use libra_v.Platform.{Platform}
use libra_v.Types.Profile.{Profile, no_profile_at_index, could_not_find_a_profile}
use libra_v.Types.AppCfg.{
  AppCfg, matches, find_idx, find_nickname, get_profile_idx, get_profile, or_default,
  try_remove_profile,
}

module _ (p : Platform) where
  find_idx-lt :
      (n : Text) (list : List (Profile p)) (i j : ℕ)
      → find_idx p n list i ≡ some j
      → (i ≤ j) × (j < i + length list)
  unfolding find_idx
  find_idx-lt n [] i j h = cc
  find_idx-lt n (e ∷ list) i j h = ground (arith, find_idx-lt n list (suc i) j)

  find_nickname-lt :
      (list : List (Profile p)) (nickname : Option Text) (i : ℕ)
      → find_nickname p list nickname ≡ ok i
      → i < length list
  unfolding find_nickname
  find_nickname-lt list none i h = cc
  find_nickname-lt list (some n) i h = ground (arith, find_idx-lt n list 0 i)

  -- An index that is found is that of a profile, so that the removal at it does not stop the process.
  pub get_profile_idx-lt :
      (self : AppCfg p) (nickname : Option Text) (i : ℕ)
      → get_profile_idx p self nickname ≡ ok i
      → i < length self.user_profiles
  unfolding get_profile_idx
  get_profile_idx-lt self nickname i h = ground (
    arith,
    find_nickname-lt self.user_profiles (or_default p nickname self.workspace.default_profile) i,
  )

  find_idx-none :
      (n : Text) (list : List (Profile p)) (i : ℕ)
      → find_idx p n list i ≡ none
      → find (matches p n) list ≡ none
  unfolding find_idx
  find_idx-none n [] i h = refl
  find_idx-none n (e ∷ list) i h = ground (arith, find_idx-none n list (suc i))

  -- The list without its first profile that matches.
  abbrev pub without_first : Text → List (Profile p) → List (Profile p)
  without_first n [] = []
  without_first n (e ∷ list) = if matches p n e then list else e ∷ without_first n list

  -- The profile at the index that is found is the first one that matches.
  find_idx-some :
      (n : Text) (list : List (Profile p)) (i k : ℕ)
      → find_idx p n list i ≡ some (i + k)
      → (e : Profile p) × (find (matches p n) list ≡ some e)
        × (get_elem? list k ≡ some e)
        × (remove_at list k ≡ without_first n list)
  unfolding find_idx
  find_idx-some n [] i k h = cc
  find_idx-some n (e ∷ list) i zero h = elim (Bool-cases (matches p n e)) [
    | inl here ↦ (e, ground arith, refl, ground arith)
    | inr later ↦ ground (arith, find_idx-lt n list (suc i) (i + 0))
  ]
  find_idx-some n (e ∷ list) i (suc k) h = elim (Bool-cases (matches p n e)) [
    | inl here ↦ ground arith
    | inr later ↦
        let same : suc i + k ≡ i + suc k = omega arith in
        let h' : find_idx p n list (suc i) ≡ some (suc i + k) = ground arith in
        let (x, found, at, rest) = find_idx-some n list (suc i) k h' in
        (x, ground arith, at, rw later (ap (λ r. e ∷ r) rest))
  ]

  found_first :
      (n : Text) (list : List (Profile p)) (k : ℕ)
      → find_idx p n list 0 ≡ some k
      → (e : Profile p) × (find (matches p n) list ≡ some e)
        × (get_elem? list k ≡ some e)
        × (remove_at list k ≡ without_first n list)
  found_first n list k h =
      let start : 0 + k ≡ k = omega arith in find_idx-some n list 0 k (rw start h)

  -- The first profile that matches, or else the first of the list.
  abbrev pub best_match : Option Text → List (Profile p) → Option (Profile p)
  best_match none list = get_elem? list 0
  best_match (some n) list = elim (find (matches p n) list) [
    | none ↦ get_elem? list 0
    | some e ↦ some e
  ]

  at_index :
      (list : List (Profile p)) (nickname : Option Text)
      → get_elem? list (unwrap_or (find_nickname p list nickname) 0) ≡ best_match nickname list
  unfolding find_nickname
  at_index list none = refl
  at_index list (some n) = elim (Option-cases (find_idx p n list 0)) [
    | inl absent ↦ ground (arith, find_idx-none n list 0 absent)
    | inr (k, found) ↦ let (e, first, at, rest) = found_first n list k found in ground arith
  ]

  -- With two profiles or more the lookup takes the first that matches the nickname, or the default
  -- nickname when none is given, and falls back on the first of all when there is no match.
  pub get_profile-best_match :
      (self : AppCfg p) (nickname : Option Text)
      → 2 ≤ length self.user_profiles
      → get_profile p self nickname
        ≡ context
            (best_match (or_default p nickname self.workspace.default_profile) self.user_profiles)
            no_profile_at_index
  unfolding get_profile get_profile_idx
  get_profile-best_match self nickname many =
      ground
        (arith, at_index self.user_profiles (or_default p nickname self.workspace.default_profile))

  get_elem?-lt :
      (list : List (Profile p)) (i : ℕ)
      → i < length list
      → (e : Profile p) × (get_elem? list i ≡ some e)
  get_elem?-lt [] i h = absurd (omega arith)
  get_elem?-lt (e ∷ list) zero h = (e, refl)
  get_elem?-lt (e ∷ list) (suc i) h = get_elem?-lt list i (omega arith)

  get_elem?-empty : (list : List (Profile p)) (i : ℕ) → length list ≡ 0 → get_elem? list i ≡ none
  get_elem?-empty [] i h = refl
  get_elem?-empty (e ∷ list) i h = absurd (omega arith)

  index_in_range :
      (self : AppCfg p) (nickname : Option Text)
      → (length self.user_profiles ≡ 0)
        ⊎ (unwrap_or (get_profile_idx p self nickname) 0 < length self.user_profiles)
  unfolding get_profile_idx
  index_in_range self nickname = elim (Result-cases (get_profile_idx p self nickname)) [
    | inl (e, fails) ↦ rw fails (ground arith)
    | inr (i, found) ↦ rw found (inr (get_profile_idx-lt self nickname i found))
  ]

  -- The lookup fails exactly when there is no profile at all.
  pub get_profile_fails_iff :
      (self : AppCfg p) (nickname : Option Text)
      → (get_profile p self nickname ≡ err no_profile_at_index) ↔ (length self.user_profiles ≡ 0)
  unfolding get_profile
  get_profile_fails_iff self nickname = ground (
    arith,
    index_in_range self nickname,
    get_elem?-empty self.user_profiles (unwrap_or (get_profile_idx p self nickname) 0),
    get_elem?-lt self.user_profiles (unwrap_or (get_profile_idx p self nickname) 0),
  )

  -- Removing the only profile succeeds whatever nickname is asked for.
  pub try_remove_profile_only :
      (self : AppCfg p) (e : Profile p) (nickname : Text)
      → self.user_profiles ≡ e ∷ []
      → try_remove_profile p self nickname ≡ ok (record self { user_profiles = [] })
  unfolding try_remove_profile get_profile_idx
  try_remove_profile_only self e nickname only = rw only

  -- With two profiles or more the removal takes out the first that matches and no other, and it
  -- fails when none matches.
  pub try_remove_profile_first :
      (self : AppCfg p) (nickname : Text)
      → 2 ≤ length self.user_profiles
      → try_remove_profile p self nickname ≡ elim (find (matches p nickname) self.user_profiles) [
        | none ↦ err could_not_find_a_profile
        | some e ↦ ok (record self { user_profiles = without_first nickname self.user_profiles })
      ]
  unfolding try_remove_profile get_profile_idx
  try_remove_profile_first self nickname many =
      elim (Option-cases (find_idx p nickname self.user_profiles 0)) [
        | inl absent ↦
            rw (absent, find_idx-none nickname self.user_profiles 0 absent) (ground arith)
        | inr (k, found) ↦
            let (e, first, at, rest) = found_first nickname self.user_profiles k found in
            ground arith
      ]
