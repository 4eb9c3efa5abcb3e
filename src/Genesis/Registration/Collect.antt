-- ===== src/Genesis/Registration/Collect.antt =====
-- The collection of all registrations in tools/genesis/src/genesis_builder.rs.
use libra_v.Prelude.{
  ◌≡◌, ◌≢◌, subst, ◌↔◌, refl, sym, ap, ◌∙◌, List, [], ◌∷◌, Text, ok, err, All, Result-cases, inl,
  inr, ok-injective, err≢ok,
}
use libra_v.Platform.{Platform}
use libra_v.Genesis.Registration.{ConfigError}
use libra_v.Genesis.Registration.Config.{
  KeyTypes, ValidatorConfiguration, Client, get_config, get_configs, bail_if_any,
  get_validator_configs,
}

module _ (p : Platform) (k : KeyTypes p) (client : Client p k) where
  -- Each user's registration was read as the one at its place.
  abbrev pub AllRead : List Text → List (ValidatorConfiguration p k) → Type 0
  AllRead [] [] = Unit
  AllRead (user ∷ users) (v ∷ vs) = (get_config p k client user ≡ ok v) × AllRead users vs
  AllRead _ _ = ⊥

  abbrev pub Failed : Text × ConfigError → Type 0
  Failed e = get_config p k client e.0 ≡ err e.1

  read_all :
      (users : List Text) (vs : List (ValidatorConfiguration p k))
      → AllRead users vs
      → get_configs p k client users ≡ (vs, [])
  unfolding get_configs
  read_all [] [] h = refl
  read_all [] (v ∷ vs) h = elim h [ ]
  read_all (user ∷ users) [] h = elim h [ ]
  read_all (user ∷ users) (v ∷ vs) (read, h) = rw (read, read_all users vs h, get_configs) refl

  after_failure :
      (user : Text) (users : List Text) (e : ConfigError)
      → get_config p k client user ≡ err e
      → get_configs p k client (user ∷ users)
        ≡ ((get_configs p k client users).0, (user, e) ∷ (get_configs p k client users).1)
  unfolding get_configs
  after_failure user users e failed = rw (failed, get_configs) refl

  after_success :
      (user : Text) (users : List Text) (v : ValidatorConfiguration p k)
      → get_config p k client user ≡ ok v
      → get_configs p k client (user ∷ users)
        ≡ (v ∷ (get_configs p k client users).0, (get_configs p k client users).1)
  unfolding get_configs
  after_success user users v read = rw (read, get_configs) refl

  nonempty : (e : Text × ConfigError) (es : List (Text × ConfigError)) → e ∷ es ≡ [] → ⊥
  nonempty e es h = cc

  no_users : AllRead [] (get_configs p k client []).0
  unfolding get_configs
  no_users = tt

  read_back :
      (users : List Text)
      → (get_configs p k client users).1 ≡ []
      → AllRead users (get_configs p k client users).0
  read_back [] h = no_users
  read_back (user ∷ users) h = elim (Result-cases (get_config p k client user)) [
    | inl (e, failed) ↦
        let step = after_failure user users e failed in
        absurd (nonempty _ _ (sym (ap (λ r. r.1) step) ∙ h))
    | inr (v, read) ↦
        let step = after_success user users v read in
        let rest = read_back users (sym (ap (λ r. r.1) step) ∙ h) in
        subst (AllRead (user ∷ users)) (sym (ap (λ r. r.0) step)) (read, rest)
  ]

  bail_if_any-ok :
      (vs ws : List (ValidatorConfiguration p k)) (es : List (Text × ConfigError))
      → bail_if_any p k ws es ≡ ok vs
      → (ws ≡ vs) × (es ≡ [])
  bail_if_any-ok vs ws [] h = (ok-injective h, refl)
  bail_if_any-ok vs ws (e ∷ es) h = absurd (err≢ok h)

  returned :
      (users : List Text) (vs : List (ValidatorConfiguration p k))
      → get_validator_configs p k client users ≡ ok vs
      → AllRead users vs
  unfolding get_validator_configs
  returned users vs h =
      let (same, clean) = bail_if_any-ok vs _ (get_configs p k client users).1 h in
      subst (AllRead users) same (read_back users clean)

  -- All registrations are returned exactly when each of them is read, in the order of the users.
  pub get_validator_configs_iff :
      (users : List Text) (vs : List (ValidatorConfiguration p k))
      → (get_validator_configs p k client users ≡ ok vs) ↔ AllRead users vs
  unfolding get_validator_configs
  get_validator_configs_iff users vs = (returned users vs, λ h. rw (read_all users vs h) refl)

  failures : (users : List Text) → All Failed (get_configs p k client users).1
  unfolding get_configs
  failures [] = tt
  failures (user ∷ users) = elim (Result-cases (get_config p k client user)) [
    | inl (e, failed) ↦ rw (failed, get_configs) (failed, failures users)
    | inr (v, read) ↦ rw (read, get_configs) (failures users)
  ]

  bail_if_any-err :
      (ws : List (ValidatorConfiguration p k)) (es fs : List (Text × ConfigError))
      → bail_if_any p k ws es ≡ err fs
      → (es ≡ fs) × (fs ≢ [])
  bail_if_any-err ws [] fs h = cc
  bail_if_any-err ws (e ∷ es) fs h = (cc, λ n. cc)

  -- An error names some user, and every user that it names failed with the error that is given.
  pub get_validator_configs-Failed :
      (users : List Text) (fs : List (Text × ConfigError))
      → get_validator_configs p k client users ≡ err fs
      → (fs ≢ []) × All Failed fs
  unfolding get_validator_configs
  get_validator_configs-Failed users fs h =
      let (same, some_user) = bail_if_any-err _ (get_configs p k client users).1 fs h in
      (some_user, subst (All Failed) same (failures users))
