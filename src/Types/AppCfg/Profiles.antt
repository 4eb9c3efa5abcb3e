-- ===== src/Types/AppCfg/Profiles.antt =====
-- Adding profiles in types/src/core_types/app_cfg.rs.
use libra_v.Prelude.{
  ◌+◌, ◌≤◌, Option, some, List, [], ◌∷◌, ◌≡◌, refl, subst, Bool, false, All, length, find, ok,
  arith, if◌then◌else◌, Bool-cases, inl, inr,
}
use libra_v.Platform.{Platform}
use libra_v.Types.Profile.{Profile}
use libra_v.Types.AppCfg.{AppCfg, replace_or_push, maybe_add_profile}

module _ (p : Platform) where
  abbrev pub of_account : p.AccountAddress → Profile p → Bool
  of_account a e = p.account_eq.beq e.account a

  -- The profile that a lookup by account finds.
  abbrev pub profile_of : p.AccountAddress → List (Profile p) → Option (Profile p)
  profile_of a = find (of_account a)

  -- No two profiles have one account.
  abbrev pub DistinctAccounts : List (Profile p) → Type 0
  DistinctAccounts [] = Unit
  DistinctAccounts (e ∷ rest) =
      All (λ x. of_account e.account x ≡ false) rest × DistinctAccounts rest

  profile_of-replace_or_push :
      (new : Profile p) (list : List (Profile p)) (a : p.AccountAddress)
      → profile_of a (replace_or_push p new list)
        ≡ (if p.account_eq.beq new.account a then some new else profile_of a list)
  unfolding replace_or_push
  profile_of-replace_or_push new [] a = ground arith
  profile_of-replace_or_push new (e ∷ list) a = ground (
    arith,
    profile_of-replace_or_push new list a,
    p.account_eq.beq_iff e.account new.account,
    p.account_eq.beq_iff e.account a,
    p.account_eq.beq_iff new.account a,
  )

  others-replace :
      (e new : Profile p) (list : List (Profile p))
      → p.account_eq.beq new.account e.account ≡ false
      → All (λ x. of_account e.account x ≡ false) list
      → All (λ x. of_account e.account x ≡ false) (replace_or_push p new list)
  unfolding replace_or_push
  others-replace e new [] differ h = (differ, tt)
  others-replace e new (x ∷ list) differ (hx, h) =
      elim (Bool-cases (p.account_eq.beq x.account new.account)) [
        | inl same ↦ rw same (differ, h)
        | inr other ↦ rw other (hx, others-replace e new list differ h)
      ]

  distinct-replace_or_push :
      (new : Profile p) (list : List (Profile p))
      → DistinctAccounts list
      → DistinctAccounts (replace_or_push p new list)
  unfolding replace_or_push
  distinct-replace_or_push new [] h = (tt, tt)
  distinct-replace_or_push new (e ∷ list) (he, h) =
      elim (Bool-cases (p.account_eq.beq e.account new.account)) [
        | inl same ↦
            let equal = (p.account_eq.beq_iff e.account new.account).0 same in
            rw same (subst (λ a. All (λ x. of_account a x ≡ false) list) equal he, h)
        | inr other ↦
            let differ : p.account_eq.beq new.account e.account ≡ false = ground (
              arith,
              p.account_eq.beq_iff e.account new.account,
              p.account_eq.beq_iff new.account e.account,
            ) in
            rw other (others-replace e new list differ he, distinct-replace_or_push new list h)
      ]

  length-replace_or_push :
      (new : Profile p) (list : List (Profile p))
      → length (replace_or_push p new list) ≤ length list + 1
  unfolding replace_or_push
  length-replace_or_push new [] = omega arith
  length-replace_or_push new (e ∷ list) = ground (arith, length-replace_or_push new list)

  -- A lookup of the account finds the profile that was added last for it, and every other account
  -- keeps its profile; accounts that were distinct stay distinct.
  pub profile_of-maybe_add_profile :
      (self : AppCfg p) (new : Profile p)
      → (self' : AppCfg p) × (maybe_add_profile p self new ≡ ok self')
        × ((a : p.AccountAddress)
            → profile_of a self'.user_profiles ≡ (
                if p.account_eq.beq new.account a
                then some new
                else profile_of a self.user_profiles))
        × (DistinctAccounts self.user_profiles → DistinctAccounts self'.user_profiles)
  unfolding maybe_add_profile
  profile_of-maybe_add_profile self new = (
    record self { user_profiles = replace_or_push p new self.user_profiles },
    refl,
    profile_of-replace_or_push new self.user_profiles,
    distinct-replace_or_push new self.user_profiles,
  )
