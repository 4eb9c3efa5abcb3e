-- ===== src/Compat/LegacyRecovery/Strip.antt =====
-- `strip_system_address` of compatibility/src/legacy_recovery_v6.rs.
use libra_v.Prelude.{
  Option, none, some, List, [], ◌∷◌, ◌≡◌, ◌↔◌, refl, Bool, false, not, ok, All, retain, arith,
  is_some, true, Bool-cases, inl, inr, >>=-eq-ok, context,
}
use libra_v.Platform.{Platform}
use libra_v.Compat.LegacyRecovery.{LegacyRecoveryV6, is_system, strip_system_address, unwrap_none}

module _ (p : Platform) where
  abbrev pub HasAccount : LegacyRecoveryV6 p → Type 0
  HasAccount e = is_some e.account ≡ true

  abbrev user_account : Option p.AccountAddress → Bool
  user_account none = false
  user_account (some a) = not (is_system p a)

  -- Not the account of the system.
  abbrev pub is_user : LegacyRecoveryV6 p → Bool
  is_user e = user_account e.account

  pub strip_total :
      (r : List (LegacyRecoveryV6 p))
      → All HasAccount r
      → strip_system_address p r ≡ ok (retain is_user r)
  unfolding strip_system_address
  strip_total [] h = refl
  strip_total (e ∷ r) (he, hr) = ground (arith, strip_total r hr)

  strip_accounts :
      (r : List (LegacyRecoveryV6 p)) (list : List (LegacyRecoveryV6 p))
      → strip_system_address p r ≡ ok list
      → All HasAccount r
  unfolding strip_system_address
  strip_accounts [] list h = tt
  strip_accounts (e ∷ r) list h =
      let (a, here, h') = >>=-eq-ok (context e.account unwrap_none) _ h in
      let (rest, there, _) = >>=-eq-ok (strip_system_address p r) _ h' in
      (ground arith, strip_accounts r rest there)

  -- The removal of system accounts returns exactly when every record has an account, and then with
  -- the records of the accounts that are not of the system, in their order.
  pub strip_exact :
      (r list : List (LegacyRecoveryV6 p))
      → (strip_system_address p r ≡ ok list) ↔ (All HasAccount r × (list ≡ retain is_user r))
  strip_exact r list = (
    λ h. let all = strip_accounts r list h in (all, cc (strip_total r all)),
    λ h. cc (strip_total r h.0),
  )

  All-retain :
      (P : LegacyRecoveryV6 p → Type 0) (q : LegacyRecoveryV6 p → Bool)
      (r : List (LegacyRecoveryV6 p))
      → All P r
      → All P (retain q r)
  All-retain P q [] h = tt
  All-retain P q (e ∷ r) (he, hr) = elim (Bool-cases (q e)) [
    | inl keep ↦ rw (keep, retain) (he, All-retain P q r hr)
    | inr leave ↦ rw (leave, retain) (All-retain P q r hr)
  ]

  pub stripped_accounts :
      (r list : List (LegacyRecoveryV6 p))
      → strip_system_address p r ≡ ok list
      → All HasAccount list
  stripped_accounts r list h =
      let (all, same) = (strip_exact r list).0 h in rw same (All-retain HasAccount is_user r all)
