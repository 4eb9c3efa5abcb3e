-- ===== src/Genesis/ParseJson/Repair.antt =====
-- `fix_slow_wallet` of tools/genesis/src/parse_json.rs, which `recovery_file_parse` runs on every
-- file that it reads.
use libra_v.Prelude.{Option, none, some, List, [], ◌∷◌, ◌≤◌, ◌≡◌, ◌↔◌, refl, map, All, arith}
use Prim.Native.Nat.{min}
use libra_v.Platform.{Platform}
use libra_v.Types.Resources.{LegacyBalanceResourceV6, SlowWalletResource}
use libra_v.Compat.LegacyRecovery.{LegacyRecoveryV6}
use libra_v.Genesis.ParseJson.{fix_entry, fix_slow_wallet, push}

abbrev WithinOf {ℓ} :
    {A : Type ℓ} → Option A → Option LegacyBalanceResourceV6 → Option SlowWalletResource → Type 0
WithinOf (some a) (some b) (some s) = s.unlocked ≤ b.coin
WithinOf (some a) (some b) none = Unit
WithinOf (some a) none s = Unit
WithinOf none b s = Unit

-- An account with a balance and a slow wallet has unlocked no more than its balance.
abbrev pub IsWithin : {p : Platform} → LegacyRecoveryV6 p → Type 0
IsWithin e = WithinOf e.account e.balance e.slow_wallet

abbrev forget_unlocked : Option SlowWalletResource → Option SlowWalletResource
forget_unlocked none = none
forget_unlocked (some s) = some (record s { unlocked = 0 })

-- All of a record but its number of unlocked coins.
abbrev pub rest_of : {p : Platform} → LegacyRecoveryV6 p → LegacyRecoveryV6 p
rest_of e = record e { slow_wallet = forget_unlocked e.slow_wallet }

abbrev cap_of :
    {A : Type 0}
    → Option A
    → Option LegacyBalanceResourceV6
    → Option SlowWalletResource
    → Option SlowWalletResource
cap_of (some a) (some b) (some s) = some (record s { unlocked = min s.unlocked b.coin })
cap_of (some a) (some b) none = none
cap_of (some a) none s = s
cap_of none b s = s

-- The slow wallet of a record with its unlocked coins capped by the balance.
abbrev pub capped : {p : Platform} → LegacyRecoveryV6 p → Option SlowWalletResource
capped e = cap_of e.account e.balance e.slow_wallet

module _ (p : Platform) where
  abbrev fixed : LegacyRecoveryV6 p → LegacyRecoveryV6 p × Option p.AccountAddress
  fixed e = fix_entry p e e.account e.balance e.slow_wallet

  push_nil :
      (o : Option p.AccountAddress) (errs : List p.AccountAddress)
      → push p o errs ≡ []
      → (o ≡ none) × (errs ≡ [])
  push_nil none errs h = (refl, h)
  push_nil (some a) errs h = cc

  fix_entry-IsWithin : (e : LegacyRecoveryV6 p) → IsWithin (fixed e).0
  unfolding fix_entry
  fix_entry-IsWithin e = ground arith

  fix_entry_within : (e : LegacyRecoveryV6 p) → IsWithin e → fixed e ≡ (e, none)
  unfolding fix_entry
  fix_entry_within e h = ground arith

  fix_entry_none : (e : LegacyRecoveryV6 p) → (fixed e).1 ≡ none → IsWithin e
  unfolding fix_entry
  fix_entry_none e h = ground arith

  rest_of-fix_entry : (e : LegacyRecoveryV6 p) → rest_of (fixed e).0 ≡ rest_of e
  unfolding fix_entry
  rest_of-fix_entry e = ground arith

  All-IsWithin : (r : List (LegacyRecoveryV6 p)) → All IsWithin (fix_slow_wallet p r).0
  unfolding fix_slow_wallet
  All-IsWithin [] = tt
  All-IsWithin (e ∷ r) = (fix_entry-IsWithin e, All-IsWithin r)

  fix_slow_wallet_within :
      (r : List (LegacyRecoveryV6 p)) → All IsWithin r → fix_slow_wallet p r ≡ (r, [])
  unfolding fix_slow_wallet
  fix_slow_wallet_within [] h = refl
  fix_slow_wallet_within (e ∷ r) (he, hr) = rw (fix_entry_within e he, fix_slow_wallet_within r hr)

  -- A second repair changes nothing and reports no account.
  pub fix_slow_wallet_idem :
      (r : List (LegacyRecoveryV6 p))
      → fix_slow_wallet p (fix_slow_wallet p r).0 ≡ ((fix_slow_wallet p r).0, [])
  fix_slow_wallet_idem r = fix_slow_wallet_within _ (All-IsWithin r)

  fix_slow_wallet_silent :
      (r : List (LegacyRecoveryV6 p)) → (fix_slow_wallet p r).1 ≡ [] → All IsWithin r
  unfolding fix_slow_wallet
  fix_slow_wallet_silent [] h = tt
  fix_slow_wallet_silent (e ∷ r) h = (
    fix_entry_none e ((push_nil _ _ h).0),
    fix_slow_wallet_silent r ((push_nil (fixed e).1 _ h).1),
  )

  -- The repair reports no account exactly when the file needs none.
  pub fix_slow_wallet_silent_iff :
      (r : List (LegacyRecoveryV6 p)) → ((fix_slow_wallet p r).1 ≡ []) ↔ All IsWithin r
  fix_slow_wallet_silent_iff r = (fix_slow_wallet_silent r, λ h. rw (fix_slow_wallet_within r h))

  -- The repair writes nothing but numbers of unlocked coins: the records, in their order, agree in
  -- all other fields with those of the file.
  rest_of-fix_slow_wallet :
      (r : List (LegacyRecoveryV6 p)) → map rest_of (fix_slow_wallet p r).0 ≡ map rest_of r
  unfolding fix_slow_wallet
  rest_of-fix_slow_wallet [] = refl
  rest_of-fix_slow_wallet (e ∷ r) = rw (rest_of-fix_entry e, rest_of-fix_slow_wallet r)

  slow_of-fix_entry : (e : LegacyRecoveryV6 p) → (fixed e).0.slow_wallet ≡ capped e
  unfolding fix_entry
  slow_of-fix_entry e = ground arith

  slow_of-fix_slow_wallet :
      (r : List (LegacyRecoveryV6 p))
      → map (λ e. e.slow_wallet) (fix_slow_wallet p r).0 ≡ map capped r
  unfolding fix_slow_wallet
  slow_of-fix_slow_wallet [] = refl
  slow_of-fix_slow_wallet (e ∷ r) = rw (slow_of-fix_entry e, slow_of-fix_slow_wallet r) refl

  -- After the repair no account with a balance and a slow wallet has unlocked more than its balance: the
  -- number of unlocked coins is the lower one of what it was and the balance, and the records,
  -- in their order, are otherwise those of the file.
  pub fix_slow_wallet-IsWithin :
      (r : List (LegacyRecoveryV6 p))
      → All IsWithin (fix_slow_wallet p r).0
        × (map (λ e. e.slow_wallet) (fix_slow_wallet p r).0 ≡ map capped r)
        × (map rest_of (fix_slow_wallet p r).0 ≡ map rest_of r)
  fix_slow_wallet-IsWithin r =
      (All-IsWithin r, slow_of-fix_slow_wallet r, rest_of-fix_slow_wallet r)
