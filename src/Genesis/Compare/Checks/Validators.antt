-- ===== src/Genesis/Compare/Checks/Validators.antt =====
-- What `check_val_set` of tools/genesis/src/compare.rs makes sure of.
use libra_v.Prelude.{
  suc, ◌≡◌, refl, subst, ◌∙◌, some, List, [], ◌∷◌, true, false, length, ok, All, arith, Bool-cases,
  inl, inr, if◌then◌else◌,
}
use libra_v.Platform.{Platform}
use libra_v.Genesis.Compare.Checks.{contains_address, check_each, check_val_set}

module _ (p : Platform) where
  -- Every address of `xs` is in `ys`.
  abbrev pub Within : List p.AccountAddress → List p.AccountAddress → Type 0
  Within xs ys = All (λ x. contains_address p ys x ≡ true) xs

  abbrev pub Distinct : List p.AccountAddress → Type 0
  Distinct [] = Unit
  Distinct (x ∷ xs) = (contains_address p xs x ≡ false) × Distinct xs

  each_iff :
      (addrs expected : List p.AccountAddress)
      → check_each p addrs expected ≡ ok tt
      → Within expected addrs
  unfolding check_each
  each_iff addrs [] h = tt
  each_iff addrs (v ∷ expected) h = elim (Bool-cases (contains_address p addrs v)) [
    | inl there ↦ (there, each_iff addrs expected (ground arith))
    | inr missing ↦ ground arith
  ]

  -- The list without the first occurrence of an address.
  abbrev erase : p.AccountAddress → List p.AccountAddress → List p.AccountAddress
  erase v [] = []
  erase v (a ∷ addrs) = if p.account_eq.beq a v then addrs else a ∷ erase v addrs

  length-erase :
      (v : p.AccountAddress) (addrs : List p.AccountAddress)
      → contains_address p addrs v ≡ true
      → suc (length (erase v addrs)) ≡ length addrs
  length-erase v [] h = cc
  length-erase v (a ∷ addrs) h = ground (arith, length-erase v addrs)

  contains-erase :
      (v x : p.AccountAddress) (addrs : List p.AccountAddress)
      → p.account_eq.beq v x ≡ false
      → contains_address p (erase v addrs) x ≡ contains_address p addrs x
  contains-erase v x [] differ = refl
  contains-erase v x (a ∷ addrs) differ = ground (
    arith,
    contains-erase v x addrs differ,
    p.account_eq.beq_iff a v,
    p.account_eq.beq_iff a x,
    p.account_eq.beq_iff v x,
  )

  Within-erase :
      (v : p.AccountAddress) (xs addrs : List p.AccountAddress)
      → contains_address p xs v ≡ false
      → Within xs addrs
      → Within xs (erase v addrs)
  Within-erase v [] addrs absent h = tt
  Within-erase v (x ∷ xs) addrs absent (hx, h) =
      let differ : p.account_eq.beq v x ≡ false =
        ground (arith, p.account_eq.beq_iff v x, p.account_eq.beq_iff x v) in
      (contains-erase v x addrs differ ∙ hx, Within-erase v xs addrs (ground arith) h)

  -- Different addresses that are all in a list of their number leave no other in it.
  pigeonhole :
      (expected addrs : List p.AccountAddress) (a : p.AccountAddress)
      → Distinct expected
      → Within expected addrs
      → length addrs ≡ length expected
      → contains_address p addrs a ≡ true
      → contains_address p expected a ≡ true
  pigeonhole [] [] a d h same there = cc
  pigeonhole [] (x ∷ addrs) a d h same there = absurd (omega arith)
  pigeonhole (v ∷ expected) addrs a (dv, d) (hv, h) same there =
      elim (Bool-cases (p.account_eq.beq v a)) [
        | inl here ↦ rw here refl
        | inr differ ↦
            let rest =
              pigeonhole expected (erase v addrs) a d (Within-erase v expected addrs dv h)
                (omega (arith, length-erase v addrs hv))
                (contains-erase v a addrs differ ∙ there) in
            rw differ rest
      ]

  Within-contains :
      (xs addrs : List p.AccountAddress) (a : p.AccountAddress)
      → Within xs addrs
      → contains_address p xs a ≡ true
      → contains_address p addrs a ≡ true
  Within-contains [] addrs a h there = cc
  Within-contains (x ∷ xs) addrs a (hx, h) there = elim (Bool-cases (p.account_eq.beq x a)) [
    | inl here ↦
        subst (λ b. contains_address p addrs b ≡ true) ((p.account_eq.beq_iff x a).0 here) hx
    | inr differ ↦ Within-contains xs addrs a h (ground arith)
  ]

  -- If the check of the validators passes and the expected validators differ from one another, then
  -- the genesis has exactly these: every expected one is in its set, and its set has no other.
  pub check_val_set-Within :
      (expected addrs : List p.AccountAddress) (a : p.AccountAddress)
      → Distinct expected
      → check_val_set p expected (some (some addrs)) ≡ ok tt
      → Within expected addrs × (contains_address p addrs a ≡ contains_address p expected a)
  unfolding check_val_set
  check_val_set-Within expected addrs a d passes =
      let same : length addrs ≡ length expected = ground arith in
      let within = each_iff addrs expected (ground arith) in
      (
        within,
        ground (
          arith,
          pigeonhole expected addrs a d within same,
          Within-contains expected addrs a within,
        ),
      )
