-- ===== src/Genesis/Supply/Exact.antt =====
-- The floating-point sums of tools/genesis/src/supply.rs are the sums over whole numbers as long as
-- all the coins fit the 53 bits of a significand.
use libra_v.Prelude.{
  ℕ, ◌+◌, ◌-◌, ◌^◌, ◌≤◌, Option, none, some, List, [], ◌∷◌, ◌≡◌, refl, All, arith,
}
use libra_v.Platform.{Platform}
use libra_v.Types.Resources.{SlowWalletResource, CumulativeDepositResource, LegacyBalanceResourceV6}
use libra_v.Compat.LegacyRecovery.{LegacyRecoveryV6}
use libra_v.Genesis.ParseJson.Drop.{coin_of, coins}
use libra_v.Genesis.Supply.{
  Supply, zero_supply, user_total, inc_slow, inc_kind, inc_supply, inc_all,
  populate_supply_stats_from_legacy,
}
use libra_v.Genesis.Supply.Tally.{
  Tally, no_coins, plus, tally, tally_all, slow_tally, kind_tally, IsBalanced, tally-IsBalanced,
  total-tally, IsBalanced-plus, tally_all-IsBalanced, total-tally_all,
}

-- The floating-point sums hold the whole numbers of a tally.
pub record Holds (p : Platform) (s : Supply p) (t : Tally) : Type 0 where
  pub total : s.total ≡ p.of_u64 t.total
  pub normal : s.normal ≡ p.of_u64 t.normal
  pub validator : s.validator ≡ p.of_u64 t.validator
  pub slow_total : s.slow_total ≡ p.of_u64 t.slow_total
  pub slow_locked : s.slow_locked ≡ p.of_u64 t.slow_locked
  pub slow_validator_locked : s.slow_validator_locked ≡ p.of_u64 t.slow_validator_locked
  pub slow_unlocked : s.slow_unlocked ≡ p.of_u64 t.slow_unlocked

abbrev SlowFits : Option SlowWalletResource → Type 0
SlowFits none = Unit
SlowFits (some s) = s.unlocked ≤ 2 ^ 53

-- The number of unlocked coins of an account fits a significand.
abbrev pub UnlockedFits : {p : Platform} → LegacyRecoveryV6 p → Type 0
UnlockedFits e = SlowFits e.slow_wallet

plus-no_coins : (t : Tally) → plus t no_coins ≡ t
plus-no_coins t = ground arith

no_coins-plus : (t : Tally) → plus no_coins t ≡ t
no_coins-plus t = ground arith

plus_assoc : (a b c : Tally) → plus (plus a b) c ≡ plus a (plus b c)
plus_assoc a b c = ground arith

zero_Holds : (p : Platform) → Holds p (zero_supply p) no_coins
zero_Holds p = ground arith

module _ (p : Platform) where
  -- A sum that already holds the total of the account.
  module _ (s : Supply p) (t : Tally) (user : ℕ) (fits : t.total + user ≤ 2 ^ 53) (b : IsBalanced t)
      (h : Holds p s t) where
    abbrev counted : Supply p
    counted = record s { total = p.add s.total (p.of_u64 user) }

    slow_Holds :
        (sl : SlowWalletResource) (cfg : Option p.ValidatorConfig)
        → sl.unlocked ≤ 2 ^ 53
        → Holds p
            (inc_slow p sl cfg (p.of_u64 user) counted)
            (plus t (slow_tally user sl.unlocked cfg))
    unfolding inc_slow
    slow_Holds sl cfg small = ground (
      arith,
      p.gtb-of_u64 user sl.unlocked,
      p.add-of_u64 t.total user,
      p.add-of_u64 t.slow_total user,
      p.sub-of_u64 user sl.unlocked,
      p.add-of_u64 t.slow_unlocked sl.unlocked,
      p.add-of_u64 t.slow_unlocked user,
      p.add-of_u64 t.slow_locked (user - sl.unlocked),
      p.add-of_u64 t.validator user,
      p.add-of_u64 t.slow_validator_locked (user - sl.unlocked),
    )

    kind_Holds :
        (sl : Option SlowWalletResource) (cd : Option (CumulativeDepositResource p))
        (cfg : Option p.ValidatorConfig)
        → SlowFits sl
        → Holds p
            (inc_kind p sl cd cfg (p.of_u64 user) counted)
            (plus t (kind_tally user sl cd cfg))
    unfolding inc_kind
    kind_Holds (some sl) cd cfg small = slow_Holds sl cfg small
    kind_Holds none (some cd) cfg small = ground (
      arith,
      p.add-of_u64 t.total user,
      p.add-of_u64 t.slow_total user,
      p.add-of_u64 t.slow_locked user,
    )
    kind_Holds none none cfg small =
        ground (arith, p.add-of_u64 t.total user, p.add-of_u64 t.normal user)

  user_total-eq : (b : Option LegacyBalanceResourceV6) → user_total p b ≡ p.of_u64 (coin_of b)
  user_total-eq none = refl
  user_total-eq (some b) = refl

  inc_supply-Holds :
      (s : Supply p) (t : Tally) (e : LegacyRecoveryV6 p)
      → t.total + coin_of e.balance ≤ 2 ^ 53
      → UnlockedFits e
      → IsBalanced t
      → Holds p s t
      → Holds p (inc_supply p s e) (plus t (tally e))
  unfolding inc_supply tally
  inc_supply-Holds s t e small unlocked b h = rw (user_total-eq e.balance) (
      kind_Holds s t (coin_of e.balance) small b h e.slow_wallet e.cumulative_deposits e.val_cfg
        unlocked)

  inc_all-Holds :
      (r : List (LegacyRecoveryV6 p)) (s : Supply p) (t : Tally)
      → t.total + coins r ≤ 2 ^ 53
      → All UnlockedFits r
      → IsBalanced t
      → Holds p s t
      → Holds p (inc_all p s r) (plus t (tally_all r))
  unfolding inc_all tally_all
  inc_all-Holds [] s t small unlocked b h = rw (plus-no_coins t) h
  inc_all-Holds (e ∷ r) s t small (ue, ur) b h = rw (← plus_assoc t (tally e) (tally_all r)) (
      inc_all-Holds r (inc_supply p s e) (plus t (tally e)) (omega (arith, total-tally e)) ur
        (IsBalanced-plus b (tally-IsBalanced e)) (inc_supply-Holds s t e (omega arith) ue b h))

  -- If all coins of the recovery file, and the unlocked coins of each account, are at most 2 ^ 53,
  -- the seven sums that the code counts are exact: each is the whole number of its tally. The tally
  -- is balanced: the total is the sum of all balances, and is made of the normal and the slow coins;
  -- the slow coins are the locked ones, the unlocked ones and those of the slow wallets that have
  -- unlocked nothing, which the code counts neither as locked nor as unlocked.
  pub populate_supply_exact :
      (r : List (LegacyRecoveryV6 p))
      → coins r ≤ 2 ^ 53
      → All UnlockedFits r
      → Holds p (populate_supply_stats_from_legacy p r) (tally_all r)
        × IsBalanced (tally_all r)
        × ((tally_all r).total ≡ coins r)
  unfolding populate_supply_stats_from_legacy
  populate_supply_exact r small unlocked = (
    rw (← no_coins-plus (tally_all r)) (
        inc_all-Holds r (zero_supply p) no_coins (omega arith) unlocked (omega arith)
          (zero_Holds p)),
    tally_all-IsBalanced r,
    total-tally_all r,
  )
