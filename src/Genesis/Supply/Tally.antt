-- ===== src/Genesis/Supply/Tally.antt =====
-- The sums of tools/genesis/src/supply.rs over whole numbers: what each account adds to each sum.
use libra_v.Prelude.{
  ℕ, ◌+◌, ◌-◌, ◌≤◌, Option, none, some, List, [], ◌∷◌, ltb, if◌then◌else◌, ◌≡◌, refl, arith, zero,
  suc,
}
use libra_v.Platform.{Platform}
use libra_v.Types.Resources.{SlowWalletResource, CumulativeDepositResource}
use libra_v.Compat.LegacyRecovery.{LegacyRecoveryV6}
use libra_v.Genesis.ParseJson.Drop.{coin_of, coins}

pub record Tally : Type 0 where
  pub total : ℕ
  pub normal : ℕ
  pub validator : ℕ
  pub slow_total : ℕ
  pub slow_locked : ℕ
  pub slow_validator_locked : ℕ
  pub slow_unlocked : ℕ
  -- the coins of slow wallets that have unlocked nothing
  pub never_unlocked : ℕ

abbrev pub no_coins : Tally
no_coins = record {
  total = 0;
  normal = 0;
  validator = 0;
  slow_total = 0;
  slow_locked = 0;
  slow_validator_locked = 0;
  slow_unlocked = 0;
  never_unlocked = 0;
}

abbrev pub plus : Tally → Tally → Tally
plus a b = record {
  total = a.total + b.total;
  normal = a.normal + b.normal;
  validator = a.validator + b.validator;
  slow_total = a.slow_total + b.slow_total;
  slow_locked = a.slow_locked + b.slow_locked;
  slow_validator_locked = a.slow_validator_locked + b.slow_validator_locked;
  slow_unlocked = a.slow_unlocked + b.slow_unlocked;
  never_unlocked = a.never_unlocked + b.never_unlocked;
}

abbrev pub if_some {ℓ} : {A : Type ℓ} → Option A → ℕ → ℕ
if_some none n = 0
if_some (some a) n = n

-- A slow wallet with `user` coins of which `unlocked` may be spent.
abbrev pub slow_tally {ℓ} : {A : Type ℓ} → ℕ → ℕ → Option A → Tally
slow_tally user zero cfg = record no_coins {
  total = user;
  slow_total = user;
  never_unlocked = user;
}
slow_tally user (suc n) cfg =
    let unlocked = suc n in
    if ltb unlocked user
    then record no_coins {
      total = user;
      slow_total = user;
      slow_unlocked = unlocked;
      slow_locked = user - unlocked;
      validator = if_some cfg user;
      slow_validator_locked = if_some cfg (user - unlocked);
    }
    else record no_coins { total = user; slow_total = user; slow_unlocked = user }

module _ {p : Platform} where
  abbrev pub kind_tally :
      ℕ
      → Option SlowWalletResource
      → Option (CumulativeDepositResource p)
      → Option p.ValidatorConfig
      → Tally
  kind_tally user (some sl) cd cfg = slow_tally user sl.unlocked cfg
  kind_tally user none (some cd) cfg = record no_coins {
    total = user;
    slow_total = user;
    slow_locked = user;
  }
  kind_tally user none none cfg = record no_coins { total = user; normal = user }

  unfoldable pub tally : LegacyRecoveryV6 p → Tally
  tally e = kind_tally (coin_of e.balance) e.slow_wallet e.cumulative_deposits e.val_cfg

  unfoldable pub tally_all : List (LegacyRecoveryV6 p) → Tally
  tally_all [] = no_coins
  tally_all (e ∷ r) = plus (tally e) (tally_all r)

-- How the sums of a tally hang together.
pub record IsBalanced (t : Tally) : Type 0 where
  pub by_kind : t.total ≡ t.normal + t.slow_total
  pub by_lock : t.slow_total ≡ t.slow_locked + t.slow_unlocked + t.never_unlocked
  pub of_validators : t.slow_validator_locked ≤ t.validator
  pub validators_slow : t.validator ≤ t.slow_total

pub IsBalanced-plus : {a b : Tally} → IsBalanced a → IsBalanced b → IsBalanced (plus a b)
IsBalanced-plus ha hb = omega arith

IsBalanced-slow {ℓ} :
    {A : Type ℓ} (user n : ℕ) (cfg : Option A) → IsBalanced (slow_tally user n cfg)
IsBalanced-slow user zero cfg = omega arith
IsBalanced-slow user (suc n) cfg = ground arith

total-slow {ℓ} : {A : Type ℓ} (user n : ℕ) (cfg : Option A) → (slow_tally user n cfg).total ≡ user
total-slow user zero cfg = refl
total-slow user (suc n) cfg = ground arith

module _ {p : Platform} where
  IsBalanced-kind :
      (user : ℕ) (sl : Option SlowWalletResource) (cd : Option (CumulativeDepositResource p))
      (cfg : Option p.ValidatorConfig)
      → IsBalanced (kind_tally user sl cd cfg)
  IsBalanced-kind user (some sl) cd cfg = IsBalanced-slow user sl.unlocked cfg
  IsBalanced-kind user none (some cd) cfg = omega arith
  IsBalanced-kind user none none cfg = omega arith

  total-kind :
      (user : ℕ) (sl : Option SlowWalletResource) (cd : Option (CumulativeDepositResource p))
      (cfg : Option p.ValidatorConfig)
      → (kind_tally user sl cd cfg).total ≡ user
  total-kind user (some sl) cd cfg = total-slow user sl.unlocked cfg
  total-kind user none (some cd) cfg = refl
  total-kind user none none cfg = refl

  pub tally-IsBalanced : (e : LegacyRecoveryV6 p) → IsBalanced (tally e)
  unfolding tally
  tally-IsBalanced e =
      IsBalanced-kind (coin_of e.balance) e.slow_wallet e.cumulative_deposits e.val_cfg

  pub total-tally : (e : LegacyRecoveryV6 p) → (tally e).total ≡ coin_of e.balance
  unfolding tally
  total-tally e = total-kind (coin_of e.balance) e.slow_wallet e.cumulative_deposits e.val_cfg

  pub tally_all-IsBalanced : (r : List (LegacyRecoveryV6 p)) → IsBalanced (tally_all r)
  unfolding tally_all
  tally_all-IsBalanced [] = omega arith
  tally_all-IsBalanced (e ∷ r) = IsBalanced-plus (tally-IsBalanced e) (tally_all-IsBalanced r)

  pub total-tally_all : (r : List (LegacyRecoveryV6 p)) → (tally_all r).total ≡ coins r
  unfolding tally_all
  total-tally_all [] = omega arith
  total-tally_all (e ∷ r) = omega (arith, total-tally e, total-tally_all r)
