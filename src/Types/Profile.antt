-- ===== src/Types/Profile.antt =====
-- types/src/core_types/app_cfg.rs: a profile of a user, its keys and its pledges. The messages on
-- the console are left out.
pub mod Pledges
use libra_v.Prelude.{
  ℕ, Option, none, some, List, [], ◌∷◌, ◌++◌, Bool, true, false, Text, codes, text_eq, ◌==◌,
  if◌then◌else◌, Result, ok, err, ◌>>=◌, context, any, take, drop, replicate, find,
}
use libra_v.Platform.{Platform}
use libra_v.Types.Coin.{SlowWalletBalance}
use libra_v.Types.Pledge.{
  Pledge, PledgePanic, check_pledge_hash, pledge_protect_the_game, pledge_validator,
  pledge_dialogue,
}

pub data CfgError : Type 0 where
  no_profiles_found could_not_find_a_profile no_profile_at_index : CfgError
  no_private_key_found : CfgError
  no_network_profiles could_not_find_a_network_profile : CfgError
  no_verified_nodes no_best_one no_urls_to_choose_from : CfgError
  fetch_failed save_failed : CfgError

pub record Profile (p : Platform) : Type 0 where
  pub account : p.AccountAddress
  pub auth_key : p.AuthenticationKey
  pub test_private_key : Option p.Ed25519PrivateKey
  pub nickname : Text
  pub on_chain : Bool
  pub balance : SlowWalletBalance
  pub locale : Option Text
  pub statement : Text
  pub pledges : Option (List Pledge)

module _ (p : Platform) where
  abbrev pub default_profile : Profile p
  default_profile = record {
    account = p.account_zero;
    auth_key = p.authentication_key_new (replicate 32 0);
    statement = codes "Protests rage across the nation";
    test_private_key = none;
    locale = none;
    nickname = codes "default";
    on_chain = false;
    balance = record { unlocked = 0; total = 0 };
    pledges = none;
  }

  -- The text that the first 31 digits of the address are compared with has 32 digits.
  abbrev pub legacy_zeros : Text
  legacy_zeros = replicate 32 b'0'

  pub get_nickname : p.AccountAddress → Text
  get_nickname acc =
      let s = p.account_to_string acc in
      if text_eq (take 31 s) legacy_zeros then take 4 (drop 32 s) else take 4 s

  pub new_profile : p.AuthenticationKey → p.AccountAddress → Profile p
  new_profile auth acc = record default_profile {
    account = acc;
    auth_key = auth;
    nickname = get_nickname acc;
  }

  pub set_private_key : Profile p → p.Ed25519PrivateKey → Profile p
  set_private_key self key = record self { test_private_key = some key }

  pub borrow_private_key : Profile p → Result CfgError p.Ed25519PrivateKey
  borrow_private_key self = context self.test_private_key no_private_key_found

  -- The list after `push_pledge`; a pledge with an id that is there is not added.
  abbrev pub push_to : Option (List Pledge) → Pledge → List Pledge
  push_to none new = new ∷ []
  push_to (some list) new = elim (find (λ e. e.id == new.id) list) [
    | none ↦ list ++ new ∷ []
    | some e ↦ list
  ]

  pub push_pledge : Profile p → Pledge → Profile p
  push_pledge self new = record self { pledges = some (push_to self.pledges new) }

  -- `any` over a test that may panic: it stops at the first pledge that passes.
  unfoldable pub any_pledge : ℕ → List Pledge → Result PledgePanic Bool
  any_pledge pledge_id [] = ok false
  any_pledge pledge_id (e ∷ list) =
      let rest = any_pledge pledge_id list in
      if e.id == 0
      then (do here ← check_pledge_hash p pledge_id e.hash; if here then ok true else rest)
      else rest

  unfoldable pub check_has_pledge : p.NamedChain → Profile p → ℕ → Result PledgePanic Bool
  unfolding any_pledge
  check_has_pledge mode_0l self pledge_id =
      if p.chain_eq.beq mode_0l p.mainnet
      then elim self.pledges [ none ↦ ok false | some list ↦ any_pledge pledge_id list ]
      else ok true

  -- The two offers share their shape: they differ in the index and in the pledge.
  abbrev pub offer : p.NamedChain → Bool → ℕ → Pledge → Profile p → Result PledgePanic (Profile p)
  offer mode_0l answer pledge_id pledge self = do
    has ← check_has_pledge mode_0l self pledge_id
    ok (
        if has
        then self
        else if pledge_dialogue p mode_0l answer pledge
        then push_pledge self pledge
        else self)

  pub maybe_offer_basic_pledge : p.NamedChain → Bool → Profile p → Result PledgePanic (Profile p)
  maybe_offer_basic_pledge mode_0l answer self =
      offer mode_0l answer 0 (pledge_protect_the_game p) self

  pub maybe_offer_validator_pledge :
      p.NamedChain → Bool → Profile p → Result PledgePanic (Profile p)
  maybe_offer_validator_pledge mode_0l answer self =
      offer mode_0l answer 1 (pledge_validator p) self
