-- ===== src/Types/Profile/Pledges.antt =====
-- What `push_pledge`, `check_has_pledge` and the offers of types/src/core_types/app_cfg.rs do to the
-- pledges of a profile, and the nickname of an address.
use libra_v.Prelude.{
  ℕ, Option, none, some, List, [], ◌∷◌, ◌++◌, ◌≡◌, refl, ap, Bool, true, false, Text, text_eq,
  text_eq_iff, length, length-take, ◌==◌, if◌then◌else◌, Result, ok, take, find, arith, Bool-cases,
  inl, inr,
}
use libra_v.Platform.{Platform}
use libra_v.Types.Pledge.{
  Pledge, PledgePanic, check_pledge_hash, pledge_protect_the_game, pledge_validator,
  pledge_dialogue,
}
use libra_v.Types.Profile.{
  Profile, get_nickname, legacy_zeros, push_to, push_pledge, any_pledge, check_has_pledge,
  maybe_offer_basic_pledge, maybe_offer_validator_pledge,
}

-- The pledge of an id in a list that may be missing.
abbrev pub pledge_of : ℕ → Option (List Pledge) → Option Pledge
pledge_of id none = none
pledge_of id (some list) = find (λ e. e.id == id) list

find-append :
    (id : ℕ) (list : List Pledge) (new : Pledge)
    → find (λ e. e.id == id) (list ++ new ∷ []) ≡ elim (find (λ e. e.id == id) list) [
      | none ↦ (if new.id == id then some new else none)
      | some e ↦ some e
    ]
find-append id [] new = ground arith
find-append id (e ∷ list) new = ground (arith, find-append id list new)

module _ (p : Platform) where
  abbrev pub first_of_ids : Option Pledge → Pledge → ℕ → Option Pledge
  first_of_ids (some e) new id = some e
  first_of_ids none new id = if new.id == id then some new else none

  pledge_of-push_to :
      (pledges : Option (List Pledge)) (new : Pledge) (id : ℕ)
      → find (λ e. e.id == id) (push_to p pledges new) ≡ first_of_ids (pledge_of id pledges) new id
  pledge_of-push_to none new id = ground arith
  pledge_of-push_to (some list) new id = ground (
    arith,
    find-append id list new,
    λ (e : new.id ≡ id). ap (λ k. find (λ (x : Pledge). x.id == k) list) e,
  )

  -- Pushing a pledge adds it under its id, unless a pledge with this id is there, which then stays;
  -- the pledges of all other ids stay too.
  pub pledge_of-push_pledge :
      (self : Profile p) (new : Pledge) (id : ℕ)
      → pledge_of id (push_pledge p self new).pledges
        ≡ first_of_ids (pledge_of id self.pledges) new id
  unfolding push_pledge
  pledge_of-push_pledge self new id = pledge_of-push_to self.pledges new id

  not_zeros : (s : Text) → text_eq (take 31 s) (legacy_zeros p) ≡ false
  not_zeros s = elim (Bool-cases (text_eq (take 31 s) (legacy_zeros p))) [
    | inl same ↦ absurd (
        omega
          (arith, length-take 31 s, ap length ((text_eq_iff (take 31 s) (legacy_zeros p)).0 same)))
    | inr differ ↦ differ
  ]

  -- The nickname of every address is its first four digits: the branch for the addresses of founders,
  -- which begin with zeros, is never taken.
  pub get_nickname_never_legacy :
      (a : p.AccountAddress) → get_nickname p a ≡ take 4 (p.account_to_string a)
  unfolding get_nickname
  get_nickname_never_legacy a = rw (not_zeros (p.account_to_string a))

  any_pledge-append :
      (id : ℕ) (list : List Pledge) (new : Pledge)
      → (new.id == 0) ≡ false
      → any_pledge p id (list ++ new ∷ []) ≡ any_pledge p id list
  unfolding any_pledge
  any_pledge-append id [] new h = ground arith
  any_pledge-append id (e ∷ list) new h = ground (arith, any_pledge-append id list new h)

  -- The pledges that `check_has_pledge` searches on the main network.
  abbrev searched : ℕ → Option (List Pledge) → Result PledgePanic Bool
  searched id none = ok false
  searched id (some list) = any_pledge p id list

  searched-push_to :
      (id : ℕ) (pledges : Option (List Pledge)) (new : Pledge)
      → (new.id == 0) ≡ false
      → searched id pledges ≡ ok false
      → any_pledge p id (push_to p pledges new) ≡ ok false
  unfolding any_pledge
  searched-push_to id none new other h = ground arith
  searched-push_to id (some list) new other h = ground (arith, any_pledge-append id list new)

  check_again :
      (mode : p.NamedChain) (self : Profile p) (new : Pledge) (id : ℕ)
      → (new.id == 0) ≡ false
      → check_has_pledge p mode self id ≡ ok false
      → check_has_pledge p mode (push_pledge p self new) id ≡ ok false
  unfolding check_has_pledge push_pledge
  check_again mode self new id other h = ground (arith, searched-push_to id self.pledges new other)

  -- A profile that fails the check of the validator's pledge still fails it after the offer, also if
  -- the user takes the pledge: the pledge is kept under the id 1, and the check wants the id 0.
  pub validator_offer_recurs :
      (mode : p.NamedChain) (answer : Bool) (self : Profile p)
      → check_has_pledge p mode self 1 ≡ ok false
      → (self' : Profile p) × (maybe_offer_validator_pledge p mode answer self ≡ ok self')
        × (check_has_pledge p mode self' 1 ≡ ok false)
  unfolding maybe_offer_validator_pledge pledge_validator
  validator_offer_recurs mode answer self h =
      elim (Bool-cases (pledge_dialogue p mode answer (pledge_validator p))) [
        | inl taken ↦ (
          push_pledge p self (pledge_validator p),
          rw (h, taken),
          check_again mode self (pledge_validator p) 1 refl h,
        )
        | inr refused ↦ (self, rw (h, refused), h)
      ]

  any_pledge-found :
      (list : List Pledge) (new : Pledge)
      → find (λ e. e.id == 0) list ≡ none
      → (new.id == 0) ≡ true
      → check_pledge_hash p 0 new.hash ≡ ok true
      → any_pledge p 0 (list ++ new ∷ []) ≡ ok true
  unfolding any_pledge
  any_pledge-found [] new absent game h = ground arith
  any_pledge-found (e ∷ list) new absent game h = ground (arith, any_pledge-found list new)

  found-push_to :
      (pledges : Option (List Pledge)) (new : Pledge)
      → pledge_of 0 pledges ≡ none
      → new.id ≡ 0
      → check_pledge_hash p 0 new.hash ≡ ok true
      → any_pledge p 0 (push_to p pledges new) ≡ ok true
  unfolding any_pledge
  found-push_to none new absent game h = ground arith
  found-push_to (some list) new absent game h =
      ground
        (arith, any_pledge-found list new, ap (λ k. find (λ (x : Pledge). x.id == k) list) game)

  game_id : (pledge_protect_the_game p).id ≡ 0
  unfolding pledge_protect_the_game
  game_id = refl

  game_hash : check_pledge_hash p 0 (pledge_protect_the_game p).hash ≡ ok true
  unfolding check_pledge_hash
  game_hash = rw ((text_eq_iff _ (pledge_protect_the_game p).hash).1 refl)

  searched-absent :
      (id : ℕ) (list : List Pledge)
      → find (λ e. e.id == 0) list ≡ none
      → any_pledge p id list ≡ ok false
  unfolding any_pledge
  searched-absent id [] absent = refl
  searched-absent id (e ∷ list) absent = ground (arith, searched-absent id list)

  fails-absent :
      (id : ℕ) (pledges : Option (List Pledge))
      → pledge_of 0 pledges ≡ none
      → searched id pledges ≡ ok false
  fails-absent id none absent = refl
  fails-absent id (some list) absent = searched-absent id list absent

  -- The offer of the basic pledge to a user who has no pledge of id 0 and answers yes returns, and
  -- the profile that it leaves passes the check of this pledge.
  pub basic_offer_settles :
      (mode : p.NamedChain) (self : Profile p)
      → pledge_of 0 self.pledges ≡ none
      → (self' : Profile p) × (maybe_offer_basic_pledge p mode true self ≡ ok self')
        × (check_has_pledge p mode self' 0 ≡ ok true)
  unfolding maybe_offer_basic_pledge pledge_dialogue check_has_pledge push_pledge
  basic_offer_settles mode self absent = elim (Bool-cases (p.chain_eq.beq mode p.mainnet)) [
    | inl main ↦ (
      push_pledge p self (pledge_protect_the_game p),
      ground (arith, fails-absent 0 self.pledges absent),
      rw main (found-push_to self.pledges (pledge_protect_the_game p) absent game_id game_hash),
    )
    | inr other ↦ (self, ground arith, ground arith)
  ]
