-- ===== src/Genesis/BTreeMap.antt =====
-- std::collections::BTreeMap keyed by an account address: an association list in the order of its
-- keys, with `insert`, `get_mut` as a read and a write, and iteration in the order of the list.
use libra_v.Prelude.{
  ℕ, ◌+◌, ◌≤◌, Bool, map, is_some, List, [], ◌∷◌, Option, none, some, ◌≡◌, refl, arith,
  if◌then◌else◌,
}
use libra_v.Platform.{Platform}

abbrev pub BTreeMap {ℓ} : Platform → Type ℓ → Type ℓ
BTreeMap p V = List (p.AccountAddress × V)

module _ {ℓ} {V : Type ℓ} (p : Platform) where
  unfoldable pub lookup : p.AccountAddress → BTreeMap p V → Option V
  lookup k [] = none
  lookup k ((j, v) ∷ m) = if p.account_eq.beq j k then some v else lookup k m

  unfoldable pub insert : p.AccountAddress → V → BTreeMap p V → BTreeMap p V
  insert k v [] = (k, v) ∷ []
  insert k v ((j, w) ∷ m) =
      if p.account_eq.beq j k
      then (k, v) ∷ m
      else if p.account_lt k j
      then (k, v) ∷ (j, w) ∷ m
      else (j, w) ∷ insert k v m

  -- The write through the reference that `get_mut` returns; a missing key changes nothing.
  unfoldable pub update : p.AccountAddress → V → BTreeMap p V → BTreeMap p V
  update k v [] = []
  update k v ((j, w) ∷ m) = if p.account_eq.beq j k then (j, v) ∷ m else (j, w) ∷ update k v m

  pub lookup-insert :
      (k j : p.AccountAddress) (v : V) (m : BTreeMap p V)
      → lookup j (insert k v m) ≡ (if p.account_eq.beq k j then some v else lookup j m)
  unfolding lookup insert
  lookup-insert k j v [] = refl
  lookup-insert k j v ((i, w) ∷ m) = ground (
    arith,
    p.account_eq.beq_iff k j,
    p.account_eq.beq_iff i k,
    p.account_eq.beq_iff i j,
    lookup-insert k j v m,
  )

  -- `contains_key`.
  abbrev pub known : BTreeMap p V → p.AccountAddress → Bool
  known m k = is_some (lookup k m)

  pub known-update :
      (k j : p.AccountAddress) (v : V) (m : BTreeMap p V) → known (update k v m) j ≡ known m j
  unfolding lookup update
  known-update k j v [] = refl
  known-update k j v ((i, w) ∷ m) =
      ground (arith, p.account_eq.beq_iff i k, p.account_eq.beq_iff i j, known-update k j v m)

  -- The sum of a number of every value.
  abbrev pub sum_by : (V → ℕ) → BTreeMap p V → ℕ
  sum_by f [] = 0
  sum_by f ((k, v) ∷ m) = f v + sum_by f m

  pub sum_by-update :
      (f : V → ℕ) (k : p.AccountAddress) (v w : V) (m : BTreeMap p V)
      → lookup k m ≡ some w
      → sum_by f (update k v m) + f w ≡ sum_by f m + f v
  unfolding lookup update
  sum_by-update f k v w [] h = cc
  sum_by-update f k v w ((i, x) ∷ m) h = ground (arith, sum_by-update f k v w m)

  pub le-sum_by :
      (f : V → ℕ) (k : p.AccountAddress) (w : V) (m : BTreeMap p V)
      → lookup k m ≡ some w
      → f w ≤ sum_by f m
  unfolding lookup
  le-sum_by f k w [] h = cc
  le-sum_by f k w ((i, x) ∷ m) h = ground (arith, le-sum_by f k w m)

  -- A view of the values that the write does not touch.
  pub map-update :
      {W : Type ℓ} (f : p.AccountAddress × V → W) (k : p.AccountAddress) (v w : V)
      (m : BTreeMap p V)
      → lookup k m ≡ some w
      → ((j : p.AccountAddress) → f (j, v) ≡ f (j, w))
      → map f (update k v m) ≡ map f m
  unfolding lookup update
  map-update f k v w [] h same = cc
  map-update f k v w ((i, x) ∷ m) h same = ground (arith, map-update f k v w m, same i)
