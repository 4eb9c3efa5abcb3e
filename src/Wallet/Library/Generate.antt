-- ===== src/Wallet/Library/Generate.antt =====
-- What a wallet of tools/wallet/src/core/wallet_library.rs holds after `generate_addresses`.
use libra_v.Prelude.{
  ℕ, zero, suc, ◌+◌, ◌<◌, ◌≤◌, ◌^◌, ◌≡◌, refl, subst, ◌∙◌, none, some, List, [], ◌∷◌, Text, length,
  ok, err, arith, ok-injective, >>=-eq-ok,
}
use libra_v.Platform.{Platform}
use libra_v.Genesis.BTreeMap.{BTreeMap}
use libra_v.Wallet.KeyFactory.{
  Crypto, KeyFactory, ExtendedPrivKey, WalletError, private_child, new_factory, new_seed,
}
use libra_v.Wallet.Library.{
  WalletLibrary, new_from_mnemonic, new_address, generate_loop, generate_addresses, rev_get,
  collect_from, get_addresses, get_private_key,
}
use libra_v.Wallet.Library.Addresses.{child_address, Derives, IsFilled, loop-IsFilled}

module _ (p : Platform) (c : Crypto p) where
  -- The addresses of `k` children from the number `i`.
  abbrev pub addresses_from : (ℕ → ExtendedPrivKey p) → ℕ → ℕ → List p.AccountAddress
  addresses_from key_of i zero = []
  addresses_from key_of i (suc k) = child_address p c key_of i ∷ addresses_from key_of (suc i) k

  collect-found :
      (key_of : ℕ → ExtendedPrivKey p) (m : BTreeMap p ℕ) (k i : ℕ)
      → ((j : ℕ) → i ≤ j → j < i + k → rev_get p c j m ≡ some (child_address p c key_of j))
      → collect_from p c m k i ≡ ok (addresses_from key_of i k)
  unfolding collect_from
  collect-found key_of m zero i h = refl
  collect-found key_of m (suc k) i h =
      let rest = collect-found key_of m k (suc i) (λ j low high. h j (omega arith) (omega arith)) in
      rw (h i (omega arith) (omega arith), rest) refl

  new-IsFilled :
      (mnemonic : Text) (w : WalletLibrary p) (key_of : ℕ → ExtendedPrivKey p)
      → new_from_mnemonic p c mnemonic ≡ ok w
      → IsFilled p c w.key_factory key_of w × (w.key_leaf ≡ 0)
  unfolding new_from_mnemonic
  new-IsFilled mnemonic w key_of h =
      let (f, made, start) = >>=-eq-ok (new_factory p c (new_seed p c mnemonic _)) _ h in
      subst (λ x. IsFilled p c x.key_factory key_of x × (x.key_leaf ≡ 0)) (ok-injective start)
        (
          record {
            factory = refl;
            count = refl;
            entries = tt;
            found = λ i hi. absurd (omega arith);
            lookups = λ i hi. absurd (omega arith);
          },
          refl,
        )

  held :
      (w : WalletLibrary p) (f : KeyFactory) (key_of : ℕ → ExtendedPrivKey p) (i : ℕ)
      → IsFilled p c f key_of w
      → i < w.key_leaf
      → private_child p c f i ≡ ok (key_of i)
      → get_private_key p c w (child_address p c key_of i) ≡ ok (key_of i).private_key
  unfolding get_private_key
  held w f key_of i h hi derived = rw (h.lookups i hi, h.factory, derived) refl

  -- If the children below a `depth` that is a u64 are derived to different addresses, a wallet that
  -- was made of a mnemonic generates its addresses up to `depth`, with any fuel of at least `depth`
  -- rounds of the loop: it then lists the addresses of the children from 0 to below `depth`, in
  -- their order, and finds the private key of each.
  pub generate_addresses_fills :
      (mnemonic : Text) (w : WalletLibrary p) (key_of : ℕ → ExtendedPrivKey p) (fuel depth : ℕ)
      → new_from_mnemonic p c mnemonic ≡ ok w
      → Derives p c w.key_factory key_of depth
      → depth < 2 ^ 64
      → depth ≤ fuel
      → (w' : WalletLibrary p) × (generate_addresses p c fuel w depth ≡ some (ok w'))
        × (w'.key_leaf ≡ depth)
        × (get_addresses p c w' ≡ ok (addresses_from key_of 0 depth))
        × ((i : ℕ)
            → i < depth
            → get_private_key p c w' (child_address p c key_of i) ≡ ok (key_of i).private_key)
  unfolding generate_addresses get_addresses
  generate_addresses_fills mnemonic w key_of fuel depth made d fits enough =
      let (fresh, start) = new-IsFilled mnemonic w key_of made in
      let (w', runs, filled, last) =
        loop-IsFilled p c w.key_factory key_of fuel depth w d fits (omega arith) (omega arith)
          fresh in
      let size : length w'.addr_map ≡ depth = filled.count ∙ last in
      (
        w',
        ground arith,
        last,
        rw size
            (collect-found key_of w'.addr_map depth 0 λ j low high. filled.found j (omega arith)),
        λ i hi. held w' w.key_factory key_of i filled (omega arith) (d.derived i hi),
      )

  loop_hangs :
      (w : WalletLibrary p) (e : WalletError) (depth fuel : ℕ)
      → w.key_leaf < depth
      → private_child p c w.key_factory w.key_leaf ≡ err e
      → generate_loop p c fuel w depth ≡ none
  unfolding generate_loop new_address
  loop_hangs w e depth zero small fails = ground arith
  loop_hangs w e depth (suc fuel) small fails =
      let rest = loop_hangs w e depth fuel small fails in rw fails (ground (arith, rest))

  -- If the child number of the wallet is below `depth` and this child cannot be derived, the loop
  -- of `generate_addresses` never ends: no number of rounds is enough.
  pub generate_addresses_hangs :
      (w : WalletLibrary p) (e : WalletError) (depth fuel : ℕ)
      → w.key_leaf < depth
      → private_child p c w.key_factory w.key_leaf ≡ err e
      → generate_addresses p c fuel w depth ≡ none
  unfolding generate_addresses
  generate_addresses_hangs w e depth fuel small fails =
      ground (arith, loop_hangs w e depth fuel small fails)
