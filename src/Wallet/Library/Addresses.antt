-- ===== src/Wallet/Library/Addresses.antt =====
-- `generate_addresses` and the lookups of tools/wallet/src/core/wallet_library.rs.
use libra_v.Prelude.{
  ℕ, zero, suc, ◌+◌, ◌<◌, ◌≤◌, ◌^◌, ◌%◌, ◌≡◌, refl, ap, subst, sym, ◌∙◌, none, some, [], ◌∷◌, false,
  length, ◌==◌, ok, All, All-mono, arith, Bool-cases, inl, inr,
}
use libra_v.Platform.{Platform}
use libra_v.Genesis.BTreeMap.{BTreeMap, lookup, insert, lookup-insert}
use libra_v.Wallet.KeyFactory.{Crypto, KeyFactory, ExtendedPrivKey, private_child, get_address}
use libra_v.Wallet.Library.{WalletLibrary, new_address, generate_loop, rev_get}

module _ (p : Platform) (c : Crypto p) where
  length-insert :
      (a : p.AccountAddress) (v : ℕ) (m : BTreeMap p ℕ)
      → lookup p a m ≡ none
      → length (insert p a v m) ≡ suc (length m)
  unfolding insert lookup
  length-insert a v [] h = refl
  length-insert a v ((k, w) ∷ m) h = ground (arith, length-insert a v m)

  All-insert :
      (P : p.AccountAddress × ℕ → Type 0) (a : p.AccountAddress) (v : ℕ) (m : BTreeMap p ℕ)
      → P (a, v)
      → All P m
      → All P (insert p a v m)
  unfolding insert
  All-insert P a v [] here all = (here, tt)
  All-insert P a v ((k, w) ∷ m) here (hk, all) = elim (Bool-cases (p.account_eq.beq k a)) [
    | inl same ↦ rw same (here, all)
    | inr differ ↦ elim (Bool-cases (p.account_lt a k)) [
      | inl first ↦ rw (differ, first) (here, (hk, all))
      | inr later ↦ rw (differ, later) (hk, All-insert P a v m here all)
    ]
  ]

  rev_get-insert :
      (a : p.AccountAddress) (v i : ℕ) (m : BTreeMap p ℕ)
      → lookup p a m ≡ none
      → (v == i) ≡ false
      → rev_get p c i (insert p a v m) ≡ rev_get p c i m
  unfolding insert lookup rev_get
  rev_get-insert a v i [] h other = ground arith
  rev_get-insert a v i ((k, w) ∷ m) h other = ground (arith, rev_get-insert a v i m)

  rev_get-none : (n : ℕ) (m : BTreeMap p ℕ) → All (λ (k, v). v < n) m → rev_get p c n m ≡ none
  unfolding rev_get
  rev_get-none n [] all = refl
  rev_get-none n ((k, v) ∷ m) (hv, all) = ground (arith, rev_get-none n m all)

  rev_get-insert-new :
      (a : p.AccountAddress) (n : ℕ) (m : BTreeMap p ℕ)
      → All (λ (k, v). v < n) m
      → lookup p a m ≡ none
      → rev_get p c n (insert p a n m) ≡ some a
  unfolding insert lookup rev_get
  rev_get-insert-new a n [] all h = ground arith
  rev_get-insert-new a n ((k, v) ∷ m) (hv, all) h =
      ground (arith, rev_get-insert-new a n m all, rev_get-none n m all)

  abbrev pub child_address : (ℕ → ExtendedPrivKey p) → ℕ → p.AccountAddress
  child_address key_of i = get_address p c (key_of i)

  module _ (f : KeyFactory) (key_of : ℕ → ExtendedPrivKey p) where
    abbrev pub address_of : ℕ → p.AccountAddress
    address_of = child_address key_of

    -- The children below `depth` are derived, and their addresses differ.
    pub record Derives (depth : ℕ) : Type 0 where
      pub derived : (i : ℕ) → i < depth → private_child p c f i ≡ ok (key_of i)
      pub distinct : (i j : ℕ) → i < depth → j < depth → address_of i ≡ address_of j → i ≡ j

    abbrev Entry : ℕ → p.AccountAddress × ℕ → Type 0
    Entry n (k, v) = (k ≡ address_of v) × (v < n)

    -- The wallet holds the addresses of the children below its leaf, and no others.
    pub record IsFilled (w : WalletLibrary p) : Type 0 where
      pub factory : w.key_factory ≡ f
      pub count : length w.addr_map ≡ w.key_leaf
      pub entries : All (Entry w.key_leaf) w.addr_map
      pub found : (i : ℕ) → i < w.key_leaf → rev_get p c i w.addr_map ≡ some (address_of i)
      pub lookups : (i : ℕ) → i < w.key_leaf → lookup p (address_of i) w.addr_map ≡ some i

    absent :
        (depth n : ℕ) (m : BTreeMap p ℕ)
        → Derives depth
        → n < depth
        → All (Entry n) m
        → lookup p (address_of n) m ≡ none
    unfolding lookup
    absent depth n [] d small all = refl
    absent depth n ((k, v) ∷ m) d small ((hk, hv), all) =
        elim (Bool-cases (p.account_eq.beq k (address_of n))) [
          | inl same ↦
              let equal = (p.account_eq.beq_iff k (address_of n)).0 same in
              absurd (omega (arith, d.distinct v n (omega arith) small (sym hk ∙ equal)))
          | inr differ ↦ rw differ (absent depth n m d small all)
        ]

    grow : (n : ℕ) (x : p.AccountAddress × ℕ) → Entry n x → Entry (n + 1) x
    grow n (k, v) (hk, hv) = (hk, omega arith)

    lookup_next :
        (depth n i : ℕ) (m : BTreeMap p ℕ)
        → Derives depth
        → n < depth
        → i < n + 1
        → ((j : ℕ) → j < n → lookup p (address_of j) m ≡ some j)
        → lookup p (address_of i) (insert p (address_of n) n m) ≡ some i
    lookup_next depth n i m d small hi before =
        elim (Bool-cases (p.account_eq.beq (address_of n) (address_of i))) [
          | inl same ↦
              let equal =
                d.distinct n i small (omega arith)
                  ((p.account_eq.beq_iff (address_of n) (address_of i)).0 same) in
              lookup-insert p (address_of n) (address_of i) n m ∙ rw same (ap some equal)
          | inr differ ↦
              let earlier : i < n = elim (Bool-cases (n == i)) [
                | inl last ↦
                    let last' : n ≡ i = ground arith in
                    cc (
                      (p.account_eq.beq_iff (address_of n) (address_of i)).1 (ap address_of last'),
                      differ,
                    )
                | inr other ↦ ground arith
              ] in
              lookup-insert p (address_of n) (address_of i) n m ∙ rw differ (before i earlier)
        ]

    -- The map after the next child was inserted.
    IsFilled-next :
        (depth : ℕ) (w : WalletLibrary p)
        → Derives depth
        → w.key_leaf < depth
        → IsFilled w
        → IsFilled (record w {
          addr_map = insert p (address_of w.key_leaf) w.key_leaf w.addr_map;
          key_leaf = w.key_leaf + 1;
        })
    IsFilled-next depth w d small h =
        let n = w.key_leaf in
        let a = address_of n in
        let m = w.addr_map in
        let free : lookup p a m ≡ none = absent depth n m d small h.entries in
        let below : All (λ (k, v). v < n) m =
          All-mono (Entry n) (λ (k, v). v < n) (λ (k, v) (hk, hv). hv) m h.entries in
        record {
          factory = h.factory;
          count = omega (arith, length-insert a n m free, h.count);
          entries =
              All-insert (Entry (n + 1)) a n m (refl, omega arith)
                (All-mono (Entry n) (Entry (n + 1)) (grow n) m h.entries);
          found = λ i hi. elim (Bool-cases (n == i)) [
            | inl last ↦ ground (arith, rev_get-insert-new a n m below free)
            | inr earlier ↦ rev_get-insert a n i m free earlier ∙ h.found i (ground arith)
          ];
          lookups = λ i hi. lookup_next depth n i m d small hi h.lookups;
        }

    new_address-IsFilled :
        (depth : ℕ) (w : WalletLibrary p)
        → Derives depth
        → depth < 2 ^ 64
        → w.key_leaf < depth
        → IsFilled w
        → IsFilled (new_address p c w).0 × ((new_address p c w).0.key_leaf ≡ w.key_leaf + 1)
    unfolding new_address
    new_address-IsFilled depth w d fits small h =
        let n = w.key_leaf in
        let derived : private_child p c w.key_factory n ≡ ok (key_of n) =
          subst (λ g. private_child p c g n ≡ ok (key_of n)) (sym h.factory) (d.derived n small) in
        let wraps : (n + 1) % 2 ^ 64 ≡ n + 1 = omega arith in
        rw (derived, wraps) (IsFilled-next depth w d small h, refl)

    pub loop-IsFilled :
        (fuel depth : ℕ) (w : WalletLibrary p)
        → Derives depth
        → depth < 2 ^ 64
        → w.key_leaf ≤ depth
        → depth ≤ w.key_leaf + fuel
        → IsFilled w
        → (w' : WalletLibrary p) × (generate_loop p c fuel w depth ≡ some w')
          × IsFilled w'
          × (w'.key_leaf ≡ depth)
    unfolding generate_loop
    loop-IsFilled zero depth w d fits small enough h = (w, ground arith, h, omega arith)
    loop-IsFilled (suc fuel) depth w d fits small enough h =
        elim (Bool-cases (w.key_leaf == depth)) [
          | inl done ↦ (w, rw done refl, h, ground arith)
          | inr more ↦
              let (h', leaf) = new_address-IsFilled depth w d fits (ground arith) h in
              let (w', runs, filled, last) =
                loop-IsFilled fuel depth (new_address p c w).0 d fits (ground (arith, leaf))
                  (omega (arith, leaf)) h' in
              (w', rw more runs, filled, last)
        ]
