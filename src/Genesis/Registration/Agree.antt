-- ===== src/Genesis/Registration/Agree.antt =====
-- What a registration that `get_config` of tools/genesis/src/genesis_builder.rs accepts satisfies.
use libra_v.Prelude.{
  arith, ◌≡◌, sym, ap, ◌∙◌, Text, codes, Option, ok, >>=-eq-ok, ok-injective, Bool-cases, inl, inr,
}
use libra_v.Platform.{Platform}
use libra_v.Genesis.Registration.{
  parse_optional_option, bool_from_str, StringOwnerConfiguration, parse_required_option, parse_key,
  u64_from_str,
}
use libra_v.Genesis.Registration.Config.{
  KeyTypes, StringOperatorConfiguration, ValidatorConfiguration, Client, OwnerFields,
  OperatorFields, owner_file, operator_file, read_owner, read_operator, agree, get_config, ed25519,
}

module _ (p : Platform) (k : KeyTypes p) where
  -- The operator of a configuration, as a file with these two fields names it.
  pub record Names (file : Text) (address key : Option Text) (v : ValidatorConfiguration p k)
      : Type 0 where
    pub address_parsed :
        parse_required_option address file (codes "operator_account_address") k.address_from_str
        ≡ ok v.operator_account_address
    pub key_parsed :
        parse_required_option key file (codes "operator_account_public_key") (ed25519 p k)
        ≡ ok v.operator_account_public_key

  owner_operator :
      (file : Text) (c : StringOwnerConfiguration) (o : OwnerFields p k)
      → read_owner p k file c ≡ ok o
      → (parse_required_option c.operator_account_address file
            (codes "operator_account_address")
            k.address_from_str
          ≡ ok o.operator_address)
        × (parse_required_option c.operator_account_public_key file
              (codes "operator_account_public_key")
              (ed25519 p k)
            ≡ ok o.operator_key)
  unfolding read_owner
  owner_operator file c o h =
      let (a1, e1, h1) =
        >>=-eq-ok
          (parse_required_option c.owner_account_address file (codes "owner_account_address")
            k.address_from_str)
          _ h in
      let (a2, e2, h2) =
        >>=-eq-ok
          (parse_required_option c.owner_account_public_key file (codes "owner_account_public_key")
            (ed25519 p k))
          _ h1 in
      let (a3, e3, h3) =
        >>=-eq-ok
          (parse_required_option c.operator_account_address file (codes "operator_account_address")
            k.address_from_str)
          _ h2 in
      let (a4, e4, h4) =
        >>=-eq-ok
          (parse_required_option c.operator_account_public_key file
            (codes "operator_account_public_key") (ed25519 p k))
          _ h3 in
      let (a5, e5, h5) =
        >>=-eq-ok
          (parse_required_option c.voter_account_address file (codes "voter_account_address")
            k.address_from_str)
          _ h4 in
      let (a6, e6, h6) =
        >>=-eq-ok
          (parse_required_option c.voter_account_public_key file (codes "voter_account_public_key")
            (ed25519 p k))
          _ h5 in
      let (a7, e7, h7) =
        >>=-eq-ok (parse_required_option c.stake_amount file (codes "stake_amount") u64_from_str) _
          h6 in
      let (a8, e8, h8) =
        >>=-eq-ok
          (parse_optional_option c.commission_percentage file (codes "commission_percentage")
            u64_from_str)
          _ h7 in
      let (a9, e9, h9) =
        >>=-eq-ok
          (parse_optional_option c.join_during_genesis file (codes "join_during_genesis")
            bool_from_str)
          _ h8 in
      let same = ok-injective h9 in
      (e3 ∙ ap (λ r. ok r.operator_address) same, e4 ∙ ap (λ r. ok r.operator_key) same)

  operator_operator :
      (file : Text) (c : StringOperatorConfiguration p k) (q : OperatorFields p k)
      → read_operator p k file c ≡ ok q
      → (parse_required_option c.operator_account_address file
            (codes "operator_account_address")
            k.address_from_str
          ≡ ok q.address_from_file)
        × (parse_required_option c.operator_account_public_key file
              (codes "operator_account_public_key")
              (ed25519 p k)
            ≡ ok q.key_from_file)
  unfolding read_operator
  operator_operator file c q h =
      let (a1, e1, h1) =
        >>=-eq-ok
          (parse_required_option c.operator_account_address file (codes "operator_account_address")
            k.address_from_str)
          _ h in
      let (a2, e2, h2) =
        >>=-eq-ok
          (parse_required_option c.operator_account_public_key file
            (codes "operator_account_public_key") (ed25519 p k))
          _ h1 in
      let (a3, e3, h3) =
        >>=-eq-ok
          (parse_required_option c.consensus_public_key file (codes "consensus_public_key")
            (parse_key k.bls_from 48))
          _ h2 in
      let (a4, e4, h4) =
        >>=-eq-ok
          (parse_required_option c.consensus_proof_of_possession file
            (codes "consensus_proof_of_possession") (parse_key k.proof_from 96))
          _ h3 in
      let (a5, e5, h5) =
        >>=-eq-ok
          (parse_required_option c.validator_network_public_key file
            (codes "validator_network_public_key") (parse_key k.network_from 32))
          _ h4 in
      let (a6, e6, h6) =
        >>=-eq-ok
          (parse_optional_option c.full_node_network_public_key file
            (codes "full_node_network_public_key") (parse_key k.network_from 32))
          _ h5 in
      let same = ok-injective h6 in
      (e1 ∙ ap (λ r. ok r.address_from_file) same, e2 ∙ ap (λ r. ok r.key_from_file) same)

  agree-same :
      (o : OwnerFields p k) (q : OperatorFields p k) {u : Unit {0}}
      → agree p k o q ≡ ok u
      → (o.operator_address ≡ q.address_from_file) × (o.operator_key ≡ q.key_from_file)
  unfolding agree
  agree-same o q h =
      let addresses = (p.account_eq.beq_iff o.operator_address q.address_from_file).0 in
      let keys = (k.ed25519_eq.beq_iff o.operator_key q.key_from_file).0 in
      elim (Bool-cases (p.account_eq.beq o.operator_address q.address_from_file)) [
        | inl a ↦ elim (Bool-cases (k.ed25519_eq.beq o.operator_key q.key_from_file)) [
          | inl b ↦ (addresses a, keys b)
          | inr b ↦ ground arith
        ]
        | inr a ↦ ground arith
      ]

  -- A registration is accepted only if both of its files were read and name the operator that the
  -- configuration has, by the same address and the same key.
  pub get_config-Names :
      (client : Client p k) (user : Text) (v : ValidatorConfiguration p k)
      → get_config p k client user ≡ ok v
      → (c : StringOwnerConfiguration) × (d : StringOperatorConfiguration p k)
        × (client.owner_config (owner_file p k user) ≡ ok c)
        × (client.operator_config (operator_file p k user) ≡ ok d)
        × Names (owner_file p k user) c.operator_account_address c.operator_account_public_key v
        × Names (operator_file p k user) d.operator_account_address d.operator_account_public_key v
  unfolding get_config
  get_config-Names client user v h =
      let (c, read_c, h1) = >>=-eq-ok (client.owner_config (owner_file p k user)) _ h in
      let (o, owner, h2) = >>=-eq-ok (read_owner p k (owner_file p k user) c) _ h1 in
      let (d, read_d, h3) = >>=-eq-ok (client.operator_config (operator_file p k user)) _ h2 in
      let (q, operator, h4) = >>=-eq-ok (read_operator p k (operator_file p k user) d) _ h3 in
      let (u, agreed, h5) = >>=-eq-ok (agree p k o q) _ h4 in
      let same = ok-injective h5 in
      let (address, key) = owner_operator (owner_file p k user) c o owner in
      let (address', key') = operator_operator (operator_file p k user) d q operator in
      let (one_address, one_key) = agree-same o q agreed in
      (
        c,
        d,
        read_c,
        read_d,
        record {
          address_parsed = address ∙ ap (λ r. ok r.operator_account_address) same;
          key_parsed = key ∙ ap (λ r. ok r.operator_account_public_key) same;
        },
        record {
          address_parsed =
              address' ∙ ap ok (sym one_address) ∙ ap (λ r. ok r.operator_account_address) same;
          key_parsed = key' ∙ ap ok (sym one_key) ∙ ap (λ r. ok r.operator_account_public_key) same;
        },
      )
