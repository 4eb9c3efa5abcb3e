-- ===== src/Genesis/Registration/Config.antt =====
-- `get_config` and `get_validator_configs` of tools/genesis/src/genesis_builder.rs. What the client
-- fetches, decoded and parsed as YAML, and the vendored keys and their decoders are arguments.
use libra_v.Prelude.{
  ◌==◌, ℕ, Bool, true, Option, none, some, List, [], ◌∷◌, Text, codes, Result, ok, err, ◌>>=◌,
  if◌then◌else◌,
}
use libra_v.Prelude.Eq.{Eq}
use libra_v.Platform.{Platform}
use libra_v.Genesis.Registration.{
  ParseError, ConfigError, parse_key, parse_required_option, parse_optional_option, u64_from_str,
  bool_from_str, StringOwnerConfiguration,
}

-- The keys of diem_crypto, `HostAndPort`, and `AccountAddressWithChecks::from_str`.
pub record KeyTypes (p : Platform) : Type 1 where
  pub Ed25519PublicKey : Type 0
  pub ed25519_eq : Eq Ed25519PublicKey
  pub ed25519_from : Text → Option Ed25519PublicKey
  pub BlsPublicKey : Type 0
  pub bls_from : Text → Option BlsPublicKey
  pub ProofOfPossession : Type 0
  pub proof_from : Text → Option ProofOfPossession
  pub NetworkKey : Type 0
  pub network_from : Text → Option NetworkKey
  pub HostAndPort : Type 0
  pub address_from_str : Text → Result ParseError p.AccountAddress

-- `PathBuf::join` of a relative path: a slash goes between, but for an empty path and after a slash.
abbrev pub join_path : Text → Text → Text
join_path [] file = file
join_path (c ∷ []) file = if c == 47 then c ∷ file else c ∷ (47 ∷ file)
join_path (c ∷ (d ∷ user)) file = c ∷ join_path (d ∷ user) file

module _ (p : Platform) (k : KeyTypes p) where
  pub record StringOperatorConfiguration : Type 0 where
    pub operator_account_address : Option Text
    pub operator_account_public_key : Option Text
    pub consensus_public_key : Option Text
    pub consensus_proof_of_possession : Option Text
    pub validator_network_public_key : Option Text
    pub validator_host : k.HostAndPort
    pub full_node_network_public_key : Option Text
    pub full_node_host : Option k.HostAndPort

  pub record ValidatorConfiguration : Type 0 where
    pub owner_account_address : p.AccountAddress
    pub owner_account_public_key : k.Ed25519PublicKey
    pub operator_account_address : p.AccountAddress
    pub operator_account_public_key : k.Ed25519PublicKey
    pub voter_account_address : p.AccountAddress
    pub voter_account_public_key : k.Ed25519PublicKey
    pub consensus_public_key : Option k.BlsPublicKey
    pub proof_of_possession : Option k.ProofOfPossession
    pub validator_network_public_key : Option k.NetworkKey
    pub validator_host : Option k.HostAndPort
    pub full_node_network_public_key : Option k.NetworkKey
    pub full_node_host : Option k.HostAndPort
    pub stake_amount : ℕ
    pub commission_percentage : ℕ
    pub join_during_genesis : Bool

  -- The files of a user, fetched by their paths.
  pub record Client : Type 0 where
    pub owner_config : Text → Result ConfigError StringOwnerConfiguration
    pub operator_config : Text → Result ConfigError StringOperatorConfiguration

  abbrev pub owner_file : Text → Text
  owner_file user = join_path user (codes "owner.yaml")

  abbrev pub operator_file : Text → Text
  operator_file user = join_path user (codes "operator.yaml")

  abbrev pub or_default {ℓ} : {T : Type ℓ} → Option T → T → T
  or_default none d = d
  or_default (some t) d = t

  abbrev pub ed25519 : Text → Result ParseError k.Ed25519PublicKey
  ed25519 = parse_key k.ed25519_from 32

  -- The fields that are read of the owner's file.
  pub record OwnerFields : Type 0 where
    pub owner_address : p.AccountAddress
    pub owner_key : k.Ed25519PublicKey
    pub operator_address : p.AccountAddress
    pub operator_key : k.Ed25519PublicKey
    pub voter_address : p.AccountAddress
    pub voter_key : k.Ed25519PublicKey
    pub stake : ℕ
    pub commission : ℕ
    pub join : Bool

  unfoldable pub read_owner : Text → StringOwnerConfiguration → Result ConfigError OwnerFields
  read_owner file o = do
    owner_address ←
        parse_required_option o.owner_account_address file (codes "owner_account_address")
          k.address_from_str
    owner_key ←
        parse_required_option o.owner_account_public_key file (codes "owner_account_public_key")
          ed25519
    operator_address ←
        parse_required_option o.operator_account_address file (codes "operator_account_address")
          k.address_from_str
    operator_key ←
        parse_required_option o.operator_account_public_key file
          (codes "operator_account_public_key") ed25519
    voter_address ←
        parse_required_option o.voter_account_address file (codes "voter_account_address")
          k.address_from_str
    voter_key ←
        parse_required_option o.voter_account_public_key file (codes "voter_account_public_key")
          ed25519
    stake ← parse_required_option o.stake_amount file (codes "stake_amount") u64_from_str
    commission ←
        parse_optional_option o.commission_percentage file (codes "commission_percentage")
          u64_from_str
    join ←
        parse_optional_option o.join_during_genesis file (codes "join_during_genesis") bool_from_str
    ok (record {
      owner_address = owner_address;
      owner_key = owner_key;
      operator_address = operator_address;
      operator_key = operator_key;
      voter_address = voter_address;
      voter_key = voter_key;
      stake = stake;
      commission = or_default commission 0;
      join = or_default join true;
    })

  -- The fields that are read of the operator's file.
  pub record OperatorFields : Type 0 where
    pub address_from_file : p.AccountAddress
    pub key_from_file : k.Ed25519PublicKey
    pub consensus_key : k.BlsPublicKey
    pub proof : k.ProofOfPossession
    pub network_key : k.NetworkKey
    pub full_node_key : Option k.NetworkKey

  unfoldable pub read_operator :
      Text → StringOperatorConfiguration → Result ConfigError OperatorFields
  read_operator file q = do
    address ←
        parse_required_option q.operator_account_address file (codes "operator_account_address")
          k.address_from_str
    key ←
        parse_required_option q.operator_account_public_key file
          (codes "operator_account_public_key") ed25519
    consensus_key ←
        parse_required_option q.consensus_public_key file (codes "consensus_public_key")
          (parse_key k.bls_from 48)
    proof ←
        parse_required_option q.consensus_proof_of_possession file
          (codes "consensus_proof_of_possession") (parse_key k.proof_from 96)
    network_key ←
        parse_required_option q.validator_network_public_key file
          (codes "validator_network_public_key") (parse_key k.network_from 32)
    full_node_key ←
        parse_optional_option q.full_node_network_public_key file
          (codes "full_node_network_public_key") (parse_key k.network_from 32)
    ok (record {
      address_from_file = address;
      key_from_file = key;
      consensus_key = consensus_key;
      proof = proof;
      network_key = network_key;
      full_node_key = full_node_key;
    })

  -- The owner's and the operator's file must agree on the operator.
  unfoldable pub agree : OwnerFields → OperatorFields → Result ConfigError (Unit {0})
  agree o q =
      if p.account_eq.beq o.operator_address q.address_from_file
      then if k.ed25519_eq.beq o.operator_key q.key_from_file
        then ok tt
        else err ConfigError.operator_key_differs
      else err ConfigError.operator_account_differs

  abbrev pub configuration :
      OwnerFields → OperatorFields → StringOperatorConfiguration → ValidatorConfiguration
  configuration o q config = record {
    owner_account_address = o.owner_address;
    owner_account_public_key = o.owner_key;
    operator_account_address = o.operator_address;
    operator_account_public_key = o.operator_key;
    voter_account_address = o.voter_address;
    voter_account_public_key = o.voter_key;
    consensus_public_key = some q.consensus_key;
    proof_of_possession = some q.proof;
    validator_network_public_key = some q.network_key;
    validator_host = some config.validator_host;
    full_node_network_public_key = q.full_node_key;
    full_node_host = config.full_node_host;
    stake_amount = o.stake;
    commission_percentage = o.commission;
    join_during_genesis = o.join;
  }

  unfoldable pub get_config : Client → Text → Result ConfigError ValidatorConfiguration
  unfolding read_owner read_operator agree
  get_config client user = do
    owner_config ← client.owner_config (owner_file user)
    o ← read_owner (owner_file user) owner_config
    operator_config ← client.operator_config (operator_file user)
    q ← read_operator (operator_file user) operator_config
    agreed ← agree o q
    ok (configuration o q operator_config)

  -- The registrations that were read, and the users whose registration was not, with the error.
  unfoldable pub get_configs :
      Client → List Text → List ValidatorConfiguration × List (Text × ConfigError)
  unfolding get_config
  get_configs client [] = ([], [])
  get_configs client (user ∷ users) =
      let (validators, errors) = get_configs client users in
      elim (get_config client user) [
        | ok validator ↦ (validator ∷ validators, errors)
        | err failure ↦ (validators, (user, failure) ∷ errors)
      ]

  abbrev pub bail_if_any :
      List ValidatorConfiguration
      → List (Text × ConfigError)
      → Result (List (Text × ConfigError)) (List ValidatorConfiguration)
  bail_if_any validators [] = ok validators
  bail_if_any validators (e ∷ errors) = err (e ∷ errors)

  unfoldable pub get_validator_configs :
      Client → List Text → Result (List (Text × ConfigError)) (List ValidatorConfiguration)
  unfolding get_configs
  get_validator_configs client users =
      let (validators, errors) = get_configs client users in bail_if_any validators errors
