-- ===== src/Platform.antt =====
-- What the program takes from code that is not in the repository: the types of the vendored diem
-- crates and of `url`, with the operations that the modelled code calls. Every component is a
-- function of a `Platform`.
use libra_v.Prelude.{
  Option, some, codes, ◌++◌, ℕ, ◌+◌, ◌-◌, ◌*◌, ◌^◌, ◌≤◌, ltb, Bool, ◌≡◌, Text, Bytes, length,
}
use libra_v.Prelude.Eq.{Eq}

pub record Platform : Type 1 where
  -- move_core_types::account_address::AccountAddress: its equality, the order that a BTreeMap keys
  -- by, and its Display, which writes 64 hexadecimal digits.
  pub AccountAddress : Type 0
  pub account_eq : Eq AccountAddress
  pub account_lt : AccountAddress → AccountAddress → Bool
  pub account_zero : AccountAddress
  -- `AccountAddress::from_str("0x1")`
  pub account_one : AccountAddress
  pub account_to_string : AccountAddress → Text
  pub length-account_to_string : (a : AccountAddress) → length (account_to_string a) ≡ 64
  -- diem_types: AuthenticationKey::new over 32 bytes
  -- `AccountAddress::from_hex_literal`, which reads what `to_string` writes after "0x".
  pub from_hex_literal : Text → Option AccountAddress
  pub from_hex_literal-to_string :
      (a : AccountAddress) → from_hex_literal (codes "0x" ++ account_to_string a) ≡ some a
  pub AuthenticationKey : Type 0
  pub authentication_key_to_vec : AuthenticationKey → Bytes
  pub authentication_key_new : Bytes → AuthenticationKey
  pub EventHandle : Type 0
  pub ValidatorConfig : Type 0
  pub ValidatorOperatorConfigResource : Type 0
  pub Identifier : Type 0
  -- diem_types::chain_id::NamedChain
  pub NamedChain : Type 0
  pub chain_eq : Eq NamedChain
  pub mainnet : NamedChain
  pub testnet : NamedChain
  pub testing : NamedChain
  -- url::Url, with the parsed literals of the program
  pub Url : Type 0
  pub localhost_url : Url
  pub playlist_url : Url
  pub playlist_testnet_url : Url
  -- diem_crypto
  pub Ed25519PrivateKey : Type 0
  pub sha3_256_of : Bytes → Bytes
  -- diem_global_constants
  pub gas_unit_price : ℕ
  pub max_gas_amount : ℕ
  -- f64: the IEEE 754 operations on it, exact on the integers that its 53-bit significand holds
  pub F64 : Type 0
  pub of_u64 : ℕ → F64
  pub add : F64 → F64 → F64
  pub sub : F64 → F64 → F64
  pub gtb : F64 → F64 → Bool
  pub add-of_u64 : (a b : ℕ) → a + b ≤ 2 ^ 53 → add (of_u64 a) (of_u64 b) ≡ of_u64 (a + b)
  pub sub-of_u64 : (a b : ℕ) → b ≤ a → a ≤ 2 ^ 53 → sub (of_u64 a) (of_u64 b) ≡ of_u64 (a - b)
  pub gtb-of_u64 : (a b : ℕ) → a ≤ 2 ^ 53 → b ≤ 2 ^ 53 → gtb (of_u64 a) (of_u64 b) ≡ ltb b a
  pub mul : F64 → F64 → F64
  pub div : F64 → F64 → F64
  pub sqrt : F64 → F64
  -- `a >= b`
  pub geb : F64 → F64 → Bool
  -- `a as u64`
  pub to_u64 : F64 → ℕ
  pub mul-of_u64 : (a b : ℕ) → a * b ≤ 2 ^ 53 → mul (of_u64 a) (of_u64 b) ≡ of_u64 (a * b)
  pub to_u64-of_u64 : (a : ℕ) → a ≤ 2 ^ 53 → to_u64 (of_u64 a) ≡ a
