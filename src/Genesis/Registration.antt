-- ===== src/Genesis/Registration.antt =====
-- tools/genesis/src/genesis_builder.rs: the registrations of the validators, read from the files of
-- each user and checked. Texts are taken to be ASCII, so that a length in bytes is one in characters.
pub mod Keys
pub mod Config
pub mod Agree
pub mod Collect
use libra_v.Prelude.{
  ℕ, suc, ◌+◌, ◌-◌, ◌*◌, ◌^◌, Bool, true, false, ◌&&◌, ◌||◌, Option, none, some, List, [], ◌∷◌,
  ◌++◌, Text, codes, length, drop, starts_with, text_eq, ltb, leb, ◌==◌, if◌then◌else◌, Result, ok,
  err, ◌>>=◌,
}
use libra_v.Prelude.Eq.{Eq}
use libra_v.Platform.{Platform}

pub data ParseError : Type 0 where
  too_short too_long not_hex bad_encoding bad_address bad_number bad_bool : ParseError

pub data ConfigError : Type 0 where
  invalid : Text → Text → ParseError → ConfigError
  missing : Text → Text → ConfigError
  not_fetched : Text → ConfigError
  operator_account_differs operator_key_differs : ConfigError

-- `char::is_whitespace` of an ASCII character.
abbrev pub is_space : ℕ → Bool
is_space c = (leb 9 c && leb c 13) || (c == 32)

abbrev pub trim_start : Text → Text
trim_start [] = []
trim_start (c ∷ s) = let rest = trim_start s in if is_space c then rest else c ∷ s

abbrev pub cons_unless_space : ℕ → Text → Text
cons_unless_space c [] = if is_space c then [] else c ∷ []
cons_unless_space c (d ∷ s) = c ∷ (d ∷ s)

abbrev pub trim_end : Text → Text
trim_end [] = []
trim_end (c ∷ s) = cons_unless_space c (trim_end s)

unfoldable pub trim : Text → Text
trim s = trim_end (trim_start s)

abbrev pub is_hex_digit : ℕ → Bool
is_hex_digit c = (leb 48 c && leb c 57) || (leb 65 c && leb c 70) || (leb 97 c && leb c 102)

abbrev pub all_hex : Text → Bool
all_hex [] = true
all_hex (c ∷ s) = is_hex_digit c && all_hex s

-- The text without the blanks around it and without `0x`.
unfoldable pub working : Text → Text
unfolding trim
working s = if starts_with (trim s) (codes "0x") then drop 2 (trim s) else trim s

abbrev pub decode_with {ℓ} : {T : Type ℓ} → Option T → Result ParseError T
decode_with none = err ParseError.bad_encoding
decode_with (some key) = ok key

-- The key of `num_bytes` bytes; `from_encoded_string` is the vendored decoder.
unfoldable pub parse_key {ℓ} : {T : Type ℓ} → (Text → Option T) → ℕ → Text → Result ParseError T
unfolding working trim
parse_key from_encoded_string num_bytes s =
    if ltb (length (working s)) (num_bytes * 2)
    then err ParseError.too_short
    else if ltb (num_bytes * 2) (length (working s))
    then err ParseError.too_long
    else if all_hex (working s)
    then decode_with (from_encoded_string (trim s))
    else err ParseError.not_hex

abbrev pub map_err {ℓ} : {T : Type ℓ} → Text → Text → Result ParseError T → Result ConfigError T
map_err file field_name (ok t) = ok t
map_err file field_name (err e) = err (ConfigError.invalid field_name file e)

unfoldable pub parse_required_option {ℓ} :
    {T : Type ℓ} → Option Text → Text → Text → (Text → Result ParseError T) → Result ConfigError T
parse_required_option none file field_name parse = err (ConfigError.missing file field_name)
parse_required_option (some field) file field_name parse = map_err file field_name (parse field)

unfoldable pub parse_optional_option {ℓ} :
    {T : Type ℓ}
    → Option Text
    → Text
    → Text
    → (Text → Result ParseError T)
    → Result ConfigError (Option T)
parse_optional_option none file field_name parse = ok none
parse_optional_option (some field) file field_name parse =
    map_err file field_name (parse field) >>= λ t. ok (some t)

-- `u64::from_str`: an optional `+` and digits, at least one, of a number that fits.
abbrev pub digits_value : Text → ℕ → Option ℕ
digits_value [] acc = if ltb acc (2 ^ 64) then some acc else none
digits_value (c ∷ s) acc =
    let rest = digits_value s (acc * 10 + (c - 48)) in if leb 48 c && leb c 57 then rest else none

abbrev pub unsigned : Text → Result ParseError ℕ
unsigned [] = err ParseError.bad_number
unsigned (c ∷ s) = elim (digits_value (c ∷ s) 0) [
  | none ↦ err ParseError.bad_number
  | some n ↦ ok n
]

unfoldable pub u64_from_str : Text → Result ParseError ℕ
u64_from_str [] = unsigned []
u64_from_str (c ∷ s) = if c == 43 then unsigned s else unsigned (c ∷ s)

unfoldable pub bool_from_str : Text → Result ParseError Bool
bool_from_str s =
    if text_eq s (codes "true")
    then ok true
    else if text_eq s (codes "false")
    then ok false
    else err ParseError.bad_bool

pub record StringOwnerConfiguration : Type 0 where
  pub owner_account_address : Option Text
  pub owner_account_public_key : Option Text
  pub operator_account_address : Option Text
  pub operator_account_public_key : Option Text
  pub voter_account_address : Option Text
  pub voter_account_public_key : Option Text
  pub stake_amount : Option Text
  pub commission_percentage : Option Text
  pub join_during_genesis : Option Text
