-- ===== src/Tests/Sample.antt =====
-- A small platform on which the program runs: addresses are numbers, printed in hexadecimal, and the
-- floating-point numbers are the integers that they hold exactly.
use libra_v.Prelude.{
  ℕ, zero, suc, ◌+◌, ◌-◌, ◌*◌, leb, ◌/◌, ◌%◌, ◌≡◌, refl, ap, Option, none, some, [], ◌∷◌, ◌++◌,
  Text, Bytes, codes, length, length-append, arith, ◌==◌, ==_iff, ltb, if◌then◌else◌,
}
use libra_v.Prelude.Eq.{Eq}
use libra_v.Platform.{Platform}

abbrev pub ℕ-eq : Eq ℕ
ℕ-eq = record { beq = ◌==◌; beq_iff = ==_iff }

abbrev pub digit : ℕ → ℕ
digit d = if ltb d 10 then b'0' + d else 87 + d

abbrev pub digit_value : ℕ → ℕ
digit_value c = if ltb c 58 then c - 48 else c - 87

-- The digits of a number; the first one takes all that is left.
unfoldable pub hex_text : ℕ → ℕ → Text
hex_text zero n = digit n ∷ []
hex_text (suc k) n = hex_text k (n / 16) ++ digit (n % 16) ∷ []

pub length-hex_text : (k n : ℕ) → length (hex_text k n) ≡ suc k
unfolding hex_text
length-hex_text zero n = refl
length-hex_text (suc k) n =
    omega (arith, length-append (hex_text k (n / 16)) _, length-hex_text k (n / 16))

abbrev pub read_hex : ℕ → Text → ℕ
read_hex acc [] = acc
read_hex acc (c ∷ s) = read_hex (acc * 16 + digit_value c) s

read_hex-append :
    (acc c : ℕ) (s : Text) → read_hex acc (s ++ c ∷ []) ≡ read_hex acc s * 16 + digit_value c
read_hex-append acc c [] = refl
read_hex-append acc c (d ∷ s) = read_hex-append (acc * 16 + digit_value d) c s

digit_value-digit : (d : ℕ) → digit_value (digit d) ≡ d
digit_value-digit d = ground arith

pub read_hex-hex_text : (k n : ℕ) → read_hex 0 (hex_text k n) ≡ n
unfolding hex_text
read_hex-hex_text zero n = omega (arith, digit_value-digit n)
read_hex-hex_text (suc k) n = omega (
  arith,
  read_hex-append 0 (digit (n % 16)) (hex_text k (n / 16)),
  read_hex-hex_text k (n / 16),
  digit_value-digit (n % 16),
)

-- The literal after its two characters "0x".
abbrev pub read_literal : Text → Option ℕ
read_literal [] = none
read_literal (z ∷ []) = none
read_literal (z ∷ x ∷ s) = some (read_hex 0 s)

-- The integer square root of `n`, searched down from `k`.
unfoldable pub root : ℕ → ℕ → ℕ
root zero n = 0
root (suc k) n = let rest = root k n in if leb (suc k * suc k) n then suc k else rest

abbrev pub sample : Platform
sample = record {
  AccountAddress = ℕ;
  account_eq = ℕ-eq;
  account_lt = ltb;
  account_zero = 0;
  account_one = 1;
  account_to_string = hex_text 63;
  length-account_to_string = length-hex_text 63;
  from_hex_literal = read_literal;
  from_hex_literal-to_string = λ a. ap some (read_hex-hex_text 63 a);
  AuthenticationKey = Bytes;
  authentication_key_new = λ b. b;
  authentication_key_to_vec = λ b. b;
  EventHandle = ℕ;
  ValidatorConfig = ℕ;
  ValidatorOperatorConfigResource = ℕ;
  Identifier = Text;
  NamedChain = ℕ;
  chain_eq = ℕ-eq;
  mainnet = 1;
  testnet = 2;
  testing = 4;
  Url = Text;
  localhost_url = codes "localhost";
  playlist_url = codes "playlist";
  playlist_testnet_url = codes "playlist_testnet";
  Ed25519PrivateKey = Bytes;
  sha3_256_of = λ b. b;
  gas_unit_price = 100;
  max_gas_amount = 2_000_000;
  F64 = ℕ;
  of_u64 = λ n. n;
  add = ◌+◌;
  sub = ◌-◌;
  gtb = λ a b. ltb b a;
  add-of_u64 = λ a b h. refl;
  sub-of_u64 = λ a b h k. refl;
  gtb-of_u64 = λ a b h k. refl;
  mul = ◌*◌;
  div = ◌/◌;
  sqrt = λ n. root n n;
  geb = λ a b. leb b a;
  to_u64 = λ n. n;
  mul-of_u64 = λ a b h. refl;
  to_u64-of_u64 = λ a h. refl;
}
