-- ===== src/Genesis/Registration/Keys.antt =====
-- Which texts `parse_key` of tools/genesis/src/genesis_builder.rs accepts.
use libra_v.Prelude.{
  ℕ, ◌*◌, ◌≡◌, ◌↔◌, true, Option, some, Text, length, ok, arith, inl, inr, Option-cases,
}
use libra_v.Genesis.Registration.{parse_key, working, trim, all_hex}

-- A key is read exactly when the text, without blanks and `0x`, has two hexadecimal digits for each
-- byte and the decoder takes the text without the blanks.
pub parse_key_iff {ℓ} :
    {T : Type ℓ} (from_encoded_string : Text → Option T) (num_bytes : ℕ) (s : Text) (t : T)
    → (parse_key from_encoded_string num_bytes s ≡ ok t) ↔ (
        (length (working s) ≡ num_bytes * 2)
        × (all_hex (working s) ≡ true)
        × (from_encoded_string (trim s) ≡ some t))
unfolding parse_key
parse_key_iff f n s t = elim (Option-cases (f (trim s))) [
  | inl e ↦ ground arith
  | inr (k, e) ↦ ground arith
]
