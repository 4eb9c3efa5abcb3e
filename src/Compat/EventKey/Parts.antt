-- ===== src/Compat/EventKey/Parts.antt =====
-- The two parts of the key of an event: who created the stream, and which of its streams it is.
use libra_v.Prelude.{
  ℕ, zero, suc, ◌^◌, ◌<◌, ◌≡◌, refl, sym, ap, ◌∙◌, Bool, true, false, [], ◌∷◌, ◌++◌, Bytes, length,
  take, drop, All, arith, ok, Result, ◌↔◌, take-append-drop, length-take, length-drop,
}
use libra_v.Prelude.Endian.{
  le_bytes, from_le_bytes, length-le_bytes, from_le_bytes-le_bytes, le_bytes-from_le_bytes,
}
use libra_v.Compat.Hex.{HexCrate, hex_bytes, hex_bytes-Spells}
use libra_v.Compat.LegacyAddress.{LegacyAddressV5, IsAddress, from_bytes}
use libra_v.Compat.EventKey.{
  EventKeyV5, EventKeyError, IsKey, get_creator_address, get_creation_number, new_from_address,
  key_from_bytes, key_from_hex, key_to_string, key_lower_hex, serialize_key, deserialize_key,
}

take_front : (xs ys : Bytes) (n : ℕ) → length xs ≡ n → take n (xs ++ ys) ≡ xs
take_front [] ys zero h = refl
take_front [] ys (suc n) h = absurd (omega arith)
take_front (x ∷ xs) ys zero h = absurd (omega arith)
take_front (x ∷ xs) ys (suc n) h = ap (λ t. x ∷ t) (take_front xs ys n (omega arith))

drop_front : (xs ys : Bytes) (n : ℕ) → length xs ≡ n → drop n (xs ++ ys) ≡ ys
drop_front [] ys zero h = refl
drop_front [] ys (suc n) h = absurd (omega arith)
drop_front (x ∷ xs) ys zero h = absurd (omega arith)
drop_front (x ∷ xs) ys (suc n) h = drop_front xs ys n (omega arith)

All-take : (n : ℕ) (xs : Bytes) → All (λ b. b < 2 ^ 8) xs → All (λ b. b < 2 ^ 8) (take n xs)
All-take zero xs h = tt
All-take (suc n) [] h = tt
All-take (suc n) (x ∷ xs) (hx, h) = (hx, All-take n xs h)

from_bytes-full :
    (bytes : Bytes) → length bytes ≡ 16 → from_bytes bytes ≡ ok (record { address = bytes })
unfolding from_bytes
from_bytes-full bytes h = rw h refl

creator-rest :
    (k : EventKeyV5) (rest : Bytes)
    → drop 8 k.key ≡ rest
    → length rest ≡ 16
    → get_creator_address k ≡ ok (record { address = rest })
unfolding get_creator_address
creator-rest k rest e h = rw (e, from_bytes-full rest h, get_creator_address) refl

creator_of_new :
    (a : LegacyAddressV5) (salt : ℕ)
    → IsAddress a
    → get_creator_address (new_from_address a salt) ≡ ok a
unfolding new_from_address
creator_of_new a salt w =
    let back = drop_front (le_bytes 8 salt) a.address 8 (length-le_bytes 8 salt) in
    creator-rest (new_from_address a salt) a.address back w.length_law

number_of_new :
    (a : LegacyAddressV5) (salt : ℕ)
    → salt < 2 ^ 64
    → get_creation_number (new_from_address a salt) ≡ salt
unfolding get_creation_number new_from_address
number_of_new a salt h =
    let front = take_front (le_bytes 8 salt) a.address 8 (length-le_bytes 8 salt) in
    rw front (from_le_bytes-le_bytes 8 salt (omega arith))

same_creator :
    (r : Result EventKeyError LegacyAddressV5) (a b : LegacyAddressV5)
    → r ≡ ok a
    → r ≡ ok b
    → a.address ≡ b.address
same_creator r a b h e = cc

new_of_parts :
    (k : EventKeyV5) (a : LegacyAddressV5)
    → IsKey k
    → get_creator_address k ≡ ok a
    → new_from_address a (get_creation_number k) ≡ k
unfolding get_creator_address new_from_address get_creation_number
new_of_parts k a w h =
    let rest_size : length (drop 8 k.key) ≡ 16 = omega (arith, length-drop 8 k.key, w.length_law) in
    let front_size : length (take 8 k.key) ≡ 8 = omega (arith, length-take 8 k.key, w.length_law) in
    let found = creator-rest k (drop 8 k.key) refl rest_size in
    let rest = same_creator (get_creator_address k) a _ h found in
    let front = le_bytes-from_le_bytes 8 (take 8 k.key) front_size (All-take 8 k.key w.byte_law) in
    let whole : le_bytes 8 (from_le_bytes (take 8 k.key)) ++ a.address ≡ k.key =
      rw (front, rest) (take-append-drop 8 k.key) in
    ap (λ (bytes : Bytes). record { key = bytes }) whole

-- A key of 24 bytes is the one made of an address and a u64 exactly when the address is its creator
-- and the number its creation number.
pub new_from_address_iff :
    (k : EventKeyV5) (a : LegacyAddressV5) (salt : ℕ)
    → IsKey k
    → IsAddress a
    → salt < 2 ^ 64
    → (new_from_address a salt ≡ k)
      ↔ ((get_creator_address k ≡ ok a) × (get_creation_number k ≡ salt))
new_from_address_iff k a salt w wa h = (
  λ e. (
    ap get_creator_address (sym e) ∙ creator_of_new a salt wa,
    ap get_creation_number (sym e) ∙ number_of_new a salt h,
  ),
  λ p. ap (new_from_address a) (sym p.1) ∙ new_of_parts k a w p.0,
)

module _ (hex : HexCrate) where
  -- A key that serde has written is read back, both as a text and as bytes.
  pub deserialize_key-serialize_key :
      (human_readable : Bool) (k : EventKeyV5)
      → IsKey k
      → deserialize_key hex human_readable (serialize_key hex human_readable k) ≡ ok k
  unfolding deserialize_key serialize_key key_to_string key_lower_hex key_from_bytes key_from_hex
  deserialize_key-serialize_key true k w =
      rw
        (hex.decode_law 24 (hex_bytes k.key) k.key w.length_law w.byte_law
          (hex_bytes-Spells k.key w.byte_law))
        refl
  deserialize_key-serialize_key false k w = rw w.length_law refl
