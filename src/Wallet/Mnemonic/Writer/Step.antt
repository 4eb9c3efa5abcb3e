-- ===== src/Wallet/Mnemonic/Writer/Step.antt =====
-- One word of the U11BitWriter: what it adds to the stream of bits.
use Prim.Native.Nat.{bit_and}
use native.Mathlib.Nat.{one-le-pow}
use libra_v.Prelude.{
  ℕ, ◌+◌, ◌-◌, ◌*◌, ◌/◌, ◌%◌, ◌^◌, ◌≤◌, ◌<◌, ◌≡◌, refl, sym, ◌∙◌, List, [], ◌∷◌, ◌++◌, append_assoc,
  append-nil, get_or, All, arith,
}
use libra_v.Prelude.Bits.{bit_or-sum, bit_and-mask, bits, bits_of, bits-fields}
use libra_v.Wallet.Mnemonic.Writer.{U11BitWriter, masks, shift_into, write_u11}

pub shift_into-sum :
    (b k v : ℕ)
    → get_or masks k 0 ≡ 2 ^ k - 1
    → b * 2 ^ k < 2 ^ 16
    → shift_into b k v ≡ b * 2 ^ k + v % 2 ^ k
unfolding shift_into
shift_into-sum b k v mask fits =
    let masked : bit_and v (get_or masks k 0) ≡ v % 2 ^ k = rw mask (bit_and-mask k v) in
    let kept : b * 2 ^ k % 2 ^ 16 ≡ b * 2 ^ k = omega arith in
    rw (masked, kept) (bit_or-sum k b (v % 2 ^ k) (omega (arith, one-le-pow k 2)))

-- The word `v` reaches the writer `w` as the writer `x`: whole bytes are added to the vector, and
-- the bits in the buffer and in the word are those of the new bytes and of the new buffer.
pub record Emits (w : U11BitWriter) (v : ℕ) (x : U11BitWriter) : Type 0 where
  pub emitted : List ℕ
  pub bytes_eq : x.bytes ≡ w.bytes ++ emitted
  pub low : 1 ≤ x.unused
  pub high : x.unused ≤ 8
  pub fits : x.buffer < 2 ^ (8 - x.unused)
  pub byte_law : All (λ b. b < 2 ^ 8) emitted
  pub stream :
      bits (8 - w.unused) w.buffer ++ bits 11 v ≡ bits_of 8 emitted ++ bits (8 - x.unused) x.buffer

-- The word's high part `x` completes the byte of the buffer; the rest `z` is the new buffer.
pub Emits-one :
    (bytes : List ℕ) (u r m buffer x z v : ℕ)
    → 8 ≡ u + m
    → 11 ≡ r + u
    → r < 8
    → v ≡ x * 2 ^ r + z
    → x < 2 ^ u
    → z < 2 ^ r
    → buffer * 2 ^ u + x < 2 ^ 8
    → Emits
        (record { bytes = bytes; unused = u; buffer = buffer })
        v
        (record { bytes = bytes ++ ((buffer * 2 ^ u + x) ∷ []); unused = 8 - r; buffer = z })
unfolding bits_of
Emits-one bytes u r m buffer x z v byte word rest parts hx hz full =
    let kept : 8 - u ≡ m = omega arith in
    let left : 8 - (8 - r) ≡ r = omega arith in
    let low = bits-fields r u 11 x z word hz in
    let high = bits-fields u m 8 buffer x byte hx in
    record {
      emitted = (buffer * 2 ^ u + x) ∷ [];
      bytes_eq = refl;
      low = omega arith;
      high = omega arith;
      fits = rw left hz;
      byte_law = (full, tt);
      stream =
          rw (kept, left, parts, low, high, append-nil (bits m buffer ++ bits u x))
            (sym (append_assoc (bits m buffer) (bits u x) (bits r z)));
    }

-- The same where a whole byte `y` follows the completed one.
Emits-two :
    (bytes : List ℕ) (u t m buffer x y z v : ℕ)
    → 8 ≡ u + m
    → 3 ≡ u + t
    → v ≡ x * 2 ^ (8 + t) + (y * 2 ^ t + z)
    → x < 2 ^ u
    → y < 2 ^ 8
    → z < 2 ^ t
    → y * 2 ^ t + z < 2 ^ (8 + t)
    → buffer * 2 ^ u + x < 2 ^ 8
    → Emits
        (record { bytes = bytes; unused = u; buffer = buffer })
        v
        (record {
          bytes = bytes ++ ((buffer * 2 ^ u + x) ∷ []) ++ (y ∷ []);
          unused = 8 - t;
          buffer = z;
        })
unfolding bits_of
Emits-two bytes u t m buffer x y z v byte word parts hx hy hz lower full =
    let kept : 8 - u ≡ m = omega arith in
    let left : 8 - (8 - t) ≡ t = omega arith in
    let low = bits-fields (8 + t) u 11 x (y * 2 ^ t + z) (omega arith) lower in
    let mid = bits-fields t 8 (8 + t) y z (omega arith) hz in
    let high = bits-fields u m 8 buffer x byte hx in
    record {
      emitted = (buffer * 2 ^ u + x) ∷ (y ∷ []);
      bytes_eq = append_assoc bytes ((buffer * 2 ^ u + x) ∷ []) (y ∷ []);
      low = omega arith;
      high = omega arith;
      fits = rw left hz;
      byte_law = (full, (hy, tt));
      stream =
          rw (kept, left, parts, low, mid, high, append-nil (bits 8 y))
            (sym (append_assoc (bits m buffer) (bits u x) (bits 8 y ++ bits t z))
              ∙ sym (append_assoc (bits m buffer ++ bits u x) (bits 8 y) (bits t z)));
    }

mod_small : (a n : ℕ) → a < n → a % n ≡ a
mod_small a n h = grind arith

-- What the writer does with `unused` between 4 and 7: the equations hold by evaluation at each.
module _ (bytes : List ℕ) (u r m buffer v : ℕ) where
  pub partial_only :
      write_u11 (record { bytes = bytes; unused = u; buffer = buffer }) v ≡ record {
        bytes = bytes ++ (shift_into buffer u (v / 2 ^ r) % 2 ^ 8 ∷ []);
        unused = 8 - r;
        buffer = shift_into 0 r v;
      }
      → get_or masks u 0 ≡ 2 ^ u - 1
      → get_or masks r 0 ≡ 2 ^ r - 1
      → 8 ≡ u + m
      → 11 ≡ r + u
      → r < 8
      → v ≡ v / 2 ^ r * 2 ^ r + v % 2 ^ r
      → v / 2 ^ r < 2 ^ u
      → buffer * 2 ^ u + v / 2 ^ r < 2 ^ 8
      → Emits
          (record { bytes = bytes; unused = u; buffer = buffer })
          v
          (write_u11 (record { bytes = bytes; unused = u; buffer = buffer }) v)
  partial_only run mask_u mask_r byte word rest parts hx full =
      let high : shift_into buffer u (v / 2 ^ r) % 2 ^ 8 ≡ buffer * 2 ^ u + v / 2 ^ r = omega (
        arith,
        mod_small (v / 2 ^ r) (2 ^ u) hx,
        shift_into-sum buffer u (v / 2 ^ r) mask_u (omega arith),
      ) in
      let low : shift_into 0 r v ≡ v % 2 ^ r =
        omega (arith, shift_into-sum 0 r v mask_r (omega arith)) in
      rw (run, high, low)
        (Emits-one bytes u r m buffer (v / 2 ^ r) (v % 2 ^ r) v byte word rest parts hx
          (omega (arith, one-le-pow r 2)) full)

-- The same with `unused` up to 3, where a whole byte follows and `z` is what is left.
module _ (bytes : List ℕ) (u t m buffer v z : ℕ) where
  pub partial_and_full :
      write_u11 (record { bytes = bytes; unused = u; buffer = buffer }) v ≡ record {
        bytes =
            bytes
            ++ (shift_into buffer u (v / 2 ^ (8 + t)) % 2 ^ 8 ∷ [])
            ++ (v / 2 ^ t % 2 ^ 8 ∷ []);
        unused = 8 - t;
        buffer = z;
      }
      → get_or masks u 0 ≡ 2 ^ u - 1
      → z ≡ v % 2 ^ t
      → 8 ≡ u + m
      → 3 ≡ u + t
      → v ≡ v / 2 ^ (8 + t) * 2 ^ (8 + t) + (v / 2 ^ t % 2 ^ 8 * 2 ^ t + v % 2 ^ t)
      → v / 2 ^ (8 + t) < 2 ^ u
      → v / 2 ^ t % 2 ^ 8 * 2 ^ t + v % 2 ^ t < 2 ^ (8 + t)
      → buffer * 2 ^ u + v / 2 ^ (8 + t) < 2 ^ 8
      → Emits
          (record { bytes = bytes; unused = u; buffer = buffer })
          v
          (write_u11 (record { bytes = bytes; unused = u; buffer = buffer }) v)
  partial_and_full run mask_u rest byte word parts hx lower full =
      let high : shift_into buffer u (v / 2 ^ (8 + t)) % 2 ^ 8 ≡ buffer * 2 ^ u + v / 2 ^ (8 + t) =
        omega (
          arith,
          mod_small (v / 2 ^ (8 + t)) (2 ^ u) hx,
          shift_into-sum buffer u (v / 2 ^ (8 + t)) mask_u (omega arith),
        ) in
      rw (run, high, rest)
        (Emits-two bytes u t m buffer (v / 2 ^ (8 + t)) (v / 2 ^ t % 2 ^ 8) (v % 2 ^ t) v byte word
          parts hx (omega arith) (omega (arith, one-le-pow t 2)) lower full)
