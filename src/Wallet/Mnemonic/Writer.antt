-- ===== src/Wallet/Mnemonic/Writer.antt =====
-- U11BitWriter of tools/wallet/src/core/mnemonic.rs: eleven bits at a time onto a vector of bytes.
pub mod Step
pub mod Cases
pub mod Stream
use Prim.Native.Nat.{bit_and, bit_or}
use libra_v.Prelude.{
  ℕ, zero, suc, ◌+◌, ◌-◌, ◌*◌, ◌/◌, ◌%◌, ◌^◌, Bytes, List, [], ◌∷◌, ◌++◌, get_or, ltb, leb, ◌==◌,
  ◌&&◌, if◌then◌else◌,
}

pub record U11BitWriter : Type 0 where
  pub bytes : Bytes
  pub unused : ℕ
  pub buffer : ℕ

abbrev pub masks : List ℕ
masks = 0 ∷ 1 ∷ 3 ∷ 7 ∷ 15 ∷ 31 ∷ 63 ∷ 127 ∷ []

unfoldable pub new_writer : U11BitWriter
new_writer = record { bytes = []; unused = 8; buffer = 0 }

-- `buffer <<= k` of a `u16`, and `|=` with the low `k` bits of `value`; `k` is below 8.
unfoldable pub shift_into : ℕ → ℕ → ℕ → ℕ
shift_into buffer k value = bit_or (buffer * 2 ^ k % 2 ^ 16) (bit_and value (get_or masks k 0))

-- The partial byte: the writer after it, and how many of the eleven bits remain.
unfoldable pub fill_partial : U11BitWriter → ℕ → U11BitWriter × ℕ
fill_partial w value =
    if leb w.unused 11 && ltb w.unused 8
    then (
      record {
        bytes =
            w.bytes ++ (shift_into w.buffer w.unused (value / 2 ^ (11 - w.unused)) % 2 ^ 8 ∷ []);
        unused = 8;
        buffer = 0;
      },
      11 - w.unused,
    )
    else (w, 11)

-- The `while` loop, each round of which takes eight of the remaining bits; `fuel` bounds the rounds.
unfoldable pub fill_full : ℕ → U11BitWriter × ℕ → ℕ → U11BitWriter × ℕ
fill_full zero (w, remaining) value = (w, remaining)
fill_full (suc fuel) (w, remaining) value =
    let next : U11BitWriter = record {
      bytes = w.bytes ++ (value / 2 ^ (remaining - 8) % 2 ^ 8 ∷ []);
      unused = w.unused;
      buffer = w.buffer;
    } in
    let rest = fill_full fuel (next, remaining - 8) value in
    if leb 8 remaining then rest else (w, remaining)

-- What remains goes to the buffer.
unfoldable pub keep_rest : U11BitWriter × ℕ → ℕ → U11BitWriter
keep_rest (w, remaining) value =
    if ltb 0 remaining
    then record {
      bytes = w.bytes;
      unused = w.unused - remaining;
      buffer = shift_into w.buffer remaining value;
    }
    else w

-- Eleven bits fill one whole byte at most, so that two rounds are enough for the loop to end.
unfoldable pub write_u11 : U11BitWriter → ℕ → U11BitWriter
write_u11 w value = keep_rest (fill_full 2 (fill_partial w value) value) value

unfoldable pub write_buffer : U11BitWriter → Bytes
write_buffer w = if w.unused == 8 then w.bytes else w.bytes ++ (w.buffer % 2 ^ 8 ∷ [])
