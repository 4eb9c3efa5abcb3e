-- ===== src/Wallet/Mnemonic/Writer/Cases.antt =====
-- The eight states of the writer's buffer, one by one.
use libra_v.Prelude.{ℕ, zero, suc, ◌+◌, ◌-◌, ◌*◌, ◌/◌, ◌%◌, ◌^◌, ◌≤◌, ◌<◌, ◌≡◌, refl, List, arith}
use libra_v.Wallet.Mnemonic.Writer.{
  U11BitWriter, shift_into, fill_partial, fill_full, keep_rest, write_u11,
}
use libra_v.Wallet.Mnemonic.Writer.Step.{
  Emits, shift_into-sum, Emits-one, partial_only, partial_and_full,
}

-- The writer that has `unused` bits left in its buffer.
abbrev at : List ℕ → ℕ → ℕ → U11BitWriter
at bytes u buffer = record { bytes = bytes; unused = u; buffer = buffer }

Emits-at_1 :
    (bytes : List ℕ) (buffer v : ℕ)
    → buffer < 2 ^ 7
    → v < 2 ^ 11
    → Emits (at bytes 1 buffer) v (write_u11 (at bytes 1 buffer) v)
unfolding write_u11 fill_partial fill_full keep_rest
Emits-at_1 bytes buffer v hb hv =
    partial_and_full bytes 1 2 7 buffer v (shift_into 0 2 v) refl refl
      (omega (arith, shift_into-sum 0 2 v refl (omega arith))) refl refl (omega arith) (omega arith)
      (omega arith) (omega arith)

Emits-at_2 :
    (bytes : List ℕ) (buffer v : ℕ)
    → buffer < 2 ^ 6
    → v < 2 ^ 11
    → Emits (at bytes 2 buffer) v (write_u11 (at bytes 2 buffer) v)
unfolding write_u11 fill_partial fill_full keep_rest
Emits-at_2 bytes buffer v hb hv =
    partial_and_full bytes 2 1 6 buffer v (shift_into 0 1 v) refl refl
      (omega (arith, shift_into-sum 0 1 v refl (omega arith))) refl refl (omega arith) (omega arith)
      (omega arith) (omega arith)

Emits-at_3 :
    (bytes : List ℕ) (buffer v : ℕ)
    → buffer < 2 ^ 5
    → v < 2 ^ 11
    → Emits (at bytes 3 buffer) v (write_u11 (at bytes 3 buffer) v)
unfolding write_u11 fill_partial fill_full keep_rest
Emits-at_3 bytes buffer v hb hv =
    partial_and_full bytes 3 0 5 buffer v 0 refl refl (omega arith) refl refl (omega arith)
      (omega arith) (omega arith) (omega arith)

Emits-at_4 :
    (bytes : List ℕ) (buffer v : ℕ)
    → buffer < 2 ^ 4
    → v < 2 ^ 11
    → Emits (at bytes 4 buffer) v (write_u11 (at bytes 4 buffer) v)
unfolding write_u11 fill_partial fill_full keep_rest
Emits-at_4 bytes buffer v hb hv =
    partial_only bytes 4 7 4 buffer v refl refl refl refl refl (omega arith) (omega arith)
      (omega arith) (omega arith)

Emits-at_5 :
    (bytes : List ℕ) (buffer v : ℕ)
    → buffer < 2 ^ 3
    → v < 2 ^ 11
    → Emits (at bytes 5 buffer) v (write_u11 (at bytes 5 buffer) v)
unfolding write_u11 fill_partial fill_full keep_rest
Emits-at_5 bytes buffer v hb hv =
    partial_only bytes 5 6 3 buffer v refl refl refl refl refl (omega arith) (omega arith)
      (omega arith) (omega arith)

Emits-at_6 :
    (bytes : List ℕ) (buffer v : ℕ)
    → buffer < 2 ^ 2
    → v < 2 ^ 11
    → Emits (at bytes 6 buffer) v (write_u11 (at bytes 6 buffer) v)
unfolding write_u11 fill_partial fill_full keep_rest
Emits-at_6 bytes buffer v hb hv =
    partial_only bytes 6 5 2 buffer v refl refl refl refl refl (omega arith) (omega arith)
      (omega arith) (omega arith)

Emits-at_7 :
    (bytes : List ℕ) (buffer v : ℕ)
    → buffer < 2 ^ 1
    → v < 2 ^ 11
    → Emits (at bytes 7 buffer) v (write_u11 (at bytes 7 buffer) v)
unfolding write_u11 fill_partial fill_full keep_rest
Emits-at_7 bytes buffer v hb hv =
    partial_only bytes 7 4 1 buffer v refl refl refl refl refl (omega arith) (omega arith)
      (omega arith) (omega arith)

Emits-at_8 :
    (bytes : List ℕ) (buffer v : ℕ)
    → buffer < 2 ^ 0
    → v < 2 ^ 11
    → Emits (at bytes 8 buffer) v (write_u11 (at bytes 8 buffer) v)
unfolding write_u11 fill_partial fill_full keep_rest
Emits-at_8 bytes buffer v hb hv =
    let low = shift_into-sum buffer 3 v refl (omega arith) in
    let none_kept : buffer ≡ 0 = omega arith in
    let byte : v / 2 ^ 3 % 2 ^ 8 ≡ buffer * 2 ^ 8 + v / 2 ^ 3 = omega arith in
    let rest : shift_into buffer 3 v ≡ v % 2 ^ 3 = omega (arith, low) in
    rw (byte, rest)
      (Emits-one bytes 8 3 0 buffer (v / 2 ^ 3) (v % 2 ^ 3) v refl refl (omega arith) (omega arith)
        (omega arith) (omega arith) (omega arith))

Emits-at :
    (bytes : List ℕ) (u buffer v : ℕ)
    → 1 ≤ u
    → u ≤ 8
    → buffer < 2 ^ (8 - u)
    → v < 2 ^ 11
    → Emits (at bytes u buffer) v (write_u11 (at bytes u buffer) v)
Emits-at bytes zero buffer v low high hb hv = absurd (omega arith)
Emits-at bytes (suc zero) buffer v low high hb hv = Emits-at_1 bytes buffer v hb hv
Emits-at bytes (suc (suc zero)) buffer v low high hb hv = Emits-at_2 bytes buffer v hb hv
Emits-at bytes (suc (suc (suc zero))) buffer v low high hb hv = Emits-at_3 bytes buffer v hb hv
Emits-at bytes (suc (suc (suc (suc zero)))) buffer v low high hb hv =
    Emits-at_4 bytes buffer v hb hv
Emits-at bytes (suc (suc (suc (suc (suc zero))))) buffer v low high hb hv =
    Emits-at_5 bytes buffer v hb hv
Emits-at bytes (suc (suc (suc (suc (suc (suc zero)))))) buffer v low high hb hv =
    Emits-at_6 bytes buffer v hb hv
Emits-at bytes (suc (suc (suc (suc (suc (suc (suc zero))))))) buffer v low high hb hv =
    Emits-at_7 bytes buffer v hb hv
Emits-at bytes (suc (suc (suc (suc (suc (suc (suc (suc zero)))))))) buffer v low high hb hv =
    Emits-at_8 bytes buffer v hb hv
Emits-at bytes (suc (suc (suc (suc (suc (suc (suc (suc (suc u))))))))) buffer v low high hb hv =
    absurd (omega arith)

-- Every word adds its bits.
pub write_u11-Emits :
    (w : U11BitWriter) (v : ℕ)
    → 1 ≤ w.unused
    → w.unused ≤ 8
    → w.buffer < 2 ^ (8 - w.unused)
    → v < 2 ^ 11
    → Emits w v (write_u11 w v)
write_u11-Emits w v low high hb hv = Emits-at w.bytes w.unused w.buffer v low high hb hv
