-- ===== src/Wallet/Mnemonic/Writer/Stream.antt =====
-- The writer holds the bits of the words written so far, whole bytes first.
use libra_v.Prelude.{
  ℕ, ◌-◌, ◌^◌, ◌≤◌, ◌<◌, ◌≡◌, refl, sym, ◌∙◌, ap, subst, List, [], ◌∷◌, ◌++◌, append_assoc,
  append-nil, All, All-append, arith,
}
use libra_v.Prelude.Bits.{bits_of-one, bits, bits_of, bits_of-append}
use libra_v.Wallet.Mnemonic.Writer.{U11BitWriter, new_writer, write_u11}
use libra_v.Wallet.Mnemonic.Writer.Cases.{write_u11-Emits}

pub record Holds (w : U11BitWriter) (vs : List ℕ) : Type 0 where
  pub low : 1 ≤ w.unused
  pub high : w.unused ≤ 8
  pub fits : w.buffer < 2 ^ (8 - w.unused)
  pub byte_law : All (λ b. b < 2 ^ 8) w.bytes
  pub stream : bits_of 8 w.bytes ++ bits (8 - w.unused) w.buffer ≡ bits_of 11 vs

new_writer-Holds : Holds new_writer []
unfolding new_writer bits bits_of
new_writer-Holds = record {
  low = omega arith;
  high = omega arith;
  fits = omega arith;
  byte_law = tt;
  stream = refl;
}

write_u11-Holds :
    (w : U11BitWriter) (vs : List ℕ) (v : ℕ)
    → Holds w vs
    → v < 2 ^ 11
    → Holds (write_u11 w v) (vs ++ (v ∷ []))
write_u11-Holds w vs v held hv =
    let step = write_u11-Emits w v held.low held.high held.fits hv in
    let x = write_u11 w v in
    record {
      low = step.low;
      high = step.high;
      fits = step.fits;
      byte_law =
          rw step.bytes_eq
            (All-append (λ b. b < 2 ^ 8) w.bytes step.emitted held.byte_law step.byte_law);
      stream =
          rw
            (
              step.bytes_eq,
              bits_of-append 8 w.bytes step.emitted,
              append_assoc (bits_of 8 w.bytes) (bits_of 8 step.emitted)
                  (bits (8 - x.unused) x.buffer),
              sym step.stream,
              sym (append_assoc (bits_of 8 w.bytes) (bits (8 - w.unused) w.buffer) (bits 11 v)),
              held.stream,
            )
            (sym (bits_of-append 11 vs (v ∷ []) ∙ ap (λ t. bits_of 11 vs ++ t) (bits_of-one 11 v)));
    }

unfoldable pub write_all : U11BitWriter → List ℕ → U11BitWriter
write_all w [] = w
write_all w (v ∷ vs) = write_all (write_u11 w v) vs

write_all_extends :
    (w : U11BitWriter) (us vs : List ℕ)
    → Holds w us
    → All (λ v. v < 2 ^ 11) vs
    → Holds (write_all w vs) (us ++ vs)
unfolding write_all
write_all_extends w us [] held hv = rw (append-nil us) held
write_all_extends w us (v ∷ vs) held (h, hv) =
    subst (Holds (write_all (write_u11 w v) vs)) (append_assoc us (v ∷ []) vs)
      (write_all_extends (write_u11 w v) (us ++ (v ∷ [])) vs (write_u11-Holds w us v held h) hv)

-- A new writer that is given numbers of eleven bits keeps between one and eight bits of its buffer
-- unused, a buffer that fits the others, and bytes below 256, which together are the numbers' bits.
pub write_all-Holds : (vs : List ℕ) → All (λ v. v < 2 ^ 11) vs → Holds (write_all new_writer vs) vs
write_all-Holds vs hv = write_all_extends new_writer [] vs new_writer-Holds hv
