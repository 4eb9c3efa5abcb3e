-- ===== src/Compat/HashValue/Iterator.antt =====
-- HashValueBitIterator of compatibility/src/version_five/hash_value_v5.rs, and what runs over it.
use libra_v.Prelude.{
  ℕ, zero, suc, ◌+◌, ◌-◌, ◌*◌, ◌/◌, ◌%◌, ◌^◌, Bool, true, false, List, [], ◌∷◌, Bytes, Option, none,
  some, length, get_elem?, ltb, ◌==◌, ◌&&◌, not, if◌then◌else◌, Result, ok, err, ◌>>=◌,
}
use libra_v.Compat.HashValue.{low_bit, HashValueV5, HashError, hash_length, hash_length_in_bits}

-- `start` and `end` are those of the field `pos`.
pub record HashValueBitIterator : Type 0 where
  pub hash_bytes : Bytes
  pub start : ℕ
  pub end : ℕ

unfoldable pub iter_bits : HashValueV5 → HashValueBitIterator
iter_bits h = record { hash_bytes = h.hash; start = 0; end = hash_length_in_bits }

-- The three assertions, and the bit.
unfoldable pub get_bit : HashValueBitIterator → ℕ → Result HashError Bool
get_bit it index =
    if ltb index it.end
      && (length it.hash_bytes == hash_length)
      && (it.end == length it.hash_bytes * 8)
    then elim (get_elem? it.hash_bytes (index / 8)) [
      | none ↦ err HashError.panic
      | some b ↦ ok (low_bit (b / 2 ^ (7 - index % 8)))
    ]
    else err HashError.panic

-- `pos.next()` first moves the start, so that the bit is asked of the iterator after the move.
unfoldable pub next : HashValueBitIterator → Result HashError (Option Bool × HashValueBitIterator)
next it =
    let moved : HashValueBitIterator = record it { start = it.start + 1 } in
    if ltb it.start it.end
    then (get_bit moved it.start >>= λ b. ok (some b, moved))
    else ok (none, it)

unfoldable pub next_back :
    HashValueBitIterator → Result HashError (Option Bool × HashValueBitIterator)
next_back it =
    let moved : HashValueBitIterator = record it { end = it.end - 1 } in
    if ltb it.start it.end
    then (get_bit moved (it.end - 1) >>= λ b. ok (some b, moved))
    else ok (none, it)

-- `ExactSizeIterator::len`, by `size_hint` of the range.
unfoldable pub size_hint : HashValueBitIterator → ℕ
size_hint it = it.end - it.start

-- The items up to the end; `fuel` bounds the calls of `next`.
unfoldable pub collect : ℕ → HashValueBitIterator → Result HashError (List Bool)
collect zero it = err HashError.panic
collect (suc fuel) it =
    next it >>= λ p. elim p.0 [ none ↦ ok [] | some b ↦ collect fuel p.1 >>= λ bits. ok (b ∷ bits) ]

abbrev pub same : Bool → Bool → Bool
same true b = b
same false b = not b

-- `zip`, `take_while` and `count`; the second iterator is asked after the first.
unfoldable pub count_equal :
    ℕ → HashValueBitIterator → HashValueBitIterator → ℕ → Result HashError ℕ
count_equal zero it other count = err HashError.panic
count_equal (suc fuel) it other count = next it >>= λ p. elim p.0 [
  | none ↦ ok count
  | some x ↦ next other >>= λ q. elim q.0 [
    | none ↦ ok count
    | some y ↦ elim (same x y) [ true ↦ count_equal fuel p.1 q.1 (count + 1) | false ↦ ok count ]
  ]
]

unfoldable pub common_prefix_bits_len : HashValueV5 → HashValueV5 → Result HashError ℕ
common_prefix_bits_len h other =
    count_equal (suc hash_length_in_bits) (iter_bits h) (iter_bits other) 0
