-- ===== src/Compat/HashValue/Back.antt =====
-- `next_back` of the bit iterator.
use libra_v.Prelude.{◌-◌, ◌<◌, ◌≡◌, refl, arith, lt→ltb, err}
use libra_v.Compat.HashValue.{HashError}
use libra_v.Compat.HashValue.Iterator.{HashValueBitIterator, get_bit, next_back}

-- The assertion `index < self.pos.end` fails, since the end has moved onto the index.
get_bit-end : (it : HashValueBitIterator) → get_bit it it.end ≡ err HashError.panic
unfolding get_bit
get_bit-end it = ground arith

-- Taking a bit from the back stops the process at every iterator that has a bit left.
pub next_back_panics :
    (it : HashValueBitIterator) → it.start < it.end → next_back it ≡ err HashError.panic
unfolding next_back
next_back_panics it h =
    let moved : HashValueBitIterator = record it { end = it.end - 1 } in
    rw (lt→ltb it.start it.end h, get_bit-end moved, next_back) refl
