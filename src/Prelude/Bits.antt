-- ===== src/Prelude/Bits.antt =====
-- Bits: `|` and `&` of fields as arithmetic, and a number as the list of its bits, highest first.
mod Fields
mod Lists
mod Places
pub use Fields.*
unfoldable pub use Lists.*
pub use Places.*
