-- ===== src/Base/Bits.antt =====
-- Laws of `&`, `|` and `^` on words of any width, as arithmetic.
mod Step
mod Fields
mod Xor
mod Order
mod Bytes
pub use Fields.*
pub use Xor.*
pub use Order.*
pub use Bytes.*
