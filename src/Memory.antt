-- ===== src/Memory.antt =====
-- Memory as the C code sees it: bytes at addresses, and the 64-bit words that they make up.
mod Byte
pub mod Sample
pub mod Word
unfoldable pub use Byte.*
