-- ===== src/Prelude/Text.antt =====
-- Texts as lists of bytes, with the functions of Go's package strings that the program calls.
mod Defs
mod Laws
unfoldable pub use Defs.*
pub use Laws.*
