-- ===== src/Text.antt =====
-- What the program uses of Go's packages bytes, strings and strconv, over lists of bytes.
-- White space is that of ASCII: `strings.TrimSpace` and `strings.Fields` also take the spaces of
-- Unicode, which the kernel's files do not hold.
mod Defs
pub mod Split
pub mod Find
pub mod Number
unfoldable pub use Defs.*
