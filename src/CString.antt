-- ===== src/CString.antt =====
-- The C library functions on strings and files that the programs call. A string is the list of
-- its bytes before the terminating zero.
mod Compare
pub mod Strtok
mod Number
pub mod FilePath
mod Lines
unfoldable pub use Compare.*
unfoldable pub use Strtok.*
unfoldable pub use Number.*
unfoldable pub use FilePath.*
unfoldable pub use Lines.*
