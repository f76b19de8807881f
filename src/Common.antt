-- ===== src/Common.antt =====
-- The names that all parts share: those of the libraries, tests on numbers, tables of rows and
-- actions that may fail.
mod Tests
mod Table
mod Keys
mod Updates
mod Selects
mod Transaction
pub mod Handlers
mod Texts
mod Trim
mod Numbers
pub use Tests.*
pub use Updates.*
pub use Selects.*
pub use Keys.*
pub use Table.*
unfoldable pub use Texts.*
pub use Trim.*
pub use Numbers.*
pub use Transaction.*
