-- ===== src/Terminal.antt =====
-- include/terminal: the operator's console. What it prints is a list of outputs, one for each
-- message, without its layout and colours.
mod Resolver
mod Actions
mod Console
unfoldable pub use Resolver.*
unfoldable pub use Actions.*
unfoldable pub use Console.*
pub mod Reads
pub mod Access
pub mod Halt
pub mod Letters
