-- ===== src/Shared.antt =====
-- include/Shared.h, the layout of the shared memory segment.
mod Flags
mod Packages
mod State
unfoldable pub use Flags.*
unfoldable pub use Packages.*
unfoldable pub use State.*
pub mod Trail
