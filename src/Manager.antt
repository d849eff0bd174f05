-- ===== src/Manager.antt =====
-- include/Manager.h: the semaphores and the message queue, and the wrappers that every component
-- is given as callbacks.
pub mod Runs
mod Monad
mod Ipc
mod Keeps
pub mod Lifecycle
unfoldable pub use Monad.*
unfoldable pub use Ipc.*
pub use Keeps.*
