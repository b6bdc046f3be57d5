-- ===== src/Decision/Steps.antt =====
-- What a method on decisions can do to the tables: nothing, or one change with its event.
pub mod Shared
pub mod Resolving
pub mod Asking
pub use Resolving.*
pub use Asking.*
