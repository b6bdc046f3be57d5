-- ===== src/Decision/Requests.antt =====
-- `request_decision`, `resolve_decision`, `withdraw_decision` and `_expire_decisions` of
-- src/vanth/server.py. An UPDATE by the primary key changes one row or none, so a rowcount that is not
-- 1 is 0.
pub mod Shared
pub mod Resolving
pub mod Asking
unfoldable pub use Shared.*
unfoldable pub use Resolving.*
unfoldable pub use Asking.*
