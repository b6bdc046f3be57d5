-- ===== src/Remote.antt =====
-- The durable tables of remote control: src/vanth/remote/feed.py and src/vanth/remote/journal.py.
pub mod Control
pub mod Feed
pub mod Journal
pub mod Store
pub mod Tests
