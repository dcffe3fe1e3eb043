-- ===== src/Storage.antt =====
-- storage/: the stored emails.
pub mod Format
pub mod Files
pub mod Database
pub mod Mailbox
pub mod Search
pub mod Delivery
pub mod Cache
pub mod Flags
mod Tests
