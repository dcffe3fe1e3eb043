-- ===== src/Relay.antt =====
-- relay/: the SMTP side.
pub mod Session
pub mod Filtering
pub mod Queue
pub mod Dispatch
pub mod Outside
pub mod Spam
pub mod Data
pub mod Examples
mod Tests
