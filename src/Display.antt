-- ===== src/Display.antt =====
-- display/: the IMAP side.
pub mod Selected
pub mod Boxes
pub mod Storing
pub mod Status
pub mod Listing
pub mod Receiving
pub mod Login
pub mod Appending
pub mod Fetching
