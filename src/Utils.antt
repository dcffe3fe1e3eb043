-- ===== src/Utils.antt =====
-- utils/: the functions on slices.
pub mod Slices
