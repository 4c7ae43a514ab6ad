-- ===== src/Support.antt =====
-- src/jllvm/support
pub mod Bytes
