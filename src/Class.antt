-- ===== src/Class.antt =====
-- src/jllvm/class
pub mod Descriptors
pub mod ClassFile
