-- ===== src/Materialization.antt =====
-- src/jllvm/materialization: the names of native methods, the symbols and types of methods, and the
-- compiler from byte code.
pub mod JniNames
pub mod Types
pub mod Mangling
pub mod JniBridge
pub mod Compiler
