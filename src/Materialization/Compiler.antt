-- ===== src/Materialization/Compiler.antt =====
-- src/jllvm/materialization/ByteCodeCompileLayer.cpp, in child modules.
pub mod OpCodes
pub mod Function
pub mod State
pub mod Pool
pub mod Lazy
pub mod Steps
pub mod Arguments
pub mod Switch
pub mod Body
pub mod WellFormed
pub mod Straight
mod Tests
