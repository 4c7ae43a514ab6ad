-- ===== src/Object.antt =====
-- src/jllvm/object
pub mod ClassObject
pub mod ClassLoader
