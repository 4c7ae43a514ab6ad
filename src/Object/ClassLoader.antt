-- ===== src/Object/ClassLoader.antt =====
-- src/jllvm/object/ClassLoader.cpp, in child modules: the slots of the v-table, the layout of the
-- fields, and loading by name.
pub mod Slots
pub mod Layout
pub mod Loading
mod Tests
