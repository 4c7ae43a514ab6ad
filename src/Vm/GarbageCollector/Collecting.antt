-- ===== src/Vm/GarbageCollector/Collecting.antt =====
-- src/jllvm/vm/GarbageCollector.cpp: `garbageCollect` and `allocate` as a whole.
pub mod Heaps
pub mod Marked
pub mod Swept
pub mod Forwarded
pub mod Pointers
pub mod Collected
pub mod Allocated
