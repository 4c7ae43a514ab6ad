-- ===== src/Vm.antt =====
-- src/jllvm/vm
pub mod GarbageCollector
pub mod StackMaps
pub mod VirtualMachine
