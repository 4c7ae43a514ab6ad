-- ===== src/Vm/StackMaps/Grouped.antt =====
-- Which function a record belongs to.
use jllvm.Base.{◌+◌, ◌%◌, ◌^◌, ◌<◌, ◌≡◌, List, [], ◌∷◌, ◌++◌, length}
use jllvm.Vm.GarbageCollector.StackRoots.{Entries, add_stack_map_entries}
use jllvm.Vm.StackMaps.{Function, Record, record_entries}

-- A function with the records of its own, of which there is one at least.
abbrev pub Group : Type 0
Group = Function × List Record

abbrev pub IsCounted : Group → Type 0
IsCounted (function, records) = (length records ≡ function.record_count) × (0 < length records)

abbrev pub functions_of : List Group → List Function
functions_of [] = []
functions_of ((function, records) ∷ groups) = function ∷ functions_of groups

abbrev pub records_of : List Group → List Record
records_of [] = []
records_of ((function, records) ∷ groups) = records ++ records_of groups

-- Each record under the address of its own function.
abbrev pub register_group : Function → List Record → Entries → Entries
register_group function [] entries = entries
register_group function (r ∷ records) entries = register_group function records (
    add_stack_map_entries entries ((function.address + r.instruction_offset) % 2 ^ 64)
      (record_entries r))

abbrev pub register_groups : List Group → Entries → Entries
register_groups [] entries = entries
register_groups ((function, records) ∷ groups) entries =
    register_groups groups (register_group function records entries)
