-- ===== src/Vm/StackMaps/Tests.antt =====
-- Two functions with three stack maps.
use jllvm.Base.{ℕ, ◌≡◌, ◌↔◌, refl, List, [], ◌∷◌, map, drop}
use jllvm.Vm.GarbageCollector.StackRoots.{StackMapEntry, Entries}
use jllvm.Vm.StackMaps.{
  LocationKind, in_register, at_indirect, constant, Location, Record, entries_of, record_entries,
}
use jllvm.Vm.StackMaps.Sorted.{IsIn, IsStrict, record_entries-IsStrict}
use jllvm.Vm.StackMaps.Grouped.{Group}

abbrev location : LocationKind → ℕ → ℕ → Location
location kind number at = record {
  kind = kind;
  size_in_bytes = 8;
  dwarf_register = number;
  offset = at;
}

-- Three constants, then a slot on the stack twice and a register.
abbrev call : ℕ → Record
call at = record {
  instruction_offset = at;
  locations =
      location constant 0 0
      ∷ location constant 0 0
      ∷ location constant 0 0
      ∷ location at_indirect 7 16
      ∷ location in_register 3 0
      ∷ location at_indirect 7 16
      ∷ [];
}

call_entries : map (λ e. e.register_number) (record_entries (call 4)) ≡ 3 ∷ 7 ∷ []
unfolding record_entries
call_entries = refl

record_entries-IsStrict_example :
    IsStrict (record_entries (call 4))
    × ((e : StackMapEntry)
        → IsIn e (record_entries (call 4)) ↔ IsIn e (entries_of (drop 3 (call 4).locations)))
record_entries-IsStrict_example = record_entries-IsStrict (call 4)

abbrev groups : List Group
groups =
    (record { address = 1000; record_count = 2 }, call 4 ∷ call 8 ∷ [])
    ∷ (record { address = 2000; record_count = 1 }, call 12 ∷ [])
    ∷ []

abbrev no_entries : Entries
no_entries address = []
