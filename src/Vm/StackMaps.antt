-- ===== src/Vm/StackMaps.antt =====
-- src/jllvm/vm/StackMapRegistrationPlugin.cpp: what is read from a section of stack maps into the
-- entries of the collector, and the order of entries in src/jllvm/vm/GarbageCollector.hpp. The parser
-- of the section belongs to LLVM: a section is the list of its functions and that of its records.
pub mod Sorted
pub mod Grouped
mod Tests
use jllvm.Base.{
  ℕ, zero, suc, ◌+◌, ◌/◌, ◌%◌, ◌^◌, Bool, true, false, ◌||◌, ◌&&◌, List, [], ◌∷◌, Option, none,
  some, ltb, ◌==◌, if◌then◌else◌, drop, Outcome, ok, fails, assertion,
}
use jllvm.Object.ClassObject.{pointer_size}
use jllvm.Vm.GarbageCollector.StackRoots.{
  EntryType, register, direct, indirect, StackMapEntry, Entries, add_stack_map_entries,
}

pub data LocationKind : Type 0 where
  in_register at_direct at_indirect constant constant_index : LocationKind

-- A location of a record; the offset is its 32 bits.
pub record Location : Type 0 where
  pub kind : LocationKind
  pub size_in_bytes : ℕ
  pub dwarf_register : ℕ
  pub offset : ℕ

pub record Record : Type 0 where
  pub instruction_offset : ℕ
  pub locations : List Location

pub record Function : Type 0 where
  pub address : ℕ
  pub record_count : ℕ

unfoldable pub type_value : EntryType → ℕ
type_value register = 1
type_value direct = 2
type_value indirect = 3

-- `std::tie` of four numbers under `<`.
unfoldable pub tuple_lt : ℕ → ℕ → ℕ → ℕ → ℕ → ℕ → ℕ → ℕ → Bool
tuple_lt a b c d a' b' c' d' =
    ltb a a' || (a == a' && (ltb b b' || (b == b' && (ltb c c' || (c == c' && ltb d d')))))

unfoldable pub entry_lt : StackMapEntry → StackMapEntry → Bool
unfolding tuple_lt type_value
entry_lt x y =
    tuple_lt (type_value x.type) x.count x.register_number x.offset (type_value y.type) y.count
      y.register_number y.offset

unfoldable pub entry_eq : StackMapEntry → StackMapEntry → Bool
unfolding type_value
entry_eq x y =
    type_value x.type == type_value y.type
    && (x.count == y.count && (x.register_number == y.register_number && x.offset == y.offset))

-- The `switch` on the kind of a location.
unfoldable pub entry_of : Location → LocationKind → Option StackMapEntry
entry_of l in_register = some (record {
  type = register;
  count = l.size_in_bytes / pointer_size % 2 ^ 8;
  register_number = l.dwarf_register;
  offset = 0;
})
entry_of l at_direct = some (record {
  type = direct;
  count = l.size_in_bytes / pointer_size % 2 ^ 8;
  register_number = l.dwarf_register;
  offset = l.offset;
})
entry_of l at_indirect = some (record {
  type = indirect;
  count = l.size_in_bytes / pointer_size % 2 ^ 8;
  register_number = l.dwarf_register;
  offset = l.offset;
})
entry_of l constant = none
entry_of l constant_index = none

-- The loop over the locations.
unfoldable pub entries_of : List Location → List StackMapEntry
unfolding entry_of
entries_of [] = []
entries_of (l ∷ rest) = elim (entry_of l l.kind) [
  | none ↦ entries_of rest
  | some e ↦ e ∷ entries_of rest
]

-- `llvm::sort`, by insertion: entries that are not ordered are equal, so every sort gives the same.
unfoldable pub insert_entry : StackMapEntry → List StackMapEntry → List StackMapEntry
unfolding entry_lt
insert_entry e [] = e ∷ []
insert_entry e (x ∷ rest) = if entry_lt x e then x ∷ insert_entry e rest else e ∷ x ∷ rest

unfoldable pub sort : List StackMapEntry → List StackMapEntry
unfolding insert_entry
sort [] = []
sort (e ∷ rest) = insert_entry e (sort rest)

-- `std::unique` with `erase`, behind an entry that is kept, and on the whole.
unfoldable pub unique_behind : StackMapEntry → List StackMapEntry → List StackMapEntry
unfolding entry_eq
unique_behind x [] = []
unique_behind x (y ∷ rest) =
    let same = unique_behind x rest in
    let other = y ∷ unique_behind y rest in if entry_eq x y then same else other

unfoldable pub unique : List StackMapEntry → List StackMapEntry
unfolding unique_behind
unique [] = []
unique (x ∷ rest) = x ∷ unique_behind x rest

-- The entries of a record: its locations from the fourth on.
unfoldable pub record_entries : Record → List StackMapEntry
unfolding entries_of sort unique
record_entries r = unique (sort (entries_of (drop 3 r.locations)))

-- The loop over the records, with `currFunc` and `recordCount`. Behind the last function there is
-- none to read.
unfoldable pub register_records : List Function → ℕ → List Record → Entries → Outcome Entries
unfolding record_entries add_stack_map_entries
register_records functions count [] entries = ok entries
register_records [] count (r ∷ records) entries = fails assertion
register_records (function ∷ functions) count (r ∷ records) entries =
    let addr = (function.address + r.instruction_offset) % 2 ^ 64 in
    let added = add_stack_map_entries entries addr (record_entries r) in
    let next = register_records functions 0 records added in
    let same = register_records (function ∷ functions) (suc count) records added in
    if suc count == function.record_count then next else same
