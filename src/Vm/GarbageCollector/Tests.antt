-- ===== src/Vm/GarbageCollector/Tests.antt =====
-- A heap of two nodes, the first of which refers to the second, with a register that refers to the
-- first, and what the theorems on the collector say of it.
use jllvm.Base.{
  ℕ, ◌+◌, ◌-◌, ◌≤◌, ◌<◌, ◌≡◌, refl, ◌⊎◌, ◌↔◌, inl, inr, Bool, true, false, List, [], ◌∷◌, ◌++◌,
  none, some, arith, sym, ◌∙◌, ap, ok-eq, Bool-cases, assertion, if◌then◌else◌, ◌==◌, contains, map,
  All, ok, fails, fatal,
}
use jllvm.Class.Descriptors.{is_reference_descriptor}
use jllvm.Object.ClassObject.{ClassObject, get_instance_size, get_offset, offset}
use jllvm.Vm.GarbageCollector.Heap.{
  Address, Classes, ObjectRepr, Memory, get_size, introspect_object,
}
use jllvm.Vm.GarbageCollector.Marking.{WorkState, push, push_all, mark}
use jllvm.Vm.GarbageCollector.Marking.Pushing.{marked, Unmarks, successors, is_object, AreObjects}
use jllvm.Vm.GarbageCollector.Marking.Reachability.{Reachable, mark-Reachable, collected-IsMarking}
use jllvm.Vm.GarbageCollector.Marking.Termination.{mark-total}
use jllvm.Vm.GarbageCollector.Sweeping.{Mapping, lookup, SweepState, sweep, replace_references}
use jllvm.Vm.GarbageCollector.Sweeping.Copying.{
  Objects, Walk, addresses, bump_after, copied_memory, new_address, or_else, sweep_lem,
}
use jllvm.Vm.GarbageCollector.Sweeping.Replacing.{translate, IsTranslated, replace_references_lem}
use jllvm.Vm.GarbageCollector.StackRoots.{register, Frame, Stack, Entries, replace_stack_roots}
use jllvm.Vm.GarbageCollector.StackRoots.Collected.{stack_roots}
use jllvm.Vm.GarbageCollector.StackRoots.Replaced.{Fits, replace_stack_roots_lem}
use jllvm.Vm.GarbageCollector.Statics.{
  StaticRefs, no_statics, allocate_static, static_roots, replace_static_roots,
}
use jllvm.Vm.GarbageCollector.Statics.Roots.{
  SlabsValid, replace_static_roots_lem, allocate_static-roots,
}
use jllvm.Vm.GarbageCollector.Collecting.Heaps.{IsHeap, IsRoots, ArePointers}
use jllvm.Vm.GarbageCollector.Collecting.Pointers.{successors-at, no_successors}
use jllvm.Vm.GarbageCollector.Collecting.Marked.{some_roots}
use jllvm.Vm.GarbageCollector.Collecting.Collected.{IsCollected, garbage_collect-IsCollected}
use jllvm.Vm.GarbageCollector.Collecting.Allocated.{IsSource, write_object, allocate-IsHeap}
use jllvm.Vm.GarbageCollector.{GarbageCollector, zeroed, bump, garbage_collect, allocate}

abbrev node_class : ClassObject
node_class = record {
  field_area_size = 8;
  methods = [];
  fields =
      record {
        name = b'n' ∷ [];
        descriptor = b'L' ∷ b'N' ∷ b';' ∷ [];
        storage = offset 8;
        is_static = false;
      }
      ∷ [];
  interfaces = [];
  class_name = b'N' ∷ [];
  super_class = none;
  component_type = none;
  is_primitive = false;
  v_table = [];
}

abbrev classes : Classes
classes c = node_class

abbrev node : Address → ObjectRepr
node next = record { class_object = 0; seen = false; array_length = 0; body = λ slot. next }

abbrev memory : Memory
memory p = if p == 64 then some (node 80) else (if p == 80 then some (node 0) else none)

abbrev objects : Objects
objects = (64, node 80) ∷ (80, node 0) ∷ []

abbrev frame : Frame
frame = record { program_counter = 5; general_register = λ n. 64 }

abbrev stack : Stack
stack = record { frames = frame ∷ []; words = λ a. 0 }

abbrev entries : Entries
entries pc = record { type = register; count = 1; register_number = 3; offset = 0 } ∷ []

abbrev named : ℕ → ℕ → Bool
named pc n = true

abbrev gc : GarbageCollector
gc = record {
  heap_size = 64;
  from_space = 64;
  to_space = 128;
  bump_ptr = 96;
  from_memory = memory;
  to_memory = zeroed;
  entries = entries;
  statics = no_statics;
  stack = stack;
}

objects-Walk : Walk classes memory 64 96 objects
unfolding get_size get_instance_size
objects-Walk = (refl, refl, omega arith, (refl, refl, omega arith, refl))

node_slots : (next : Address) → introspect_object classes (node next) ≡ 8 ∷ []
unfolding introspect_object is_reference_descriptor get_offset
node_slots next = refl

memory_successors :
    (p a : Address)
    → contains (successors classes memory p) a ≡ true
    → ((p ≡ 64) × (a ≡ 80)) ⊎ (a ≡ 0)
memory_successors p a c = elim (Bool-cases (p == 64)) [
  | inl first ↦
      let at : memory p ≡ some (node 80) = ground (arith, first) in
      let list =
        successors-at classes memory p (node 80) at ∙ ap (map (λ slot. 80)) (node_slots 80) in
      let c' : contains (80 ∷ []) a ≡ true = ap (λ l. contains l a) (sym list) ∙ c in
      ground (arith, c')
  | inr other ↦ elim (Bool-cases (p == 80)) [
    | inl second ↦
        let at : memory p ≡ some (node 0) = ground (arith, second) in
        let list =
          successors-at classes memory p (node 0) at ∙ ap (map (λ slot. 0)) (node_slots 0) in
        let c' : contains (0 ∷ []) a ≡ true = ap (λ l. contains l a) (sym list) ∙ c in
        ground (arith, c')
    | inr neither ↦
        let at : memory p ≡ none = ground (arith, other, neither) in
        absurd (let no = no_successors classes memory p at a in cc)
  ]
]

memory_closed :
    (p : Address) → is_object memory 64 96 p ≡ true → ArePointers gc (successors classes memory p)
memory_closed p o a c inside = ground (arith, memory_successors p a c)

stack_root : stack_roots entries stack ≡ ok (64 ∷ [])
unfolding stack_roots
stack_root = refl

memory_roots :
    (on_stack in_statics : List Address)
    → IsRoots gc on_stack in_statics
    → ArePointers gc (on_stack ++ in_statics)
unfolding static_roots
memory_roots on_stack in_statics (on, static) a c inside =
    let first : on_stack ≡ 64 ∷ [] = ok-eq (sym on ∙ stack_root) in
    let second : in_statics ≡ [] = sym static in
    let both : on_stack ++ in_statics ≡ 64 ∷ [] = rw (first, second) refl in
    let c' : contains (64 ∷ []) a ≡ true = ap (λ l. contains l a) (sym both) ∙ c in
    ground (arith, c')

gc-IsHeap : IsHeap classes named gc objects
gc-IsHeap = record {
  walk = objects-Walk;
  inside = λ p h. ground arith;
  rooted = memory_roots;
  closed = memory_closed;
  unmarked = λ a. ground arith;
  fits = omega arith;
  apart = inl (omega arith);
  from_positive = omega arith;
  to_positive = omega arith;
  statics = refl;
  frames = ((refl, tt), tt);
}

garbage_collect-IsCollected_example :
    (after : GarbageCollector) × (objects' : Objects) × (forward : Address → Address)
    × (garbage_collect classes gc ≡ ok after)
    × IsHeap classes named after objects'
    × IsCollected classes gc after (some_roots classes named gc objects gc-IsHeap).0 [] forward
unfolding static_roots
garbage_collect-IsCollected_example =
    garbage_collect-IsCollected classes named gc objects gc-IsHeap
      (some_roots classes named gc objects gc-IsHeap).0 []
      ((some_roots classes named gc objects gc-IsHeap).1, refl)

node_size : get_size classes (node 0) ≡ 16
unfolding get_size get_instance_size
node_size = refl

allocate-IsHeap_example :
    (source : GarbageCollector) × (objects' : Objects) × IsSource classes
      (get_size classes (node 0))
      gc
      source
    × (((source.bump_ptr - source.from_space + get_size classes (node 0) ≤ source.heap_size)
          × (allocate classes true (get_size classes (node 0)) gc
              ≡ ok (source.bump_ptr, bump (get_size classes (node 0)) source))
          × IsHeap classes named
              (write_object source.bump_ptr (node 0) (bump (get_size classes (node 0)) source))
              (objects' ++ (source.bump_ptr, node 0) ∷ []))
        ⊎ ((garbage_collect classes gc ≡ ok source)
            × (source.heap_size < source.bump_ptr - source.from_space + get_size classes (node 0))
            × (allocate classes true (get_size classes (node 0)) gc ≡ fails fatal)))
allocate-IsHeap_example =
    allocate-IsHeap classes named gc objects true (node 0) gc-IsHeap refl (λ slot listed. refl)
      (omega (arith, node_size)) (omega (arith, node_size))

abbrev start : WorkState
start = record { memory = memory; work_list = [] }

memory_unmarked : Unmarks memory memory
memory_unmarked a = ground arith

memory_closed_below :
    (p : Address)
    → is_object memory 64 96 p ≡ true
    → AreObjects memory 64 96 (successors classes memory p)
memory_closed_below p o a c inside = ground (arith, memory_successors p a c)

mark-total_example :
    (m : Memory) × (mark 64 96 classes (96 - 64 + 1) (push_all 64 96 (64 ∷ 0 ∷ []) start) ≡ ok m)
mark-total_example =
    mark-total 64 96 memory classes memory_closed_below memory (64 ∷ 0 ∷ []) memory_unmarked
      (λ a c inside. ground arith)

all_marked : (m : Memory) × (mark 64 96 classes 33 (push_all 64 96 (64 ∷ []) start) ≡ ok m)
all_marked =
    mark-total 64 96 memory classes memory_closed_below memory (64 ∷ []) memory_unmarked
      (λ a c inside. ground arith)

mark-Reachable_example :
    Unmarks all_marked.0 memory
    × ((a : Address) → (marked all_marked.0 a ≡ true) ↔ Reachable classes memory 64 96 (64 ∷ []) a)
mark-Reachable_example =
    mark-Reachable classes memory 64 96 (64 ∷ []) 33 (push_all 64 96 (64 ∷ []) start)
      (collected-IsMarking classes memory 64 96 (64 ∷ []) memory_unmarked) all_marked.1

-- A reference into an object, where none starts, is taken for an object, and marking fails on it.
interior_fails : mark 64 96 classes 33 (push_all 64 96 (72 ∷ []) start) ≡ fails assertion
unfolding mark push_all push
interior_fails = refl

abbrev sweeping : SweepState
sweeping = record { from_memory = memory; to_memory = zeroed; bump_ptr = 128; mapping = [] }

sweep_lem_example :
    (t : SweepState) × (sweep classes 3 96 64 sweeping ≡ ok t)
    × (t.bump_ptr ≡ bump_after classes 128 objects)
    × (t.to_memory ≡ copied_memory classes zeroed 128 objects)
    × ((p : Address)
        → lookup t.mapping p ≡ or_else (new_address classes 128 objects p) (lookup [] p))
sweep_lem_example = sweep_lem classes 3 96 64 sweeping objects objects-Walk (omega arith)

abbrev mapping : Mapping
mapping = (80, 200) ∷ []

mapping_stable : (p : Address) → translate mapping (translate mapping p) ≡ translate mapping p
unfolding lookup
mapping_stable p = ground arith

replace_references_lem_example :
    (result : Memory) × (replace_references classes 3 mapping 96 64 memory ≡ ok result)
    × ((objects' : Objects) × Walk classes result 64 96 objects'
        × (addresses objects' ≡ addresses objects))
    × ((p : Address) → contains (addresses objects) p ≡ false → result p ≡ memory p)
    × ((p : Address) (object : ObjectRepr)
        → contains (addresses objects) p ≡ true
        → memory p ≡ some object
        → (copy : ObjectRepr) × (result p ≡ some copy)
          × IsTranslated classes mapping mapping_stable object copy)
replace_references_lem_example =
    replace_references_lem classes mapping mapping_stable 3 96 64 memory objects objects-Walk
      (omega arith)

replace_stack_roots_lem_example :
    (after : Stack) × (ps : List Address) × (replace_stack_roots mapping entries stack ≡ ok after)
    × All
        (λ (f : Frame). All (Fits (named f.program_counter)) (entries f.program_counter))
        after.frames
    × (stack_roots entries stack ≡ ok ps)
    × (stack_roots entries after ≡ ok (map (translate mapping) ps))
unfolding lookup
replace_stack_roots_lem_example =
    replace_stack_roots_lem mapping mapping_stable refl entries named stack ((refl, tt), tt)

abbrev one_static : StaticRefs
one_static = (allocate_static no_statics).0

one_static-valid :
    SlabsValid (allocate_static no_statics).0.slabs (allocate_static no_statics).0.bump
one_static-valid = (allocate_static-roots no_statics refl).0

replace_static_roots_lem_example :
    SlabsValid (replace_static_roots mapping one_static.slabs one_static.bump) one_static.bump
    × (static_roots (replace_static_roots mapping one_static.slabs one_static.bump) one_static.bump
        ≡ map (translate mapping) (static_roots one_static.slabs one_static.bump))
replace_static_roots_lem_example =
    replace_static_roots_lem mapping one_static.slabs one_static.bump one_static-valid

allocate_static-roots_example :
    SlabsValid (allocate_static one_static).0.slabs (allocate_static one_static).0.bump
    × (static_roots (allocate_static one_static).0.slabs (allocate_static one_static).0.bump
        ≡ static_roots one_static.slabs one_static.bump ++ 0 ∷ [])
allocate_static-roots_example = allocate_static-roots one_static one_static-valid
