-- ===== src/Vm/GarbageCollector/Collecting/Heaps.antt =====
-- src/jllvm/vm/GarbageCollector.hpp: the invariant of the state, and forwarded objects.
use jllvm.Base.{
  ℕ, ◌+◌, ◌++◌, ◌||◌, ◌≤◌, ◌<◌, ◌≡◌, Bool, true, false, ◌⊎◌, List, ok, contains, if◌then◌else◌, All,
}
use jllvm.Vm.GarbageCollector.Heap.{Address, Classes, ObjectRepr, introspect_object}
use jllvm.Vm.GarbageCollector.Marking.Pushing.{Unmarks, is_object, in_space, successors}
use jllvm.Vm.GarbageCollector.Marking.Reachability.{Reachable}
use jllvm.Vm.GarbageCollector.Sweeping.Copying.{Objects, Walk, addresses}
use jllvm.Vm.GarbageCollector.StackRoots.{Frame}
use jllvm.Vm.GarbageCollector.StackRoots.Collected.{stack_roots}
use jllvm.Vm.GarbageCollector.StackRoots.Replaced.{Fits}
use jllvm.Vm.GarbageCollector.Statics.{static_roots}
use jllvm.Vm.GarbageCollector.Statics.Roots.{SlabsValid}
use jllvm.Vm.GarbageCollector.{GarbageCollector}

-- An address in one of the two spaces.
abbrev pub in_spaces : GarbageCollector → Address → Bool
in_spaces gc a =
    in_space gc.from_space (gc.from_space + gc.heap_size) a
    || in_space gc.to_space (gc.to_space + gc.heap_size) a

-- A reference into one of the spaces is one to an object.
abbrev pub ArePointers : GarbageCollector → List Address → Type 0
ArePointers gc ps =
    (a : Address)
    → contains ps a ≡ true
    → in_spaces gc a ≡ true
    → is_object gc.from_memory gc.from_space gc.bump_ptr a ≡ true

-- The roots of a collector, from its stack and its statics.
abbrev pub IsRoots : GarbageCollector → List Address → List Address → Type 0
IsRoots gc on_stack in_statics =
    (stack_roots gc.entries gc.stack ≡ ok on_stack)
    × (static_roots gc.statics.slabs gc.statics.bump ≡ in_statics)

-- `named` says which registers hold references at a program counter.
module _ (classes : Classes) (named : ℕ → ℕ → Bool) where
  pub record IsHeap (gc : GarbageCollector) (objects : Objects) : Type 0 where
    -- The used part of the from space is a row of objects, and no other objects start in it.
    pub walk : Walk classes gc.from_memory gc.from_space gc.bump_ptr objects
    pub inside :
        (p : Address)
        → is_object gc.from_memory gc.from_space gc.bump_ptr p ≡ true
        → contains (addresses objects) p ≡ true
    -- No reference on the stack, in the statics or in an object dangles.
    pub rooted :
        (on_stack in_statics : List Address)
        → IsRoots gc on_stack in_statics
        → ArePointers gc (on_stack ++ in_statics)
    pub closed :
        (p : Address)
        → is_object gc.from_memory gc.from_space gc.bump_ptr p ≡ true
        → ArePointers gc (successors classes gc.from_memory p)
    -- No marks are left from an earlier collection.
    pub unmarked : Unmarks gc.from_memory gc.from_memory
    pub fits : gc.bump_ptr ≤ gc.from_space + gc.heap_size
    -- The spaces do not overlap, and are not at the null pointer.
    pub apart :
        (gc.from_space + gc.heap_size ≤ gc.to_space) ⊎ (gc.to_space + gc.heap_size ≤ gc.from_space)
    pub from_positive : 0 < gc.from_space
    pub to_positive : 0 < gc.to_space
    pub statics : SlabsValid gc.statics.slabs gc.statics.bump
    pub frames :
        All
          (λ (f : Frame). All (Fits (named f.program_counter)) (gc.entries f.program_counter))
          gc.stack.frames

-- The object `copy` is `object` with its references forwarded.
pub record IsForwarded (classes : Classes) (forward : Address → Address) (object copy : ObjectRepr)
    : Type 0 where
  pub class_object : copy.class_object ≡ object.class_object
  pub array_length : copy.array_length ≡ object.array_length
  pub seen : copy.seen ≡ false
  pub body :
      (slot : ℕ)
      → copy.body slot ≡ (
          if contains (introspect_object classes object) slot
          then forward (object.body slot)
          else object.body slot)

abbrev pub Live : Classes → GarbageCollector → List Address → Address → Type 0
Live classes gc roots = Reachable classes gc.from_memory gc.from_space gc.bump_ptr roots
