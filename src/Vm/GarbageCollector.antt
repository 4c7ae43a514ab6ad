-- ===== src/Vm/GarbageCollector.antt =====
-- src/jllvm/vm/GarbageCollector.hpp and GarbageCollector.cpp: a semi-space collector. The state is
-- the collector's, with the stack that the unwinder sees; the two spaces are separate arrays.
pub mod Heap
pub mod Marking
pub mod Sweeping
pub mod StackRoots
pub mod Statics
pub mod Collecting
mod Tests
use jllvm.Base.{
  ℕ, zero, suc, ◌+◌, ◌-◌, ◌%◌, ◌^◌, ◌≤◌, ◌<◌, ◌≡◌, Bool, true, false, not, ◌&&◌, ◌||◌, List, [],
  ◌∷◌, none, some, Option, if◌then◌else◌, leb, ltb, Outcome, ok, fails, fatal, ◌>>=◌,
}
use Heap.{Address, Classes, ObjectRepr, Memory, update}
use Marking.{WorkState, mark}
use Sweeping.{Mapping, SweepState, sweep, replace_references}
use StackRoots.{Entries, Stack, collect_stack_roots, replace_stack_roots}
use Statics.{StaticRefs, no_statics, collect_static_roots, replace_static_roots, allocate_static}

pub record GarbageCollector : Type 0 where
  pub heap_size : ℕ
  pub from_space : Address
  pub to_space : Address
  pub bump_ptr : Address
  pub from_memory : Memory
  pub to_memory : Memory
  pub entries : Entries
  pub statics : StaticRefs
  pub stack : Stack

-- A space that `std::memset` has zeroed: no object starts in it.
abbrev pub zeroed : Memory
zeroed p = none

-- The constructor, with the spaces at the addresses that the allocations return.
pub create : ℕ → Address → Address → Stack → GarbageCollector
create heap_size space_one space_two stack = record {
  heap_size = heap_size;
  from_space = space_one;
  to_space = space_two;
  bump_ptr = space_one;
  from_memory = zeroed;
  to_memory = zeroed;
  entries = λ pc. [];
  statics = no_statics;
  stack = stack;
}

pub is_nil : Mapping → Bool
is_nil [] = true
is_nil (m ∷ ms) = false

-- `(m_bumpPtr - m_fromSpace) + size > m_heapSize`, in `std::size_t`
pub is_full : ℕ → GarbageCollector → Bool
is_full size gc = ltb gc.heap_size ((gc.bump_ptr - gc.from_space + size) % 2 ^ 64)

-- The storage is taken and zeroed.
pub bump : ℕ → GarbageCollector → GarbageCollector
bump size gc = record gc {
  bump_ptr = gc.bump_ptr + size;
  from_memory =
      λ p. if leb gc.bump_ptr p && ltb p (gc.bump_ptr + size) then none else gc.from_memory p;
}

-- Every object has at least one byte, so the used bytes bound the rounds of each loop.
pub rounds : GarbageCollector → ℕ
rounds gc = gc.bump_ptr - gc.from_space + 1

module _ (classes : Classes) where
  -- Collecting the roots, and `mark`.
  pub mark_live : GarbageCollector → Outcome Memory
  unfolding collect_stack_roots collect_static_roots mark rounds
  mark_live gc = do
    let from = gc.from_space
    let to = gc.bump_ptr
    roots ←
        collect_stack_roots from to gc.entries gc.stack
          (record { memory = gc.from_memory; work_list = [] })
    mark from to classes (rounds gc)
        (collect_static_roots from to gc.statics.slabs gc.statics.bump roots)

  -- The loops that replace the references, with the spaces swapped already.
  replace_live : ℕ → Mapping → GarbageCollector → Outcome GarbageCollector
  unfolding replace_stack_roots replace_static_roots replace_references
  replace_live fuel mapping gc = do
    stack ← replace_stack_roots mapping gc.entries gc.stack
    let slabs = replace_static_roots mapping gc.statics.slabs gc.statics.bump
    memory ← replace_references classes fuel mapping gc.bump_ptr gc.from_space gc.from_memory
    ok (record gc {
      stack = stack;
      statics = record { slabs = slabs; bump = gc.statics.bump };
      from_memory = memory;
    })

  pub garbage_collect : GarbageCollector → Outcome GarbageCollector
  unfolding mark_live sweep replace_live rounds is_nil
  garbage_collect gc = do
    marked ← mark_live gc
    swept ←
        sweep classes (rounds gc) gc.bump_ptr gc.from_space (record {
          from_memory = marked;
          to_memory = zeroed;
          bump_ptr = gc.to_space;
          mapping = [];
        })
    let swapped = record gc {
      from_space = gc.to_space;
      to_space = gc.from_space;
      bump_ptr = swept.bump_ptr;
      from_memory = swept.to_memory;
      to_memory = swept.from_memory;
    }
    if is_nil swept.mapping then ok swapped else replace_live (rounds swapped) swept.mapping swapped

  -- `gcEveryAlloc` is the command line option. The loop makes at most two rounds, since the first
  -- sets `attemptedGarbageCollected`. `std::memset` leaves no object in the new storage, whose header
  -- the caller writes.
  pub allocate : Bool → ℕ → GarbageCollector → Outcome (Address × GarbageCollector)
  unfolding garbage_collect is_full bump
  allocate gc_every_alloc size gc =
      let collected = garbage_collect gc in
      (if gc_every_alloc || is_full size gc then collected else ok gc) >>= λ gc.
      if is_full size gc then fails fatal else ok (gc.bump_ptr, bump size gc)

pub add_stack_map_entries : ℕ → List StackRoots.StackMapEntry → GarbageCollector → GarbageCollector
unfolding StackRoots.add_stack_map_entries
add_stack_map_entries addr added gc = record gc {
  entries = StackRoots.add_stack_map_entries gc.entries addr added;
}

pub new_static : GarbageCollector → (ℕ × ℕ) × GarbageCollector
unfolding allocate_static
new_static gc =
    let (statics, storage) = allocate_static gc.statics in
    (storage, record gc { statics = statics })
