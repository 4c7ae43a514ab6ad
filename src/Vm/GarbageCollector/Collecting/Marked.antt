-- ===== src/Vm/GarbageCollector/Collecting/Marked.antt =====
-- src/jllvm/vm/GarbageCollector.cpp: the first half of `garbageCollect`, up to `mark`.
use jllvm.Base.{ℕ, ◌+◌, ◌-◌, ◌≡◌, refl, ◌∙◌, ◌↔◌, Bool, true, List, [], ◌++◌, ok, arith}
use jllvm.Vm.GarbageCollector.Heap.{Address, Classes, Memory}
use jllvm.Vm.GarbageCollector.Marking.{WorkState, push_all, mark}
use jllvm.Vm.GarbageCollector.Marking.Pushing.{marked, Unmarks, AreObjects, successors}
use jllvm.Vm.GarbageCollector.Marking.Reachability.{mark-Reachable, collected-IsMarking}
use jllvm.Vm.GarbageCollector.Marking.Termination.{mark-total}
use jllvm.Vm.GarbageCollector.Sweeping.{lookup}
use jllvm.Vm.GarbageCollector.Sweeping.Copying.{Objects}
use jllvm.Vm.GarbageCollector.StackRoots.Collected.{
  stack_roots, collect_stack_roots_lem, push_all-append,
}
use jllvm.Vm.GarbageCollector.StackRoots.Replaced.{replace_stack_roots_lem}
use jllvm.Vm.GarbageCollector.Statics.Roots.{collect_static_roots_lem}
use jllvm.Vm.GarbageCollector.{GarbageCollector, mark_live, rounds}
use jllvm.Vm.GarbageCollector.Collecting.Heaps.{IsHeap, IsRoots, Live, ArePointers}

module _ (classes : Classes) (named : ℕ → ℕ → Bool) (gc : GarbageCollector) (objects : Objects)
    (h : IsHeap classes named gc objects) where
  pub some_roots : (on_stack : List Address) × (stack_roots gc.entries gc.stack ≡ ok on_stack)
  unfolding lookup
  some_roots =
      let (after, ps, run, fits, before, _) =
        replace_stack_roots_lem [] (λ p. refl) refl gc.entries named gc.stack h.frames in
      (ps, before)

  mark_live-push_all :
      (on_stack in_statics : List Address)
      → IsRoots gc on_stack in_statics
      → mark_live classes gc
        ≡ mark gc.from_space gc.bump_ptr classes (gc.bump_ptr - gc.from_space + 1) (
            push_all gc.from_space gc.bump_ptr
              (on_stack ++ in_statics)
              (record { memory = gc.from_memory; work_list = [] }))
  unfolding mark_live rounds
  mark_live-push_all on_stack in_statics (s, t) =
      let start : WorkState = record { memory = gc.from_memory; work_list = [] } in
      rw
        (
          collect_stack_roots_lem gc.from_space gc.bump_ptr gc.entries gc.stack start,
          s,
          collect_static_roots_lem gc.from_space gc.bump_ptr gc.statics.slabs gc.statics.bump
              (push_all gc.from_space gc.bump_ptr on_stack start),
          t,
          push_all-append gc.from_space gc.bump_ptr on_stack in_statics start,
        )
        refl

  -- Marking ends, and marks exactly the live objects.
  pub mark_live-Live :
      (on_stack in_statics : List Address)
      → IsRoots gc on_stack in_statics
      → (m : Memory) × (mark_live classes gc ≡ ok m)
        × Unmarks m gc.from_memory
        × ((a : Address) → (marked m a ≡ true) ↔ Live classes gc (on_stack ++ in_statics) a)
  mark_live-Live on_stack in_statics r =
      let from = gc.from_space in
      let to = gc.bump_ptr in
      let roots = on_stack ++ in_statics in
      let there : (ps : List Address) → ArePointers gc ps → AreObjects gc.from_memory from to ps =
        λ ps pointers a c inside. pointers a c (ground (arith, h.fits)) in
      let (m, run) =
        mark-total from to gc.from_memory classes
          (λ p o. there (successors classes gc.from_memory p) (h.closed p o)) gc.from_memory roots
          h.unmarked (there roots (h.rooted on_stack in_statics r)) in
      let (same, exact) =
        mark-Reachable classes gc.from_memory from to roots (to - from + 1) _
          (collected-IsMarking classes gc.from_memory from to roots h.unmarked) run in
      (m, mark_live-push_all on_stack in_statics r ∙ run, same, exact)
