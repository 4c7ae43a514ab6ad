-- ===== src/Vm/GarbageCollector/Collecting/Collected.antt =====
-- `garbageCollect` as a whole.
use jllvm.Base.{
  ℕ, ◌+◌, ◌-◌, ◌≤◌, ◌<◌, ◌≡◌, refl, ap, sym, subst, ◌∙◌, ◌↔◌, inl, inr, Bool, true, false, List, [],
  ◌∷◌, ◌++◌, some, arith, map, map-append, ok-eq, contains, ok, Option-cases, Bool-cases, All,
}
use jllvm.Vm.GarbageCollector.Heap.{Address, Classes, ObjectRepr, Memory}
use jllvm.Vm.GarbageCollector.Marking.Pushing.{marked, Unmarks, is_object}
use jllvm.Vm.GarbageCollector.Sweeping.{Mapping, lookup, SweepState, sweep, replace_references}
use jllvm.Vm.GarbageCollector.Sweeping.Copying.{Objects}
use jllvm.Vm.GarbageCollector.Sweeping.Replacing.{translate}
use jllvm.Vm.GarbageCollector.StackRoots.{Frame, Stack, replace_stack_roots}
use jllvm.Vm.GarbageCollector.StackRoots.Collected.{stack_roots}
use jllvm.Vm.GarbageCollector.StackRoots.Replaced.{Fits, replace_stack_roots_lem}
use jllvm.Vm.GarbageCollector.Statics.{static_roots, replace_static_roots}
use jllvm.Vm.GarbageCollector.Statics.Roots.{SlabsValid, replace_static_roots_lem}
use jllvm.Vm.GarbageCollector.{
  GarbageCollector, zeroed, is_nil, rounds, mark_live, replace_live, garbage_collect,
}
use jllvm.Vm.GarbageCollector.Collecting.Heaps.{IsHeap, IsForwarded, IsRoots, Live}
use jllvm.Vm.GarbageCollector.Collecting.Marked.{mark_live-Live}
use jllvm.Vm.GarbageCollector.Collecting.Swept.{
  IsSwept, sweep-IsSwept, room, null, stable, order, positive,
}
use jllvm.Vm.GarbageCollector.Collecting.Pointers.{
  translated, forward-Live, Live-forward, translated-ArePointers, result-closed,
}
use jllvm.Vm.GarbageCollector.Marking.Reachability.{root}
use jllvm.Vm.GarbageCollector.Collecting.Forwarded.{
  IsReplaced, nil-IsReplaced, replace_references-IsReplaced, result-inside, result-is_object,
  result-onto, result-unmarked,
}

-- What a collection promises: `forward` says where each object has gone.
pub record IsCollected (classes : Classes) (gc after : GarbageCollector)
    (on_stack in_statics : List Address) (forward : Address → Address) : Type 0 where
  -- The spaces are swapped, and no more of the space is used than before.
  pub spaces :
      (after.from_space ≡ gc.to_space)
      × (after.to_space ≡ gc.from_space)
      × (after.heap_size ≡ gc.heap_size)
  pub used :
      (after.from_space ≤ after.bump_ptr)
      × (after.bump_ptr + gc.from_space ≤ after.from_space + gc.bump_ptr)
  -- Every live object has been copied, and refers to the copies of what it referred to.
  pub kept :
      (p : Address)
      → Live classes gc (on_stack ++ in_statics) p
      → is_object after.from_memory after.from_space after.bump_ptr (forward p) ≡ true
        × ((object copy : ObjectRepr) × (gc.from_memory p ≡ some object)
            × (after.from_memory (forward p) ≡ some copy)
            × IsForwarded classes forward object copy)
  -- The objects keep their order, so that two of them never become one.
  pub order :
      (p p' : Address)
      → Live classes gc (on_stack ++ in_statics) p
      → Live classes gc (on_stack ++ in_statics) p'
      → p < p'
      → forward p < forward p'
  -- Nothing else is in the new space.
  pub only :
      (q : Address)
      → is_object after.from_memory after.from_space after.bump_ptr q ≡ true
      → (p : Address) × Live classes gc (on_stack ++ in_statics) p × (forward p ≡ q)
  -- Other references, such as null, are left alone.
  pub others : (p : Address) → (Live classes gc (on_stack ++ in_statics) p → ⊥) → forward p ≡ p
  -- The roots follow their objects, in the same order and number.
  pub roots : IsRoots after (map forward on_stack) (map forward in_statics)

nothing_translated :
    (mapping : Mapping)
    → is_nil mapping ≡ true
    → (ps : List Address) → map (translate mapping) ps ≡ ps
unfolding is_nil lookup
nothing_translated [] h [] = refl
nothing_translated [] h (p ∷ ps) = ap (λ (r : List Address). p ∷ r) (nothing_translated [] h ps)
nothing_translated (e ∷ es) h ps = cc

module _ (classes : Classes) (named : ℕ → ℕ → Bool) (gc : GarbageCollector) (objects : Objects)
    (h : IsHeap classes named gc objects) (on_stack in_statics : List Address)
    (roots : IsRoots gc on_stack in_statics) where
  -- The swapped collector with the stack, the slabs and the space that the loops have left.
  abbrev pub rebuilt : SweepState → Stack → List (List ℕ) → Memory → GarbageCollector
  rebuilt t stack slabs memory = record gc {
    from_space = gc.to_space;
    to_space = gc.from_space;
    bump_ptr = t.bump_ptr;
    from_memory = memory;
    to_memory = t.from_memory;
    stack = stack;
    statics = record { slabs = slabs; bump = gc.statics.bump };
  }

  module _ (m : Memory) (same : Unmarks m gc.from_memory)
      (exact : (a : Address) → (marked m a ≡ true) ↔ Live classes gc (on_stack ++ in_statics) a)
      (t : SweepState) (s : IsSwept classes named gc objects h m same t) where
    module _ (memory : Memory) (objects' : Objects)
        (r : IsReplaced classes named gc objects h m same t s memory objects') (stack : Stack)
        (slabs : List (List ℕ))
        (frames : All
          (λ (f : Frame). All (Fits (named f.program_counter)) (gc.entries f.program_counter))
          stack.frames)
        (valid : SlabsValid slabs gc.statics.bump)
        (stack_after : stack_roots gc.entries stack ≡ ok (map (translate t.mapping) on_stack))
        (statics_after : static_roots slabs gc.statics.bump
          ≡ map (translate t.mapping) in_statics) where
      rebuilt-IsHeap : IsHeap classes named (rebuilt t stack slabs memory) objects'
      rebuilt-IsHeap = record {
        walk = r.walk;
        rooted = λ on_stack' in_statics' (on, static) a c i.
            let stack_same : on_stack' ≡ map (translate t.mapping) on_stack =
              ok-eq (sym on ∙ stack_after) in
            let statics_same : in_statics' ≡ map (translate t.mapping) in_statics =
              sym static ∙ statics_after in
            let both : on_stack' ++ in_statics'
                ≡ map (translate t.mapping) (on_stack ++ in_statics) =
              rw (stack_same, statics_same)
                (sym (map-append (translate t.mapping) on_stack in_statics)) in
            translated-ArePointers classes named gc objects h on_stack in_statics m same exact t s
              memory objects' r (on_stack ++ in_statics)
              (λ b listed inside. root listed (h.rooted on_stack in_statics roots b listed inside))
              a (subst (λ (l : List Address). contains l a ≡ true) both c) i;
        closed =
            result-closed classes named gc objects h on_stack in_statics m same exact t s memory
              objects' r;
        inside = result-inside classes named gc objects h m same t s memory objects' r;
        unmarked = result-unmarked classes named gc objects h m same t s memory objects' r;
        fits = omega (arith, h.fits, room classes named gc objects h m same t s);
        apart = ground (arith, h.apart);
        from_positive = h.to_positive;
        to_positive = h.from_positive;
        statics = valid;
        frames = frames;
      }

      rebuilt-IsCollected :
          IsCollected classes gc
            (rebuilt t stack slabs memory)
            on_stack
            in_statics
            (translate t.mapping)
      rebuilt-IsCollected = record {
        spaces = (refl, refl, refl);
        used = room classes named gc objects h m same t s;
        kept = λ p l.
            let (q, e) =
              forward-Live classes named gc objects h on_stack in_statics m same exact t s p l in
            subst
              (λ (x : Address).
                (is_object memory gc.to_space t.bump_ptr x ≡ true)
                × ((object copy : ObjectRepr) × (gc.from_memory p ≡ some object)
                    × (memory x ≡ some copy)
                    × IsForwarded classes (translate t.mapping) object copy))
              (sym
                (translated t.mapping p q e (positive classes named gc objects h m same t s p q e)))
              (
                result-is_object classes named gc objects h m same t s memory objects' r p q e,
                r.forwarded p q e,
              );
        order = λ p p' l l' lt.
            let (q, e) =
              forward-Live classes named gc objects h on_stack in_statics m same exact t s p l in
            let (q', e') =
              forward-Live classes named gc objects h on_stack in_statics m same exact t s p' l' in
            rw
              (
                translated t.mapping p q e (positive classes named gc objects h m same t s p q e),
                translated t.mapping p' q' e'
                    (positive classes named gc objects h m same t s p' q' e'),
              )
              (order classes named gc objects h m same t s p p' q q' e e' lt);
        only = λ q o.
            let (p, e) = result-onto classes named gc objects h m same t s memory objects' r q o in
            (
              p,
              Live-forward classes named gc objects h on_stack in_statics m same exact t s p q e,
              translated t.mapping p q e (positive classes named gc objects h m same t s p q e),
            );
        others = λ p dead. elim (Option-cases (lookup t.mapping p)) [
          | inl e ↦ ground (arith, e)
          | inr (q, e) ↦ absurd (
              dead (
                Live-forward classes named gc objects h on_stack in_statics m same exact t s p q e))
        ];
        roots = (stack_after, statics_after);
      }

  nil_case :
      (m : Memory)
      → mark_live classes gc ≡ ok m
      → (t : SweepState)
      → sweep classes
          (rounds gc)
          gc.bump_ptr
          gc.from_space
          (record { from_memory = m; to_memory = zeroed; bump_ptr = gc.to_space; mapping = [] })
        ≡ ok t
      → is_nil t.mapping ≡ true
      → garbage_collect classes gc ≡ ok (rebuilt t gc.stack gc.statics.slabs t.to_memory)
  unfolding garbage_collect
  nil_case m run t swept nil = rw (run, swept, nil) refl

  replace_case :
      (m : Memory)
      → mark_live classes gc ≡ ok m
      → (t : SweepState)
      → sweep classes
          (rounds gc)
          gc.bump_ptr
          gc.from_space
          (record { from_memory = m; to_memory = zeroed; bump_ptr = gc.to_space; mapping = [] })
        ≡ ok t
      → is_nil t.mapping ≡ false
      → (stack : Stack) → replace_stack_roots t.mapping gc.entries gc.stack ≡ ok stack
      → (memory : Memory)
      → replace_references classes
          (t.bump_ptr - gc.to_space + 1)
          t.mapping
          t.bump_ptr
          gc.to_space
          t.to_memory
        ≡ ok memory
      → garbage_collect classes gc
        ≡ ok (
            rebuilt t stack
              (replace_static_roots t.mapping gc.statics.slabs gc.statics.bump)
              memory)
  unfolding garbage_collect replace_live rounds
  replace_case m run t swept some_mapping stack replaced_stack memory replaced =
      rw (run, swept, some_mapping, replaced_stack, replaced) refl

  -- On a heap whose invariant IsHeap holds (among others no root and no reference in an object
  -- leads into one of the two spaces but to an object), garbageCollect ends without a failure,
  -- and there is a forwarding of addresses such that every object that the roots on the stack and
  -- in the statics reach, through the slots that introspectObject visits, is copied into the
  -- other space with its class, length and other values kept and the references in those slots
  -- forwarded; the roots are forwarded likewise; the copies keep their order; references to
  -- anything else are left alone; nothing else is in the new space, which is no fuller than the
  -- old one was; and the invariant holds again.
  pub garbage_collect-IsCollected :
      (after : GarbageCollector) × (objects' : Objects) × (forward : Address → Address)
      × (garbage_collect classes gc ≡ ok after)
      × IsHeap classes named after objects'
      × IsCollected classes gc after on_stack in_statics forward
  unfolding lookup is_nil
  garbage_collect-IsCollected =
      let (m, run, same, exact) =
        mark_live-Live classes named gc objects h on_stack in_statics roots in
      let (t, swept, s) = sweep-IsSwept classes named gc objects h m same in
      let mapping = t.mapping in
      let (valid, statics_after) =
        replace_static_roots_lem mapping gc.statics.slabs gc.statics.bump h.statics in
      let (stack, ps, replaced_stack, frames, before, stack_after) =
        replace_stack_roots_lem mapping (stable classes named gc objects h m same t s)
          (null classes named gc objects h m same t s) gc.entries named gc.stack h.frames in
      let same_roots : ps ≡ on_stack = cc in
      elim (Bool-cases (is_nil mapping)) [
        | inl nil ↦
            let r = nil-IsReplaced classes named gc objects h m same t s nil in
            let on_stack' = roots.0 ∙ ap ok (sym (nothing_translated mapping nil on_stack)) in
            let in_statics' = roots.1 ∙ sym (nothing_translated mapping nil in_statics) in
            (
              rebuilt t gc.stack gc.statics.slabs t.to_memory,
              _,
              translate mapping,
              nil_case m run t swept nil,
              rebuilt-IsHeap m same exact t s t.to_memory _ r gc.stack gc.statics.slabs h.frames
                  h.statics on_stack' in_statics',
              rebuilt-IsCollected m same exact t s t.to_memory _ r gc.stack gc.statics.slabs
                  h.frames h.statics on_stack' in_statics',
            )
        | inr some_mapping ↦
            let (memory, objects', replaced, r) =
              replace_references-IsReplaced classes named gc objects h m same t s in
            let slabs = replace_static_roots mapping gc.statics.slabs gc.statics.bump in
            let statics_after' = statics_after ∙ ap (map (translate mapping)) roots.1 in
            let stack_after' = stack_after ∙ ap (λ l. ok (map (translate mapping) l)) same_roots in
            (
              rebuilt t stack slabs memory,
              objects',
              translate mapping,
              replace_case m run t swept some_mapping stack replaced_stack memory replaced,
              rebuilt-IsHeap m same exact t s memory objects' r stack slabs frames valid
                  stack_after' statics_after',
              rebuilt-IsCollected m same exact t s memory objects' r stack slabs frames valid
                  stack_after' statics_after',
            )
      ]
