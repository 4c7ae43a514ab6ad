-- ===== src/Vm/GarbageCollector/Collecting/Swept.antt =====
-- src/jllvm/vm/GarbageCollector.cpp: the second half of `garbageCollect`, from the copying loop on.
use jllvm.Base.{
  ℕ, ◌+◌, ◌≤◌, ◌<◌, ◌≡◌, sym, ◌∙◌, inl, inr, Bool, true, List, [], none, some, arith, contains, ok,
  Option-cases,
}
use jllvm.Vm.GarbageCollector.Heap.{Address, Classes, ObjectRepr, Memory}
use jllvm.Vm.GarbageCollector.Marking.Pushing.{marked, Unmarks, is_object}
use jllvm.Vm.GarbageCollector.Marking.Reachability.{Reachable, root, edge}
use jllvm.Vm.GarbageCollector.Sweeping.{lookup, SweepState, sweep}
use jllvm.Vm.GarbageCollector.Sweeping.Copying.{
  Objects, cleared, Walk, bump_after, new_address, copies, copied_memory, addresses, Walk-le,
  sweep_lem, copies-Walk, bump_after-le, new_address-copied,
}
use jllvm.Vm.GarbageCollector.Sweeping.Ordering.{new_address-total, new_address-lt}
use jllvm.Vm.GarbageCollector.Sweeping.Copies.{
  with_marks, with_marks-addresses, with_marks-Walk, new_address-onto,
}
use jllvm.Vm.GarbageCollector.Sweeping.Replacing.{translate}
use jllvm.Vm.GarbageCollector.{GarbageCollector, zeroed, rounds}
use jllvm.Vm.GarbageCollector.Collecting.Heaps.{IsHeap}

-- A reachable address is one of an object.
pub Reachable-is_object :
    (classes : Classes) (memory : Memory) (from to : Address) (roots : List Address) (p : Address)
    → Reachable classes memory from to roots p
    → is_object memory from to p ≡ true
Reachable-is_object classes memory from to roots p (root r o) = o
Reachable-is_object classes memory from to roots p (edge r c o) = o

module _ (classes : Classes) (named : ℕ → ℕ → Bool) (gc : GarbageCollector) (objects : Objects)
    (h : IsHeap classes named gc objects) (m : Memory) (same : Unmarks m gc.from_memory) where
  abbrev pub with_mark : Objects
  with_mark = with_marks m objects

  -- What `sweep` leaves: copies of the marked objects at their new addresses.
  pub record IsSwept (t : SweepState) : Type 0 where
    pub bump : t.bump_ptr ≡ bump_after classes gc.to_space with_mark
    pub memory : t.to_memory ≡ copied_memory classes zeroed gc.to_space with_mark
    pub mapping : (p : Address) → lookup t.mapping p ≡ new_address classes gc.to_space with_mark p

  walk : Walk classes m gc.from_space gc.bump_ptr with_mark
  walk = with_marks-Walk classes m gc.from_memory gc.from_space gc.bump_ptr objects same h.walk

  pub sweep-IsSwept :
      (t : SweepState) × (sweep classes
          (rounds gc)
          gc.bump_ptr
          gc.from_space
          (record { from_memory = m; to_memory = zeroed; bump_ptr = gc.to_space; mapping = [] })
        ≡ ok t)
      × IsSwept t
  unfolding rounds lookup
  sweep-IsSwept =
      let le = Walk-le classes m gc.from_space gc.bump_ptr with_mark walk in
      let (t, run, b, w, l) =
        sweep_lem classes (rounds gc) gc.bump_ptr gc.from_space _ with_mark walk (omega arith) in
      (t, run, record { bump = b; memory = w; mapping = λ p. l p ∙ ground arith })

  module _ (t : SweepState) (s : IsSwept t) where
    -- A replaced reference was one to a marked object, whose copy it becomes.
    pub copied :
        (p q : Address)
        → lookup t.mapping p ≡ some q
        → (object : ObjectRepr) × (m p ≡ some object)
          × (object.seen ≡ true)
          × (gc.from_space ≤ p)
          × (p < gc.bump_ptr)
          × (gc.to_space ≤ q)
          × (q < t.bump_ptr)
          × (t.to_memory q ≡ some (cleared object))
    copied p q e =
        let (o, at, seen, lo, hi, above, below, copy) =
          new_address-copied classes m gc.from_space gc.bump_ptr zeroed gc.to_space with_mark p q
            walk (sym (s.mapping p) ∙ e) in
        (o, at, seen, lo, hi, above, rw s.bump below, rw s.memory copy)

    -- The copies take no more room than the objects did.
    pub room : (gc.to_space ≤ t.bump_ptr) × (t.bump_ptr + gc.from_space ≤ gc.to_space + gc.bump_ptr)
    room = rw s.bump (bump_after-le classes m gc.from_space gc.bump_ptr gc.to_space with_mark walk)

    pub positive : (p q : Address) → lookup t.mapping p ≡ some q → 0 < q
    positive p q e =
        let (o, at, seen, lo, hi, above, below, copy) = copied p q e in
        omega (arith, h.to_positive, above)

    pub null : lookup t.mapping 0 ≡ none
    null = elim (Option-cases (lookup t.mapping 0)) [
      | inl e ↦ e
      | inr (q, e) ↦
          let (o, at, seen, lo, hi, above, below, copy) = copied 0 q e in
          absurd (omega (arith, h.from_positive, lo))
    ]

    -- What has been replaced is not replaced again, since it is in the other space.
    pub new : (p q : Address) → lookup t.mapping p ≡ some q → lookup t.mapping q ≡ none
    new p q e = elim (Option-cases (lookup t.mapping q)) [
      | inl f ↦ f
      | inr (r, f) ↦
          let (o, at, seen, lo, hi, above, below, copy) = copied p q e in
          let (o', at', seen', lo', hi', above', below', copy') = copied q r f in
          let (_, le) = room in absurd (omega (arith, h.fits, h.apart))
    ]

    pub stable : (p : Address) → translate t.mapping (translate t.mapping p) ≡ translate t.mapping p
    stable p = elim (Option-cases (lookup t.mapping p)) [
      | inl e ↦ ground (arith, e)
      | inr (q, e) ↦ ground (arith, e, new p q e)
    ]

    pub found :
        (p : Address)
        → marked m p ≡ true
        → is_object gc.from_memory gc.from_space gc.bump_ptr p ≡ true
        → (q : Address) × (lookup t.mapping p ≡ some q)
    found p seen o = elim (Option-cases (m p)) [
      | inl e ↦ absurd (ground (arith, e))
      | inr (object, e) ↦
          let (addrs, _) = with_marks-addresses m objects in
          let (q, f) =
            new_address-total classes m gc.from_space gc.bump_ptr gc.to_space with_mark p object
              walk (rw addrs (h.inside p o)) e (ground (arith, e)) in
          (q, s.mapping p ∙ f)
    ]

    pub onto :
        (q : Address)
        → contains (addresses (copies classes gc.to_space with_mark)) q ≡ true
        → (p : Address) × (lookup t.mapping p ≡ some q)
    onto q c =
        let (p, e) =
          new_address-onto classes m gc.from_space gc.bump_ptr gc.to_space with_mark q walk c in
        (p, s.mapping p ∙ e)

    -- The copies keep the order of the objects.
    pub order :
        (p p' q q' : Address)
        → lookup t.mapping p ≡ some q
        → lookup t.mapping p' ≡ some q'
        → p < p'
        → q < q'
    order p p' q q' e e' =
        new_address-lt classes m gc.from_space gc.bump_ptr gc.to_space with_mark p p' q q' walk
          (sym (s.mapping p) ∙ e) (sym (s.mapping p') ∙ e')

    pub swept-Walk :
        Walk classes t.to_memory gc.to_space t.bump_ptr (copies classes gc.to_space with_mark)
    swept-Walk =
        rw (s.bump, s.memory)
          (copies-Walk classes m gc.from_space gc.bump_ptr zeroed gc.to_space with_mark walk)
