-- ===== src/Vm/GarbageCollector/Collecting/Allocated.antt =====
-- `allocate`, with the collection that it may start.
use jllvm.Base.{
  ℕ, ◌+◌, ◌-◌, ◌^◌, ◌≤◌, ◌<◌, ◌≡◌, refl, ap, sym, ◌∙◌, ◌↔◌, ◌⊎◌, inl, inr, Bool, true, false, ◌||◌,
  List, [], ◌∷◌, ◌++◌, some, arith, ◌==◌, if◌then◌else◌, contains, ok, fails, fatal, Bool-cases,
  Option-cases,
}
use jllvm.Vm.GarbageCollector.Heap.{
  Address, Classes, ObjectRepr, Memory, update, get_size, introspect_object,
}
use jllvm.Vm.GarbageCollector.Sweeping.Copying.{Objects, Walk, Walk-le, addresses}
use jllvm.Vm.GarbageCollector.Statics.{static_roots}
use jllvm.Vm.GarbageCollector.{GarbageCollector, is_full, bump, garbage_collect, allocate}
use jllvm.Vm.GarbageCollector.Collecting.Heaps.{IsHeap, IsRoots, in_spaces}
use jllvm.Vm.GarbageCollector.Collecting.Marked.{some_roots}
use jllvm.Vm.GarbageCollector.Collecting.Pointers.{contains-map, successors-at, no_successors}
use jllvm.Vm.GarbageCollector.Marking.Pushing.{is_object, successors}
use jllvm.Vm.GarbageCollector.Collecting.Collected.{IsCollected, garbage_collect-IsCollected}

-- The caller of `allocate` makes an object of the storage by writing its header.
abbrev pub write_object : Address → ObjectRepr → GarbageCollector → GarbageCollector
write_object p object gc = record gc { from_memory = update gc.from_memory p (some object) }

-- `source` is the collector, when it has room, or what a collection makes of it.
abbrev pub IsSource : Classes → ℕ → GarbageCollector → GarbageCollector → Type 0
IsSource classes size gc source =
    ((source ≡ gc) × (is_full size gc ≡ false))
    ⊎ ((on_stack in_statics : List Address) × (forward : Address → Address) × IsRoots gc on_stack
          in_statics
        × (garbage_collect classes gc ≡ ok source)
        × IsCollected classes gc source on_stack in_statics forward)

-- All references of an object are null.
abbrev pub HasNulls : Classes → ObjectRepr → Type 0
HasNulls classes object =
    (slot : ℕ) → contains (introspect_object classes object) slot ≡ true → object.body slot ≡ 0

module _ (classes : Classes) where
  -- A walk reads its memory up to its end only.
  Walk-agree :
      (memory memory' : Memory) (iter end : Address) (objects : Objects)
      → ((p : Address) → p < end → memory' p ≡ memory p)
      → Walk classes memory iter end objects
      → Walk classes memory' iter end objects
  Walk-agree memory memory' iter end [] same w = w
  Walk-agree memory memory' iter end ((a, object) ∷ rest) same (here, at, pos, w) = (
    here,
    same iter (omega (arith, Walk-le classes memory (iter + get_size classes object) end rest w))
        ∙ at,
    pos,
    Walk-agree memory memory' (iter + get_size classes object) end rest same w,
  )

  Walk-append :
      (memory : Memory) (iter end : Address) (objects : Objects) (object : ObjectRepr)
      → Walk classes memory iter end objects
      → memory end ≡ some object
      → 0 < get_size classes object
      → Walk classes memory iter (end + get_size classes object) (objects ++ (end, object) ∷ [])
  Walk-append memory iter end [] object w at pos =
      (sym w, rw w at, pos, ap (λ n. n + get_size classes object) w)
  Walk-append memory iter end ((a, o) ∷ rest) object (here, at, pos, w) new size =
      (here, at, pos, Walk-append memory (iter + get_size classes o) end rest object w new size)

  addresses-append :
      (objects : Objects) (p q : Address) (object : ObjectRepr)
      → contains (addresses (objects ++ (p, object) ∷ [])) q
        ≡ (contains (addresses objects) q || p == q)
  addresses-append [] p q object = ground arith
  addresses-append ((a, o) ∷ rest) p q object = ground (arith, addresses-append rest p q object)

  null-successors :
      (memory : Memory) (p : Address) (object : ObjectRepr)
      → HasNulls classes object
      → memory p ≡ some object
      → (a : Address) → contains (successors classes memory p) a ≡ true
      → a ≡ 0
  null-successors memory p object nulls at a c =
      let (slot, listed, e) =
        contains-map object.body (introspect_object classes object) a
          (ap (λ l. contains l a) (sym (successors-at classes memory p object at)) ∙ c) in
      sym e ∙ nulls slot listed

  successors-same :
      (memory memory' : Memory) (p : Address)
      → memory p ≡ memory' p
      → (a : Address) → contains (successors classes memory p) a ≡ true
      → contains (successors classes memory' p) a ≡ true
  successors-same memory memory' p e a c = elim (Option-cases (memory' p)) [
    | inl absent ↦ absurd (let none_there = no_successors classes memory p (e ∙ absent) a in cc)
    | inr (object, at) ↦
        ap (λ l. contains l a)
          (successors-at classes memory' p object at
            ∙ sym (successors-at classes memory p object (e ∙ at)))
        ∙ c
  ]

  module _ (named : ℕ → ℕ → Bool) where
    -- The test of `allocate`, where the sum does not wrap around.
    pub is_full_iff :
        (gc : GarbageCollector) (size : ℕ)
        → gc.bump_ptr ≤ gc.from_space + gc.heap_size
        → gc.heap_size + size < 2 ^ 64
        → (is_full size gc ≡ true) ↔ (gc.heap_size < gc.bump_ptr - gc.from_space + size)
    unfolding is_full
    is_full_iff gc size fits small = ground arith

    -- An object written to the storage that `bump` takes stands behind the objects before it.
    pub bump-IsHeap :
        (gc : GarbageCollector) (objects : Objects) (object : ObjectRepr)
        → IsHeap classes named gc objects
        → object.seen ≡ false
        → HasNulls classes object
        → 0 < get_size classes object
        → gc.bump_ptr - gc.from_space + get_size classes object ≤ gc.heap_size
        → IsHeap classes named
            (write_object gc.bump_ptr object (bump (get_size classes object) gc))
            (objects ++ (gc.bump_ptr, object) ∷ [])
    unfolding bump update
    bump-IsHeap gc objects object h fresh nulls pos room =
        let size = get_size classes object in
        let after = write_object gc.bump_ptr object (bump size gc) in
        let below : (p : Address) → p < gc.bump_ptr → after.from_memory p ≡ gc.from_memory p =
          λ p lt. ground arith in
        let le = Walk-le classes gc.from_memory gc.from_space gc.bump_ptr objects h.walk in
        let kept : (p : Address)
            → is_object gc.from_memory gc.from_space gc.bump_ptr p ≡ true
            → is_object after.from_memory gc.from_space (gc.bump_ptr + size) p ≡ true =
          λ p o. ground (arith, below p) in
        record {
          rooted = λ on_stack in_statics r a c i. kept a (h.rooted on_stack in_statics r a c i);
          closed = λ p o a c i. elim (Bool-cases (p == gc.bump_ptr)) [
            | inl new ↦
                let here : after.from_memory p ≡ some object = ground (arith, new) in
                let null : a ≡ 0 = null-successors after.from_memory p object nulls here a c in
                absurd (
                  let i' : in_spaces gc 0 ≡ true = rw null at i in
                  ground (arith, h.from_positive, h.to_positive))
            | inr old ↦
                let same : after.from_memory p ≡ gc.from_memory p = ground (arith, o, old) in
                let o' : is_object gc.from_memory gc.from_space gc.bump_ptr p ≡ true =
                  ground (arith, o, old) in
                kept a
                  (h.closed p o' a (successors-same after.from_memory gc.from_memory p same a c) i)
          ];
          walk =
              Walk-append after.from_memory gc.from_space gc.bump_ptr objects object
                (Walk-agree gc.from_memory after.from_memory gc.from_space gc.bump_ptr objects below
                  h.walk)
                (ground arith) pos;
          inside =
              λ p o. addresses-append objects gc.bump_ptr p object ∙ ground (arith, h.inside p);
          unmarked = λ a. ground (arith, h.unmarked a, fresh);
          fits = omega (arith, h.fits);
          apart = h.apart;
          from_positive = h.from_positive;
          to_positive = h.to_positive;
          statics = h.statics;
          frames = h.frames;
        }

    allocate-IsSource :
        (gc : GarbageCollector) (objects : Objects) (every : Bool) (size : ℕ)
        → IsHeap classes named gc objects
        → (source : GarbageCollector) × (objects' : Objects) × IsSource classes size gc source
          × IsHeap classes named source objects'
          × (allocate classes every size gc ≡ (
              if is_full size source then fails fatal else ok (source.bump_ptr, bump size source)))
    unfolding allocate
    allocate-IsSource gc objects every size h = elim (Bool-cases (every || is_full size gc)) [
      | inr direct ↦ (gc, objects, inl (refl, ground (arith, direct)), h, rw direct refl)
      | inl needed ↦
          let (on_stack, s) = some_roots classes named gc objects h in
          let in_statics = static_roots gc.statics.slabs gc.statics.bump in
          let (after, objects', forward, run, h', c) =
            garbage_collect-IsCollected classes named gc objects h on_stack in_statics (s, refl) in
          (
            after,
            objects',
            inr (on_stack, in_statics, forward, (s, refl), run, c),
            h',
            rw (needed, run) refl,
          )
    ]

    source-heap_size :
        (gc source : GarbageCollector) (size : ℕ)
        → IsSource classes size gc source
        → source.heap_size ≡ gc.heap_size
    source-heap_size gc source size (inl (e, _)) = ap (λ (g : GarbageCollector). g.heap_size) e
    source-heap_size gc source size (inr (on_stack, in_statics, forward, r, run, c)) = c.spaces.2

    -- Only a collection leaves a full source.
    collected :
        (gc source : GarbageCollector) (size : ℕ)
        → IsSource classes size gc source
        → is_full size source ≡ true
        → garbage_collect classes gc ≡ ok source
    collected gc source size (inl (e, room)) full = absurd (let f = rw e at full in cc)
    collected gc source size (inr (on_stack, in_statics, forward, r, run, c)) full = run

    -- On a heap whose invariant IsHeap holds, for an object without its mark, whose references
    -- are all null, of a positive size that together with the heap size stays below 2 ^ 64:
    -- allocate either takes the storage at the bump pointer, of the collector as it is if that
    -- has room or else of what a collection makes of it, and with the object written there the
    -- invariant holds again; or it stops the process, and then even after a collection there is
    -- no room.
    pub allocate-IsHeap :
        (gc : GarbageCollector) (objects : Objects) (every : Bool) (object : ObjectRepr)
        → IsHeap classes named gc objects
        → object.seen ≡ false
        → HasNulls classes object
        → 0 < get_size classes object
        → gc.heap_size + get_size classes object < 2 ^ 64
        → (source : GarbageCollector) × (objects' : Objects) × IsSource classes
            (get_size classes object)
            gc
            source
          × (((source.bump_ptr - source.from_space + get_size classes object ≤ source.heap_size)
                × (allocate classes every (get_size classes object) gc
                    ≡ ok (source.bump_ptr, bump (get_size classes object) source))
                × IsHeap classes named
                    (write_object source.bump_ptr object (bump (get_size classes object) source))
                    (objects' ++ (source.bump_ptr, object) ∷ []))
              ⊎ ((garbage_collect classes gc ≡ ok source)
                  × (source.heap_size
                      < source.bump_ptr - source.from_space + get_size classes object)
                  × (allocate classes every (get_size classes object) gc ≡ fails fatal)))
    allocate-IsHeap gc objects every object h fresh nulls pos small =
        let size = get_size classes object in
        let (source, objects', from, h', run) = allocate-IsSource gc objects every size h in
        let e = source-heap_size gc source size from in
        let full = is_full_iff source size h'.fits (omega arith) in
        (
          source,
          objects',
          from,
          elim (Bool-cases (is_full size source)) [
            | inr has_room ↦
                let room : source.bump_ptr - source.from_space + size ≤ source.heap_size =
                  ground (arith, full) in
                inl (
                  room,
                  simp has_room at run,
                  bump-IsHeap source objects' object h' fresh nulls pos room,
                )
            | inl no_room ↦
                inr (collected gc source size from no_room, full.0 no_room, simp no_room at run)
          ],
        )
