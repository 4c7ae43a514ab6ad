-- ===== src/Vm/GarbageCollector/Collecting/Forwarded.antt =====
-- src/jllvm/vm/GarbageCollector.cpp: the last loop of `garbageCollect`, over the copies.
use jllvm.Base.{
  ℕ, ◌+◌, ◌-◌, ◌≡◌, refl, ap, sym, ◌∙◌, inl, inr, Bool, true, false, [], ◌∷◌, none, some, arith,
  contains, ok, Bool-cases,
}
use jllvm.Vm.GarbageCollector.Heap.{Address, Classes, ObjectRepr, Memory, introspect_object}
use jllvm.Vm.GarbageCollector.Marking.Pushing.{unmark, Unmarks, is_object}
use jllvm.Vm.GarbageCollector.Sweeping.{Mapping, lookup, SweepState, replace_references}
use jllvm.Vm.GarbageCollector.Sweeping.Copying.{Objects, cleared, Walk, copies, addresses, Walk-le}
use jllvm.Vm.GarbageCollector.Sweeping.Copies.{copied_memory-outside}
use jllvm.Vm.GarbageCollector.Sweeping.Replacing.{
  translate, replaced, replaced_all, replace_slots_body, replace_slots_header,
  replace_references-replaced_all, replaced_all-addresses,
}
use jllvm.Vm.GarbageCollector.{GarbageCollector, zeroed, is_nil}
use jllvm.Vm.GarbageCollector.Collecting.Heaps.{IsHeap, IsForwarded}
use jllvm.Vm.GarbageCollector.Collecting.Swept.{
  with_mark, IsSwept, copied, stable, onto, swept-Walk,
}

without_mark : (object : ObjectRepr) → object.seen ≡ false → cleared object ≡ object
without_mark object h = ap (λ b. record object { seen = b }) (sym h)

nothing_found :
    (mapping : Mapping) → is_nil mapping ≡ true → (p : Address) → lookup mapping p ≡ none
unfolding is_nil lookup
nothing_found [] h p = refl
nothing_found (e ∷ es) h p = cc

module _ (classes : Classes) (named : ℕ → ℕ → Bool) (gc : GarbageCollector) (objects : Objects)
    (h : IsHeap classes named gc objects) (m : Memory) (same : Unmarks m gc.from_memory)
    (t : SweepState) (s : IsSwept classes named gc objects h m same t) where
  swept : Objects
  swept = copies classes gc.to_space (with_mark classes named gc objects h m same)

  -- The new space when the references have been replaced: the copies, forwarded, and nothing else.
  pub record IsReplaced (result : Memory) (objects' : Objects) : Type 0 where
    pub walk : Walk classes result gc.to_space t.bump_ptr objects'
    pub at :
        addresses objects'
        ≡ addresses (copies classes gc.to_space (with_mark classes named gc objects h m same))
    pub outside : (q : Address) → contains (addresses objects') q ≡ false → result q ≡ none
    pub forwarded :
        (p q : Address)
        → lookup t.mapping p ≡ some q
        → (object copy : ObjectRepr) × (gc.from_memory p ≡ some object)
          × (result q ≡ some copy)
          × IsForwarded classes (translate t.mapping) object copy

  not_copied : (q : Address) → contains (addresses swept) q ≡ false → t.to_memory q ≡ none
  unfolding swept
  not_copied q c = rw s.memory (copied_memory-outside classes zeroed gc.to_space _ q c)

  pub nil-IsReplaced :
      is_nil t.mapping ≡ true
      → IsReplaced t.to_memory
          (copies classes gc.to_space (with_mark classes named gc objects h m same))
  unfolding swept
  nil-IsReplaced e = record {
    walk = swept-Walk classes named gc objects h m same t s;
    at = refl;
    outside = not_copied;
    forwarded = λ p q f. absurd (let g = nothing_found t.mapping e p in cc);
  }

  found_in : (p q : Address) → lookup t.mapping p ≡ some q → contains (addresses swept) q ≡ true
  found_in p q e =
      let (o, at, seen, lo, hi, above, below, copy) =
        copied classes named gc objects h m same t s p q e in
      elim (Bool-cases (contains (addresses swept) q)) [
        | inl c ↦ c
        | inr c ↦ absurd (let n = not_copied q c in cc)
      ]

  pub replace_references-IsReplaced :
      (result : Memory) × (objects' : Objects) × (replace_references classes
          (t.bump_ptr - gc.to_space + 1)
          t.mapping
          t.bump_ptr
          gc.to_space
          t.to_memory
        ≡ ok result)
      × IsReplaced result objects'
  unfolding swept introspect_object
  replace_references-IsReplaced =
      let st = stable classes named gc objects h m same t s in
      let w = swept-Walk classes named gc objects h m same t s in
      let le = Walk-le classes t.to_memory gc.to_space t.bump_ptr swept w in
      let (result, run, walk, outside, inside) =
        replace_references-replaced_all classes t.mapping st (t.bump_ptr - gc.to_space + 1)
          t.bump_ptr gc.to_space t.to_memory swept w (omega arith) in
      let addrs = replaced_all-addresses classes t.mapping st swept in
      (
        result,
        replaced_all classes t.mapping st swept,
        run,
        record {
          walk = walk;
          at = addrs;
          outside = λ q c. let c' = rw addrs at c in outside q c' ∙ not_copied q c';
          forwarded = λ p q e.
              let (o, at, seen, lo, hi, above, below, copy) =
                copied classes named gc objects h m same t s p q e in
              let (class, size, kept) =
                replace_slots_header classes t.mapping st (introspect_object classes (cleared o))
                  (cleared o) in
              (
                cleared o,
                replaced classes t.mapping st (cleared o),
                sym (same p) ∙ ap unmark at,
                inside q (cleared o) (found_in p q e) copy,
                record {
                  class_object = class;
                  array_length = size;
                  seen = kept;
                  body =
                      replace_slots_body classes t.mapping st
                        (introspect_object classes (cleared o)) (cleared o);
                },
              );
        },
      )

  module _ (result : Memory) (objects' : Objects) (r : IsReplaced result objects') where
    pub result-inside :
        (q : Address)
        → is_object result gc.to_space t.bump_ptr q ≡ true
        → contains (addresses objects') q ≡ true
    result-inside q o = elim (Bool-cases (contains (addresses objects') q)) [
      | inl c ↦ c
      | inr c ↦ absurd (ground (arith, r.outside q c))
    ]

    pub result-is_object :
        (p q : Address)
        → lookup t.mapping p ≡ some q
        → is_object result gc.to_space t.bump_ptr q ≡ true
    result-is_object p q e =
        let (o, at, seen, lo, hi, above, below, copy) =
          copied classes named gc objects h m same t s p q e in
        let (o', c', at', rq, f) = r.forwarded p q e in ground (arith, rq)

    pub result-onto :
        (q : Address)
        → is_object result gc.to_space t.bump_ptr q ≡ true
        → (p : Address) × (lookup t.mapping p ≡ some q)
    result-onto q o = onto classes named gc objects h m same t s q (rw r.at at (result-inside q o))

    pub result-unmarked : Unmarks result result
    result-unmarked a = elim (Bool-cases (contains (addresses objects') a)) [
      | inr c ↦ rw (r.outside a c) refl
      | inl c ↦
          let (p, e) = onto classes named gc objects h m same t s a (rw r.at at c) in
          let (o, copy, at, rq, f) = r.forwarded p a e in rw rq (ap some (without_mark copy f.seen))
    ]
