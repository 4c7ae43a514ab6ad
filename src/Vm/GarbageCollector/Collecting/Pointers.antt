-- ===== src/Vm/GarbageCollector/Collecting/Pointers.antt =====
-- References after a collection: none dangles.
use jllvm.Base.{
  ℕ, ◌<◌, ◌≡◌, ap, sym, subst, ◌∙◌, ◌↔◌, inl, inr, Bool, true, false, List, [], ◌∷◌, ◌++◌, Option,
  if◌then◌else◌, none, some, arith, map, contains, Option-cases, Bool-cases, ◌==◌, ==_iff,
}
use jllvm.Object.ClassObject.{ClassRef}
use jllvm.Vm.GarbageCollector.Heap.{
  Address, Classes, ObjectRepr, Memory, read, slots, introspect_object,
}
use jllvm.Vm.GarbageCollector.Marking.Pushing.{marked, Unmarks, is_object, successors}
use jllvm.Vm.GarbageCollector.Marking.Reachability.{edge}
use jllvm.Vm.GarbageCollector.Sweeping.{Mapping, lookup, SweepState}
use jllvm.Vm.GarbageCollector.Sweeping.Copying.{Objects}
use jllvm.Vm.GarbageCollector.Sweeping.Replacing.{translate}
use jllvm.Vm.GarbageCollector.{GarbageCollector}
use jllvm.Vm.GarbageCollector.Collecting.Heaps.{IsHeap, IsForwarded, Live, in_spaces, ArePointers}
use jllvm.Vm.GarbageCollector.Collecting.Swept.{
  Reachable-is_object, IsSwept, copied, found, positive,
}
use jllvm.Vm.GarbageCollector.Collecting.Forwarded.{IsReplaced, result-is_object, result-onto}

pub contains-map :
    (f : Address → Address) (xs : List Address) (a : Address)
    → contains (map f xs) a ≡ true
    → (x : Address) × (contains xs x ≡ true) × (f x ≡ a)
contains-map f [] a h = cc
contains-map f (x ∷ xs) a h = elim (Bool-cases (f x == a)) [
  | inl here ↦ (x, ground arith, (==_iff (f x) a).0 here)
  | inr later ↦
      let (y, listed, e) = contains-map f xs a (ground arith) in (y, ground (arith, listed), e)
]

map-contains :
    (f : Address → Address) (xs : List Address) (x : Address)
    → contains xs x ≡ true
    → contains (map f xs) (f x) ≡ true
map-contains f [] x h = cc
map-contains f (y ∷ xs) x h = elim (Bool-cases (y == x)) [
  | inl here ↦ (let e = ap f ((==_iff y x).0 here) in ground (arith, e))
  | inr later ↦ (let rest = map-contains f xs x (ground arith) in ground (arith, rest))
]

pub no_successors :
    (classes : Classes) (memory : Memory) (p : Address)
    → memory p ≡ none
    → (a : Address) → contains (successors classes memory p) a ≡ false
unfolding slots
no_successors classes memory p e a =
    ap
      (λ (o : Option ObjectRepr).
        contains
          (map (read memory p)
            (elim o [ none ↦ [] | some object ↦ introspect_object classes object ]))
          a)
      e

pub successors-at :
    (classes : Classes) (memory : Memory) (q : Address) (object : ObjectRepr)
    → memory q ≡ some object
    → successors classes memory q ≡ map object.body (introspect_object classes object)
unfolding slots read
successors-at classes memory q object e =
    ap
      (λ (o : Option ObjectRepr).
        map (λ (slot : ℕ). elim o [ none ↦ 0 | some object ↦ object.body slot ])
          (elim o [ none ↦ [] | some object ↦ introspect_object classes object ]))
      e

-- The slots depend on the class and the length.
same_slots :
    (classes : Classes) (object copy : ObjectRepr)
    → copy.class_object ≡ object.class_object
    → copy.array_length ≡ object.array_length
    → introspect_object classes copy ≡ introspect_object classes object
unfolding introspect_object
same_slots classes object copy class size =
    ap (λ (c : ClassRef). introspect_object classes (record copy { class_object = c })) class
    ∙ ap (λ (n : ℕ). introspect_object classes (record object { array_length = n })) size

pub translated :
    (mapping : Mapping) (p q : Address)
    → lookup mapping p ≡ some q
    → 0 < q
    → translate mapping p ≡ q
translated mapping p q e pos = ground (arith, e)

module _ (classes : Classes) (named : ℕ → ℕ → Bool) (gc : GarbageCollector) (objects : Objects)
    (h : IsHeap classes named gc objects) (on_stack in_statics : List Address) (m : Memory)
    (same : Unmarks m gc.from_memory)
    (exact : (a : Address) → (marked m a ≡ true) ↔ Live classes gc (on_stack ++ in_statics) a)
    (t : SweepState) (s : IsSwept classes named gc objects h m same t) where
  pub forward-Live :
      (p : Address)
      → Live classes gc (on_stack ++ in_statics) p
      → (q : Address) × (lookup t.mapping p ≡ some q)
  forward-Live p l = found classes named gc objects h m same t s p ((exact p).1 l) (
      Reachable-is_object classes gc.from_memory gc.from_space gc.bump_ptr (on_stack ++ in_statics)
        p l)

  pub Live-forward :
      (p q : Address) → lookup t.mapping p ≡ some q → Live classes gc (on_stack ++ in_statics) p
  Live-forward p q e =
      let (o, at, seen, lo, hi, above, below, copy) =
        copied classes named gc objects h m same t s p q e in
      (exact p).0 (ground (arith, at, seen))

  module _ (memory : Memory) (objects' : Objects)
      (r : IsReplaced classes named gc objects h m same t s memory objects') where
    abbrev pub after : GarbageCollector
    after = record gc {
      from_space = gc.to_space;
      to_space = gc.from_space;
      bump_ptr = t.bump_ptr;
      from_memory = memory;
    }

    -- A reference that points to a live object, if it points into a space at all.
    translated-is_object :
        (b : Address)
        → (in_spaces gc b ≡ true → Live classes gc (on_stack ++ in_statics) b)
        → in_spaces after (translate t.mapping b) ≡ true
        → is_object memory gc.to_space t.bump_ptr (translate t.mapping b) ≡ true
    translated-is_object b live inside = elim (Option-cases (lookup t.mapping b)) [
      | inr (q, e) ↦
          rw (translated t.mapping b q e (positive classes named gc objects h m same t s b q e))
            (result-is_object classes named gc objects h m same t s memory objects' r b q e)
      | inl e ↦
          let stays : translate t.mapping b ≡ b = ground (arith, e) in
          let inside' : in_spaces after b ≡ true = rw stays at inside in
          let (q, e') = forward-Live b (live (ground arith)) in absurd (let no = sym e ∙ e' in cc)
    ]

    at_translated :
        (b a : Address)
        → translate t.mapping b ≡ a
        → (in_spaces gc b ≡ true → Live classes gc (on_stack ++ in_statics) b)
        → in_spaces after a ≡ true
        → is_object memory gc.to_space t.bump_ptr a ≡ true
    at_translated b a e live inside =
        subst (λ (x : Address). is_object memory gc.to_space t.bump_ptr x ≡ true) e
          (translated-is_object b live
            (subst (λ (x : Address). in_spaces after x ≡ true) (sym e) inside))

    pub translated-ArePointers :
        (ps : List Address)
        → ((b : Address)
            → contains ps b ≡ true
            → in_spaces gc b ≡ true
            → Live classes gc (on_stack ++ in_statics) b)
        → ArePointers after (map (translate t.mapping) ps)
    translated-ArePointers ps live a c inside =
        let (b, listed, e) = contains-map (translate t.mapping) ps a c in
        at_translated b a e (live b listed) inside

    -- The references of a copy are the translations of those of its object.
    copy-successors :
        (p q a : Address) (object copy : ObjectRepr)
        → gc.from_memory p ≡ some object
        → memory q ≡ some copy
        → IsForwarded classes (translate t.mapping) object copy
        → contains (successors classes memory q) a ≡ true
        → (b : Address) × (contains (successors classes gc.from_memory p) b ≡ true)
          × (translate t.mapping b ≡ a)
    copy-successors p q a object copy at rq f c =
        let slots_copy = successors-at classes memory q copy rq in
        let slots_object = successors-at classes gc.from_memory p object at in
        let same_list = same_slots classes object copy f.class_object f.array_length in
        let c' : contains (map copy.body (introspect_object classes object)) a ≡ true =
          ap (λ l. contains (map copy.body l) a) (sym same_list)
          ∙ ap (λ l. contains l a) (sym slots_copy)
          ∙ c in
        let (slot, listed, e) = contains-map copy.body (introspect_object classes object) a c' in
        let moved : copy.body slot ≡ translate t.mapping (object.body slot) =
          f.body slot
          ∙ ap
              (λ (b : Bool). if b then translate t.mapping (object.body slot) else object.body slot)
              listed in
        (
          object.body slot,
          ap (λ l. contains l (object.body slot)) slots_object
              ∙ map-contains object.body (introspect_object classes object) slot listed,
          sym moved ∙ e,
        )

    pub result-closed :
        (q : Address)
        → is_object memory gc.to_space t.bump_ptr q ≡ true
        → ArePointers after (successors classes memory q)
    result-closed q o a c inside =
        let (p, e) = result-onto classes named gc objects h m same t s memory objects' r q o in
        let (object, copy, at, rq, f) = r.forwarded p q e in
        let live = Live-forward p q e in
        let there : is_object gc.from_memory gc.from_space gc.bump_ptr p ≡ true =
          Reachable-is_object classes gc.from_memory gc.from_space gc.bump_ptr
            (on_stack ++ in_statics) p live in
        let (b, listed, eb) = copy-successors p q a object copy at rq f c in
        at_translated b a eb (λ i. edge live listed (h.closed p there b listed i)) inside
