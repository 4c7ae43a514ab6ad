-- ===== src/Vm/GarbageCollector/Marking/Pushing.antt =====
-- src/jllvm/vm/GarbageCollector.cpp: pushing references on the work list, and the marks.
use jllvm.Base.{
  ℕ, suc, ◌≡◌, true, refl, sym, ◌∙◌, Bool, false, not, ◌&&◌, ◌||◌, List, [], ◌∷◌, Option, none,
  some, arith, leb, ltb, ◌==◌, contains, map,
}
use jllvm.Vm.GarbageCollector.Heap.{
  Address, Classes, ObjectRepr, Memory, update, read, slots, introspect_object,
}
use jllvm.Vm.GarbageCollector.Marking.{WorkState, push, push_all, visit_slots, mark}

abbrev pub marked : Memory → Address → Bool
marked memory p = elim (memory p) [ none ↦ false | some object ↦ object.seen ]

-- An object without its mark.
abbrev pub unmark : Option ObjectRepr → Option ObjectRepr
unmark none = none
unmark (some object) = some (record object { seen = false })

-- `memory` is `original` up to marks.
abbrev pub Unmarks : Memory → Memory → Type 0
Unmarks memory original = (a : Address) → unmark (memory a) ≡ original a

-- An address in the from space.
abbrev pub in_space : Address → Address → Address → Bool
in_space from to p = leb from p && ltb p to

-- An address in the from space at which an object starts.
abbrev pub is_object : Memory → Address → Address → Address → Bool
is_object memory from to p = elim (memory p) [ none ↦ false | some object ↦ leb from p && ltb p to ]

-- No address in the from space is among these unless an object starts there.
abbrev pub AreObjects : Memory → Address → Address → List Address → Type 0
AreObjects memory from to ps =
    (a : Address)
    → contains ps a ≡ true
    → in_space from to a ≡ true
    → is_object memory from to a ≡ true

module _ (original : Memory) (from to : Address) where
  pub push-Unmarks :
      (p : Address) (s : WorkState)
      → Unmarks s.memory original
      → Unmarks (push from to p s).memory original
  unfolding push update
  push-Unmarks p s u a = ground (arith, u a, u p)

  push-marked :
      (p : Address) (s : WorkState)
      → Unmarks s.memory original
      → (a : Address)
      → marked (push from to p s).memory a
        ≡ (marked s.memory a || (p == a && is_object original from to a))
  unfolding push update
  push-marked p s u a = ground (arith, u a, u p)

  push-work_list :
      (p : Address) (s : WorkState)
      → Unmarks s.memory original
      → (a : Address)
      → contains (push from to p s).work_list a
        ≡ (contains s.work_list a || (p == a && in_space from to a && not (marked s.memory a)))
  unfolding push update
  push-work_list p s u a = ground (arith, u a, u p)

  pub push_all-Unmarks :
      (ps : List Address) (s : WorkState)
      → Unmarks s.memory original
      → Unmarks (push_all from to ps s).memory original
  unfolding push_all
  push_all-Unmarks [] s u = u
  push_all-Unmarks (p ∷ ps) s u = push_all-Unmarks ps (push from to p s) (push-Unmarks p s u)

  -- Exactly the objects among the pushed references become marked.
  pub push_all-marked :
      (ps : List Address) (s : WorkState)
      → Unmarks s.memory original
      → (a : Address)
      → marked (push_all from to ps s).memory a
        ≡ (marked s.memory a || (contains ps a && is_object original from to a))
  unfolding push_all
  push_all-marked [] s u a = ground arith
  push_all-marked (p ∷ ps) s u a =
      push_all-marked ps (push from to p s) (push-Unmarks p s u) a
      ∙ ground (arith, push-marked p s u a)

  -- Exactly those that were not marked before are put on the list.
  pub push_all-work_list :
      (ps : List Address) (s : WorkState)
      → Unmarks s.memory original
      → (a : Address)
      → contains (push_all from to ps s).work_list a ≡ (
          contains s.work_list a
          || (contains ps a && in_space from to a && not (marked s.memory a)))
  unfolding push_all
  push_all-work_list [] s u a = ground arith
  push_all-work_list (p ∷ ps) s u a =
      push_all-work_list ps (push from to p s) (push-Unmarks p s u) a
      ∙ ground (arith, push-marked p s u a, push-work_list p s u a)

-- Marks change neither what a slot holds nor which slots there are.
module _ (memory original : Memory) (u : Unmarks memory original) where
  pub read-Unmarks : (p : Address) (slot : ℕ) → read memory p slot ≡ read original p slot
  unfolding read
  read-Unmarks p slot = ground (arith, u p)

  pub slots-Unmarks :
      (classes : Classes) (p : Address) → slots classes memory p ≡ slots classes original p
  unfolding slots introspect_object
  slots-Unmarks classes p = ground (arith, u p)

-- The references that the object at `p` holds.
abbrev pub successors : Classes → Memory → Address → List Address
successors classes memory p = map (read memory p) (slots classes memory p)

module _ (original : Memory) (from to : Address) where
  pub visit_slots-push_all :
      (p : Address) (slots : List ℕ) (s : WorkState)
      → Unmarks s.memory original
      → visit_slots from to p slots s ≡ push_all from to (map (read original p) slots) s
  unfolding visit_slots push_all
  visit_slots-push_all p [] s u = refl
  visit_slots-push_all p (slot ∷ rest) s u =
      rw (read-Unmarks s.memory original u p slot)
        (visit_slots-push_all p rest _ (push-Unmarks original from to (read original p slot) s u))

  -- A round of the loop for an object.
  pub mark-push_all :
      (classes : Classes) (fuel : ℕ) (p : Address) (rest : List Address) (object : ObjectRepr)
      (s : WorkState)
      → Unmarks s.memory original
      → s.work_list ≡ p ∷ rest
      → s.memory p ≡ some object
      → mark from to classes (suc fuel) s
        ≡ mark from to classes fuel
            (push_all from to (successors classes original p) (record s { work_list = rest }))
  unfolding mark slots
  mark-push_all classes fuel p rest object s u top at =
      let same : introspect_object classes object ≡ slots classes original p =
        sym (rw (at, slots) refl) ∙ slots-Unmarks s.memory original u classes p in
      rw (
        top,
        at,
        mark,
        same,
        visit_slots-push_all p (slots classes original p) (record s { work_list = rest }) u,
      )
