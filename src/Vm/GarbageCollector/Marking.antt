-- ===== src/Vm/GarbageCollector/Marking.antt =====
-- src/jllvm/vm/GarbageCollector.cpp: `mark`. The work list is a `std::vector` used as a stack: its
-- back is the head of the list.
pub mod Pushing
pub mod Reachability
pub mod Termination
use jllvm.Base.{
  ℕ, zero, suc, List, [], ◌∷◌, if◌then◌else◌, Option, none, some, Outcome, ok, fails, out_of_fuel,
  assertion,
}
use jllvm.Vm.GarbageCollector.Heap.{
  Address, Classes, Memory, mark_seen, should_be_added_to_work_list, read, introspect_object,
}

pub record WorkState : Type 0 where
  pub memory : Memory
  pub work_list : List Address

module _ (from to : Address) where
  -- The body of every loop over references: mark an object and put it on the list.
  unfoldable pub push : Address → WorkState → WorkState
  unfolding should_be_added_to_work_list mark_seen
  push p s =
      if should_be_added_to_work_list s.memory from to p
      then record s { memory = mark_seen s.memory p; work_list = p ∷ s.work_list }
      else s

  unfoldable pub push_all : List Address → WorkState → WorkState
  unfolding push
  push_all [] s = s
  push_all (p ∷ ps) s = push_all ps (push p s)

  -- `introspectObject` with the lambda of `mark`, over the slots of the object at `p`.
  unfoldable pub visit_slots : Address → List ℕ → WorkState → WorkState
  unfolding push read
  visit_slots p [] s = s
  visit_slots p (slot ∷ rest) s = visit_slots p rest (push (read s.memory p slot) s)

  -- Where no object starts, `introspectObject` follows what is not a class object.
  unfoldable pub mark : Classes → ℕ → WorkState → Outcome Memory
  unfolding visit_slots introspect_object
  mark classes zero s = fails out_of_fuel
  mark classes (suc fuel) s = elim s.work_list [
    | [] ↦ ok s.memory
    | p ∷ rest ↦ elim (s.memory p) [
      | none ↦ fails assertion
      | some object ↦
          mark classes fuel
            (visit_slots p (introspect_object classes object) (record s { work_list = rest }))
    ]
  ]
