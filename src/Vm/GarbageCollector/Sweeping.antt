-- ===== src/Vm/GarbageCollector/Sweeping.antt =====
-- src/jllvm/vm/GarbageCollector.cpp: the loops of `garbageCollect` behind `mark`, which copy what
-- is marked into the other space, and then replace the references in the copies. The two spaces
-- are separate arrays, so each has a memory of its own; addresses are those of the process.
pub mod Copying
pub mod Copies
pub mod Ordering
pub mod Replacing
use jllvm.Base.{
  ℕ, zero, suc, ◌+◌, ◌-◌, ◌*◌, ◌<◌, ◌≡◌, Bool, true, false, not, ◌&&◌, List, [], ◌∷◌, ◌++◌, Option,
  none, some, if◌then◌else◌, leb, ltb, ◌==◌, Outcome, ok, fails, assertion, out_of_fuel,
}
use jllvm.Vm.GarbageCollector.Heap.{
  Address, Classes, ObjectRepr, Memory, update, get_size, introspect_object,
}

-- `llvm::DenseMap<ObjectRepr*, ObjectRepr*>`
abbrev pub Mapping : Type 0
Mapping = List (Address × Address)

unfoldable pub lookup : Mapping → Address → Option Address
lookup [] p = none
lookup ((old, new) ∷ rest) p = if old == p then some new else lookup rest p

-- `DenseMap::lookup` gives null for an absent key, so the code takes null for no replacement.
abbrev pub replacement : Mapping → Address → Option Address
replacement mapping p = elim (lookup mapping p) [
  | none ↦ none
  | some q ↦ if q == 0 then none else some q
]

pub record SweepState : Type 0 where
  pub from_memory : Memory
  pub to_memory : Memory
  pub bump_ptr : Address
  pub mapping : Mapping

-- What the loop does for an object with its mark.
unfoldable pub relocate : Address → ObjectRepr → ℕ → SweepState → SweepState
unfolding update
relocate iter object object_size s =
    let cleared = record object { seen = false } in
    record {
      from_memory = update s.from_memory iter (some cleared);
      to_memory = update s.to_memory s.bump_ptr (some cleared);
      bump_ptr = s.bump_ptr + object_size;
      mapping = (iter, s.bump_ptr) ∷ s.mapping;
    }

module _ (classes : Classes) where
  -- `for (iter = m_fromSpace; iter != oldBumpPtr; iter = nextObject(iter))`. Where no object
  -- starts, the source reads what is not a header, and the model fails.
  unfoldable pub sweep : ℕ → Address → Address → SweepState → Outcome SweepState
  unfolding relocate
  sweep zero end iter s = fails out_of_fuel
  sweep (suc fuel) end iter s =
      let body : Outcome SweepState = elim (s.from_memory iter) [
        | none ↦ fails assertion
        | some object ↦
            sweep fuel end (iter + get_size classes object)
              (if not object.seen then s else relocate iter object (get_size classes object) s)
      ] in
      if iter == end then ok s else body

  -- `introspectObject` with the lambda that replaces a reference.
  pub replace_slots : Mapping → List ℕ → ObjectRepr → ObjectRepr
  unfolding lookup update
  replace_slots mapping [] object = object
  replace_slots mapping (slot ∷ rest) object =
      replace_slots mapping rest (elim (replacement mapping (object.body slot)) [
        | none ↦ object
        | some q ↦ record object { body = update object.body slot q }
      ])

  unfoldable pub replace_references : ℕ → Mapping → Address → Address → Memory → Outcome Memory
  unfolding replace_slots
  replace_references zero mapping end iter memory = fails out_of_fuel
  replace_references (suc fuel) mapping end iter memory =
      let body : Outcome Memory = elim (memory iter) [
        | none ↦ fails assertion
        | some object ↦ replace_references fuel mapping end (iter + get_size classes object) (
            update memory iter
              (some (replace_slots mapping (introspect_object classes object) object)))
      ] in
      if iter == end then ok memory else body
