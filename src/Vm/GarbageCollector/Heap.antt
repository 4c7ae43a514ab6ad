-- ===== src/Vm/GarbageCollector/Heap.antt =====
-- src/jllvm/vm/GarbageCollector.cpp: `ObjectRepr`, `ArrayRepr`, `introspectObject` and
-- `shouldBeAddedToWorkList`. Memory maps the address at which an object starts to that object: its
-- header (the class and the mark bit of the `PointerIntPair`), the length that an array has, and
-- the pointer-sized values in its body by their offset from its start. Reference slots do not
-- overlap, so a write at one offset leaves the values at the others.
use jllvm.Base.{
  ℕ, zero, suc, ◌+◌, ◌*◌, Bool, true, false, not, ◌&&◌, List, [], ◌∷◌, ◌++◌, Option, none, some,
  if◌then◌else◌, leb, ltb, ◌==◌, ok, fails,
}
use jllvm.Class.Descriptors.{is_reference_descriptor}
use jllvm.Object.ClassObject.{
  ClassRef, ClassObject, Field, get_instance_size, get_offset, pointer_size,
}

abbrev pub Address : Type 0
Address = ℕ

-- `ClassObject*` dereferenced.
abbrev pub Classes : Type 0
Classes = ClassRef → ClassObject

pub record ObjectRepr : Type 0 where
  pub class_object : ClassRef
  pub seen : Bool
  pub array_length : ℕ
  pub body : ℕ → ℕ

abbrev pub Memory : Type 0
Memory = Address → Option ObjectRepr

unfoldable pub update {ℓ} : {A : Type ℓ} → (ℕ → A) → ℕ → A → ℕ → A
update f k v a = if a == k then v else f a

module _ (classes : Classes) where
  -- `ObjectRepr::getSize`
  unfoldable pub get_size : ObjectRepr → ℕ
  get_size object =
      let instance_size = get_instance_size (classes object.class_object) in
      elim (classes object.class_object).component_type [
        | none ↦ instance_size
        | some component ↦
            if (classes component).is_primitive
            then instance_size + get_instance_size (classes component) * object.array_length
            else instance_size + pointer_size * object.array_length
      ]

  -- The fields that `introspectObject` calls `f` on: neither static nor of a base type. (A field
  -- with an empty descriptor, on which `front` asserts, is none.)
  field_offsets : List Field → List ℕ
  field_offsets [] = []
  field_offsets (f ∷ fs) =
      let rest = field_offsets fs in
      if f.is_static then rest else elim (is_reference_descriptor f.descriptor) [
        | ok reference ↦
            if reference then elim (get_offset f) [ ok n ↦ n ∷ rest | fails e ↦ rest ] else rest
        | fails e ↦ rest
      ]

  -- The elements behind `offsetof(ArrayMock, elements)`.
  element_offsets : ℕ → ℕ → List ℕ
  element_offsets zero at = []
  element_offsets (suc n) at = at ∷ element_offsets n (at + pointer_size)

  -- The slots that `introspectObject` visits, in its order.
  unfoldable pub introspect_object : ObjectRepr → List ℕ
  unfolding field_offsets element_offsets
  introspect_object object =
      field_offsets (classes object.class_object).fields
      ++ (elim (classes object.class_object).component_type [
        | none ↦ []
        | some component ↦
            if (classes component).is_primitive then [] else element_offsets object.array_length 16
      ])

-- `hasBeenSeen` and `markSeen`. At an address in the space where no object starts, the source takes
-- what is there for a header. Such a reference counts as not seen, so it is put on the work list, and
-- `mark` fails as soon as it takes it from there: a run that succeeds has met none.
unfoldable pub has_been_seen : Memory → Address → Bool
has_been_seen memory p = elim (memory p) [ none ↦ false | some object ↦ object.seen ]

unfoldable pub mark_seen : Memory → Address → Memory
unfolding update
mark_seen memory p = elim (memory p) [
  | none ↦ memory
  | some object ↦ update memory p (some (record object { seen = true }))
]

unfoldable pub should_be_added_to_work_list : Memory → Address → Address → Address → Bool
unfolding has_been_seen
should_be_added_to_work_list memory from to p =
    if not (leb from p && ltb p to) then false else not (has_been_seen memory p)

-- `*field` for a slot of the object at `p`.
unfoldable pub read : Memory → Address → ℕ → ℕ
read memory p slot = elim (memory p) [ none ↦ 0 | some object ↦ object.body slot ]

-- The slots of the object at `p`.
unfoldable pub slots : Classes → Memory → Address → List ℕ
slots classes memory p = elim (memory p) [
  | none ↦ []
  | some object ↦ introspect_object classes object
]
