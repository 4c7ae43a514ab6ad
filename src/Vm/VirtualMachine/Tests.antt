-- ===== src/Vm/VirtualMachine/Tests.antt =====
-- The v-table of a class that overrides one of the two methods of its super class.
use jllvm.Base.{
  ℕ, suc, ◌≡◌, ◌≢◌, refl, true, false, List, [], ◌∷◌, Option, none, some, length, get_elem?,
  Outcome, ok, fails,
}
use jllvm.Object.ClassObject.{Method, package_default, ClassObject}
use jllvm.Vm.VirtualMachine.{fill_chain}
use jllvm.Vm.VirtualMachine.Filled.{implementation, slot_value, fill_chain-implementation}

abbrev method : ℕ → ℕ → Method
method letter slot = record {
  name = letter ∷ [];
  descriptor = b'(' ∷ b')' ∷ b'V' ∷ [];
  v_table_slot = slot;
  has_v_table_slot = true;
  is_static = false;
  is_final = false;
  is_native = false;
  visibility = package_default;
  is_abstract = false;
}

abbrev class : List ℕ → List Method → ClassObject
class name methods = record {
  field_area_size = 0;
  methods = methods;
  fields = [];
  interfaces = [];
  class_name = name;
  super_class = none;
  component_type = none;
  is_primitive = false;
  v_table = 0 ∷ 0 ∷ [];
}

-- The class, with a name of one letter, and its super class, with one of two.
abbrev chain : List ClassObject
chain =
    class (b'B' ∷ []) (method b'f' 0 ∷ [])
    ∷ class (b'A' ∷ b'A' ∷ []) (method b'f' 0 ∷ method b'g' 1 ∷ [])
    ∷ []

-- The address is made of the length of the name of the class.
abbrev symbols : List ℕ → List ℕ → List ℕ → Option ℕ
symbols class_name name descriptor = some (suc (length class_name))

symbols-there :
    (class_name name descriptor : List ℕ) (address : ℕ)
    → symbols class_name name descriptor ≡ some address
    → address ≢ 0
symbols-there class_name name descriptor address e null = absurd cc

abbrev v_table_of : Outcome (List ℕ) → List ℕ
v_table_of (ok v) = v
v_table_of (fails f) = []

abbrev filled : List ℕ
filled = v_table_of (fill_chain symbols chain (0 ∷ 0 ∷ []))

filled_table : filled ≡ 2 ∷ 3 ∷ []
unfolding fill_chain
filled_table = refl

fill_chain-implementation_example :
    (get_elem? filled 1 ≡ some (slot_value symbols 0 (implementation 1 chain)))
    × (slot_value symbols 0 (implementation 1 chain) ≡ 0 → implementation 1 chain ≡ none)
unfolding fill_chain
fill_chain-implementation_example =
    fill_chain-implementation symbols symbols-there chain (0 ∷ 0 ∷ []) {v_table' = filled} refl 1 0
      refl
