-- ===== src/Materialization/JniBridge/Tests.antt =====
-- A bridge to a static native method.
use jllvm.Base.{
  ℕ, ◌≡◌, refl, false, List, [], ◌∷◌, map, Option, none, some, if◌then◌else◌, length, ◌==◌, Outcome,
  ok, fails, fatal,
}
use jllvm.Class.ClassFile.{ClassFile}
use jllvm.Class.ClassFile.Constants.{class_info, utf8_info}
use jllvm.Class.ClassFile.Members.{MemberInfo}
use jllvm.Materialization.Types.{void_type}
use jllvm.Materialization.JniBridge.{
  Bridge, environment, null_class, argument, is_void_type, make_bridge,
}
use jllvm.Materialization.JniBridge.Typed.{type_of, make_bridge-typed}

-- `static native void f(int i)` of the class A.
abbrev file : ClassFile
file = record {
  constant_pool =
      class_info 2
      ∷ utf8_info (b'A' ∷ [])
      ∷ utf8_info (b'f' ∷ [])
      ∷ utf8_info (b'(' ∷ b'I' ∷ b')' ∷ b'V' ∷ [])
      ∷ [];
  access_flags = 0;
  this_class = 1;
  super_class = 0;
  interfaces = [];
  fields = [];
  methods = [];
  attributes = [];
}

abbrev method : MemberInfo
method = record { access_flags = 264; name_index = 3; descriptor_index = 4; attributes = [] }

-- A library that has only the short name, Java_A_f.
abbrev library : List ℕ → Option ℕ
library symbol = if length symbol == 8 then some 4096 else none

abbrev bridge_of : Outcome Bridge → Bridge
bridge_of (ok b) = b
bridge_of (fails f) = record {
  symbol = [];
  type = record { return_type = void_type; parameters = [] };
  callee = 0;
  callee_type = record { return_type = void_type; parameters = [] };
  args = [];
  returns_void = false;
}

abbrev bridge : Bridge
bridge = bridge_of (make_bridge library file method)

bridge_passes : bridge.args ≡ environment ∷ null_class ∷ argument 0 ∷ []
unfolding make_bridge
bridge_passes = refl

without_library : make_bridge (λ symbol. none) file method ≡ fails fatal
unfolding make_bridge
without_library = refl

make_bridge-typed_example :
    (map (type_of bridge.type.parameters) bridge.args ≡ map some bridge.callee_type.parameters)
    × (bridge.type.return_type ≡ bridge.callee_type.return_type)
    × (bridge.returns_void ≡ is_void_type bridge.callee_type.return_type)
unfolding make_bridge
make_bridge-typed_example = make_bridge-typed library file method {bridge = bridge} refl
