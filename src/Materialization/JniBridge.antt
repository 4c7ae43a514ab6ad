-- ===== src/Materialization/JniBridge.antt =====
-- src/jllvm/materialization/JNIImplementationLayer.cpp: the bridge that calls the implementation of
-- a native method. `lookup` is the address of a symbol in the libraries of native methods.
pub mod Typed
mod Tests
use jllvm.Base.{
  ℕ, zero, suc, Bool, true, false, List, [], ◌∷◌, ◌++◌, map, Option, none, some, if◌then◌else◌,
  length, Outcome, ok, fails, fatal, ◌>>=◌,
}
use jllvm.Class.Descriptors.{MethodType, parse_method_type}
use jllvm.Class.ClassFile.{ClassFile}
use jllvm.Class.ClassFile.Members.{MemberInfo, is_static, get_descriptor}
use jllvm.Materialization.Types.{
  IrType, void_type, reference, pointer, FunctionType, descriptor_to_type, method_to_type,
}
use jllvm.Materialization.Mangling.{mangle_method_info}
use jllvm.Materialization.JniNames.{jni_name, overloaded_name}

-- What the bridge passes: the pointer to the table of functions, null where the class object should
-- be, and its own arguments.
pub data BridgeValue : Type 0 where
  environment null_class : BridgeValue
  argument : ℕ → BridgeValue

pub record Bridge : Type 0 where
  pub symbol : List ℕ
  pub type : FunctionType
  pub callee : ℕ
  pub callee_type : FunctionType
  pub args : List BridgeValue
  pub returns_void : Bool

-- The loop over `function->args()`, from a number on.
unfoldable pub arguments_from : ℕ → List IrType → List BridgeValue
arguments_from n [] = []
arguments_from n (type ∷ types) = argument n ∷ arguments_from (suc n) types

unfoldable pub bridge_args : Bool → FunctionType → List BridgeValue
unfolding arguments_from
bridge_args static type =
    environment ∷ ((if static then null_class ∷ [] else []) ++ arguments_from 0 type.parameters)

unfoldable pub callee_type : MethodType → FunctionType
unfolding descriptor_to_type
callee_type type = record {
  return_type = descriptor_to_type type.return_type;
  parameters = pointer ∷ reference ∷ map descriptor_to_type type.parameters;
}

unfoldable pub is_void_type : IrType → Bool
is_void_type void_type = true
is_void_type _ = false

module _ (lookup : List ℕ → Option ℕ) where
  -- The short name, or else the name with the parameters.
  unfoldable pub find_implementation : ClassFile → MemberInfo → Outcome ℕ
  unfolding jni_name overloaded_name
  find_implementation file info = do
    name ← jni_name file info
    elim (lookup name) [
      | some address ↦ ok address
      | none ↦ (do
        long_name ← overloaded_name file info
        elim (lookup long_name) [ some address ↦ ok address | none ↦ fails fatal ])
    ]

  unfoldable pub make_bridge : ClassFile → MemberInfo → Outcome Bridge
  unfolding find_implementation mangle_method_info get_descriptor parse_method_type method_to_type
      is_static bridge_args callee_type is_void_type descriptor_to_type
  make_bridge file info = do
    symbol ← mangle_method_info file info
    address ← find_implementation file info
    text ← get_descriptor file.constant_pool info
    method_type ← parse_method_type text
    let type = method_to_type method_type (is_static info)
    ok (record {
      symbol = symbol;
      type = type;
      callee = address;
      callee_type = callee_type method_type;
      args = bridge_args (is_static info) type;
      returns_void = is_void_type (descriptor_to_type method_type.return_type);
    })
