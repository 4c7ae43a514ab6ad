-- ===== src/Materialization/Compiler/Lazy.antt =====
-- src/jllvm/materialization/ByteCodeCompileLayer.cpp: `LazyClassLoaderHelper`, which asks a loaded
-- class object right away and otherwise calls a stub. The stubs manager of LLVM is the list of the
-- symbols that have a stub, with what the stub does at first.
use jllvm.Base.{
  ℕ, suc, Bool, true, false, not, ◌&&◌, List, [], ◌∷◌, ◌++◌, Option, none, some, if◌then◌else◌,
  text_eq, get_elem?, Outcome, ok, fails, assertion, ◌>>=◌,
}
use jllvm.Class.Descriptors.{parse_method_type}
use jllvm.Object.ClassObject.{ClassRef, ClassObject, Field, get_offset}
use jllvm.Object.ClassLoader.Loading.{for_name_loaded}
use jllvm.Materialization.Types.{IrType, int_type, reference, pointer, FunctionType, method_to_type}
use jllvm.Materialization.Mangling.{mangle_method}
use jllvm.Materialization.Compiler.Function.{
  Value, int_constant, class_constant, static_constant, function_symbol, call,
}
use jllvm.Materialization.Compiler.State.{
  Query, instance_field_offset, static_field_address, class_object, Callback, find_instance_offset,
  find_static_address, find_class_object, find_method, Context, State, create,
}

unfoldable pub find_entry {ℓ} : {A : Type ℓ} → List ℕ → List (List ℕ × A) → Option A
unfolding text_eq
find_entry name [] = none
find_entry name ((k, a) ∷ rest) = if text_eq k name then some a else find_entry name rest

-- `getOrInsertFunction`, and `allocationFunction` for `jllvm_gc_alloc`
unfoldable pub get_or_insert_function : List ℕ → FunctionType → State → State
unfolding find_entry
get_or_insert_function name type s = elim (find_entry name s.functions) [
  | some old ↦ s
  | none ↦ record s { functions = (name, type) ∷ s.functions }
]

-- `findStub` and `createStub`
unfoldable pub ensure_stub : List ℕ → Callback → State → State
unfolding find_entry
ensure_stub symbol callback s = elim (find_entry symbol s.stubs) [
  | some old ↦ s
  | none ↦ record s { stubs = (symbol, callback) ∷ s.stubs }
]

-- "<classLoad>"
abbrev class_load : List ℕ
class_load = b'<' ∷ b'c' ∷ b'l' ∷ b'a' ∷ b's' ∷ b's' ∷ b'L' ∷ b'o' ∷ b'a' ∷ b'd' ∷ b'>' ∷ []

unfoldable pub stub_symbol : Context → Query → List ℕ → List ℕ
stub_symbol context query descriptor = class_load ++ (descriptor ++ context.unique_address query)

-- "<stub>"
abbrev stub_suffix : List ℕ
stub_suffix = b'<' ∷ b's' ∷ b't' ∷ b'u' ∷ b'b' ∷ b'>' ∷ []

-- `"L" + className + ";"`
abbrev pub class_descriptor : List ℕ → List ℕ
class_descriptor name = b'L' ∷ (name ++ b';' ∷ [])

-- `find_if` on the fields of a class, with the place of the field.
unfoldable pub find_field : Bool → List ℕ → List ℕ → ℕ → List Field → Outcome (ℕ × Field)
unfolding text_eq
find_field static name type index [] = fails assertion
find_field static name type index (f ∷ fields) =
    if (if static then f.is_static else not f.is_static)
      && text_eq f.name name
      && text_eq f.descriptor type
    then ok (index, f)
    else find_field static name type (suc index) fields

-- The lambdas of the three queries. `getOffset` returns a `size_t`.
unfoldable pub instance_offset_of : List ℕ → List ℕ → ClassRef → ClassObject → Outcome Value
unfolding find_field get_offset
instance_offset_of name type ref object = do
  (index, field) ← find_field false name type 0 object.fields
  at ← get_offset field
  ok (int_constant 64 at)

unfoldable pub static_address_of : List ℕ → List ℕ → ClassRef → ClassObject → Outcome Value
unfolding find_field
static_address_of name type ref object = do
  (index, field) ← find_field true name type 0 object.fields
  ok (static_constant ref index)

unfoldable pub class_object_of : ClassRef → ClassObject → Outcome Value
class_object_of ref object = ok (class_constant ref)

-- `CppToLLVMType` of what the lambda of a query returns.
unfoldable pub query_type : Query → IrType
query_type instance_field_offset = int_type 64
query_type static_field_address = pointer
query_type class_object = reference

unfoldable pub return_constant_for_class_object :
    Context
    → Query
    → List ℕ
    → (ClassRef → ClassObject → Outcome Value)
    → Callback
    → State
    → Outcome (Value × State)
unfolding for_name_loaded create get_or_insert_function ensure_stub stub_symbol query_type
return_constant_for_class_object context query descriptor f callback s =
    elim (for_name_loaded descriptor context.mapping) [
      | some ref ↦ elim (get_elem? context.objects ref) [
        | none ↦ fails assertion
        | some object ↦ do value ← f ref object; ok (value, s)
      ]
      | none ↦
          let symbol = stub_symbol context query descriptor in
          let type : FunctionType = record { return_type = query_type query; parameters = [] } in
          let s = get_or_insert_function symbol type (ensure_stub symbol callback s) in
          ok (create (call type (function_symbol symbol) []) s)
    ]

unfoldable pub get_instance_field_offset :
    Context → List ℕ → List ℕ → List ℕ → State → Outcome (Value × State)
unfolding return_constant_for_class_object instance_offset_of
get_instance_field_offset context class_name name type s =
    return_constant_for_class_object context instance_field_offset (class_descriptor class_name)
      (instance_offset_of name type) (find_instance_offset class_name name type) s

unfoldable pub get_static_field_address :
    Context → List ℕ → List ℕ → List ℕ → State → Outcome (Value × State)
unfolding return_constant_for_class_object static_address_of
get_static_field_address context class_name name type s =
    return_constant_for_class_object context static_field_address (class_descriptor class_name)
      (static_address_of name type) (find_static_address class_name name type) s

unfoldable pub get_class_object : Context → List ℕ → State → Outcome (Value × State)
unfolding return_constant_for_class_object class_object_of
get_class_object context descriptor s =
    return_constant_for_class_object context class_object descriptor class_object_of
      (find_class_object descriptor) s

unfoldable pub get_non_virtual_callee :
    Context → Bool → List ℕ → List ℕ → List ℕ → State → Outcome (Value × State)
unfolding parse_method_type method_to_type mangle_method for_name_loaded get_or_insert_function
    ensure_stub
get_non_virtual_callee context is_static class_name method_name method_type s = do
  desc ← parse_method_type method_type
  let type = method_to_type desc is_static
  let method = mangle_method class_name method_name method_type
  let stub_name = method ++ stub_suffix
  let loaded : Value × State = (function_symbol method, get_or_insert_function method type s)
  let stub : Value × State = (
    function_symbol stub_name,
    ensure_stub stub_name (find_method class_name method) (get_or_insert_function stub_name type s),
  )
  elim (for_name_loaded (class_descriptor class_name) context.mapping) [
    | some ref ↦ ok loaded
    | none ↦ ok stub
  ]
