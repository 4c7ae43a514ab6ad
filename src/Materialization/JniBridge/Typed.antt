-- ===== src/Materialization/JniBridge/Typed.antt =====
-- The bridge passes what its callee takes.
use jllvm.Base.{
  ℕ, suc, ◌≡◌, refl, ◌∙◌, ap, Bool, true, false, List, [], ◌∷◌, ◌++◌, map, Option, some, get_elem?,
  ok, >>=-eq-ok, ok-eq, length, length-append, append_assoc, arith,
}
use jllvm.Class.Descriptors.{MethodType, parse_method_type}
use jllvm.Class.ClassFile.{ClassFile}
use jllvm.Class.ClassFile.Members.{MemberInfo, is_static, get_descriptor}
use jllvm.Materialization.Types.{IrType, reference, pointer, descriptor_to_type, method_to_type}
use jllvm.Materialization.Mangling.{mangle_method_info}
use jllvm.Materialization.JniBridge.{
  BridgeValue, environment, null_class, argument, Bridge, arguments_from, bridge_args, callee_type,
  is_void_type, find_implementation, make_bridge,
}

-- The type of a value in a function with these parameters.
abbrev pub type_of : List IrType → BridgeValue → Option IrType
type_of parameters environment = some pointer
type_of parameters null_class = some reference
type_of parameters (argument n) = get_elem? parameters n

get_elem?-length :
    (before : List IrType) (t : IrType) (types : List IrType)
    → get_elem? (before ++ t ∷ types) (length before) ≡ some t
get_elem?-length [] t types = refl
get_elem?-length (x ∷ before) t types = get_elem?-length before t types

arguments_from-types :
    (before types : List IrType)
    → map (type_of (before ++ types)) (arguments_from (length before) types) ≡ map some types
unfolding arguments_from
arguments_from-types before [] = refl
arguments_from-types before (t ∷ types) =
    let first = get_elem?-length before t types in
    let count : length (before ++ t ∷ []) ≡ suc (length before) =
      length-append before (t ∷ []) ∙ omega arith in
    let shifted : (before ++ t ∷ []) ++ types ≡ before ++ t ∷ types =
      append_assoc before (t ∷ []) types in
    let rest = arguments_from-types (before ++ t ∷ []) types in
    let rest' : map (type_of (before ++ t ∷ types)) (arguments_from (suc (length before)) types)
        ≡ map some types =
      rw (shifted, count) at rest in
    cc

bridge_args-typed :
    (static : Bool) (type : MethodType)
    → map
        (type_of (method_to_type type static).parameters)
        (bridge_args static (method_to_type type static))
      ≡ map some (callee_type type).parameters
unfolding bridge_args callee_type method_to_type
bridge_args-typed true type =
    ap (λ rest. some pointer ∷ some reference ∷ rest)
      (arguments_from-types [] (map descriptor_to_type type.parameters))
bridge_args-typed false type =
    ap (λ rest. some pointer ∷ rest)
      (arguments_from-types [] (reference ∷ map descriptor_to_type type.parameters))

-- When a bridge is made, whether the method is static or not, it passes as many values as its
-- callee has parameters, each of the type of that parameter; the two return the same, and the
-- bridge returns nothing exactly if they return void.
pub make_bridge-typed :
    (lookup : List ℕ → Option ℕ) (file : ClassFile) (info : MemberInfo) {bridge : Bridge}
    → make_bridge lookup file info ≡ ok bridge
    → (map (type_of bridge.type.parameters) bridge.args ≡ map some bridge.callee_type.parameters)
      × (bridge.type.return_type ≡ bridge.callee_type.return_type)
      × (bridge.returns_void ≡ is_void_type bridge.callee_type.return_type)
unfolding make_bridge bridge_args callee_type method_to_type
make_bridge-typed lookup file info e =
    let named = >>=-eq-ok (mangle_method_info file info) _ e in
    let found = >>=-eq-ok (find_implementation lookup file info) _ named.2 in
    let described = >>=-eq-ok (get_descriptor file.constant_pool info) _ found.2 in
    let parsed = >>=-eq-ok (parse_method_type described.0) _ described.2 in
    let built = ok-eq parsed.2 in
    rw (← built) (bridge_args-typed (is_static info) parsed.0, refl, refl)
