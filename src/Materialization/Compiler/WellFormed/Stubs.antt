-- ===== src/Materialization/Compiler/WellFormed/Stubs.antt =====
-- What is declared for classes that are not loaded yet runs.
use jllvm.Base.{
  ℕ, ◌≡◌, ◌≢◌, refl, Bool, inl, inr, List, [], get_elem?, Outcome, ok, fails, out_of_fuel,
  Option-cases,
}
use jllvm.Object.ClassObject.{ClassRef, ClassObject}
use jllvm.Object.ClassLoader.Loading.{for_name_loaded}
use jllvm.Class.Descriptors.{parse_method_type}
use jllvm.Materialization.Types.{FunctionType, method_to_type}
use jllvm.Materialization.Compiler.Function.{Value, function_symbol, call}
use jllvm.Materialization.Compiler.State.{Context, State, Query, Callback}
use jllvm.Materialization.Compiler.Lazy.{
  find_entry, get_or_insert_function, ensure_stub, stub_symbol, class_descriptor, query_type,
  return_constant_for_class_object, get_non_virtual_callee,
}
use jllvm.Materialization.Compiler.WellFormed.{IsWellFormed}
use jllvm.Class.Descriptors.Methods.{parse_method_type-ne-out_of_fuel}
use jllvm.Materialization.Compiler.WellFormed.Running.{
  Runs, Yields, Known, Runs-refl, Runs-trans, create-Runs, read_Yields,
}
use jllvm.Materialization.Compiler.WellFormed.Parts.{Runs-same}

module _ {context : Context} where
  pub get_or_insert_function-Runs :
      (name : List ℕ) (type : FunctionType) (s : State)
      → IsWellFormed context s
      → Runs context 0 0 s (get_or_insert_function name type s)
  unfolding get_or_insert_function
  get_or_insert_function-Runs name type s h = elim (Option-cases (find_entry name s.functions)) [
    | inl absent ↦ rw (absent, get_or_insert_function) (Runs-same s _ refl refl refl refl h)
    | inr (old, found) ↦ rw (found, get_or_insert_function) (Runs-refl s h)
  ]

  pub ensure_stub-Runs :
      (symbol : List ℕ) (callback : Callback) (s : State)
      → IsWellFormed context s
      → Runs context 0 0 s (ensure_stub symbol callback s)
  unfolding ensure_stub
  ensure_stub-Runs symbol callback s h = elim (Option-cases (find_entry symbol s.stubs)) [
    | inl absent ↦ rw (absent, ensure_stub) (Runs-same s _ refl refl refl refl h)
    | inr (old, found) ↦ rw (found, ensure_stub) (Runs-refl s h)
  ]

  -- A loaded class gives a constant, and any other class the result of a call.
  pub return_constant-Yields :
      (query : Query) (descriptor : List ℕ) (f : ClassRef → ClassObject → Outcome Value)
      (callback : Callback) (s : State)
      → ((ref : ClassRef) (object : ClassObject) → f ref object ≢ fails out_of_fuel)
      → ((ref : ClassRef) (object : ClassObject) (v : Value) → f ref object ≡ ok v → Known s v)
      → IsWellFormed context s
      → Yields context Known 0 0 s
          (return_constant_for_class_object context query descriptor f callback s)
  unfolding return_constant_for_class_object
  return_constant-Yields query descriptor f callback s fine known h =
      elim (Option-cases (for_name_loaded descriptor context.mapping)) [
        | inl absent ↦
            rw (absent, return_constant_for_class_object)
              (let symbol = stub_symbol context query descriptor in
                let type : FunctionType = record {
                  return_type = query_type query;
                  parameters = [];
                } in
                let stubbed = ensure_stub-Runs symbol callback s h in
                let declared =
                  get_or_insert_function-Runs symbol type (ensure_stub symbol callback s)
                    stubbed.well_formed in
                let called =
                  create-Runs (call type (function_symbol symbol) [])
                    (get_or_insert_function symbol type (ensure_stub symbol callback s))
                    declared.well_formed (tt, tt) in
                record { runs = (Runs-trans (Runs-trans stubbed declared) called.0, called.1) })
        | inr (ref, found) ↦
            rw (found, return_constant_for_class_object)
              elim (Option-cases (get_elem? context.objects ref)) [
                | inl missing ↦ rw missing record { runs = λ e. cc }
                | inr (object, there) ↦ rw there (
                    read_Yields Known 0 0 (f ref object) (λ value. ok (value, s)) (fine ref object)
                      (λ value e. record { runs = (Runs-refl s h, known ref object value e) }))
              ]
      ]

  pub get_non_virtual_callee-Yields :
      (is_static : Bool) (class name type : List ℕ) (s : State)
      → IsWellFormed context s
      → Yields context Known 0 0 s (get_non_virtual_callee context is_static class name type s)
  unfolding get_non_virtual_callee
  get_non_virtual_callee-Yields is_static class name type s h =
      read_Yields Known 0 0 (parse_method_type type) _ (parse_method_type-ne-out_of_fuel type)
        (λ desc e. elim (Option-cases (for_name_loaded (class_descriptor class) context.mapping)) [
          | inl absent ↦ rw absent (
              let declared = get_or_insert_function-Runs _ (method_to_type desc is_static) s h in
              let stubbed = ensure_stub-Runs _ _ _ declared.well_formed in
              record { runs = (Runs-trans declared stubbed, tt) })
          | inr (ref, found) ↦ rw found record {
            runs = (get_or_insert_function-Runs _ (method_to_type desc is_static) s h, tt);
          }
        ])
