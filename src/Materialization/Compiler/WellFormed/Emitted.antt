-- ===== src/Materialization/Compiler/WellFormed/Emitted.antt =====
-- The function that `codeGenBody` emits is closed, and `codeGenBody` ends.
use jllvm.Base.{
  ℕ, zero, suc, ◌≤◌, ◌≡◌, ◌≢◌, refl, Bool, true, false, inl, List, [], ◌∷◌, All, length, ok, fails,
  out_of_fuel, >>=-eq-ok, ok-eq, arith,
}
use jllvm.Class.ClassFile.Constants.{ConstantPoolInfo}
use jllvm.Class.ClassFile.Members.{Code}
use jllvm.Materialization.Types.{IrType}
use jllvm.Materialization.Compiler.Function.{
  Value, argument, alloca, store, Builder, new_function, emit,
}
use jllvm.Materialization.Compiler.State.{Callback, State}
use jllvm.Materialization.Compiler.Arguments.{
  create_locals, store_arguments, is_wide_type, skip_local,
}
use jllvm.Materialization.Compiler.Body.{Environment, context_of, start_state, code_gen_body}
use jllvm.Materialization.Compiler.WellFormed.{IsKnown, IsClosedBuilder, IsWellFormed}
use jllvm.Materialization.Compiler.WellFormed.Emitting.{
  All-weaken, IsKnown-le, emit-IsClosedBuilder,
}
use jllvm.Materialization.Compiler.WellFormed.Ending.{follow-ne-out_of_fuel}
use jllvm.Materialization.Compiler.WellFormed.Body.{generate-IsWellFormed, generate-ne-out_of_fuel}

create_locals-closed :
    (n : ℕ) (b : Builder)
    → IsClosedBuilder b
    → IsClosedBuilder (create_locals n b).1
      × All (IsKnown (create_locals n b).1.value_count) (create_locals n b).0
      × (b.value_count ≤ (create_locals n b).1.value_count)
unfolding create_locals emit
create_locals-closed zero b h = (h, tt, omega arith)
create_locals-closed (suc n) b h =
    let first = emit-IsClosedBuilder alloca b h tt in
    let rest = create_locals-closed n (emit alloca b).1 first in
    (rest.0, (omega (arith, rest.2), rest.1), omega (arith, rest.2))

skip_local-IsKnown :
    (wide : Bool) (n : ℕ) (locals : List Value) {rest : List Value}
    → All (IsKnown n) locals
    → skip_local wide locals ≡ ok rest
    → All (IsKnown n) rest
unfolding skip_local
skip_local-IsKnown false n locals h e = rw (← ok-eq e) h
skip_local-IsKnown true n [] h e = cc
skip_local-IsKnown true n (local ∷ locals) h e = rw (← ok-eq e) h.1

store_arguments-closed :
    (n : ℕ) (types : List IrType) (locals : List Value) (b : Builder) {b' : Builder}
    → IsClosedBuilder b
    → All (IsKnown b.value_count) locals
    → store_arguments n types locals b ≡ ok b'
    → IsClosedBuilder b' × (b.value_count ≤ b'.value_count)
unfolding store_arguments
store_arguments-closed n [] locals b h known e = rw (← ok-eq e) (h, omega arith)
store_arguments-closed n (type ∷ types) [] b h known e = cc
store_arguments-closed n (type ∷ types) (local ∷ locals) b h known e =
    let stored = emit-IsClosedBuilder (store (argument n) local) b h (tt, known.0) in
    let le : b.value_count ≤ suc b.value_count = omega arith in
    let wider =
      All-weaken (IsKnown b.value_count) (IsKnown (suc b.value_count)) locals (IsKnown-le le)
        known.1 in
    let skipped = >>=-eq-ok (skip_local (is_wide_type type) locals) _ e in
    let rest =
      store_arguments-closed (suc n) types skipped.0 (emit (store (argument n) local) b).1 stored
        (skip_local-IsKnown (is_wide_type type) (suc b.value_count) locals wider skipped.1)
        skipped.2 in
    (rest.0, omega (arith, rest.1))

new_function-closed : IsClosedBuilder new_function
unfolding new_function
new_function-closed = (
  ((omega arith, tt), tt),
  (refl, λ name lt. inl (omega (arith, lt))),
  omega arith,
  λ number lt. absurd (omega (arith, lt)),
)

skip_local-ne-out_of_fuel :
    (wide : Bool) (locals : List Value) → skip_local wide locals ≢ fails out_of_fuel
unfolding skip_local
skip_local-ne-out_of_fuel false locals = λ e. cc
skip_local-ne-out_of_fuel true [] = λ e. cc
skip_local-ne-out_of_fuel true (local ∷ locals) = λ e. cc

store_arguments-ne-out_of_fuel :
    (n : ℕ) (types : List IrType) (locals : List Value) (b : Builder)
    → store_arguments n types locals b ≢ fails out_of_fuel
unfolding store_arguments
store_arguments-ne-out_of_fuel n [] locals b = λ e. cc
store_arguments-ne-out_of_fuel n (type ∷ types) [] b = λ e. cc
store_arguments-ne-out_of_fuel n (type ∷ types) (local ∷ locals) b =
    follow-ne-out_of_fuel (skip_local (is_wide_type type) locals) _
      (skip_local-ne-out_of_fuel (is_wide_type type) locals)
      (λ rest e. store_arguments-ne-out_of_fuel (suc n) types rest _)

module _ (environment : Environment) (pool : List ConstantPoolInfo) (parameters : List IrType)
    (code : Code) (stubs : List (List ℕ × Callback)) where
  pub start-IsWellFormed :
      (builder : Builder)
      → store_arguments 0 parameters
          (create_locals code.max_locals new_function).0
          (create_locals code.max_locals new_function).1
        ≡ ok builder
      → IsWellFormed
          (context_of environment pool code (create_locals code.max_locals new_function).0)
          (start_state builder code stubs)
  unfolding context_of start_state
  start-IsWellFormed builder e =
      let created = create_locals-closed code.max_locals new_function new_function-closed in
      let stored = store_arguments-closed 0 parameters _ _ created.0 created.1 e in
      (stored.0, tt, tt, All-weaken (IsKnown _) (IsKnown _) _ (IsKnown-le stored.1) created.1)

  -- If a method compiles, then all its code has been read, and the function is closed: each
  -- operand that is an instruction is one that stands in a block of the function, each branch
  -- goes to a block of it, the blocks have names of their own, and every number that has been
  -- given out is that of an instruction in a block.
  pub code_gen_body-closed :
      {s : State}
      → code_gen_body environment pool parameters code stubs ≡ ok s
      → IsClosedBuilder s.builder × (s.current ≡ [])
  unfolding code_gen_body
  code_gen_body-closed e =
      let stored =
        >>=-eq-ok
          (store_arguments 0 parameters (create_locals code.max_locals new_function).0
            (create_locals code.max_locals new_function).1)
          _ e in
      let all =
        generate-IsWellFormed environment.alignment
          (context_of environment pool code (create_locals code.max_locals new_function).0)
          (length code.code) (start_state stored.0 code stubs)
          (start-IsWellFormed stored.0 stored.1) stored.2 in
      (all.0.0, all.1)

  -- Compiling a method ends for any code: one round of the loop for each byte of the code is
  -- enough.
  pub code_gen_body-ne-out_of_fuel :
      code_gen_body environment pool parameters code stubs ≢ fails out_of_fuel
  unfolding code_gen_body start_state
  code_gen_body-ne-out_of_fuel =
      follow-ne-out_of_fuel
        (store_arguments 0 parameters (create_locals code.max_locals new_function).0
          (create_locals code.max_locals new_function).1)
        _ (store_arguments-ne-out_of_fuel 0 parameters _ _)
        (λ builder e.
          generate-ne-out_of_fuel environment.alignment
            (context_of environment pool code (create_locals code.max_locals new_function).0)
            (length code.code) (start_state builder code stubs) (start-IsWellFormed builder e)
            (omega arith))
