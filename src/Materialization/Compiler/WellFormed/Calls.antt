-- ===== src/Materialization/Compiler/WellFormed/Calls.antt =====
-- A call runs: it takes the arguments and pushes what is returned, if anything is.
use jllvm.Base.{
  ℕ, zero, suc, ◌+◌, ◌≡◌, refl, Bool, true, false, not, List, [], ◌∷◌, All, if◌then◌else◌, length,
  Outcome, ok, ◌>>=◌, arith,
}
use jllvm.Support.Bytes.{consume}
use jllvm.Class.ClassFile.Constants.{ConstantPoolInfo}
use jllvm.Class.Descriptors.{MethodType, base, void, field_type_eq, parse_method_type}
use jllvm.Materialization.Types.{method_to_type}
use jllvm.Materialization.Compiler.Function.{Value, Operation, call}
use jllvm.Materialization.Compiler.State.{Context, State, push, create}
use jllvm.Materialization.Compiler.Pool.{resolve_ref}
use jllvm.Materialization.Compiler.Steps.{pop_arguments, step_invoke}
use jllvm.Materialization.Compiler.WellFormed.{IsClosed, IsWellFormed}
use jllvm.Materialization.Compiler.WellFormed.Emitting.{All-weaken, IsKnown-le}
use jllvm.Materialization.Compiler.WellFormed.Ending.{resolve_ref-ne-out_of_fuel}
use jllvm.Class.Descriptors.Methods.{parse_method_type-ne-out_of_fuel}
use jllvm.Materialization.Compiler.WellFormed.Running.{
  Steps, Yields, Known, Runs-refl, Runs-trans, Steps-eq, Yields-eq, bind_Steps, bind_Yields,
  read_Steps, create-Runs, push-Runs,
}
use jllvm.Materialization.Compiler.WellFormed.Parts.{Consumed, pop_value-Yields, operand-Yields}
use jllvm.Materialization.Compiler.WellFormed.Stubs.{get_non_virtual_callee-Yields}
use jllvm.Materialization.Compiler.WellFormed.Instructions.{ends}

-- How many values a call takes and pushes, by the descriptor that its operand refers to.
abbrev pub argument_count : Bool → MethodType → ℕ
argument_count is_static type = length type.parameters + (if is_static then 0 else 1)

abbrev pub result_count : MethodType → ℕ
result_count type = if not (field_type_eq type.return_type (base void)) then 1 else 0

unfoldable pub call_effect : Bool → List ConstantPoolInfo → List ℕ → Outcome (ℕ × ℕ)
call_effect is_static pool bytes = do
  (index, rest) ← consume 2 bytes
  info ← resolve_ref pool index
  type ← parse_method_type info.descriptor
  ok (argument_count is_static type, result_count type)

abbrev AllKnown : State → List Value → Type 0
AllKnown t args = All (Known t) args

module _ {context : Context} where
  pop_arguments-Yields :
      (n : ℕ) (args : List Value) (s : State)
      → IsWellFormed context s
      → AllKnown s args
      → Yields context AllKnown n 0 s (pop_arguments n args s)
  unfolding pop_arguments
  pop_arguments-Yields zero args s h known = record { runs = (Runs-refl s h, known) }
  pop_arguments-Yields (suc n) args s h known = Yields-eq (suc n) 0 (omega arith) (omega arith) (
      bind_Yields Known AllKnown n 0 _ _ (pop_value-Yields s h) (λ value t r value_known.
        pop_arguments-Yields n (value ∷ args) t r.well_formed
          (value_known, All-weaken (Known s) (Known t) args (IsKnown-le r.values_le) known)))

  -- The call, and the push of its result under a test.
  finish_call :
      (returns : Bool) (op : Operation) (s : State)
      → IsWellFormed context s
      → IsClosed s.builder.value_count s.builder.block_count op
      → Steps context 0
          (if returns then 1 else 0)
          s
          (let (returned, s) = create op s in ok (if returns then push returned s else s))
  finish_call true op s h closed =
      let made = create-Runs op s h closed in
      ends (Runs-trans made.0 (push-Runs _ _ made.0.well_formed made.1))
  finish_call false op s h closed = ends (create-Runs op s h closed).0

  pub step_invoke-Steps :
      (is_static : Bool) (pops pushes : ℕ) (s : State)
      → ((taken pushed : ℕ)
          → call_effect is_static context.pool s.current ≡ ok (taken, pushed)
          → (taken ≡ pops) × (pushed ≡ pushes))
      → IsWellFormed context s
      → Steps context pops pushes s (step_invoke is_static context s)
  unfolding step_invoke call_effect
  step_invoke-Steps is_static pops pushes s effect h =
      Steps-eq pops pushes (omega arith) (omega arith) (
        bind_Steps (Consumed 2 s) pops pushes _ _ (operand-Yields 2 s h) (λ index t r e.
          read_Steps pops pushes (resolve_ref context.pool index) _
            (resolve_ref-ne-out_of_fuel context.pool index)
            (λ info e'.
              read_Steps pops pushes (parse_method_type info.descriptor) _
                (parse_method_type-ne-out_of_fuel info.descriptor)
                (λ type e''.
                  let both =
                    effect (argument_count is_static type) (result_count type)
                      (rw (e, e', e'') refl) in
                  Steps-eq pops pushes (omega (arith, both.0)) (omega (arith, both.1)) (
                    bind_Steps AllKnown 0 (result_count type) _ _
                      (pop_arguments-Yields (argument_count is_static type) [] t r.well_formed tt)
                      (λ args u q args_known.
                        Steps-eq 0 (result_count type) (omega arith) (omega arith) (
                          bind_Steps Known 0 (result_count type) _ _
                            (get_non_virtual_callee-Yields is_static info.class_name info.name
                              info.descriptor u q.well_formed)
                            (λ callee v p callee_known.
                              finish_call (not (field_type_eq type.return_type (base void)))
                                (call (method_to_type type is_static) callee args) v p.well_formed
                                (
                                  callee_known,
                                  All-weaken (Known u) (Known v) args (IsKnown-le p.values_le)
                                      args_known,
                                )))))))))
