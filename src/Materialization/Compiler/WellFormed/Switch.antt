-- ===== src/Materialization/Compiler/WellFormed/Switch.antt =====
-- The effect of each instruction on the operand stack, as the instruction set has it, and that the
-- compiler keeps to it.
use jllvm.Base.{
  ℕ, suc, ◌≡◌, ◌≢◌, out_of_fuel, ◌-◌, ◌^◌, sym, ◌∙◌, refl, Failure, Bool, true, false, inl, inr,
  length, Outcome, ok, fails, ok-pair, Outcome-cases, arith,
}
use jllvm.Object.ClassObject.{Alignment}
use jllvm.Materialization.Types.{IrType, int_type, reference}
use jllvm.Materialization.Compiler.OpCodes.{
  OpCodes, aa_load, aa_store, a_const_null, a_load, a_load0, a_load1, a_load2, a_load3, a_new_array,
  a_return, array_length, a_store, a_store0, a_store1, a_store2, a_store3, dup, get_field,
  get_static, goto, new, i_const_m1, i_const0, i_const1, i_const2, i_const3, i_const4, i_const5,
  i_load, i_load0, i_load1, i_load2, i_load3, if_i_cmp_ge, i_inc, invoke_static, invoke_special,
  i_store, i_store0, i_store1, i_store2, i_store3, ldc, put_field, put_static, pop, return,
}
use jllvm.Materialization.Compiler.Function.{null_reference, ret_void}
use jllvm.Materialization.Compiler.State.{Context, State}
use jllvm.Materialization.Compiler.Steps.{int32, step_invoke}
use jllvm.Materialization.Compiler.Switch.{load_indexed, store_indexed, step}
use jllvm.Materialization.Compiler.WellFormed.{IsWellFormed}
use jllvm.Materialization.Compiler.WellFormed.Effects.{Effect}
use jllvm.Materialization.Compiler.WellFormed.Running.{Runs, Steps, bind_Steps, push-Runs}
use jllvm.Materialization.Compiler.WellFormed.Parts.{Consumed, operand-Yields}
use jllvm.Materialization.Compiler.WellFormed.Instructions.{
  ends, perform-Runs, step_aa_load-Steps, step_aa_store-Steps, load_local-Steps, store_local-Steps,
  step_a_return-Steps, step_array_length-Steps, step_pop-Steps, step_goto-Steps,
  step_if_i_cmp_ge-Steps,
}
use jllvm.Materialization.Compiler.WellFormed.Objects.{
  step_dup-Steps, step_ldc-Steps, step_i_inc-Steps, step_get_field-Steps, step_put_field-Steps,
  step_get_static-Steps, step_put_static-Steps,
}
use jllvm.Materialization.Compiler.WellFormed.Allocations.{step_new-Steps, step_a_new_array-Steps}
use jllvm.Materialization.Compiler.WellFormed.Calls.{call_effect, step_invoke-Steps}
use jllvm.Materialization.Compiler.WellFormed.StackEffects.{stack_effect}

module _ {context : Context} where
  load_indexed-Steps :
      (type : IrType) (s : State)
      → IsWellFormed context s
      → Steps context 0 1 s (load_indexed context type s)
  unfolding load_indexed
  load_indexed-Steps type s h =
      bind_Steps (Consumed 1 s) 0 1 _ _ (operand-Yields 1 s h)
        (λ index t r e. load_local-Steps type index t r.well_formed)

  store_indexed-Steps :
      (s : State) → IsWellFormed context s → Steps context 1 0 s (store_indexed context s)
  unfolding store_indexed
  store_indexed-Steps s h =
      bind_Steps (Consumed 1 s) 1 0 _ _ (operand-Yields 1 s h)
        (λ index t r e. store_local-Steps index t r.well_formed)

-- An instruction that ends well has the effect that the table says.
abbrev HasEffect : Context → State → Outcome (ℕ × ℕ) → Outcome State → Type 0
HasEffect context s effect (fails f) = f ≢ out_of_fuel
HasEffect context s effect (ok t) = (e : ℕ × ℕ) × (effect ≡ ok e) × Runs context e.0 e.1 s t

has_effect :
    (context : Context) (pops pushes : ℕ) (s : State) (o : Outcome State)
    → Steps context pops pushes s o
    → HasEffect context s (ok (pops, pushes)) o
has_effect context pops pushes s (fails f) h = h.runs
has_effect context pops pushes s (ok t) h = ((pops, pushes), refl, h.runs)

fails-ne {ℓ} : {A : Type ℓ} {f : Failure} {a : A} → fails f ≡ ok a → ⊥
fails-ne h = cc

too_many :
    (context : Context) (s : State) (o : Outcome State) (effect : Outcome (ℕ × ℕ))
    → Steps context (suc (length s.operand_stack)) 0 s o
    → HasEffect context s effect o
too_many context s (fails f) effect h = h.runs
too_many context s (ok t) effect h =
    let enough = h.runs.effect.enough in absurd (omega (arith, enough))

-- Where the table has no effect the call fails: it would have every effect.
call-HasEffect :
    (context : Context) (is_static : Bool) (s : State)
    → IsWellFormed context s
    → HasEffect context s
        (call_effect is_static context.pool s.current)
        (step_invoke is_static context s)
call-HasEffect context is_static s h =
    elim (Outcome-cases (call_effect is_static context.pool s.current)) [
      | inl ((pops, pushes), e) ↦ rw e (
          has_effect context pops pushes s (step_invoke is_static context s) (
            step_invoke-Steps is_static pops pushes s
              (λ taken pushed e'. let same = ok-pair (sym e ∙ e') in (sym same.0, sym same.1)) h))
      | inr (f, e) ↦
          let all =
            step_invoke-Steps is_static (suc (length s.operand_stack)) 0 s
              (λ taken pushed e'. absurd (fails-ne (sym e ∙ e'))) h in
          too_many context s _ _ all
    ]

step-HasEffect :
    (alignment : Alignment) (context : Context) (op : OpCodes) (offset : ℕ) (s : State)
    → IsWellFormed context s
    → HasEffect context s
        (stack_effect context.pool s.current op)
        (step alignment context op offset s)
unfolding step stack_effect int32
step-HasEffect alignment context aa_load offset s h =
    has_effect context 2 1 s _ (step_aa_load-Steps s h)
step-HasEffect alignment context aa_store offset s h =
    has_effect context 3 0 s _ (step_aa_store-Steps s h)
step-HasEffect alignment context a_const_null offset s h =
    has_effect context 0 1 s _ (ends (push-Runs null_reference s h tt))
step-HasEffect alignment context a_load offset s h =
    has_effect context 0 1 s _ (load_indexed-Steps reference s h)
step-HasEffect alignment context a_load0 offset s h =
    has_effect context 0 1 s _ (load_local-Steps reference 0 s h)
step-HasEffect alignment context a_load1 offset s h =
    has_effect context 0 1 s _ (load_local-Steps reference 1 s h)
step-HasEffect alignment context a_load2 offset s h =
    has_effect context 0 1 s _ (load_local-Steps reference 2 s h)
step-HasEffect alignment context a_load3 offset s h =
    has_effect context 0 1 s _ (load_local-Steps reference 3 s h)
step-HasEffect alignment context a_new_array offset s h =
    has_effect context 1 1 s _ (step_a_new_array-Steps alignment s h)
step-HasEffect alignment context a_return offset s h =
    has_effect context 1 0 s _ (step_a_return-Steps s h)
step-HasEffect alignment context array_length offset s h =
    has_effect context 1 1 s _ (step_array_length-Steps s h)
step-HasEffect alignment context a_store offset s h =
    has_effect context 1 0 s _ (store_indexed-Steps s h)
step-HasEffect alignment context a_store0 offset s h =
    has_effect context 1 0 s _ (store_local-Steps 0 s h)
step-HasEffect alignment context a_store1 offset s h =
    has_effect context 1 0 s _ (store_local-Steps 1 s h)
step-HasEffect alignment context a_store2 offset s h =
    has_effect context 1 0 s _ (store_local-Steps 2 s h)
step-HasEffect alignment context a_store3 offset s h =
    has_effect context 1 0 s _ (store_local-Steps 3 s h)
step-HasEffect alignment context dup offset s h = has_effect context 1 2 s _ (step_dup-Steps s h)
step-HasEffect alignment context get_field offset s h =
    has_effect context 1 1 s _ (step_get_field-Steps s h)
step-HasEffect alignment context get_static offset s h =
    has_effect context 0 1 s _ (step_get_static-Steps s h)
step-HasEffect alignment context goto offset s h =
    has_effect context 0 0 s _ (step_goto-Steps offset s h)
step-HasEffect alignment context new offset s h = has_effect context 0 1 s _ (step_new-Steps s h)
step-HasEffect alignment context i_const_m1 offset s h =
    has_effect context 0 1 s _ (ends (push-Runs (int32 (2 ^ 32 - 1)) s h tt))
step-HasEffect alignment context i_const0 offset s h =
    has_effect context 0 1 s _ (ends (push-Runs (int32 0) s h tt))
step-HasEffect alignment context i_const1 offset s h =
    has_effect context 0 1 s _ (ends (push-Runs (int32 1) s h tt))
step-HasEffect alignment context i_const2 offset s h =
    has_effect context 0 1 s _ (ends (push-Runs (int32 2) s h tt))
step-HasEffect alignment context i_const3 offset s h =
    has_effect context 0 1 s _ (ends (push-Runs (int32 3) s h tt))
step-HasEffect alignment context i_const4 offset s h =
    has_effect context 0 1 s _ (ends (push-Runs (int32 4) s h tt))
step-HasEffect alignment context i_const5 offset s h =
    has_effect context 0 1 s _ (ends (push-Runs (int32 5) s h tt))
step-HasEffect alignment context i_load offset s h =
    has_effect context 0 1 s _ (load_indexed-Steps (int_type 32) s h)
step-HasEffect alignment context i_load0 offset s h =
    has_effect context 0 1 s _ (load_local-Steps (int_type 32) 0 s h)
step-HasEffect alignment context i_load1 offset s h =
    has_effect context 0 1 s _ (load_local-Steps (int_type 32) 1 s h)
step-HasEffect alignment context i_load2 offset s h =
    has_effect context 0 1 s _ (load_local-Steps (int_type 32) 2 s h)
step-HasEffect alignment context i_load3 offset s h =
    has_effect context 0 1 s _ (load_local-Steps (int_type 32) 3 s h)
step-HasEffect alignment context if_i_cmp_ge offset s h =
    has_effect context 2 0 s _ (step_if_i_cmp_ge-Steps offset s h)
step-HasEffect alignment context i_inc offset s h =
    has_effect context 0 0 s _ (step_i_inc-Steps s h)
step-HasEffect alignment context invoke_static offset s h = call-HasEffect context true s h
step-HasEffect alignment context invoke_special offset s h = call-HasEffect context false s h
step-HasEffect alignment context i_store offset s h =
    has_effect context 1 0 s _ (store_indexed-Steps s h)
step-HasEffect alignment context i_store0 offset s h =
    has_effect context 1 0 s _ (store_local-Steps 0 s h)
step-HasEffect alignment context i_store1 offset s h =
    has_effect context 1 0 s _ (store_local-Steps 1 s h)
step-HasEffect alignment context i_store2 offset s h =
    has_effect context 1 0 s _ (store_local-Steps 2 s h)
step-HasEffect alignment context i_store3 offset s h =
    has_effect context 1 0 s _ (store_local-Steps 3 s h)
step-HasEffect alignment context ldc offset s h = has_effect context 0 1 s _ (step_ldc-Steps s h)
step-HasEffect alignment context put_field offset s h =
    has_effect context 2 0 s _ (step_put_field-Steps s h)
step-HasEffect alignment context put_static offset s h =
    has_effect context 1 0 s _ (step_put_static-Steps s h)
step-HasEffect alignment context pop offset s h = has_effect context 1 0 s _ (step_pop-Steps s h)
step-HasEffect alignment context return offset s h =
    has_effect context 0 0 s _ (ends (perform-Runs ret_void s h tt))
step-HasEffect alignment context _ offset s h = λ e. cc

-- An instruction that is compiled takes and pushes as many values as the instruction set says (a
-- call by its descriptor), leaves the rest of the operand stack as it is, and keeps the function
-- closed.
pub step-Effect :
    (alignment : Alignment) (context : Context) (op : OpCodes) (offset : ℕ) (s : State) {t : State}
    → IsWellFormed context s
    → step alignment context op offset s ≡ ok t
    → (pops : ℕ) × (pushes : ℕ) × (stack_effect context.pool s.current op ≡ ok (pops, pushes))
      × Effect pops pushes s.operand_stack t.operand_stack
      × IsWellFormed context t
step-Effect alignment context op offset s h e =
    let all = step-HasEffect alignment context op offset s h in
    let found = rw e at all in (found.0.0, found.0.1, found.1, found.2.effect, found.2.well_formed)

-- The same, with what the loop needs.
pub step-Runs :
    (alignment : Alignment) (context : Context) (op : OpCodes) (offset : ℕ) (s : State) {t : State}
    → IsWellFormed context s
    → step alignment context op offset s ≡ ok t
    → (pops : ℕ) × (pushes : ℕ) × Runs context pops pushes s t
step-Runs alignment context op offset s h e =
    let all = step-HasEffect alignment context op offset s h in
    let found = rw e at all in (found.0.0, found.0.1, found.2)

pub step-ne-out_of_fuel :
    (alignment : Alignment) (context : Context) (op : OpCodes) (offset : ℕ) (s : State)
    → IsWellFormed context s
    → step alignment context op offset s ≢ fails out_of_fuel
step-ne-out_of_fuel alignment context op offset s h e =
    let all = step-HasEffect alignment context op offset s h in (rw e at all) refl
