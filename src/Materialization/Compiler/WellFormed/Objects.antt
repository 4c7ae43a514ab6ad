-- ===== src/Materialization/Compiler/WellFormed/Objects.antt =====
-- Each instruction runs, with its effect on the operand stack: those on fields and
-- constants.
use jllvm.Base.{ℕ, ◌≡◌, refl, true, false, List, [], ◌∷◌, ok, ◌>>=◌, >>=-eq-ok, ok-eq, arith}
use jllvm.Class.Descriptors.{parse_field_type}
use jllvm.Object.ClassObject.{ClassRef, ClassObject, get_offset}
use jllvm.Materialization.Types.{int_type, descriptor_to_type}
use jllvm.Materialization.Compiler.Function.{Value, Operation, load, store, byte_address}
use jllvm.Materialization.Compiler.State.{Context, State, push, pop_of, pop_value, get_local}
use jllvm.Materialization.Compiler.Pool.{resolve_field_ref, resolve_constant}
use jllvm.Materialization.Compiler.Lazy.{
  get_instance_field_offset, get_static_field_address, instance_offset_of, static_address_of,
  find_field,
}
use jllvm.Materialization.Compiler.Steps.{
  int32, step_dup, step_get_field, step_get_static, step_i_inc, step_ldc, step_put_field,
  step_put_static, sign_extend,
}
use jllvm.Materialization.Compiler.WellFormed.{IsWellFormed}
use jllvm.Materialization.Compiler.WellFormed.Emitting.{IsKnown-le}
use jllvm.Materialization.Compiler.WellFormed.Ending.{
  get_local-ne-out_of_fuel, resolve_constant-ne-out_of_fuel, resolve_field_ref-ne-out_of_fuel,
  parse_field_type-ne-out_of_fuel, instance_offset_of-ne-out_of_fuel,
  static_address_of-ne-out_of_fuel,
}
use jllvm.Materialization.Compiler.WellFormed.Running.{
  Runs, Steps, Yields, Known, Runs-trans, bind_Steps, read_Steps, create-Runs, push-Runs,
}
use jllvm.Materialization.Compiler.WellFormed.Parts.{
  Consumed, pop_value-Yields, operand-Yields, get_local-Known,
}
use jllvm.Materialization.Compiler.WellFormed.Instructions.{ends, perform-Runs, push_result-Runs}
use jllvm.Materialization.Compiler.WellFormed.Stubs.{return_constant-Yields}

-- What the queries give is a constant.
instance_offset_of-Known :
    (t : State) (name type : List ℕ) (ref : ClassRef) (object : ClassObject) (v : Value)
    → instance_offset_of name type ref object ≡ ok v
    → Known t v
unfolding instance_offset_of
instance_offset_of-Known t name type ref object v e =
    let found = >>=-eq-ok (find_field false name type 0 object.fields) _ e in
    let offset = >>=-eq-ok (get_offset found.0.1) _ found.2 in rw (← ok-eq offset.2) tt

static_address_of-Known :
    (t : State) (name type : List ℕ) (ref : ClassRef) (object : ClassObject) (v : Value)
    → static_address_of name type ref object ≡ ok v
    → Known t v
unfolding static_address_of
static_address_of-Known t name type ref object v e =
    let found = >>=-eq-ok (find_field true name type 0 object.fields) _ e in rw (← ok-eq found.2) tt

pub int32-Known : (s : State) (n : ℕ) → Known s (int32 n)
unfolding int32
int32-Known s n = tt

module _ {context : Context} where
  get_instance_field_offset-Yields :
      (class name type : List ℕ) (s : State)
      → IsWellFormed context s
      → Yields context Known 0 0 s (get_instance_field_offset context class name type s)
  unfolding get_instance_field_offset
  get_instance_field_offset-Yields class name type s h =
      return_constant-Yields _ _ _ _ s (instance_offset_of-ne-out_of_fuel name type)
        (instance_offset_of-Known s name type) h

  get_static_field_address-Yields :
      (class name type : List ℕ) (s : State)
      → IsWellFormed context s
      → Yields context Known 0 0 s (get_static_field_address context class name type s)
  unfolding get_static_field_address
  get_static_field_address-Yields class name type s h =
      return_constant-Yields _ _ _ _ s (static_address_of-ne-out_of_fuel name type)
        (static_address_of-Known s name type) h

  dup_of :
      (values : List Value) (s : State)
      → s.operand_stack ≡ values
      → IsWellFormed context s
      → Steps context 1 2 s (pop_of values s >>= λ (value, rest). ok (push value s))
  unfolding pop_of push
  dup_of [] s e h = record { runs = λ e. cc }
  dup_of (v ∷ values) s e h =
      let known = rw e at h.1 in
      let all : Runs context 0 1 s (push v s) = push-Runs v s h known.0 in
      record {
        runs = record {
          effect = record {
            enough = rw e omega arith;
            pushed = rw e omega arith;
            rest_stays = rw e refl;
          };
          current_le = all.current_le;
          values_le = all.values_le;
          blocks_le = all.blocks_le;
          well_formed = all.well_formed;
        };
      }

  pub step_dup-Steps : (s : State) → IsWellFormed context s → Steps context 1 2 s (step_dup s)
  unfolding step_dup pop_value pop_of push
  step_dup-Steps s h = dup_of s.operand_stack s refl h

  pub step_ldc-Steps :
      (s : State) → IsWellFormed context s → Steps context 0 1 s (step_ldc context s)
  unfolding step_ldc int32
  step_ldc-Steps s h = bind_Steps (Consumed 1 s) 0 1 _ _ (operand-Yields 1 s h) (λ index t r e.
      read_Steps 0 1 (resolve_constant context.pool index) _
        (resolve_constant-ne-out_of_fuel context.pool index)
        (λ value e'. ends (push-Runs (int32 value) t r.well_formed tt)))

  pub step_i_inc-Steps :
      (s : State) → IsWellFormed context s → Steps context 0 0 s (step_i_inc context s)
  unfolding step_i_inc int32
  step_i_inc-Steps s h = bind_Steps (Consumed 1 s) 0 0 _ _ (operand-Yields 1 s h) (λ index t r e.
      bind_Steps (Consumed 1 t) 0 0 _ _ (operand-Yields 1 t r.well_formed) (λ constant u q e'.
        read_Steps 0 0 (get_local context index) _ (get_local-ne-out_of_fuel context index)
          (λ local e''.
            let known = get_local-Known context u index q.well_formed e'' in
            let value = create-Runs (load (int_type 32) local) u q.well_formed known in
            let sum =
              create-Runs (Operation.add _ (int32 (sign_extend 8 32 constant))) _
                value.0.well_formed (value.1, tt) in
            let both = Runs-trans value.0 sum.0 in
            ends (
              Runs-trans both (
                perform-Runs (store _ local) _ sum.0.well_formed
                  (sum.1, IsKnown-le both.values_le local known))))))

  pub step_get_field-Steps :
      (s : State) → IsWellFormed context s → Steps context 1 1 s (step_get_field context s)
  unfolding step_get_field
  step_get_field-Steps s h =
      bind_Steps (Consumed 2 s) 1 1 _ _ (operand-Yields 2 s h) (λ index t r e.
        read_Steps 1 1 (resolve_field_ref context.pool index) _
          (resolve_field_ref-ne-out_of_fuel context.pool index)
          (λ info e'.
            read_Steps 1 1 (parse_field_type info.descriptor) _
              (parse_field_type-ne-out_of_fuel info.descriptor)
              (λ type e''.
                bind_Steps Known 0 1 _ _ (pop_value-Yields t r.well_formed)
                  (λ object u q object_known.
                    bind_Steps Known 0 1 _ _
                      (get_instance_field_offset-Yields info.class_name info.name info.descriptor u
                        q.well_formed)
                      (λ at v p at_known.
                        let field =
                          create-Runs (byte_address object at) v p.well_formed
                            (IsKnown-le p.values_le object object_known, at_known) in
                        ends (
                          Runs-trans field.0 (
                            push_result-Runs (load (descriptor_to_type type) _) _
                              field.0.well_formed field.1)))))))

  pub step_put_field-Steps :
      (s : State) → IsWellFormed context s → Steps context 2 0 s (step_put_field context s)
  unfolding step_put_field
  step_put_field-Steps s h =
      bind_Steps (Consumed 2 s) 2 0 _ _ (operand-Yields 2 s h) (λ index t r e.
        read_Steps 2 0 (resolve_field_ref context.pool index) _
          (resolve_field_ref-ne-out_of_fuel context.pool index)
          (λ info e'.
            bind_Steps Known 1 0 _ _ (pop_value-Yields t r.well_formed) (λ value u q value_known.
              bind_Steps Known 0 0 _ _ (pop_value-Yields u q.well_formed)
                (λ object v p object_known.
                  bind_Steps Known 0 0 _ _
                    (get_instance_field_offset-Yields info.class_name info.name info.descriptor v
                      p.well_formed)
                    (λ at w o at_known.
                      let field =
                        create-Runs (byte_address object at) w o.well_formed
                          (IsKnown-le o.values_le object object_known, at_known) in
                      let all = Runs-trans (Runs-trans p o) field.0 in
                      ends (
                        Runs-trans field.0 (
                          perform-Runs (store value _) _ field.0.well_formed
                            (IsKnown-le all.values_le value value_known, field.1))))))))

  pub step_get_static-Steps :
      (s : State) → IsWellFormed context s → Steps context 0 1 s (step_get_static context s)
  unfolding step_get_static
  step_get_static-Steps s h =
      bind_Steps (Consumed 2 s) 0 1 _ _ (operand-Yields 2 s h) (λ index t r e.
        read_Steps 0 1 (resolve_field_ref context.pool index) _
          (resolve_field_ref-ne-out_of_fuel context.pool index)
          (λ info e'.
            bind_Steps Known 0 1 _ _
              (get_static_field_address-Yields info.class_name info.name info.descriptor t
                r.well_formed)
              (λ field u q known.
                read_Steps 0 1 (parse_field_type info.descriptor) _
                  (parse_field_type-ne-out_of_fuel info.descriptor)
                  (λ type e''. ends (
                    push_result-Runs (load (descriptor_to_type type) field) u q.well_formed
                      known)))))

  pub step_put_static-Steps :
      (s : State) → IsWellFormed context s → Steps context 1 0 s (step_put_static context s)
  unfolding step_put_static
  step_put_static-Steps s h =
      bind_Steps (Consumed 2 s) 1 0 _ _ (operand-Yields 2 s h) (λ index t r e.
        read_Steps 1 0 (resolve_field_ref context.pool index) _
          (resolve_field_ref-ne-out_of_fuel context.pool index)
          (λ info e'.
            bind_Steps Known 0 0 _ _ (pop_value-Yields t r.well_formed) (λ value u q value_known.
              bind_Steps Known 0 0 _ _
                (get_static_field_address-Yields info.class_name info.name info.descriptor u
                  q.well_formed)
                (λ field v p known. ends (
                  perform-Runs (store value field) v p.well_formed
                    (IsKnown-le p.values_le value value_known, known))))))
