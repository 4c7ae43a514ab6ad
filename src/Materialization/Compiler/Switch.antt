-- ===== src/Materialization/Compiler/Switch.antt =====
-- src/jllvm/materialization/ByteCodeCompileLayer.cpp: the loop of `codeGenBody` and its `switch`.
use jllvm.Base.{
  ℕ, zero, suc, ◌-◌, ◌%◌, ◌^◌, true, false, [], ◌∷◌, none, some, Outcome, ok, fails, unreachable,
  out_of_fuel, ◌>>=◌,
}
use jllvm.Object.ClassObject.{Alignment}
use jllvm.Materialization.Types.{IrType, int_type, reference}
use jllvm.Materialization.Compiler.OpCodes.{
  OpCodes, aa_load, aa_store, a_const_null, a_load, a_load0, a_load1, a_load2, a_load3, a_new_array,
  a_return, array_length, a_store, a_store0, a_store1, a_store2, a_store3, dup, get_field,
  get_static, goto, new, i_const_m1, i_const0, i_const1, i_const2, i_const3, i_const4, i_const5,
  i_load, i_load0, i_load1, i_load2, i_load3, if_i_cmp_ge, i_inc, invoke_static, invoke_special,
  i_store, i_store0, i_store1, i_store2, i_store3, ldc, put_field, put_static, pop, return,
}
use jllvm.Materialization.Compiler.OpCodes.Decoding.{op_codes, select_op_code}
use jllvm.Materialization.Compiler.Function.{null_reference, ret_void, instructions_of}
use jllvm.Materialization.Compiler.State.{
  Context, State, lookup, push, operand, current_offset, start_handler, end_handler,
  note_insert_point, set_insert_point,
}
use jllvm.Materialization.Compiler.Steps.{
  perform, int32, step_aa_load, step_aa_store, load_local, store_local, step_a_new_array,
  step_a_return, step_array_length, step_dup, step_get_field, step_get_static, step_goto, step_new,
  step_if_i_cmp_ge, step_i_inc, step_invoke, step_ldc, step_put_field, step_put_static, step_pop,
}

-- The handlers and the block that start at an offset, by its key in the maps.
unfoldable pub enter_offset : Context → ℕ → State → Outcome State
unfolding lookup start_handler end_handler set_insert_point
enter_offset context key s = do
  active ←
      end_handler (lookup key context.end_handlers)
        (start_handler (lookup key context.start_handlers) s.active_handlers)
  ok (set_insert_point (lookup key s.basic_blocks) (record s { active_handlers = active }))

-- The part of the loop before the instruction is read.
unfoldable pub begin_instruction : Context → State → Outcome State
unfolding current_offset note_insert_point instructions_of enter_offset
begin_instruction context s =
    let offset = current_offset context s in
    enter_offset context (offset % 2 ^ 16)
      (note_insert_point offset (instructions_of s.builder.insert_block s.builder.blocks) s)

-- `ALoad` and `ILoad`, `AStore` and `IStore`, with the index behind them.
unfoldable pub load_indexed : Context → IrType → State → Outcome State
unfolding operand load_local
load_indexed context type s = do (index, s) ← operand 1 s; load_local context type index s

unfoldable pub store_indexed : Context → State → Outcome State
unfolding operand store_local
store_indexed context s = do (index, s) ← operand 1 s; store_local context index s

module _ (alignment : Alignment) (context : Context) where
  -- The `switch`, for the instruction that was read at an offset.
  unfoldable pub step : OpCodes → ℕ → State → Outcome State
  unfolding step_aa_load step_aa_store load_local store_local step_a_new_array step_a_return
      step_array_length step_dup step_get_field step_get_static step_goto step_new step_if_i_cmp_ge
      step_i_inc step_invoke step_ldc step_put_field step_put_static step_pop push perform int32
      load_indexed store_indexed
  step aa_load offset s = step_aa_load s
  step aa_store offset s = step_aa_store s
  step a_const_null offset s = ok (push null_reference s)
  step a_load offset s = load_indexed context reference s
  step a_load0 offset s = load_local context reference 0 s
  step a_load1 offset s = load_local context reference 1 s
  step a_load2 offset s = load_local context reference 2 s
  step a_load3 offset s = load_local context reference 3 s
  step a_new_array offset s = step_a_new_array alignment context s
  step a_return offset s = step_a_return s
  step array_length offset s = step_array_length s
  step a_store offset s = store_indexed context s
  step a_store0 offset s = store_local context 0 s
  step a_store1 offset s = store_local context 1 s
  step a_store2 offset s = store_local context 2 s
  step a_store3 offset s = store_local context 3 s
  step dup offset s = step_dup s
  step get_field offset s = step_get_field context s
  step get_static offset s = step_get_static context s
  step goto offset s = step_goto offset s
  step new offset s = step_new context s
  step i_const_m1 offset s = ok (push (int32 (2 ^ 32 - 1)) s)
  step i_const0 offset s = ok (push (int32 0) s)
  step i_const1 offset s = ok (push (int32 1) s)
  step i_const2 offset s = ok (push (int32 2) s)
  step i_const3 offset s = ok (push (int32 3) s)
  step i_const4 offset s = ok (push (int32 4) s)
  step i_const5 offset s = ok (push (int32 5) s)
  step i_load offset s = load_indexed context (int_type 32) s
  step i_load0 offset s = load_local context (int_type 32) 0 s
  step i_load1 offset s = load_local context (int_type 32) 1 s
  step i_load2 offset s = load_local context (int_type 32) 2 s
  step i_load3 offset s = load_local context (int_type 32) 3 s
  step if_i_cmp_ge offset s = step_if_i_cmp_ge context offset s
  step i_inc offset s = step_i_inc context s
  step invoke_static offset s = step_invoke true context s
  step invoke_special offset s = step_invoke false context s
  step i_store offset s = store_indexed context s
  step i_store0 offset s = store_local context 0 s
  step i_store1 offset s = store_local context 1 s
  step i_store2 offset s = store_local context 2 s
  step i_store3 offset s = store_local context 3 s
  step ldc offset s = step_ldc context s
  step put_field offset s = step_put_field context s
  step put_static offset s = step_put_static context s
  step pop offset s = step_pop s
  step return offset s = ok (perform ret_void s)
  step _ offset s = fails unreachable

  -- One round of the loop.
  unfoldable pub generate_instruction : State → Outcome State
  unfolding begin_instruction operand select_op_code step current_offset
  generate_instruction s = do
    let offset = current_offset context s
    s ← begin_instruction context s
    (value, s) ← operand 1 s
    elim (select_op_code value op_codes) [ none ↦ fails unreachable | some op ↦ step op offset s ]

  -- The loop. Each round reads a byte at least, so the size of the code bounds the rounds.
  unfoldable pub generate : ℕ → State → Outcome State
  unfolding generate_instruction
  generate zero s = elim s.current [ [] ↦ ok s | b ∷ rest ↦ fails out_of_fuel ]
  generate (suc fuel) s = elim s.current [
    | [] ↦ ok s
    | b ∷ rest ↦ do s ← generate_instruction s; generate fuel s
  ]
