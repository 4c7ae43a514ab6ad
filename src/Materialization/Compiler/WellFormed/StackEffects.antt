-- ===== src/Materialization/Compiler/WellFormed/StackEffects.antt =====
-- How many values an instruction takes and pushes.
use jllvm.Base.{ℕ, true, false, List, Outcome, ok, fails, unreachable}
use jllvm.Class.ClassFile.Constants.{ConstantPoolInfo}
use jllvm.Materialization.Compiler.OpCodes.{
  OpCodes, aa_load, aa_store, a_const_null, a_load, a_load0, a_load1, a_load2, a_load3, a_new_array,
  a_return, array_length, a_store, a_store0, a_store1, a_store2, a_store3, dup, get_field,
  get_static, goto, new, i_const_m1, i_const0, i_const1, i_const2, i_const3, i_const4, i_const5,
  i_load, i_load0, i_load1, i_load2, i_load3, if_i_cmp_ge, i_inc, invoke_static, invoke_special,
  i_store, i_store0, i_store1, i_store2, i_store3, ldc, put_field, put_static, pop, return,
}
use jllvm.Materialization.Compiler.WellFormed.Calls.{call_effect}

-- The values that are taken and pushed, given the bytes behind the instruction.
unfoldable pub stack_effect : List ConstantPoolInfo → List ℕ → OpCodes → Outcome (ℕ × ℕ)
unfolding call_effect
stack_effect pool bytes aa_load = ok (2, 1)
stack_effect pool bytes aa_store = ok (3, 0)
stack_effect pool bytes a_const_null = ok (0, 1)
stack_effect pool bytes a_load = ok (0, 1)
stack_effect pool bytes a_load0 = ok (0, 1)
stack_effect pool bytes a_load1 = ok (0, 1)
stack_effect pool bytes a_load2 = ok (0, 1)
stack_effect pool bytes a_load3 = ok (0, 1)
stack_effect pool bytes a_new_array = ok (1, 1)
stack_effect pool bytes a_return = ok (1, 0)
stack_effect pool bytes array_length = ok (1, 1)
stack_effect pool bytes a_store = ok (1, 0)
stack_effect pool bytes a_store0 = ok (1, 0)
stack_effect pool bytes a_store1 = ok (1, 0)
stack_effect pool bytes a_store2 = ok (1, 0)
stack_effect pool bytes a_store3 = ok (1, 0)
stack_effect pool bytes dup = ok (1, 2)
stack_effect pool bytes get_field = ok (1, 1)
stack_effect pool bytes get_static = ok (0, 1)
stack_effect pool bytes goto = ok (0, 0)
stack_effect pool bytes new = ok (0, 1)
stack_effect pool bytes i_const_m1 = ok (0, 1)
stack_effect pool bytes i_const0 = ok (0, 1)
stack_effect pool bytes i_const1 = ok (0, 1)
stack_effect pool bytes i_const2 = ok (0, 1)
stack_effect pool bytes i_const3 = ok (0, 1)
stack_effect pool bytes i_const4 = ok (0, 1)
stack_effect pool bytes i_const5 = ok (0, 1)
stack_effect pool bytes i_load = ok (0, 1)
stack_effect pool bytes i_load0 = ok (0, 1)
stack_effect pool bytes i_load1 = ok (0, 1)
stack_effect pool bytes i_load2 = ok (0, 1)
stack_effect pool bytes i_load3 = ok (0, 1)
stack_effect pool bytes if_i_cmp_ge = ok (2, 0)
stack_effect pool bytes i_inc = ok (0, 0)
stack_effect pool bytes invoke_static = call_effect true pool bytes
stack_effect pool bytes invoke_special = call_effect false pool bytes
stack_effect pool bytes i_store = ok (1, 0)
stack_effect pool bytes i_store0 = ok (1, 0)
stack_effect pool bytes i_store1 = ok (1, 0)
stack_effect pool bytes i_store2 = ok (1, 0)
stack_effect pool bytes i_store3 = ok (1, 0)
stack_effect pool bytes ldc = ok (0, 1)
stack_effect pool bytes put_field = ok (2, 0)
stack_effect pool bytes put_static = ok (1, 0)
stack_effect pool bytes pop = ok (1, 0)
stack_effect pool bytes return = ok (0, 0)
stack_effect pool bytes _ = fails unreachable
