-- ===== src/Materialization/Compiler/OpCodes/Decoding.antt =====
-- The `OpCodes` that a byte selects.
use jllvm.Base.{ℕ, ◌≡◌, refl, List, [], ◌∷◌, Option, none, some, if◌then◌else◌, ◌==◌}
use jllvm.Materialization.Compiler.OpCodes.{
  OpCodes, op_code_value, nop, a_const_null, i_const_m1, i_const0, i_const1, i_const2, i_const3,
  i_const4, i_const5, l_const0, l_const1, f_const0, f_const1, f_const2, d_const0, d_const1, bi_push,
  si_push, ldc, ldcw, ldc2_w, i_load, l_load, f_load, d_load, a_load, i_load0, i_load1, i_load2,
  i_load3, l_load0, l_load1, l_load2, l_load3, f_load0, f_load1, f_load2, f_load3, d_load0, d_load1,
  d_load2, d_load3, a_load0, a_load1, a_load2, a_load3, ia_load, la_load, fa_load, da_load, aa_load,
  ba_load, ca_load, sa_load, i_store, l_store, f_store, d_store, a_store, i_store0, i_store1,
  i_store2, i_store3, l_store0, l_store1, l_store2, l_store3, f_store0, f_store1, f_store2,
  f_store3, d_store0, d_store1, d_store2, d_store3, a_store0, a_store1, a_store2, a_store3,
  ia_store, la_store, fa_store, da_store, aa_store, ba_store, ca_store, sa_store, pop, pop2, dup,
  dup_x1, dup_x2, dup2, dup2_x1, dup2_x2, swap, i_add, l_add, f_add, d_add, i_sub, l_sub, f_sub,
  d_sub, i_mul, l_mul, f_mul, d_mul, i_div, l_div, f_div, d_div, i_rem, l_rem, f_rem, d_rem, i_neg,
  l_neg, f_neg, d_neg, i_shl, l_shl, i_shr, l_shr, iu_shr, lu_shr, i_and, l_and, i_or, l_or, i_xor,
  l_xor, i_inc, i2_l, i2_f, i2_d, l2_i, l2_f, l2_d, f2_i, f2_l, f2_d, d2_i, d2_l, d2_f, i2_b, i2_c,
  i2_s, l_cmp, f_cmp_l, f_cmp_g, d_cmp_l, d_cmp_g, if_eq, if_ne, if_lt, if_ge, if_gt, if_le,
  if_i_cmp_eq, if_i_cmp_ne, if_i_cmp_lt, if_i_cmp_ge, if_i_cmp_gt, if_i_cmp_le, if_a_cmp_eq,
  if_a_cmp_ne, goto, jsr, ret, table_switch, lookup_switch, i_return, l_return, f_return, d_return,
  a_return, return, get_static, put_static, get_field, put_field, invoke_virtual, invoke_special,
  invoke_static, invoke_interface, invoke_dynamic, new, new_array, a_new_array, array_length,
  a_throw, check_cast, instance_of, monitor_enter, monitor_exit, wide, multi_a_new_array, if_null,
  if_non_null, goto_w, js_rw,
}

-- By their bytes.
abbrev pub op_codes : List OpCodes
op_codes =
    nop ∷ a_const_null ∷ i_const_m1 ∷ i_const0 ∷ i_const1 ∷ i_const2 ∷ i_const3 ∷ i_const4
    ∷ i_const5 ∷ l_const0 ∷ l_const1 ∷ f_const0 ∷ f_const1 ∷ f_const2 ∷ d_const0 ∷ d_const1
    ∷ bi_push ∷ si_push ∷ ldc ∷ ldcw ∷ ldc2_w ∷ i_load ∷ l_load ∷ f_load ∷ d_load ∷ a_load ∷ i_load0
    ∷ i_load1 ∷ i_load2 ∷ i_load3 ∷ l_load0 ∷ l_load1 ∷ l_load2 ∷ l_load3 ∷ f_load0 ∷ f_load1
    ∷ f_load2 ∷ f_load3 ∷ d_load0 ∷ d_load1 ∷ d_load2 ∷ d_load3 ∷ a_load0 ∷ a_load1 ∷ a_load2
    ∷ a_load3 ∷ ia_load ∷ la_load ∷ fa_load ∷ da_load ∷ aa_load ∷ ba_load ∷ ca_load ∷ sa_load
    ∷ i_store ∷ l_store ∷ f_store ∷ d_store ∷ a_store ∷ i_store0 ∷ i_store1 ∷ i_store2 ∷ i_store3
    ∷ l_store0 ∷ l_store1 ∷ l_store2 ∷ l_store3 ∷ f_store0 ∷ f_store1 ∷ f_store2 ∷ f_store3
    ∷ d_store0 ∷ d_store1 ∷ d_store2 ∷ d_store3 ∷ a_store0 ∷ a_store1 ∷ a_store2 ∷ a_store3
    ∷ ia_store ∷ la_store ∷ fa_store ∷ da_store ∷ aa_store ∷ ba_store ∷ ca_store ∷ sa_store ∷ pop
    ∷ pop2 ∷ dup ∷ dup_x1 ∷ dup_x2 ∷ dup2 ∷ dup2_x1 ∷ dup2_x2 ∷ swap ∷ i_add ∷ l_add ∷ f_add ∷ d_add
    ∷ i_sub ∷ l_sub ∷ f_sub ∷ d_sub ∷ i_mul ∷ l_mul ∷ f_mul ∷ d_mul ∷ i_div ∷ l_div ∷ f_div ∷ d_div
    ∷ i_rem ∷ l_rem ∷ f_rem ∷ d_rem ∷ i_neg ∷ l_neg ∷ f_neg ∷ d_neg ∷ i_shl ∷ l_shl ∷ i_shr ∷ l_shr
    ∷ iu_shr ∷ lu_shr ∷ i_and ∷ l_and ∷ i_or ∷ l_or ∷ i_xor ∷ l_xor ∷ i_inc ∷ i2_l ∷ i2_f ∷ i2_d
    ∷ l2_i ∷ l2_f ∷ l2_d ∷ f2_i ∷ f2_l ∷ f2_d ∷ d2_i ∷ d2_l ∷ d2_f ∷ i2_b ∷ i2_c ∷ i2_s ∷ l_cmp
    ∷ f_cmp_l ∷ f_cmp_g ∷ d_cmp_l ∷ d_cmp_g ∷ if_eq ∷ if_ne ∷ if_lt ∷ if_ge ∷ if_gt ∷ if_le
    ∷ if_i_cmp_eq ∷ if_i_cmp_ne ∷ if_i_cmp_lt ∷ if_i_cmp_ge ∷ if_i_cmp_gt ∷ if_i_cmp_le
    ∷ if_a_cmp_eq ∷ if_a_cmp_ne ∷ goto ∷ jsr ∷ ret ∷ table_switch ∷ lookup_switch ∷ i_return
    ∷ l_return ∷ f_return ∷ d_return ∷ a_return ∷ return ∷ get_static ∷ put_static ∷ get_field
    ∷ put_field ∷ invoke_virtual ∷ invoke_special ∷ invoke_static ∷ invoke_interface
    ∷ invoke_dynamic ∷ new ∷ new_array ∷ a_new_array ∷ array_length ∷ a_throw ∷ check_cast
    ∷ instance_of ∷ monitor_enter ∷ monitor_exit ∷ wide ∷ multi_a_new_array ∷ if_null ∷ if_non_null
    ∷ goto_w ∷ js_rw ∷ []

unfoldable pub select_op_code : ℕ → List OpCodes → Option OpCodes
unfolding op_code_value
select_op_code value [] = none
select_op_code value (op ∷ rest) =
    let later = select_op_code value rest in if op_code_value op == value then some op else later

-- Each instruction is found under its byte.
pub select_op_code-value : (op : OpCodes) → select_op_code (op_code_value op) op_codes ≡ some op
unfolding select_op_code op_code_value
select_op_code-value aa_load = refl
select_op_code-value aa_store = refl
select_op_code-value a_const_null = refl
select_op_code-value a_load = refl
select_op_code-value a_load0 = refl
select_op_code-value a_load1 = refl
select_op_code-value a_load2 = refl
select_op_code-value a_load3 = refl
select_op_code-value a_new_array = refl
select_op_code-value a_return = refl
select_op_code-value array_length = refl
select_op_code-value a_store = refl
select_op_code-value a_store0 = refl
select_op_code-value a_store1 = refl
select_op_code-value a_store2 = refl
select_op_code-value a_store3 = refl
select_op_code-value a_throw = refl
select_op_code-value ba_load = refl
select_op_code-value ba_store = refl
select_op_code-value bi_push = refl
select_op_code-value ca_load = refl
select_op_code-value ca_store = refl
select_op_code-value check_cast = refl
select_op_code-value d2_f = refl
select_op_code-value d2_i = refl
select_op_code-value d2_l = refl
select_op_code-value d_add = refl
select_op_code-value da_load = refl
select_op_code-value da_store = refl
select_op_code-value d_cmp_g = refl
select_op_code-value d_cmp_l = refl
select_op_code-value d_const0 = refl
select_op_code-value d_const1 = refl
select_op_code-value d_div = refl
select_op_code-value d_load = refl
select_op_code-value d_load0 = refl
select_op_code-value d_load1 = refl
select_op_code-value d_load2 = refl
select_op_code-value d_load3 = refl
select_op_code-value d_mul = refl
select_op_code-value d_neg = refl
select_op_code-value d_rem = refl
select_op_code-value d_return = refl
select_op_code-value d_store = refl
select_op_code-value d_store0 = refl
select_op_code-value d_store1 = refl
select_op_code-value d_store2 = refl
select_op_code-value d_store3 = refl
select_op_code-value d_sub = refl
select_op_code-value dup = refl
select_op_code-value dup_x1 = refl
select_op_code-value dup_x2 = refl
select_op_code-value dup2 = refl
select_op_code-value dup2_x1 = refl
select_op_code-value dup2_x2 = refl
select_op_code-value f2_d = refl
select_op_code-value f2_i = refl
select_op_code-value f2_l = refl
select_op_code-value f_add = refl
select_op_code-value fa_load = refl
select_op_code-value fa_store = refl
select_op_code-value f_cmp_g = refl
select_op_code-value f_cmp_l = refl
select_op_code-value f_const0 = refl
select_op_code-value f_const1 = refl
select_op_code-value f_const2 = refl
select_op_code-value f_div = refl
select_op_code-value f_load = refl
select_op_code-value f_load0 = refl
select_op_code-value f_load1 = refl
select_op_code-value f_load2 = refl
select_op_code-value f_load3 = refl
select_op_code-value f_mul = refl
select_op_code-value f_neg = refl
select_op_code-value f_rem = refl
select_op_code-value f_return = refl
select_op_code-value f_store = refl
select_op_code-value f_store0 = refl
select_op_code-value f_store1 = refl
select_op_code-value f_store2 = refl
select_op_code-value f_store3 = refl
select_op_code-value f_sub = refl
select_op_code-value get_field = refl
select_op_code-value get_static = refl
select_op_code-value goto = refl
select_op_code-value goto_w = refl
select_op_code-value i2_b = refl
select_op_code-value i2_c = refl
select_op_code-value i2_d = refl
select_op_code-value i2_f = refl
select_op_code-value i2_l = refl
select_op_code-value i2_s = refl
select_op_code-value i_add = refl
select_op_code-value ia_load = refl
select_op_code-value i_and = refl
select_op_code-value ia_store = refl
select_op_code-value i_const_m1 = refl
select_op_code-value i_const0 = refl
select_op_code-value i_const1 = refl
select_op_code-value i_const2 = refl
select_op_code-value i_const3 = refl
select_op_code-value i_const4 = refl
select_op_code-value i_const5 = refl
select_op_code-value i_div = refl
select_op_code-value if_a_cmp_eq = refl
select_op_code-value if_a_cmp_ne = refl
select_op_code-value if_i_cmp_eq = refl
select_op_code-value if_i_cmp_ne = refl
select_op_code-value if_i_cmp_lt = refl
select_op_code-value if_i_cmp_ge = refl
select_op_code-value if_i_cmp_gt = refl
select_op_code-value if_i_cmp_le = refl
select_op_code-value if_eq = refl
select_op_code-value if_ne = refl
select_op_code-value if_lt = refl
select_op_code-value if_ge = refl
select_op_code-value if_gt = refl
select_op_code-value if_le = refl
select_op_code-value if_non_null = refl
select_op_code-value if_null = refl
select_op_code-value i_inc = refl
select_op_code-value i_load = refl
select_op_code-value i_load0 = refl
select_op_code-value i_load1 = refl
select_op_code-value i_load2 = refl
select_op_code-value i_load3 = refl
select_op_code-value i_mul = refl
select_op_code-value i_neg = refl
select_op_code-value instance_of = refl
select_op_code-value invoke_dynamic = refl
select_op_code-value invoke_interface = refl
select_op_code-value invoke_special = refl
select_op_code-value invoke_static = refl
select_op_code-value invoke_virtual = refl
select_op_code-value i_or = refl
select_op_code-value i_rem = refl
select_op_code-value i_return = refl
select_op_code-value i_shl = refl
select_op_code-value i_shr = refl
select_op_code-value i_store = refl
select_op_code-value i_store0 = refl
select_op_code-value i_store1 = refl
select_op_code-value i_store2 = refl
select_op_code-value i_store3 = refl
select_op_code-value i_sub = refl
select_op_code-value iu_shr = refl
select_op_code-value i_xor = refl
select_op_code-value jsr = refl
select_op_code-value js_rw = refl
select_op_code-value l2_d = refl
select_op_code-value l2_f = refl
select_op_code-value l2_i = refl
select_op_code-value l_add = refl
select_op_code-value la_load = refl
select_op_code-value l_and = refl
select_op_code-value la_store = refl
select_op_code-value l_cmp = refl
select_op_code-value l_const0 = refl
select_op_code-value l_const1 = refl
select_op_code-value ldc = refl
select_op_code-value ldcw = refl
select_op_code-value ldc2_w = refl
select_op_code-value l_div = refl
select_op_code-value l_load = refl
select_op_code-value l_load0 = refl
select_op_code-value l_load1 = refl
select_op_code-value l_load2 = refl
select_op_code-value l_load3 = refl
select_op_code-value l_mul = refl
select_op_code-value l_neg = refl
select_op_code-value lookup_switch = refl
select_op_code-value l_or = refl
select_op_code-value l_rem = refl
select_op_code-value l_return = refl
select_op_code-value l_shl = refl
select_op_code-value l_shr = refl
select_op_code-value l_store = refl
select_op_code-value l_store0 = refl
select_op_code-value l_store1 = refl
select_op_code-value l_store2 = refl
select_op_code-value l_store3 = refl
select_op_code-value l_sub = refl
select_op_code-value lu_shr = refl
select_op_code-value l_xor = refl
select_op_code-value monitor_enter = refl
select_op_code-value monitor_exit = refl
select_op_code-value multi_a_new_array = refl
select_op_code-value new = refl
select_op_code-value new_array = refl
select_op_code-value nop = refl
select_op_code-value pop = refl
select_op_code-value pop2 = refl
select_op_code-value put_field = refl
select_op_code-value put_static = refl
select_op_code-value ret = refl
select_op_code-value return = refl
select_op_code-value sa_load = refl
select_op_code-value sa_store = refl
select_op_code-value si_push = refl
select_op_code-value swap = refl
select_op_code-value table_switch = refl
select_op_code-value wide = refl
