-- ===== src/Materialization/Compiler/OpCodes.antt =====
-- src/jllvm/materialization/ByteCodeCompileLayer.cpp: the `OpCodes` and the byte of each, in the
-- order of the enumeration.
pub mod Decoding
use jllvm.Base.{ℕ, List, [], ◌∷◌}

pub data OpCodes : Type 0 where
  aa_load aa_store a_const_null a_load a_load0 a_load1 a_load2 a_load3 : OpCodes
  a_new_array a_return array_length a_store a_store0 a_store1 a_store2 a_store3 : OpCodes
  a_throw ba_load ba_store bi_push ca_load ca_store check_cast d2_f : OpCodes
  d2_i d2_l d_add da_load da_store d_cmp_g d_cmp_l d_const0 : OpCodes
  d_const1 d_div d_load d_load0 d_load1 d_load2 d_load3 d_mul : OpCodes
  d_neg d_rem d_return d_store d_store0 d_store1 d_store2 d_store3 : OpCodes
  d_sub dup dup_x1 dup_x2 dup2 dup2_x1 dup2_x2 f2_d : OpCodes
  f2_i f2_l f_add fa_load fa_store f_cmp_g f_cmp_l f_const0 : OpCodes
  f_const1 f_const2 f_div f_load f_load0 f_load1 f_load2 f_load3 : OpCodes
  f_mul f_neg f_rem f_return f_store f_store0 f_store1 f_store2 : OpCodes
  f_store3 f_sub get_field get_static goto goto_w i2_b i2_c : OpCodes
  i2_d i2_f i2_l i2_s i_add ia_load i_and ia_store : OpCodes
  i_const_m1 i_const0 i_const1 i_const2 i_const3 i_const4 i_const5 i_div : OpCodes
  if_a_cmp_eq if_a_cmp_ne if_i_cmp_eq if_i_cmp_ne if_i_cmp_lt if_i_cmp_ge if_i_cmp_gt if_i_cmp_le :
      OpCodes
  if_eq if_ne if_lt if_ge if_gt if_le if_non_null if_null : OpCodes
  i_inc i_load i_load0 i_load1 i_load2 i_load3 i_mul i_neg : OpCodes
  instance_of invoke_dynamic invoke_interface invoke_special invoke_static invoke_virtual i_or
        i_rem :
      OpCodes
  i_return i_shl i_shr i_store i_store0 i_store1 i_store2 i_store3 : OpCodes
  i_sub iu_shr i_xor jsr js_rw l2_d l2_f l2_i : OpCodes
  l_add la_load l_and la_store l_cmp l_const0 l_const1 ldc : OpCodes
  ldcw ldc2_w l_div l_load l_load0 l_load1 l_load2 l_load3 : OpCodes
  l_mul l_neg lookup_switch l_or l_rem l_return l_shl l_shr : OpCodes
  l_store l_store0 l_store1 l_store2 l_store3 l_sub lu_shr l_xor : OpCodes
  monitor_enter monitor_exit multi_a_new_array new new_array nop pop pop2 : OpCodes
  put_field put_static ret return sa_load sa_store si_push swap : OpCodes
  table_switch wide : OpCodes

unfoldable pub op_code_value : OpCodes → ℕ
op_code_value aa_load = 50
op_code_value aa_store = 83
op_code_value a_const_null = 1
op_code_value a_load = 25
op_code_value a_load0 = 42
op_code_value a_load1 = 43
op_code_value a_load2 = 44
op_code_value a_load3 = 45
op_code_value a_new_array = 189
op_code_value a_return = 176
op_code_value array_length = 190
op_code_value a_store = 58
op_code_value a_store0 = 75
op_code_value a_store1 = 76
op_code_value a_store2 = 77
op_code_value a_store3 = 78
op_code_value a_throw = 191
op_code_value ba_load = 51
op_code_value ba_store = 84
op_code_value bi_push = 16
op_code_value ca_load = 52
op_code_value ca_store = 85
op_code_value check_cast = 192
op_code_value d2_f = 144
op_code_value d2_i = 142
op_code_value d2_l = 143
op_code_value d_add = 99
op_code_value da_load = 49
op_code_value da_store = 82
op_code_value d_cmp_g = 152
op_code_value d_cmp_l = 151
op_code_value d_const0 = 14
op_code_value d_const1 = 15
op_code_value d_div = 111
op_code_value d_load = 24
op_code_value d_load0 = 38
op_code_value d_load1 = 39
op_code_value d_load2 = 40
op_code_value d_load3 = 41
op_code_value d_mul = 107
op_code_value d_neg = 119
op_code_value d_rem = 115
op_code_value d_return = 175
op_code_value d_store = 57
op_code_value d_store0 = 71
op_code_value d_store1 = 72
op_code_value d_store2 = 73
op_code_value d_store3 = 74
op_code_value d_sub = 103
op_code_value dup = 89
op_code_value dup_x1 = 90
op_code_value dup_x2 = 91
op_code_value dup2 = 92
op_code_value dup2_x1 = 93
op_code_value dup2_x2 = 94
op_code_value f2_d = 141
op_code_value f2_i = 139
op_code_value f2_l = 140
op_code_value f_add = 98
op_code_value fa_load = 48
op_code_value fa_store = 81
op_code_value f_cmp_g = 150
op_code_value f_cmp_l = 149
op_code_value f_const0 = 11
op_code_value f_const1 = 12
op_code_value f_const2 = 13
op_code_value f_div = 110
op_code_value f_load = 23
op_code_value f_load0 = 34
op_code_value f_load1 = 35
op_code_value f_load2 = 36
op_code_value f_load3 = 37
op_code_value f_mul = 106
op_code_value f_neg = 118
op_code_value f_rem = 114
op_code_value f_return = 174
op_code_value f_store = 56
op_code_value f_store0 = 67
op_code_value f_store1 = 68
op_code_value f_store2 = 69
op_code_value f_store3 = 70
op_code_value f_sub = 102
op_code_value get_field = 180
op_code_value get_static = 178
op_code_value goto = 167
op_code_value goto_w = 200
op_code_value i2_b = 145
op_code_value i2_c = 146
op_code_value i2_d = 135
op_code_value i2_f = 134
op_code_value i2_l = 133
op_code_value i2_s = 147
op_code_value i_add = 96
op_code_value ia_load = 46
op_code_value i_and = 126
op_code_value ia_store = 79
op_code_value i_const_m1 = 2
op_code_value i_const0 = 3
op_code_value i_const1 = 4
op_code_value i_const2 = 5
op_code_value i_const3 = 6
op_code_value i_const4 = 7
op_code_value i_const5 = 8
op_code_value i_div = 108
op_code_value if_a_cmp_eq = 165
op_code_value if_a_cmp_ne = 166
op_code_value if_i_cmp_eq = 159
op_code_value if_i_cmp_ne = 160
op_code_value if_i_cmp_lt = 161
op_code_value if_i_cmp_ge = 162
op_code_value if_i_cmp_gt = 163
op_code_value if_i_cmp_le = 164
op_code_value if_eq = 153
op_code_value if_ne = 154
op_code_value if_lt = 155
op_code_value if_ge = 156
op_code_value if_gt = 157
op_code_value if_le = 158
op_code_value if_non_null = 199
op_code_value if_null = 198
op_code_value i_inc = 132
op_code_value i_load = 21
op_code_value i_load0 = 26
op_code_value i_load1 = 27
op_code_value i_load2 = 28
op_code_value i_load3 = 29
op_code_value i_mul = 104
op_code_value i_neg = 116
op_code_value instance_of = 193
op_code_value invoke_dynamic = 186
op_code_value invoke_interface = 185
op_code_value invoke_special = 183
op_code_value invoke_static = 184
op_code_value invoke_virtual = 182
op_code_value i_or = 128
op_code_value i_rem = 112
op_code_value i_return = 172
op_code_value i_shl = 120
op_code_value i_shr = 122
op_code_value i_store = 54
op_code_value i_store0 = 59
op_code_value i_store1 = 60
op_code_value i_store2 = 61
op_code_value i_store3 = 62
op_code_value i_sub = 100
op_code_value iu_shr = 124
op_code_value i_xor = 130
op_code_value jsr = 168
op_code_value js_rw = 201
op_code_value l2_d = 138
op_code_value l2_f = 137
op_code_value l2_i = 136
op_code_value l_add = 97
op_code_value la_load = 47
op_code_value l_and = 127
op_code_value la_store = 80
op_code_value l_cmp = 148
op_code_value l_const0 = 9
op_code_value l_const1 = 10
op_code_value ldc = 18
op_code_value ldcw = 19
op_code_value ldc2_w = 20
op_code_value l_div = 109
op_code_value l_load = 22
op_code_value l_load0 = 30
op_code_value l_load1 = 31
op_code_value l_load2 = 32
op_code_value l_load3 = 33
op_code_value l_mul = 105
op_code_value l_neg = 117
op_code_value lookup_switch = 171
op_code_value l_or = 129
op_code_value l_rem = 113
op_code_value l_return = 173
op_code_value l_shl = 121
op_code_value l_shr = 123
op_code_value l_store = 55
op_code_value l_store0 = 63
op_code_value l_store1 = 64
op_code_value l_store2 = 65
op_code_value l_store3 = 66
op_code_value l_sub = 101
op_code_value lu_shr = 125
op_code_value l_xor = 131
op_code_value monitor_enter = 194
op_code_value monitor_exit = 195
op_code_value multi_a_new_array = 197
op_code_value new = 187
op_code_value new_array = 188
op_code_value nop = 0
op_code_value pop = 87
op_code_value pop2 = 88
op_code_value put_field = 181
op_code_value put_static = 179
op_code_value ret = 169
op_code_value return = 177
op_code_value sa_load = 53
op_code_value sa_store = 86
op_code_value si_push = 17
op_code_value swap = 95
op_code_value table_switch = 170
op_code_value wide = 196
