-- ===== src/Materialization/Compiler/Steps.antt =====
-- src/jllvm/materialization/ByteCodeCompileLayer.cpp: the cases of the `switch` in `codeGenBody`, one
-- function for each instruction or group of instructions that differ in an index or a type.
pub mod CallOrder
use jllvm.Base.{
  ℕ, zero, suc, ◌+◌, ◌-◌, ◌*◌, ◌%◌, ◌^◌, Bool, true, false, not, List, [], ◌∷◌, ◌++◌, Option, none,
  some, if◌then◌else◌, ltb, length, Outcome, ok, fails, unreachable, ◌>>=◌,
}
use jllvm.Class.Descriptors.{
  FieldType, base, void, MethodType, parse_field_type, parse_method_type, field_type_eq,
}
use jllvm.Object.ClassObject.{pointer_size, Alignment}
use jllvm.Materialization.Types.{
  IrType, int_type, reference, FunctionType, descriptor_to_type, method_to_type,
}
use jllvm.Materialization.Compiler.Function.{
  Value, int_constant, null_reference, function_symbol, Operation, load, store, element_address,
  length_address, byte_address, icmp_sge, call, ret, ret_void, br, cond_br,
}
use jllvm.Materialization.Compiler.State.{
  Context, State, push, pop_value, create, operand, current_offset, get_local, add_basic_block,
}
use jllvm.Materialization.Compiler.Pool.{
  RefInfo, resolve_class_name, resolve_field_ref, resolve_ref, resolve_constant,
}
use jllvm.Materialization.Compiler.Lazy.{
  get_or_insert_function, get_instance_field_offset, get_static_field_address, get_class_object,
  get_non_virtual_callee,
}

-- An operation whose result is not used.
unfoldable pub perform : Operation → State → State
unfolding create
perform operation s = let (value, s) = create operation s in s

-- An operation whose result is pushed.
unfoldable pub push_result : Operation → State → State
unfolding create push
push_result operation s = let (value, s) = create operation s in push value s

-- `getInt32`
unfoldable pub int32 : ℕ → Value
int32 n = int_constant 32 (n % 2 ^ 32)

unfoldable pub step_aa_load : State → Outcome State
unfolding pop_value create push_result
step_aa_load s = do
  (index, s) ← pop_value s
  (array, s) ← pop_value s
  let (gep, s) = create (element_address reference array index) s
  ok (push_result (load reference gep) s)

unfoldable pub step_aa_store : State → Outcome State
unfolding pop_value create perform
step_aa_store s = do
  (value, s) ← pop_value s
  (index, s) ← pop_value s
  (array, s) ← pop_value s
  let (gep, s) = create (element_address reference array index) s
  ok (perform (store value gep) s)

-- `ALoad` and `ILoad` with their short forms, behind the index.
unfoldable pub load_local : Context → IrType → ℕ → State → Outcome State
unfolding get_local push_result
load_local context type index s = do
  local ← get_local context index
  ok (push_result (load type local) s)

-- `AStore` and `IStore` with their short forms, behind the index.
unfoldable pub store_local : Context → ℕ → State → Outcome State
unfolding get_local pop_value perform
store_local context index s = do
  (value, s) ← pop_value s
  local ← get_local context index
  ok (perform (store value local) s)

-- "jllvm_gc_alloc"
abbrev pub gc_alloc : List ℕ
gc_alloc =
    b'j' ∷ b'l' ∷ b'l' ∷ b'v' ∷ b'm' ∷ b'_' ∷ b'g' ∷ b'c' ∷ b'_' ∷ b'a' ∷ b'l' ∷ b'l' ∷ b'o' ∷ b'c'
    ∷ []

abbrev pub gc_alloc_type : FunctionType
gc_alloc_type = record { return_type = reference; parameters = int_type 32 ∷ [] }

-- `create`, as a part that others follow.
unfoldable pub build : Operation → State → Outcome (Value × State)
unfolding create
build operation s = ok (create operation s)

-- The call of `allocationFunction`.
unfoldable pub allocate : Value → State → Outcome (Value × State)
unfolding build get_or_insert_function
allocate size s =
    build (call gc_alloc_type (function_symbol gc_alloc) (size ∷ []))
      (get_or_insert_function gc_alloc gc_alloc_type s)

module _ (alignment : Alignment) where
  open alignment use {align_to}

  unfoldable pub step_a_new_array : Context → State → Outcome State
  unfolding operand resolve_class_name pop_value get_class_object build allocate perform push int32
  step_a_new_array context s = do
    (index, s) ← operand 2 s
    (count, s) ← pop_value s
    name ← resolve_class_name context.pool index
    (class, s) ← get_class_object context (b'[' ∷ b'L' ∷ (name ++ b';' ∷ [])) s
    (elements, s) ← build (Operation.mul count (int32 pointer_size)) s
    (bytes_needed, s) ←
        build (Operation.add (int32 (align_to (pointer_size + 4) pointer_size)) elements) s
    (object, s) ← allocate bytes_needed s
    (header, s) ← build (store class object) s
    (gep, s) ← build (length_address reference object) s
    ok (push object (perform (store count gep) s))

unfoldable pub step_a_return : State → Outcome State
unfolding pop_value perform
step_a_return s = do (value, s) ← pop_value s; ok (perform (ret value) s)

unfoldable pub step_array_length : State → Outcome State
unfolding pop_value create push_result
step_array_length s = do
  (array, s) ← pop_value s
  let (gep, s) = create (length_address reference array) s
  ok (push_result (load (int_type 32) gep) s)

unfoldable pub step_dup : State → Outcome State
unfolding pop_value push
step_dup s = do (value, rest) ← pop_value s; ok (push value s)

unfoldable pub step_get_field : Context → State → Outcome State
unfolding operand resolve_field_ref parse_field_type descriptor_to_type pop_value
    get_instance_field_offset create push_result
step_get_field context s = do
  (index, s) ← operand 2 s
  info ← resolve_field_ref context.pool index
  type ← parse_field_type info.descriptor
  (object, s) ← pop_value s
  (at, s) ← get_instance_field_offset context info.class_name info.name info.descriptor s
  let (field, s) = create (byte_address object at) s
  ok (push_result (load (descriptor_to_type type) field) s)

unfoldable pub step_get_static : Context → State → Outcome State
unfolding operand resolve_field_ref parse_field_type descriptor_to_type get_static_field_address
    push_result
step_get_static context s = do
  (index, s) ← operand 2 s
  info ← resolve_field_ref context.pool index
  (field, s) ← get_static_field_address context info.class_name info.name info.descriptor s
  type ← parse_field_type info.descriptor
  ok (push_result (load (descriptor_to_type type) field) s)

-- The sum is cut to a `uint16_t`, so the bits of the `int16_t` will do.
unfoldable pub step_goto : ℕ → State → Outcome State
unfolding operand add_basic_block perform
step_goto offset s = do
  (target, s) ← operand 2 s
  (block, s) ← add_basic_block offset ((target + offset) % 2 ^ 16) s
  ok (perform (br block) s)

unfoldable pub step_new : Context → State → Outcome State
unfolding operand resolve_class_name get_class_object build allocate perform push int32
step_new context s = do
  (index, s) ← operand 2 s
  name ← resolve_class_name context.pool index
  (class, s) ← get_class_object context (b'L' ∷ (name ++ b';' ∷ [])) s
  (size, s) ← build (load (int_type 32) class) s
  (size, s) ← build (Operation.add size (int32 pointer_size)) s
  (object, s) ← allocate size s
  ok (push object (perform (store class object) s))

unfoldable pub step_if_i_cmp_ge : Context → ℕ → State → Outcome State
unfolding operand add_basic_block pop_value create perform current_offset
step_if_i_cmp_ge context offset s = do
  (target, s) ← operand 2 s
  (basic_block, s) ← add_basic_block offset ((target + offset) % 2 ^ 16) s
  (next, s) ← add_basic_block offset (current_offset context s % 2 ^ 16) s
  (rhs, s) ← pop_value s
  (lhs, s) ← pop_value s
  let (cond, s) = create (icmp_sge lhs rhs) s
  ok (perform (cond_br cond basic_block next) s)

-- The bits of a signed number of `from` bits in `to` bits.
unfoldable pub sign_extend : ℕ → ℕ → ℕ → ℕ
sign_extend from to n = if ltb n (2 ^ (from - 1)) then n else n + 2 ^ to - 2 ^ from

unfoldable pub step_i_inc : Context → State → Outcome State
unfolding operand get_local create perform int32 sign_extend
step_i_inc context s = do
  (index, s) ← operand 1 s
  (constant, s) ← operand 1 s
  local ← get_local context index
  let (value, s) = create (load (int_type 32) local) s
  let (sum, s) = create (Operation.add value (int32 (sign_extend 8 32 constant))) s
  ok (perform (store sum local) s)

-- The loop that fills `args` from the last to the first.
unfoldable pub pop_arguments : ℕ → List Value → State → Outcome (List Value × State)
unfolding pop_value
pop_arguments zero args s = ok (args, s)
pop_arguments (suc n) args s = do (value, s) ← pop_value s; pop_arguments n (value ∷ args) s

unfoldable pub step_invoke : Bool → Context → State → Outcome State
unfolding operand resolve_ref parse_method_type pop_arguments get_non_virtual_callee method_to_type
    create push field_type_eq
step_invoke is_static context s = do
  (index, s) ← operand 2 s
  info ← resolve_ref context.pool index
  descriptor ← parse_method_type info.descriptor
  (args, s) ← pop_arguments (length descriptor.parameters + (if is_static then 0 else 1)) [] s
  (callee, s) ← get_non_virtual_callee context is_static info.class_name info.name info.descriptor s
  let (returned, s) = create (call (method_to_type descriptor is_static) callee args) s
  ok (if not (field_type_eq descriptor.return_type (base void)) then push returned s else s)

unfoldable pub step_ldc : Context → State → Outcome State
unfolding operand resolve_constant push int32
step_ldc context s = do
  (index, s) ← operand 1 s
  value ← resolve_constant context.pool index
  ok (push (int32 value) s)

unfoldable pub step_put_field : Context → State → Outcome State
unfolding operand resolve_field_ref pop_value get_instance_field_offset create perform
step_put_field context s = do
  (index, s) ← operand 2 s
  info ← resolve_field_ref context.pool index
  (value, s) ← pop_value s
  (object, s) ← pop_value s
  (at, s) ← get_instance_field_offset context info.class_name info.name info.descriptor s
  let (field, s) = create (byte_address object at) s
  ok (perform (store value field) s)

unfoldable pub step_put_static : Context → State → Outcome State
unfolding operand resolve_field_ref pop_value get_static_field_address perform
step_put_static context s = do
  (index, s) ← operand 2 s
  info ← resolve_field_ref context.pool index
  (value, s) ← pop_value s
  (field, s) ← get_static_field_address context info.class_name info.name info.descriptor s
  ok (perform (store value field) s)

unfoldable pub step_pop : State → Outcome State
unfolding pop_value
step_pop s = do (value, s) ← pop_value s; ok s
