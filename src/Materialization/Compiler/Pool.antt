-- ===== src/Materialization/Compiler/Pool.antt =====
-- src/jllvm/class/ClassFile.hpp: resolving the references of an instruction in the constant pool.
use jllvm.Base.{
  ℕ, zero, suc, List, none, some, get_elem?, Outcome, ok, fails, assertion, fatal, unreachable,
  ◌>>=◌,
}
use jllvm.Class.ClassFile.Constants.{
  ConstantPoolInfo, class_info, string_info, method_type_info, field_ref_info, method_ref_info,
  interface_method_ref_info, integer_info, float_info, name_and_type_info, dynamic_info,
  resolve_utf8, resolve_class,
}

-- `RefInfo`, with the three texts that an instruction reads through it.
pub record RefInfo : Type 0 where
  pub class_name : List ℕ
  pub name : List ℕ
  pub descriptor : List ℕ

unfoldable pub pool_entry : List ConstantPoolInfo → ℕ → Outcome ConstantPoolInfo
pool_entry pool zero = fails assertion
pool_entry pool (suc i) = elim (get_elem? pool i) [ none ↦ fails assertion | some info ↦ ok info ]

-- `PoolIndex<ClassInfo>`, and the text of the name.
unfoldable pub resolve_class_name : List ConstantPoolInfo → ℕ → Outcome (List ℕ)
unfolding resolve_class resolve_utf8
resolve_class_name pool index = do
  name_index ← resolve_class pool index
  resolve_utf8 pool name_index

unfoldable pub resolve_name_and_type : List ConstantPoolInfo → ℕ → Outcome (ℕ × ℕ)
unfolding pool_entry
resolve_name_and_type pool index = do
  info ← pool_entry pool index
  elim info [ name_and_type_info name descriptor ↦ ok (name, descriptor) | _ ↦ fails unreachable ]

unfoldable pub resolve_texts : List ConstantPoolInfo → ℕ → ℕ → Outcome RefInfo
unfolding resolve_class_name resolve_name_and_type resolve_utf8
resolve_texts pool class_index name_and_type_index = do
  (name_index, descriptor_index) ← resolve_name_and_type pool name_and_type_index
  descriptor ← resolve_utf8 pool descriptor_index
  class_name ← resolve_class_name pool class_index
  name ← resolve_utf8 pool name_index
  ok (record { class_name = class_name; name = name; descriptor = descriptor })

-- `PoolIndex<FieldRefInfo>`
unfoldable pub resolve_field_ref : List ConstantPoolInfo → ℕ → Outcome RefInfo
unfolding pool_entry resolve_texts
resolve_field_ref pool index = do
  info ← pool_entry pool index
  elim info [
    | field_ref_info class_index name_and_type ↦ resolve_texts pool class_index name_and_type
    | _ ↦ fails unreachable
  ]

-- `PoolIndex<RefInfo>`, to which a pointer to each of the three references converts.
unfoldable pub resolve_ref : List ConstantPoolInfo → ℕ → Outcome RefInfo
unfolding pool_entry resolve_texts
resolve_ref pool index = do
  info ← pool_entry pool index
  elim info [
    | field_ref_info class_index name_and_type ↦ resolve_texts pool class_index name_and_type
    | method_ref_info class_index name_and_type ↦ resolve_texts pool class_index name_and_type
    | interface_method_ref_info class_index name_and_type ↦
        resolve_texts pool class_index name_and_type
    | _ ↦ fails unreachable
  ]

-- The `match` of `LDC`: only integers are implemented.
unfoldable pub resolve_constant : List ConstantPoolInfo → ℕ → Outcome ℕ
unfolding pool_entry
resolve_constant pool index = do
  info ← pool_entry pool index
  elim info [
    | integer_info value ↦ ok value
    | float_info value ↦ fails fatal
    | string_info text ↦ fails fatal
    | method_ref_info class_index name_and_type ↦ fails fatal
    | interface_method_ref_info class_index name_and_type ↦ fails fatal
    | class_info name ↦ fails fatal
    | method_type_info descriptor ↦ fails fatal
    | dynamic_info bootstrap name_and_type ↦ fails fatal
    | _ ↦ fails unreachable
  ]
