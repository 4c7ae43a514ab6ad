-- ===== src/Object/ClassLoader/Layout.antt =====
-- src/jllvm/object/ClassLoader.cpp: the loop of `add` that lays out the fields. `m_allocateStatic`
-- is a parameter, which passes its own state on.
pub mod Placed
use jllvm.Base.{
  ℕ, zero, suc, ◌+◌, ◌<◌, ◌≡◌, Bool, true, false, List, [], ◌∷◌, if◌then◌else◌, Outcome, ok, fails,
  unreachable, ◌>>=◌,
}
use jllvm.Class.Descriptors.{
  BaseType, byte, char, double, float, int, long, short, boolean, void, FieldType, base, object,
  array, parse_field_type, is_reference_descriptor,
}
use jllvm.Class.ClassFile.Constants.{ConstantPoolInfo}
use jllvm.Class.ClassFile.Members.{MemberInfo, is_static, get_name, get_descriptor}
use jllvm.Object.ClassObject.{
  pointer_size, Field, instance_field, static_reference, static_primitive, Alignment,
}

base_type_size : BaseType → Outcome ℕ
base_type_size byte = ok 1
base_type_size char = ok 2
base_type_size double = ok 8
base_type_size float = ok 4
base_type_size int = ok 4
base_type_size long = ok 8
base_type_size short = ok 2
base_type_size boolean = ok 1
base_type_size void = fails unreachable

-- `fieldSizeAndAlignment`
pub field_size : FieldType → Outcome ℕ
unfolding base_type_size
field_size (base b) = base_type_size b
field_size (object name) = ok pointer_size
field_size (array component) = ok pointer_size

module _ (alignment : Alignment) {S : Type 0} (allocate_static : S → ℕ × S) where
  open alignment use {align_to}

  -- One field: the field object, the instance size behind it, and the static storage.
  lay_out_field : List ConstantPoolInfo → MemberInfo → ℕ → S → Outcome (Field × ℕ × S)
  unfolding is_static get_name get_descriptor is_reference_descriptor parse_field_type field_size
      instance_field static_reference static_primitive
  lay_out_field pool info instance_size s = do
    descriptor ← get_descriptor pool info
    let in_class : Outcome (Field × ℕ × S) = (do
      is_reference ← is_reference_descriptor descriptor
      name ← get_name pool info
      let (storage, allocated) = allocate_static s
      ok (
          if is_reference
          then (static_reference name descriptor storage, instance_size, allocated)
          else (static_primitive name descriptor, instance_size, s)))
    let in_instance : Outcome (Field × ℕ × S) = (do
      type ← parse_field_type descriptor
      size ← field_size type
      name ← get_name pool info
      let start = align_to instance_size size
      ok (instance_field name descriptor (start + pointer_size), start + size, s))
    if is_static info then in_class else in_instance

  unfoldable pub lay_out_fields :
      List ConstantPoolInfo → List MemberInfo → ℕ → S → Outcome (List Field × ℕ × S)
  unfolding lay_out_field
  lay_out_fields pool [] instance_size s = ok ([], instance_size, s)
  lay_out_fields pool (info ∷ infos) instance_size s = do
    (field, instance_size, s) ← lay_out_field pool info instance_size s
    (fields, instance_size, s) ← lay_out_fields pool infos instance_size s
    ok (field ∷ fields, instance_size, s)
