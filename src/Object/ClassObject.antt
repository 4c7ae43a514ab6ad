-- ===== src/Object/ClassObject.antt =====
-- src/jllvm/object/ClassObject.hpp and ClassObject.cpp: methods, fields and class objects. A
-- `ClassObject*` is an index into the class objects that the class allocator has given out, and a
-- pointer has 8 bytes. Sizes are `uint32_t` (or an `int32_t` as its bit pattern).
pub mod Sizes
pub mod Rounding
mod Tests
use jllvm.Base.{
  ℕ, ◌+◌, ◌-◌, ◌*◌, ◌%◌, ◌^◌, ◌≤◌, ◌<◌, ◌≡◌, Bool, true, false, List, [], ◌∷◌, ◌++◌, Option, none,
  some, if◌then◌else◌, replicate, Outcome, ok, fails, assertion,
}
use jllvm.Class.Descriptors.{is_reference_descriptor}

abbrev pub pointer_size : ℕ
pointer_size = 8

abbrev pub ClassRef : Type 0
ClassRef = ℕ

-- `package_default` is `Visibility::Package`, a reserved word here.
pub data Visibility : Type 0 where
  package_default private public protected : Visibility

pub record Method : Type 0 where
  pub name : List ℕ
  pub descriptor : List ℕ
  pub v_table_slot : ℕ
  pub has_v_table_slot : Bool
  pub is_static : Bool
  pub is_final : Bool
  pub is_native : Bool
  pub visibility : Visibility
  pub is_abstract : Bool

-- The constructor, which splits the optional slot in its value and a flag.
unfoldable pub new_method :
    List ℕ → List ℕ → Option ℕ → Bool → Bool → Bool → Visibility → Bool → Method
new_method name descriptor slot is_static is_final is_native visibility is_abstract = record {
  name = name;
  descriptor = descriptor;
  v_table_slot = elim slot [ none ↦ 0 | some s ↦ s ];
  has_v_table_slot = elim slot [ none ↦ false | some s ↦ true ];
  is_static = is_static;
  is_final = is_final;
  is_native = is_native;
  visibility = visibility;
  is_abstract = is_abstract;
}

unfoldable pub get_v_table_slot : Method → Option ℕ
get_v_table_slot m = if m.has_v_table_slot then some m.v_table_slot else none

-- The union of a field: an offset within an instance, inline bytes of a static primitive (by the
-- address of that storage), or where the static reference is kept.
pub data Storage : Type 0 where
  offset : ℕ → Storage
  primitive_storage : Storage
  reference : ℕ → Storage

pub record Field : Type 0 where
  pub name : List ℕ
  pub descriptor : List ℕ
  pub storage : Storage
  pub is_static : Bool

-- The parameter is a `uint16_t`: a larger offset is cut to 16 bits on the way in.
unfoldable pub instance_field : List ℕ → List ℕ → ℕ → Field
instance_field name descriptor at = record {
  name = name;
  descriptor = descriptor;
  storage = offset (at % 2 ^ 16);
  is_static = false;
}

unfoldable pub static_reference : List ℕ → List ℕ → ℕ → Field
static_reference name descriptor at = record {
  name = name;
  descriptor = descriptor;
  storage = reference at;
  is_static = true;
}

unfoldable pub static_primitive : List ℕ → List ℕ → Field
static_primitive name descriptor = record {
  name = name;
  descriptor = descriptor;
  storage = primitive_storage;
  is_static = true;
}

-- `getOffset`. Reading another member of the union than the one written has no meaning.
unfoldable pub get_offset : Field → Outcome ℕ
get_offset f =
    if f.is_static
    then fails assertion
    else elim f.storage [ offset n ↦ ok n | _ ↦ fails assertion ]

pub record ClassObject : Type 0 where
  pub field_area_size : ℕ
  pub methods : List Method
  pub fields : List Field
  pub interfaces : List ClassRef
  pub class_name : List ℕ
  pub super_class : Option ClassRef
  pub component_type : Option ClassRef
  pub is_primitive : Bool
  pub v_table : List ℕ

-- `ClassObject::create`: the v-table starts as zeros.
unfoldable pub create :
    ℕ → ℕ → List Method → List Field → List ClassRef → List ℕ → Option ClassRef → ClassObject
create v_table_slots field_area_size methods fields interfaces class_name super_class = record {
  field_area_size = field_area_size % 2 ^ 32;
  methods = methods;
  fields = fields;
  interfaces = interfaces;
  class_name = class_name;
  super_class = super_class;
  component_type = none;
  is_primitive = false;
  v_table = replicate v_table_slots 0;
}

-- The constructor for primitive types. The header is taken off first, so a size below 8 wraps.
unfoldable pub create_primitive : ℕ → List ℕ → ClassObject
create_primitive instance_size name = record {
  field_area_size = (instance_size + 2 ^ 32 - pointer_size) % 2 ^ 32;
  methods = [];
  fields = [];
  interfaces = [];
  class_name = name;
  super_class = none;
  component_type = none;
  is_primitive = true;
  v_table = [];
}

unfoldable pub get_field_area_size : ClassObject → Outcome ℕ
get_field_area_size c = if c.is_primitive then fails assertion else ok c.field_area_size

unfoldable pub get_instance_size : ClassObject → ℕ
get_instance_size c = (c.field_area_size + pointer_size) % 2 ^ 32

unfoldable pub is_array : ClassObject → Bool
is_array c = elim c.component_type [ none ↦ false | some k ↦ true ]

-- `llvm::alignTo`: the least multiple of a non-zero `align` that is at least `value`.
pub record Alignment : Type 0 where
  pub align_to : ℕ → ℕ → ℕ
  pub align_to_ge : (value align : ℕ) → 0 < align → value ≤ align_to value align
  pub align_to_lt : (value align : ℕ) → 0 < align → align_to value align < value + align
  pub align_to_multiple : (value align : ℕ) → 0 < align → align_to value align % align ≡ 0

-- `ClassObject::createArray`: the length, padded to where the elements start. The name wraps the
-- component's name in `[L` and `;`.
module _ (alignment : Alignment) where
  open alignment use {align_to}

  pub create_array : ClassRef → ClassObject → ClassObject
  create_array component_ref component =
      let padded =
        if component.is_primitive
        then align_to 4 (get_instance_size component)
        else align_to 4 pointer_size in
      let result =
        create 0 padded [] [] [] (b'[' ∷ b'L' ∷ (component.class_name ++ b';' ∷ [])) none in
      record result { component_type = some component_ref }
