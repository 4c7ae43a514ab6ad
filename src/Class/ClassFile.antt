-- ===== src/Class/ClassFile.antt =====
-- src/jllvm/class/ClassFile.hpp and ClassFile.cpp: `ClassFile`. The text of constants, the constant
-- pool, and the members are in child modules.
pub mod Text
pub mod Constants
pub mod Members
pub mod RoundTrip
mod Tests
use jllvm.Base.{
  ℕ, zero, suc, ◌-◌, Bool, true, false, not, List, [], ◌∷◌, Option, none, some, if◌then◌else◌, ◌==◌,
  Outcome, ok, fails, fatal, ◌>>=◌, ◌>>◌,
}
use jllvm.Support.Bytes.{consume}
use Constants.{ConstantPoolInfo, parse_constant_pool, resolve_utf8, resolve_class}
use Members.{AttributeMap, MemberInfo, parse_members, parse_attributes}

pub record ClassFile : Type 0 where
  pub constant_pool : List ConstantPoolInfo
  pub access_flags : ℕ
  pub this_class : ℕ
  pub super_class : ℕ
  pub interfaces : List (List ℕ)
  pub fields : List MemberInfo
  pub methods : List MemberInfo
  pub attributes : AttributeMap

-- The text of the name of the class at an index.
unfoldable pub class_name : List ConstantPoolInfo → ℕ → Outcome (List ℕ)
unfolding resolve_class resolve_utf8
class_name pool index = do name_index ← resolve_class pool index; resolve_utf8 pool name_index

unfoldable pub parse_interfaces :
    List ConstantPoolInfo → ℕ → List ℕ → Outcome (List (List ℕ) × List ℕ)
unfolding consume class_name
parse_interfaces pool zero bytes = ok ([], bytes)
parse_interfaces pool (suc n) bytes = do
  (index, bytes) ← consume 2 bytes
  name ← class_name pool index
  (names, bytes) ← parse_interfaces pool n bytes
  ok (name ∷ names, bytes)

-- What follows the constant pool.
parse_body : List ConstantPoolInfo → List ℕ → Outcome ClassFile
unfolding consume parse_interfaces parse_members parse_attributes
parse_body pool bytes = do
  (access_flags, bytes) ← consume 2 bytes
  (this_class, bytes) ← consume 2 bytes
  (super_class, bytes) ← consume 2 bytes
  (interface_count, bytes) ← consume 2 bytes
  (interfaces, bytes) ← parse_interfaces pool interface_count bytes
  (field_count, bytes) ← consume 2 bytes
  (fields, bytes) ← parse_members pool field_count bytes
  (method_count, bytes) ← consume 2 bytes
  (methods, bytes) ← parse_members pool method_count bytes
  (attribute_count, bytes) ← consume 2 bytes
  (attributes, bytes) ← parse_attributes pool attribute_count [] bytes
  ok (record {
    constant_pool = pool;
    access_flags = access_flags;
    this_class = this_class;
    super_class = super_class;
    interfaces = interfaces;
    fields = fields;
    methods = methods;
    attributes = attributes;
  })

-- 0xCAFEBABE
abbrev pub magic_number : ℕ
magic_number = 3405691582

-- For the count 0, `resize(-1)` throws.
unfoldable pub parse_from_file : List ℕ → Outcome ClassFile
unfolding consume parse_constant_pool parse_body
parse_from_file bytes = do
  (magic, bytes) ← consume 4 bytes
  let rest : Outcome ClassFile = (do
    (major_version, bytes) ← consume 2 bytes
    (minor_version, bytes) ← consume 2 bytes
    (constant_pool_count, bytes) ← consume 2 bytes
    let pool = parse_constant_pool (constant_pool_count - 1) bytes
    (pool, bytes) ← if constant_pool_count == 0 then fails fatal else pool
    parse_body pool bytes)
  if magic == magic_number then rest else fails fatal

unfoldable pub get_this_class : ClassFile → Outcome (List ℕ)
unfolding class_name
get_this_class file = class_name file.constant_pool file.this_class

unfoldable pub get_super_class : ClassFile → Outcome (Option (List ℕ))
unfolding class_name
get_super_class file =
    if file.super_class == 0
    then ok none
    else (class_name file.constant_pool file.super_class >>= λ name. ok (some name))
