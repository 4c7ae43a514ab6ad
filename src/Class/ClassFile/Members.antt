-- ===== src/Class/ClassFile/Members.antt =====
-- src/jllvm/class/ClassFile.hpp and ClassFile.cpp: attributes, fields, methods, and `Code`.
pub mod RoundTrip
use jllvm.Base.{
  ℕ, zero, suc, ◌+◌, ◌/◌, ◌%◌, ◌^◌, Bool, true, false, not, ◌||◌, ◌&&◌, List, [], ◌∷◌, ◌++◌, Option,
  none, some, if◌then◌else◌, ◌==◌, text_eq, Outcome, ok, fails, ◌>>=◌,
}
use jllvm.Support.Bytes.{consume, consume_raw_string}
use jllvm.Class.ClassFile.Constants.{ConstantPoolInfo, resolve_utf8}

-- `AttributeMap`: `insert` of a `DenseMap` keeps the value of a key that is there.
abbrev pub AttributeMap : Type 0
AttributeMap = List (List ℕ × List ℕ)

unfoldable pub find : List ℕ → AttributeMap → Option (List ℕ)
unfolding text_eq
find key [] = none
find key ((k, v) ∷ rest) = if text_eq k key then some v else find key rest

unfoldable pub insert : List ℕ → List ℕ → AttributeMap → AttributeMap
unfolding find
insert key value attributes = elim (find key attributes) [
  | none ↦ (key, value) ∷ attributes
  | some old ↦ attributes
]

-- The name's index and the bytes.
unfoldable pub parse_attribute_info : List ℕ → Outcome ((ℕ × List ℕ) × List ℕ)
unfolding consume consume_raw_string
parse_attribute_info bytes = do
  (name_index, bytes) ← consume 2 bytes
  (length, bytes) ← consume 4 bytes
  (raw, bytes) ← consume_raw_string length bytes
  ok ((name_index, raw), bytes)

-- The loops that fill an attribute map, on the number of attributes that are left.
unfoldable pub parse_attributes :
    List ConstantPoolInfo → ℕ → AttributeMap → List ℕ → Outcome (AttributeMap × List ℕ)
unfolding parse_attribute_info resolve_utf8 insert
parse_attributes pool zero attributes bytes = ok (attributes, bytes)
parse_attributes pool (suc n) attributes bytes = do
  ((name_index, raw), bytes) ← parse_attribute_info bytes
  name ← resolve_utf8 pool name_index
  parse_attributes pool n (insert name raw attributes) bytes

-- `FieldInfo` and `MethodInfo`, which hold the same.
pub record MemberInfo : Type 0 where
  pub access_flags : ℕ
  pub name_index : ℕ
  pub descriptor_index : ℕ
  pub attributes : AttributeMap

-- `(flags & flag) != AccessFlag::None` for the flag `2 ^ bit`.
unfoldable pub has_flag : ℕ → ℕ → Bool
has_flag flags bit = flags / 2 ^ bit % 2 == 1

unfoldable pub is_static : MemberInfo → Bool
unfolding has_flag
is_static info = has_flag info.access_flags 3

unfoldable pub is_final : MemberInfo → Bool
unfolding has_flag
is_final info = has_flag info.access_flags 4

unfoldable pub is_native : MemberInfo → Bool
unfolding has_flag
is_native info = has_flag info.access_flags 8

unfoldable pub is_abstract : MemberInfo → Bool
unfolding has_flag
is_abstract info = has_flag info.access_flags 10

-- The source tests `AccessFlag::Protected` here.
unfoldable pub is_private : MemberInfo → Bool
unfolding has_flag
is_private info = has_flag info.access_flags 2

unfoldable pub is_public : MemberInfo → Bool
unfolding has_flag
is_public info = has_flag info.access_flags 0

unfoldable pub is_protected : MemberInfo → Bool
unfolding has_flag
is_protected info = has_flag info.access_flags 2

unfoldable pub get_name : List ConstantPoolInfo → MemberInfo → Outcome (List ℕ)
unfolding resolve_utf8
get_name pool info = resolve_utf8 pool info.name_index

unfoldable pub get_descriptor : List ConstantPoolInfo → MemberInfo → Outcome (List ℕ)
unfolding resolve_utf8
get_descriptor pool info = resolve_utf8 pool info.descriptor_index

-- "<init>"
abbrev pub init : List ℕ
init = 60 ∷ 105 ∷ 110 ∷ 105 ∷ 116 ∷ 62 ∷ []

unfoldable pub can_overwrite : List ConstantPoolInfo → MemberInfo → Outcome Bool
unfolding is_private is_static get_name text_eq
can_overwrite pool info =
    if is_private info || is_static info
    then ok false
    else (get_name pool info >>= λ name. ok (not (text_eq name init)))

unfoldable pub can_be_overwritten : List ConstantPoolInfo → MemberInfo → Outcome Bool
unfolding can_overwrite
can_be_overwritten pool info = can_overwrite pool info

unfoldable pub parse_field_or_method_info :
    List ConstantPoolInfo → List ℕ → Outcome (MemberInfo × List ℕ)
unfolding consume parse_attributes
parse_field_or_method_info pool bytes = do
  (access_flags, bytes) ← consume 2 bytes
  (name_index, bytes) ← consume 2 bytes
  (descriptor_index, bytes) ← consume 2 bytes
  (attribute_count, bytes) ← consume 2 bytes
  (attributes, bytes) ← parse_attributes pool attribute_count [] bytes
  ok (
    record {
      access_flags = access_flags;
      name_index = name_index;
      descriptor_index = descriptor_index;
      attributes = attributes;
    },
    bytes,
  )

unfoldable pub parse_members :
    List ConstantPoolInfo → ℕ → List ℕ → Outcome (List MemberInfo × List ℕ)
unfolding parse_field_or_method_info
parse_members pool zero bytes = ok ([], bytes)
parse_members pool (suc n) bytes = do
  (info, bytes) ← parse_field_or_method_info pool bytes
  (infos, bytes) ← parse_members pool n bytes
  ok (info ∷ infos, bytes)

pub record ExceptionTable : Type 0 where
  pub start_pc : ℕ
  pub end_pc : ℕ
  pub handler_pc : ℕ
  pub catch_type : ℕ

pub record Code : Type 0 where
  pub max_stack : ℕ
  pub max_locals : ℕ
  pub code : List ℕ
  pub exception_table : List ExceptionTable

parse_exception_table : ℕ → List ℕ → Outcome (List ExceptionTable × List ℕ)
unfolding consume
parse_exception_table zero bytes = ok ([], bytes)
parse_exception_table (suc n) bytes = do
  (start_pc, bytes) ← consume 2 bytes
  (end_pc, bytes) ← consume 2 bytes
  (handler_pc, bytes) ← consume 2 bytes
  (catch_type, bytes) ← consume 2 bytes
  (rest, bytes) ← parse_exception_table n bytes
  ok (
    record {
      start_pc = start_pc;
      end_pc = end_pc;
      handler_pc = handler_pc;
      catch_type = catch_type;
    }
        ∷ rest,
    bytes,
  )

unfoldable pub parse_code : List ℕ → Outcome Code
unfolding consume consume_raw_string parse_exception_table
parse_code bytes = do
  (max_stack, bytes) ← consume 2 bytes
  (max_locals, bytes) ← consume 2 bytes
  (code_count, bytes) ← consume 4 bytes
  (code, bytes) ← consume_raw_string code_count bytes
  (exception_table_count, bytes) ← consume 2 bytes
  (exception_table, bytes) ← parse_exception_table exception_table_count bytes
  ok (record {
    max_stack = max_stack;
    max_locals = max_locals;
    code = code;
    exception_table = exception_table;
  })
