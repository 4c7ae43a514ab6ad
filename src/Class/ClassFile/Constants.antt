-- ===== src/Class/ClassFile/Constants.antt =====
-- src/jllvm/class/ClassFile.hpp and ClassFile.cpp: the constant pool. An index is the number that is
-- stored in a `PoolIndex`; integers are their bit patterns.
pub mod Rounding
pub mod RoundTrip
use jllvm.Base.{
  ℕ, zero, suc, ◌+◌, ◌-◌, ◌*◌, ◌/◌, ◌%◌, ◌^◌, Bool, true, false, ◌||◌, ◌&&◌, List, [], ◌∷◌, ◌++◌,
  Option, none, some, if◌then◌else◌, ltb, ◌==◌, get_elem?, Outcome, ok, fails, assertion,
  unreachable, ◌>>=◌, ◌>>◌,
}
use jllvm.Support.Bytes.{consume, consume_raw_string}
use jllvm.Class.ClassFile.Text.{to_utf8}

pub data ConstantPoolInfo : Type 0 where
  monostate : ConstantPoolInfo
  class_info string_info method_type_info module_info package_info : ℕ → ConstantPoolInfo
  field_ref_info method_ref_info interface_method_ref_info : ℕ → ℕ → ConstantPoolInfo
  integer_info float_info long_info double_info : ℕ → ConstantPoolInfo
  name_and_type_info method_handle_info dynamic_info invoke_dynamic_info : ℕ → ℕ → ConstantPoolInfo
  utf8_info : List ℕ → ConstantPoolInfo

pub data ConstantPoolTag : Type 0 where
  class field_ref method_ref interface_method_ref string integer float long double : ConstantPoolTag
  name_and_type utf8 method_handle method_type dynamic invoke_dynamic module_tag package_tag :
      ConstantPoolTag

unfoldable pub tag_value : ConstantPoolTag → ℕ
tag_value class = 7
tag_value field_ref = 9
tag_value method_ref = 10
tag_value interface_method_ref = 11
tag_value string = 8
tag_value integer = 3
tag_value float = 4
tag_value long = 5
tag_value double = 6
tag_value name_and_type = 12
tag_value utf8 = 1
tag_value method_handle = 15
tag_value method_type = 16
tag_value dynamic = 17
tag_value invoke_dynamic = 18
tag_value module_tag = 19
tag_value package_tag = 20

abbrev tags : List ConstantPoolTag
tags =
    class ∷ field_ref ∷ method_ref ∷ interface_method_ref ∷ string ∷ integer ∷ float ∷ long ∷ double
    ∷ name_and_type ∷ utf8 ∷ method_handle ∷ method_type ∷ dynamic ∷ invoke_dynamic ∷ module_tag
    ∷ package_tag ∷ []

-- The `case` that a value selects.
select : ℕ → List ConstantPoolTag → Option ConstantPoolTag
unfolding tag_value
select n [] = none
select n (tag ∷ rest) = let later = select n rest in if tag_value tag == n then some tag else later

-- Two 16 bit values.
consume_pair : List ℕ → Outcome ((ℕ × ℕ) × List ℕ)
unfolding consume
consume_pair bytes = do
  (a, bytes) ← consume 2 bytes
  (b, bytes) ← consume 2 bytes
  ok ((a, b), bytes)

consume_one : (ℕ → ConstantPoolInfo) → List ℕ → Outcome (ConstantPoolInfo × List ℕ)
unfolding consume
consume_one info bytes = do (a, bytes) ← consume 2 bytes; ok (info a, bytes)

consume_two : (ℕ → ℕ → ConstantPoolInfo) → List ℕ → Outcome (ConstantPoolInfo × List ℕ)
unfolding consume_pair
consume_two info bytes = do ((a, b), bytes) ← consume_pair bytes; ok (info a b, bytes)

-- The bits of `n`, for `n` below `2 ^ fuel`.
bit_width : ℕ → ℕ → ℕ
bit_width zero n = 0
bit_width (suc fuel) n = let rest = bit_width fuel (n / 2) in if n == 0 then 0 else rest + 1

-- The conversion of an unsigned integer to a floating point type with `precision` bits, as the
-- number that results: to the nearest, and to the even one of two.
unfoldable pub to_floating : ℕ → ℕ → ℕ
unfolding bit_width
to_floating precision n =
    let unit = 2 ^ (bit_width 64 n - precision) in
    let quotient = n / unit in
    let remainder = n % unit in
    if ltb unit (2 * remainder) || (unit == 2 * remainder && quotient % 2 == 1)
    then (quotient + 1) * unit
    else quotient * unit

-- `consume<float>` and `consume<double>` convert the integer that was read, by its value.
parse_by_tag : ConstantPoolTag → List ℕ → Outcome (ConstantPoolInfo × List ℕ)
unfolding consume consume_one consume_two consume_raw_string to_floating to_utf8
parse_by_tag class bytes = consume_one class_info bytes
parse_by_tag field_ref bytes = consume_two field_ref_info bytes
parse_by_tag method_ref bytes = consume_two method_ref_info bytes
parse_by_tag interface_method_ref bytes = consume_two interface_method_ref_info bytes
parse_by_tag string bytes = consume_one string_info bytes
parse_by_tag integer bytes = do (value, bytes) ← consume 4 bytes; ok (integer_info value, bytes)
parse_by_tag float bytes = do
  (value, bytes) ← consume 4 bytes
  ok (float_info (to_floating 24 value), bytes)
parse_by_tag long bytes = do (value, bytes) ← consume 8 bytes; ok (long_info value, bytes)
parse_by_tag double bytes = do
  (value, bytes) ← consume 8 bytes
  ok (double_info (to_floating 53 value), bytes)
parse_by_tag name_and_type bytes = consume_two name_and_type_info bytes
parse_by_tag utf8 bytes = do
  (length, bytes) ← consume 2 bytes
  (raw, bytes) ← consume_raw_string length bytes
  text ← to_utf8 raw
  ok (utf8_info text, bytes)
parse_by_tag method_handle bytes = do
  (kind, bytes) ← consume 1 bytes
  (index, bytes) ← consume 2 bytes
  ok (method_handle_info kind index, bytes)
parse_by_tag method_type bytes = consume_one method_type_info bytes
parse_by_tag dynamic bytes = consume_two dynamic_info bytes
parse_by_tag invoke_dynamic bytes = consume_two invoke_dynamic_info bytes
parse_by_tag module_tag bytes = consume_one module_info bytes
parse_by_tag package_tag bytes = consume_one package_info bytes

pub parse_constant_pool_info : List ℕ → Outcome (ConstantPoolInfo × List ℕ)
unfolding consume select parse_by_tag
parse_constant_pool_info bytes = do
  (value, bytes) ← consume 1 bytes
  elim (select value tags) [ none ↦ fails unreachable | some tag ↦ parse_by_tag tag bytes ]

-- `DoubleInfo` and `LongInfo`, behind which an entry stays empty.
unfoldable pub is_wide : ConstantPoolInfo → Bool
is_wide (long_info value) = true
is_wide (double_info value) = true
is_wide _ = false

-- The loop of `parseFromFile`, on the number of entries that are left.
unfoldable pub parse_constant_pool : ℕ → List ℕ → Outcome (List ConstantPoolInfo × List ℕ)
unfolding parse_constant_pool_info is_wide
parse_constant_pool zero bytes = ok ([], bytes)
parse_constant_pool (suc zero) bytes = do
  (info, bytes) ← parse_constant_pool_info bytes
  ok (info ∷ [], bytes)
parse_constant_pool (suc (suc n)) bytes = do
  (info, bytes) ← parse_constant_pool_info bytes
  let wide = parse_constant_pool n bytes
  let narrow = parse_constant_pool (suc n) bytes
  if is_wide info
      then (wide >>= λ (infos, bytes). ok (info ∷ monostate ∷ infos, bytes))
      else (narrow >>= λ (infos, bytes). ok (info ∷ infos, bytes))

-- `PoolIndex<Utf8Info>::resolve` and `PoolIndex<ClassInfo>::resolve`
entry : List ConstantPoolInfo → ℕ → Outcome ConstantPoolInfo
entry pool zero = fails assertion
entry pool (suc i) = elim (get_elem? pool i) [ none ↦ fails assertion | some info ↦ ok info ]

unfoldable pub resolve_utf8 : List ConstantPoolInfo → ℕ → Outcome (List ℕ)
unfolding entry
resolve_utf8 pool index = do
  info ← entry pool index
  elim info [ utf8_info text ↦ ok text | _ ↦ fails unreachable ]

unfoldable pub resolve_class : List ConstantPoolInfo → ℕ → Outcome ℕ
unfolding entry
resolve_class pool index = do
  info ← entry pool index
  elim info [ class_info name_index ↦ ok name_index | _ ↦ fails unreachable ]
