-- ===== src/Materialization/Compiler/WellFormed/Ending.antt =====
-- What the compiler reads never lacks the rounds for a loop.
use jllvm.Base.{
  ℕ, zero, suc, ◌≡◌, ◌≢◌, refl, ap, Bool, true, false, List, [], ◌∷◌, Option, none, some, Outcome,
  ok, fails, out_of_fuel, ◌>>=◌, arith,
}
use jllvm.Support.Bytes.{consume}
use jllvm.Class.ClassFile.Constants.{ConstantPoolInfo, resolve_utf8, resolve_class}
use jllvm.Class.Descriptors.{parse_field_type}
use jllvm.Class.Descriptors.Methods.{parse_field_type_impl-ne-out_of_fuel}
use jllvm.Object.ClassObject.{ClassRef, ClassObject, Field, get_offset}
use jllvm.Materialization.Compiler.Function.{Block, Builder, split_blocks, split}
use jllvm.Materialization.Compiler.State.{Context, Handler, erase_handler, end_handler, get_local}
use jllvm.Materialization.Compiler.Pool.{
  pool_entry, resolve_class_name, resolve_name_and_type, resolve_texts, resolve_field_ref,
  resolve_ref, resolve_constant,
}
use jllvm.Materialization.Compiler.Lazy.{
  find_field, instance_offset_of, static_address_of, class_object_of,
}

bind-ne-out_of_fuel {ℓ κ} :
    {A : Type ℓ} {B : Type κ} (o : Outcome A) (next : A → Outcome B)
    → o ≢ fails out_of_fuel
    → ((a : A) → next a ≢ fails out_of_fuel)
    → o >>= next ≢ fails out_of_fuel
bind-ne-out_of_fuel (fails f) next h k = λ e. let same : f ≡ out_of_fuel = cc in h (ap fails same)
bind-ne-out_of_fuel (ok a) next h k = k a

pub follow-ne-out_of_fuel {ℓ κ} :
    {A : Type ℓ} {B : Type κ} (o : Outcome A) (next : A → Outcome B)
    → o ≢ fails out_of_fuel
    → ((a : A) → o ≡ ok a → next a ≢ fails out_of_fuel)
    → o >>= next ≢ fails out_of_fuel
follow-ne-out_of_fuel (fails f) next h k = λ e. let same : f ≡ out_of_fuel = cc in h (ap fails same)
follow-ne-out_of_fuel (ok a) next h k = k a refl

pub consume-ne-out_of_fuel : (size : ℕ) (bytes : List ℕ) → consume size bytes ≢ fails out_of_fuel
unfolding consume
consume-ne-out_of_fuel size bytes = ground arith

pool_entry-ne-out_of_fuel :
    (pool : List ConstantPoolInfo) (index : ℕ) → pool_entry pool index ≢ fails out_of_fuel
unfolding pool_entry
pool_entry-ne-out_of_fuel pool zero = λ e. cc
pool_entry-ne-out_of_fuel pool (suc i) = ground arith

resolve_utf8-ne-out_of_fuel :
    (pool : List ConstantPoolInfo) (index : ℕ) → resolve_utf8 pool index ≢ fails out_of_fuel
unfolding resolve_utf8
resolve_utf8-ne-out_of_fuel pool zero = λ e. cc
resolve_utf8-ne-out_of_fuel pool (suc i) = ground arith

resolve_class-ne-out_of_fuel :
    (pool : List ConstantPoolInfo) (index : ℕ) → resolve_class pool index ≢ fails out_of_fuel
unfolding resolve_class
resolve_class-ne-out_of_fuel pool zero = λ e. cc
resolve_class-ne-out_of_fuel pool (suc i) = ground arith

module _ (pool : List ConstantPoolInfo) where
  pub resolve_class_name-ne-out_of_fuel :
      (index : ℕ) → resolve_class_name pool index ≢ fails out_of_fuel
  unfolding resolve_class_name
  resolve_class_name-ne-out_of_fuel index =
      bind-ne-out_of_fuel (resolve_class pool index) _ (resolve_class-ne-out_of_fuel pool index)
        (resolve_utf8-ne-out_of_fuel pool)

  resolve_name_and_type-ne-out_of_fuel :
      (index : ℕ) → resolve_name_and_type pool index ≢ fails out_of_fuel
  unfolding resolve_name_and_type
  resolve_name_and_type-ne-out_of_fuel index =
      bind-ne-out_of_fuel (pool_entry pool index) _ (pool_entry-ne-out_of_fuel pool index)
        (λ info. ground arith)

  resolve_texts-ne-out_of_fuel :
      (class_index name_and_type : ℕ)
      → resolve_texts pool class_index name_and_type ≢ fails out_of_fuel
  unfolding resolve_texts
  resolve_texts-ne-out_of_fuel class_index name_and_type =
      bind-ne-out_of_fuel (resolve_name_and_type pool name_and_type) _
        (resolve_name_and_type-ne-out_of_fuel name_and_type)
        (λ both.
          bind-ne-out_of_fuel (resolve_utf8 pool both.1) _ (resolve_utf8-ne-out_of_fuel pool both.1)
            (λ descriptor.
              bind-ne-out_of_fuel (resolve_class_name pool class_index) _
                (resolve_class_name-ne-out_of_fuel class_index)
                (λ class.
                  bind-ne-out_of_fuel (resolve_utf8 pool both.0) _
                    (resolve_utf8-ne-out_of_fuel pool both.0) (λ name e. cc))))

  pub resolve_field_ref-ne-out_of_fuel :
      (index : ℕ) → resolve_field_ref pool index ≢ fails out_of_fuel
  unfolding resolve_field_ref
  resolve_field_ref-ne-out_of_fuel index =
      bind-ne-out_of_fuel (pool_entry pool index) _ (pool_entry-ne-out_of_fuel pool index)
        (λ info. grind (arith, resolve_texts-ne-out_of_fuel))

  pub resolve_ref-ne-out_of_fuel : (index : ℕ) → resolve_ref pool index ≢ fails out_of_fuel
  unfolding resolve_ref
  resolve_ref-ne-out_of_fuel index =
      bind-ne-out_of_fuel (pool_entry pool index) _ (pool_entry-ne-out_of_fuel pool index)
        (λ info. grind (arith, resolve_texts-ne-out_of_fuel))

  pub resolve_constant-ne-out_of_fuel :
      (index : ℕ) → resolve_constant pool index ≢ fails out_of_fuel
  unfolding resolve_constant
  resolve_constant-ne-out_of_fuel index =
      bind-ne-out_of_fuel (pool_entry pool index) _ (pool_entry-ne-out_of_fuel pool index)
        (λ info. ground arith)

pub get_local-ne-out_of_fuel :
    (context : Context) (index : ℕ) → get_local context index ≢ fails out_of_fuel
unfolding get_local
get_local-ne-out_of_fuel context index = ground arith

pub parse_field_type-ne-out_of_fuel : (s : List ℕ) → parse_field_type s ≢ fails out_of_fuel
unfolding parse_field_type
parse_field_type-ne-out_of_fuel s =
    bind-ne-out_of_fuel _ _ (parse_field_type_impl-ne-out_of_fuel s) (λ both e. cc)

find_field-ne-out_of_fuel :
    (static : Bool) (name type : List ℕ) (index : ℕ) (fields : List Field)
    → find_field static name type index fields ≢ fails out_of_fuel
unfolding find_field
find_field-ne-out_of_fuel static name type index [] = λ e. cc
find_field-ne-out_of_fuel static name type index (f ∷ fields) =
    ground (arith, find_field-ne-out_of_fuel static name type (suc index) fields)

pub instance_offset_of-ne-out_of_fuel :
    (name type : List ℕ) (ref : ClassRef) (object : ClassObject)
    → instance_offset_of name type ref object ≢ fails out_of_fuel
unfolding instance_offset_of get_offset
instance_offset_of-ne-out_of_fuel name type ref object =
    bind-ne-out_of_fuel _ _ (find_field-ne-out_of_fuel false name type 0 object.fields)
      (λ found. ground arith)

pub static_address_of-ne-out_of_fuel :
    (name type : List ℕ) (ref : ClassRef) (object : ClassObject)
    → static_address_of name type ref object ≢ fails out_of_fuel
unfolding static_address_of
static_address_of-ne-out_of_fuel name type ref object =
    bind-ne-out_of_fuel _ _ (find_field-ne-out_of_fuel true name type 0 object.fields)
      (λ found e. cc)

pub class_object_of-ne-out_of_fuel :
    (ref : ClassRef) (object : ClassObject) → class_object_of ref object ≢ fails out_of_fuel
unfolding class_object_of
class_object_of-ne-out_of_fuel ref object = λ e. cc

erase_handler-ne-out_of_fuel :
    (handler : Handler) (active : List Handler) → erase_handler handler active ≢ fails out_of_fuel
unfolding erase_handler
erase_handler-ne-out_of_fuel handler [] = λ e. cc
erase_handler-ne-out_of_fuel handler (h ∷ rest) =
    ground (arith, erase_handler-ne-out_of_fuel handler rest)

pub end_handler-ne-out_of_fuel :
    (handler : Option Handler) (active : List Handler)
    → end_handler handler active ≢ fails out_of_fuel
unfolding end_handler
end_handler-ne-out_of_fuel none active = λ e. cc
end_handler-ne-out_of_fuel (some handler) active = erase_handler-ne-out_of_fuel handler active

split_blocks-ne-out_of_fuel :
    (after name number : ℕ) (blocks : List Block)
    → split_blocks after name number blocks ≢ fails out_of_fuel
unfolding split_blocks
split_blocks-ne-out_of_fuel after name number [] = λ e. cc
split_blocks-ne-out_of_fuel after name number (b ∷ blocks) =
    ground (arith, split_blocks-ne-out_of_fuel after name number blocks)

pub split-ne-out_of_fuel : (after : ℕ) (b : Builder) → split after b ≢ fails out_of_fuel
unfolding split
split-ne-out_of_fuel after b =
    bind-ne-out_of_fuel _ _ (split_blocks-ne-out_of_fuel after b.block_count b.value_count b.blocks)
      (λ both e. cc)
