-- ===== src/Class/Descriptors/Equality.antt =====
-- Comparing field types, and telling references from base types by the first letter.
use jllvm.Base.{ℕ, List, ◌++◌, ◌≡◌, refl, ◌↔◌, Bool, true, false, arith, ok, >>=-eq-ok, text_eq_iff}
use jllvm.Class.Descriptors.{
  BaseType, FieldType, base, object, array, base_type_eq, field_type_eq, is_reference_descriptor,
  parse_field_type,
}
use jllvm.Class.Descriptors.Print.{print}
use jllvm.Class.Descriptors.Fields.{parse_field_type_impl-exact}

base_type_eq_iff : (a b : BaseType) → (base_type_eq a b ≡ true) ↔ (a ≡ b)
unfolding base_type_eq
base_type_eq_iff a b = ground arith

-- The equality operator on field types decides equality.
pub field_type_eq_iff : (a b : FieldType) → (field_type_eq a b ≡ true) ↔ (a ≡ b)
unfolding field_type_eq
field_type_eq_iff (base a) (base b) = ground (arith, base_type_eq_iff a b)
field_type_eq_iff (object a) (object b) = ground (arith, text_eq_iff a b)
field_type_eq_iff (array a) (array b) = ground (arith, field_type_eq_iff a b)
field_type_eq_iff _ _ = (λ h. cc, λ h. cc)

abbrev pub is_reference : FieldType → Bool
is_reference (base b) = false
is_reference (object name) = true
is_reference (array t) = true

is_reference_descriptor-print :
    (t : FieldType) (rest : List ℕ)
    → is_reference_descriptor (print t ++ rest) ≡ ok (is_reference t)
unfolding is_reference_descriptor print
is_reference_descriptor-print (base BaseType.byte) rest = refl
is_reference_descriptor-print (base _) rest = refl
is_reference_descriptor-print (object name) rest = refl
is_reference_descriptor-print (array t) rest = refl

-- On a string that parseFieldType accepts, isReferenceDescriptor says whether the parsed type is
-- an object or an array type.
pub is_reference_descriptor-parse_field_type :
    (s : List ℕ) (t : FieldType)
    → parse_field_type s ≡ ok t
    → is_reference_descriptor s ≡ ok (is_reference t)
unfolding parse_field_type
is_reference_descriptor-parse_field_type s t h =
    let ((u, rest), parsed, end) = >>=-eq-ok _ _ h in
    let same : u ≡ t = cc in
    rw ((parse_field_type_impl-exact s parsed).0, ← same) (is_reference_descriptor-print u rest)
