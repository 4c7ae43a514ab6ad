-- ===== src/Class/Descriptors/Tests.antt =====
-- Descriptors at concrete strings, and the theorems at them.
use jllvm.Base.{
  ℕ, List, [], ◌∷◌, ◌++◌, ◌≡◌, refl, ◌≢◌, All, ok, fails, fatal, assertion, out_of_fuel, ◌↔◌, true,
}
use jllvm.Class.Descriptors.{
  FieldType, base, object, array, MethodType, int, void, parse_field_type_impl, parse_field_type,
  parse_method_type, is_reference_descriptor,
}
use jllvm.Class.Descriptors.Print.{print, print_method, NamesValid}
use jllvm.Class.Descriptors.Fields.{parse_field_type_impl_iff}
use jllvm.Class.Descriptors.Methods.{parse_method_type_iff, parse_method_type-ne-out_of_fuel}
use jllvm.Class.Descriptors.Equality.{
  field_type_eq_iff, is_reference_descriptor-parse_field_type, is_reference,
}
use jllvm.Class.Descriptors.{field_type_eq}

-- `[Ljava;`
abbrev strings : List ℕ
strings = b'[' ∷ b'L' ∷ b'j' ∷ b'a' ∷ b'v' ∷ b'a' ∷ b';' ∷ []

abbrev java : FieldType
java = array (object (b'j' ∷ b'a' ∷ b'v' ∷ b'a' ∷ []))

-- `(I[Ljava;)V`
abbrev main_type : MethodType
main_type = record { parameters = base int ∷ java ∷ []; return_type = base void }

parse_strings : parse_field_type strings ≡ ok java
unfolding parse_field_type
parse_strings = refl

parse_unknown : parse_field_type (b'Q' ∷ []) ≡ fails fatal
unfolding parse_field_type
parse_unknown = refl

parse_open_name : parse_field_type (b'L' ∷ b'j' ∷ []) ≡ fails assertion
unfolding parse_field_type
parse_open_name = refl

parse_main_type : parse_method_type (b'(' ∷ b'I' ∷ (strings ++ b')' ∷ b'V' ∷ [])) ≡ ok main_type
unfolding parse_method_type
parse_main_type = refl

parse_field_type_impl_iff_example :
    (parse_field_type_impl (strings ++ b')' ∷ []) ≡ ok (java, b')' ∷ []))
    ↔ ((strings ++ b')' ∷ [] ≡ print java ++ b')' ∷ []) × NamesValid java)
parse_field_type_impl_iff_example =
    parse_field_type_impl_iff (strings ++ b')' ∷ []) java (b')' ∷ [])

abbrev main_descriptor : List ℕ
main_descriptor = b'(' ∷ b'I' ∷ (strings ++ b')' ∷ b'V' ∷ [])

parse_method_type_iff_example : (parse_method_type main_descriptor ≡ ok main_type) ↔ (
    (rest : List ℕ) × (main_descriptor ≡ print_method main_type ++ rest)
    × All NamesValid main_type.parameters
    × NamesValid main_type.return_type)
parse_method_type_iff_example = parse_method_type_iff main_descriptor main_type

parse_method_type-ne-out_of_fuel_example : parse_method_type main_descriptor ≢ fails out_of_fuel
parse_method_type-ne-out_of_fuel_example = parse_method_type-ne-out_of_fuel main_descriptor

field_type_eq_iff_example : (field_type_eq java java ≡ true) ↔ (java ≡ java)
field_type_eq_iff_example = field_type_eq_iff java java

is_reference_descriptor-parse_field_type_example :
    is_reference_descriptor strings ≡ ok (is_reference java)
is_reference_descriptor-parse_field_type_example =
    is_reference_descriptor-parse_field_type strings java parse_strings
