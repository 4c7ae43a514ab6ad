-- ===== src/Class/Descriptors.antt =====
-- src/jllvm/class/Descriptors.hpp and Descriptors.cpp: field and method descriptors. A
-- `llvm::StringRef` is its list of bytes; a parser returns what it leaves of the string.
pub mod Print
pub mod Fields
pub mod Methods
pub mod Equality
mod Tests
use jllvm.Base.{
  ℕ, zero, suc, ◌+◌, List, [], ◌∷◌, Option, none, some, Bool, true, false, not, ◌&&◌, ◌||◌, ◌==◌,
  leb, if◌then◌else◌, length, drop, text_eq, Outcome, ok, fails, fatal, assertion, out_of_fuel,
  ◌>>=◌, ◌>>◌, assert,
}

pub data BaseType : Type 0 where
  byte char double float int long short boolean void : BaseType

-- `std::variant<BaseType, ObjectType, ArrayType>`
pub data FieldType : Type 0 where
  base : BaseType → FieldType
  object : List ℕ → FieldType
  array : FieldType → FieldType

pub record MethodType : Type 0 where
  pub parameters : List FieldType
  pub return_type : FieldType

-- `string.front()`, and `string.front()` with `string.drop_front()`: both assert on an empty string.
unfoldable pub front : List ℕ → Outcome ℕ
front [] = fails assertion
front (c ∷ s) = ok c

unfoldable pub drop_front : ℕ → List ℕ → Outcome (List ℕ)
drop_front n string = do assert (leb n (length string)); ok (drop n string)

-- `string.take_while([](char c) { return c != stop; })`
unfoldable pub take_until : ℕ → List ℕ → List ℕ
take_until stop [] = []
take_until stop (c ∷ s) = if c == stop then [] else c ∷ take_until stop s

-- The cases of the `switch` that are a letter for a base type.
base_type : ℕ → Option BaseType
base_type c =
    if c == b'B'
    then some byte
    else if c == b'C'
    then some char
    else if c == b'D'
    then some double
    else if c == b'F'
    then some float
    else if c == b'I'
    then some int
    else if c == b'J'
    then some long
    else if c == b'S'
    then some short
    else if c == b'Z'
    then some boolean
    else if c == b'V'
    then some void
    else none

-- The case `'L'`, behind the letter.
parse_object_type : List ℕ → Outcome (FieldType × List ℕ)
unfolding take_until drop_front
parse_object_type string = do
  let clazz = take_until b';' string
  rest ← drop_front (length clazz + 1) string
  ok (object clazz, rest)

unfoldable pub parse_field_type_impl : List ℕ → Outcome (FieldType × List ℕ)
unfolding base_type parse_object_type
parse_field_type_impl [] = fails assertion
parse_field_type_impl (first ∷ string) =
    let component = parse_field_type_impl string in
    elim (base_type first) [
      | some b ↦ ok (base b, string)
      | none ↦
          if first == b'['
          then (do (t, rest) ← component; ok (array t, rest))
          else if first == b'L'
          then parse_object_type string
          else fails fatal
    ]

unfoldable pub parse_field_type : List ℕ → Outcome FieldType
unfolding parse_field_type_impl
parse_field_type string = do (t, rest) ← parse_field_type_impl string; ok t

unfoldable pub is_reference_descriptor : List ℕ → Outcome Bool
unfolding front
is_reference_descriptor string = do c ← front string; ok (c == b'L' || c == b'[')

-- The `while` loop of `parseMethodType`; it returns what is left behind the `)`.
parse_parameters : ℕ → List ℕ → Outcome (List FieldType × List ℕ)
parse_parameters zero string = fails out_of_fuel
parse_parameters (suc fuel) string = do
  c ← front string
  let close = (do rest ← drop_front 1 string; ok ([], rest))
  let parameter = (do
    (t, rest) ← parse_field_type_impl string
    (ts, rest) ← parse_parameters fuel rest
    ok (t ∷ ts, rest))
  if c == b')' then close else parameter

-- Each round reads a letter, so the length of the string bounds the rounds.
unfoldable pub parse_method_type : List ℕ → Outcome MethodType
unfolding front drop_front parse_parameters parse_field_type_impl
parse_method_type string = do
  c ← front string
  assert (c == b'(')
  string ← drop_front 1 string
  (parameters, string) ← parse_parameters (length string + 1) string
  (return_type, rest) ← parse_field_type_impl string
  ok (record { parameters = parameters; return_type = return_type })

-- `operator==` of the variant, of `ObjectType` and of `ArrayType`, which compares what it points to.
base_type_eq : BaseType → BaseType → Bool
base_type_eq byte byte = true
base_type_eq char char = true
base_type_eq double double = true
base_type_eq float float = true
base_type_eq int int = true
base_type_eq long long = true
base_type_eq short short = true
base_type_eq boolean boolean = true
base_type_eq void void = true
base_type_eq _ _ = false

unfoldable pub field_type_eq : FieldType → FieldType → Bool
unfolding base_type_eq text_eq
field_type_eq (base a) (base b) = base_type_eq a b
field_type_eq (object a) (object b) = text_eq a b
field_type_eq (array a) (array b) = field_type_eq a b
field_type_eq _ _ = false
