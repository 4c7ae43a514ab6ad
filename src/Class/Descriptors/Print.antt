-- ===== src/Class/Descriptors/Print.antt =====
-- The grammar of descriptors as a printer: the `::=` comments of src/jllvm/class/Descriptors.hpp.
use jllvm.Base.{ℕ, List, [], ◌∷◌, ◌++◌, ◌≢◌, All}
use jllvm.Class.Descriptors.{
  BaseType, byte, char, double, float, int, long, short, boolean, void, FieldType, base, object,
  array, MethodType,
}

abbrev pub letter : BaseType → ℕ
letter byte = b'B'
letter char = b'C'
letter double = b'D'
letter float = b'F'
letter int = b'I'
letter long = b'J'
letter short = b'S'
letter boolean = b'Z'
letter void = b'V'

unfoldable pub print : FieldType → List ℕ
print (base b) = letter b ∷ []
print (object name) = b'L' ∷ (name ++ b';' ∷ [])
print (array t) = b'[' ∷ print t

unfoldable pub print_all : List FieldType → List ℕ
unfolding print
print_all [] = []
print_all (t ∷ ts) = print t ++ print_all ts

unfoldable pub print_method : MethodType → List ℕ
unfolding print_all
print_method m = b'(' ∷ (print_all m.parameters ++ b')' ∷ print m.return_type)

-- A class name holds no `;`.
abbrev pub IsName : List ℕ → Type 0
IsName = All (λ c. c ≢ b';')

abbrev pub NamesValid : FieldType → Type 0
NamesValid (base b) = Unit
NamesValid (object name) = IsName name
NamesValid (array t) = NamesValid t
