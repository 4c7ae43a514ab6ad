-- ===== src/Materialization/JniNames/Tests.antt =====
-- Escaped names.
use jllvm.Base.{ℕ, ◌≡◌, ◌≢◌, refl, List, [], ◌∷◌, ◌++◌, ok, arith}
use jllvm.Class.ClassFile.{ClassFile}
use jllvm.Class.ClassFile.Constants.{class_info, utf8_info}
use jllvm.Class.ClassFile.Members.{MemberInfo}
use jllvm.Materialization.JniNames.{escape, java_prefix, overloaded_name}
use jllvm.Materialization.JniNames.Unescaped.{IsEscapable, escape-injective}

-- `a/b_`
abbrev name : List ℕ
name = b'a' ∷ b'/' ∷ b'b' ∷ b'_' ∷ []

name-IsEscapable : IsEscapable name
name-IsEscapable = (
  (λ e. absurd (omega arith)),
  ((λ e. (omega arith, omega arith, omega arith)), ((λ e. absurd (omega arith)), tt)),
)

escape_name : escape name ≡ b'a' ∷ b'_' ∷ b'b' ∷ b'_' ∷ b'1' ∷ []
unfolding escape
escape_name = refl

-- `a_1b_`
abbrev other_name : List ℕ
other_name = b'a' ∷ b'_' ∷ b'1' ∷ b'b' ∷ b'_' ∷ []

other_name-IsEscapable : IsEscapable other_name
other_name-IsEscapable = (
  (λ e. absurd (omega arith)),
  ((λ e. absurd (omega arith)), ((λ e. absurd (omega arith)), ((λ e. absurd (omega arith)), tt))),
)

distinct : name ≢ other_name
distinct e = cc

escape-injective_example : escape name ≢ escape other_name
escape-injective_example =
    escape-injective name other_name name-IsEscapable other_name-IsEscapable distinct

-- The method `f` of `A/b` with the type `(LA;)V`, whose parameters come unescaped.
abbrev file : ClassFile
file = record {
  constant_pool =
      utf8_info (b'A' ∷ b'/' ∷ b'b' ∷ [])
      ∷ class_info 1
      ∷ utf8_info (b'f' ∷ [])
      ∷ utf8_info (b'(' ∷ b'L' ∷ b'A' ∷ b';' ∷ b')' ∷ b'V' ∷ [])
      ∷ [];
  access_flags = 0;
  this_class = 2;
  super_class = 0;
  interfaces = [];
  fields = [];
  methods = [];
  attributes = [];
}

abbrev method : MemberInfo
method = record { access_flags = 256; name_index = 3; descriptor_index = 4; attributes = [] }

name_of_method :
    overloaded_name file method
    ≡ ok (java_prefix ++ b'A' ∷ b'_' ∷ b'b' ∷ b'_' ∷ b'f' ∷ b'_' ∷ b'_' ∷ b'L' ∷ b'A' ∷ b';' ∷ [])
unfolding overloaded_name
name_of_method = refl
