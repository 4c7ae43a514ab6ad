-- ===== src/Object/ClassLoader/Tests.antt =====
-- A class with an inherited and a new method, and with fields of three sizes.
use jllvm.Base.{ℕ, ◌+◌, ◌≡◌, refl, true, false, List, [], ◌∷◌, Option, none, some, arith, ok}
use jllvm.Class.ClassFile.Constants.{ConstantPoolInfo, utf8_info}
use jllvm.Class.ClassFile.Members.{MemberInfo}
use jllvm.Object.ClassObject.{
  ClassRef, ClassObject, Method, Field, create_primitive, create_array, public, create,
  instance_field, static_reference,
}
use jllvm.Object.ClassObject.Rounding.{alignment}
use jllvm.Object.ClassLoader.Slots.Assigned.{Assigned}
use jllvm.Object.ClassLoader.Loading.{
  ClassLoader, create_loader, register, for_name_loaded, for_name,
}
use jllvm.Object.ClassLoader.Loading.Loaded.{IsLoaded, for_name-IsLoaded, create_loader-IsLoader}
use jllvm.Object.ClassLoader.Loading.Arrays.{arrays, for_name-arrays}
use jllvm.Object.ClassLoader.Layout.{lay_out_fields}
use jllvm.Object.ClassLoader.Layout.Placed.{Placed, lay_out_fields-Placed}

-- The names `f` and `g`, and the types `()V`, `Z`, `J` and `LA;`.
abbrev pool : List ConstantPoolInfo
pool =
    utf8_info (b'f' ∷ [])
    ∷ utf8_info (b'g' ∷ [])
    ∷ utf8_info (b'(' ∷ b')' ∷ b'V' ∷ [])
    ∷ utf8_info (b'Z' ∷ [])
    ∷ utf8_info (b'J' ∷ [])
    ∷ utf8_info (b'L' ∷ b'A' ∷ b';' ∷ [])
    ∷ []

abbrev member : ℕ → ℕ → ℕ → MemberInfo
member flags name descriptor = record {
  access_flags = flags;
  name_index = name;
  descriptor_index = descriptor;
  attributes = [];
}

-- `f` has the slot 4 in the super class of the super class.
abbrev f_method : Method
f_method = record {
  name = b'f' ∷ [];
  descriptor = b'(' ∷ b')' ∷ b'V' ∷ [];
  v_table_slot = 4;
  has_v_table_slot = true;
  is_static = false;
  is_final = false;
  is_native = false;
  visibility = public;
  is_abstract = false;
}

abbrev super_classes : List ClassObject
super_classes =
    create 5 0 [] [] [] (b'S' ∷ []) none ∷ create 5 0 (f_method ∷ []) [] [] (b'O' ∷ []) none ∷ []

-- A new `g`, a static one, and `f`.
abbrev methods : List MemberInfo
methods = member 1 2 3 ∷ member 9 2 3 ∷ member 1 1 3 ∷ []

abbrev slots : List (Option ℕ)
slots = some 5 ∷ none ∷ some 4 ∷ []

-- A boolean, a static reference and a long.
abbrev fields : List MemberInfo
fields = member 0 1 4 ∷ member 8 1 6 ∷ member 0 2 5 ∷ []

abbrev allocate_static : ℕ → ℕ × ℕ
allocate_static n = (n, n + 8)

abbrev placed_fields : List Field
placed_fields =
    instance_field (b'f' ∷ []) (b'Z' ∷ []) 8
    ∷ static_reference (b'f' ∷ []) (b'L' ∷ b'A' ∷ b';' ∷ []) 0
    ∷ instance_field (b'g' ∷ []) (b'J' ∷ []) 16
    ∷ []

placed : lay_out_fields alignment allocate_static pool fields 0 0 ≡ ok (placed_fields, 16, 8)
unfolding lay_out_fields
placed = refl

lay_out_fields-Placed_example : Placed pool 0 fields placed_fields 16
lay_out_fields-Placed_example =
    lay_out_fields-Placed pool alignment allocate_static fields 0 0 placed

-- The class of `[I`, which refers to that of `I`.
abbrev int_array : List ℕ
int_array = b'[' ∷ b'I' ∷ []

abbrev loaded : ClassRef × ClassLoader ℕ
loaded =
    register int_array (create_array alignment 4 (create_primitive 4 (b'I' ∷ []))) (create_loader 0)

load_int_array :
    for_name alignment allocate_static (λ name. none) 2 int_array (create_loader 0) ≡ ok loaded
unfolding for_name create_loader
load_int_array = refl

for_name-IsLoaded_example : IsLoaded (create_loader 0) loaded
for_name-IsLoaded_example =
    for_name-IsLoaded alignment allocate_static (λ name. none) 2 int_array (create_loader 0)
      (create_loader-IsLoader 0) load_int_array

-- `[[[I`
for_name-arrays_example :
    (result : ClassRef × ClassLoader ℕ) × (for_name alignment allocate_static
        (λ name. none)
        4
        (arrays 3 (b'I' ∷ []))
        (create_loader 0)
      ≡ ok result)
    × IsLoaded (create_loader 0) result
unfolding for_name_loaded create_loader
for_name-arrays_example =
    for_name-arrays alignment allocate_static (λ name. none) 3 4 (b'I' ∷ []) (create_loader 0)
      (create_loader-IsLoader {S = ℕ} 0) refl (omega arith)
