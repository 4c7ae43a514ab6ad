-- ===== src/Object/ClassLoader/Loading.antt =====
-- src/jllvm/object/ClassLoader.cpp: `add`, `forNameLoaded`, `forName` and the constructor. The class
-- objects are a list that only grows, and a reference is a place in it. The search of the class path
-- is the parameter `read_class`, from the name of a class to the bytes of its file. `created` is what
-- `m_classObjectCreated` has been called with.
pub mod Loaded
pub mod Arrays
use jllvm.Base.{
  ℕ, zero, suc, ◌+◌, ◌-◌, ◌≡◌, Bool, true, false, List, [], ◌∷◌, ◌++◌, Option, none, some,
  if◌then◌else◌, ◌==◌, text_eq, length, get_elem?, Outcome, ok, fails, assertion, fatal,
  out_of_fuel, ◌>>=◌,
}
use jllvm.Class.Descriptors.{front, drop_front}
use jllvm.Class.ClassFile.{ClassFile, parse_from_file, get_this_class, get_super_class}
use jllvm.Class.ClassFile.Constants.{ConstantPoolInfo}
use jllvm.Class.ClassFile.Members.{
  MemberInfo, is_static, is_final, is_native, is_abstract, get_name, get_descriptor,
}
use jllvm.Object.ClassObject.{
  pointer_size, ClassRef, ClassObject, Method, new_method, create, create_primitive, create_array,
  get_field_area_size, Alignment,
}
use jllvm.Object.ClassLoader.Slots.{assign_v_table_slots, visibility}
use jllvm.Object.ClassLoader.Layout.{lay_out_fields}

pub record ClassLoader (S : Type 0) : Type 0 where
  pub objects : List ClassObject
  pub mapping : List (List ℕ × ClassRef)
  pub statics : S
  pub created : List (ClassFile × ClassRef)

-- `m_mapping.find`
unfoldable pub for_name_loaded : List ℕ → List (List ℕ × ClassRef) → Option ClassRef
unfolding text_eq
for_name_loaded name [] = none
for_name_loaded name ((k, ref) ∷ rest) =
    if text_eq k name then some ref else for_name_loaded name rest

-- A new class object under a name; `m_mapping.insert` keeps an entry that is there.
pub register : {S : Type 0} → List ℕ → ClassObject → ClassLoader S → ClassRef × ClassLoader S
unfolding for_name_loaded
register name object loader =
    let ref = length loader.objects in
    let mapping : List (List ℕ × ClassRef) = elim (for_name_loaded name loader.mapping) [
      | none ↦ (name, ref) ∷ loader.mapping
      | some old ↦ loader.mapping
    ] in
    (ref, record loader { objects = loader.objects ++ object ∷ []; mapping = mapping })

-- The primitive types are registered first.
unfoldable pub create_loader : {S : Type 0} → S → ClassLoader S
unfolding create_primitive
create_loader statics = record {
  objects =
      create_primitive 1 (b'B' ∷ [])
      ∷ create_primitive 2 (b'C' ∷ [])
      ∷ create_primitive 8 (b'D' ∷ [])
      ∷ create_primitive 4 (b'F' ∷ [])
      ∷ create_primitive 4 (b'I' ∷ [])
      ∷ create_primitive 8 (b'J' ∷ [])
      ∷ create_primitive 2 (b'S' ∷ [])
      ∷ create_primitive 1 (b'Z' ∷ [])
      ∷ create_primitive 0 (b'V' ∷ [])
      ∷ [];
  mapping =
      (b'B' ∷ [], 0)
      ∷ (b'C' ∷ [], 1)
      ∷ (b'D' ∷ [], 2)
      ∷ (b'F' ∷ [], 3)
      ∷ (b'I' ∷ [], 4)
      ∷ (b'J' ∷ [], 5)
      ∷ (b'S' ∷ [], 6)
      ∷ (b'Z' ∷ [], 7)
      ∷ (b'V' ∷ [], 8)
      ∷ [];
  statics = statics;
  created = [];
}

-- `"L" + className + ";"`
abbrev pub descriptor_of : List ℕ → List ℕ
descriptor_of name = b'L' ∷ (name ++ b';' ∷ [])

drop_back : List ℕ → Outcome (List ℕ)
drop_back [] = fails assertion
drop_back (c ∷ []) = ok []
drop_back (c ∷ d ∷ s) = do rest ← drop_back (d ∷ s); ok (c ∷ rest)

class_at : List ClassObject → ClassRef → Outcome ClassObject
class_at objects ref = elim (get_elem? objects ref) [ none ↦ fails assertion | some c ↦ ok c ]

-- The `getSuperClass` chain. A class object refers to one that was there before it, so their number
-- bounds the chain.
super_chain : ℕ → List ClassObject → Option ClassRef → List ClassObject
super_chain zero objects super = []
super_chain (suc fuel) objects none = []
super_chain (suc fuel) objects (some ref) = elim (get_elem? objects ref) [
  | none ↦ []
  | some c ↦ c ∷ super_chain fuel objects c.super_class
]

make_methods : List ConstantPoolInfo → List MemberInfo → List (Option ℕ) → Outcome (List Method)
unfolding get_name get_descriptor new_method is_static is_final is_native visibility is_abstract
make_methods pool [] slots = ok []
make_methods pool (info ∷ infos) [] = ok []
make_methods pool (info ∷ infos) (slot ∷ slots) = do
  name ← get_name pool info
  descriptor ← get_descriptor pool info
  methods ← make_methods pool infos slots
  ok (
      new_method name descriptor slot (is_static info) (is_final info) (is_native info)
        (visibility info) (is_abstract info)
      ∷ methods)

super_area : List ClassObject → Option ClassRef → Outcome ℕ
unfolding class_at get_field_area_size
super_area objects none = ok 0
super_area objects (some ref) = do c ← class_at objects ref; get_field_area_size c

module _ (alignment : Alignment) {S : Type 0} (allocate_static : S → ℕ × S)
    (read_class : List ℕ → Option (List ℕ)) where
  open alignment use {align_to}

  module _ (for_name : List ℕ → ClassLoader S → Outcome (ClassRef × ClassLoader S)) where
    load_all : List (List ℕ) → ClassLoader S → Outcome (List ClassRef × ClassLoader S)
    load_all [] loader = ok ([], loader)
    load_all (name ∷ names) loader = do
      (ref, loader) ← for_name (descriptor_of name) loader
      (refs, loader) ← load_all names loader
      ok (ref ∷ refs, loader)

    load_super : Option (List ℕ) → ClassLoader S → Outcome (Option ClassRef × ClassLoader S)
    load_super none loader = ok (none, loader)
    load_super (some name) loader = do
      (ref, loader) ← for_name (descriptor_of name) loader
      ok (some ref, loader)

    -- `add` behind the test whether the class is there.
    define_class : ClassFile → List ℕ → ClassLoader S → Outcome (ClassRef × ClassLoader S)
    unfolding load_all load_super assign_v_table_slots super_chain make_methods super_area
        lay_out_fields create register get_super_class
    define_class file name loader = do
      super_name ← get_super_class file
      (super, loader) ← load_super super_name loader
      (interfaces, loader) ← load_all file.interfaces loader
      let chain = super_chain (length loader.objects) loader.objects super
      (slots, count) ← assign_v_table_slots file.constant_pool file.methods chain
      methods ← make_methods file.constant_pool file.methods slots
      start ← super_area loader.objects super
      (fields, size, statics) ←
          lay_out_fields alignment allocate_static file.constant_pool file.fields start
            loader.statics
      let object = create count (align_to size pointer_size) methods fields interfaces name super
      let (ref, loader) = register (descriptor_of name) object (record loader { statics = statics })
      ok (ref, record loader { created = (file, ref) ∷ loader.created })

    add : List ℕ → ClassLoader S → Outcome (ClassRef × ClassLoader S)
    unfolding parse_from_file get_this_class for_name_loaded define_class
    add bytes loader = do
      file ← parse_from_file bytes
      name ← get_this_class file
      elim (for_name_loaded (descriptor_of name) loader.mapping) [
        | some ref ↦ ok (ref, loader)
        | none ↦ define_class file name loader
      ]

  -- `forName`, on fuel for the classes and array types that loading one may load.
  unfoldable pub for_name : ℕ → List ℕ → ClassLoader S → Outcome (ClassRef × ClassLoader S)
  unfolding for_name_loaded front drop_front drop_back class_at register parse_from_file add
  for_name zero descriptor loader = fails out_of_fuel
  for_name (suc fuel) descriptor loader = elim (for_name_loaded descriptor loader.mapping) [
    | some ref ↦ ok (ref, loader)
    | none ↦ (do
      first ← front descriptor
      rest ← drop_front 1 descriptor
      let array : Outcome (ClassRef × ClassLoader S) = (do
        (component_ref, loader) ← for_name fuel rest loader
        component ← class_at loader.objects component_ref
        ok (register descriptor (create_array alignment component_ref component) loader))
      let from_file : Outcome (ClassRef × ClassLoader S) = (do
        name ← drop_back rest
        elim (read_class name) [
          | none ↦ fails fatal
          | some bytes ↦ do file ← parse_from_file bytes; add (for_name fuel) bytes loader
        ])
      if first == b'[' then array else from_file)
  ]
