-- ===== src/Class/ClassFile/RoundTrip.antt =====
-- src/jllvm/class/ClassFile.cpp: `parseFromFile`, and a writer of class files.
use jllvm.Base.{
  ℕ, ◌+◌, ◌-◌, ◌^◌, ◌<◌, ◌≡◌, refl, false, List, [], ◌∷◌, arith, ◌==◌, length, map, ok,
}
use jllvm.Support.Bytes.{◌+>◌, encode}
use jllvm.Support.Bytes.RoundTrip.{consume-encode}
use jllvm.Class.ClassFile.Constants.{ConstantPoolInfo}
use jllvm.Class.ClassFile.Constants.RoundTrip.{EncodesPool, parse_constant_pool-EncodesPool}
use jllvm.Class.ClassFile.Members.RoundTrip.{
  Attribute, write_attributes, AttributesFit, AreNamed, AreRead, parse_attributes-write, Member,
  write_members, MembersFit, parse_members-write,
}
use jllvm.Class.ClassFile.{
  ClassFile, class_name, parse_interfaces, parse_body, magic_number, parse_from_file,
}

-- The index of an interface, and its name.
abbrev pub write_interfaces : List (ℕ × List ℕ) → List ℕ → List ℕ
write_interfaces [] rest = rest
write_interfaces ((index, name) ∷ is) rest = encode 2 index +> write_interfaces is rest

abbrev pub InterfacesFit : List ConstantPoolInfo → List (ℕ × List ℕ) → Type 0
InterfacesFit pool [] = Unit
InterfacesFit pool ((index, name) ∷ is) =
    (index < 256 ^ 2) × (class_name pool index ≡ ok name) × InterfacesFit pool is

parse_interfaces-write :
    (pool : List ConstantPoolInfo) (is : List (ℕ × List ℕ)) (rest : List ℕ)
    → InterfacesFit pool is
    → parse_interfaces pool (length is) (write_interfaces is rest) ≡ ok (map (λ i. i.1) is, rest)
unfolding parse_interfaces
parse_interfaces-write pool [] rest h = refl
parse_interfaces-write pool ((index, name) ∷ is) rest (hi, e, h) =
    rw
      (
        consume-encode 2 index (write_interfaces is rest) hi,
        e,
        parse_interfaces-write pool is rest h,
      )
      refl

-- What a class file says, with the bytes of its constant pool.
pub record Contents : Type 0 where
  pub minor_version : ℕ
  pub major_version : ℕ
  pub pool : List ConstantPoolInfo
  pub pool_bytes : List ℕ
  pub access_flags : ℕ
  pub this_class : ℕ
  pub super_class : ℕ
  pub interfaces : List (ℕ × List ℕ)
  pub fields : List Member
  pub methods : List Member
  pub attributes : List Attribute

pub record IsContents (c : Contents) : Type 0 where
  pub minor : c.minor_version < 256 ^ 2
  pub major : c.major_version < 256 ^ 2
  pub pool : EncodesPool c.pool c.pool_bytes
  pub pool_count : length c.pool + 1 < 256 ^ 2
  pub access : c.access_flags < 256 ^ 2
  pub this : c.this_class < 256 ^ 2
  pub super : c.super_class < 256 ^ 2
  pub interface_count : length c.interfaces < 256 ^ 2
  pub interfaces : InterfacesFit c.pool c.interfaces
  pub field_count : length c.fields < 256 ^ 2
  pub fields : MembersFit c.pool c.fields
  pub method_count : length c.methods < 256 ^ 2
  pub methods : MembersFit c.pool c.methods
  pub attribute_count : length c.attributes < 256 ^ 2
  pub attributes : AttributesFit c.pool c.attributes

-- The file from each count on, so that a reader's state is one of these.
module _ (c : Contents) where
  from_attributes : List ℕ
  from_attributes = encode 2 (length c.attributes) +> write_attributes c.attributes []

  from_methods : List ℕ
  from_methods = encode 2 (length c.methods) +> write_members c.methods from_attributes

  from_fields : List ℕ
  from_fields = encode 2 (length c.fields) +> write_members c.fields from_methods

  from_interfaces : List ℕ
  from_interfaces = encode 2 (length c.interfaces) +> write_interfaces c.interfaces from_fields

  from_access : List ℕ
  unfolding from_interfaces
  from_access =
      encode 2 c.access_flags +> encode 2 c.this_class +> encode 2 c.super_class +> from_interfaces

  from_pool : List ℕ
  unfolding from_access
  from_pool = encode 2 (length c.pool + 1) +> c.pool_bytes +> from_access

  pub write : List ℕ
  unfolding from_pool
  write = encode 4 magic_number +> encode 2 c.minor_version +> encode 2 c.major_version +> from_pool

  -- What the reader makes of it.
  pub record IsFile (file : ClassFile) : Type 0 where
    pub constant_pool : file.constant_pool ≡ c.pool
    pub access_flags : file.access_flags ≡ c.access_flags
    pub this_class : file.this_class ≡ c.this_class
    pub super_class : file.super_class ≡ c.super_class
    pub interfaces : file.interfaces ≡ map (λ i. i.1) c.interfaces
    pub fields : AreRead c.fields file.fields
    pub methods : AreRead c.methods file.methods
    pub attributes : AreNamed c.attributes file.attributes

  module _ (h : IsContents c) where
    parse_body-write : (file : ClassFile) × (parse_body c.pool from_access ≡ ok file) × IsFile file
    unfolding parse_body from_access from_interfaces from_fields from_methods from_attributes
    parse_body-write =
        let (fields, fields_run, fields_read) =
          parse_members-write c.pool c.fields from_methods h.fields in
        let (methods, methods_run, methods_read) =
          parse_members-write c.pool c.methods from_attributes h.methods in
        let (attributes, attributes_run, named) =
          parse_attributes-write c.pool c.attributes [] h.attributes in
        (
          record {
            constant_pool = c.pool;
            access_flags = c.access_flags;
            this_class = c.this_class;
            super_class = c.super_class;
            interfaces = map (λ i. i.1) c.interfaces;
            fields = fields;
            methods = methods;
            attributes = attributes;
          },
          rw
              (
                consume-encode 2 c.access_flags
                    (encode 2 c.this_class +> encode 2 c.super_class +> from_interfaces) h.access,
                consume-encode 2 c.this_class (encode 2 c.super_class +> from_interfaces) h.this,
                consume-encode 2 c.super_class from_interfaces h.super,
                consume-encode 2 (length c.interfaces) (write_interfaces c.interfaces from_fields)
                    h.interface_count,
                parse_interfaces-write c.pool c.interfaces from_fields h.interfaces,
                consume-encode 2 (length c.fields) (write_members c.fields from_methods)
                    h.field_count,
                fields_run,
                consume-encode 2 (length c.methods) (write_members c.methods from_attributes)
                    h.method_count,
                methods_run,
                consume-encode 2 (length c.attributes) (write_attributes c.attributes [])
                    h.attribute_count,
                attributes_run,
              )
              refl,
          record {
            constant_pool = refl;
            access_flags = refl;
            this_class = refl;
            super_class = refl;
            interfaces = refl;
            fields = fields_read;
            methods = methods_read;
            attributes = named;
          },
        )

    -- A class file that is written from contents whose counts and indices fit their fields, whose
    -- names resolve and whose pool bytes encode the pool, is read by parseFromFile as those
    -- contents: the constant pool with its empty entries, the flags and classes, the names of the
    -- interfaces, and the fields and methods in order; in the file and in each member a name has
    -- the bytes of the first attribute with that name, and a name without attribute has none.
    pub parse_from_file-write : (file : ClassFile) × (parse_from_file write ≡ ok file) × IsFile file
    unfolding parse_from_file write from_pool
    parse_from_file-write =
        let some_entries : (length c.pool + 1 == 0) ≡ false = ground arith in
        let count : length c.pool + 1 - 1 ≡ length c.pool = omega arith in
        let (file, run, is_file) = parse_body-write in
        (
          file,
          rw
              (
                consume-encode 4 magic_number
                    (encode 2 c.minor_version +> encode 2 c.major_version +> from_pool)
                    (omega arith),
                consume-encode 2 c.minor_version (encode 2 c.major_version +> from_pool) h.minor,
                consume-encode 2 c.major_version from_pool h.major,
                consume-encode 2 (length c.pool + 1) (c.pool_bytes +> from_access) h.pool_count,
                some_entries,
                count,
                parse_constant_pool-EncodesPool c.pool c.pool_bytes from_access h.pool,
              )
              run,
          is_file,
        )
