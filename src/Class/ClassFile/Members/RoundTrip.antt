-- ===== src/Class/ClassFile/Members/RoundTrip.antt =====
-- src/jllvm/class/ClassFile.cpp: members, attributes and code, and their writers, which put their
-- bytes before those of the rest.
use jllvm.Base.{
  ℕ, ◌^◌, ◌<◌, ◌≡◌, refl, sym, ap, ◌∙◌, inl, inr, Bool, true, false, Bool-cases, Option, none, some,
  Option-cases, if◌then◌else◌, text_eq, text_eq_iff, List, [], ◌∷◌, length, ok,
}
use jllvm.Support.Bytes.{◌+>◌, encode}
use jllvm.Support.Bytes.RoundTrip.{consume-encode}
use jllvm.Class.ClassFile.Constants.{ConstantPoolInfo, resolve_utf8}
use jllvm.Class.ClassFile.Constants.RoundTrip.{consume_raw_string-append}
use jllvm.Class.ClassFile.Members.{
  AttributeMap, find, insert, parse_attribute_info, parse_attributes, MemberInfo,
  parse_field_or_method_info, parse_members, ExceptionTable, Code, parse_exception_table,
  parse_code,
}

-- An attribute in the file: the index of its name, the name, and the bytes.
pub record Attribute : Type 0 where
  pub name_index : ℕ
  pub name : List ℕ
  pub bytes : List ℕ

abbrev pub write_attributes : List Attribute → List ℕ → List ℕ
write_attributes [] rest = rest
write_attributes (a ∷ more) rest =
    encode 2 a.name_index +> encode 4 (length a.bytes) +> a.bytes +> write_attributes more rest

abbrev pub AttributesFit : List ConstantPoolInfo → List Attribute → Type 0
AttributesFit pool [] = Unit
AttributesFit pool (a ∷ more) =
    (a.name_index < 256 ^ 2)
    × (length a.bytes < 256 ^ 4)
    × (resolve_utf8 pool a.name_index ≡ ok a.name)
    × AttributesFit pool more

-- The bytes of the first attribute with a name.
abbrev pub first_named : List ℕ → List Attribute → Option (List ℕ)
first_named key [] = none
first_named key (a ∷ more) = if text_eq a.name key then some a.bytes else first_named key more

-- A map in which each name has the bytes of the first attribute with it, and no other name is there.
abbrev pub AreNamed : List Attribute → AttributeMap → Type 0
AreNamed attributes map = (key : List ℕ) → find key map ≡ first_named key attributes

-- The map with each attribute inserted in turn.
abbrev insert_all : List Attribute → AttributeMap → AttributeMap
insert_all [] attributes = attributes
insert_all (a ∷ more) attributes = insert_all more (insert a.name a.bytes attributes)

or_else : Option (List ℕ) → Option (List ℕ) → Option (List ℕ)
or_else none later = later
or_else (some v) later = some v

or_else-none : (o : Option (List ℕ)) → o ≡ or_else o none
unfolding or_else
or_else-none none = refl
or_else-none (some v) = refl

or_else-if :
    (o : Option (List ℕ)) (b : Bool) (v : List ℕ) (later : Option (List ℕ))
    → or_else (or_else o (if b then some v else none)) later
      ≡ or_else o (if b then some v else later)
unfolding or_else
or_else-if none true v later = refl
or_else-if none false v later = refl
or_else-if (some w) b v later = refl

insert-find :
    (name value : List ℕ) (map : AttributeMap)
    → insert name value map ≡ elim (find name map) [ none ↦ (name, value) ∷ map | some old ↦ map ]
unfolding insert
insert-find name value map = refl

find-insert :
    (key name value : List ℕ) (map : AttributeMap)
    → find key (insert name value map)
      ≡ or_else (find key map) (if text_eq name key then some value else none)
unfolding find or_else
find-insert key name value map =
    ap (find key) (insert-find name value map) ∙ elim (Option-cases (find name map)) [
      | inr (old, there) ↦ rw there (elim (Bool-cases (text_eq name key)) [
        | inr other ↦ rw other (or_else-none (find key map))
        | inl same ↦
            let e : name ≡ key = (text_eq_iff name key).0 same in
            let there' : find key map ≡ some old = ap (λ k. find k map) (sym e) ∙ there in
            rw there' refl
      ])
      | inl absent ↦ rw absent (elim (Bool-cases (text_eq name key)) [
        | inr other ↦ rw other (or_else-none (find key map))
        | inl same ↦
            let e : name ≡ key = (text_eq_iff name key).0 same in
            let absent' : find key map ≡ none = ap (λ k. find k map) (sym e) ∙ absent in
            rw (same, absent') refl
      ])
    ]

find-insert_all :
    (key : List ℕ) (more : List Attribute) (map : AttributeMap)
    → find key (insert_all more map) ≡ or_else (find key map) (first_named key more)
unfolding or_else
find-insert_all key [] map = or_else-none (find key map)
find-insert_all key (a ∷ more) map =
    find-insert_all key more (insert a.name a.bytes map)
    ∙ ap (λ o. or_else o (first_named key more)) (find-insert key a.name a.bytes map)
    ∙ or_else-if (find key map) (text_eq a.name key) a.bytes (first_named key more)

AreNamed-insert_all : (attributes : List Attribute) → AreNamed attributes (insert_all attributes [])
unfolding find or_else
AreNamed-insert_all attributes key = find-insert_all key attributes []

parse_attribute_info-write :
    (n : ℕ) (raw rest : List ℕ)
    → n < 256 ^ 2
    → length raw < 256 ^ 4
    → parse_attribute_info (encode 2 n +> encode 4 (length raw) +> raw +> rest)
      ≡ ok ((n, raw), rest)
unfolding parse_attribute_info
parse_attribute_info-write n raw rest hn hl =
    rw
      (
        consume-encode 2 n (encode 4 (length raw) +> raw +> rest) hn,
        consume-encode 4 (length raw) (raw +> rest) hl,
        consume_raw_string-append raw rest,
      )
      refl

parse_attributes-insert_all :
    (pool : List ConstantPoolInfo) (more : List Attribute) (attributes : AttributeMap)
    (rest : List ℕ)
    → AttributesFit pool more
    → parse_attributes pool (length more) attributes (write_attributes more rest)
      ≡ ok (insert_all more attributes, rest)
unfolding parse_attributes
parse_attributes-insert_all pool [] attributes rest h = refl
parse_attributes-insert_all pool (a ∷ more) attributes rest (hn, hl, named, h) =
    rw
      (
        parse_attribute_info-write a.name_index a.bytes (write_attributes more rest) hn hl,
        named,
        parse_attributes-insert_all pool more (insert a.name a.bytes attributes) rest h,
      )
      refl

pub parse_attributes-write :
    (pool : List ConstantPoolInfo) (more : List Attribute) (rest : List ℕ)
    → AttributesFit pool more
    → (map : AttributeMap) × (parse_attributes pool (length more) [] (write_attributes more rest)
        ≡ ok (map, rest))
      × AreNamed more map
parse_attributes-write pool more rest h =
    (insert_all more [], parse_attributes-insert_all pool more [] rest h, AreNamed-insert_all more)

-- A field or a method in the file.
pub record Member : Type 0 where
  pub access_flags : ℕ
  pub name_index : ℕ
  pub descriptor_index : ℕ
  pub attributes : List Attribute

abbrev pub write_members : List Member → List ℕ → List ℕ
write_members [] rest = rest
write_members (m ∷ ms) rest =
    encode 2 m.access_flags
    +> encode 2 m.name_index
    +> encode 2 m.descriptor_index
    +> encode 2 (length m.attributes)
    +> write_attributes m.attributes (write_members ms rest)

abbrev pub MembersFit : List ConstantPoolInfo → List Member → Type 0
MembersFit pool [] = Unit
MembersFit pool (m ∷ ms) =
    (m.access_flags < 256 ^ 2)
    × (m.name_index < 256 ^ 2)
    × (m.descriptor_index < 256 ^ 2)
    × (length m.attributes < 256 ^ 2)
    × AttributesFit pool m.attributes
    × MembersFit pool ms

abbrev member_infos : List Member → List MemberInfo
member_infos [] = []
member_infos (m ∷ ms) =
    record {
      access_flags = m.access_flags;
      name_index = m.name_index;
      descriptor_index = m.descriptor_index;
      attributes = insert_all m.attributes [];
    }
    ∷ member_infos ms

-- Along the members: the same values, and the attributes by their names.
abbrev pub AreRead : List Member → List MemberInfo → Type 0
AreRead [] [] = Unit
AreRead (m ∷ ms) (info ∷ infos) =
    (info.access_flags ≡ m.access_flags)
    × (info.name_index ≡ m.name_index)
    × (info.descriptor_index ≡ m.descriptor_index)
    × AreNamed m.attributes info.attributes
    × AreRead ms infos
AreRead _ _ = ⊥

member_infos-AreRead : (ms : List Member) → AreRead ms (member_infos ms)
member_infos-AreRead [] = tt
member_infos-AreRead (m ∷ ms) =
    (refl, refl, refl, AreNamed-insert_all m.attributes, member_infos-AreRead ms)

parse_members-infos :
    (pool : List ConstantPoolInfo) (ms : List Member) (rest : List ℕ)
    → MembersFit pool ms
    → parse_members pool (length ms) (write_members ms rest) ≡ ok (member_infos ms, rest)
unfolding parse_members parse_field_or_method_info
parse_members-infos pool [] rest h = refl
parse_members-infos pool (m ∷ ms) rest (hf, hn, hd, hc, ha, h) =
    let last = write_attributes m.attributes (write_members ms rest) in
    let count = encode 2 (length m.attributes) +> last in
    rw
      (
        consume-encode 2 m.access_flags
            (encode 2 m.name_index +> encode 2 m.descriptor_index +> count) hf,
        consume-encode 2 m.name_index (encode 2 m.descriptor_index +> count) hn,
        consume-encode 2 m.descriptor_index count hd,
        consume-encode 2 (length m.attributes) last hc,
        parse_attributes-insert_all pool m.attributes [] (write_members ms rest) ha,
        parse_members-infos pool ms rest h,
      )
      refl

-- Written members whose indices and counts fit their fields and whose attribute names resolve are
-- read back in order with their flags and indices; in each of them a name has the bytes of the
-- first attribute with that name, and a name without attribute has none; and what follows them is
-- left to read.
pub parse_members-write :
    (pool : List ConstantPoolInfo) (ms : List Member) (rest : List ℕ)
    → MembersFit pool ms
    → (infos : List MemberInfo) × (parse_members pool (length ms) (write_members ms rest)
        ≡ ok (infos, rest))
      × AreRead ms infos
parse_members-write pool ms rest h =
    (member_infos ms, parse_members-infos pool ms rest h, member_infos-AreRead ms)

abbrev pub write_exception_table : List ExceptionTable → List ℕ → List ℕ
write_exception_table [] rest = rest
write_exception_table (e ∷ es) rest =
    encode 2 e.start_pc
    +> encode 2 e.end_pc
    +> encode 2 e.handler_pc
    +> encode 2 e.catch_type
    +> write_exception_table es rest

abbrev pub write_code : Code → List ℕ → List ℕ
write_code c rest =
    encode 2 c.max_stack
    +> encode 2 c.max_locals
    +> encode 4 (length c.code)
    +> c.code
    +> encode 2 (length c.exception_table)
    +> write_exception_table c.exception_table rest

abbrev pub ExceptionsFit : List ExceptionTable → Type 0
ExceptionsFit [] = Unit
ExceptionsFit (e ∷ es) =
    (e.start_pc < 256 ^ 2)
    × (e.end_pc < 256 ^ 2)
    × (e.handler_pc < 256 ^ 2)
    × (e.catch_type < 256 ^ 2)
    × ExceptionsFit es

parse_exception_table-write :
    (es : List ExceptionTable) (rest : List ℕ)
    → ExceptionsFit es
    → parse_exception_table (length es) (write_exception_table es rest) ≡ ok (es, rest)
unfolding parse_exception_table
parse_exception_table-write [] rest h = refl
parse_exception_table-write (e ∷ es) rest (hs, he, hh, hc, h) =
    let last = write_exception_table es rest in
    rw
      (
        consume-encode 2 e.start_pc
            (encode 2 e.end_pc +> encode 2 e.handler_pc +> encode 2 e.catch_type +> last) hs,
        consume-encode 2 e.end_pc (encode 2 e.handler_pc +> encode 2 e.catch_type +> last) he,
        consume-encode 2 e.handler_pc (encode 2 e.catch_type +> last) hh,
        consume-encode 2 e.catch_type last hc,
        parse_exception_table-write es rest h,
      )
      refl

-- A Code attribute whose values fit their fields is read back from its bytes, whatever attributes
-- of its own follow.
pub parse_code-write :
    (c : Code) (rest : List ℕ)
    → c.max_stack < 256 ^ 2
    → c.max_locals < 256 ^ 2
    → length c.code < 256 ^ 4
    → length c.exception_table < 256 ^ 2
    → ExceptionsFit c.exception_table
    → parse_code (write_code c rest) ≡ ok c
unfolding parse_code
parse_code-write c rest hs hl hc he h =
    let last =
      encode 2 (length c.exception_table) +> write_exception_table c.exception_table rest in
    rw
      (
        consume-encode 2 c.max_stack
            (encode 2 c.max_locals +> encode 4 (length c.code) +> c.code +> last) hs,
        consume-encode 2 c.max_locals (encode 4 (length c.code) +> c.code +> last) hl,
        consume-encode 4 (length c.code) (c.code +> last) hc,
        consume_raw_string-append c.code last,
        consume-encode 2 (length c.exception_table) (write_exception_table c.exception_table rest)
            he,
        parse_exception_table-write c.exception_table rest h,
      )
      refl
