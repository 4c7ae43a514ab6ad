-- ===== src/Class/ClassFile/Tests.antt =====
-- A small class file, and the theorems on reading it.
use jllvm.Base.{ℕ, ◌≡◌, refl, List, [], ◌∷◌, ◌++◌, arith, inl, inr, ok}
use jllvm.Support.Bytes.{encode}
use jllvm.Class.ClassFile.Text.{to_utf8}
use jllvm.Class.ClassFile.Text.Encoded.{modified_text, utf8_text, to_utf8-modified_text}
use jllvm.Class.ClassFile.Constants.{
  ConstantPoolInfo, class_info, utf8_info, long_info, monostate, is_wide, parse_constant_pool,
  resolve_utf8, tag_value,
}
use jllvm.Class.ClassFile.Constants.RoundTrip.{EncodesPool, parse_constant_pool-EncodesPool}
use jllvm.Class.ClassFile.Members.{MemberInfo, Code, parse_code, parse_members}
use jllvm.Class.ClassFile.Members.RoundTrip.{
  Member, write_members, write_code, AreRead, parse_members-write, parse_code-write,
}
use jllvm.Class.ClassFile.RoundTrip.{Contents, IsContents, write, IsFile, parse_from_file-write}
use jllvm.Class.ClassFile.{ClassFile, class_name, parse_from_file}

-- `A`, the zero, an umlaut, a Chinese character and, behind an ASCII one, an emoji.
abbrev some_text : List ℕ
some_text = 65 ∷ 0 ∷ 228 ∷ 35486 ∷ 66 ∷ 128512 ∷ []

to_utf8-modified_text_example : to_utf8 (modified_text some_text) ≡ ok (utf8_text some_text)
to_utf8-modified_text_example = to_utf8-modified_text some_text (
  omega arith,
  (λ e. omega arith),
  (λ e. omega arith),
  (
    omega arith,
    (λ e. omega arith),
    (λ e. omega arith),
    (
      omega arith,
      (λ e. omega arith),
      (λ e. omega arith),
      (
        omega arith,
        (λ e. omega arith),
        (λ e. omega arith),
        (omega arith, (λ e. omega arith), (λ e. absurd (cc)), (omega arith, λ e. omega arith)),
      ),
    ),
  ),
)

-- The UTF-8 of U+D55C U+AE00 comes out garbled, since a lead byte 0xED is taken for a surrogate.
hangul : to_utf8 (modified_text (54620 ∷ 44544 ∷ [])) ≡ ok (241 ∷ 167 ∷ 136 ∷ 128 ∷ [])
unfolding to_utf8
hangul = refl

-- `A`, the class of that name, and a long.
abbrev pool : List ConstantPoolInfo
pool = utf8_info (b'A' ∷ []) ∷ class_info 1 ∷ long_info 5 ∷ monostate ∷ []

abbrev pool_bytes : List ℕ
pool_bytes =
    (encode 1 1 ++ (encode 2 1 ++ b'A' ∷ []))
    ++ ((encode 1 7 ++ encode 2 1) ++ ((encode 1 5 ++ encode 8 5) ++ []))

pool-EncodesPool : EncodesPool pool pool_bytes
unfolding tag_value is_wide
pool-EncodesPool = (
  _,
  _,
  refl,
  (b'A' ∷ [], (omega arith, λ e. omega arith), refl, omega arith, refl),
  inr (
    refl,
    (
      _,
      _,
      refl,
      (omega arith, refl),
      inr (refl, (_, _, refl, (omega arith, refl), inl (refl, refl, refl))),
    ),
  ),
)

parse_constant_pool-EncodesPool_example :
    parse_constant_pool 4 (pool_bytes ++ 1 ∷ []) ≡ ok (pool, 1 ∷ [])
parse_constant_pool-EncodesPool_example =
    parse_constant_pool-EncodesPool pool pool_bytes (1 ∷ []) pool-EncodesPool

abbrev method : Member
method = record {
  access_flags = 9;
  name_index = 1;
  descriptor_index = 1;
  attributes = record { name_index = 1; name = b'A' ∷ []; bytes = 1 ∷ 2 ∷ [] } ∷ [];
}

parse_members-write_example :
    (infos : List MemberInfo) × (parse_members pool 1 (write_members (method ∷ []) (7 ∷ []))
      ≡ ok (infos, 7 ∷ []))
    × AreRead (method ∷ []) infos
unfolding resolve_utf8
parse_members-write_example =
    parse_members-write pool (method ∷ []) (7 ∷ [])
      (omega arith, omega arith, omega arith, omega arith, (omega arith, omega arith, refl, tt), tt)

abbrev code : Code
code = record {
  max_stack = 2;
  max_locals = 1;
  code = 42 ∷ 177 ∷ [];
  exception_table = record { start_pc = 0; end_pc = 1; handler_pc = 1; catch_type = 0 } ∷ [];
}

parse_code-write_example : parse_code (write_code code (0 ∷ 0 ∷ [])) ≡ ok code
parse_code-write_example =
    parse_code-write code (0 ∷ 0 ∷ []) (omega arith) (omega arith) (omega arith) (omega arith)
      (omega arith, omega arith, omega arith, omega arith, tt)

abbrev contents : Contents
contents = record {
  minor_version = 0;
  major_version = 61;
  pool = pool;
  pool_bytes = pool_bytes;
  access_flags = 33;
  this_class = 2;
  super_class = 0;
  interfaces = (2, b'A' ∷ []) ∷ [];
  fields = [];
  methods = method ∷ [];
  attributes = [];
}

contents-IsContents : IsContents contents
unfolding resolve_utf8 class_name
contents-IsContents = record {
  minor = omega arith;
  major = omega arith;
  pool = pool-EncodesPool;
  pool_count = omega arith;
  access = omega arith;
  this = omega arith;
  super = omega arith;
  interface_count = omega arith;
  interfaces = (omega arith, refl, tt);
  field_count = omega arith;
  fields = tt;
  method_count = omega arith;
  methods = (
    omega arith,
    omega arith,
    omega arith,
    omega arith,
    (omega arith, omega arith, refl, tt),
    tt,
  );
  attribute_count = omega arith;
  attributes = tt;
}

parse_from_file-write_example :
    (file : ClassFile) × (parse_from_file (write contents) ≡ ok file) × IsFile contents file
parse_from_file-write_example = parse_from_file-write contents contents-IsContents
