-- ===== src/Class/ClassFile/Constants/RoundTrip.antt =====
-- src/jllvm/class/ClassFile.cpp: the constant pool, and the encoding of constants.
use jllvm.Base.{
  ℕ, ◌^◌, ◌<◌, ◌≡◌, refl, ap, ◌∙◌, ◌⊎◌, inl, inr, Bool, true, false, List, [], ◌∷◌, ◌++◌, Option,
  none, some, arith, le→leb, length, length-append, append_assoc, take-append_of_length,
  drop-append_of_length, ok, fails, unreachable,
}
use jllvm.Support.Bytes.{consume_raw_string, encode}
use jllvm.Support.Bytes.RoundTrip.{consume-encode}
use jllvm.Class.ClassFile.Text.Encoded.{
  modified_text, utf8_text, IsSeparated, to_utf8-modified_text,
}
use jllvm.Class.ClassFile.Constants.Rounding.{IsRounded, IsRounded-to_floating}
use jllvm.Class.ClassFile.Constants.{
  ConstantPoolInfo, monostate, class_info, string_info, method_type_info, module_info, package_info,
  field_ref_info, method_ref_info, interface_method_ref_info, integer_info, float_info, long_info,
  double_info, name_and_type_info, method_handle_info, dynamic_info, invoke_dynamic_info, utf8_info,
  ConstantPoolTag, tag_value, tags, select, consume_pair, consume_one, consume_two, parse_by_tag,
  parse_constant_pool_info, is_wide, parse_constant_pool, class, field_ref, method_ref,
  interface_method_ref, string, integer, float, long, double, name_and_type, utf8, method_handle,
  method_type, dynamic, invoke_dynamic, module_tag, package_tag,
}

-- The class file format: the tag, and the bytes behind it.
abbrev Tagged : ℕ → List ℕ → List ℕ → Type 0
Tagged tag behind bytes = bytes ≡ encode 1 tag ++ behind

abbrev One : ℕ → ℕ → List ℕ → Type 0
One tag a bytes = (a < 256 ^ 2) × Tagged tag (encode 2 a) bytes

abbrev Two : ℕ → ℕ → ℕ → List ℕ → Type 0
Two tag a b bytes = (a < 256 ^ 2) × (b < 256 ^ 2) × Tagged tag (encode 2 a ++ encode 2 b) bytes

-- `bytes` stand for `info`. A floating point constant has the value of its bits as an integer, in the
-- precision of its type.
abbrev pub Encodes : ConstantPoolInfo → List ℕ → Type 0
Encodes monostate bytes = ⊥
Encodes (class_info a) bytes = One 7 a bytes
Encodes (string_info a) bytes = One 8 a bytes
Encodes (method_type_info a) bytes = One 16 a bytes
Encodes (module_info a) bytes = One 19 a bytes
Encodes (package_info a) bytes = One 20 a bytes
Encodes (field_ref_info a b) bytes = Two 9 a b bytes
Encodes (method_ref_info a b) bytes = Two 10 a b bytes
Encodes (interface_method_ref_info a b) bytes = Two 11 a b bytes
Encodes (integer_info v) bytes = (v < 256 ^ 4) × Tagged 3 (encode 4 v) bytes
Encodes (float_info v) bytes =
    (n : ℕ) × (n < 256 ^ 4) × IsRounded 24 n v × Tagged 4 (encode 4 n) bytes
Encodes (long_info v) bytes = (v < 256 ^ 8) × Tagged 5 (encode 8 v) bytes
Encodes (double_info v) bytes =
    (n : ℕ) × (n < 256 ^ 8) × IsRounded 53 n v × Tagged 6 (encode 8 n) bytes
Encodes (name_and_type_info a b) bytes = Two 12 a b bytes
Encodes (method_handle_info a b) bytes =
    (a < 256 ^ 1) × (b < 256 ^ 2) × Tagged 15 (encode 1 a ++ encode 2 b) bytes
Encodes (dynamic_info a b) bytes = Two 17 a b bytes
Encodes (invoke_dynamic_info a b) bytes = Two 18 a b bytes
Encodes (utf8_info text) bytes =
    (cps : List ℕ) × IsSeparated cps
    × (text ≡ utf8_text cps)
    × (length (modified_text cps) < 256 ^ 2)
    × Tagged 1 (encode 2 (length (modified_text cps)) ++ modified_text cps) bytes

selected : (tag : ConstantPoolTag) → select (tag_value tag) tags ≡ some tag
unfolding select tag_value
selected class = refl
selected field_ref = refl
selected method_ref = refl
selected interface_method_ref = refl
selected string = refl
selected integer = refl
selected float = refl
selected long = refl
selected double = refl
selected name_and_type = refl
selected utf8 = refl
selected method_handle = refl
selected method_type = refl
selected dynamic = refl
selected invoke_dynamic = refl
selected module_tag = refl
selected package_tag = refl

tag_value-lt : (tag : ConstantPoolTag) → tag_value tag < 256 ^ 1
unfolding tag_value
tag_value-lt class = omega arith
tag_value-lt field_ref = omega arith
tag_value-lt method_ref = omega arith
tag_value-lt interface_method_ref = omega arith
tag_value-lt string = omega arith
tag_value-lt integer = omega arith
tag_value-lt float = omega arith
tag_value-lt long = omega arith
tag_value-lt double = omega arith
tag_value-lt name_and_type = omega arith
tag_value-lt utf8 = omega arith
tag_value-lt method_handle = omega arith
tag_value-lt method_type = omega arith
tag_value-lt dynamic = omega arith
tag_value-lt invoke_dynamic = omega arith
tag_value-lt module_tag = omega arith
tag_value-lt package_tag = omega arith

parse_tagged :
    (tag : ConstantPoolTag) (bytes : List ℕ)
    → parse_constant_pool_info (encode 1 (tag_value tag) ++ bytes) ≡ parse_by_tag tag bytes
unfolding parse_constant_pool_info
parse_tagged tag bytes = rw (consume-encode 1 (tag_value tag) bytes (tag_value-lt tag)) (
    ap
      (λ (found : Option ConstantPoolTag). elim found [
        | none ↦ fails unreachable
        | some found_tag ↦ parse_by_tag found_tag bytes
      ])
      (selected tag))

-- The bytes behind the tag, before the rest of the file.
tagged :
    (tag : ConstantPoolTag) (behind bytes rest : List ℕ)
    → Tagged (tag_value tag) behind bytes
    → parse_constant_pool_info (bytes ++ rest) ≡ parse_by_tag tag (behind ++ rest)
tagged tag behind bytes rest e =
    rw (e, append_assoc (encode 1 (tag_value tag)) behind rest) (parse_tagged tag (behind ++ rest))

consume_one-encode :
    (info : ℕ → ConstantPoolInfo) (a : ℕ) (rest : List ℕ)
    → a < 256 ^ 2
    → consume_one info (encode 2 a ++ rest) ≡ ok (info a, rest)
unfolding consume_one
consume_one-encode info a rest h = rw (consume-encode 2 a rest h) refl

consume_two-encode :
    (info : ℕ → ℕ → ConstantPoolInfo) (a b : ℕ) (rest : List ℕ)
    → a < 256 ^ 2
    → b < 256 ^ 2
    → consume_two info ((encode 2 a ++ encode 2 b) ++ rest) ≡ ok (info a b, rest)
unfolding consume_two consume_pair
consume_two-encode info a b rest ha hb =
    rw
      (
        append_assoc (encode 2 a) (encode 2 b) rest,
        consume-encode 2 a (encode 2 b ++ rest) ha,
        consume-encode 2 b rest hb,
      )
      refl

pub consume_raw_string-append :
    (raw rest : List ℕ) → consume_raw_string (length raw) (raw ++ rest) ≡ ok (raw, rest)
unfolding consume_raw_string
consume_raw_string-append raw rest =
    rw
      (
        le→leb (length raw) (length (raw ++ rest)) (omega (arith, length-append raw rest)),
        take-append_of_length (length raw) raw rest refl,
        drop-append_of_length (length raw) raw rest refl,
      )
      refl

-- Each constant is read back from its encoding, and what follows it is left to read.
pub parse_constant_pool_info-Encodes :
    (info : ConstantPoolInfo) (bytes rest : List ℕ)
    → Encodes info bytes
    → parse_constant_pool_info (bytes ++ rest) ≡ ok (info, rest)
unfolding parse_by_tag tag_value
parse_constant_pool_info-Encodes monostate bytes rest e = absurd e
parse_constant_pool_info-Encodes (class_info a) bytes rest (h, e) =
    tagged class _ bytes rest e ∙ consume_one-encode class_info a rest h
parse_constant_pool_info-Encodes (string_info a) bytes rest (h, e) =
    tagged string _ bytes rest e ∙ consume_one-encode string_info a rest h
parse_constant_pool_info-Encodes (method_type_info a) bytes rest (h, e) =
    tagged method_type _ bytes rest e ∙ consume_one-encode method_type_info a rest h
parse_constant_pool_info-Encodes (module_info a) bytes rest (h, e) =
    tagged module_tag _ bytes rest e ∙ consume_one-encode module_info a rest h
parse_constant_pool_info-Encodes (package_info a) bytes rest (h, e) =
    tagged package_tag _ bytes rest e ∙ consume_one-encode package_info a rest h
parse_constant_pool_info-Encodes (field_ref_info a b) bytes rest (ha, hb, e) =
    tagged field_ref _ bytes rest e ∙ consume_two-encode field_ref_info a b rest ha hb
parse_constant_pool_info-Encodes (method_ref_info a b) bytes rest (ha, hb, e) =
    tagged method_ref _ bytes rest e ∙ consume_two-encode method_ref_info a b rest ha hb
parse_constant_pool_info-Encodes (interface_method_ref_info a b) bytes rest (ha, hb, e) =
    tagged interface_method_ref _ bytes rest e
    ∙ consume_two-encode interface_method_ref_info a b rest ha hb
parse_constant_pool_info-Encodes (name_and_type_info a b) bytes rest (ha, hb, e) =
    tagged name_and_type _ bytes rest e ∙ consume_two-encode name_and_type_info a b rest ha hb
parse_constant_pool_info-Encodes (dynamic_info a b) bytes rest (ha, hb, e) =
    tagged dynamic _ bytes rest e ∙ consume_two-encode dynamic_info a b rest ha hb
parse_constant_pool_info-Encodes (invoke_dynamic_info a b) bytes rest (ha, hb, e) =
    tagged invoke_dynamic _ bytes rest e ∙ consume_two-encode invoke_dynamic_info a b rest ha hb
parse_constant_pool_info-Encodes (integer_info v) bytes rest (h, e) =
    tagged integer _ bytes rest e ∙ rw (consume-encode 4 v rest h) refl
parse_constant_pool_info-Encodes (long_info v) bytes rest (h, e) =
    tagged long _ bytes rest e ∙ rw (consume-encode 8 v rest h) refl
parse_constant_pool_info-Encodes (float_info v) bytes rest (n, h, value, e) =
    tagged float _ bytes rest e
    ∙ rw (consume-encode 4 n rest h, IsRounded-to_floating 24 n v (omega (arith, h)) value) refl
parse_constant_pool_info-Encodes (double_info v) bytes rest (n, h, value, e) =
    tagged double _ bytes rest e
    ∙ rw (consume-encode 8 n rest h, IsRounded-to_floating 53 n v (omega (arith, h)) value) refl
parse_constant_pool_info-Encodes (method_handle_info a b) bytes rest (ha, hb, e) =
    tagged method_handle _ bytes rest e
    ∙ rw
        (
          append_assoc (encode 1 a) (encode 2 b) rest,
          consume-encode 1 a (encode 2 b ++ rest) ha,
          consume-encode 2 b rest hb,
        )
        refl
parse_constant_pool_info-Encodes (utf8_info text) bytes rest (cps, s, value, h, e) =
    let raw = modified_text cps in
    tagged utf8 _ bytes rest e
    ∙ rw
        (
          append_assoc (encode 2 (length raw)) raw rest,
          consume-encode 2 (length raw) (raw ++ rest) h,
          consume_raw_string-append raw rest,
          to_utf8-modified_text cps s,
          value,
        )
        refl

-- Of the constants, a long and a double count as two entries.
abbrev pub takes_two : ConstantPoolInfo → Bool
takes_two (long_info v) = true
takes_two (double_info v) = true
takes_two _ = false

is_wide-takes_two : (info : ConstantPoolInfo) → is_wide info ≡ takes_two info
unfolding is_wide
is_wide-takes_two monostate = refl
is_wide-takes_two (class_info a) = refl
is_wide-takes_two (string_info a) = refl
is_wide-takes_two (method_type_info a) = refl
is_wide-takes_two (module_info a) = refl
is_wide-takes_two (package_info a) = refl
is_wide-takes_two (field_ref_info a b) = refl
is_wide-takes_two (method_ref_info a b) = refl
is_wide-takes_two (interface_method_ref_info a b) = refl
is_wide-takes_two (integer_info v) = refl
is_wide-takes_two (float_info v) = refl
is_wide-takes_two (long_info v) = refl
is_wide-takes_two (double_info v) = refl
is_wide-takes_two (name_and_type_info a b) = refl
is_wide-takes_two (method_handle_info a b) = refl
is_wide-takes_two (dynamic_info a b) = refl
is_wide-takes_two (invoke_dynamic_info a b) = refl
is_wide-takes_two (utf8_info t) = refl

-- The entries in order, where an empty one follows a long or a double.
abbrev pub EncodesPool : List ConstantPoolInfo → List ℕ → Type 0
EncodesPool [] bytes = bytes ≡ []
EncodesPool (info ∷ []) bytes = Encodes info bytes
EncodesPool (info ∷ next ∷ rest) bytes =
    (first behind : List ℕ) × (bytes ≡ first ++ behind)
    × Encodes info first
    × (((takes_two info ≡ true) × (next ≡ monostate) × EncodesPool rest behind)
        ⊎ ((takes_two info ≡ false) × EncodesPool (next ∷ rest) behind))

-- The loop over the constant pool reads back, from bytes that encode a pool and whatever follows
-- them, that pool and what follows; behind a long or a double, and only there, it leaves an empty
-- entry, and a floating point constant gets the number of its precision that is nearest to its
-- bits as an integer, the even one of two.
pub parse_constant_pool-EncodesPool :
    (pool : List ConstantPoolInfo) (bytes rest : List ℕ)
    → EncodesPool pool bytes
    → parse_constant_pool (length pool) (bytes ++ rest) ≡ ok (pool, rest)
unfolding parse_constant_pool
parse_constant_pool-EncodesPool [] bytes rest e = rw e refl
parse_constant_pool-EncodesPool (info ∷ []) bytes rest e =
    rw (parse_constant_pool_info-Encodes info bytes rest e) refl
parse_constant_pool-EncodesPool (info ∷ next ∷ infos) bytes rest
      (first, behind, e, h, inl (w, empty, hs)) =
    rw
      (
        e,
        append_assoc first behind rest,
        parse_constant_pool_info-Encodes info first (behind ++ rest) h,
        is_wide-takes_two info ∙ w,
        parse_constant_pool-EncodesPool infos behind rest hs,
        empty,
      )
      refl
parse_constant_pool-EncodesPool (info ∷ next ∷ infos) bytes rest
      (first, behind, e, h, inr (w, hs)) =
    rw
      (
        e,
        append_assoc first behind rest,
        parse_constant_pool_info-Encodes info first (behind ++ rest) h,
        is_wide-takes_two info ∙ w,
        parse_constant_pool-EncodesPool (next ∷ infos) behind rest hs,
      )
      refl
