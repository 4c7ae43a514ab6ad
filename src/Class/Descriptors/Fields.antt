-- ===== src/Class/Descriptors/Fields.antt =====
-- src/jllvm/class/Descriptors.cpp: `parseFieldType` and the printed field types.
use jllvm.Base.{
  ℕ, ◌+◌, ◌≤◌, ◌<◌, suc, List, [], ◌∷◌, ◌++◌, ◌≡◌, refl, ap, ◌↔◌, some, arith, length, ok, ◌==◌,
  append_assoc, inl, inr, Bool-cases, Option-cases, ==_iff, drop, leb, le→leb, length-append,
  drop-append_suc, >>=-eq-ok, ok-pair,
}
use native.Mathlib.Numerals.{add-one}
use jllvm.Class.Descriptors.{
  BaseType, FieldType, base, object, array, base_type, take_until, drop_front, parse_object_type,
  parse_field_type_impl,
}
use jllvm.Class.Descriptors.Print.{letter, print, IsName, NamesValid}

base_type-letter : (b : BaseType) → base_type (letter b) ≡ some b
unfolding base_type
base_type-letter BaseType.byte = refl
base_type-letter _ = refl

letter-base_type : (c : ℕ) {b : BaseType} → base_type c ≡ some b → c ≡ letter b
unfolding base_type
letter-base_type c h = ground arith

take_until-append :
    (name rest : List ℕ) → IsName name → take_until b';' (name ++ b';' ∷ rest) ≡ name
unfolding take_until
take_until-append [] rest h = refl
take_until-append (c ∷ name) rest h = ground (arith, take_until-append name rest h.1)

take_until-IsName : (s : List ℕ) → IsName (take_until b';' s)
unfolding take_until
take_until-IsName [] = tt
take_until-IsName (c ∷ s) = elim (Bool-cases (c == b';')) [
  | inl stop ↦ rw stop tt
  | inr more ↦ rw more ((λ e. cc (rw e at more)), take_until-IsName s)
]

drop-take_until :
    (s : List ℕ)
    → length (take_until b';' s) < length s
    → s ≡ take_until b';' s ++ b';' ∷ drop (length (take_until b';' s) + 1) s
unfolding take_until
drop-take_until [] h = absurd (omega arith)
drop-take_until (c ∷ s) h = elim (Bool-cases (c == b';')) [
  | inl stop ↦ rw stop (ap (λ d. d ∷ s) ((==_iff c b';').0 stop))
  | inr more ↦
      let shorter : length (take_until b';' s) < length s = ground arith in
      rw (more, add-one) (ap (λ t. c ∷ t) (rw add-one at (drop-take_until s shorter)))
]

parse_object_type-append :
    (name rest : List ℕ)
    → IsName name
    → parse_object_type (name ++ b';' ∷ rest) ≡ ok (object name, rest)
unfolding parse_object_type drop_front
parse_object_type-append name rest h =
    let fits : suc (length name) ≤ length (name ++ b';' ∷ rest) =
      omega (arith, length-append name (b';' ∷ rest)) in
    rw (take_until-append name rest h, add-one, le→leb _ _ fits, drop-append_suc)

-- Parsing a printed field type gives it back, and leaves what follows it.
pub parse_field_type_impl-print :
    (t : FieldType) (rest : List ℕ)
    → NamesValid t
    → parse_field_type_impl (print t ++ rest) ≡ ok (t, rest)
unfolding parse_field_type_impl print
parse_field_type_impl-print (base b) rest h = rw (base_type-letter b, parse_field_type_impl)
parse_field_type_impl-print (object name) rest h =
    rw append_assoc (parse_object_type-append name rest h)
parse_field_type_impl-print (array t) rest h =
    rw (parse_field_type_impl-print t rest h, parse_field_type_impl)

parse_object_type-exact :
    (s : List ℕ) {t : FieldType} {rest : List ℕ}
    → parse_object_type s ≡ ok (t, rest)
    → (b'L' ∷ s ≡ print t ++ rest) × NamesValid t
unfolding parse_object_type drop_front print
parse_object_type-exact s {t} {rest} h =
    elim (Bool-cases (leb (length (take_until b';' s) + 1) (length s))) [
      | inl long ↦
          let (e, left) = ok-pair (rw long at h) in
          let shorter : length (take_until b';' s) < length s = ground arith in
          rw (← e, ← left)
            (rw append_assoc (ap (λ u. b'L' ∷ u) (drop-take_until s shorter)), take_until-IsName s)
      | inr short ↦ cc (rw short at h)
    ]

-- What is parsed is the printed field type before what is left.
pub parse_field_type_impl-exact :
    (s : List ℕ) {t : FieldType} {rest : List ℕ}
    → parse_field_type_impl s ≡ ok (t, rest)
    → (s ≡ print t ++ rest) × NamesValid t
unfolding parse_field_type_impl print
parse_field_type_impl-exact [] h = cc
parse_field_type_impl-exact (c ∷ s) {t} {rest} h = elim (Option-cases (base_type c)) [
  | inr (b, is_base) ↦
      let (e, left) = ok-pair (rw (is_base, parse_field_type_impl) at h) in
      rw (← e, ← left, ← letter-base_type c is_base) (refl, tt)
  | inl no_base ↦ elim (Bool-cases (c == b'[')) [
    | inl is_array ↦
        let ((t', rest'), inner, outer) =
          >>=-eq-ok (parse_field_type_impl s) _
            (rw (no_base, is_array, parse_field_type_impl) at h) in
        let (e, left) = ok-pair outer in
        let (whole, valid) = parse_field_type_impl-exact s inner in
        rw (← e, ← left, (==_iff c b'[').0 is_array) (ap (λ u. b'[' ∷ u) whole, valid)
    | inr not_array ↦ elim (Bool-cases (c == b'L')) [
      | inl is_object ↦ rw ((==_iff c b'L').0 is_object) (
          parse_object_type-exact s
            (rw (no_base, not_array, is_object, parse_field_type_impl) at h))
      | inr other ↦ cc (rw (no_base, not_array, other, parse_field_type_impl) at h)
    ]
  ]
]

-- parseFieldTypeImpl returns a field type and a rest exactly for the string that is the
-- descriptor of the type followed by the rest, where no class name holds a semicolon.
pub parse_field_type_impl_iff :
    (s : List ℕ) (t : FieldType) (rest : List ℕ)
    → (parse_field_type_impl s ≡ ok (t, rest)) ↔ ((s ≡ print t ++ rest) × NamesValid t)
parse_field_type_impl_iff s t rest = (
  λ h. parse_field_type_impl-exact s h,
  λ (e, valid). rw e (parse_field_type_impl-print t rest valid),
)
