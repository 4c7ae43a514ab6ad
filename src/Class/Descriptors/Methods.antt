-- ===== src/Class/Descriptors/Methods.antt =====
-- src/jllvm/class/Descriptors.cpp: `parseMethodType` and the printed method types.
use jllvm.Base.{
  ℕ, zero, suc, ◌+◌, ◌≤◌, ◌<◌, List, [], ◌∷◌, ◌++◌, ◌≡◌, refl, ap, ◌∙◌, ◌≢◌, ◌↔◌, true, false,
  arith, length, ok, fails, out_of_fuel, ◌==◌, append_assoc, inl, inr, Bool-cases, Outcome-cases,
  ==_iff, length-append, All, ◌>>=◌, >>=-eq-ok, ok-pair,
}
use jllvm.Class.Descriptors
use jllvm.Class.Descriptors.{
  FieldType, base, object, array, MethodType, front, drop_front, base_type, parse_object_type,
  parse_field_type_impl, parse_parameters, parse_method_type,
}
use jllvm.Class.Descriptors.Print.{letter, print, print_all, print_method, NamesValid}
use jllvm.Class.Descriptors.Fields.{parse_field_type_impl-print, parse_field_type_impl-exact}

letter-ne-close : (b : Descriptors.BaseType) → (letter b == b')') ≡ false
letter-ne-close Descriptors.byte = refl
letter-ne-close _ = refl

-- A printed type is not empty and does not start with the `)` that ends the parameters.
print-head : (t : FieldType) → (c : ℕ) × (s : List ℕ) × (print t ≡ c ∷ s) × ((c == b')') ≡ false)
unfolding print
print-head (base b) = (letter b, [], refl, letter-ne-close b)
print-head (object name) = (b'L', name ++ b';' ∷ [], refl, refl)
print-head (array t) = (b'[', print t, refl, refl)

drop_front-cons : (c : ℕ) (s : List ℕ) → drop_front 1 (c ∷ s) ≡ ok s
unfolding drop_front
drop_front-cons c s = ground arith

length-print_all : (ts : List FieldType) → length ts ≤ length (print_all ts)
unfolding print_all
length-print_all [] = omega arith
length-print_all (t ∷ ts) =
    let (c, s, starts, _) = print-head t in
    rw starts (omega (arith, length-append s (print_all ts), length-print_all ts))

-- One round of the loop, on a parameter.
parse_parameters-cons :
    (fuel : ℕ) (t : FieldType) (rest : List ℕ)
    → NamesValid t
    → parse_parameters (suc fuel) (print t ++ rest)
      ≡ (parse_parameters fuel rest >>= λ r. ok (t ∷ r.0, r.1))
unfolding parse_parameters front
parse_parameters-cons fuel t rest valid =
    let (c, s, starts, other) = print-head t in
    let whole : print t ++ rest ≡ c ∷ (s ++ rest) = rw starts refl in
    rw (whole, parse_parameters, other, ← whole)
      (rw (parse_field_type_impl-print t rest valid) refl)

parse_parameters-print :
    (fuel : ℕ) (ts : List FieldType) (rest : List ℕ)
    → length ts < fuel
    → All NamesValid ts
    → parse_parameters fuel (print_all ts ++ b')' ∷ rest) ≡ ok (ts, rest)
unfolding parse_parameters front print_all
parse_parameters-print zero ts rest h valid = absurd (omega arith)
parse_parameters-print (suc fuel) [] rest h valid = rw drop_front-cons
parse_parameters-print (suc fuel) (t ∷ ts) rest h valid = rw (
  append_assoc,
  parse_parameters-cons fuel t _ valid.0,
  parse_parameters-print fuel ts rest (omega arith) valid.1,
)

-- A parameter's text before that of the others.
print_all-join :
    (t : FieldType) {s mid rest rest' : List ℕ} {ts ts' : List FieldType}
    → (s ≡ print t ++ mid) × NamesValid t
    → (mid ≡ print_all ts' ++ b')' ∷ rest') × All NamesValid ts'
    → (t ∷ ts' ≡ ts) × (rest' ≡ rest)
    → (s ≡ print_all ts ++ b')' ∷ rest) × All NamesValid ts
unfolding print_all
print_all-join t (whole, valid) (whole', valid') (e, left) =
    rw (← e, ← left) (rw append_assoc (whole ∙ ap (λ u. print t ++ u) whole'), (valid, valid'))

parse_parameters-exact :
    (fuel : ℕ) (s : List ℕ) {ts : List FieldType} {rest : List ℕ}
    → parse_parameters fuel s ≡ ok (ts, rest)
    → (s ≡ print_all ts ++ b')' ∷ rest) × All NamesValid ts
unfolding parse_parameters front print_all
parse_parameters-exact zero s h = cc
parse_parameters-exact (suc fuel) [] h = cc
parse_parameters-exact (suc fuel) (c ∷ s) {ts} {rest} h = elim (Bool-cases (c == b')')) [
  | inl close ↦
      let (e, left) = ok-pair (rw (close, parse_parameters, drop_front-cons) at h) in
      rw (← e, ← left, (==_iff c b')').0 close) (refl, tt)
  | inr other ↦
      let ((t, mid), first, more) = >>=-eq-ok _ _ (rw (other, parse_parameters) at h) in
      let ((ts', rest'), second, end) = >>=-eq-ok _ _ more in
      print_all-join t (parse_field_type_impl-exact (c ∷ s) first)
        (parse_parameters-exact fuel mid second) (ok-pair end)
]

-- A successful parse shortens the string, since every printed type has a letter.
parse_field_type_impl-shorter :
    (s : List ℕ) {t : FieldType} {rest : List ℕ}
    → parse_field_type_impl s ≡ ok (t, rest)
    → length rest < length s
parse_field_type_impl-shorter s {t} {rest} h =
    let (c, r, starts, _) = print-head t in
    let whole = (parse_field_type_impl-exact s h).0 in
    rw whole (rw starts (omega (arith, length-append r rest)))

parse_object_type-ne-out_of_fuel : (s : List ℕ) → parse_object_type s ≢ fails out_of_fuel
unfolding parse_object_type drop_front
parse_object_type-ne-out_of_fuel s = ground arith

pub parse_field_type_impl-ne-out_of_fuel :
    (s : List ℕ) → parse_field_type_impl s ≢ fails out_of_fuel
unfolding parse_field_type_impl
parse_field_type_impl-ne-out_of_fuel [] = λ h. cc
parse_field_type_impl-ne-out_of_fuel (c ∷ s) =
    ground (arith, parse_field_type_impl-ne-out_of_fuel s, parse_object_type-ne-out_of_fuel s)

parse_parameters-ne-out_of_fuel :
    (fuel : ℕ) (s : List ℕ) → length s < fuel → parse_parameters fuel s ≢ fails out_of_fuel
unfolding parse_parameters front
parse_parameters-ne-out_of_fuel zero s h = absurd (omega arith)
parse_parameters-ne-out_of_fuel (suc fuel) [] h = λ e. cc
parse_parameters-ne-out_of_fuel (suc fuel) (c ∷ s) h =
    let first = parse_field_type_impl-ne-out_of_fuel (c ∷ s) in
    elim (Outcome-cases (parse_field_type_impl (c ∷ s))) [
      | inl ((t, rest), e) ↦
          let shorter = parse_field_type_impl-shorter (c ∷ s) e in
          rw (e, parse_parameters, drop_front-cons)
            (ground (arith, parse_parameters-ne-out_of_fuel fuel rest))
      | inr (f, e) ↦ rw (e, parse_parameters, drop_front-cons) (ground arith)
    ]

parse_method_type-print :
    (m : MethodType) (rest : List ℕ)
    → All NamesValid m.parameters
    → NamesValid m.return_type
    → parse_method_type (print_method m ++ rest) ≡ ok m
unfolding parse_method_type front print_method
parse_method_type-print m rest params valid =
    let after = print m.return_type ++ rest in
    let string = print_all m.parameters ++ b')' ∷ after in
    let fits : length m.parameters < length string + 1 = omega (
      arith,
      length-append (print_all m.parameters) (b')' ∷ after),
      length-print_all m.parameters,
    ) in
    rw (
      drop_front-cons,
      append_assoc,
      parse_parameters-print (length string + 1) m.parameters after fits params,
      parse_field_type_impl-print m.return_type rest valid,
    )

print_method-join :
    (ts : List FieldType) (t : FieldType) (c : ℕ) {s mid : List ℕ} (rest : List ℕ) {m : MethodType}
    → (c == b'(') ≡ true
    → (s ≡ print_all ts ++ b')' ∷ mid) × All NamesValid ts
    → (mid ≡ print t ++ rest) × NamesValid t
    → ok (record { parameters = ts; return_type = t }) ≡ ok m
    → ((after : List ℕ) × (c ∷ s ≡ print_method m ++ after)
        × All NamesValid m.parameters
        × NamesValid m.return_type)
unfolding print_method
print_method-join ts t c {s} {mid} rest {m} is_open (whole, valid) (whole', valid') e =
    let made : record { parameters = ts; return_type = t } ≡ m = cc in
    rw (← made) (
      rest,
      rw ((==_iff c b'(').0 is_open, append_assoc)
          (ap (λ u. b'(' ∷ u) (whole ∙ ap (λ u. print_all ts ++ b')' ∷ u) whole')),
      valid,
      valid',
    )

parse_method_type-exact :
    (s : List ℕ) {m : MethodType}
    → parse_method_type s ≡ ok m
    → ((rest : List ℕ) × (s ≡ print_method m ++ rest)
        × All NamesValid m.parameters
        × NamesValid m.return_type)
unfolding parse_method_type front
parse_method_type-exact [] h = cc
parse_method_type-exact (c ∷ s) h = elim (Bool-cases (c == b'(')) [
  | inl is_open ↦
      let ((ts, mid), first, more) = >>=-eq-ok _ _ (rw (is_open, drop_front-cons) at h) in
      let ((t, rest), second, end) = >>=-eq-ok _ _ more in
      print_method-join ts t c rest is_open (parse_parameters-exact (length s + 1) s first)
        (parse_field_type_impl-exact mid second) end
  | inr other ↦ cc (rw other at h)
]

-- parseMethodType returns a method type exactly for the strings that start with its descriptor,
-- where no class name holds a semicolon.
pub parse_method_type_iff :
    (s : List ℕ) (m : MethodType)
    → (parse_method_type s ≡ ok m) ↔ (
        (rest : List ℕ) × (s ≡ print_method m ++ rest)
        × All NamesValid m.parameters
        × NamesValid m.return_type)
parse_method_type_iff s m = (
  parse_method_type-exact s,
  λ (rest, whole, params, valid). rw whole (parse_method_type-print m rest params valid),
)

-- The loop of parseMethodType ends on every string: the rounds that the length of the string
-- allows are enough.
pub parse_method_type-ne-out_of_fuel : (s : List ℕ) → parse_method_type s ≢ fails out_of_fuel
unfolding parse_method_type front
parse_method_type-ne-out_of_fuel [] = λ e. cc
parse_method_type-ne-out_of_fuel (c ∷ s) = elim (Bool-cases (c == b'(')) [
  | inr other ↦ rw other (λ e. cc)
  | inl is_open ↦
      let loop = parse_parameters-ne-out_of_fuel (length s + 1) s (omega arith) in
      rw (is_open, drop_front-cons)
        (elim (Outcome-cases (parse_parameters (length s + 1) s)) [
          | inl ((ts, mid), e) ↦ rw e (ground (arith, parse_field_type_impl-ne-out_of_fuel mid))
          | inr (f, e) ↦ rw e (ground arith)
        ])
]
