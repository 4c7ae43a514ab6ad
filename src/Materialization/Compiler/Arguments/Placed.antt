-- ===== src/Materialization/Compiler/Arguments/Placed.antt =====
-- Where the arguments are put, by the numbers of the locals: each behind those that come before it,
-- of which a `long` or a `double` takes two.
use jllvm.Base.{
  ℕ, zero, suc, ◌+◌, ◌≤◌, ◌<◌, ◌≡◌, refl, ◌∙◌, ap, true, false, ◌==◌, inl, inr, List, [], ◌∷◌, none,
  some, leb, le→leb, if◌then◌else◌, length, drop, length-drop, get_elem?, Outcome, ok, fails,
  assertion, Bool-cases, List-cases, arith,
}
use jllvm.Materialization.Types.{
  IrType, void_type, double_type, float_type, reference, pointer, int_type,
}
use jllvm.Materialization.Compiler.Function.{Value, argument, null_reference, store, Builder, emit}
use jllvm.Materialization.Compiler.Arguments.{is_wide_type, skip_local, store_arguments}

abbrev pub width : IrType → ℕ
width double_type = 2
width (int_type bits) = if bits == 64 then 2 else 1
width _ = 1

width-is_wide_type : (type : IrType) → width type ≡ (if is_wide_type type then 2 else 1)
unfolding is_wide_type
width-is_wide_type void_type = refl
width-is_wide_type double_type = refl
width-is_wide_type float_type = refl
width-is_wide_type reference = refl
width-is_wide_type pointer = refl
width-is_wide_type (int_type bits) = refl

abbrev pub slot_count : List IrType → ℕ
slot_count [] = 0
slot_count (type ∷ types) = width type + slot_count types

abbrev pub local_at : List Value → ℕ → Value
local_at locals slot = elim (get_elem? locals slot) [ none ↦ null_reference | some local ↦ local ]

-- The stores of the arguments from `n` on, the first one into the local with the number `slot`.
unfoldable pub place : List Value → ℕ → ℕ → List IrType → Builder → Builder
unfolding emit
place locals n slot [] b = b
place locals n slot (type ∷ types) b =
    place locals (suc n) (slot + width type) types
      (emit (store (argument n) (local_at locals slot)) b).1

drop-cons {ℓ} :
    {A : Type ℓ} (slot : ℕ) (xs : List A) {x : A} {rest : List A}
    → drop slot xs ≡ x ∷ rest
    → (get_elem? xs slot ≡ some x) × (drop (suc slot) xs ≡ rest) × (slot < length xs)
drop-cons zero [] h = cc
drop-cons zero (y ∷ xs) h = (cc, cc, omega arith)
drop-cons (suc slot) [] h = cc
drop-cons (suc slot) (y ∷ xs) h =
    let rest = drop-cons slot xs h in (rest.0, rest.1, omega (arith, rest.2))

slot_count-pos : (type : IrType) (types : List IrType) → 0 < slot_count (type ∷ types)
slot_count-pos type types =
    let one_at_least = width-is_wide_type type in ground (arith, one_at_least)

-- Too many slots fail, whatever is found on the way.
abbrev placed_or_not : List Value → ℕ → ℕ → List IrType → Builder → Outcome Builder
placed_or_not locals n slot types b =
    if leb (slot + slot_count types) (length locals)
    then ok (place locals n slot types b)
    else fails assertion

leb-false : (a b : ℕ) → b < a → leb a b ≡ false
leb-false a b h = ground (arith, h)

placed-eq :
    (locals : List Value) (n : ℕ) (types : List IrType) (b : Builder) {total total' slot slot' : ℕ}
    → total ≡ total'
    → slot ≡ slot'
    → (if leb total (length locals) then ok (place locals n slot types b) else fails assertion)
      ≡ (if leb total' (length locals) then ok (place locals n slot' types b) else fails assertion)
placed-eq locals n types b p q = rw (p, q) refl

store_arguments-from :
    (locals : List Value) (n slot : ℕ) (types : List IrType) (b : Builder)
    → slot ≤ length locals
    → store_arguments n types (drop slot locals) b ≡ placed_or_not locals n slot types b
unfolding store_arguments place skip_local
store_arguments-from locals n slot [] b le =
    let fits : leb (slot + 0) (length locals) ≡ true = le→leb _ _ (omega (arith, le)) in
    rw fits refl
store_arguments-from locals n slot (type ∷ types) b le = elim (List-cases (drop slot locals)) [
  | inl es ↦
      let over : leb (slot + slot_count (type ∷ types)) (length locals) ≡ false =
        leb-false _ _
          (omega (arith, slot_count-pos type types, length-drop slot locals, ap length es)) in
      rw (es, over, store_arguments) refl
  | inr (local, rest, es) ↦
      let facts = drop-cons slot locals es in
      let at : local_at locals slot ≡ local =
        ap (λ o. elim o [ none ↦ null_reference | some l ↦ l ]) facts.0 in
      let b₁ = (emit (store (argument n) local) b).1 in
      elim (Bool-cases (is_wide_type type)) [
        | inr narrow ↦
            let one : width type ≡ 1 =
              width-is_wide_type type ∙ ap (λ w. if w then 2 else 1) narrow in
            let next =
              store_arguments-from locals (suc n) (suc slot) types b₁ (omega (arith, facts.2)) in
            rw (es, one, narrow, at, ← facts.1, store_arguments)
              (next ∙ placed-eq locals (suc n) types b₁ (omega arith) (omega arith))
        | inl wide ↦
            (let two : width type ≡ 2 =
                width-is_wide_type type ∙ ap (λ w. if w then 2 else 1) wide in
              elim (List-cases rest) [
                | inl er ↦
                    let over : leb (slot + (2 + slot_count types)) (length locals) ≡ false =
                      leb-false _ _ (
                        omega (
                          arith,
                          length-drop (suc slot) locals,
                          ap length (facts.1 ∙ er),
                          facts.2,
                        )) in
                    rw (es, two, wide, er, over, store_arguments, skip_local) refl
                | inr (x, rest', er) ↦
                    let facts' = drop-cons (suc slot) locals (facts.1 ∙ er) in
                    let next =
                      store_arguments-from locals (suc n) (suc (suc slot)) types b₁
                        (omega (arith, facts'.2)) in
                    rw (es, two, wide, er, at, ← facts'.1, store_arguments, skip_local)
                      (next ∙ placed-eq locals (suc n) types b₁ (omega arith) (omega arith))
              ])
      ]
]

-- The arguments are stored in order, each into the local whose number is the sum of the widths
-- before it; and this succeeds exactly if the method has as many locals as the widths add up to.
pub store_arguments-place :
    (types : List IrType) (locals : List Value) (b : Builder)
    → store_arguments 0 types locals b ≡ (
        if leb (slot_count types) (length locals)
        then ok (place locals 0 0 types b)
        else fails assertion)
store_arguments-place types locals b =
    let none_before : 0 + slot_count types ≡ slot_count types = omega arith in
    store_arguments-from locals 0 0 types b (omega arith)
    ∙ placed-eq locals 0 types b none_before refl
