-- ===== src/Object/ClassLoader/Layout/Placed.antt =====
-- src/jllvm/object/ClassLoader.cpp: the places of the fields in an instance.
use jllvm.Base.{
  ℕ, ◌+◌, ◌%◌, ◌^◌, ◌≤◌, ◌<◌, ◌≡◌, refl, ap, sym, subst, ◌⊎◌, inl, inr, Bool, true, false, List, [],
  ◌∷◌, arith, if◌then◌else◌, ok, >>=-eq-ok, ok-eq, Bool-cases,
}
use jllvm.Class.Descriptors.{
  byte, char, double, float, int, long, short, boolean, void, FieldType, base, object, array,
  parse_field_type, is_reference_descriptor,
}
use jllvm.Class.ClassFile.Constants.{ConstantPoolInfo}
use jllvm.Class.ClassFile.Members.{MemberInfo, is_static, get_name, get_descriptor}
use jllvm.Object.ClassObject.{
  pointer_size, Field, offset, instance_field, static_reference, static_primitive, Alignment,
}
use jllvm.Object.ClassLoader.Layout.{base_type_size, field_size, lay_out_field, lay_out_fields}

-- The bytes that a value of a type takes.
abbrev pub width : FieldType → ℕ
width (base byte) = 1
width (base char) = 2
width (base double) = 8
width (base float) = 4
width (base int) = 4
width (base long) = 8
width (base short) = 2
width (base boolean) = 1
width (base void) = 0
width (object name) = 8
width (array component) = 8

field_size-width : (type : FieldType) {n : ℕ} → field_size type ≡ ok n → (n ≡ width type) × (0 < n)
unfolding field_size base_type_size
field_size-width (base byte) {n} h = let e : 1 ≡ n = cc in (sym e, omega (arith, e))
field_size-width (base char) {n} h = let e : 2 ≡ n = cc in (sym e, omega (arith, e))
field_size-width (base double) {n} h = let e : 8 ≡ n = cc in (sym e, omega (arith, e))
field_size-width (base float) {n} h = let e : 4 ≡ n = cc in (sym e, omega (arith, e))
field_size-width (base int) {n} h = let e : 4 ≡ n = cc in (sym e, omega (arith, e))
field_size-width (base long) {n} h = let e : 8 ≡ n = cc in (sym e, omega (arith, e))
field_size-width (base short) {n} h = let e : 2 ≡ n = cc in (sym e, omega (arith, e))
field_size-width (base boolean) {n} h = let e : 1 ≡ n = cc in (sym e, omega (arith, e))
field_size-width (base void) h = cc
field_size-width (object name) {n} h = let e : 8 ≡ n = cc in (sym e, omega (arith, e))
field_size-width (array component) {n} h = let e : 8 ≡ n = cc in (sym e, omega (arith, e))

either : {A : Type 0} (b : Bool) (P : A → Type 0) {x y : A} → P x → P y → P (if b then x else y)
either true P hx hy = hx
either false P hx hy = hy

module _ (pool : List ConstantPoolInfo) where
  -- The field of a type with `size` bytes, which is at least one, is at the first multiple of its size from `from` on.
  abbrev pub IsPlaced : MemberInfo → Field → ℕ → ℕ → ℕ → Type 0
  IsPlaced info field from at size =
      (descriptor : List ℕ) × (type : FieldType) × (get_descriptor pool info ≡ ok descriptor)
      × (parse_field_type descriptor ≡ ok type)
      × (size ≡ width type)
      × (field.is_static ≡ false)
      × (field.storage ≡ offset ((at + pointer_size) % 2 ^ 16))
      × (0 < size)
      × (at % size ≡ 0)
      × (from ≤ at)
      × (at < from + size)

  -- Along the fields: the instance fields one behind the other, each aligned, up to `to`.
  abbrev pub Placed : ℕ → List MemberInfo → List Field → ℕ → Type 0
  Placed from [] [] to = from ≡ to
  Placed from (info ∷ infos) (field ∷ fields) to =
      ((is_static info ≡ true) × (field.is_static ≡ true) × Placed from infos fields to)
      ⊎ ((is_static info ≡ false)
          × ((at size : ℕ) × IsPlaced info field from at size × Placed (at + size) infos fields to))
  Placed _ _ _ _ = ⊥

  -- The area only grows, so that no two instance fields overlap.
  pub Placed-le :
      (from : ℕ) (infos : List MemberInfo) (fields : List Field) (to : ℕ)
      → Placed from infos fields to
      → from ≤ to
  Placed-le from [] [] to h = omega arith
  Placed-le from [] (f ∷ fs) to h = absurd h
  Placed-le from (i ∷ is) [] to h = absurd h
  Placed-le from (i ∷ is) (f ∷ fs) to (inl (s, s', h)) = Placed-le from is fs to h
  Placed-le from (i ∷ is) (f ∷ fs) to
        (inr (s, (at, size, (d, t, e₁, e₂, e₃, e₄, e₅, pos, al, lo, hi), h))) =
      omega (arith, Placed-le (at + size) is fs to h)

  module _ (alignment : Alignment) {S : Type 0} (allocate_static : S → ℕ × S) where
    open alignment use {align_to, align_to_ge, align_to_lt, align_to_multiple}

    lay_out_field_lem :
        (info : MemberInfo) (from : ℕ) (s : S) {field : Field} {to : ℕ} {s' : S}
        → lay_out_field alignment allocate_static pool info from s ≡ ok (field, to, s')
        → ((is_static info ≡ true) × (field.is_static ≡ true) × (to ≡ from))
          ⊎ ((is_static info ≡ false)
              × ((at size : ℕ) × IsPlaced info field from at size × (to ≡ at + size)))
    unfolding lay_out_field instance_field static_reference static_primitive
    lay_out_field_lem info from s {field} {to} {s'} h =
        let (descriptor, typed, h₁) = >>=-eq-ok (get_descriptor pool info) _ h in
        elim (Bool-cases (is_static info)) [
          | inl static ↦
              let h₂ = rw static at h₁ in
              let (reference, r, h₃) = >>=-eq-ok (is_reference_descriptor descriptor) _ h₂ in
              let (name, named, h₄) = >>=-eq-ok (get_name pool info) _ h₃ in
              let (is_so, same) =
                subst (λ (r : Field × ℕ × S). (r.0.is_static ≡ true) × (r.1 ≡ from)) (ok-eq h₄)
                  (either reference (λ (r : Field × ℕ × S). (r.0.is_static ≡ true) × (r.1 ≡ from))
                    (refl, refl) (refl, refl)) in
              inl (static, is_so, same)
          | inr instance_member ↦
              let h₂ = rw instance_member at h₁ in
              let (type, parsed, h₃) = >>=-eq-ok (parse_field_type descriptor) _ h₂ in
              let (size, sized, h₄) = >>=-eq-ok (field_size type) _ h₃ in
              let (name, named, h₅) = >>=-eq-ok (get_name pool info) _ h₄ in
              let e = sym (ok-eq h₅) in
              let (is_width, pos) = field_size-width type sized in
              inr (
                instance_member,
                (
                  align_to from size,
                  size,
                  (
                    descriptor,
                    type,
                    typed,
                    parsed,
                    is_width,
                    ap (λ (r : Field × ℕ × S). r.0.is_static) e,
                    ap (λ (r : Field × ℕ × S). r.0.storage) e,
                    pos,
                    align_to_multiple from size pos,
                    align_to_ge from size pos,
                    align_to_lt from size pos,
                  ),
                  ap (λ (r : Field × ℕ × S). r.1) e,
                ),
              )
        ]

    -- When laying out the fields ends without a failure, the static fields take no room, and each
    -- other field stands at the first multiple of the width of its type (1, 2, 4 or 8 bytes, by
    -- the kind of the type) behind the field before it, the first one behind the start that is
    -- given; its offset is that place behind the object header, cut to 16 bits.
    pub lay_out_fields-Placed :
        (infos : List MemberInfo) (from : ℕ) (s : S) {fields : List Field} {to : ℕ} {s' : S}
        → lay_out_fields alignment allocate_static pool infos from s ≡ ok (fields, to, s')
        → Placed from infos fields to
    unfolding lay_out_fields
    lay_out_fields-Placed [] from s {fields} {to} {s'} h =
        let e : ok ([], from, s) ≡ ok (fields, to, s') = h in
        subst (λ (r : List Field × ℕ × S). Placed from [] r.0 r.1) (ok-eq e) refl
    lay_out_fields-Placed (info ∷ infos) from s {fields} {to} {s'} h =
        let ((field, next, s₁), one, h₁) =
          >>=-eq-ok (lay_out_field alignment allocate_static pool info from s) _ h in
        let ((rest, end, s₂), run, h₂) =
          >>=-eq-ok (lay_out_fields alignment allocate_static pool infos next s₁) _ h₁ in
        let later = lay_out_fields-Placed infos next s₁ run in
        subst (λ (r : List Field × ℕ × S). Placed from (info ∷ infos) r.0 r.1) (ok-eq h₂)
          (elim (lay_out_field_lem info from s one) [
            | inl (static, is_so, same) ↦
                inl (static, is_so, subst (λ (n : ℕ). Placed n infos rest end) same later)
            | inr (instance_member, (at, size, placed, e)) ↦ inr (
              instance_member,
              (at, size, placed, subst (λ (n : ℕ). Placed n infos rest end) e later),
            )
          ])
