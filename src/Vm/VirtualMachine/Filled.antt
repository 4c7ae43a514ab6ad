-- ===== src/Vm/VirtualMachine/Filled.antt =====
-- What a slot of the v-table holds in the end.
use mathlib.Core.Logic.{inl, inr}
use jllvm.Base.{
  ℕ, zero, suc, ◌≡◌, ◌≢◌, refl, sym, ◌∙◌, ap, Bool, false, not, ◌&&◌, List, [], ◌∷◌, Option, none,
  some, if◌then◌else◌, ◌==◌, ==_iff, get_elem?, ok, >>=-eq-ok, ok-eq, Bool-cases, Option-cases,
  arith,
}
use jllvm.Object.ClassObject.{Method, get_v_table_slot, ClassObject}
use jllvm.Vm.VirtualMachine.{set_elem, fill_slot, fill_method, fill_methods, fill_chain}

-- A method of a class, by the class's name.
abbrev pub Candidate : Type 0
Candidate = List ℕ × Method

-- Whether a method is an implementation for a slot.
abbrev pub implements : Method → ℕ → Bool
implements m slot =
    not m.is_abstract && elim (get_v_table_slot m) [ none ↦ false | some s ↦ s == slot ]

abbrev pub or_else : Option Candidate → Option Candidate → Option Candidate
or_else none later = later
or_else (some c) later = some c

abbrev pub candidate : List ℕ → Method → ℕ → Option Candidate
candidate class_name m slot = if implements m slot then some (class_name, m) else none

-- The first implementation in a class, and in a class or its super classes.
abbrev pub implementation_in : ℕ → List ℕ → List Method → Option Candidate
implementation_in slot class_name [] = none
implementation_in slot class_name (m ∷ rest) =
    or_else (candidate class_name m slot) (implementation_in slot class_name rest)

abbrev pub implementation : ℕ → List ClassObject → Option Candidate
implementation slot [] = none
implementation slot (c ∷ rest) =
    or_else (implementation_in slot c.class_name c.methods) (implementation slot rest)

some-eq {ℓ} : {A : Type ℓ} {a b : A} → some a ≡ some b → a ≡ b
some-eq h = cc

get-set_elem :
    (i j value : ℕ) (xs : List ℕ) {x : ℕ}
    → get_elem? xs j ≡ some x
    → get_elem? (set_elem i value xs) j ≡ some (if i == j then value else x)
unfolding set_elem
get-set_elem i j value [] h = cc
get-set_elem zero zero value (x ∷ xs) h = refl
get-set_elem zero (suc j) value (x ∷ xs) h =
    let other : (0 == suc j) ≡ false = ground arith in rw other h
get-set_elem (suc i) zero value (x ∷ xs) h =
    let other : (suc i == 0) ≡ false = ground arith in rw other h
get-set_elem (suc i) (suc j) value (x ∷ xs) {x = y} h =
    let same : (suc i == suc j) ≡ (i == j) = ground arith in rw same (get-set_elem i j value xs h)

module _ (lookup : List ℕ → List ℕ → List ℕ → Option ℕ) where
  abbrev pub address_of : Option Candidate → ℕ
  address_of none = 0
  address_of (some (class_name, m)) = elim (lookup class_name m.name m.descriptor) [
    | none ↦ 0
    | some address ↦ address
  ]

  -- A slot that was set stays; one that was not gets the address of an implementation.
  abbrev pub slot_value : ℕ → Option Candidate → ℕ
  slot_value old c = if old == 0 then address_of c else old

  slot_value-none : (x : ℕ) → slot_value x none ≡ x
  slot_value-none x = elim (Bool-cases (x == 0)) [
    | inl zero_value ↦ rw zero_value (sym ((==_iff x 0).0 zero_value))
    | inr other ↦ rw other refl
  ]

  -- One after the other.
  slot_value-or_else :
      (x : ℕ) (a b : Option Candidate)
      → (slot_value x a ≡ 0 → a ≡ none)
      → slot_value (slot_value x a) b ≡ slot_value x (or_else a b)
  slot_value-or_else x none b h = ap (λ y. slot_value y b) (slot_value-none x)
  slot_value-or_else x (some c) b h = elim (Bool-cases (x == 0)) [
    | inr other ↦ rw other (rw other refl)
    | inl zero_value ↦ rw zero_value elim (Bool-cases (address_of (some c) == 0)) [
      | inr set ↦ rw set refl
      | inl unset ↦
          let no = h (rw zero_value ((==_iff (address_of (some c)) 0).0 unset)) in absurd cc
    ]
  ]

  -- The addresses of symbols are not null.
  module _
      (there : (class_name name descriptor : List ℕ) (address : ℕ)
        → lookup class_name name descriptor ≡ some address
        → address ≢ 0) where
    -- The first candidates, and those behind them.
    joined :
        (x : ℕ) (a b : Option Candidate) (o : Option ℕ)
        → (slot_value x a ≡ 0 → a ≡ none)
        → (o ≡ some (slot_value (slot_value x a) b))
          × (slot_value (slot_value x a) b ≡ 0 → b ≡ none)
        → (o ≡ some (slot_value x (or_else a b)))
          × (slot_value x (or_else a b) ≡ 0 → or_else a b ≡ none)
    joined x a b o first rest =
        let both = slot_value-or_else x a b first in
        (
          rest.0 ∙ ap some both,
          λ h.
              let later = rest.1 (both ∙ h) in
              let total : slot_value x a ≡ 0 =
                sym (slot_value-none (slot_value x a))
                ∙ ap (slot_value (slot_value x a)) (sym later)
                ∙ both
                ∙ h in
              ap (λ c. or_else c b) (first total) ∙ later,
        )

    abbrev IsFilled : List ℕ → Method → List ℕ → List ℕ → Type 0
    IsFilled class_name m v_table v_table' =
        (j x : ℕ)
        → get_elem? v_table j ≡ some x
        → (get_elem? v_table' j ≡ some (slot_value x (candidate class_name m j)))
          × (slot_value x (candidate class_name m j) ≡ 0 → candidate class_name m j ≡ none)

    not-IsFilled :
        (class_name : List ℕ) (m : Method) (v_table : List ℕ)
        → ((j : ℕ) → implements m j ≡ false)
        → IsFilled class_name m v_table v_table
    not-IsFilled class_name m v_table never j x e =
        rw (never j) (e ∙ ap some (sym (slot_value-none x)), λ h. refl)

    other_slot :
        (class_name : List ℕ) (m : Method) (slot old : ℕ) (v_table : List ℕ) (j x : ℕ)
        {v_table' : List ℕ}
        → (slot == j) ≡ false
        → get_elem? v_table j ≡ some x
        → fill_slot lookup class_name m slot old v_table ≡ ok v_table'
        → get_elem? v_table' j ≡ some x
    unfolding fill_slot
    other_slot class_name m slot old v_table j x other at e = elim (Bool-cases (old == 0)) [
      | inr set ↦ ap (λ v. get_elem? v j) (sym (ok-eq (rw (set, fill_slot) at e))) ∙ at
      | inl unset ↦ elim (Option-cases (lookup class_name m.name m.descriptor)) [
        | inl absent ↦ (let bad = rw (unset, absent, fill_slot) at e in absurd cc)
        | inr (address, found) ↦
            let written = ok-eq (rw (unset, found, fill_slot) at e) in
            ap (λ v. get_elem? v j) (sym written)
            ∙ get-set_elem slot j address v_table at
            ∙ ap (λ b. some (if b then address else x)) other
      ]
    ]

    IsFilled-slot :
        (class_name : List ℕ) (m : Method) (slot old : ℕ) (v_table : List ℕ) {v_table' : List ℕ}
        → m.is_abstract ≡ false
        → get_v_table_slot m ≡ some slot
        → get_elem? v_table slot ≡ some old
        → fill_slot lookup class_name m slot old v_table ≡ ok v_table'
        → IsFilled class_name m v_table v_table'
    unfolding fill_slot
    IsFilled-slot class_name m slot old v_table concrete with_slot inside e j x at =
        let test : implements m j ≡ (slot == j) =
          ap (λ b. not b && elim (get_v_table_slot m) [ none ↦ false | some s ↦ s == j ]) concrete
          ∙ ap (λ o. elim o [ none ↦ false | some s ↦ s == j ]) with_slot in
        elim (Bool-cases (slot == j)) [
          | inr other ↦
              let none_here : candidate class_name m j ≡ none =
                ap (λ b. if b then some (class_name, m) else none) (test ∙ other) in
              rw none_here (
                other_slot class_name m slot old v_table j x other at e
                    ∙ ap some (sym (slot_value-none x)),
                λ h. refl,
              )
          | inl same ↦
              let here : candidate class_name m j ≡ some (class_name, m) =
                ap (λ b. if b then some (class_name, m) else none) (test ∙ same) in
              let equal = (==_iff slot j).0 same in
              let value : x ≡ old =
                some-eq (sym at ∙ ap (get_elem? v_table) (sym equal) ∙ inside) in
              rw here (elim (Bool-cases (old == 0)) [
                | inr set ↦
                    let kept = ok-eq (rw (set, fill_slot) at e) in
                    rw (value, set)
                      (
                        ap (λ v. get_elem? v j) (sym kept) ∙ at ∙ ap some value,
                        λ h. absurd (ground (arith, set, h)),
                      )
                | inl unset ↦ elim (Option-cases (lookup class_name m.name m.descriptor)) [
                  | inl absent ↦ (let bad = rw (unset, absent, fill_slot) at e in absurd cc)
                  | inr (address, found) ↦
                      let written = ok-eq (rw (unset, found, fill_slot) at e) in
                      let symbol : address_of (some (class_name, m)) ≡ address =
                        ap (λ o. elim o [ none ↦ 0 | some a ↦ a ]) found in
                      rw (value, unset, symbol)
                        (
                          ap (λ v. get_elem? v j) (sym written)
                              ∙ get-set_elem slot j address v_table at
                              ∙ ap (λ b. some (if b then address else x)) same,
                          λ h. absurd (there class_name m.name m.descriptor address found h),
                        )
                ]
              ])
        ]

    fill_method-IsFilled :
        (class_name : List ℕ) (m : Method) (v_table : List ℕ) {v_table' : List ℕ}
        → fill_method lookup class_name m v_table ≡ ok v_table'
        → IsFilled class_name m v_table v_table'
    unfolding fill_method
    fill_method-IsFilled class_name m v_table e = elim (Bool-cases m.is_abstract) [
      | inl abstract ↦
          let same = ok-eq (rw (abstract, fill_method) at e) in
          rw (← same) (not-IsFilled class_name m v_table (λ j. rw abstract refl))
      | inr concrete ↦ elim (Option-cases (get_v_table_slot m)) [
        | inl without ↦
            let same = ok-eq (rw (concrete, without, fill_method) at e) in
            rw (← same) (not-IsFilled class_name m v_table (λ j. rw (concrete, without) refl))
        | inr (slot, with_slot) ↦ elim (Option-cases (get_elem? v_table slot)) [
          | inl outside ↦
              (let no = rw (concrete, with_slot, outside, fill_method) at e in absurd cc)
          | inr (old, inside) ↦
              IsFilled-slot class_name m slot old v_table concrete with_slot inside
                (rw (concrete, with_slot, inside, fill_method) at e)
        ]
      ]
    ]

    fill_methods-filled :
        (class_name : List ℕ) (ms : List Method) (v_table : List ℕ) {v_table' : List ℕ}
        → fill_methods lookup class_name ms v_table ≡ ok v_table'
        → (j x : ℕ) → get_elem? v_table j ≡ some x
        → (get_elem? v_table' j ≡ some (slot_value x (implementation_in j class_name ms)))
          × (slot_value x (implementation_in j class_name ms) ≡ 0
              → implementation_in j class_name ms ≡ none)
    unfolding fill_methods
    fill_methods-filled class_name [] v_table e j x at = (
      ap (λ v. get_elem? v j) (sym (ok-eq e)) ∙ at ∙ ap some (sym (slot_value-none x)),
      λ h. refl,
    )
    fill_methods-filled class_name (m ∷ ms) v_table e j x at =
        let run = >>=-eq-ok (fill_method lookup class_name m v_table) _ e in
        let first = fill_method-IsFilled class_name m v_table run.1 j x at in
        let rest = fill_methods-filled class_name ms run.0 run.2 j _ first.0 in
        joined x (candidate class_name m j) (implementation_in j class_name ms) _ first.1 rest

    -- When no symbol has the address null and the v-table of a class has been filled, a slot that
    -- was zero holds the address of the first method for it that is not abstract, in the class
    -- itself or in the nearest super class that has one, and is zero only if there is none; a
    -- slot that was set is as it was.
    pub fill_chain-implementation :
        (chain : List ClassObject) (v_table : List ℕ) {v_table' : List ℕ}
        → fill_chain lookup chain v_table ≡ ok v_table'
        → (j x : ℕ) → get_elem? v_table j ≡ some x
        → (get_elem? v_table' j ≡ some (slot_value x (implementation j chain)))
          × (slot_value x (implementation j chain) ≡ 0 → implementation j chain ≡ none)
    unfolding fill_chain
    fill_chain-implementation [] v_table e j x at = (
      ap (λ v. get_elem? v j) (sym (ok-eq e)) ∙ at ∙ ap some (sym (slot_value-none x)),
      λ h. refl,
    )
    fill_chain-implementation (c ∷ rest) v_table e j x at =
        let run = >>=-eq-ok (fill_methods lookup c.class_name c.methods v_table) _ e in
        let first = fill_methods-filled c.class_name c.methods v_table run.1 j x at in
        let later = fill_chain-implementation rest run.0 run.2 j _ first.0 in
        joined x (implementation_in j c.class_name c.methods) (implementation j rest) _ first.1
          later
