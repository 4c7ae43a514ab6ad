-- ===== src/Object/ClassLoader/Slots/Inherited.antt =====
-- src/jllvm/object/ClassLoader.cpp: which method of the super classes a name and a type inherit, and
-- what `assignVTableSlots` collects of them.
use jllvm.Base.{
  ℕ, ◌+◌, ◌<◌, ◌≡◌, refl, ap, sym, ◌∙◌, ◌⊎◌, inl, inr, Bool, true, false, ◌&&◌, List, [], ◌∷◌,
  Option, none, some, if◌then◌else◌, arith, Bool-cases, Option-cases, text_eq, text_eq_iff,
}
use jllvm.Object.ClassObject.{Method, get_v_table_slot, ClassObject}
use jllvm.Object.ClassLoader.Slots.{SlotEntry, find_slot, insert_slot, inherit_methods, inherit}

-- A method that has a slot, with this name and type.
abbrev pub has_key : List ℕ → List ℕ → Method → Bool
has_key name descriptor m =
    m.has_v_table_slot && (text_eq m.name name && text_eq m.descriptor descriptor)

-- The first one among the methods of a class, and in the nearest super class that has one.
abbrev pub first_in : List ℕ → List ℕ → List Method → Option Method
first_in name descriptor [] = none
first_in name descriptor (m ∷ ms) =
    if has_key name descriptor m then some m else first_in name descriptor ms

abbrev pub or_else {ℓ} : {A : Type ℓ} → Option A → Option A → Option A
or_else none later = later
or_else (some a) later = some a

abbrev pub inherited : List ℕ → List ℕ → List ClassObject → Option Method
inherited name descriptor [] = none
inherited name descriptor (c ∷ cs) =
    or_else (first_in name descriptor c.methods) (inherited name descriptor cs)

-- The first slot behind those that are inherited.
abbrev pub IsFirstFree : List ClassObject → ℕ → Type 0
IsFirstFree super_classes start =
    ((name descriptor : List ℕ) (m : Method)
      → inherited name descriptor super_classes ≡ some m
      → m.v_table_slot < start)
    × ((start ≡ 0)
        ⊎ ((name descriptor : List ℕ) × (m : Method) × (inherited name descriptor super_classes
              ≡ some m)
            × (start ≡ m.v_table_slot + 1)))

entry_of : Method → SlotEntry
entry_of m = record { name = m.name; descriptor = m.descriptor; slot = m.v_table_slot; method = m }

entries_of : Option Method → Option SlotEntry
unfolding entry_of
entries_of none = none
entries_of (some m) = some (entry_of m)

or_else-none {ℓ} : {A : Type ℓ} (o : Option A) → o ≡ or_else o none
or_else-none none = refl
or_else-none (some a) = refl

or_else_assoc {ℓ} :
    {A : Type ℓ} (a b c : Option A) → or_else (or_else a b) c ≡ or_else a (or_else b c)
or_else_assoc none b c = refl
or_else_assoc (some a) b c = refl

or_else-if {ℓ} :
    {A : Type ℓ} (b : Bool) (a : A) (later : Option A)
    → or_else (if b then some a else none) later ≡ (if b then some a else later)
or_else-if true a later = refl
or_else-if false a later = refl

entries_of-or_else :
    (a b : Option Method) → entries_of (or_else a b) ≡ or_else (entries_of a) (entries_of b)
unfolding entries_of
entries_of-or_else none b = refl
entries_of-or_else (some m) b = refl

entries_of-if :
    (b : Bool) (m : Method) (later : Option Method)
    → entries_of (if b then some m else later) ≡ (if b then some (entry_of m) else entries_of later)
unfolding entries_of
entries_of-if true m later = refl
entries_of-if false m later = refl

key_eq :
    (e : SlotEntry) (name descriptor : List ℕ)
    → (text_eq e.name name && text_eq e.descriptor descriptor) ≡ true
    → (e.name ≡ name) × (e.descriptor ≡ descriptor)
key_eq e name descriptor h = (
  (text_eq_iff e.name name).0 (ground (arith, h)),
  (text_eq_iff e.descriptor descriptor).0 (ground (arith, h)),
)

pub find_slot-eq :
    (e : SlotEntry) (name descriptor : List ℕ) (map : List SlotEntry)
    → (text_eq e.name name && text_eq e.descriptor descriptor) ≡ true
    → find_slot e.name e.descriptor map ≡ find_slot name descriptor map
find_slot-eq e name descriptor map h =
    let (same_name, same_type) = key_eq e name descriptor h in
    ap (λ n. find_slot n e.descriptor map) same_name ∙ ap (λ d. find_slot name d map) same_type

pub insert_slot-find :
    (e : SlotEntry) (map : List SlotEntry)
    → insert_slot e map
      ≡ elim (find_slot e.name e.descriptor map) [ none ↦ e ∷ map | some old ↦ map ]
unfolding insert_slot
insert_slot-find e map = refl

find-insert_slot :
    (name descriptor : List ℕ) (e : SlotEntry) (map : List SlotEntry)
    → find_slot name descriptor (insert_slot e map)
      ≡ or_else
          (find_slot name descriptor map)
          (if text_eq e.name name && text_eq e.descriptor descriptor then some e else none)
unfolding find_slot
find-insert_slot name descriptor e map =
    ap (find_slot name descriptor) (insert_slot-find e map)
    ∙ elim (Bool-cases (text_eq e.name name && text_eq e.descriptor descriptor)) [
      | inr other ↦ elim (Option-cases (find_slot e.name e.descriptor map)) [
        | inl absent ↦ rw absent (rw other (or_else-none (find_slot name descriptor map)))
        | inr (old, there) ↦ rw there (rw other (or_else-none (find_slot name descriptor map)))
      ]
      | inl same ↦
          let key = find_slot-eq e name descriptor map same in
          elim (Option-cases (find_slot e.name e.descriptor map)) [
            | inl absent ↦
                let absent' : find_slot name descriptor map ≡ none = sym key ∙ absent in
                rw absent (rw (same, absent') refl)
            | inr (old, there) ↦
                let there' : find_slot name descriptor map ≡ some old = sym key ∙ there in
                rw there (rw there' refl)
          ]
    ]

inherit_one : Method → List SlotEntry → List SlotEntry
unfolding entry_of
inherit_one m map = if m.has_v_table_slot then insert_slot (entry_of m) map else map

inherit_methods-cons :
    (m : Method) (ms : List Method) (map : List SlotEntry)
    → inherit_methods (m ∷ ms) map ≡ inherit_methods ms (inherit_one m map)
unfolding inherit_methods inherit_one get_v_table_slot
inherit_methods-cons m ms map = elim (Bool-cases m.has_v_table_slot) [
  | inl with_slot ↦ simp with_slot refl
  | inr without ↦ simp without refl
]

find-inherit_one :
    (name descriptor : List ℕ) (m : Method) (map : List SlotEntry)
    → find_slot name descriptor (inherit_one m map)
      ≡ or_else
          (find_slot name descriptor map)
          (if has_key name descriptor m then some (entry_of m) else none)
unfolding inherit_one
find-inherit_one name descriptor m map = elim (Bool-cases m.has_v_table_slot) [
  | inl with_slot ↦
      simp with_slot (unfold entry_of in find-insert_slot name descriptor (entry_of m) map)
  | inr without ↦ simp without (or_else-none (find_slot name descriptor map))
]

find-inherit_methods :
    (name descriptor : List ℕ) (ms : List Method) (map : List SlotEntry)
    → find_slot name descriptor (inherit_methods ms map)
      ≡ or_else (find_slot name descriptor map) (entries_of (first_in name descriptor ms))
unfolding inherit_methods entries_of
find-inherit_methods name descriptor [] map = or_else-none (find_slot name descriptor map)
find-inherit_methods name descriptor (m ∷ ms) map =
    let here = if has_key name descriptor m then some (entry_of m) else none in
    let later = entries_of (first_in name descriptor ms) in
    ap (find_slot name descriptor) (inherit_methods-cons m ms map)
    ∙ find-inherit_methods name descriptor ms (inherit_one m map)
    ∙ ap (λ o. or_else o later) (find-inherit_one name descriptor m map)
    ∙ or_else_assoc (find_slot name descriptor map) here later
    ∙ ap (or_else (find_slot name descriptor map)) (
        or_else-if (has_key name descriptor m) (entry_of m) later
        ∙ sym (entries_of-if (has_key name descriptor m) m (first_in name descriptor ms)))

find-inherit :
    (name descriptor : List ℕ) (cs : List ClassObject) (map : List SlotEntry)
    → find_slot name descriptor (inherit cs map)
      ≡ or_else (find_slot name descriptor map) (entries_of (inherited name descriptor cs))
unfolding inherit entries_of
find-inherit name descriptor [] map = or_else-none (find_slot name descriptor map)
find-inherit name descriptor (c ∷ cs) map =
    let here = entries_of (first_in name descriptor c.methods) in
    let later = entries_of (inherited name descriptor cs) in
    find-inherit name descriptor cs (inherit_methods c.methods map)
    ∙ ap (λ o. or_else o later) (find-inherit_methods name descriptor c.methods map)
    ∙ or_else_assoc (find_slot name descriptor map) here later
    ∙ ap (or_else (find_slot name descriptor map)) (
        sym
          (entries_of-or_else (first_in name descriptor c.methods) (inherited name descriptor cs)))

-- What is found is inherited, and the other way round.
pub find-none :
    (name descriptor : List ℕ) (cs : List ClassObject)
    → find_slot name descriptor (inherit cs []) ≡ none
    → inherited name descriptor cs ≡ none
unfolding find_slot entries_of
find-none name descriptor cs h = elim (Option-cases (inherited name descriptor cs)) [
  | inl absent ↦ absent
  | inr (m, there) ↦
      absurd (let no = sym h ∙ find-inherit name descriptor cs [] ∙ ap entries_of there in cc)
]

pub find-some :
    (name descriptor : List ℕ) (cs : List ClassObject) (e : SlotEntry)
    → find_slot name descriptor (inherit cs []) ≡ some e
    → (m : Method) × (inherited name descriptor cs ≡ some m)
      × (e.slot ≡ m.v_table_slot)
      × (e.method ≡ m)
unfolding find_slot entries_of entry_of
find-some name descriptor cs e h = elim (Option-cases (inherited name descriptor cs)) [
  | inl absent ↦
      absurd (let no = sym h ∙ find-inherit name descriptor cs [] ∙ ap entries_of absent in cc)
  | inr (m, there) ↦
      let same = sym h ∙ find-inherit name descriptor cs [] ∙ ap entries_of there in
      let e_is : e ≡ entry_of m = cc in
      (m, there, ap (λ (x : SlotEntry). x.slot) e_is, ap (λ (x : SlotEntry). x.method) e_is)
]

pub find-inherited :
    (name descriptor : List ℕ) (cs : List ClassObject) (m : Method)
    → inherited name descriptor cs ≡ some m
    → (e : SlotEntry) × (find_slot name descriptor (inherit cs []) ≡ some e)
      × (e.slot ≡ m.v_table_slot)
unfolding find_slot entries_of entry_of
find-inherited name descriptor cs m h =
    (entry_of m, find-inherit name descriptor cs [] ∙ ap entries_of h, refl)
