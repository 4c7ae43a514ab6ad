-- ===== src/Object/ClassLoader/Slots/FirstFree.antt =====
-- src/jllvm/object/ClassLoader.cpp: the first slot that `assignVTableSlots` gives to a new method.
use jllvm.Base.{
  ℕ, ◌+◌, ◌%◌, ◌^◌, ◌≤◌, ◌<◌, ◌≡◌, refl, ap, sym, ◌∙◌, inl, inr, ◌&&◌, List, [], ◌∷◌, none, some,
  arith, All, Bool-cases, Option-cases, text_eq, text_eq_iff, subst, ltb,
}
use jllvm.Object.ClassObject.{Method, get_v_table_slot, ClassObject}
use jllvm.Object.ClassLoader.Slots.{
  SlotEntry, find_slot, insert_slot, inherit_methods, inherit, max_slot, inherited_count,
}
use jllvm.Object.ClassLoader.Slots.Inherited.{
  inherited, IsFirstFree, find_slot-eq, insert_slot-find, find-some, find-inherited,
}

-- The entry is the one that its own name and type find.
abbrev IsFound : List SlotEntry → SlotEntry → Type 0
IsFound map e = find_slot e.name e.descriptor map ≡ some e

IsFound-behind :
    (e : SlotEntry) (map : List SlotEntry) (x : SlotEntry)
    → find_slot e.name e.descriptor map ≡ none
    → IsFound map x
    → IsFound (e ∷ map) x
unfolding find_slot
IsFound-behind e map x absent there =
    elim (Bool-cases (text_eq e.name x.name && text_eq e.descriptor x.descriptor)) [
      | inl same ↦ absurd (let key = find_slot-eq e x.name x.descriptor map same in cc)
      | inr other ↦ rw other there
    ]

All-behind :
    (e : SlotEntry) (map entries : List SlotEntry)
    → find_slot e.name e.descriptor map ≡ none
    → All (IsFound map) entries
    → All (IsFound (e ∷ map)) entries
All-behind e map [] absent h = tt
All-behind e map (x ∷ xs) absent (h, hs) =
    (IsFound-behind e map x absent h, All-behind e map xs absent hs)

IsFound-first : (e : SlotEntry) (map : List SlotEntry) → IsFound (e ∷ map) e
unfolding find_slot
IsFound-first e map =
    let same_name = (text_eq_iff e.name e.name).1 refl in
    let same_type = (text_eq_iff e.descriptor e.descriptor).1 refl in rw (same_name, same_type) refl

insert_slot-IsFound :
    (e : SlotEntry) (map : List SlotEntry)
    → All (IsFound map) map
    → All (IsFound (insert_slot e map)) (insert_slot e map)
insert_slot-IsFound e map h =
    subst (λ (m : List SlotEntry). All (IsFound m) m) (sym (insert_slot-find e map))
      (elim (Option-cases (find_slot e.name e.descriptor map)) [
        | inl absent ↦ rw absent (IsFound-first e map, All-behind e map map absent h)
        | inr (old, there) ↦ rw there h
      ])

inherit_methods-IsFound :
    (ms : List Method) (map : List SlotEntry)
    → All (IsFound map) map
    → All (IsFound (inherit_methods ms map)) (inherit_methods ms map)
unfolding inherit_methods
inherit_methods-IsFound [] map h = h
inherit_methods-IsFound (m ∷ ms) map h = elim (Option-cases (get_v_table_slot m)) [
  | inl without ↦ rw without (inherit_methods-IsFound ms map h)
  | inr (slot, with_slot) ↦
      let e : SlotEntry = record {
        name = m.name;
        descriptor = m.descriptor;
        slot = slot;
        method = m;
      } in
      rw with_slot (inherit_methods-IsFound ms (insert_slot e map) (insert_slot-IsFound e map h))
]

inherit-IsFound :
    (cs : List ClassObject) (map : List SlotEntry)
    → All (IsFound map) map
    → All (IsFound (inherit cs map)) (inherit cs map)
unfolding inherit
inherit-IsFound [] map h = h
inherit-IsFound (c ∷ cs) map h =
    inherit-IsFound cs (inherit_methods c.methods map) (inherit_methods-IsFound c.methods map h)

max_attained :
    (P : SlotEntry → Type 0) (e : SlotEntry) (es : List SlotEntry)
    → All P (e ∷ es)
    → (x : SlotEntry) × P x × (x.slot ≡ max_slot (e ∷ es))
unfolding max_slot
max_attained P e [] (h, hs) = (e, h, ground arith)
max_attained P e (f ∷ fs) (h, hs) =
    let (x, here, same) = max_attained P f fs hs in
    elim (Bool-cases (ltb (max_slot (f ∷ fs)) e.slot)) [
      | inl larger ↦ (e, h, rw larger refl)
      | inr smaller ↦ (x, here, rw smaller same)
    ]

find-le :
    (name descriptor : List ℕ) (entries : List SlotEntry) {e : SlotEntry}
    → find_slot name descriptor entries ≡ some e
    → e.slot ≤ max_slot entries
unfolding find_slot max_slot
find-le name descriptor [] h = cc
find-le name descriptor (x ∷ xs) {e} h =
    elim (Bool-cases (text_eq x.name name && text_eq x.descriptor descriptor)) [
      | inl here ↦
          let same : some x ≡ some e = rw here at h in
          let x_is_e : x ≡ e = cc in
          let slots : x.slot ≡ e.slot = ap (λ (y : SlotEntry). y.slot) x_is_e in
          let le : x.slot ≤ max_slot (x ∷ xs) = ground arith in omega (arith, le, slots)
      | inr other ↦ let le = find-le name descriptor xs (rw other at h) in ground arith
    ]

first_free :
    (cs : List ClassObject) (limit : ℕ) (map : List SlotEntry)
    → map ≡ inherit cs []
    → All (IsFound map) map
    → ((name descriptor : List ℕ) (m : Method)
        → inherited name descriptor cs ≡ some m
        → m.v_table_slot < limit)
    → limit < 2 ^ 16
    → IsFirstFree cs (inherited_count map)
      × (inherited_count map ≤ limit)
      × (max_slot map + 1 < 2 ^ 16)
unfolding inherited_count
first_free cs limit [] same found below room = (
  (
    (λ name descriptor m h.
        let (e, there, _) = find-inherited name descriptor cs m h in
        absurd (
          let nowhere : find_slot name descriptor [] ≡ some e =
            ap (find_slot name descriptor) same ∙ there in
          unfold find_slot in cc)),
    inl refl,
  ),
  omega arith,
  unfold max_slot in omega arith,
)
first_free cs limit (e ∷ es) same found below room =
    let (x, there, largest) = max_attained (IsFound (e ∷ es)) e es found in
    let (m, m_there, slot, _) =
      find-some x.name x.descriptor cs x (sym (ap (find_slot x.name x.descriptor) same) ∙ there) in
    let lt : m.v_table_slot < limit = below x.name x.descriptor m m_there in
    let small : max_slot (e ∷ es) < limit = omega (arith, lt, slot, largest) in
    let exact : (max_slot (e ∷ es) + 1) % 2 ^ 16 ≡ max_slot (e ∷ es) + 1 = omega arith in
    (
      (
        (λ name descriptor m' h.
            let (e', there', slot') = find-inherited name descriptor cs m' h in
            let le =
              find-le name descriptor (e ∷ es) (ap (find_slot name descriptor) same ∙ there') in
            omega (arith, le, slot', exact)),
        inr (x.name, x.descriptor, m, m_there, omega (arith, exact, slot, largest)),
      ),
      omega (arith, exact, small),
      omega (arith, small, room),
    )

-- The same for what the super classes give.
pub inherited_count-IsFirstFree :
    (cs : List ClassObject) (limit : ℕ)
    → ((name descriptor : List ℕ) (m : Method)
        → inherited name descriptor cs ≡ some m
        → m.v_table_slot < limit)
    → limit < 2 ^ 16
    → IsFirstFree cs (inherited_count (inherit cs []))
      × (inherited_count (inherit cs []) ≤ limit)
      × (max_slot (inherit cs []) + 1 < 2 ^ 16)
inherited_count-IsFirstFree cs limit below room =
    first_free cs limit (inherit cs []) refl (inherit-IsFound cs [] tt) below room
