-- ===== src/Object/ClassLoader/Slots.antt =====
-- src/jllvm/object/ClassLoader.cpp: `assignVTableSlots` and `visibility`. The super classes are
-- given in the order of the `getSuperClass` chain; the assignment is a list along the methods.
pub mod Inherited
pub mod FirstFree
pub mod Assigned
use jllvm.Base.{
  ℕ, zero, suc, ◌+◌, ◌%◌, ◌^◌, ◌<◌, ◌≡◌, Bool, true, false, not, ◌&&◌, List, [], ◌∷◌, ◌++◌, Option,
  none, some, if◌then◌else◌, leb, ltb, text_eq, Outcome, ok, fails, fatal, ◌>>=◌,
}
use jllvm.Class.ClassFile.Constants.{ConstantPoolInfo}
use jllvm.Class.ClassFile.Members.{
  MemberInfo, is_private, is_protected, is_public, can_overwrite, can_be_overwritten, get_name,
  get_descriptor,
}
use jllvm.Object.ClassObject.{
  Visibility, package_default, private, public, protected, Method, get_v_table_slot, ClassObject,
}

-- Name, type, and the slot with its method.
pub record SlotEntry : Type 0 where
  pub name : List ℕ
  pub descriptor : List ℕ
  pub slot : ℕ
  pub method : Method

pub find_slot : List ℕ → List ℕ → List SlotEntry → Option SlotEntry
unfolding text_eq
find_slot name descriptor [] = none
find_slot name descriptor (e ∷ es) =
    if text_eq e.name name && text_eq e.descriptor descriptor
    then some e
    else find_slot name descriptor es

-- `map.insert`, which keeps the entry of a key that is there.
unfoldable pub insert_slot : SlotEntry → List SlotEntry → List SlotEntry
unfolding find_slot
insert_slot e map = elim (find_slot e.name e.descriptor map) [ none ↦ e ∷ map | some old ↦ map ]

unfoldable pub inherit_methods : List Method → List SlotEntry → List SlotEntry
unfolding get_v_table_slot insert_slot
inherit_methods [] map = map
inherit_methods (m ∷ ms) map = inherit_methods ms (elim (get_v_table_slot m) [
  | none ↦ map
  | some slot ↦
      insert_slot (record { name = m.name; descriptor = m.descriptor; slot = slot; method = m }) map
])

-- `while (superClass)`
unfoldable pub inherit : List ClassObject → List SlotEntry → List SlotEntry
unfolding inherit_methods
inherit [] map = map
inherit (c ∷ cs) map = inherit cs (inherit_methods c.methods map)

unfoldable pub max_slot : List SlotEntry → ℕ
max_slot [] = 0
max_slot (e ∷ es) = let rest = max_slot es in if ltb rest e.slot then e.slot else rest

-- The slots of the super class, in `std::uint16_t`.
unfoldable pub inherited_count : List SlotEntry → ℕ
unfolding max_slot
inherited_count [] = 0
inherited_count (e ∷ es) = (max_slot (e ∷ es) + 1) % 2 ^ 16

pub is_package : Visibility → Bool
is_package package_default = true
is_package _ = false

-- The choice for one method: its slot, if it gets one, and the count.
assign_slot : List ConstantPoolInfo → List SlotEntry → ℕ → MemberInfo → Outcome (Option ℕ × ℕ)
unfolding can_overwrite can_be_overwritten get_name get_descriptor find_slot is_package
assign_slot pool map count info = do
  overwrites ← can_overwrite pool info
  let found : Outcome (Option ℕ × ℕ) = (do
    name ← get_name pool info
    descriptor ← get_descriptor pool info
    elim (find_slot name descriptor map) [
      | none ↦ can_be_overwritten pool info >>= λ overwritten.
          ok (if overwritten then (some count, (count + 1) % 2 ^ 16) else (none, count))
      | some e ↦ if is_package e.method.visibility then fails fatal else ok (some e.slot, count)
    ])
  if overwrites then found else ok (none, count)

assign_slots :
    List ConstantPoolInfo → List SlotEntry → ℕ → List MemberInfo → Outcome (List (Option ℕ) × ℕ)
unfolding assign_slot
assign_slots pool map count [] = ok ([], count)
assign_slots pool map count (info ∷ infos) = do
  (slot, count) ← assign_slot pool map count info
  (slots, count) ← assign_slots pool map count infos
  ok (slot ∷ slots, count)

-- The slot of each method, and `vTableCount`.
unfoldable pub assign_v_table_slots :
    List ConstantPoolInfo → List MemberInfo → List ClassObject → Outcome (List (Option ℕ) × ℕ)
unfolding inherit inherited_count assign_slots
assign_v_table_slots pool methods super_classes =
    let map = inherit super_classes [] in assign_slots pool map (inherited_count map) methods

unfoldable pub visibility : MemberInfo → Visibility
unfolding is_private is_protected is_public
visibility info =
    if is_private info
    then private
    else (if is_protected info
        then protected
        else (if is_public info then public else package_default))
