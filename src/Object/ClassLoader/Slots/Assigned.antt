-- ===== src/Object/ClassLoader/Slots/Assigned.antt =====
-- src/jllvm/object/ClassLoader.cpp: the slots that `assignVTableSlots` gives out.
use jllvm.Base.{ℕ, ◌+◌, ◌<◌, ◌≡◌, ◌⊎◌, true, false, List, [], ◌∷◌, Option, none, some, ok}
use jllvm.Class.ClassFile.Constants.{ConstantPoolInfo}
use jllvm.Class.ClassFile.Members.{MemberInfo, can_overwrite, get_name, get_descriptor}
use jllvm.Object.ClassObject.{Method, ClassObject}
use jllvm.Object.ClassLoader.Slots.{SlotEntry, find_slot, is_package}
use jllvm.Object.ClassLoader.Slots.Inherited.{inherited}

module _ (pool : List ConstantPoolInfo) (super_classes : List ClassObject) where
  -- The super classes have a method with its name and type, which is not package private.
  abbrev pub IsOverride : MemberInfo → ℕ → Type 0
  IsOverride info slot =
      (name descriptor : List ℕ) × (m : Method) × (get_name pool info ≡ ok name)
      × (get_descriptor pool info ≡ ok descriptor)
      × (inherited name descriptor super_classes ≡ some m)
      × (is_package m.visibility ≡ false)
      × (slot ≡ m.v_table_slot)

  abbrev pub IsNew : MemberInfo → Type 0
  IsNew info =
      (name descriptor : List ℕ) × (get_name pool info ≡ ok name)
      × (get_descriptor pool info ≡ ok descriptor)
      × (inherited name descriptor super_classes ≡ none)

  -- Along the methods: no slot for one that cannot override, the inherited slot for one that does,
  -- and the next free slot for a new one.
  abbrev pub Assigned : ℕ → List MemberInfo → List (Option ℕ) → ℕ → Type 0
  Assigned count [] [] n = count ≡ n
  Assigned count (info ∷ infos) (none ∷ slots) n =
      (can_overwrite pool info ≡ ok false) × Assigned count infos slots n
  Assigned count (info ∷ infos) (some slot ∷ slots) n =
      (can_overwrite pool info ≡ ok true)
      × ((IsOverride info slot × (slot < count) × Assigned count infos slots n)
          ⊎ (IsNew info × (slot ≡ count) × Assigned (count + 1) infos slots n))
  Assigned _ _ _ _ = ⊥

module _ (pool : List ConstantPoolInfo) (map : List SlotEntry) where
  -- The same by the entries of `map`.
  abbrev IsOverrideIn : MemberInfo → ℕ → Type 0
  IsOverrideIn info slot =
      (name descriptor : List ℕ) × (e : SlotEntry) × (get_name pool info ≡ ok name)
      × (get_descriptor pool info ≡ ok descriptor)
      × (find_slot name descriptor map ≡ some e)
      × (is_package e.method.visibility ≡ false)
      × (slot ≡ e.slot)

  abbrev IsNewIn : MemberInfo → Type 0
  IsNewIn info =
      (name descriptor : List ℕ) × (get_name pool info ≡ ok name)
      × (get_descriptor pool info ≡ ok descriptor)
      × (find_slot name descriptor map ≡ none)

  abbrev AssignedIn : ℕ → List MemberInfo → List (Option ℕ) → ℕ → Type 0
  AssignedIn count [] [] n = count ≡ n
  AssignedIn count (info ∷ infos) (none ∷ slots) n =
      (can_overwrite pool info ≡ ok false) × AssignedIn count infos slots n
  AssignedIn count (info ∷ infos) (some slot ∷ slots) n =
      (can_overwrite pool info ≡ ok true)
      × ((IsOverrideIn info slot × (slot < count) × AssignedIn count infos slots n)
          ⊎ (IsNewIn info × (slot ≡ count) × AssignedIn (count + 1) infos slots n))
  AssignedIn _ _ _ _ = ⊥
