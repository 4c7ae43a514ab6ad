-- ===== src/Vm/GarbageCollector/Sweeping/Replacing.antt =====
-- src/jllvm/vm/GarbageCollector.cpp: the loop of `garbageCollect` that replaces references.
use jllvm.Base.{
  ℕ, zero, suc, ◌+◌, ◌<◌, ◌≡◌, refl, ap, sym, ◌∙◌, inl, inr, true, false, List, [], ◌∷◌, none, some,
  arith, ◌==◌, if◌then◌else◌, length, contains, ok, Bool-cases, Option-cases, ==_iff,
}
use jllvm.Vm.GarbageCollector.Heap.{
  Address, Classes, ObjectRepr, Memory, update, get_size, introspect_object,
}
use jllvm.Vm.GarbageCollector.Sweeping.{Mapping, replacement, replace_slots, replace_references}
use jllvm.Vm.GarbageCollector.Sweeping.Copying.{
  Objects, Walk, addresses, Walk-le, Walk-frame, written,
}

-- What the code makes of a reference: its replacement, or the reference itself.
abbrev pub translate : Mapping → Address → Address
translate mapping p = elim (replacement mapping p) [ none ↦ p | some q ↦ q ]

module _ (classes : Classes) (mapping : Mapping)
    (stable : (p : Address) → translate mapping (translate mapping p) ≡ translate mapping p) where
  -- Each listed slot is translated, though it be listed twice, and the others are kept.
  pub replace_slots_body :
      (slots : List ℕ) (object : ObjectRepr) (x : ℕ)
      → (replace_slots classes mapping slots object).body x
        ≡ (if contains slots x then translate mapping (object.body x) else object.body x)
  unfolding replace_slots
  replace_slots_body [] object x = refl
  replace_slots_body (slot ∷ rest) object x =
      elim (Option-cases (replacement mapping (object.body slot))) [
        | inl none_found ↦ simp none_found (
            replace_slots_body rest object x
            ∙ unfold update in ground (arith, stable (object.body x)))
        | inr (q, found) ↦ simp found (
            replace_slots_body rest (record object { body = update object.body slot q }) x
            ∙ unfold update in ground (arith, stable (object.body x)))
      ]

  pub replace_slots_header :
      (slots : List ℕ) (object : ObjectRepr)
      → ((replace_slots classes mapping slots object).class_object ≡ object.class_object)
        × ((replace_slots classes mapping slots object).array_length ≡ object.array_length)
        × ((replace_slots classes mapping slots object).seen ≡ object.seen)
  unfolding replace_slots
  replace_slots_header [] object = (refl, refl, refl)
  replace_slots_header (slot ∷ rest) object =
      elim (Option-cases (replacement mapping (object.body slot))) [
        | inl none_found ↦ simp none_found (replace_slots_header rest object)
        | inr (q, found) ↦
            simp found
              (replace_slots_header rest (record object { body = update object.body slot q }))
      ]

  abbrev pub replaced : ObjectRepr → ObjectRepr
  replaced object = replace_slots classes mapping (introspect_object classes object) object

  abbrev pub replaced_all : Objects → Objects
  replaced_all [] = []
  replaced_all ((a, object) ∷ rest) = (a, replaced object) ∷ replaced_all rest

  get_size-replaced :
      (object : ObjectRepr) → get_size classes (replaced object) ≡ get_size classes object
  unfolding get_size
  get_size-replaced object =
      let (class, size, _) = replace_slots_header (introspect_object classes object) object in
      rw (class, size) refl

  replace_step :
      (fuel : ℕ) (end iter : Address) (memory : Memory) (object : ObjectRepr)
      → iter < end
      → memory iter ≡ some object
      → replace_references classes (suc fuel) mapping end iter memory
        ≡ replace_references classes fuel mapping end
            (iter + get_size classes object)
            (update memory iter (some (replaced object)))
  unfolding replace_references
  replace_step fuel end iter memory object h at =
      let more : (iter == end) ≡ false = ground arith in rw (more, at, replace_references)

  not_later :
      (memory : Memory) (iter end : Address) (objects : Objects) (p : Address)
      → p < iter
      → Walk classes memory iter end objects
      → contains (addresses objects) p ≡ false
  not_later memory iter end [] p h w = refl
  not_later memory iter end ((a, object) ∷ rest) p h (here, at, pos, w) =
      ground (arith, not_later memory (iter + get_size classes object) end rest p)

  pub replace_references-replaced_all :
      (fuel : ℕ) (end iter : Address) (memory : Memory) (objects : Objects)
      → Walk classes memory iter end objects
      → length objects < fuel
      → (result : Memory) × (replace_references classes fuel mapping end iter memory ≡ ok result)
        × Walk classes result iter end (replaced_all objects)
        × ((p : Address) → contains (addresses objects) p ≡ false → result p ≡ memory p)
        × ((p : Address) (object : ObjectRepr)
            → contains (addresses objects) p ≡ true
            → memory p ≡ some object
            → result p ≡ some (replaced object))
  unfolding replace_references
  replace_references-replaced_all zero end iter memory objects w h = absurd (omega arith)
  replace_references-replaced_all (suc fuel) end iter memory [] w h =
      (memory, rw ((==_iff iter end).1 w) refl, w, λ p c. refl, λ p object c. absurd (cc))
  replace_references-replaced_all (suc fuel) end iter memory ((a, object) ∷ rest) (here, at, pos, w)
        h =
      let size = get_size classes object in
      let inside : iter < end = omega (arith, Walk-le classes memory (iter + size) end rest w) in
      let next = update memory iter (some (replaced object)) in
      let (result, run, walk, below, inner) =
        replace_references-replaced_all fuel end (iter + size) next rest
          (Walk-frame classes memory iter (some (replaced object)) (iter + size) end rest
            (omega arith) w)
          (omega arith) in
      let first : result iter ≡ some (replaced object) =
        below iter (not_later memory (iter + size) end rest iter (omega arith) w)
        ∙ written classes memory iter (some (replaced object)) in
      rw (replace_step fuel end iter memory object inside at) (
        result,
        run,
        (here, first, rw (get_size-replaced object) pos, rw (get_size-replaced object) walk),
        (λ p c. below p (ground arith) ∙ unfold update in ground arith),
        λ p o c m. elim (Bool-cases (a == p)) [
          | inl same ↦
              let e : a ≡ p = (==_iff a p).0 same in
              let one : some object ≡ some o = sym at ∙ ap memory (sym here ∙ e) ∙ m in
              let eo : object ≡ o = cc in
              ap result (sym e ∙ here) ∙ first ∙ ap (λ (t : ObjectRepr). some (replaced t)) eo
          | inr other ↦
              inner p o (ground arith)
                (unfold update in let apart : (p == iter) ≡ false = ground arith in rw apart m)
        ],
      )

  -- The object has become the other, with the slots that are visited translated.
  pub record IsTranslated (object copy : ObjectRepr) : Type 0 where
    pub class_object : copy.class_object ≡ object.class_object
    pub array_length : copy.array_length ≡ object.array_length
    pub seen : copy.seen ≡ object.seen
    pub body :
        (slot : ℕ)
        → copy.body slot ≡ (
            if contains (introspect_object classes object) slot
            then translate mapping (object.body slot)
            else object.body slot)

  replaced-IsTranslated : (object : ObjectRepr) → IsTranslated object (replaced object)
  replaced-IsTranslated object =
      let (class, size, mark) = replace_slots_header (introspect_object classes object) object in
      record {
        class_object = class;
        array_length = size;
        seen = mark;
        body = replace_slots_body (introspect_object classes object) object;
      }

  pub replaced_all-addresses :
      (objects : Objects) → addresses (replaced_all objects) ≡ addresses objects
  replaced_all-addresses [] = refl
  replaced_all-addresses ((a, object) ∷ rest) =
      ap (λ (r : List Address). a ∷ r) (replaced_all-addresses rest)

  -- When translating an address twice is translating it once, then on a row of objects and with
  -- more fuel than objects the loop that replaces the references in them ends; it leaves a row of
  -- objects at the same addresses, in which each has the class, length and mark that it had, its
  -- slots that introspectObject visits are translated, and its other words are what they were;
  -- and nothing elsewhere changes.
  pub replace_references_lem :
      (fuel : ℕ) (end iter : Address) (memory : Memory) (objects : Objects)
      → Walk classes memory iter end objects
      → length objects < fuel
      → (result : Memory) × (replace_references classes fuel mapping end iter memory ≡ ok result)
        × ((objects' : Objects) × Walk classes result iter end objects'
            × (addresses objects' ≡ addresses objects))
        × ((p : Address) → contains (addresses objects) p ≡ false → result p ≡ memory p)
        × ((p : Address) (object : ObjectRepr)
            → contains (addresses objects) p ≡ true
            → memory p ≡ some object
            → (copy : ObjectRepr) × (result p ≡ some copy) × IsTranslated object copy)
  replace_references_lem fuel end iter memory objects w h =
      let (result, run, walk, outside, inside) =
        replace_references-replaced_all fuel end iter memory objects w h in
      (
        result,
        run,
        (replaced_all objects, walk, replaced_all-addresses objects),
        outside,
        λ p object c at. (replaced object, inside p object c at, replaced-IsTranslated object),
      )
