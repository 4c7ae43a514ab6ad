-- ===== src/Object/ClassLoader/Loading/Loaded.antt =====
-- src/jllvm/object/ClassLoader.cpp: the class objects and names before and behind `forName`.
use jllvm.Base.{
  ℕ, zero, suc, ◌≤◌, ◌<◌, ◌≡◌, refl, sym, subst, inl, inr, true, List, [], ◌∷◌, ◌++◌, Option, none,
  some, arith, ◌==◌, text_eq, length, length-append, get_elem?, Outcome, ok, >>=-eq-ok, ok-eq,
  Bool-cases, Option-cases, text_eq_iff, All,
}
use jllvm.Class.Descriptors.{front, drop_front}
use jllvm.Class.ClassFile.{ClassFile, parse_from_file, get_this_class, get_super_class}
use jllvm.Object.ClassObject.{ClassRef, ClassObject, Alignment}
use jllvm.Object.ClassLoader.Slots.{assign_v_table_slots}
use jllvm.Object.ClassLoader.Layout.{lay_out_fields}
use jllvm.Object.ClassLoader.Loading.{
  ClassLoader, for_name_loaded, register, create_loader, descriptor_of, drop_back, class_at,
  super_chain, make_methods, super_area, load_all, load_super, define_class, add, for_name,
}

get_elem?-append :
    (xs ys : List ClassObject) (i : ℕ) {c : ClassObject}
    → get_elem? xs i ≡ some c
    → get_elem? (xs ++ ys) i ≡ some c
get_elem?-append [] ys i h = cc
get_elem?-append (x ∷ xs) ys zero h = h
get_elem?-append (x ∷ xs) ys (suc i) h = get_elem?-append xs ys i h

module _ {S : Type 0} where
  -- The names refer to class objects that are there.
  abbrev pub IsLoader : ClassLoader S → Type 0
  IsLoader loader =
      (name : List ℕ) (ref : ClassRef)
      → for_name_loaded name loader.mapping ≡ some ref
      → ref < length loader.objects

  -- Every class object, and every name of one, is still there.
  pub record Extends (loader after : ClassLoader S) : Type 0 where
    pub names :
        (name : List ℕ) (ref : ClassRef)
        → for_name_loaded name loader.mapping ≡ some ref
        → for_name_loaded name after.mapping ≡ some ref
    pub objects :
        (ref : ClassRef) (c : ClassObject)
        → get_elem? loader.objects ref ≡ some c
        → get_elem? after.objects ref ≡ some c
    pub count : length loader.objects ≤ length after.objects

  Extends-refl : (loader : ClassLoader S) → Extends loader loader
  Extends-refl loader = record {
    names = λ name ref h. h;
    objects = λ ref c h. h;
    count = omega arith;
  }

  Extends-trans : (a b c : ClassLoader S) → Extends a b → Extends b c → Extends a c
  Extends-trans a b c h g = record {
    names = λ name ref e. g.names name ref (h.names name ref e);
    objects = λ ref k e. g.objects ref k (h.objects ref k e);
    count = omega (arith, h.count, g.count);
  }

  -- What loading a class promises of its result.
  abbrev pub IsLoaded : ClassLoader S → ClassRef × ClassLoader S → Type 0
  IsLoaded loader (ref, after) =
      Extends loader after × IsLoader after × (ref < length after.objects)

  -- Under a new name.
  module _ (name : List ℕ) (object : ClassObject) (loader : ClassLoader S)
      (valid : IsLoader loader) where
    taken :
        (n : List ℕ) (r : ClassRef)
        → for_name_loaded n loader.mapping ≡ some r
        → text_eq name n ≡ true
        → for_name_loaded name loader.mapping ≡ none
        → ⊥
    taken n r h same e =
        let k : name ≡ n = (text_eq_iff name n).0 same in let found = rw (← k) at h in cc

    kept :
        (mapping : List (List ℕ × ClassRef))
        → ((n : List ℕ) (r : ClassRef)
            → for_name_loaded n loader.mapping ≡ some r
            → for_name_loaded n mapping ≡ some r)
        → Extends loader
            (record loader { objects = loader.objects ++ object ∷ []; mapping = mapping })
    kept mapping names = record {
      names = names;
      objects = λ r c h. get_elem?-append loader.objects (object ∷ []) r h;
      count = omega (arith, length-append loader.objects (object ∷ []));
    }

    fresh :
        for_name_loaded name loader.mapping ≡ none
        → IsLoaded loader (
          length loader.objects,
          record loader {
            objects = loader.objects ++ object ∷ [];
            mapping = (name, length loader.objects) ∷ loader.mapping;
          },
        )
    unfolding for_name_loaded
    fresh e =
        let more = length-append loader.objects (object ∷ []) in
        (
          kept ((name, length loader.objects) ∷ loader.mapping) (λ n r h.
              elim (Bool-cases (text_eq name n)) [
                | inl same ↦ absurd (taken n r h same e)
                | inr other ↦ rw other h
              ]),
          (λ n r h. elim (Bool-cases (text_eq name n)) [
            | inl same ↦
                let f : some (length loader.objects) ≡ some r = rw same at h in
                let g : length loader.objects ≡ r = cc in omega (arith, more)
            | inr other ↦ let f = rw other at h in omega (arith, more, valid n r f)
          ]),
          omega (arith, more),
        )

    known :
        IsLoaded loader
          (length loader.objects, record loader { objects = loader.objects ++ object ∷ [] })
    known =
        let more = length-append loader.objects (object ∷ []) in
        (
          kept loader.mapping (λ n r h. h),
          (λ n r h. omega (arith, more, valid n r h)),
          omega (arith, more),
        )

    register-IsLoaded : IsLoaded loader (register name object loader)
    unfolding register
    register-IsLoaded = elim (Option-cases (for_name_loaded name loader.mapping)) [
      | inr (old, e) ↦ subst (IsLoaded loader) (sym (rw e refl)) known
      | inl e ↦ subst (IsLoaded loader) (sym (rw e refl)) (fresh e)
    ]

  -- Only the class objects and their names matter.
  with_state :
      (loader after : ClassLoader S) (ref : ClassRef) (s : S)
      (created : List (ClassFile × ClassRef))
      → IsLoaded loader (ref, after)
      → IsLoaded loader (ref, record after { statics = s; created = created })
  with_state loader after ref s created (e, v, lt) =
      (record { names = e.names; objects = e.objects; count = e.count }, v, lt)

  then-IsLoaded :
      (loader next : ClassLoader S) (result : ClassRef × ClassLoader S)
      → Extends loader next
      → IsLoaded next result
      → IsLoaded loader result
  then-IsLoaded loader next (ref, after) e (f, v, lt) = (Extends-trans loader next after e f, v, lt)

module _ (alignment : Alignment) {S : Type 0} (allocate_static : S → ℕ × S)
    (read_class : List ℕ → Option (List ℕ)) where
  abbrev LoadsByName : (List ℕ → ClassLoader S → Outcome (ClassRef × ClassLoader S)) → Type 0
  LoadsByName load =
      (name : List ℕ) (loader : ClassLoader S) (result : ClassRef × ClassLoader S)
      → IsLoader loader
      → load name loader ≡ ok result
      → IsLoaded loader result

  module _ (load : List ℕ → ClassLoader S → Outcome (ClassRef × ClassLoader S))
      (loads : LoadsByName load) where
    load_all-Extends :
        (names : List (List ℕ)) (loader : ClassLoader S) {result : List ClassRef × ClassLoader S}
        → IsLoader loader
        → load_all alignment allocate_static read_class load names loader ≡ ok result
        → Extends loader result.1 × IsLoader result.1
    unfolding load_all
    load_all-Extends [] loader valid h =
        subst (λ (r : List ClassRef × ClassLoader S). Extends loader r.1 × IsLoader r.1) (ok-eq h)
          (Extends-refl loader, valid)
    load_all-Extends (name ∷ names) loader valid h =
        let ((ref, next), one, h₁) = >>=-eq-ok (load (descriptor_of name) loader) _ h in
        let ((refs, after), rest, h₂) =
          >>=-eq-ok (load_all alignment allocate_static read_class load names next) _ h₁ in
        let (e, v, lt) = loads (descriptor_of name) loader (ref, next) valid one in
        let (f, w) = load_all-Extends names next v rest in
        subst (λ (r : List ClassRef × ClassLoader S). Extends loader r.1 × IsLoader r.1) (ok-eq h₂)
          (Extends-trans loader next after e f, w)

    load_super-Extends :
        (name : Option (List ℕ)) (loader : ClassLoader S) {result : Option ClassRef × ClassLoader S}
        → IsLoader loader
        → load_super alignment allocate_static read_class load name loader ≡ ok result
        → Extends loader result.1 × IsLoader result.1
    unfolding load_super
    load_super-Extends none loader valid h =
        subst (λ (r : Option ClassRef × ClassLoader S). Extends loader r.1 × IsLoader r.1) (ok-eq h)
          (Extends-refl loader, valid)
    load_super-Extends (some name) loader valid h =
        let ((ref, next), one, h₁) = >>=-eq-ok (load (descriptor_of name) loader) _ h in
        let (e, v, lt) = loads (descriptor_of name) loader (ref, next) valid one in
        subst (λ (r : Option ClassRef × ClassLoader S). Extends loader r.1 × IsLoader r.1)
          (ok-eq h₁) (e, v)

    define_class-IsLoaded :
        (file : ClassFile) (name : List ℕ) (loader : ClassLoader S)
        {result : ClassRef × ClassLoader S}
        → IsLoader loader
        → define_class alignment allocate_static read_class load file name loader ≡ ok result
        → IsLoaded loader result
    unfolding define_class
    define_class-IsLoaded file name loader valid h =
        let (super_name, _, h₁) = >>=-eq-ok (get_super_class file) _ h in
        let ((super, l₁), r₁, h₂) =
          >>=-eq-ok (load_super alignment allocate_static read_class load super_name loader) _ h₁ in
        let (e₁, v₁) = load_super-Extends super_name loader valid r₁ in
        let ((interfaces, l₂), r₂, h₃) =
          >>=-eq-ok (load_all alignment allocate_static read_class load file.interfaces l₁) _ h₂ in
        let (e₂, v₂) = load_all-Extends file.interfaces l₁ v₁ r₂ in
        let ((slots, count), _, h₄) =
          >>=-eq-ok
            (assign_v_table_slots file.constant_pool file.methods
              (super_chain (length l₂.objects) l₂.objects super))
            _ h₃ in
        let (methods, _, h₅) =
          >>=-eq-ok (make_methods file.constant_pool file.methods slots) _ h₄ in
        let (area, _, h₆) = >>=-eq-ok (super_area l₂.objects super) _ h₅ in
        let ((fields, size, statics), _, h₇) =
          >>=-eq-ok
            (lay_out_fields alignment allocate_static file.constant_pool file.fields area
              l₂.statics)
            _ h₆ in
        let l₃ = record l₂ { statics = statics } in
        subst (IsLoaded loader) (ok-eq h₇) (
          then-IsLoaded loader l₂ _ (Extends-trans loader l₁ l₂ e₁ e₂) (
            then-IsLoaded l₂ l₃ _
              (record { names = λ n r g. g; objects = λ r c g. g; count = omega arith })
              (with_state l₃ _ _ _ _ (register-IsLoaded (descriptor_of name) _ l₃ v₂))))

    add-IsLoaded :
        (bytes : List ℕ) (loader : ClassLoader S) {result : ClassRef × ClassLoader S}
        → IsLoader loader
        → add alignment allocate_static read_class load bytes loader ≡ ok result
        → IsLoaded loader result
    unfolding add
    add-IsLoaded bytes loader valid h =
        let (file, _, h₁) = >>=-eq-ok (parse_from_file bytes) _ h in
        let (name, _, h₂) = >>=-eq-ok (get_this_class file) _ h₁ in
        elim (Option-cases (for_name_loaded (descriptor_of name) loader.mapping)) [
          | inl absent ↦ define_class-IsLoaded file name loader valid (rw absent at h₂)
          | inr (ref, there) ↦
              subst (IsLoaded loader) (ok-eq (rw there at h₂))
                (Extends-refl loader, valid, valid (descriptor_of name) ref there)
        ]

  -- When the names of a loader refer to class objects that are there, and forName returns a class
  -- object, then that class object is there, every class object and every name of one from before
  -- is still there unchanged, and again all names refer to class objects that are there.
  pub for_name-IsLoaded :
      (fuel : ℕ) (descriptor : List ℕ) (loader : ClassLoader S) {result : ClassRef × ClassLoader S}
      → IsLoader loader
      → for_name alignment allocate_static read_class fuel descriptor loader ≡ ok result
      → IsLoaded loader result
  unfolding for_name
  for_name-IsLoaded zero descriptor loader valid h = cc
  for_name-IsLoaded (suc fuel) descriptor loader {result} valid h =
      elim (Option-cases (for_name_loaded descriptor loader.mapping)) [
        | inr (ref, there) ↦
            subst (IsLoaded loader) (ok-eq (rw (for_name, there) at h))
              (Extends-refl loader, valid, valid descriptor ref there)
        | inl absent ↦
            let h₀ = rw (for_name, absent) at h in
            let (first, _, h₁) = >>=-eq-ok (front descriptor) _ h₀ in
            let (rest, _, h₂) = >>=-eq-ok (drop_front 1 descriptor) _ h₁ in
            elim (Bool-cases (first == b'[')) [
              | inl is_array ↦
                  let h₃ = rw is_array at h₂ in
                  let ((component_ref, next), one, h₄) =
                    >>=-eq-ok (for_name alignment allocate_static read_class fuel rest loader) _
                      h₃ in
                  let (component, _, h₅) = >>=-eq-ok (class_at next.objects component_ref) _ h₄ in
                  let (e, v, lt) = for_name-IsLoaded fuel rest loader valid one in
                  subst (IsLoaded loader) (ok-eq h₅)
                    (then-IsLoaded loader next _ e (register-IsLoaded descriptor _ next v))
              | inr from_file ↦
                  let h₃ = rw from_file at h₂ in
                  let (name, _, h₄) = >>=-eq-ok (drop_back rest) _ h₃ in
                  elim (Option-cases (read_class name)) [
                    | inl missing ↦ absurd (let h₅ = rw missing at h₄ in cc)
                    | inr (bytes, present) ↦
                        let h₅ = rw present at h₄ in
                        let (file, _, h₆) = >>=-eq-ok (parse_from_file bytes) _ h₅ in
                        add-IsLoaded (for_name alignment allocate_static read_class fuel)
                          (λ n l result v r. for_name-IsLoaded fuel n l v r) bytes loader valid h₆
                  ]
            ]
      ]

mapping-lt :
    (n : ℕ) (mapping : List (List ℕ × ClassRef))
    → All (λ (e : List ℕ × ClassRef). e.1 < n) mapping
    → (name : List ℕ) (ref : ClassRef) → for_name_loaded name mapping ≡ some ref
    → ref < n
unfolding for_name_loaded
mapping-lt n [] h name ref found = cc
mapping-lt n ((k, r) ∷ rest) (h, hs) name ref found = elim (Bool-cases (text_eq k name)) [
  | inl same ↦ let e : some r ≡ some ref = rw same at found in let f : r ≡ ref = cc in omega arith
  | inr other ↦ mapping-lt n rest hs name ref (rw other at found)
]

pub create_loader-IsLoader : {S : Type 0} (statics : S) → IsLoader (create_loader statics)
unfolding create_loader
create_loader-IsLoader statics = mapping-lt 9 (create_loader statics).mapping (
  omega arith,
  (
    omega arith,
    (
      omega arith,
      (omega arith, (omega arith, (omega arith, (omega arith, (omega arith, (omega arith, tt)))))),
    ),
  ),
)
