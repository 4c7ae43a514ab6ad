-- ===== src/Object/ClassLoader/Loading/Arrays.antt =====
-- src/jllvm/object/ClassLoader.cpp: `forName` on array types.
use jllvm.Base.{
  ℕ, zero, suc, ◌<◌, ◌≡◌, refl, inl, inr, List, [], ◌∷◌, Option, none, some, arith, le→leb, length,
  get_elem?, ok, Option-cases,
}
use jllvm.Class.Descriptors.{drop_front, front}
use jllvm.Object.ClassObject.{ClassRef, ClassObject, create_array, Alignment}
use jllvm.Object.ClassLoader.Loading.{ClassLoader, for_name_loaded, register, class_at, for_name}
use jllvm.Object.ClassLoader.Loading.Loaded.{IsLoader, IsLoaded, for_name-IsLoaded}

-- The descriptor of arrays of `n` dimensions.
abbrev pub arrays : ℕ → List ℕ → List ℕ
arrays zero component = component
arrays (suc n) component = b'[' ∷ arrays n component

drop_front-cons : (c : ℕ) (s : List ℕ) → drop_front 1 (c ∷ s) ≡ ok s
unfolding drop_front
drop_front-cons c s = rw (le→leb 1 (length (c ∷ s)) (omega arith)) refl

get_elem?-lt :
    (xs : List ClassObject) (i : ℕ) → i < length xs → (c : ClassObject) × (get_elem? xs i ≡ some c)
get_elem?-lt [] i h = absurd (omega arith)
get_elem?-lt (x ∷ xs) zero h = (x, refl)
get_elem?-lt (x ∷ xs) (suc i) h = get_elem?-lt xs i (omega arith)

module _ (alignment : Alignment) {S : Type 0} (allocate_static : S → ℕ × S)
    (read_class : List ℕ → Option (List ℕ)) where
  found :
      (fuel : ℕ) (descriptor : List ℕ) (loader : ClassLoader S) (ref : ClassRef)
      → for_name_loaded descriptor loader.mapping ≡ some ref
      → for_name alignment allocate_static read_class (suc fuel) descriptor loader
        ≡ ok (ref, loader)
  unfolding for_name
  found fuel descriptor loader ref e = rw (for_name, e) refl

  new_array :
      (fuel : ℕ) (component : List ℕ) (loader : ClassLoader S) (ref : ClassRef)
      (next : ClassLoader S) (c : ClassObject)
      → for_name_loaded (b'[' ∷ component) loader.mapping ≡ none
      → for_name alignment allocate_static read_class fuel component loader ≡ ok (ref, next)
      → get_elem? next.objects ref ≡ some c
      → for_name alignment allocate_static read_class (suc fuel) (b'[' ∷ component) loader
        ≡ ok (register (b'[' ∷ component) (create_array alignment ref c) next)
  unfolding for_name class_at front
  new_array fuel component loader ref next c absent run at =
      rw (for_name, absent, drop_front-cons b'[' component, run, class_at, at) refl

  -- When the names of a loader refer to class objects that are there and a component type is
  -- among them, forName returns for the array types over it, of any number of dimensions that is
  -- below the fuel, and again all names refer to class objects that are there, with those from
  -- before unchanged.
  pub for_name-arrays :
      (n fuel : ℕ) (component : List ℕ) (loader : ClassLoader S) {ref : ClassRef}
      → IsLoader loader
      → for_name_loaded component loader.mapping ≡ some ref
      → n < fuel
      → (result : ClassRef × ClassLoader S) × (for_name alignment allocate_static read_class fuel
            (arrays n component)
            loader
          ≡ ok result)
        × IsLoaded loader result
  for_name-arrays n zero component loader valid there h = absurd (omega arith)
  for_name-arrays zero (suc fuel) component loader {ref} valid there h =
      let run = found fuel component loader ref there in
      (
        (ref, loader),
        run,
        for_name-IsLoaded alignment allocate_static read_class (suc fuel) component loader valid
            run,
      )
  for_name-arrays (suc n) (suc fuel) component loader valid there h =
      let ((cref, next), inner, (e, v, lt)) =
        for_name-arrays n fuel component loader valid there (omega arith) in
      let descriptor = arrays (suc n) component in
      elim (Option-cases (for_name_loaded descriptor loader.mapping)) [
        | inr (old, known) ↦
            let run = found fuel descriptor loader old known in
            (
              (old, loader),
              run,
              for_name-IsLoaded alignment allocate_static read_class (suc fuel) descriptor loader
                  valid run,
            )
        | inl absent ↦
            let (c, at) = get_elem?-lt next.objects cref lt in
            let run = new_array fuel (arrays n component) loader cref next c absent inner at in
            (
              register descriptor (create_array alignment cref c) next,
              run,
              for_name-IsLoaded alignment allocate_static read_class (suc fuel) descriptor loader
                  valid run,
            )
      ]
