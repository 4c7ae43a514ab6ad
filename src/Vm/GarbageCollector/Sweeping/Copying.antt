-- ===== src/Vm/GarbageCollector/Sweeping/Copying.antt =====
-- src/jllvm/vm/GarbageCollector.cpp: the loop of `garbageCollect` that copies, on a row of objects.
use jllvm.Base.{
  ℕ, zero, suc, ◌+◌, ◌≤◌, ◌<◌, ◌≡◌, refl, ap, sym, ◌∙◌, inl, inr, true, false, not, List, [], ◌∷◌,
  Option, none, some, arith, ◌==◌, if◌then◌else◌, length, ok, Bool-cases, ==_iff,
}
use jllvm.Vm.GarbageCollector.Heap.{Address, Classes, ObjectRepr, Memory, update, get_size}
use jllvm.Vm.GarbageCollector.Sweeping.{lookup, SweepState, relocate, sweep}

abbrev pub Objects : Type 0
Objects = List (Address × ObjectRepr)

abbrev pub cleared : ObjectRepr → ObjectRepr
cleared object = record object { seen = false }

-- `p` where `q` has nothing.
abbrev pub or_else {ℓ} : {A : Type ℓ} → Option A → Option A → Option A
or_else none q = q
or_else (some a) q = some a

module _ (classes : Classes) where
  -- From `iter` to `end` the objects stand one behind the other.
  abbrev pub Walk : Memory → Address → Address → Objects → Type 0
  Walk memory iter end [] = iter ≡ end
  Walk memory iter end ((a, object) ∷ rest) =
      (a ≡ iter)
      × (memory iter ≡ some object)
      × (0 < get_size classes object)
      × Walk memory (iter + get_size classes object) end rest

  -- The bump pointer, the copies and their addresses, with the first copy at `bump`.
  unfoldable pub bump_after : Address → Objects → Address
  bump_after bump [] = bump
  bump_after bump ((a, object) ∷ rest) =
      bump_after (if object.seen then bump + get_size classes object else bump) rest

  unfoldable pub new_address : Address → Objects → Address → Option Address
  new_address bump [] p = none
  new_address bump ((a, object) ∷ rest) p =
      let later =
        new_address (if object.seen then bump + get_size classes object else bump) rest p in
      if object.seen then (if a == p then some bump else later) else later

  unfoldable pub copies : Address → Objects → Objects
  copies bump [] = []
  copies bump ((a, object) ∷ rest) =
      let later = copies (if object.seen then bump + get_size classes object else bump) rest in
      if object.seen then (bump, cleared object) ∷ later else later

  unfoldable pub copied_memory : Memory → Address → Objects → Memory
  unfolding update
  copied_memory memory bump [] = memory
  copied_memory memory bump ((a, object) ∷ rest) =
      if object.seen
      then copied_memory (update memory bump (some (cleared object)))
          (bump + get_size classes object) rest
      else copied_memory memory bump rest

  pub Walk-le :
      (memory : Memory) (iter end : Address) (objects : Objects)
      → Walk memory iter end objects
      → iter + length objects ≤ end
  Walk-le memory iter end [] w = omega arith
  Walk-le memory iter end ((a, object) ∷ rest) (here, at, pos, w) =
      omega (arith, Walk-le memory (iter + get_size classes object) end rest w)

  -- A write below the walk leaves it alone.
  pub Walk-frame :
      (memory : Memory) (p : Address) (o : Option ObjectRepr) (iter end : Address)
      (objects : Objects)
      → p < iter
      → Walk memory iter end objects
      → Walk (update memory p o) iter end objects
  unfolding update
  Walk-frame memory p o iter end [] h w = w
  Walk-frame memory p o iter end ((a, object) ∷ rest) h (here, at, pos, w) = (
    here,
    ground arith,
    pos,
    Walk-frame memory p o (iter + get_size classes object) end rest (omega arith) w,
  )

  new_address-below :
      (memory : Memory) (iter end bump : Address) (objects : Objects) (p : Address)
      → Walk memory iter end objects
      → p < iter
      → new_address bump objects p ≡ none
  unfolding new_address
  new_address-below memory iter end bump [] p w h = refl
  new_address-below memory iter end bump ((a, object) ∷ rest) p (here, at, pos, w) h = ground (
    arith,
    new_address-below memory (iter + get_size classes object) end
        (if object.seen then bump + get_size classes object else bump) rest p w,
  )

  sweep_step :
      (fuel : ℕ) (end iter : Address) (s : SweepState) (object : ObjectRepr)
      → iter < end
      → s.from_memory iter ≡ some object
      → sweep classes (suc fuel) end iter s
        ≡ sweep classes fuel end
            (iter + get_size classes object)
            (if not object.seen then s else relocate iter object (get_size classes object) s)
  unfolding sweep
  sweep_step fuel end iter s object h at =
      let more : (iter == end) ≡ false = ground arith in rw (more, at, sweep)

  -- On a row of objects and with more fuel than objects, the loop that copies the marked ones
  -- ends; the bump pointer, the other space and the mapping are then those of copying the marked
  -- objects one behind the other, with earlier entries of the mapping kept.
  pub sweep_lem :
      (fuel : ℕ) (end iter : Address) (s : SweepState) (objects : Objects)
      → Walk s.from_memory iter end objects
      → length objects < fuel
      → (t : SweepState) × (sweep classes fuel end iter s ≡ ok t)
        × (t.bump_ptr ≡ bump_after s.bump_ptr objects)
        × (t.to_memory ≡ copied_memory s.to_memory s.bump_ptr objects)
        × ((p : Address)
            → lookup t.mapping p ≡ or_else (new_address s.bump_ptr objects p) (lookup s.mapping p))
  unfolding sweep lookup bump_after copied_memory new_address
  sweep_lem zero end iter s objects w h = absurd (omega arith)
  sweep_lem (suc fuel) end iter s [] w h =
      (s, rw ((==_iff iter end).1 w) refl, refl, refl, λ p. refl)
  sweep_lem (suc fuel) end iter s ((a, object) ∷ rest) (here, at, pos, w) h =
      let inside : iter < end =
        omega (arith, Walk-le s.from_memory (iter + get_size classes object) end rest w) in
      rw (sweep_step fuel end iter s object inside at) (elim (Bool-cases object.seen) [
        | inr dead ↦
            simp dead (sweep_lem fuel end (iter + get_size classes object) s rest w (omega arith))
        | inl live ↦ simp live (
            let size = get_size classes object in
            let next = relocate iter object size s in
            let frame =
              Walk-frame s.from_memory iter (some (cleared object)) (iter + size) end rest
                (omega arith) w in
            let (t, run, bump, memory, mapping) =
              sweep_lem fuel end (iter + size) next rest frame (omega arith) in
            let fresh : (p : Address)
                → p < iter + size
                → new_address (s.bump_ptr + size) rest p ≡ none =
              λ p. new_address-below s.from_memory (iter + size) end (s.bump_ptr + size) rest p w in
            (t, run, bump, memory, λ p. mapping p ∙ ground (arith, fresh p)))
      ])

  -- The copies below `bump` are not touched any more.
  copied_memory-below :
      (memory : Memory) (bump : Address) (objects : Objects) (p : Address)
      → p < bump
      → copied_memory memory bump objects p ≡ memory p
  unfolding copied_memory
  copied_memory-below memory bump [] p h = refl
  copied_memory-below memory bump ((a, object) ∷ rest) p h = elim (Bool-cases object.seen) [
    | inr dead ↦ simp dead (copied_memory-below memory bump rest p h)
    | inl live ↦ simp live (
        copied_memory-below (update memory bump (some (cleared object)))
          (bump + get_size classes object) rest p (omega arith)
        ∙ unfold update in ground arith)
  ]

  pub written : (memory : Memory) (p : Address) (o : Option ObjectRepr) → update memory p o p ≡ o
  unfolding update
  written memory p o = ground arith

  get_size-cleared :
      (object : ObjectRepr) → get_size classes (cleared object) ≡ get_size classes object
  unfolding get_size
  get_size-cleared object = refl

  -- In the other space the copies stand one behind the other, up to the new bump pointer.
  pub copies-Walk :
      (from_memory : Memory) (iter end : Address) (memory : Memory) (bump : Address)
      (objects : Objects)
      → Walk from_memory iter end objects
      → Walk
          (copied_memory memory bump objects)
          bump
          (bump_after bump objects)
          (copies bump objects)
  unfolding copied_memory copies bump_after
  copies-Walk from_memory iter end memory bump [] w = refl
  copies-Walk from_memory iter end memory bump ((a, object) ∷ rest) (here, at, pos, w) =
      let size = get_size classes object in
      elim (Bool-cases object.seen) [
        | inr dead ↦ simp dead (copies-Walk from_memory (iter + size) end memory bump rest w)
        | inl live ↦ simp live (
            rw (get_size-cleared object) (
              refl,
              copied_memory-below (update memory bump (some (cleared object))) (bump + size) rest
                    bump (omega arith)
                  ∙ written memory bump (some (cleared object)),
              pos,
              copies-Walk from_memory (iter + size) end (update memory bump (some (cleared object)))
                  (bump + size) rest w,
            ))
      ]

  -- The copies take no more room than the objects.
  pub bump_after-le :
      (memory : Memory) (iter end bump : Address) (objects : Objects)
      → Walk memory iter end objects
      → (bump ≤ bump_after bump objects) × (bump_after bump objects + iter ≤ bump + end)
  unfolding bump_after
  bump_after-le memory iter end bump [] w = omega arith
  bump_after-le memory iter end bump ((a, object) ∷ rest) (here, at, pos, w) =
      let size = get_size classes object in
      let ih =
        bump_after-le memory (iter + size) end (if object.seen then bump + size else bump) rest w in
      elim (Bool-cases object.seen) [
        | inr dead ↦ simp dead (let j = simp dead at ih in omega arith)
        | inl live ↦ simp live (let j = simp live at ih in omega arith)
      ]

  -- What has a new address is a marked object of the walk, and its copy stands there.
  pub new_address-copied :
      (from_memory : Memory) (iter end : Address) (memory : Memory) (bump : Address)
      (objects : Objects) (p q : Address)
      → Walk from_memory iter end objects
      → new_address bump objects p ≡ some q
      → (object : ObjectRepr) × (from_memory p ≡ some object)
        × (object.seen ≡ true)
        × (iter ≤ p)
        × (p < end)
        × (bump ≤ q)
        × (q < bump_after bump objects)
        × (copied_memory memory bump objects q ≡ some (cleared object))
  unfolding new_address copied_memory bump_after
  new_address-copied from_memory iter end memory bump [] p q w h = cc
  new_address-copied from_memory iter end memory bump ((a, object) ∷ rest) p q (here, at, pos, w)
        h =
      let size = get_size classes object in
      elim (Bool-cases object.seen) [
        | inr dead ↦
            let (o, m, seen, lo, hi, above, below, copy) =
              new_address-copied from_memory (iter + size) end memory bump rest p q w
                (simp dead at h) in
            simp dead (o, m, seen, omega arith, hi, above, below, copy)
        | inl live ↦ elim (Bool-cases (a == p)) [
          | inl same ↦
              let e : a ≡ p = (==_iff a p).0 same in
              let first : bump ≡ q = ground arith in
              let bound = Walk-le from_memory (iter + size) end rest w in
              let (above, _) = bump_after-le from_memory (iter + size) end (bump + size) rest w in
              let kept =
                copied_memory-below (update memory bump (some (cleared object))) (bump + size) rest
                  bump (omega arith)
                ∙ written memory bump (some (cleared object)) in
              simp live (
                object,
                ap from_memory (sym e ∙ here) ∙ at,
                live,
                omega arith,
                omega arith,
                omega arith,
                omega arith,
                rw (← first) kept,
              )
          | inr other ↦
              let (o, m, seen, lo, hi, above, below, copy) =
                new_address-copied from_memory (iter + size) end
                  (update memory bump (some (cleared object))) (bump + size) rest p q w
                  (simp (live, other) at h) in
              simp live (o, m, seen, omega arith, hi, omega arith, below, copy)
        ]
      ]

abbrev pub addresses : Objects → List Address
addresses [] = []
addresses ((a, object) ∷ rest) = a ∷ addresses rest
