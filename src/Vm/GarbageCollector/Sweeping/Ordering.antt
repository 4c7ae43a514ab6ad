-- ===== src/Vm/GarbageCollector/Sweeping/Ordering.antt =====
-- src/jllvm/vm/GarbageCollector.cpp: the new addresses of the objects, and their order.
use jllvm.Base.{
  ◌+◌, ◌<◌, ◌≡◌, ap, sym, ◌∙◌, inl, inr, true, false, [], ◌∷◌, some, arith, ◌==◌, if◌then◌else◌,
  contains, Bool-cases, ==_iff,
}
use jllvm.Vm.GarbageCollector.Heap.{Address, Classes, ObjectRepr, Memory, get_size}
use jllvm.Vm.GarbageCollector.Sweeping.Copying.{
  Objects, Walk, new_address, addresses, new_address-copied,
}

module _ (classes : Classes) where
  -- A marked object of the walk has a new address.
  pub new_address-total :
      (memory : Memory) (iter end bump : Address) (objects : Objects) (p : Address)
      (object : ObjectRepr)
      → Walk classes memory iter end objects
      → contains (addresses objects) p ≡ true
      → memory p ≡ some object
      → object.seen ≡ true
      → (q : Address) × (new_address classes bump objects p ≡ some q)
  unfolding new_address
  new_address-total memory iter end bump [] p object w c m seen = cc
  new_address-total memory iter end bump ((a, o) ∷ rest) p object (here, at, pos, w) c m seen =
      elim (Bool-cases (a == p)) [
        | inl same ↦
            let e : memory p ≡ some o = ap memory (sym ((==_iff a p).0 same) ∙ here) ∙ at in
            (bump, ground arith)
        | inr other ↦
            let next = if o.seen then bump + get_size classes o else bump in
            let (q, found) =
              new_address-total memory (iter + get_size classes o) end next rest p object w
                (ground arith) m seen in
            (q, ground arith)
      ]

  later :
      (memory : Memory) (iter end bump : Address) (objects : Objects) (p q i b : Address)
      → i < iter
      → b < bump
      → Walk classes memory iter end objects
      → new_address classes bump objects p ≡ some q
      → (i < p) × (b < q)
  later memory iter end bump objects p q i b hi hb w e =
      let (o, m, seen, lo, up, above, below, copy) =
        new_address-copied classes memory iter end memory bump objects p q w e in
      (omega arith, omega arith)

  -- The objects keep their order.
  pub new_address-lt :
      (memory : Memory) (iter end bump : Address) (objects : Objects) (p p' q q' : Address)
      → Walk classes memory iter end objects
      → new_address classes bump objects p ≡ some q
      → new_address classes bump objects p' ≡ some q'
      → p < p'
      → q < q'
  unfolding new_address
  new_address-lt memory iter end bump [] p p' q q' w h h' lt = cc
  new_address-lt memory iter end bump ((a, object) ∷ rest) p p' q q' (here, at, pos, w) h h' lt =
      let size = get_size classes object in
      elim (Bool-cases object.seen) [
        | inr dead ↦
            new_address-lt memory (iter + size) end bump rest p p' q q' w (simp dead at h)
              (simp dead at h') lt
        | inl live ↦
            let h₁ = simp live at h in
            let h₂ = simp live at h' in
            let found : (r s : Address)
                → new_address classes (bump + size) rest r ≡ some s
                → (iter < r) × (bump < s) =
              λ r s e.
                later memory (iter + size) end (bump + size) rest r s iter bump (omega arith)
                  (omega arith) w e in
            elim (Bool-cases (a == p)) [
              | inl first ↦ ground (arith, found p' q')
              | inr other ↦
                  let f = found p q (simp other at h₁) in
                  let apart : (a == p') ≡ false = ground arith in
                  new_address-lt memory (iter + size) end (bump + size) rest p p' q q' w
                    (simp other at h₁) (simp apart at h₂) lt
            ]
      ]
