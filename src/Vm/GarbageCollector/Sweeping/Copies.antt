-- ===== src/Vm/GarbageCollector/Sweeping/Copies.antt =====
-- src/jllvm/vm/GarbageCollector.cpp: the other space behind the loop that copies.
use jllvm.Base.{
  suc, ◌+◌, ◌≡◌, refl, ap, ◌∙◌, inl, inr, Bool, true, false, List, [], ◌∷◌, some, arith, ◌==◌,
  length, contains, Bool-cases,
}
use jllvm.Vm.GarbageCollector.Heap.{Address, Classes, ObjectRepr, Memory, update, get_size}
use jllvm.Vm.GarbageCollector.Marking.Pushing.{marked, unmark, Unmarks}
use jllvm.Vm.GarbageCollector.Sweeping.Copying.{
  Objects, cleared, Walk, new_address, copies, copied_memory, addresses, new_address-copied,
}

-- The objects with the marks that they have in a memory.
abbrev pub with_marks : Memory → Objects → Objects
with_marks memory [] = []
with_marks memory ((a, object) ∷ rest) =
    (a, record object { seen = marked memory a }) ∷ with_marks memory rest

-- An object with its mark.
marked_at :
    (memory : Memory) (a : Address) (object : ObjectRepr)
    → unmark (memory a) ≡ some object
    → memory a ≡ some (record object { seen = marked memory a })
marked_at memory a object h = ground (arith, h)

pub with_marks-addresses :
    (memory : Memory) (objects : Objects)
    → (addresses (with_marks memory objects) ≡ addresses objects)
      × (length (with_marks memory objects) ≡ length objects)
with_marks-addresses memory [] = (refl, refl)
with_marks-addresses memory ((a, object) ∷ rest) =
    let (e, l) = with_marks-addresses memory rest in (ap (λ (r : List Address). a ∷ r) e, ap suc l)

module _ (classes : Classes) where
  get_size-seen :
      (object : ObjectRepr) (b : Bool)
      → get_size classes (record object { seen = b }) ≡ get_size classes object
  unfolding get_size
  get_size-seen object b = refl

  -- Marks leave the objects where they are.
  pub with_marks-Walk :
      (memory original : Memory) (iter end : Address) (objects : Objects)
      → Unmarks memory original
      → Walk classes original iter end objects
      → Walk classes memory iter end (with_marks memory objects)
  with_marks-Walk memory original iter end [] u w = w
  with_marks-Walk memory original iter end ((a, object) ∷ rest) u (here, at, pos, w) =
      rw (get_size-seen object (marked memory a)) (
        here,
        rw here (marked_at memory iter object (u iter ∙ at)),
        pos,
        with_marks-Walk memory original (iter + get_size classes object) end rest u w,
      )

  -- Each copy is the new address of some object.
  pub new_address-onto :
      (memory : Memory) (iter end bump : Address) (objects : Objects) (q : Address)
      → Walk classes memory iter end objects
      → contains (addresses (copies classes bump objects)) q ≡ true
      → (p : Address) × (new_address classes bump objects p ≡ some q)
  unfolding new_address copies
  new_address-onto memory iter end bump [] q w c = cc
  new_address-onto memory iter end bump ((a, object) ∷ rest) q (here, at, pos, w) c =
      let size = get_size classes object in
      elim (Bool-cases object.seen) [
        | inr dead ↦
            simp dead (new_address-onto memory (iter + size) end bump rest q w (simp dead at c))
        | inl live ↦ elim (Bool-cases (bump == q)) [
          | inl same ↦ (a, ground arith)
          | inr other ↦
              let (p, e) =
                new_address-onto memory (iter + size) end (bump + size) rest q w
                  (simp (live, other) at c) in
              let (o, m, seen, lo, up, above, below, copy) =
                new_address-copied classes memory (iter + size) end memory (bump + size) rest p q w
                  e in
              let apart : (a == p) ≡ false = ground arith in (p, simp (live, apart) e)
        ]
      ]

  -- Elsewhere nothing is written.
  pub copied_memory-outside :
      (memory : Memory) (bump : Address) (objects : Objects) (q : Address)
      → contains (addresses (copies classes bump objects)) q ≡ false
      → copied_memory classes memory bump objects q ≡ memory q
  unfolding copied_memory copies
  copied_memory-outside memory bump [] q c = refl
  copied_memory-outside memory bump ((a, object) ∷ rest) q c =
      let size = get_size classes object in
      elim (Bool-cases object.seen) [
        | inr dead ↦ simp dead (copied_memory-outside memory bump rest q (simp dead at c))
        | inl live ↦
            let c' = simp live at c in
            simp live (
              copied_memory-outside (update memory bump (some (cleared object))) (bump + size) rest
                q (ground arith)
              ∙ unfold update in ground arith)
      ]
