-- ===== src/Vm/GarbageCollector/Marking/Reachability.antt =====
-- src/jllvm/vm/GarbageCollector.cpp: `mark`, and which objects the roots reach.
use jllvm.Base.{
  ℕ, zero, suc, ◌≡◌, refl, ◌∙◌, ◌↔◌, inl, inr, true, false, not, ◌&&◌, ◌||◌, List, [], ◌∷◌, arith,
  ◌==◌, contains, ok, Bool, none, some, Option-cases, Bool-cases, ==_iff, List-cases, subst,
}
use jllvm.Vm.GarbageCollector.Heap.{Address, Classes, Memory, ObjectRepr}
use jllvm.Vm.GarbageCollector.Marking.{WorkState, push_all, mark}
use jllvm.Vm.GarbageCollector.Marking.Pushing.{
  marked, Unmarks, is_object, in_space, mark-push_all, push_all-Unmarks, push_all-marked,
  push_all-work_list, successors,
}

abbrev pub absent : Memory → Address → Bool
absent memory p = elim (memory p) [ none ↦ true | some object ↦ false ]

module _ (classes : Classes) (original : Memory) (from to : Address) (roots : List Address) where
  pub data Reachable : Address → Type 0 where
    root :
        {a : Address} → contains roots a ≡ true → is_object original from to a ≡ true → Reachable a
    edge :
        {p a : Address}
        → Reachable p
        → contains (successors classes original p) a ≡ true
        → is_object original from to a ≡ true
        → Reachable a

  -- What holds before each round of the loop.
  pub record IsMarking (s : WorkState) : Type 0 where
    pub unmarks : Unmarks s.memory original
    pub sound : (a : Address) → marked s.memory a ≡ true → Reachable a
    -- What is on the list is marked, unless no object starts there.
    pub work :
        (a : Address)
        → contains s.work_list a ≡ true
        → (marked s.memory a || absent original a) ≡ true
    pub rooted :
        (a : Address)
        → contains roots a ≡ true
        → is_object original from to a ≡ true
        → marked s.memory a ≡ true
    -- The references of an object that is no longer on the list have been followed.
    pub closed :
        (p a : Address)
        → marked s.memory p ≡ true
        → contains s.work_list p ≡ false
        → contains (successors classes original p) a ≡ true
        → is_object original from to a ≡ true
        → marked s.memory a ≡ true

  -- Following the references of the object at `p`, which has been taken off the list.
  module _ (p : Address) (rest : List Address) (object : ObjectRepr) (s : WorkState)
      (i : IsMarking s) (top : s.work_list ≡ p ∷ rest) (at : s.memory p ≡ some object) where
    popped : WorkState
    popped = record s { work_list = rest }

    followed : WorkState
    followed = push_all from to (successors classes original p) popped

    followed-marked :
        (a : Address)
        → marked followed.memory a ≡ (
            marked s.memory a
            || (contains (successors classes original p) a && is_object original from to a))
    unfolding followed popped
    followed-marked = push_all-marked original from to (successors classes original p) _ i.unmarks

    followed-work_list :
        (a : Address)
        → contains followed.work_list a ≡ (
            contains rest a
            || (contains (successors classes original p) a
                && in_space from to a
                && not (marked s.memory a)))
    unfolding followed popped
    followed-work_list =
        push_all-work_list original from to (successors classes original p) _ i.unmarks

    top_marked : marked s.memory p ≡ true
    top_marked =
        let listed : contains s.work_list p ≡ true = rw top (ground arith) in
        ground (arith, i.work p listed, i.unmarks p)

    followed_sound : (a : Address) → marked followed.memory a ≡ true → Reachable a
    followed_sound a h = elim (Bool-cases (marked s.memory a)) [
      | inl old ↦ i.sound a old
      | inr new ↦
          edge (i.sound p top_marked) (ground (arith, followed-marked a))
            (ground (arith, followed-marked a))
    ]

    followed-work :
        (a : Address)
        → contains followed.work_list a ≡ true
        → (marked followed.memory a || absent original a) ≡ true
    followed-work a h =
        let before : contains rest a ≡ true → (marked s.memory a || absent original a) ≡ true =
          λ r. i.work a (rw top (ground arith)) in
        ground (arith, followed-marked a, followed-work_list a)

    followed-closed :
        (q a : Address)
        → marked followed.memory q ≡ true
        → contains followed.work_list q ≡ false
        → contains (successors classes original q) a ≡ true
        → is_object original from to a ≡ true
        → marked followed.memory a ≡ true
    followed-closed q a m w c o = elim (Bool-cases (p == q)) [
      | inl same ↦
          let c' : contains (successors classes original p) a ≡ true = rw ((==_iff p q).0 same) c in
          ground (arith, followed-marked a)
      | inr other ↦
          let old : marked s.memory q ≡ true =
            ground (arith, followed-marked q, followed-work_list q) in
          let off : contains s.work_list q ≡ false =
            rw top (ground (arith, followed-work_list q)) in
          ground (arith, followed-marked a, i.closed q a old off c o)
    ]

    followed-IsMarking : IsMarking followed
    followed-IsMarking = record {
      unmarks =
          unfold followed popped in
          push_all-Unmarks original from to (successors classes original p) _ i.unmarks;
      sound = followed_sound;
      work = followed-work;
      rooted = λ a r o. ground (arith, i.rooted a r o, followed-marked a);
      closed = followed-closed;
    }

    mark-followed :
        (fuel : ℕ) → mark from to classes (suc fuel) s ≡ mark from to classes fuel followed
    unfolding followed popped
    mark-followed fuel =
        mark-push_all original from to classes fuel p rest object s i.unmarks top at

  -- With nothing left on the list, all that the roots reach is marked.
  complete :
      (s : WorkState)
      → IsMarking s
      → s.work_list ≡ []
      → (a : Address) → Reachable a
      → marked s.memory a ≡ true
  complete s i done a (root r o) = i.rooted a r o
  complete s i done a (edge {p} r c o) = i.closed p a (complete s i done p r) (rw done) c o

  -- When mark returns, from a work list and marks as they are while marking from the given roots,
  -- exactly the objects are marked that the roots reach, within the from space and through the
  -- slots that introspectObject visits, and up to marks the memory is what it was.
  pub mark-Reachable :
      (fuel : ℕ) (s : WorkState) {m : Memory}
      → IsMarking s
      → mark from to classes fuel s ≡ ok m
      → Unmarks m original × ((a : Address) → (marked m a ≡ true) ↔ Reachable a)
  unfolding mark
  mark-Reachable zero s i h = cc
  mark-Reachable (suc fuel) s {m} i h = elim (List-cases s.work_list) [
    | inl done ↦
        let e : ok s.memory ≡ ok m = rw (done, mark) at h in
        let same : s.memory ≡ m = cc in
        subst
          (λ (n : Memory). Unmarks n original × ((a : Address) → (marked n a ≡ true) ↔ Reachable a))
          same (i.unmarks, λ a. (i.sound a, complete s i done a))
    | inr (p, rest, top) ↦ elim (Option-cases (s.memory p)) [
      | inl nowhere ↦ (let no = rw (top, nowhere, mark) at h in absurd cc)
      | inr (object, at) ↦
          mark-Reachable fuel (followed p rest object s i top at)
            (followed-IsMarking p rest object s i top at)
            (rw (mark-followed p rest object s i top at fuel) at h)
    ]
  ]

  -- The roots are pushed onto an empty list.
  module _ (fresh : Unmarks original original) where
    collected : WorkState
    collected = push_all from to roots (record { memory = original; work_list = [] })

    no_marks : (a : Address) → marked original a ≡ false
    no_marks a = ground (arith, fresh a)

    collected-marked :
        (a : Address)
        → marked collected.memory a ≡ (contains roots a && is_object original from to a)
    unfolding collected
    collected-marked a = push_all-marked original from to roots _ fresh a ∙ rw (no_marks a) refl

    collected-work_list :
        (a : Address) → contains collected.work_list a ≡ (contains roots a && in_space from to a)
    unfolding collected
    collected-work_list a =
        push_all-work_list original from to roots _ fresh a ∙ ground (arith, no_marks a)

    pub collected-IsMarking :
        IsMarking (push_all from to roots (record { memory = original; work_list = [] }))
    unfolding collected
    collected-IsMarking = record {
      unmarks = push_all-Unmarks original from to roots _ fresh;
      sound = λ a h. root (ground (arith, collected-marked a)) (ground (arith, collected-marked a));
      work = λ a h. ground (arith, collected-marked a, collected-work_list a);
      rooted = λ a r o. ground (arith, collected-marked a);
      closed = λ p a m w c o. absurd (ground (arith, collected-marked p, collected-work_list p));
    }
