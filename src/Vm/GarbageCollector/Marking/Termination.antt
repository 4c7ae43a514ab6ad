-- ===== src/Vm/GarbageCollector/Marking/Termination.antt =====
-- src/jllvm/vm/GarbageCollector.cpp: the rounds of `mark`, counted by the addresses without a mark.
use jllvm.Base.{
  ℕ, zero, suc, ◌+◌, ◌-◌, ◌≤◌, ◌<◌, ◌≡◌, ap, inl, inr, true, false, List, [], ◌∷◌, arith, ◌==◌,
  if◌then◌else◌, length, contains, Option-cases, ok, Bool-cases, ==_iff, List-cases,
}
use jllvm.Vm.GarbageCollector.Heap.{Address, Classes, Memory, update, mark_seen, has_been_seen}
use jllvm.Vm.GarbageCollector.Marking.{WorkState, push, push_all, mark}
use jllvm.Vm.GarbageCollector.Marking.Pushing.{
  marked, Unmarks, in_space, is_object, AreObjects, successors, push-Unmarks, push_all-Unmarks,
  push_all-work_list, mark-push_all,
}
use jllvm.Vm.GarbageCollector.Marking.Reachability.{absent}

-- The addresses without a mark among the `n` from `base` on.
unmarked : Memory → Address → ℕ → ℕ
unmarked memory base zero = 0
unmarked memory base (suc n) = (if marked memory base then 0 else 1) + unmarked memory (base + 1) n

unmarked-le : (memory : Memory) (base n : ℕ) → unmarked memory base n ≤ n
unfolding unmarked
unmarked-le memory base zero = omega arith
unmarked-le memory base (suc n) = ground (arith, unmarked-le memory (base + 1) n)

mark_seen-keeps :
    (memory : Memory) (p a : Address)
    → marked memory a ≡ true
    → marked (mark_seen memory p) a ≡ true
unfolding mark_seen update
mark_seen-keeps memory p a h = ground arith

mark_seen-new :
    (memory : Memory) (p : Address)
    → has_been_seen memory p ≡ false
    → absent memory p ≡ false
    → (marked memory p ≡ false) × (marked (mark_seen memory p) p ≡ true)
unfolding mark_seen has_been_seen update
mark_seen-new memory p h there = ground arith

unmarked-mark_seen_le :
    (memory : Memory) (p base n : ℕ) → unmarked (mark_seen memory p) base n ≤ unmarked memory base n
unfolding unmarked
unmarked-mark_seen_le memory p base zero = omega arith
unmarked-mark_seen_le memory p base (suc n) =
    ground (arith, mark_seen-keeps memory p base, unmarked-mark_seen_le memory p (base + 1) n)

unmarked-mark_seen :
    (memory : Memory) (p base n : ℕ)
    → base ≤ p
    → p < base + n
    → has_been_seen memory p ≡ false
    → absent memory p ≡ false
    → unmarked (mark_seen memory p) base n + 1 ≤ unmarked memory base n
unfolding unmarked
unmarked-mark_seen memory p base zero lo hi h there = absurd (omega arith)
unmarked-mark_seen memory p base (suc n) lo hi h there = elim (Bool-cases (base == p)) [
  | inl here ↦
      let e = (==_iff base p).0 here in
      let (old, new) = mark_seen-new memory p h there in
      rw e (rw (old, new) (let le = unmarked-mark_seen_le memory p (p + 1) n in omega arith))
  | inr later ↦
      ground (arith, mark_seen-keeps memory p base, unmarked-mark_seen memory p (base + 1) n)
]

module _ (from to : Address) where
  -- What is still to do: objects to push, and objects to look at.
  pending : WorkState → ℕ
  pending s = unmarked s.memory from (to - from) + length s.work_list

  pending-push :
      (p : Address) (s : WorkState)
      → (in_space from to p ≡ true → absent s.memory p ≡ false)
      → pending (push from to p s) ≤ pending s
  unfolding pending push
  pending-push p s there = ground (arith, unmarked-mark_seen s.memory p from (to - from))

  pending-pop :
      (p : Address) (rest : List Address) (s : WorkState)
      → s.work_list ≡ p ∷ rest
      → pending (record s { work_list = rest }) + 1 ≡ pending s
  unfolding pending
  pending-pop p rest s top = omega (arith, ap length top)

  module _ (original : Memory) where
    pending-push_all :
        (ps : List Address) (s : WorkState)
        → Unmarks s.memory original
        → AreObjects original from to ps
        → pending (push_all from to ps s) ≤ pending s
    unfolding push_all
    pending-push_all [] s u there = omega arith
    pending-push_all (p ∷ ps) s u there =
        let here : in_space from to p ≡ true → absent s.memory p ≡ false =
          λ inside. ground (arith, u p, there p) in
        let later : AreObjects original from to ps = λ a c inside. there a (ground arith) inside in
        omega (
          arith,
          pending-push p s here,
          pending-push_all ps (push from to p s) (push-Unmarks original from to p s u) later,
        )

    -- Every reference in an object that points into the space points to an object.
    module _ (classes : Classes)
        (closed : (p : Address)
          → is_object original from to p ≡ true
          → AreObjects original from to (successors classes original p)) where
      listed :
          (ps : List Address) (s : WorkState)
          → Unmarks s.memory original
          → AreObjects original from to ps
          → AreObjects original from to s.work_list
          → ((a : Address) → contains s.work_list a ≡ true → in_space from to a ≡ true)
          → (a : Address) → contains (push_all from to ps s).work_list a ≡ true
          → is_object original from to a ≡ true
      listed ps s u there work inside a c =
          let pushed = push_all-work_list original from to ps s u a in
          ground (arith, pushed, there a, work a, inside a)

      -- More fuel than there is to do is enough.
      mark-ends :
          (fuel : ℕ) (s : WorkState)
          → Unmarks s.memory original
          → ((a : Address) → contains s.work_list a ≡ true → is_object original from to a ≡ true)
          → pending s < fuel
          → (m : Memory) × (mark from to classes fuel s ≡ ok m)
      unfolding mark
      mark-ends zero s u work h = absurd (omega arith)
      mark-ends (suc fuel) s u work h = elim (List-cases s.work_list) [
        | inl done ↦ (s.memory, rw (done, mark))
        | inr (p, rest, top) ↦
            let popped : WorkState = record s { work_list = rest } in
            let here : is_object original from to p ≡ true = work p (rw top (ground arith)) in
            let later : (a : Address)
                → contains rest a ≡ true
                → is_object original from to a ≡ true =
              λ a c. work a (rw top (ground arith)) in
            elim (Option-cases (s.memory p)) [
              | inl nowhere ↦ absurd (ground (arith, u p))
              | inr (object, at) ↦
                  rw (mark-push_all original from to classes fuel p rest object s u top at) (
                    mark-ends fuel (push_all from to (successors classes original p) popped)
                      (push_all-Unmarks original from to (successors classes original p) popped u)
                      (listed (successors classes original p) popped u (closed p here)
                        (λ a c inside. later a c) (λ a c. ground (arith, later a c)))
                      (omega (
                        arith,
                        pending-push_all (successors classes original p) popped u (closed p here),
                        pending-pop p rest s top,
                      )))
            ]
      ]

      -- When each root and each reference in an object leads to an object or out of the from
      -- space, then from a memory that is as it was up to marks, one round of mark for each
      -- address of the from space, and one more, is enough for its work list to run empty, and
      -- mark returns.
      pub mark-total :
          (memory : Memory) (roots : List Address)
          → Unmarks memory original
          → AreObjects original from to roots
          → (m : Memory) × (mark from to classes
                (to - from + 1)
                (push_all from to roots (record { memory = memory; work_list = [] }))
              ≡ ok m)
      unfolding pending
      mark-total memory roots u there =
          let start : WorkState = record { memory = memory; work_list = [] } in
          mark-ends (to - from + 1) (push_all from to roots start)
            (push_all-Unmarks original from to roots start u)
            (listed roots start u there (λ a c. absurd (ground arith))
              (λ a c. absurd (ground arith)))
            (omega
              (arith, pending-push_all roots start u there, unmarked-le memory from (to - from)))
