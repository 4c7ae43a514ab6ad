-- ===== src/Vm/GarbageCollector/StackRoots/Collected.antt =====
-- src/jllvm/vm/GarbageCollector.cpp: `collectStackRoots`, and the list of the roots on a stack.
use jllvm.Base.{
  ℕ, zero, suc, ◌+◌, ◌≡◌, refl, ap, sym, inl, inr, List, [], ◌∷◌, ◌++◌, Outcome, ok, fails,
  unreachable, ◌>>=◌, Outcome-cases,
}
use jllvm.Object.ClassObject.{pointer_size}
use jllvm.Vm.GarbageCollector.Heap.{Address}
use jllvm.Vm.GarbageCollector.Marking.{WorkState, push, push_all}
use jllvm.Vm.GarbageCollector.StackRoots.{
  EntryType, register, direct, indirect, StackMapEntry, Frame, Stack, Entries, slots_start,
  collect_slots, collect_by_type, collect_entry, collect_entries, collect_frames,
  collect_stack_roots,
}

unfoldable pub slot_roots : ℕ → Address → (Address → ℕ) → List Address
slot_roots zero at words = []
slot_roots (suc n) at words = words at ∷ slot_roots n (at + pointer_size) words

unfoldable pub roots_by_type :
    EntryType → StackMapEntry → Frame → (Address → ℕ) → Outcome (List Address)
unfolding slot_roots
roots_by_type register entry frame words = ok (frame.general_register entry.register_number ∷ [])
roots_by_type direct entry frame words = fails unreachable
roots_by_type indirect entry frame words =
    ok (slot_roots entry.count (slots_start entry frame) words)

unfoldable pub entry_roots : StackMapEntry → Frame → (Address → ℕ) → Outcome (List Address)
unfolding roots_by_type
entry_roots entry frame words = roots_by_type entry.type entry frame words

unfoldable pub entries_roots : List StackMapEntry → Frame → (Address → ℕ) → Outcome (List Address)
unfolding entry_roots
entries_roots [] frame words = ok []
entries_roots (entry ∷ rest) frame words = do
  first ← entry_roots entry frame words
  others ← entries_roots rest frame words
  ok (first ++ others)

unfoldable pub frames_roots : Entries → List Frame → (Address → ℕ) → Outcome (List Address)
unfolding entries_roots
frames_roots entries [] words = ok []
frames_roots entries (frame ∷ rest) words = do
  first ← entries_roots (entries frame.program_counter) frame words
  others ← frames_roots entries rest words
  ok (first ++ others)

-- What the frames of a stack refer to; a `Direct` entry has no place in the stack maps.
unfoldable pub stack_roots : Entries → Stack → Outcome (List Address)
unfolding frames_roots
stack_roots entries stack = frames_roots entries stack.frames stack.words

module _ (from to : Address) where
  pub push_all-append :
      (ps qs : List Address) (s : WorkState)
      → push_all from to (ps ++ qs) s ≡ push_all from to qs (push_all from to ps s)
  unfolding push_all
  push_all-append [] qs s = refl
  push_all-append (p ∷ ps) qs s = push_all-append ps qs (push from to p s)

  collect_slots_lem :
      (n : ℕ) (at : Address) (words : Address → ℕ) (s : WorkState)
      → collect_slots from to n at words s ≡ push_all from to (slot_roots n at words) s
  unfolding collect_slots slot_roots push_all
  collect_slots_lem zero at words s = refl
  collect_slots_lem (suc n) at words s =
      collect_slots_lem n (at + pointer_size) words (push from to (words at) s)

  by_type_lem :
      (t : EntryType) (entry : StackMapEntry) (frame : Frame) (words : Address → ℕ) (s : WorkState)
      → collect_by_type from to t entry frame words s
        ≡ (roots_by_type t entry frame words >>= λ ps. ok (push_all from to ps s))
  unfolding collect_by_type roots_by_type push_all
  by_type_lem register entry frame words s = refl
  by_type_lem direct entry frame words s = refl
  by_type_lem indirect entry frame words s =
      ap ok (collect_slots_lem entry.count (slots_start entry frame) words s)

  collect_entry_lem :
      (entry : StackMapEntry) (frame : Frame) (words : Address → ℕ) (s : WorkState)
      → collect_entry from to entry frame words s
        ≡ (entry_roots entry frame words >>= λ ps. ok (push_all from to ps s))
  unfolding collect_entry entry_roots
  collect_entry_lem entry frame words s = by_type_lem entry.type entry frame words s

  collect_entries_lem :
      (es : List StackMapEntry) (frame : Frame) (words : Address → ℕ) (s : WorkState)
      → collect_entries from to es frame words s
        ≡ (entries_roots es frame words >>= λ ps. ok (push_all from to ps s))
  unfolding collect_entries entries_roots push_all
  collect_entries_lem [] frame words s = refl
  collect_entries_lem (entry ∷ rest) frame words s =
      rw (collect_entry_lem entry frame words s)
        (elim (Outcome-cases (entry_roots entry frame words)) [
          | inr (f, e) ↦ rw e refl
          | inl (ps, e) ↦
              rw (e, collect_entries_lem rest frame words (push_all from to ps s))
                (elim (Outcome-cases (entries_roots rest frame words)) [
                  | inr (f, e') ↦ rw e' refl
                  | inl (qs, e') ↦ rw e' (ap ok (sym (push_all-append ps qs s)))
                ])
        ])

  collect_frames_lem :
      (entries : Entries) (frames : List Frame) (words : Address → ℕ) (s : WorkState)
      → collect_frames from to entries frames words s
        ≡ (frames_roots entries frames words >>= λ ps. ok (push_all from to ps s))
  unfolding collect_frames frames_roots push_all
  collect_frames_lem entries [] words s = refl
  collect_frames_lem entries (frame ∷ rest) words s =
      let es = entries frame.program_counter in
      rw (collect_entries_lem es frame words s)
        (elim (Outcome-cases (entries_roots es frame words)) [
          | inr (f, e) ↦ rw e refl
          | inl (ps, e) ↦
              rw (e, collect_frames_lem entries rest words (push_all from to ps s))
                (elim (Outcome-cases (frames_roots entries rest words)) [
                  | inr (f, e') ↦ rw e' refl
                  | inl (qs, e') ↦ rw e' (ap ok (sym (push_all-append ps qs s)))
                ])
        ])

  pub collect_stack_roots_lem :
      (entries : Entries) (stack : Stack) (s : WorkState)
      → collect_stack_roots from to entries stack s
        ≡ (stack_roots entries stack >>= λ ps. ok (push_all from to ps s))
  unfolding collect_stack_roots stack_roots
  collect_stack_roots_lem entries stack s = collect_frames_lem entries stack.frames stack.words s
