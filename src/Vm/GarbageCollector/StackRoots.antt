-- ===== src/Vm/GarbageCollector/StackRoots.antt =====
-- src/jllvm/vm/GarbageCollector.cpp and GarbageCollector.hpp: `StackMapEntry`,
-- `collectStackRoots`, `replaceStackRoots` and `addStackMapEntries`. The unwinder hands over the
-- frames in order; each has its program counter and its general registers, and the words of the
-- stack are found by address.
pub mod Collected
pub mod Replaced
use jllvm.Base.{
  ℕ, zero, suc, ◌+◌, ◌%◌, ◌^◌, Bool, true, false, List, [], ◌∷◌, ◌++◌, Option, none, some, ◌==◌,
  if◌then◌else◌, Outcome, ok, fails, unreachable, ◌>>=◌,
}
use jllvm.Object.ClassObject.{pointer_size}
use jllvm.Vm.GarbageCollector.Heap.{Address, update}
use jllvm.Vm.GarbageCollector.Marking.{WorkState, push}
use jllvm.Vm.GarbageCollector.Sweeping.{Mapping, lookup, replacement}

pub data EntryType : Type 0 where
  register direct indirect : EntryType

pub record StackMapEntry : Type 0 where
  pub type : EntryType
  pub count : ℕ
  pub register_number : ℕ
  pub offset : ℕ

pub record Frame : Type 0 where
  pub program_counter : ℕ
  pub general_register : ℕ → ℕ

pub record Stack : Type 0 where
  pub frames : List Frame
  pub words : Address → ℕ

-- `m_entries`; `lookup` of an absent program counter gives an empty vector.
abbrev pub Entries : Type 0
Entries = ℕ → List StackMapEntry

-- `auto** ptr = reinterpret_cast<ObjectRepr**>(rp + iter.offset)`
abbrev pub slots_start : StackMapEntry → Frame → Address
slots_start entry frame = (frame.general_register entry.register_number + entry.offset) % 2 ^ 64

module _ (from to : Address) where
  -- `for (i = 0; i < iter.count; i++)`, on the entries that are left
  collect_slots : ℕ → Address → (Address → ℕ) → WorkState → WorkState
  collect_slots zero at words s = s
  collect_slots (suc n) at words s =
      collect_slots n (at + pointer_size) words (push from to (words at) s)

  -- The `switch` on the entry's type.
  collect_by_type :
      EntryType → StackMapEntry → Frame → (Address → ℕ) → WorkState → Outcome WorkState
  unfolding collect_slots
  collect_by_type register entry frame words s =
      ok (push from to (frame.general_register entry.register_number) s)
  collect_by_type direct entry frame words s = fails unreachable
  collect_by_type indirect entry frame words s =
      ok (collect_slots entry.count (slots_start entry frame) words s)

  collect_entry : StackMapEntry → Frame → (Address → ℕ) → WorkState → Outcome WorkState
  unfolding collect_by_type
  collect_entry entry frame words s = collect_by_type entry.type entry frame words s

  collect_entries : List StackMapEntry → Frame → (Address → ℕ) → WorkState → Outcome WorkState
  unfolding collect_entry
  collect_entries [] frame words s = ok s
  collect_entries (entry ∷ rest) frame words s = do
    s ← collect_entry entry frame words s
    collect_entries rest frame words s

  collect_frames : Entries → List Frame → (Address → ℕ) → WorkState → Outcome WorkState
  unfolding collect_entries
  collect_frames entries [] words s = ok s
  collect_frames entries (frame ∷ rest) words s = do
    s ← collect_entries (entries frame.program_counter) frame words s
    collect_frames entries rest words s

  unfoldable pub collect_stack_roots : Entries → Stack → WorkState → Outcome WorkState
  unfolding collect_frames
  collect_stack_roots entries stack s = collect_frames entries stack.frames stack.words s

module _ (mapping : Mapping) where
  replace_slots : ℕ → Address → (Address → ℕ) → Address → ℕ
  unfolding update lookup
  replace_slots zero at words = words
  replace_slots (suc n) at words = replace_slots n (at + pointer_size) (
      if words at == 0
      then words
      else elim (replacement mapping (words at)) [ none ↦ words | some q ↦ update words at q ])

  replace_register : ℕ → Frame → Frame
  unfolding update lookup
  replace_register n frame =
      if frame.general_register n == 0
      then frame
      else elim (replacement mapping (frame.general_register n)) [
        | none ↦ frame
        | some q ↦ record frame { general_register = update frame.general_register n q }
      ]

  -- The `switch` on the entry's type.
  replace_by_type :
      EntryType → StackMapEntry → Frame × (Address → ℕ) → Outcome (Frame × (Address → ℕ))
  unfolding replace_slots replace_register
  replace_by_type register entry (frame, words) =
      ok (replace_register entry.register_number frame, words)
  replace_by_type direct entry (frame, words) = fails unreachable
  replace_by_type indirect entry (frame, words) =
      ok (frame, replace_slots entry.count (slots_start entry frame) words)

  replace_entry : StackMapEntry → Frame × (Address → ℕ) → Outcome (Frame × (Address → ℕ))
  unfolding replace_by_type
  replace_entry entry state = replace_by_type entry.type entry state

  replace_entries : List StackMapEntry → Frame × (Address → ℕ) → Outcome (Frame × (Address → ℕ))
  unfolding replace_entry
  replace_entries [] state = ok state
  replace_entries (entry ∷ rest) state = do
    state ← replace_entry entry state
    replace_entries rest state

  replace_frames : Entries → List Frame → (Address → ℕ) → Outcome (List Frame × (Address → ℕ))
  unfolding replace_entries
  replace_frames entries [] words = ok ([], words)
  replace_frames entries (frame ∷ rest) words = do
    (frame, words) ← replace_entries (entries frame.program_counter) (frame, words)
    (rest, words) ← replace_frames entries rest words
    ok (frame ∷ rest, words)

  unfoldable pub replace_stack_roots : Entries → Stack → Outcome Stack
  unfolding replace_frames
  replace_stack_roots entries stack = do
    (frames, words) ← replace_frames entries stack.frames stack.words
    ok (record { frames = frames; words = words })

-- `addStackMapEntries`
unfoldable pub add_stack_map_entries : Entries → ℕ → List StackMapEntry → Entries
unfolding update
add_stack_map_entries entries addr [] = entries
add_stack_map_entries entries addr (entry ∷ rest) =
    update entries addr (entries addr ++ entry ∷ rest)
