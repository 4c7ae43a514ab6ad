-- ===== src/Vm/GarbageCollector/StackRoots/Replaced.antt =====
-- src/jllvm/vm/GarbageCollector.cpp: `replaceStackRoots`, on stack maps whose entries fit each other.
use jllvm.Base.{
  ℕ, zero, suc, ◌+◌, ◌%◌, ◌^◌, ◌≡◌, refl, ap, ◌∙◌, sym, subst, ◌⊎◌, inl, inr, Bool, true, false,
  List, [], ◌∷◌, ◌++◌, none, some, ok, arith, Bool-cases, All, map, map-append, ◌==◌, ==_iff,
  if◌then◌else◌,
}
use jllvm.Object.ClassObject.{pointer_size}
use jllvm.Vm.GarbageCollector.Heap.{Address, update}
use jllvm.Vm.GarbageCollector.Sweeping.{Mapping, lookup, replacement}
use jllvm.Vm.GarbageCollector.Sweeping.Replacing.{translate}
use jllvm.Vm.GarbageCollector.StackRoots.{
  EntryType, register, direct, indirect, StackMapEntry, Frame, Stack, Entries, slots_start,
  replace_slots, replace_register, replace_by_type, replace_entry, replace_entries, replace_frames,
  replace_stack_roots,
}
use jllvm.Vm.GarbageCollector.StackRoots.Collected.{
  slot_roots, roots_by_type, entry_roots, entries_roots, frames_roots, stack_roots,
}

-- There are no `Direct` entries, and a register holds a reference or the start of slots, never both, at a program counter.
abbrev pub FitsType : EntryType → (ℕ → Bool) → StackMapEntry → Type 0
FitsType register named entry = named entry.register_number ≡ true
FitsType direct named entry = ⊥
FitsType indirect named entry = named entry.register_number ≡ false

abbrev pub Fits : (ℕ → Bool) → StackMapEntry → Type 0
Fits named entry = FitsType entry.type named entry

module _ (mapping : Mapping)
    (stable : (p : Address) → translate mapping (translate mapping p) ≡ translate mapping p)
    (null : lookup mapping 0 ≡ none) where
  -- Each value stays or is translated.
  abbrev Replaced : (ℕ → ℕ) → (ℕ → ℕ) → Type 0
  Replaced before after = (a : ℕ) → (after a ≡ before a) ⊎ (after a ≡ translate mapping (before a))

  Replaced-trans : (f g h : ℕ → ℕ) → Replaced f g → Replaced g h → Replaced f h
  Replaced-trans f g h r s a = ground (arith, r a, s a, stable (f a))

  -- A translated value is not changed again, and a value may be translated late.
  translated-then :
      (f g h : ℕ → ℕ) (a : ℕ)
      → g a ≡ translate mapping (f a)
      → Replaced g h
      → h a ≡ translate mapping (f a)
  translated-then f g h a e r = ground (arith, r a, stable (f a))

  then-translated :
      (f g h : ℕ → ℕ) (a : ℕ)
      → Replaced f g
      → h a ≡ translate mapping (g a)
      → h a ≡ translate mapping (f a)
  then-translated f g h a r e = ground (arith, r a, stable (f a))

  abbrev SlotsTranslated : ℕ → Address → (ℕ → ℕ) → (ℕ → ℕ) → Type 0
  SlotsTranslated zero at before after = Unit
  SlotsTranslated (suc n) at before after =
      (after at ≡ translate mapping (before at))
      × SlotsTranslated n (at + pointer_size) before after

  slots-then :
      (n : ℕ) (at : Address) (f g h : ℕ → ℕ)
      → SlotsTranslated n at f g
      → Replaced g h
      → SlotsTranslated n at f h
  slots-then zero at f g h t r = tt
  slots-then (suc n) at f g h (e, t) r =
      (translated-then f g h at e r, slots-then n (at + pointer_size) f g h t r)

  then-slots :
      (n : ℕ) (at : Address) (f g h : ℕ → ℕ)
      → Replaced f g
      → SlotsTranslated n at g h
      → SlotsTranslated n at f h
  then-slots zero at f g h r t = tt
  then-slots (suc n) at f g h r (e, t) =
      (then-translated f g h at r e, then-slots n (at + pointer_size) f g h r t)

  -- What the loop does at one slot.
  replace_one : Address → (ℕ → ℕ) → ℕ → ℕ
  unfolding update
  replace_one at words =
      if words at == 0
      then words
      else elim (replacement mapping (words at)) [ none ↦ words | some q ↦ update words at q ]

  replace_one-Replaced : (at : Address) (words : ℕ → ℕ) → Replaced words (replace_one at words)
  unfolding replace_one
  replace_one-Replaced at words a = ground arith

  replace_one-translated :
      (at : Address) (words : ℕ → ℕ) → replace_one at words at ≡ translate mapping (words at)
  unfolding replace_one
  replace_one-translated at words = ground (arith, null)

  replace_slots-Replaced :
      (n : ℕ) (at : Address) (words : ℕ → ℕ) → Replaced words (replace_slots mapping n at words)
  unfolding replace_slots replace_one
  replace_slots-Replaced zero at words = λ a. inl refl
  replace_slots-Replaced (suc n) at words =
      Replaced-trans words (replace_one at words) _ (replace_one-Replaced at words)
        (replace_slots-Replaced n (at + pointer_size) (replace_one at words))

  replace_slots-translated :
      (n : ℕ) (at : Address) (words : ℕ → ℕ)
      → SlotsTranslated n at words (replace_slots mapping n at words)
  unfolding replace_slots replace_one
  replace_slots-translated zero at words = tt
  replace_slots-translated (suc n) at words =
      let next = replace_one at words in
      (
        translated-then words next _ at (replace_one-translated at words)
            (replace_slots-Replaced n (at + pointer_size) next),
        then-slots n (at + pointer_size) words next _ (replace_one-Replaced at words)
            (replace_slots-translated n (at + pointer_size) next),
      )

  register_replaced :
      (n : ℕ) (frame : Frame)
      → ((replace_register mapping n frame).general_register ≡ replace_one n frame.general_register)
        × ((replace_register mapping n frame).program_counter ≡ frame.program_counter)
  unfolding replace_register replace_one
  register_replaced n frame = ground arith

  -- What replacing at some entries has done so far.
  record Progress (named : ℕ → Bool) (f : Frame) (w : ℕ → ℕ) (f' : Frame) (w' : ℕ → ℕ)
      : Type 0 where
    same_pc : f'.program_counter ≡ f.program_counter
    kept : (n : ℕ) → named n ≡ false → f'.general_register n ≡ f.general_register n
    registers : Replaced f.general_register f'.general_register
    words : Replaced w w'

  abbrev TypeTranslated : EntryType → StackMapEntry → Frame → (ℕ → ℕ) → Frame → (ℕ → ℕ) → Type 0
  TypeTranslated register entry f w f' w' =
      f'.general_register entry.register_number
      ≡ translate mapping (f.general_register entry.register_number)
  TypeTranslated direct entry f w f' w' = ⊥
  TypeTranslated indirect entry f w f' w' = SlotsTranslated entry.count (slots_start entry f) w w'

  replace_one_kept :
      (named : ℕ → Bool) (at n : ℕ) (words : ℕ → ℕ)
      → named at ≡ true
      → named n ≡ false
      → replace_one at words n ≡ words n
  unfolding replace_one update
  replace_one_kept named at n words h k = elim (Bool-cases (n == at)) [
    | inl same ↦ cc (ap named ((==_iff n at).0 same))
    | inr other ↦ ground arith
  ]

  Progress-register :
      (named : ℕ → Bool) (n : ℕ) (f : Frame) (w : ℕ → ℕ)
      → named n ≡ true
      → Progress named f w (replace_register mapping n f) w
  Progress-register named n f w h =
      let (registers, pc) = register_replaced n f in
      record {
        same_pc = pc;
        kept = λ m k.
            ap (λ (g : ℕ → ℕ). g m) registers ∙ replace_one_kept named n m f.general_register h k;
        registers = rw registers (replace_one-Replaced n f.general_register);
        words = λ a. inl refl;
      }

  by_type_lem :
      (t : EntryType) (named : ℕ → Bool) (entry : StackMapEntry) (f : Frame) (w : ℕ → ℕ)
      → FitsType t named entry
      → (f' : Frame) × (w' : ℕ → ℕ) × (replace_by_type mapping t entry (f, w) ≡ ok (f', w'))
        × Progress named f w f' w'
        × TypeTranslated t entry f w f' w'
  unfolding replace_by_type
  by_type_lem register named entry f w fits =
      let n = entry.register_number in
      (
        replace_register mapping n f,
        w,
        refl,
        Progress-register named n f w fits,
        ap (λ (g : ℕ → ℕ). g n) (register_replaced n f).0
            ∙ replace_one-translated n f.general_register,
      )
  by_type_lem direct named entry f w fits = absurd fits
  by_type_lem indirect named entry f w fits = (
    f,
    replace_slots mapping entry.count (slots_start entry f) w,
    refl,
    record {
      same_pc = refl;
      kept = λ n k. refl;
      registers = λ a. inl refl;
      words = replace_slots-Replaced entry.count (slots_start entry f) w;
    },
    replace_slots-translated entry.count (slots_start entry f) w,
  )

  Progress-trans :
      (named : ℕ → Bool) (f f' f'' : Frame) (w w' w'' : ℕ → ℕ)
      → Progress named f w f' w'
      → Progress named f' w' f'' w''
      → Progress named f w f'' w''
  Progress-trans named f f' f'' w w' w'' p q = record {
    same_pc = q.same_pc ∙ p.same_pc;
    kept = λ n k. q.kept n k ∙ p.kept n k;
    registers =
        Replaced-trans f.general_register f'.general_register f''.general_register p.registers
          q.registers;
    words = Replaced-trans w w' w'' p.words q.words;
  }

  Progress-here :
      (named : ℕ → Bool) (f : Frame) (w w' : ℕ → ℕ) → Replaced w w' → Progress named f w f w'
  Progress-here named f w w' r = record {
    same_pc = refl;
    kept = λ n k. refl;
    registers = λ a. inl refl;
    words = r;
  }

  type-then :
      (t : EntryType) (named : ℕ → Bool) (e : StackMapEntry) (f f' f'' : Frame) (w w' w'' : ℕ → ℕ)
      → TypeTranslated t e f w f' w'
      → Progress named f' w' f'' w''
      → TypeTranslated t e f w f'' w''
  type-then register named e f f' f'' w w' w'' h p =
      translated-then f.general_register f'.general_register f''.general_register e.register_number
        h p.registers
  type-then direct named e f f' f'' w w' w'' h p = h
  type-then indirect named e f f' f'' w w' w'' h p =
      slots-then e.count (slots_start e f) w w' w'' h p.words

  then-type :
      (t : EntryType) (named : ℕ → Bool) (e : StackMapEntry) (f f' f'' : Frame) (w w' w'' : ℕ → ℕ)
      → FitsType t named e
      → Progress named f w f' w'
      → TypeTranslated t e f' w' f'' w''
      → TypeTranslated t e f w f'' w''
  then-type register named e f f' f'' w w' w'' fits p h =
      then-translated f.general_register f'.general_register f''.general_register e.register_number
        p.registers h
  then-type direct named e f f' f'' w w' w'' fits p h = h
  then-type indirect named e f f' f'' w w' w'' fits p h =
      then-slots e.count (slots_start e f) w w' w'' p.words (
        subst (λ (r : ℕ). SlotsTranslated e.count ((r + e.offset) % 2 ^ 64) w' w'')
          (p.kept e.register_number fits) h)

  abbrev Translated : List StackMapEntry → Frame → (ℕ → ℕ) → Frame → (ℕ → ℕ) → Type 0
  Translated es f w f' w' = All (λ (e : StackMapEntry). TypeTranslated e.type e f w f' w') es

  Translated-then :
      (named : ℕ → Bool) (es : List StackMapEntry) (f f' f'' : Frame) (w w' w'' : ℕ → ℕ)
      → Translated es f w f' w'
      → Progress named f' w' f'' w''
      → Translated es f w f'' w''
  Translated-then named [] f f' f'' w w' w'' h p = tt
  Translated-then named (e ∷ es) f f' f'' w w' w'' (h, hs) p = (
    type-then e.type named e f f' f'' w w' w'' h p,
    Translated-then named es f f' f'' w w' w'' hs p,
  )

  then-Translated :
      (named : ℕ → Bool) (es : List StackMapEntry) (f f' f'' : Frame) (w w' w'' : ℕ → ℕ)
      → All (Fits named) es
      → Progress named f w f' w'
      → Translated es f' w' f'' w''
      → Translated es f w f'' w''
  then-Translated named [] f f' f'' w w' w'' fits p h = tt
  then-Translated named (e ∷ es) f f' f'' w w' w'' (fit, fits) p (h, hs) = (
    then-type e.type named e f f' f'' w w' w'' fit p h,
    then-Translated named es f f' f'' w w' w'' fits p hs,
  )

  replace_entries_lem :
      (named : ℕ → Bool) (es : List StackMapEntry) (f : Frame) (w : ℕ → ℕ)
      → All (Fits named) es
      → (f' : Frame) × (w' : ℕ → ℕ) × (replace_entries mapping es (f, w) ≡ ok (f', w'))
        × Progress named f w f' w'
        × Translated es f w f' w'
  unfolding replace_entries replace_entry
  replace_entries_lem named [] f w fits =
      (f, w, refl, Progress-here named f w w (λ a. inl refl), tt)
  replace_entries_lem named (e ∷ es) f w (fit, fits) =
      let (f₁, w₁, run₁, p₁, t₁) = by_type_lem e.type named e f w fit in
      let (f₂, w₂, run₂, p₂, t₂) = replace_entries_lem named es f₁ w₁ fits in
      (
        f₂,
        w₂,
        rw run₁ run₂,
        Progress-trans named f f₁ f₂ w w₁ w₂ p₁ p₂,
        (
          type-then e.type named e f f₁ f₂ w w₁ w₂ t₁ p₂,
          then-Translated named es f f₁ f₂ w w₁ w₂ fits p₁ t₂,
        ),
      )

  slot_roots-translated :
      (n : ℕ) (at : Address) (w w' : ℕ → ℕ)
      → SlotsTranslated n at w w'
      → slot_roots n at w' ≡ map (translate mapping) (slot_roots n at w)
  unfolding slot_roots
  slot_roots-translated zero at w w' h = refl
  slot_roots-translated (suc n) at w w' (h, hs) =
      rw (h, slot_roots-translated n (at + pointer_size) w w' hs) refl

  roots_by_type-translated :
      (t : EntryType) (named : ℕ → Bool) (e : StackMapEntry) (f f' : Frame) (w w' : ℕ → ℕ)
      → FitsType t named e
      → ((n : ℕ) → named n ≡ false → f'.general_register n ≡ f.general_register n)
      → TypeTranslated t e f w f' w'
      → (ps : List Address) × (roots_by_type t e f w ≡ ok ps)
        × (roots_by_type t e f' w' ≡ ok (map (translate mapping) ps))
  unfolding roots_by_type
  roots_by_type-translated register named e f f' w w' fits kept h =
      (f.general_register e.register_number ∷ [], refl, rw h refl)
  roots_by_type-translated direct named e f f' w w' fits kept h = absurd h
  roots_by_type-translated indirect named e f f' w w' fits kept h = (
    slot_roots e.count (slots_start e f) w,
    refl,
    rw (kept e.register_number fits)
        (ap ok (slot_roots-translated e.count (slots_start e f) w w' h)),
  )

  entries_roots-Translated :
      (named : ℕ → Bool) (es : List StackMapEntry) (f f' : Frame) (w w' : ℕ → ℕ)
      → All (Fits named) es
      → ((n : ℕ) → named n ≡ false → f'.general_register n ≡ f.general_register n)
      → Translated es f w f' w'
      → (ps : List Address) × (entries_roots es f w ≡ ok ps)
        × (entries_roots es f' w' ≡ ok (map (translate mapping) ps))
  unfolding entries_roots entry_roots
  entries_roots-Translated named [] f f' w w' fits kept h = ([], refl, refl)
  entries_roots-Translated named (e ∷ es) f f' w w' (fit, fits) kept (h, hs) =
      let (ps, a, b) = roots_by_type-translated e.type named e f f' w w' fit kept h in
      let (qs, c, d) = entries_roots-Translated named es f f' w w' fits kept hs in
      (ps ++ qs, rw (a, c) refl, rw (b, d) (ap ok (sym (map-append (translate mapping) ps qs))))

  -- What `Fits` asks at each frame's program counter.
  module _ (entries : Entries) (named : ℕ → ℕ → Bool) where
    abbrev FrameFits : Frame → Type 0
    FrameFits f = All (Fits (named f.program_counter)) (entries f.program_counter)

    abbrev FramesTranslated : List Frame → (ℕ → ℕ) → List Frame → (ℕ → ℕ) → Type 0
    FramesTranslated [] w [] w' = Unit
    FramesTranslated [] w (f' ∷ fs') w' = ⊥
    FramesTranslated (f ∷ fs) w [] w' = ⊥
    FramesTranslated (f ∷ fs) w (f' ∷ fs') w' =
        Progress (named f.program_counter) f w f' w'
        × Translated (entries f.program_counter) f w f' w'
        × FramesTranslated fs w fs' w'

    then-frames :
        (fs fs' : List Frame) (w w' w'' : ℕ → ℕ)
        → All FrameFits fs
        → Replaced w w'
        → FramesTranslated fs w' fs' w''
        → FramesTranslated fs w fs' w''
    then-frames [] [] w w' w'' fits r h = tt
    then-frames [] (f' ∷ fs') w w' w'' fits r h = h
    then-frames (f ∷ fs) [] w w' w'' fits r h = h
    then-frames (f ∷ fs) (f' ∷ fs') w w' w'' (fit, fits) r (p, h, hs) =
        let here = Progress-here (named f.program_counter) f w w' r in
        (
          Progress-trans (named f.program_counter) f f f' w w' w'' here p,
          then-Translated (named f.program_counter) (entries f.program_counter) f f f' w w' w'' fit
              here h,
          then-frames fs fs' w w' w'' fits r hs,
        )

    replace_frames_lem :
        (fs : List Frame) (w : ℕ → ℕ)
        → All FrameFits fs
        → (fs' : List Frame) × (w' : ℕ → ℕ) × (replace_frames mapping entries fs w ≡ ok (fs', w'))
          × Replaced w w'
          × FramesTranslated fs w fs' w'
    unfolding replace_frames
    replace_frames_lem [] w fits = ([], w, refl, (λ a. inl refl), tt)
    replace_frames_lem (f ∷ fs) w (fit, fits) =
        let n = named f.program_counter in
        let es = entries f.program_counter in
        let (f₁, w₁, run₁, p₁, t₁) = replace_entries_lem n es f w fit in
        let (fs₂, w₂, run₂, r₂, t₂) = replace_frames_lem fs w₁ fits in
        let later = Progress-here n f₁ w₁ w₂ r₂ in
        (
          f₁ ∷ fs₂,
          w₂,
          rw run₁ (rw run₂ refl),
          Replaced-trans w w₁ w₂ p₁.words r₂,
          (
            Progress-trans n f f₁ f₁ w w₁ w₂ p₁ later,
            Translated-then n es f f₁ f₁ w w₁ w₂ t₁ later,
            then-frames fs fs₂ w w₁ w₂ fits p₁.words t₂,
          ),
        )

    frames_roots-translated :
        (fs fs' : List Frame) (w w' : ℕ → ℕ)
        → All FrameFits fs
        → FramesTranslated fs w fs' w'
        → (ps : List Address) × (frames_roots entries fs w ≡ ok ps)
          × (frames_roots entries fs' w' ≡ ok (map (translate mapping) ps))
    unfolding frames_roots
    frames_roots-translated [] [] w w' fits h = ([], refl, refl)
    frames_roots-translated [] (f' ∷ fs') w w' fits h = absurd h
    frames_roots-translated (f ∷ fs) [] w w' fits h = absurd h
    frames_roots-translated (f ∷ fs) (f' ∷ fs') w w' (fit, fits) (p, h, hs) =
        let n = named f.program_counter in
        let (ps, a, b) =
          entries_roots-Translated n (entries f.program_counter) f f' w w' fit p.kept h in
        let (qs, c, d) = frames_roots-translated fs fs' w w' fits hs in
        let b' =
          subst (λ (pc : ℕ). entries_roots (entries pc) f' w' ≡ ok (map (translate mapping) ps))
            (sym p.same_pc) b in
        (ps ++ qs, rw (a, c) refl, rw (b', d) (ap ok (sym (map-append (translate mapping) ps qs))))

    frames-fit :
        (fs fs' : List Frame) (w w' : ℕ → ℕ)
        → All FrameFits fs
        → FramesTranslated fs w fs' w'
        → All FrameFits fs'
    frames-fit [] [] w w' fits h = tt
    frames-fit [] (f' ∷ fs') w w' fits h = absurd h
    frames-fit (f ∷ fs) [] w w' fits h = absurd h
    frames-fit (f ∷ fs) (f' ∷ fs') w w' (fit, fits) (p, h, hs) = (
      subst (λ (pc : ℕ). All (Fits (named pc)) (entries pc)) (sym p.same_pc) fit,
      frames-fit fs fs' w w' fits hs,
    )

    -- When translating an address twice is translating it once, null is not mapped, and the stack
    -- map has no direct entries and never takes a register both as a reference and as the start
    -- of slots, replaceStackRoots returns a stack whose roots are the translations of the roots
    -- before, in their order, and whose frames fit the stack map again.
    pub replace_stack_roots_lem :
        (stack : Stack)
        → All FrameFits stack.frames
        → (after : Stack) × (ps : List Address) × (replace_stack_roots mapping entries stack
            ≡ ok after)
          × All FrameFits after.frames
          × (stack_roots entries stack ≡ ok ps)
          × (stack_roots entries after ≡ ok (map (translate mapping) ps))
    unfolding replace_stack_roots stack_roots
    replace_stack_roots_lem stack fits =
        let (fs, w, run, r, t) = replace_frames_lem stack.frames stack.words fits in
        let (ps, before, translated) =
          frames_roots-translated stack.frames fs stack.words w fits t in
        (
          record { frames = fs; words = w },
          ps,
          rw run refl,
          frames-fit stack.frames fs stack.words w fits t,
          before,
          translated,
        )
