-- ===== src/Materialization/Compiler/Straight/Whole.antt =====
-- Straight-line code as a whole: what the loop of the compiler emits for it.
use jllvm.Base.{
  ℕ, zero, suc, ◌%◌, ◌^◌, ◌≡◌, refl, sym, ◌∙◌, ap, inl, inr, List, [], ◌∷◌, ◌++◌, append_assoc,
  append-nil, Option, none, some, length, Outcome, ok, fails, unreachable, out_of_fuel, ◌>>=◌,
  List-cases, Option-cases,
}
use jllvm.Object.ClassObject.{Alignment}
use jllvm.Materialization.Compiler.OpCodes.{OpCodes}
use jllvm.Materialization.Compiler.OpCodes.Decoding.{op_codes, select_op_code}
use jllvm.Materialization.Compiler.Function.{Value, Instruction, instructions_of}
use jllvm.Materialization.Compiler.State.{
  Context, State, lookup, operand, current_offset, start_handler, end_handler, last_number,
  note_insert_point, set_insert_point,
}
use jllvm.Materialization.Compiler.Switch.{
  step, enter_offset, begin_instruction, generate_instruction, generate,
}
use jllvm.Materialization.Compiler.WellFormed.{IsWellFormed}
use jllvm.Materialization.Compiler.WellFormed.Body.{generate_instruction-shorter}
use jllvm.Materialization.Compiler.Straight.{Machine, Frame, run, interpret, interpret_code}
use jllvm.Materialization.Compiler.Straight.Appended.{current_block, run-append}
use jllvm.Materialization.Compiler.Straight.Simulation.{Agrees, Simulates}
use jllvm.Materialization.Compiler.Straight.Increment.{operand_byte}
use jllvm.Materialization.Compiler.Straight.Code.{behind, step-Simulates}

-- A method without exception handlers, in a state in which no branch has been compiled.
abbrev pub IsStraight : Context → State → Type 0
IsStraight context s =
    (context.start_handlers ≡ []) × (context.end_handlers ≡ []) × (s.basic_blocks ≡ [])

-- Two states that differ only in what is noted for branches.
abbrev IsNoted : State → State → Type 0
IsNoted s t =
    (t.builder ≡ s.builder)
    × (t.current ≡ s.current)
    × (t.operand_stack ≡ s.operand_stack)
    × (t.basic_blocks ≡ s.basic_blocks)

note_insert_point-IsNoted :
    (offset : ℕ) (is : List Instruction) (s : State) → IsNoted s (note_insert_point offset is s)
unfolding note_insert_point
note_insert_point-IsNoted offset is s = elim (Option-cases (last_number is)) [
  | inl absent ↦ rw (absent, note_insert_point) (refl, refl, refl, refl)
  | inr (n, found) ↦ rw (found, note_insert_point) (refl, refl, refl, refl)
]

lookup-nil {ℓ} : {A : Type ℓ} (key : ℕ) → ◌≡◌ {A = Option A} (lookup key []) none
unfolding lookup
lookup-nil key = refl

-- Entering an instruction where nothing starts or ends.
enter_offset-straight :
    (context : Context) (key : ℕ) (s : State)
    → IsStraight context s
    → (t : State) × (enter_offset context key s ≡ ok t) × IsNoted s t
unfolding enter_offset lookup start_handler end_handler set_insert_point
enter_offset-straight context key s (starts, ends, targets) = (
  record s { active_handlers = s.active_handlers },
  rw (starts, ends, targets, enter_offset) refl,
  (refl, refl, refl, refl),
)

begin_instruction-straight :
    (context : Context) (s : State)
    → IsStraight context s
    → (t : State) × (begin_instruction context s ≡ ok t) × IsNoted s t
unfolding begin_instruction
begin_instruction-straight context s (starts, ends, targets) =
    let offset = current_offset context s in
    let is = instructions_of s.builder.insert_block s.builder.blocks in
    let noted = note_insert_point-IsNoted offset is s in
    let entered =
      enter_offset-straight context (offset % 2 ^ 16) (note_insert_point offset is s)
        (starts, ends, noted.3 ∙ targets) in
    let more = entered.2 in
    (entered.0, entered.1, (more.0 ∙ noted.0, more.1 ∙ noted.1, more.2 ∙ noted.2, more.3 ∙ noted.3))

noted-IsWellFormed :
    (context : Context) (s t : State)
    → IsNoted s t
    → IsWellFormed context s
    → IsWellFormed context t
noted-IsWellFormed context s t noted h = rw (noted.0, noted.2, noted.3) h

generate-end :
    (alignment : Alignment) (context : Context) (fuel : ℕ) (s : State)
    → s.current ≡ []
    → generate alignment context fuel s ≡ ok s
unfolding generate
generate-end alignment context zero s es =
    ap (λ bytes. elim bytes [ [] ↦ ok s | b ∷ rest ↦ fails out_of_fuel ]) es
generate-end alignment context (suc fuel) s es =
    ap
      (λ bytes. elim bytes [
        | [] ↦ ok s
        | b ∷ rest ↦ generate_instruction alignment context s >>= generate alignment context fuel
      ])
      es

generate-more :
    (alignment : Alignment) (context : Context) (fuel : ℕ) (s : State) (b : ℕ) (bytes : List ℕ)
    → s.current ≡ b ∷ bytes
    → generate alignment context (suc fuel) s
      ≡ (generate_instruction alignment context s >>= generate alignment context fuel)
unfolding generate
generate-more alignment context fuel s b bytes es =
    ap
      (λ bytes. elim bytes [
        | [] ↦ ok s
        | b ∷ rest ↦ generate_instruction alignment context s >>= generate alignment context fuel
      ])
      es

module _ (constants : Value → ℕ) {context : Context} where
  -- What is noted does not matter.
  noted_simulates :
      (s t : State) {m : Machine} {f : Frame} {rest : List ℕ} {o o' : Outcome State}
      → IsNoted s t
      → o' ≡ o
      → Simulates constants context t o m f rest
      → Simulates constants context s o' m f rest
  noted_simulates s t noted e h = record {
    state = h.state;
    compiled = e ∙ h.compiled;
    read = h.read;
    same_block = h.same_block ∙ ap (λ b. b.insert_block) noted.0;
    same_targets = h.same_targets ∙ noted.3;
    emitted = h.emitted;
    appended = h.appended ∙ ap (λ b. current_block b ++ h.emitted) noted.0;
    machine = h.machine;
    ran = h.ran;
    agrees = h.agrees;
  }

  -- One thing after the other.
  Simulates-trans :
      {s : State} {m : Machine} {f f' : Frame} {bytes rest : List ℕ} {o : Outcome State}
      (next : State → Outcome State) (first : Simulates constants context s o m f bytes)
      → Simulates constants context first.state (next first.state) first.machine f' rest
      → Simulates constants context s (o >>= next) m f' rest
  Simulates-trans {s} {m} next first second = record {
    state = second.state;
    compiled = ap (λ o. o >>= next) first.compiled ∙ second.compiled;
    read = second.read;
    same_block = second.same_block ∙ first.same_block;
    same_targets = second.same_targets ∙ first.same_targets;
    emitted = first.emitted ++ second.emitted;
    appended =
        second.appended
        ∙ ap (λ is. is ++ second.emitted) first.appended
        ∙ append_assoc (current_block s.builder) first.emitted second.emitted;
    machine = second.machine;
    ran = run-append constants first.emitted second.emitted m first.ran ∙ second.ran;
    agrees = second.agrees;
  }

  generate_instruction-Simulates :
      (alignment : Alignment) (s : State) (m : Machine) (f : Frame) (b : ℕ) (bytes : List ℕ)
      (op : OpCodes) {f' : Frame} {rest : List ℕ}
      → IsWellFormed context s
      → IsStraight context s
      → Agrees constants context s m f
      → s.current ≡ b ∷ bytes
      → select_op_code b op_codes ≡ some op
      → interpret (length context.locals) op bytes f ≡ some (f', rest)
      → Simulates constants context s (generate_instruction alignment context s) m f' rest
  unfolding generate_instruction
  generate_instruction-Simulates alignment s m f b bytes op h straight a es selected e =
      let begun = begin_instruction-straight context s straight in
      let noted = begun.2 in
      let t = begun.0 in
      let u : State = record t { current = bytes } in
      let offset = current_offset context s in
      let stepped =
        step-Simulates constants alignment context op offset u m f
          (noted-IsWellFormed context s t noted h)
          (record { stack = rw noted.2 a.stack; addresses = a.addresses; contents = a.contents })
          e in
      noted_simulates s t noted
        (ap
          (λ o. o >>= λ s. operand 1 s >>= λ (value, s). elim (select_op_code value op_codes) [
            | none ↦ fails unreachable
            | some op ↦ step alignment context op offset s
          ])
          begun.1)
        (behind constants t bytes stepped (
          ap
            (λ o. o >>= λ (value, s). elim (select_op_code value op_codes) [
              | none ↦ fails unreachable
              | some op ↦ step alignment context op offset s
            ])
            (operand_byte t b bytes (noted.1 ∙ es))
          ∙ ap
              (λ o. elim o [
                | none ↦ fails unreachable
                | some op ↦ step alignment context op offset u
              ])
              selected))

  pub Simulates-eq :
      {s : State} {m : Machine} {f : Frame} {rest : List ℕ} {o o' : Outcome State}
      → o' ≡ o
      → Simulates constants context s o m f rest
      → Simulates constants context s o' m f rest
  Simulates-eq e h = rw e h

  -- At the end of the code.
  Simulates-end :
      (s : State) (m : Machine) (f f' : Frame)
      → s.current ≡ []
      → some f ≡ some f'
      → Agrees constants context s m f
      → Simulates constants context s (ok s) m f' []
  unfolding run
  Simulates-end s m f f' es e a =
      let same : f ≡ f' = cc in
      record {
        state = s;
        compiled = refl;
        read = es;
        same_block = refl;
        same_targets = refl;
        emitted = [];
        appended = sym (append-nil _);
        machine = m;
        ran = refl;
        agrees = rw (← same) a;
      }

  -- Straight-line code that a frame can go through is compiled to its end, into instructions behind
  -- those of the block; a machine that agrees with the frame can run these, and then agrees with
  -- what the frame has become: each value of the operand stack and each local.
  pub generate-Simulates :
      (alignment : Alignment) (fuel : ℕ) (s : State) (m : Machine) (f : Frame) {f' : Frame}
      → IsWellFormed context s
      → IsStraight context s
      → Agrees constants context s m f
      → interpret_code (length context.locals) fuel s.current f ≡ some f'
      → Simulates constants context s (generate alignment context fuel s) m f' []
  unfolding interpret_code
  generate-Simulates alignment zero s m f h straight a e = elim (List-cases s.current) [
    | inl es ↦
        Simulates-eq (generate-end alignment context 0 s es)
          (Simulates-end s m f _ es (rw (es, interpret_code) at e) a)
    | inr (b, bytes, es) ↦ (let no = rw (es, interpret_code) at e in absurd cc)
  ]
  generate-Simulates alignment (suc fuel) s m f h straight a e = elim (List-cases s.current) [
    | inl es ↦
        Simulates-eq (generate-end alignment context (suc fuel) s es)
          (Simulates-end s m f _ es (rw (es, interpret_code) at e) a)
    | inr (b, bytes, es) ↦ elim (Option-cases (select_op_code b op_codes)) [
      | inl absent ↦ (let no = rw (es, absent, interpret_code) at e in absurd cc)
      | inr (op, selected) ↦ elim (Option-cases (interpret (length context.locals) op bytes f)) [
        | inl stuck ↦ (let no = rw (es, selected, stuck, interpret_code) at e in absurd cc)
        | inr ((g, rest), done) ↦
            let later = rw (es, selected, done, interpret_code) at e in
            let first =
              generate_instruction-Simulates alignment s m f b bytes op h straight a es selected
                done in
            let well_formed =
              (generate_instruction-shorter alignment context s h first.compiled).0 in
            Simulates-eq (generate-more alignment context fuel s b bytes es) (
              Simulates-trans (generate alignment context fuel) first (
                generate-Simulates alignment fuel first.state first.machine g well_formed
                  (straight.0, straight.1, first.same_targets ∙ straight.2) first.agrees
                  (ap (λ bytes. interpret_code (length context.locals) fuel bytes g) first.read
                    ∙ later)))
      ]
    ]
  ]
