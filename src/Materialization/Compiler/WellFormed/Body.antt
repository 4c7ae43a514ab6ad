-- ===== src/Materialization/Compiler/WellFormed/Body.antt =====
-- The function that is emitted is closed, and the loop comes to the end of the code.
use jllvm.Base.{
  ℕ, zero, suc, ◌≤◌, ◌<◌, ◌≡◌, ◌≢◌, refl, ap, inl, inr, List, [], length, Outcome, ok, fails,
  out_of_fuel, >>=-eq-ok, ok-eq, ok-pair, Bool-cases, leb, leb→le, length-drop, Option-cases,
  List-cases, arith,
}
use jllvm.Support.Bytes.{consume}
use jllvm.Object.ClassObject.{Alignment}
use jllvm.Materialization.Compiler.OpCodes.Decoding.{op_codes, select_op_code}
use jllvm.Materialization.Compiler.Function.{Instruction, instructions_of}
use jllvm.Materialization.Compiler.State.{
  Context, State, lookup, operand, current_offset, start_handler, end_handler, last_number,
  note_insert_point, set_insert_point,
}
use jllvm.Materialization.Compiler.Switch.{
  enter_offset, begin_instruction, generate_instruction, generate,
}
use jllvm.Materialization.Compiler.WellFormed.{IsWellFormed}
use jllvm.Materialization.Compiler.WellFormed.Effects.{Effect-refl}
use jllvm.Materialization.Compiler.WellFormed.Running.{
  Runs, Steps, Runs-trans, then_Steps, read_Steps,
}
use jllvm.Materialization.Compiler.WellFormed.Ending.{
  follow-ne-out_of_fuel, consume-ne-out_of_fuel, end_handler-ne-out_of_fuel,
}
use jllvm.Materialization.Compiler.WellFormed.Parts.{Runs-same, lookup-target, operand-Yields}
use jllvm.Materialization.Compiler.WellFormed.Switch.{step-Runs, step-ne-out_of_fuel}

note_insert_point-Runs :
    (context : Context) (offset : ℕ) (is : List Instruction) (s : State)
    → IsWellFormed context s
    → Runs context 0 0 s (note_insert_point offset is s)
unfolding note_insert_point
note_insert_point-Runs context offset is s h = elim (Option-cases (last_number is)) [
  | inl absent ↦ rw (absent, note_insert_point) (Runs-same s s refl refl refl refl h)
  | inr (n, found) ↦ rw (found, note_insert_point) (Runs-same s _ refl refl refl refl h)
]

set_insert_point-Runs :
    (context : Context) (key : ℕ) (s : State)
    → IsWellFormed context s
    → Runs context 0 0 s (set_insert_point (lookup key s.basic_blocks) s)
unfolding set_insert_point
set_insert_point-Runs context key s h = elim (Option-cases (lookup key s.basic_blocks)) [
  | inl absent ↦ rw absent (Runs-same s s refl refl refl refl h)
  | inr (block, found) ↦ rw found record {
    effect = Effect-refl s.operand_stack;
    current_le = omega arith;
    values_le = omega arith;
    blocks_le = omega arith;
    well_formed =
        ((h.0.0, h.0.1, lookup-target key s.basic_blocks h.2 found, h.0.3), h.1, h.2, h.3);
  }
]

enter_offset-Steps :
    (context : Context) (key : ℕ) (s : State)
    → IsWellFormed context s
    → Steps context 0 0 s (enter_offset context key s)
unfolding enter_offset
enter_offset-Steps context key s h =
    read_Steps 0 0
      (end_handler (lookup key context.end_handlers)
        (start_handler (lookup key context.start_handlers) s.active_handlers))
      _ (end_handler-ne-out_of_fuel (lookup key context.end_handlers) _)
      (λ active e.
        let handled =
          Runs-same {context = context} s (record s { active_handlers = active }) refl refl refl
            refl h in
        record {
          runs = Runs-trans handled (set_insert_point-Runs context key _ handled.well_formed);
        })

begin_instruction-Steps :
    (context : Context) (s : State)
    → IsWellFormed context s
    → Steps context 0 0 s (begin_instruction context s)
unfolding begin_instruction
begin_instruction-Steps context s h =
    let noted =
      note_insert_point-Runs context (current_offset context s)
        (instructions_of s.builder.insert_block s.builder.blocks) s h in
    then_Steps _ noted (enter_offset-Steps context _ _ noted.well_formed)

operand-lt :
    (s : State) {value : ℕ} {t : State}
    → operand 1 s ≡ ok (value, t)
    → length t.current < length s.current
unfolding operand consume
operand-lt s {value} {t} e = elim (Bool-cases (leb 1 (length s.current))) [
  | inl enough ↦
      let same = ok-pair (rw (enough, operand) at e) in
      rw (← same.1) (omega (arith, leb→le 1 (length s.current) enough, length-drop 1 s.current))
  | inr short ↦ (let no = rw (short, operand) at e in cc)
]

-- A round of the loop takes a byte at least.
pub generate_instruction-shorter :
    (alignment : Alignment) (context : Context) (s : State) {t : State}
    → IsWellFormed context s
    → generate_instruction alignment context s ≡ ok t
    → IsWellFormed context t × (length t.current < length s.current)
unfolding generate_instruction
generate_instruction-shorter alignment context s {t} h e =
    let begun = >>=-eq-ok (begin_instruction context s) _ e in
    let first : Steps context 0 0 s (ok begun.0) =
      rw begun.1 at (begin_instruction-Steps context s h) in
    let read = >>=-eq-ok (operand 1 begun.0) _ begun.2 in
    let second =
      rw read.1 at (operand-Yields {context = context} 1 begun.0 first.runs.well_formed) in
    let lt = operand-lt begun.0 read.1 in
    elim (Option-cases (select_op_code read.0.0 op_codes)) [
      | inl absent ↦ (let no = rw absent at read.2 in cc)
      | inr (op, found) ↦
          let run = rw found at read.2 in
          let third =
            step-Runs alignment context op (current_offset context s) read.0.1
              second.runs.0.well_formed run in
          (third.2.well_formed, omega (arith, lt, third.2.current_le, first.runs.current_le))
    ]

pub generate-IsWellFormed :
    (alignment : Alignment) (context : Context) (fuel : ℕ) (s : State) {t : State}
    → IsWellFormed context s
    → generate alignment context fuel s ≡ ok t
    → IsWellFormed context t × (t.current ≡ [])
unfolding generate
generate-IsWellFormed alignment context zero s h e = elim (List-cases s.current) [
  | inl done ↦ let same = ok-eq (rw (done, generate) at e) in rw (← same) (h, done)
  | inr (b, rest, more) ↦ (let no = rw (more, generate) at e in cc)
]
generate-IsWellFormed alignment context (suc fuel) s h e = elim (List-cases s.current) [
  | inl done ↦ let same = ok-eq (rw (done, generate) at e) in rw (← same) (h, done)
  | inr (b, rest, more) ↦
      let run = >>=-eq-ok (generate_instruction alignment context s) _ (rw (more, generate) at e) in
      let next = generate_instruction-shorter alignment context s h run.1 in
      generate-IsWellFormed alignment context fuel run.0 next.0 run.2
]

Steps-ne-out_of_fuel :
    (context : Context) (pops pushes : ℕ) (s : State) (o : Outcome State)
    → Steps context pops pushes s o
    → o ≢ fails out_of_fuel
Steps-ne-out_of_fuel context pops pushes s (fails f) h =
    λ e. let same : f ≡ out_of_fuel = cc in h.runs same
Steps-ne-out_of_fuel context pops pushes s (ok t) h = λ e. cc

operand-ne-out_of_fuel : (size : ℕ) (s : State) → operand size s ≢ fails out_of_fuel
unfolding operand
operand-ne-out_of_fuel size s =
    follow-ne-out_of_fuel _ _ (consume-ne-out_of_fuel size s.current) (λ both e p. cc)

generate_instruction-ne-out_of_fuel :
    (alignment : Alignment) (context : Context) (s : State)
    → IsWellFormed context s
    → generate_instruction alignment context s ≢ fails out_of_fuel
unfolding generate_instruction
generate_instruction-ne-out_of_fuel alignment context s h =
    let begun = begin_instruction-Steps context s h in
    follow-ne-out_of_fuel (begin_instruction context s) _
      (Steps-ne-out_of_fuel context 0 0 s _ begun)
      (λ t e.
        let first : Steps context 0 0 s (ok t) = rw e at begun in
        follow-ne-out_of_fuel (operand 1 t) _ (operand-ne-out_of_fuel 1 t) (λ both e'.
          let second = rw e' at (operand-Yields {context = context} 1 t first.runs.well_formed) in
          elim (Option-cases (select_op_code both.0 op_codes)) [
            | inl absent ↦ rw absent (λ p. cc)
            | inr (op, found) ↦ rw found (
                step-ne-out_of_fuel alignment context op (current_offset context s) both.1
                  second.runs.0.well_formed)
          ]))

-- On any code the loop ends within a round for each byte: it comes to the end of the code, or stops
-- with a failure of one of the instructions.
pub generate-ne-out_of_fuel :
    (alignment : Alignment) (context : Context) (fuel : ℕ) (s : State)
    → IsWellFormed context s
    → length s.current ≤ fuel
    → generate alignment context fuel s ≢ fails out_of_fuel
unfolding generate
generate-ne-out_of_fuel alignment context zero s h le = elim (List-cases s.current) [
  | inl done ↦ rw (done, generate) (λ e. cc)
  | inr (b, rest, more) ↦ absurd (omega (arith, le, ap length more))
]
generate-ne-out_of_fuel alignment context (suc fuel) s h le = elim (List-cases s.current) [
  | inl done ↦ rw (done, generate) (λ e. cc)
  | inr (b, rest, more) ↦
      rw (more, generate)
        (follow-ne-out_of_fuel (generate_instruction alignment context s) _
          (generate_instruction-ne-out_of_fuel alignment context s h)
          (λ t e.
            let next = generate_instruction-shorter alignment context s h e in
            generate-ne-out_of_fuel alignment context fuel t next.0 (omega (arith, le, next.1))))
]
