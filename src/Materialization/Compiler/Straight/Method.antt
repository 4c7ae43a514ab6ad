-- ===== src/Materialization/Compiler/Straight/Method.antt =====
-- A method whose code is straight-line.
use jllvm.Base.{
  ℕ, zero, suc, ◌+◌, ◌<◌, ◌≡◌, refl, sym, ◌∙◌, ap, List, [], map, some, length, get_elem?, ok,
  ◌>>=◌, arith,
}
use jllvm.Class.ClassFile.Constants.{ConstantPoolInfo}
use jllvm.Class.ClassFile.Members.{Code}
use jllvm.Materialization.Types.{IrType}
use jllvm.Materialization.Compiler.Function.{Value, result, alloca, Builder, new_function, emit}
use jllvm.Materialization.Compiler.State.{Callback}
use jllvm.Materialization.Compiler.Switch.{generate}
use jllvm.Materialization.Compiler.Arguments.{create_locals, store_arguments}
use jllvm.Materialization.Compiler.Body.{
  Environment, start_handlers_of, end_handlers_of, context_of, start_state, code_gen_body,
}
use jllvm.Materialization.Compiler.WellFormed.Emitted.{start-IsWellFormed}
use jllvm.Materialization.Compiler.Straight.{Machine, Frame, value_of, interpret_code}
use jllvm.Materialization.Compiler.Straight.Simulation.{Agrees, Simulates}
use jllvm.Materialization.Compiler.Straight.Whole.{IsStraight, Simulates-eq, generate-Simulates}

create_locals-length : (n : ℕ) (b : Builder) → length (create_locals n b).0 ≡ n
unfolding create_locals
create_locals-length zero b = refl
create_locals-length (suc n) b = ap suc (create_locals-length n (emit alloca b).1)

-- The allocas have the numbers from where the builder stood.
create_locals-result :
    (n : ℕ) (b : Builder) (i : ℕ) (local : Value)
    → get_elem? (create_locals n b).0 i ≡ some local
    → (local ≡ result (b.value_count + i)) × (i < n)
unfolding create_locals emit
create_locals-result zero b i local e = cc
create_locals-result (suc n) b zero local e =
    let at : b.value_count ≡ b.value_count + 0 = omega arith in
    let here : result b.value_count ≡ local = cc in (sym here ∙ ap result at, omega arith)
create_locals-result (suc n) b (suc i) local e =
    let rest = create_locals-result n (emit alloca b).1 i local e in
    let at : suc b.value_count + i ≡ b.value_count + suc i = omega arith in
    (rest.0 ∙ ap result at, omega (arith, rest.1))

module _ (constants : Value → ℕ) (environment : Environment) (pool : List ConstantPoolInfo)
    (parameters : List IrType) (code : Code) (stubs : List (List ℕ × Callback)) where
  abbrev pub locals_of : List Value
  locals_of = (create_locals code.max_locals new_function).0

  abbrev pub with_locals : Builder
  with_locals = (create_locals code.max_locals new_function).1

  start-Agrees :
      (builder : Builder) (m : Machine) (f : Frame)
      → f.stack ≡ []
      → ((i : ℕ) → i < code.max_locals → m.results i ≡ i)
      → ((i : ℕ) → i < code.max_locals → m.slots i ≡ f.locals i)
      → Agrees constants
          (context_of environment pool code locals_of)
          (start_state builder code stubs)
          m
          f
  unfolding context_of start_state value_of new_function
  start-Agrees builder m f empty addresses contents =
      let count = create_locals-length code.max_locals new_function in
      record {
        stack = sym empty;
        addresses = λ i local e.
            let here = create_locals-result code.max_locals new_function i local e in
            let number : 0 + i ≡ i = omega arith in
            ap (value_of constants m) here.0 ∙ ap m.results number ∙ addresses i here.1;
        contents = λ i lt. contents i (omega (arith, lt, count));
      }

  -- A method without exception handlers, whose code is straight-line code (constants, loads,
  -- stores, increments, dup and pop) that a frame of the byte code machine can go through,
  -- compiles; the instructions that are emitted behind the stores of the arguments can be run by
  -- any machine that has the allocas under their numbers and the locals of the frame in them, and
  -- leave it with the values of the operand stack and the locals that the frame then has.
  pub code_gen_body-Simulates :
      (builder : Builder) (m : Machine) (f f' : Frame)
      → store_arguments 0 parameters locals_of with_locals ≡ ok builder
      → code.exception_table ≡ []
      → f.stack ≡ []
      → ((i : ℕ) → i < code.max_locals → m.results i ≡ i)
      → ((i : ℕ) → i < code.max_locals → m.slots i ≡ f.locals i)
      → interpret_code code.max_locals (length code.code) code.code f ≡ some f'
      → Simulates constants
          (context_of environment pool code locals_of)
          (start_state builder code stubs)
          (code_gen_body environment pool parameters code stubs)
          m
          f'
          []
  unfolding code_gen_body context_of start_state start_handlers_of end_handlers_of
  code_gen_body-Simulates builder m f f' stored handlers empty addresses contents e =
      let count = create_locals-length code.max_locals new_function in
      let straight : IsStraight (context_of environment pool code locals_of)
          (start_state builder code stubs) =
        (
          ap (map (λ e. (e.start_pc, (e.handler_pc, e.catch_type)))) handlers,
          ap (map (λ e. (e.end_pc, (e.handler_pc, e.catch_type)))) handlers,
          refl,
        ) in
      Simulates-eq constants
        (ap
          (λ o. o >>= λ builder.
            generate environment.alignment (context_of environment pool code locals_of)
              (length code.code) (start_state builder code stubs))
          stored)
        (generate-Simulates constants {context = context_of environment pool code locals_of}
          environment.alignment (length code.code) (start_state builder code stubs) m f
          (start-IsWellFormed environment pool parameters code stubs builder stored) straight
          (start-Agrees builder m f empty addresses contents)
          (ap (λ limit. interpret_code limit (length code.code) code.code f) count ∙ e))
