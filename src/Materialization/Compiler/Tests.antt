-- ===== src/Materialization/Compiler/Tests.antt =====
-- Runs of the compiler on small methods.
use jllvm.Base.{
  ℕ, ◌≢◌, ◌≡◌, refl, List, [], ◌∷◌, Outcome, ok, map, fails, out_of_fuel, assertion, leb, length,
  if◌then◌else◌,
}
use jllvm.Class.ClassFile.Members.{Code}
use jllvm.Object.ClassObject.Rounding.{alignment}
use jllvm.Materialization.Types.{IrType, int_type}
use jllvm.Materialization.Compiler.OpCodes.{i_load0}
use jllvm.Materialization.Compiler.Function.{
  Value, argument, result, load, store, add, icmp_sge, alloca, br, cond_br, ret_void, int_constant,
  Builder, Operation, instructions_of, new_function,
}
use jllvm.Materialization.Compiler.State.{
  instance_field_offset, static_field_address, class_object, Context, State,
}
use jllvm.Materialization.Compiler.Steps.{pop_arguments}
use jllvm.Materialization.Compiler.Steps.CallOrder.{push_all, pop_arguments-push_all}
use jllvm.Materialization.Compiler.OpCodes.Decoding.{select_op_code}
use jllvm.Materialization.Compiler.Switch.{step}
use jllvm.Materialization.Compiler.Arguments.{create_locals, store_arguments}
use jllvm.Materialization.Compiler.Arguments.Placed.{slot_count, place, store_arguments-place}
use jllvm.Materialization.Compiler.Body.{Environment, context_of, start_state, code_gen_body}
use jllvm.Materialization.Compiler.WellFormed.{IsClosedBuilder, IsWellFormed}
use jllvm.Materialization.Compiler.WellFormed.Effects.{Effect}
use jllvm.Materialization.Compiler.WellFormed.StackEffects.{stack_effect}
use jllvm.Materialization.Compiler.WellFormed.Switch.{step-Effect}
use jllvm.Materialization.Compiler.WellFormed.Emitted.{
  start-IsWellFormed, code_gen_body-closed, code_gen_body-ne-out_of_fuel,
}
use jllvm.Materialization.Compiler.Straight.{Machine, Frame, set, interpret_code}
use jllvm.Materialization.Compiler.Straight.Simulation.{Simulates}
use jllvm.Materialization.Compiler.Straight.Method.{code_gen_body-Simulates}

abbrev environment : Environment
environment = record {
  alignment = alignment;
  objects = [];
  mapping = [];
  unique_address = λ q. elim q [
    | instance_field_offset ↦ b'1' ∷ []
    | static_field_address ↦ b'2' ∷ []
    | class_object ↦ b'3' ∷ []
  ];
}

abbrev nothing : State
nothing =
    start_state new_function
      (record { max_stack = 0; max_locals = 0; code = []; exception_table = [] }) []

abbrev state_of : Outcome State → State
state_of (ok s) = s
state_of (fails f) = nothing

abbrev ints : List IrType
ints = int_type 32 ∷ int_type 32 ∷ []

-- `while (i < n) i++;` at 0 iload_0, 1 iload_1, 2 if_icmpge 11, 5 iinc 0 1, 8 goto 0, 11 return
abbrev counting : Code
counting = record {
  max_stack = 2;
  max_locals = 2;
  code = 26 ∷ 27 ∷ 162 ∷ 0 ∷ 9 ∷ 132 ∷ 0 ∷ 1 ∷ 167 ∷ 255 ∷ 248 ∷ 177 ∷ [];
  exception_table = [];
}

abbrev counted : State
counted = state_of (code_gen_body environment [] ints counting [])

abbrev operations : ℕ → State → List Operation
operations name s = map (λ i. i.operation) (instructions_of name s.builder.blocks)

-- The head of the loop keeps the name of the entry block, whose start has been split off.
counted_entry :
    operations 3 counted
    ≡ alloca ∷ alloca ∷ store (argument 0) (result 0) ∷ store (argument 1) (result 1) ∷ br 0 ∷ []
unfolding code_gen_body instructions_of
counted_entry = refl

counted_head :
    operations 0 counted
    ≡ load (int_type 32) (result 0)
      ∷ load (int_type 32) (result 1)
      ∷ icmp_sge (result 4) (result 5)
      ∷ cond_br (result 6) 1 2
      ∷ []
unfolding code_gen_body instructions_of
counted_head = refl

counted_body :
    operations 2 counted
    ≡ load (int_type 32) (result 0)
      ∷ add (result 8) (int_constant 32 1)
      ∷ store (result 9) (result 0)
      ∷ br 0
      ∷ []
unfolding code_gen_body instructions_of
counted_body = refl

counted_end : operations 1 counted ≡ ret_void ∷ []
unfolding code_gen_body instructions_of
counted_end = refl

code_gen_body-ne-out_of_fuel_example :
    code_gen_body environment [] ints counting [] ≢ fails out_of_fuel
code_gen_body-ne-out_of_fuel_example = code_gen_body-ne-out_of_fuel environment [] ints counting []

-- A loop that jumps to itself at the start of a method without locals, `goto 0`, is not compiled:
-- nothing stands before it.
abbrev endless : Code
endless = record { max_stack = 0; max_locals = 0; code = 167 ∷ 0 ∷ 0 ∷ []; exception_table = [] }

endless_fails : code_gen_body environment [] [] endless [] ≡ fails assertion
unfolding code_gen_body
endless_fails = refl

-- `if (a < b) a++; while (a < b) a++;` as javac has it: the first test jumps behind the increment,
-- to 8, where the loop starts.
-- 0 iload_0, 1 iload_1, 2 if_icmpge 8, 5 iinc 0 1, 8 iinc 0 2, 11 iload_0, 12 iload_1,
-- 13 if_icmpge 22, 16 iinc 0 1, 19 goto 11, 22 return
abbrev skipping : Code
skipping = record {
  max_stack = 2;
  max_locals = 2;
  code =
      26 ∷ 27 ∷ 162 ∷ 0 ∷ 6 ∷ 132 ∷ 0 ∷ 1 ∷ 132 ∷ 0 ∷ 2 ∷ 26 ∷ 27 ∷ 162 ∷ 0 ∷ 9 ∷ 132 ∷ 0 ∷ 1 ∷ 167
      ∷ 255 ∷ 248 ∷ 177 ∷ [];
  exception_table = [];
}

abbrev skipped : State
skipped = state_of (code_gen_body environment [] ints skipping [])

-- The block of the first jump, 1, is split at 11: it keeps its name but starts at 11 then, and the
-- code at 8, with its `iinc 0 2`, is in a block of its own that the first jump no longer goes to.
skipped_jump :
    operations 0 skipped
    ≡ alloca
      ∷ alloca
      ∷ store (argument 0) (result 0)
      ∷ store (argument 1) (result 1)
      ∷ load (int_type 32) (result 0)
      ∷ load (int_type 32) (result 1)
      ∷ icmp_sge (result 4) (result 5)
      ∷ cond_br (result 6) 1 2
      ∷ []
unfolding code_gen_body instructions_of
skipped_jump = refl

skipped_target :
    operations 1 skipped
    ≡ load (int_type 32) (result 0)
      ∷ load (int_type 32) (result 1)
      ∷ icmp_sge (result 14) (result 15)
      ∷ cond_br (result 16) 3 4
      ∷ []
unfolding code_gen_body instructions_of
skipped_target = refl

-- A method that stores its argument in another local and adds to it: iload_0, istore_1, iinc 1 5.
abbrev storing : Code
storing = record {
  max_stack = 1;
  max_locals = 2;
  code = 26 ∷ 60 ∷ 132 ∷ 1 ∷ 5 ∷ [];
  exception_table = [];
}

abbrev one_int : List IrType
one_int = int_type 32 ∷ []

abbrev builder_of : Outcome Builder → Builder
builder_of (ok b) = b
builder_of (fails f) = new_function

abbrev stored : Builder
stored =
    builder_of
      (store_arguments 0 one_int (create_locals 2 new_function).0 (create_locals 2 new_function).1)

abbrev stored_state : State
stored_state = state_of (code_gen_body environment [] one_int storing [])

code_gen_body-closed_example : IsClosedBuilder stored_state.builder × (stored_state.current ≡ [])
unfolding code_gen_body
code_gen_body-closed_example =
    code_gen_body-closed environment [] one_int storing [] {s = stored_state} refl

abbrev machine : Machine
machine = record { results = λ i. i; slots = λ i. 7 }

abbrev frame : Frame
frame = record { locals = λ i. 7; stack = [] }

abbrev frame_after : Frame
frame_after = record { locals = set (set (λ i. 7) 1 7) 1 12; stack = [] }

code_gen_body-Simulates_example :
    Simulates
      (λ v. 0)
      (context_of environment [] storing (create_locals 2 new_function).0)
      (start_state stored storing [])
      (code_gen_body environment [] one_int storing [])
      machine
      frame_after
      []
unfolding create_locals store_arguments interpret_code select_op_code
code_gen_body-Simulates_example =
    code_gen_body-Simulates (λ v. 0) environment [] one_int storing [] stored machine frame
      frame_after refl refl refl (λ i lt. refl) (λ i lt. refl) refl

-- The first instruction of that method, an `iload_0`.
abbrev storing_context : Context
storing_context = context_of environment [] storing (create_locals 2 new_function).0

abbrev before : State
before = start_state stored storing []

abbrev after : State
after = state_of (step alignment storing_context i_load0 0 before)

step-Effect_example :
    (pops : ℕ) × (pushes : ℕ) × (stack_effect [] before.current i_load0 ≡ ok (pops, pushes))
    × Effect pops pushes before.operand_stack after.operand_stack
    × IsWellFormed storing_context after
unfolding create_locals store_arguments context_of start_state step
step-Effect_example =
    step-Effect alignment storing_context i_load0 0 before {t = after}
      (start-IsWellFormed environment [] one_int storing [] stored refl) refl

-- A long takes two locals.
abbrev long_and_int : List IrType
long_and_int = int_type 64 ∷ int_type 32 ∷ []

abbrev three_locals : List Value
three_locals = (create_locals 3 new_function).0

abbrev with_three : Builder
with_three = (create_locals 3 new_function).1

store_arguments-place_example : store_arguments 0 long_and_int three_locals with_three ≡ (
    if leb (slot_count long_and_int) (length three_locals)
    then ok (place three_locals 0 0 long_and_int with_three)
    else fails assertion)
store_arguments-place_example = store_arguments-place long_and_int three_locals with_three

second_argument :
    map
      (λ b. map (λ i. i.operation) (instructions_of b.insert_block b.blocks))
      (builder_of (store_arguments 0 long_and_int three_locals with_three) ∷ [])
    ≡ (alloca
        ∷ alloca
        ∷ alloca
        ∷ store (argument 0) (result 0)
        ∷ store (argument 1) (result 2)
        ∷ [])
      ∷ []
unfolding create_locals store_arguments instructions_of new_function
second_argument = refl

pop_arguments-push_all_example :
    pop_arguments 2 [] (push_all (int_constant 32 1 ∷ int_constant 32 2 ∷ []) nothing)
    ≡ ok (int_constant 32 1 ∷ int_constant 32 2 ∷ [], nothing)
pop_arguments-push_all_example =
    pop_arguments-push_all (int_constant 32 1 ∷ int_constant 32 2 ∷ []) nothing
