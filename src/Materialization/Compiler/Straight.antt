-- ===== src/Materialization/Compiler/Straight.antt =====
-- What straight-line code means: on one side the instructions that the compiler has emitted, as LLVM
-- documents them, and on the other side the byte code on a frame, as the instruction set has it. Both
-- are about constants, locals and the operand stack; a number stands for its bits, a reference for
-- its address.
pub mod Appended
pub mod Simulation
pub mod Instructions
pub mod Increment
pub mod Code
pub mod Whole
pub mod Method
use jllvm.Base.{
  ℕ, zero, suc, ◌+◌, ◌-◌, ◌%◌, ◌^◌, ◌≤◌, ◌<◌, ◌≡◌, Bool, true, false, List, [], ◌∷◌, Option, none,
  some, if◌then◌else◌, ltb, ◌==◌,
}
use jllvm.Materialization.Types.{IrType, int_type}
use jllvm.Materialization.Compiler.OpCodes.{
  OpCodes, a_const_null, a_load, a_load0, a_load1, a_load2, a_load3, a_store, a_store0, a_store1,
  a_store2, a_store3, dup, i_const_m1, i_const0, i_const1, i_const2, i_const3, i_const4, i_const5,
  i_load, i_load0, i_load1, i_load2, i_load3, i_inc, i_store, i_store0, i_store1, i_store2,
  i_store3, pop,
}
use jllvm.Materialization.Compiler.OpCodes.Decoding.{op_codes, select_op_code}
use jllvm.Materialization.Compiler.Function.{
  Value, result, int_constant, null_reference, Operation, load, store, add, Instruction,
}

-- The results of the instructions by their numbers, and the memory behind the allocas.
pub record Machine : Type 0 where
  pub results : ℕ → ℕ
  pub slots : ℕ → ℕ

abbrev pub set : (ℕ → ℕ) → ℕ → ℕ → ℕ → ℕ
set f key value at = if at == key then value else f at

-- What a load of a type keeps of a slot.
abbrev pub cut : IrType → ℕ → ℕ
cut (int_type w) n = n % 2 ^ w
cut _ n = n

-- The addresses of classes, fields and functions, and the arguments, are those of the process.
module _ (constants : Value → ℕ) where
  unfoldable pub value_of : Machine → Value → ℕ
  value_of m (result number) = m.results number
  value_of m (int_constant width bits) = bits
  value_of m null_reference = 0
  value_of m v = constants v

  unfoldable pub execute : ℕ → Operation → Machine → Option Machine
  unfolding value_of
  execute number (load type pointer) m =
      some (record m { results = set m.results number (cut type (m.slots (value_of m pointer))) })
  execute number (store value pointer) m =
      some (record m { slots = set m.slots (value_of m pointer) (value_of m value) })
  execute number (add a b) m =
      some (record m { results = set m.results number ((value_of m a + value_of m b) % 2 ^ 32) })
  execute number _ m = none

  unfoldable pub run : List Instruction → Machine → Option Machine
  unfolding execute
  run [] m = some m
  run (i ∷ is) m = elim (execute i.number i.operation m) [ none ↦ none | some m' ↦ run is m' ]

-- A frame of the abstract machine for byte code.
pub record Frame : Type 0 where
  pub locals : ℕ → ℕ
  pub stack : List ℕ

unfoldable pub push_onto : ℕ → Frame → Option Frame
push_onto n f = some (record f { stack = n ∷ f.stack })

unfoldable pub load_from : IrType → ℕ → ℕ → Frame → Option Frame
unfolding push_onto
load_from type limit index f =
    if ltb index limit then push_onto (cut type (f.locals index)) f else none

unfoldable pub store_to : ℕ → ℕ → Frame → List ℕ → Option Frame
store_to limit index f [] = none
store_to limit index f (n ∷ stack) =
    if ltb index limit then some (record { locals = set f.locals index n; stack = stack }) else none

unfoldable pub duplicate : Frame → List ℕ → Option Frame
duplicate f [] = none
duplicate f (n ∷ stack) = some (record f { stack = n ∷ n ∷ stack })

unfoldable pub drop_top : Frame → List ℕ → Option Frame
drop_top f [] = none
drop_top f (n ∷ stack) = some (record f { stack = stack })

-- The number in a byte with a sign, in 32 bits.
abbrev pub signed_byte : ℕ → ℕ
signed_byte n = if ltb n 128 then n else n + 4294967040

unfoldable pub increment : ℕ → ℕ → ℕ → Frame → Option Frame
increment limit index by f =
    if ltb index limit
    then some (record f {
      locals = set f.locals index ((f.locals index % 2 ^ 32 + signed_byte by) % 2 ^ 32);
    })
    else none

-- An instruction with one byte for an index behind it.
unfoldable pub indexed : (ℕ → Frame → Option Frame) → List ℕ → Frame → Option (Frame × List ℕ)
indexed act [] f = none
indexed act (index ∷ rest) f = elim (act index f) [ none ↦ none | some f' ↦ some (f', rest) ]

unfoldable pub plain : Option Frame → List ℕ → Option (Frame × List ℕ)
plain none rest = none
plain (some f) rest = some (f, rest)

unfoldable pub increment_by : ℕ → List ℕ → Frame → Option (Frame × List ℕ)
unfolding increment plain
increment_by limit (index ∷ by ∷ rest) f = plain (increment limit index by f) rest
increment_by limit _ f = none

-- An instruction, with the bytes behind it, in a method with `limit` locals.
unfoldable pub interpret : ℕ → OpCodes → List ℕ → Frame → Option (Frame × List ℕ)
unfolding push_onto load_from store_to duplicate drop_top indexed plain increment_by
interpret limit a_const_null rest f = plain (push_onto 0 f) rest
interpret limit i_const_m1 rest f = plain (push_onto 4294967295 f) rest
interpret limit i_const0 rest f = plain (push_onto 0 f) rest
interpret limit i_const1 rest f = plain (push_onto 1 f) rest
interpret limit i_const2 rest f = plain (push_onto 2 f) rest
interpret limit i_const3 rest f = plain (push_onto 3 f) rest
interpret limit i_const4 rest f = plain (push_onto 4 f) rest
interpret limit i_const5 rest f = plain (push_onto 5 f) rest
interpret limit a_load rest f = indexed (load_from IrType.reference limit) rest f
interpret limit a_load0 rest f = plain (load_from IrType.reference limit 0 f) rest
interpret limit a_load1 rest f = plain (load_from IrType.reference limit 1 f) rest
interpret limit a_load2 rest f = plain (load_from IrType.reference limit 2 f) rest
interpret limit a_load3 rest f = plain (load_from IrType.reference limit 3 f) rest
interpret limit i_load rest f = indexed (load_from (int_type 32) limit) rest f
interpret limit i_load0 rest f = plain (load_from (int_type 32) limit 0 f) rest
interpret limit i_load1 rest f = plain (load_from (int_type 32) limit 1 f) rest
interpret limit i_load2 rest f = plain (load_from (int_type 32) limit 2 f) rest
interpret limit i_load3 rest f = plain (load_from (int_type 32) limit 3 f) rest
interpret limit a_store rest f = indexed (λ index f. store_to limit index f f.stack) rest f
interpret limit a_store0 rest f = plain (store_to limit 0 f f.stack) rest
interpret limit a_store1 rest f = plain (store_to limit 1 f f.stack) rest
interpret limit a_store2 rest f = plain (store_to limit 2 f f.stack) rest
interpret limit a_store3 rest f = plain (store_to limit 3 f f.stack) rest
interpret limit i_store rest f = indexed (λ index f. store_to limit index f f.stack) rest f
interpret limit i_store0 rest f = plain (store_to limit 0 f f.stack) rest
interpret limit i_store1 rest f = plain (store_to limit 1 f f.stack) rest
interpret limit i_store2 rest f = plain (store_to limit 2 f f.stack) rest
interpret limit i_store3 rest f = plain (store_to limit 3 f f.stack) rest
interpret limit i_inc rest f = increment_by limit rest f
interpret limit dup rest f = plain (duplicate f f.stack) rest
interpret limit pop rest f = plain (drop_top f f.stack) rest
interpret limit _ rest f = none

-- Code to its end, on fuel for its instructions.
unfoldable pub interpret_code : ℕ → ℕ → List ℕ → Frame → Option Frame
unfolding interpret
interpret_code limit fuel [] f = some f
interpret_code limit zero (b ∷ bytes) f = none
interpret_code limit (suc fuel) (b ∷ bytes) f = elim (select_op_code b op_codes) [
  | none ↦ none
  | some op ↦ elim (interpret limit op bytes f) [
    | none ↦ none
    | some (f', rest) ↦ interpret_code limit fuel rest f'
  ]
]
