-- ===== src/Materialization/Compiler/Function.antt =====
-- src/jllvm/materialization/ByteCodeCompileLayer.cpp: what `codeGenBody` says to `llvm::IRBuilder`.
-- The builder belongs to LLVM; the model keeps the calls of it as the instructions of the basic
-- blocks, with a number for each result, and does not fold constants. The blocks stand in the order
-- they have in the function.
use jllvm.Base.{
  ℕ, suc, List, [], ◌∷◌, ◌++◌, Option, none, some, if◌then◌else◌, ◌==◌, Outcome, ok, fails,
  assertion, ◌>>=◌,
}
use jllvm.Object.ClassObject.{ClassRef}
use jllvm.Materialization.Types.{IrType, FunctionType}

-- `static_constant` is the address of the field with this index of a class object; an integer has its
-- width and its bits.
pub data Value : Type 0 where
  argument result : ℕ → Value
  int_constant : ℕ → ℕ → Value
  null_reference : Value
  class_constant : ClassRef → Value
  static_constant : ClassRef → ℕ → Value
  function_symbol : List ℕ → Value

-- The three `CreateGEP`: of an element and of the length behind the header of an array with this
-- type of elements, and of a byte.
pub data Operation : Type 0 where
  alloca : Operation
  load : IrType → Value → Operation
  store : Value → Value → Operation
  element_address : IrType → Value → Value → Operation
  length_address : IrType → Value → Operation
  byte_address : Value → Value → Operation
  add mul icmp_sge : Value → Value → Operation
  call : FunctionType → Value → List Value → Operation
  ret : Value → Operation
  ret_void : Operation
  br : ℕ → Operation
  cond_br : Value → ℕ → ℕ → Operation

pub record Instruction : Type 0 where
  pub number : ℕ
  pub operation : Operation

pub record Block : Type 0 where
  pub name : ℕ
  pub instructions : List Instruction

pub record Builder : Type 0 where
  pub blocks : List Block
  pub block_count : ℕ
  pub value_count : ℕ
  pub insert_block : ℕ

-- The entry block, where the builder starts.
unfoldable pub new_function : Builder
new_function = record {
  blocks = record { name = 0; instructions = [] } ∷ [];
  block_count = 1;
  value_count = 0;
  insert_block = 0;
}

unfoldable pub append_instruction : ℕ → Instruction → List Block → List Block
append_instruction name i [] = []
append_instruction name i (block ∷ rest) =
    let later = append_instruction name i rest in
    if block.name == name
    then record block { instructions = block.instructions ++ i ∷ [] } ∷ rest
    else block ∷ later

unfoldable pub instructions_of : ℕ → List Block → List Instruction
instructions_of name [] = []
instructions_of name (block ∷ rest) =
    let later = instructions_of name rest in
    if block.name == name then block.instructions else later

-- A `Create...` of the builder: at the end of the block it stands in.
unfoldable pub emit : Operation → Builder → Value × Builder
unfolding append_instruction
emit operation builder = (
  result builder.value_count,
  record builder {
    blocks =
        append_instruction builder.insert_block
          (record { number = builder.value_count; operation = operation }) builder.blocks;
    value_count = suc builder.value_count;
  },
)

-- `BasicBlock::Create` without a place: the last block of the function.
unfoldable pub create_block : Builder → ℕ × Builder
create_block builder = (
  builder.block_count,
  record builder {
    blocks = builder.blocks ++ record { name = builder.block_count; instructions = [] } ∷ [];
    block_count = suc builder.block_count;
  },
)

-- What stands up to an instruction, and what stands behind it.
unfoldable pub cut_behind : ℕ → List Instruction → Option (List Instruction × List Instruction)
cut_behind number [] = none
cut_behind number (i ∷ rest) =
    let later = cut_behind number rest in
    if i.number == number
    then some (i ∷ [], rest)
    else elim later [ none ↦ none | some (head, tail) ↦ some (i ∷ head, tail) ]

-- `splice` with the new block and its branch: the block that has the instruction keeps what stands
-- behind it, and a new block before it takes the rest. `getNextNode` is null at the end of a block.
unfoldable pub split_blocks : ℕ → ℕ → ℕ → List Block → Outcome (ℕ × List Block)
unfolding cut_behind
split_blocks after name number [] = fails assertion
split_blocks after name number (block ∷ rest) =
    let later = split_blocks after name number rest in
    elim (cut_behind after block.instructions) [
      | none ↦ do (original, blocks) ← later; ok (original, block ∷ blocks)
      | some (head, []) ↦ fails assertion
      | some (head, next ∷ tail) ↦ ok (
        block.name,
        record {
          name = name;
          instructions = head ++ record { number = number; operation = br block.name } ∷ [];
        }
            ∷ record block { instructions = next ∷ tail }
            ∷ rest,
      )
    ]

-- Splitting behind an instruction. The builder stays at the end of the block it stands in.
unfoldable pub split : ℕ → Builder → Outcome (ℕ × Builder)
unfolding split_blocks
split after builder = do
  (original, blocks) ← split_blocks after builder.block_count builder.value_count builder.blocks
  ok (
    original,
    record builder {
      blocks = blocks;
      block_count = suc builder.block_count;
      value_count = suc builder.value_count;
    },
  )
