-- ===== src/Materialization/Compiler/WellFormed.antt =====
-- When what the compiler has emitted is closed: each operand is the number of an instruction that
-- was emitted, each branch goes to a block of the function, and each block has a name of its own.
pub mod Effects
pub mod Ending
pub mod Emitting
pub mod Targets
pub mod Running
pub mod Parts
pub mod Stubs
pub mod Instructions
pub mod Objects
pub mod Allocations
pub mod Calls
pub mod StackEffects
pub mod Switch
pub mod Body
pub mod Emitted
use mathlib.Core.Logic.{◌⊎◌, inl, inr}
use jllvm.Base.{
  ℕ, ◌==◌, ◌||◌, Bool, true, false, ◌≤◌, ◌<◌, ◌≡◌, List, [], ◌∷◌, All, length, Outcome, ok, fails,
  arith,
}
use jllvm.Materialization.Compiler.Function.{
  Value, result, Operation, alloca, load, store, element_address, length_address, byte_address, add,
  mul, icmp_sge, call, ret, ret_void, br, cond_br, Instruction, Block, Builder,
}
use jllvm.Materialization.Compiler.State.{Context, State}

-- A value that is there when `n` instructions have been numbered.
abbrev pub IsKnown : ℕ → Value → Type 0
IsKnown n (result number) = number < n
IsKnown n _ = Unit

abbrev pub IsClosed : ℕ → ℕ → Operation → Type 0
IsClosed n blocks alloca = Unit
IsClosed n blocks (load type pointer) = IsKnown n pointer
IsClosed n blocks (store value pointer) = IsKnown n value × IsKnown n pointer
IsClosed n blocks (element_address type base index) = IsKnown n base × IsKnown n index
IsClosed n blocks (length_address type base) = IsKnown n base
IsClosed n blocks (byte_address base index) = IsKnown n base × IsKnown n index
IsClosed n blocks (add a b) = IsKnown n a × IsKnown n b
IsClosed n blocks (mul a b) = IsKnown n a × IsKnown n b
IsClosed n blocks (icmp_sge a b) = IsKnown n a × IsKnown n b
IsClosed n blocks (call type callee args) = IsKnown n callee × All (IsKnown n) args
IsClosed n blocks (ret value) = IsKnown n value
IsClosed n blocks ret_void = Unit
IsClosed n blocks (br target) = target < blocks
IsClosed n blocks (cond_br value a b) = IsKnown n value × (a < blocks) × (b < blocks)

abbrev pub IsClosedInstruction : ℕ → ℕ → Instruction → Type 0
IsClosedInstruction n blocks i = (i.number < n) × IsClosed n blocks i.operation

abbrev pub IsClosedBlock : ℕ → ℕ → Block → Type 0
IsClosedBlock n blocks b = (b.name < blocks) × All (IsClosedInstruction n blocks) b.instructions

abbrev pub IsNamed : ℕ → List Block → Type 0
IsNamed name [] = ⊥
IsNamed name (b ∷ rest) = (b.name ≡ name) ⊎ IsNamed name rest

-- The names are the numbers below the count, each once: there are as many blocks.
abbrev pub IsNumbered : ℕ → List Block → Type 0
IsNumbered count blocks =
    (length blocks ≡ count) × ((name : ℕ) → name < count → IsNamed name blocks)

-- Whether there is an instruction with a number.
abbrev pub is_held_in : ℕ → List Instruction → Bool
is_held_in number [] = false
is_held_in number (i ∷ rest) = i.number == number || is_held_in number rest

abbrev pub is_held : ℕ → List Block → Bool
is_held number [] = false
is_held number (b ∷ rest) = is_held_in number b.instructions || is_held number rest

-- Each number below the count, as every operand is one, is that of an instruction in a block.
abbrev pub IsClosedBuilder : Builder → Type 0
IsClosedBuilder b =
    All (IsClosedBlock b.value_count b.block_count) b.blocks
    × IsNumbered b.block_count b.blocks
    × (b.insert_block < b.block_count)
    × ((number : ℕ) → number < b.value_count → is_held number b.blocks ≡ true)

abbrev pub HasTarget : ℕ → ℕ × ℕ → Type 0
HasTarget blocks (offset, block) = block < blocks

abbrev pub IsWellFormed : Context → State → Type 0
IsWellFormed context s =
    IsClosedBuilder s.builder
    × All (IsKnown s.builder.value_count) s.operand_stack
    × All (HasTarget s.builder.block_count) s.basic_blocks
    × All (IsKnown s.builder.value_count) context.locals
