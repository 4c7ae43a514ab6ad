-- ===== src/Materialization/Compiler/Arguments.antt =====
-- src/jllvm/materialization/ByteCodeCompileLayer.cpp: the locals of a function, and its arguments in
-- them.
pub mod Placed
use jllvm.Base.{
  ℕ, zero, suc, Bool, true, false, List, [], ◌∷◌, ◌==◌, Outcome, ok, fails, assertion, ◌>>=◌,
}
use jllvm.Materialization.Types.{IrType, double_type, int_type}
use jllvm.Materialization.Compiler.Function.{Value, argument, alloca, store, Builder, emit}

-- The allocas, by their values.
unfoldable pub create_locals : ℕ → Builder → List Value × Builder
unfolding emit
create_locals zero builder = ([], builder)
create_locals (suc n) builder =
    let (local, builder) = emit alloca builder in
    let (locals, builder) = create_locals n builder in (local ∷ locals, builder)

-- Whether an argument takes two locals.
unfoldable pub is_wide_type : IrType → Bool
is_wide_type double_type = true
is_wide_type (int_type w) = w == 64
is_wide_type _ = false

-- Storing the arguments; the list of locals is what is left behind `nextLocal`. Moving past the end
-- is undefined.
unfoldable pub skip_local : Bool → List Value → Outcome (List Value)
skip_local false locals = ok locals
skip_local true [] = fails assertion
skip_local true (local ∷ rest) = ok rest

unfoldable pub store_arguments : ℕ → List IrType → List Value → Builder → Outcome Builder
unfolding emit is_wide_type skip_local
store_arguments n [] locals builder = ok builder
store_arguments n (type ∷ types) [] builder = fails assertion
store_arguments n (type ∷ types) (local ∷ locals) builder = do
  let (value, builder) = emit (store (argument n) local) builder
  locals ← skip_local (is_wide_type type) locals
  store_arguments (suc n) types locals builder
