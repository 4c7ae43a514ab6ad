-- ===== src/Materialization/Compiler/Straight/Simulation.antt =====
-- When a machine that has run the emitted instructions agrees with a frame, and what keeps that.
use jllvm.Base.{
  ℕ, zero, suc, ◌≤◌, ◌<◌, ◌≡◌, refl, ◌∙◌, ap, true, List, [], ◌∷◌, ◌++◌, map, some, ◌==◌, ltb,
  ltb→lt, length, get_elem?, All, if◌then◌else◌, Outcome, ok, subst, arith,
}
use jllvm.Materialization.Compiler.Function.{Value, result, Instruction}
use jllvm.Materialization.Compiler.State.{Context, State}
use jllvm.Materialization.Compiler.WellFormed.{IsKnown, IsWellFormed}
use jllvm.Materialization.Compiler.Straight.{Machine, Frame, set, value_of, run}
use jllvm.Materialization.Compiler.Straight.Appended.{current_block}

-- The operand stack has the values of the frame's, each local is behind its alloca (by its number),
-- and the slots have the locals.
pub record Agrees (constants : Value → ℕ) (context : Context) (s : State) (m : Machine) (f : Frame)
    : Type 0 where
  pub stack : map (value_of constants m) s.operand_stack ≡ f.stack
  pub addresses :
      (i : ℕ) (local : Value)
      → get_elem? context.locals i ≡ some local
      → value_of constants m local ≡ i
  pub contents : (i : ℕ) → i < length context.locals → m.slots i ≡ f.locals i

-- An instruction that compiles to instructions behind those of the block, and running these gives
-- what the frame has become.
pub record Simulates (constants : Value → ℕ) (context : Context) (s : State) (o : Outcome State)
    (m : Machine) (f' : Frame) (rest : List ℕ) : Type 0 where
  pub state : State
  pub compiled : o ≡ ok state
  pub read : state.current ≡ rest
  pub same_block : state.builder.insert_block ≡ s.builder.insert_block
  pub same_targets : state.basic_blocks ≡ s.basic_blocks
  pub emitted : List Instruction
  pub appended : current_block state.builder ≡ current_block s.builder ++ emitted
  pub machine : Machine
  pub ran : run constants emitted m ≡ some machine
  pub agrees : Agrees constants context state machine f'

module _ (constants : Value → ℕ) where
  set-other : (f : ℕ → ℕ) (key value at : ℕ) → at < key → set f key value at ≡ f at
  set-other f key value at lt = ground arith

  -- A new result is not one that a value had.
  pub value_of-fresh :
      (n key new : ℕ) (m : Machine) (v : Value)
      → IsKnown n v
      → n ≤ key
      → value_of constants (record m { results = set m.results key new }) v ≡ value_of constants m v
  unfolding value_of
  value_of-fresh n key new m (result number) h le =
      set-other m.results key new number (omega (arith, h, le))
  value_of-fresh n key new m (Value.argument i) h le = refl
  value_of-fresh n key new m (Value.int_constant w b) h le = refl
  value_of-fresh n key new m Value.null_reference h le = refl
  value_of-fresh n key new m (Value.class_constant c) h le = refl
  value_of-fresh n key new m (Value.static_constant c i) h le = refl
  value_of-fresh n key new m (Value.function_symbol t) h le = refl

  pub values_of-fresh :
      (n key new : ℕ) (m : Machine) (vs : List Value)
      → All (IsKnown n) vs
      → n ≤ key
      → map (value_of constants (record m { results = set m.results key new })) vs
        ≡ map (value_of constants m) vs
  values_of-fresh n key new m [] h le = refl
  values_of-fresh n key new m (v ∷ vs) h le =
      let first = value_of-fresh n key new m v h.0 le in
      let rest = values_of-fresh n key new m vs h.1 le in cc

  -- The memory does not matter for what a value is.
  pub value_of-slots :
      (m : Machine) (slots : ℕ → ℕ) (v : Value)
      → value_of constants (record m { slots = slots }) v ≡ value_of constants m v
  unfolding value_of
  value_of-slots m slots (result number) = refl
  value_of-slots m slots (Value.argument i) = refl
  value_of-slots m slots (Value.int_constant w b) = refl
  value_of-slots m slots Value.null_reference = refl
  value_of-slots m slots (Value.class_constant c) = refl
  value_of-slots m slots (Value.static_constant c i) = refl
  value_of-slots m slots (Value.function_symbol t) = refl

  pub values_of-slots :
      (m : Machine) (slots : ℕ → ℕ) (vs : List Value)
      → map (value_of constants (record m { slots = slots })) vs ≡ map (value_of constants m) vs
  values_of-slots m slots [] = refl
  values_of-slots m slots (v ∷ vs) =
      let first = value_of-slots m slots v in let rest = values_of-slots m slots vs in cc

All-get {ℓ κ} :
    {A : Type ℓ} (P : A → Type κ) (xs : List A) (i : ℕ) (a : A)
    → All P xs
    → get_elem? xs i ≡ some a
    → P a
All-get P [] i a h e = cc
All-get P (x ∷ xs) zero a h e = let same : x ≡ a = cc in subst P same h.0
All-get P (x ∷ xs) (suc i) a h e = All-get P xs i a h.1 e

pub get_elem?-lt {ℓ} :
    {A : Type ℓ} (xs : List A) (i : ℕ)
    → ltb i (length xs) ≡ true
    → (a : A) × (get_elem? xs i ≡ some a)
get_elem?-lt [] i h = absurd (omega (arith, ltb→lt i 0 h))
get_elem?-lt (x ∷ xs) zero h = (x, refl)
get_elem?-lt (x ∷ xs) (suc i) h = get_elem?-lt xs i (ground (arith, h))

-- What a new result and what a new content of a slot leave.
module _ (constants : Value → ℕ) {context : Context} {s : State} {m : Machine} {f : Frame} where
  pub Agrees-result :
      (key new : ℕ)
      → IsWellFormed context s
      → s.builder.value_count ≤ key
      → Agrees constants context s m f
      → Agrees constants context s (record m { results = set m.results key new }) f
  Agrees-result key new h le a = record {
    stack =
        values_of-fresh constants s.builder.value_count key new m s.operand_stack h.1 le ∙ a.stack;
    addresses = λ i local e.
        value_of-fresh constants s.builder.value_count key new m local
          (All-get (IsKnown s.builder.value_count) context.locals i local h.3 e) le
        ∙ a.addresses i local e;
    contents = a.contents;
  }

  pub Agrees-content :
      (key new : ℕ)
      → Agrees constants context s m f
      → Agrees constants context s
          (record m { slots = set m.slots key new })
          (record f { locals = set f.locals key new })
  Agrees-content key new a = record {
    stack = values_of-slots constants m (set m.slots key new) s.operand_stack ∙ a.stack;
    addresses =
        λ i local e. value_of-slots constants m (set m.slots key new) local ∙ a.addresses i local e;
    contents = λ i lt. ap (λ old. if i == key then new else old) (a.contents i lt);
  }
