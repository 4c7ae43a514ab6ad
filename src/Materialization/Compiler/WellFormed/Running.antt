-- ===== src/Materialization/Compiler/WellFormed/Running.antt =====
-- A part of the compiler that keeps the function closed, has an effect on the operand stack, and
-- takes bytes only off the front of what is left of the code; and how such parts are put together.
use jllvm.Base.{
  ℕ, suc, ◌+◌, ◌-◌, ◌≤◌, ◌<◌, ◌≡◌, ◌≢◌, refl, ap, length, Outcome, ok, fails, out_of_fuel, ◌>>=◌,
  arith,
}
use jllvm.Materialization.Compiler.Function.{Value, Operation, emit}
use jllvm.Materialization.Compiler.State.{Context, State, push, create}
use jllvm.Materialization.Compiler.WellFormed.{IsKnown, IsClosed, IsWellFormed}
use jllvm.Materialization.Compiler.WellFormed.Effects.{Effect, Effect-trans, Effect-refl}
use jllvm.Materialization.Compiler.WellFormed.Emitting.{
  All-weaken, IsKnown-le, emit-IsClosedBuilder,
}

pub record Runs (context : Context) (pops pushes : ℕ) (s t : State) : Type 0 where
  pub effect : Effect pops pushes s.operand_stack t.operand_stack
  pub current_le : length t.current ≤ length s.current
  pub values_le : s.builder.value_count ≤ t.builder.value_count
  pub blocks_le : s.builder.block_count ≤ t.builder.block_count
  pub well_formed : IsWellFormed context t

abbrev RunsTo : Context → ℕ → ℕ → State → Outcome State → Type 0
RunsTo context pops pushes s (fails f) = f ≢ out_of_fuel
RunsTo context pops pushes s (ok t) = Runs context pops pushes s t

abbrev RunsToValue {ℓ} :
    {A : Type ℓ} → Context → (State → A → Type 0) → ℕ → ℕ → State → Outcome (A × State) → Type 0
RunsToValue context P pops pushes s (fails f) = f ≢ out_of_fuel
RunsToValue context P pops pushes s (ok (a, t)) = Runs context pops pushes s t × P t a

-- A part that runs, if it ends well; it never lacks the rounds for a loop.
pub record Steps (context : Context) (pops pushes : ℕ) (s : State) (o : Outcome State)
    : Type 0 where
  pub runs : RunsTo context pops pushes s o

-- The same with a value, of which `P` holds.
pub record Yields {ℓ} {A : Type ℓ} (context : Context) (P : State → A → Type 0) (pops pushes : ℕ)
    (s : State) (o : Outcome (A × State)) : Type 0 where
  pub runs : RunsToValue context P pops pushes s o

-- The value has been emitted.
abbrev pub Known : State → Value → Type 0
Known t v = IsKnown t.builder.value_count v

-- The block is one of the function.
abbrev pub Target : State → ℕ → Type 0
Target t block = block < t.builder.block_count

module _ {context : Context} where
  pub Runs-refl : (s : State) → IsWellFormed context s → Runs context 0 0 s s
  Runs-refl s h = record {
    effect = Effect-refl s.operand_stack;
    current_le = omega arith;
    values_le = omega arith;
    blocks_le = omega arith;
    well_formed = h;
  }

  pub Runs-trans :
      {pops pushes pops' pushes' : ℕ} {s t u : State}
      → Runs context pops pushes s t
      → Runs context pops' pushes' t u
      → Runs context (pops + (pops' - pushes)) (pushes' + (pushes - pops')) s u
  Runs-trans a b = record {
    effect = Effect-trans a.effect b.effect;
    current_le = omega (arith, a.current_le, b.current_le);
    values_le = omega (arith, a.values_le, b.values_le);
    blocks_le = omega (arith, a.blocks_le, b.blocks_le);
    well_formed = b.well_formed;
  }

  pub Steps-eq :
      {pops pushes : ℕ} {s : State} {o : Outcome State} (pops' pushes' : ℕ)
      → pops ≡ pops'
      → pushes ≡ pushes'
      → Steps context pops pushes s o
      → Steps context pops' pushes' s o
  Steps-eq pops' pushes' p q h = rw (← p, ← q) h

  pub Yields-eq {ℓ} :
      {A : Type ℓ} {P : State → A → Type 0} {pops pushes : ℕ} {s : State} {o : Outcome (A × State)}
      (pops' pushes' : ℕ)
      → pops ≡ pops'
      → pushes ≡ pushes'
      → Yields context P pops pushes s o
      → Yields context P pops' pushes' s o
  Yields-eq pops' pushes' p q h = rw (← p, ← q) h

  -- What follows a part that is run.
  pub then_Steps :
      {pops pushes pops' pushes' : ℕ} {s t : State} (o : Outcome State)
      → Runs context pops pushes s t
      → Steps context pops' pushes' t o
      → Steps context (pops + (pops' - pushes)) (pushes' + (pushes - pops')) s o
  then_Steps (fails f) a b = record { runs = b.runs }
  then_Steps (ok u) a b = record { runs = Runs-trans a b.runs }

  pub then_Yields {ℓ} :
      {A : Type ℓ} (P : State → A → Type 0) {pops pushes pops' pushes' : ℕ} {s t : State}
      (o : Outcome (A × State))
      → Runs context pops pushes s t
      → Yields context P pops' pushes' t o
      → Yields context P (pops + (pops' - pushes)) (pushes' + (pushes - pops')) s o
  then_Yields P (fails f) a b = record { runs = b.runs }
  then_Yields P (ok (x, u)) a b = record { runs = (Runs-trans a b.runs.0, b.runs.1) }

  pub bind_Steps {ℓ} :
      {A : Type ℓ} (P : State → A → Type 0) {pops pushes : ℕ} (pops' pushes' : ℕ) {s : State}
      (o : Outcome (A × State)) (next : A × State → Outcome State)
      → Yields context P pops pushes s o
      → ((a : A) (t : State)
          → Runs context pops pushes s t
          → P t a
          → Steps context pops' pushes' t (next (a, t)))
      → Steps context (pops + (pops' - pushes)) (pushes' + (pushes - pops')) s (o >>= next)
  bind_Steps P pops' pushes' (fails f) next h k = record { runs = h.runs }
  bind_Steps P pops' pushes' (ok (a, t)) next h k =
      then_Steps (next (a, t)) h.runs.0 (k a t h.runs.0 h.runs.1)

  pub bind_Yields {ℓ κ} :
      {A : Type ℓ} {B : Type κ} (P : State → A → Type 0) (Q : State → B → Type 0) {pops pushes : ℕ}
      (pops' pushes' : ℕ) {s : State} (o : Outcome (A × State))
      (next : A × State → Outcome (B × State))
      → Yields context P pops pushes s o
      → ((a : A) (t : State)
          → Runs context pops pushes s t
          → P t a
          → Yields context Q pops' pushes' t (next (a, t)))
      → Yields context Q (pops + (pops' - pushes)) (pushes' + (pushes - pops')) s (o >>= next)
  bind_Yields P Q pops' pushes' (fails f) next h k = record { runs = h.runs }
  bind_Yields P Q pops' pushes' (ok (a, t)) next h k =
      then_Yields Q (next (a, t)) h.runs.0 (k a t h.runs.0 h.runs.1)

  -- A part that only reads.
  pub read_Steps {ℓ} :
      {A : Type ℓ} (pops pushes : ℕ) {s : State} (o : Outcome A) (next : A → Outcome State)
      → o ≢ fails out_of_fuel
      → ((a : A) → o ≡ ok a → Steps context pops pushes s (next a))
      → Steps context pops pushes s (o >>= next)
  read_Steps pops pushes (fails f) next fine k = record { runs = λ e. fine (ap fails e) }
  read_Steps pops pushes (ok a) next fine k = k a refl

  pub read_Yields {ℓ κ} :
      {A : Type ℓ} {B : Type κ} (P : State → B → Type 0) (pops pushes : ℕ) {s : State}
      (o : Outcome A) (next : A → Outcome (B × State))
      → o ≢ fails out_of_fuel
      → ((a : A) → o ≡ ok a → Yields context P pops pushes s (next a))
      → Yields context P pops pushes s (o >>= next)
  read_Yields P pops pushes (fails f) next fine k = record { runs = λ e. fine (ap fails e) }
  read_Yields P pops pushes (ok a) next fine k = k a refl

  -- The parts that all instructions are made of.
  pub create-Runs :
      (op : Operation) (s : State)
      → IsWellFormed context s
      → IsClosed s.builder.value_count s.builder.block_count op
      → Runs context 0 0 s (create op s).1 × Known (create op s).1 (create op s).0
  unfolding create emit
  create-Runs op s h closed =
      let n = s.builder.value_count in
      let le : n ≤ suc n = omega arith in
      (
        record {
          effect = Effect-refl s.operand_stack;
          current_le = omega arith;
          values_le = omega arith;
          blocks_le = omega arith;
          well_formed = (
            emit-IsClosedBuilder op s.builder h.0 closed,
            All-weaken (IsKnown n) (IsKnown (suc n)) s.operand_stack (IsKnown-le le) h.1,
            h.2,
            All-weaken (IsKnown n) (IsKnown (suc n)) context.locals (IsKnown-le le) h.3,
          );
        },
        omega arith,
      )

  pub push-Runs :
      (v : Value) (s : State) → IsWellFormed context s → Known s v → Runs context 0 1 s (push v s)
  unfolding push
  push-Runs v s h known = record {
    effect = record { enough = omega arith; pushed = omega arith; rest_stays = refl };
    current_le = omega arith;
    values_le = omega arith;
    blocks_le = omega arith;
    well_formed = (h.0, (known, h.1), h.2, h.3);
  }
