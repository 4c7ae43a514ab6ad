-- ===== src/Materialization/Compiler/Straight/Increment.antt =====
-- `IInc`, the one instruction of straight-line code that is compiled to several.
use mathlib.Core.Logic.{inl, inr}
use jllvm.Base.{
  ℕ, suc, ◌+◌, ◌*◌, le→leb, ◌%◌, ◌^◌, ◌<◌, ◌≡◌, refl, ◌∙◌, ap, true, List, [], ◌∷◌, ◌++◌,
  append_assoc, some, ltb, ltb→lt, length, get_elem?, ok, ◌>>=◌, Bool-cases, arith,
}
use jllvm.Support.Bytes.{consume, byte_swap}
use jllvm.Materialization.Types.{int_type}
use jllvm.Materialization.Compiler.Function.{Value, result, load, store, add, Instruction, emit}
use jllvm.Materialization.Compiler.State.{Context, State, create, operand, get_local}
use jllvm.Materialization.Compiler.Steps.{perform, int32, step_i_inc, sign_extend}
use jllvm.Materialization.Compiler.WellFormed.{IsWellFormed}
use jllvm.Materialization.Compiler.WellFormed.Running.{Known, create-Runs}
use jllvm.Materialization.Compiler.WellFormed.Parts.{get_local-Known}
use jllvm.Materialization.Compiler.Straight.{
  Machine, Frame, set, signed_byte, value_of, execute, run,
}
use jllvm.Materialization.Compiler.Straight.Appended.{current_block, emit-current_block}
use jllvm.Materialization.Compiler.Straight.Simulation.{
  Agrees, Simulates, get_elem?-lt, Agrees-result, Agrees-content,
}
use jllvm.Materialization.Compiler.Straight.Instructions.{set-same, get_local-ok}

consume_byte : (b : ℕ) (rest : List ℕ) → consume 1 (b ∷ rest) ≡ ok (b, rest)
unfolding consume byte_swap
consume_byte b rest =
    let value : 0 * 256 + b ≡ b = omega arith in
    rw (le→leb 1 (suc (length rest)) (omega arith)) (ap (λ v. ok (v, rest)) value)

pub operand_byte :
    (s : State) (b : ℕ) (rest : List ℕ)
    → s.current ≡ b ∷ rest
    → operand 1 s ≡ ok (b, record s { current = rest })
unfolding operand
operand_byte s b rest e =
    let read : consume 1 s.current ≡ ok (b, rest) = ap (consume 1) e ∙ consume_byte b rest in
    rw (read, operand) refl

-- The sum does not depend on where the constant is cut.
sum_cut :
    (by n : ℕ)
    → (n % 2 ^ 32 + sign_extend 8 32 by % 2 ^ 32) % 2 ^ 32 ≡ (n % 2 ^ 32 + signed_byte by) % 2 ^ 32
unfolding sign_extend
sum_cut by n = elim (Bool-cases (ltb by 128)) [
  | inl small ↦ rw small omega arith
  | inr large ↦ rw large omega arith
]

-- The three instructions.
abbrev increments : ℕ → Value → ℕ → List Instruction
increments number local by =
    record { number = number; operation = load (int_type 32) local }
    ∷ record { number = suc number; operation = add (result number) (int32 (sign_extend 8 32 by)) }
    ∷ record { number = suc (suc number); operation = store (result (suc number)) local }
    ∷ []

abbrev incremented : Value → ℕ → State → State
incremented local by s =
    let (value, t) = create (load (int_type 32) local) s in
    let (sum, u) = create (add value (int32 (sign_extend 8 32 by))) t in perform (store sum local) u

one_by_one {ℓ} :
    {A : Type ℓ} (is : List A) (a b c : A)
    → ((is ++ a ∷ []) ++ b ∷ []) ++ c ∷ [] ≡ is ++ a ∷ b ∷ c ∷ []
one_by_one is a b c =
    append_assoc (is ++ a ∷ []) (b ∷ []) (c ∷ []) ∙ append_assoc is (a ∷ []) (b ∷ c ∷ [])

incremented-appended :
    (context : Context) (local : Value) (by : ℕ) (s : State)
    → IsWellFormed context s
    → Known s local
    → current_block (incremented local by s).builder
      ≡ current_block s.builder ++ increments s.builder.value_count local by
unfolding create emit perform int32
incremented-appended context local by s h known =
    let first = create-Runs {context = context} (load (int_type 32) local) s h known in
    let t = (create (load (int_type 32) local) s).1 in
    let sum = add (result s.builder.value_count) (int32 (sign_extend 8 32 by)) in
    let second = create-Runs {context = context} sum t first.0.well_formed (first.1, tt) in
    let u = (create sum t).1 in
    let kept = store (result (suc s.builder.value_count)) local in
    emit-current_block kept u.builder second.0.well_formed.0
    ∙ ap (λ is. is ++ record { number = u.builder.value_count; operation = kept } ∷ [])
        (emit-current_block sum t.builder first.0.well_formed.0
          ∙ ap (λ is. is ++ record { number = t.builder.value_count; operation = sum } ∷ [])
              (emit-current_block (load (int_type 32) local) s.builder h.0))
    ∙ one_by_one (current_block s.builder) _ _ _

module _ (constants : Value → ℕ) {context : Context} {s : State} {m : Machine} {f : Frame} where
  -- What running them gives.
  increments-run :
      (i : ℕ) (local : Value) (by : ℕ)
      → IsWellFormed context s
      → get_elem? context.locals i ≡ some local
      → i < length context.locals
      → Agrees constants context s m f
      → (m' : Machine) × (run constants (increments s.builder.value_count local by) m ≡ some m')
        × Agrees constants context s m'
            (record f { locals = set f.locals i ((f.locals i % 2 ^ 32 + signed_byte by) % 2 ^ 32) })
  unfolding run execute value_of int32
  increments-run i local by h found lt a =
      let n = s.builder.value_count in
      let old = m.slots (value_of constants m local) % 2 ^ 32 in
      let first = Agrees-result constants n old h (omega arith) a in
      let m₁ : Machine = record m { results = set m.results n old } in
      let new = (m₁.results n + sign_extend 8 32 by % 2 ^ 32) % 2 ^ 32 in
      let second =
        Agrees-result constants {context = context} {s = s} {m = m₁} (suc n) new h (omega arith)
          first in
      let m₂ : Machine = record m₁ { results = set m₁.results (suc n) new } in
      let at : value_of constants m₂ local ≡ i = second.addresses i local found in
      let loaded : old ≡ f.locals i % 2 ^ 32 =
        ap (λ k. m.slots k % 2 ^ 32) (a.addresses i local found)
        ∙ ap (λ k. k % 2 ^ 32) (a.contents i lt) in
      let sum : new ≡ (f.locals i % 2 ^ 32 + signed_byte by) % 2 ^ 32 =
        ap (λ k. (k + sign_extend 8 32 by % 2 ^ 32) % 2 ^ 32) (set-same m.results n old ∙ loaded)
        ∙ sum_cut by (f.locals i) in
      let value : m₂.results (suc n) ≡ (f.locals i % 2 ^ 32 + signed_byte by) % 2 ^ 32 =
        set-same m₁.results (suc n) new ∙ sum in
      (
        record m₂ { slots = set m₂.slots i ((f.locals i % 2 ^ 32 + signed_byte by) % 2 ^ 32) },
        ap (λ g. some (record m₂ { slots = g }))
            (ap (set m₂.slots (value_of constants m₂ local)) value
              ∙ ap (λ key. set m₂.slots key ((f.locals i % 2 ^ 32 + signed_byte by) % 2 ^ 32)) at),
        Agrees-content constants {context = context} {s = s} {m = m₂} i _ second,
      )

  -- The two operands, and what is behind them.
  pub step_i_inc-Simulates :
      (i by : ℕ) (rest : List ℕ)
      → IsWellFormed context s
      → s.current ≡ i ∷ by ∷ rest
      → ltb i (length context.locals) ≡ true
      → Agrees constants context s m f
      → Simulates constants context s
          (step_i_inc context s)
          m
          (record f { locals = set f.locals i ((f.locals i % 2 ^ 32 + signed_byte by) % 2 ^ 32) })
          rest
  unfolding step_i_inc create emit perform
  step_i_inc-Simulates i by rest h e lt a =
      let (local, found) = get_elem?-lt context.locals i lt in
      let t : State = record s { current = by ∷ rest } in
      let u : State = record s { current = rest } in
      let (m', ran, agrees) = increments-run i local by h found (ltb→lt i _ lt) a in
      let known = get_local-Known context s i h (get_local-ok context i local found) in
      record {
        state = incremented local by u;
        compiled =
            ap
              (λ o. o >>= λ (index, s). operand 1 s >>= λ (by, s).
                get_local context index >>= λ local. ok (incremented local by s))
              (operand_byte s i (by ∷ rest) e)
            ∙ ap
                (λ o. o >>= λ (by, s). get_local context i >>= λ local. ok (incremented local by s))
                (operand_byte t by rest refl)
            ∙ ap (λ o. o >>= λ local. ok (incremented local by u))
                (get_local-ok context i local found);
        read = refl;
        same_block = refl;
        same_targets = refl;
        emitted = increments s.builder.value_count local by;
        appended = incremented-appended context local by u h known;
        machine = m';
        ran = ran;
        agrees = record {
          stack = agrees.stack;
          addresses = agrees.addresses;
          contents = agrees.contents;
        };
      }
