-- ===== src/Materialization/Compiler/Straight/Code.antt =====
-- Straight-line code, instruction by instruction and as a whole.
use mathlib.Core.Logic.{inl, inr}
use jllvm.Base.{
  ℕ, ◌-◌, ◌^◌, ◌≡◌, refl, sym, ◌∙◌, ap, List, [], ◌∷◌, map, Option, some, ltb, length, Outcome, ok,
  ◌>>=◌, Bool-cases, List-cases, Option-cases,
}
use jllvm.Object.ClassObject.{Alignment}
use jllvm.Materialization.Types.{IrType, int_type}
use jllvm.Materialization.Compiler.OpCodes.{
  OpCodes, a_const_null, a_load, a_load0, a_load1, a_load2, a_load3, a_store, a_store0, a_store1,
  a_store2, a_store3, dup, i_const_m1, i_const0, i_const1, i_const2, i_const3, i_const4, i_const5,
  i_load, i_load0, i_load1, i_load2, i_load3, i_inc, i_store, i_store0, i_store1, i_store2,
  i_store3, pop,
}
use jllvm.Materialization.Compiler.Function.{Value}
use jllvm.Materialization.Compiler.State.{Context, State, push}
use jllvm.Materialization.Compiler.Steps.{
  int32, load_local, store_local, step_dup, step_pop, step_i_inc,
}
use jllvm.Materialization.Compiler.Switch.{load_indexed, store_indexed, step}
use jllvm.Materialization.Compiler.WellFormed.{IsWellFormed}
use jllvm.Materialization.Compiler.Straight.{
  Machine, Frame, value_of, push_onto, load_from, store_to, duplicate, drop_top, increment, indexed,
  plain, increment_by, interpret,
}
use jllvm.Materialization.Compiler.Straight.Simulation.{Agrees, Simulates}
use jllvm.Materialization.Compiler.Straight.Instructions.{
  push-Simulates, load_local-Simulates, store_local-Simulates, step_pop-Simulates,
  step_dup-Simulates,
}
use jllvm.Materialization.Compiler.Straight.Increment.{operand_byte, step_i_inc-Simulates}

-- The frame of a result, and what is behind the instruction.
some-pair :
    {f g : Frame} {bytes rest : List ℕ}
    → ◌≡◌ {A = Option (Frame × List ℕ)} (some (f, bytes)) (some (g, rest))
    → (f ≡ g) × (bytes ≡ rest)
some-pair h = (cc, cc)

module _ (constants : Value → ℕ) {context : Context} {m : Machine} where
  top_of :
      (s : State) (f : Frame) (n : ℕ) (stack : List ℕ)
      → Agrees constants context s m f
      → f.stack ≡ n ∷ stack
      → (v : Value) × (vs : List Value) × (s.operand_stack ≡ v ∷ vs)
  top_of s f n stack a e = elim (List-cases s.operand_stack) [
    | inl empty ↦
        let no : [] ≡ n ∷ stack = sym (ap (map (value_of constants m)) empty) ∙ a.stack ∙ e in
        absurd cc
    | inr (v, vs, some_value) ↦ (v, vs, some_value)
  ]

  becomes :
      {s : State} {o : Outcome State} {f f' : Frame} {bytes rest : List ℕ}
      → Simulates constants context s o m f bytes
      → ◌≡◌ {A = Option (Frame × List ℕ)} (some (f, bytes)) (some (f', rest))
      → Simulates constants context s o m f' rest
  becomes h e = let both = some-pair e in rw (← both.0, ← both.1) h

  -- Behind an operand.
  pub behind :
      (s : State) (bytes : List ℕ) {o o' : Outcome State} {f : Frame} {rest : List ℕ}
      → Simulates constants context (record s { current = bytes }) o m f rest
      → o' ≡ o
      → Simulates constants context s o' m f rest
  behind s bytes h e = record {
    state = h.state;
    compiled = e ∙ h.compiled;
    read = h.read;
    same_block = h.same_block;
    same_targets = h.same_targets;
    emitted = h.emitted;
    appended = h.appended;
    machine = h.machine;
    ran = h.ran;
    agrees = h.agrees;
  }

  -- The operand does not matter for the agreement.
  Agrees-behind :
      (s : State) (bytes : List ℕ) {f : Frame}
      → Agrees constants context s m f
      → Agrees constants context (record s { current = bytes }) m f
  Agrees-behind s bytes a = record {
    stack = a.stack;
    addresses = a.addresses;
    contents = a.contents;
  }

  module _ {s : State} {f f' : Frame} {rest : List ℕ} (h : IsWellFormed context s)
      (a : Agrees constants context s m f) where
    constant :
        (v : Value) (n : ℕ)
        → value_of constants m v ≡ n
        → plain (push_onto n f) s.current ≡ some (f', rest)
        → Simulates constants context s (ok (push v s)) m f' rest
    unfolding plain push_onto
    constant v n known e = becomes (push-Simulates constants v n known a) e

    loads :
        (type : IrType) (i : ℕ)
        → plain (load_from type (length context.locals) i f) s.current ≡ some (f', rest)
        → Simulates constants context s (load_local context type i s) m f' rest
    unfolding plain load_from push_onto
    loads type i e = elim (Bool-cases (ltb i (length context.locals))) [
      | inl lt ↦ becomes (load_local-Simulates constants type i h lt a) (rw (lt, load_from) at e)
      | inr ge ↦ (let no = rw (ge, load_from) at e in absurd cc)
    ]

    stores :
        (i : ℕ)
        → plain (store_to (length context.locals) i f f.stack) s.current ≡ some (f', rest)
        → Simulates constants context s (store_local context i s) m f' rest
    unfolding plain store_to
    stores i e = elim (List-cases f.stack) [
      | inl empty ↦ (let no = rw (empty, store_to) at e in absurd cc)
      | inr (n, stack, ef) ↦ elim (Bool-cases (ltb i (length context.locals))) [
        | inl lt ↦
            let (v, vs, es) = top_of s f n stack a ef in
            becomes (store_local-Simulates constants i v n vs stack h lt es ef a)
              (rw (ef, lt, store_to) at e)
        | inr ge ↦ (let no = rw (ef, ge, store_to) at e in absurd cc)
      ]
    ]

    duplicates :
        plain (duplicate f f.stack) s.current ≡ some (f', rest)
        → Simulates constants context s (step_dup s) m f' rest
    unfolding plain duplicate
    duplicates e = elim (List-cases f.stack) [
      | inl empty ↦ (let no = rw (empty, duplicate) at e in absurd cc)
      | inr (n, stack, ef) ↦
          let (v, vs, es) = top_of s f n stack a ef in
          becomes (step_dup-Simulates constants v n vs stack es ef a) (rw (ef, duplicate) at e)
    ]

    pops :
        plain (drop_top f f.stack) s.current ≡ some (f', rest)
        → Simulates constants context s (step_pop s) m f' rest
    unfolding plain drop_top
    pops e = elim (List-cases f.stack) [
      | inl empty ↦ (let no = rw (empty, drop_top) at e in absurd cc)
      | inr (n, stack, ef) ↦
          let (v, vs, es) = top_of s f n stack a ef in
          becomes (step_pop-Simulates constants v n vs stack es ef a) (rw (ef, drop_top) at e)
    ]

    increments_local :
        increment_by (length context.locals) s.current f ≡ some (f', rest)
        → Simulates constants context s (step_i_inc context s) m f' rest
    unfolding increment_by plain increment
    increments_local e = elim (List-cases s.current) [
      | inl empty ↦ (let no = rw (empty, increment_by) at e in absurd cc)
      | inr (i, [], es) ↦ (let no = rw (es, increment_by) at e in absurd cc)
      | inr (i, by ∷ bytes, es) ↦ elim (Bool-cases (ltb i (length context.locals))) [
        | inl lt ↦
            becomes (step_i_inc-Simulates constants i by bytes h es lt a)
              (rw (es, lt, increment_by) at e)
        | inr ge ↦ (let no = rw (es, ge, increment_by) at e in absurd cc)
      ]
    ]

  module _ {s : State} {f f' : Frame} {rest : List ℕ} (h : IsWellFormed context s)
      (a : Agrees constants context s m f) where
    indexed-plain :
        (act : ℕ → Frame → Option Frame) (i : ℕ) (bytes : List ℕ)
        → s.current ≡ i ∷ bytes
        → indexed act s.current f ≡ some (f', rest)
        → plain (act i f) bytes ≡ some (f', rest)
    unfolding indexed plain
    indexed-plain act i bytes es e = elim (Option-cases (act i f)) [
      | inl absent ↦ (let no = rw (es, absent, indexed) at e in absurd cc)
      | inr (g, found) ↦ rw (found, plain) (rw (es, found, indexed) at e)
    ]

    loads_indexed :
        (type : IrType)
        → indexed (load_from type (length context.locals)) s.current f ≡ some (f', rest)
        → Simulates constants context s (load_indexed context type s) m f' rest
    unfolding load_indexed indexed
    loads_indexed type e = elim (List-cases s.current) [
      | inl empty ↦ (let no = rw (empty, indexed) at e in absurd cc)
      | inr (i, bytes, es) ↦
          behind s bytes
            (loads {s = record s { current = bytes }} h (Agrees-behind s bytes a) type i
              (indexed-plain (load_from type (length context.locals)) i bytes es e))
            (ap (λ o. o >>= λ (index, s). load_local context type index s)
              (operand_byte s i bytes es))
    ]

    stores_indexed :
        indexed (λ index g. store_to (length context.locals) index g g.stack) s.current f
          ≡ some (f', rest)
        → Simulates constants context s (store_indexed context s) m f' rest
    unfolding store_indexed indexed
    stores_indexed e = elim (List-cases s.current) [
      | inl empty ↦ (let no = rw (empty, indexed) at e in absurd cc)
      | inr (i, bytes, es) ↦
          behind s bytes
            (stores {s = record s { current = bytes }} h (Agrees-behind s bytes a) i (
              indexed-plain (λ index g. store_to (length context.locals) index g g.stack) i bytes es
                e))
            (ap (λ o. o >>= λ (index, s). store_local context index s) (operand_byte s i bytes es))
    ]

-- An instruction that the frame can do is compiled, to instructions that do the same.
pub step-Simulates :
    (constants : Value → ℕ) (alignment : Alignment) (context : Context) (op : OpCodes) (offset : ℕ)
    (s : State) (m : Machine) (f : Frame) {f' : Frame} {rest : List ℕ}
    → IsWellFormed context s
    → Agrees constants context s m f
    → interpret (length context.locals) op s.current f ≡ some (f', rest)
    → Simulates constants context s (step alignment context op offset s) m f' rest
unfolding step interpret value_of int32
step-Simulates constants alignment context a_const_null offset s m f h a e =
    constant constants h a Value.null_reference 0 refl e
step-Simulates constants alignment context a_load offset s m f h a e =
    loads_indexed constants h a IrType.reference e
step-Simulates constants alignment context a_load0 offset s m f h a e =
    loads constants h a IrType.reference 0 e
step-Simulates constants alignment context a_load1 offset s m f h a e =
    loads constants h a IrType.reference 1 e
step-Simulates constants alignment context a_load2 offset s m f h a e =
    loads constants h a IrType.reference 2 e
step-Simulates constants alignment context a_load3 offset s m f h a e =
    loads constants h a IrType.reference 3 e
step-Simulates constants alignment context a_store offset s m f h a e =
    stores_indexed constants h a e
step-Simulates constants alignment context a_store0 offset s m f h a e = stores constants h a 0 e
step-Simulates constants alignment context a_store1 offset s m f h a e = stores constants h a 1 e
step-Simulates constants alignment context a_store2 offset s m f h a e = stores constants h a 2 e
step-Simulates constants alignment context a_store3 offset s m f h a e = stores constants h a 3 e
step-Simulates constants alignment context dup offset s m f h a e = duplicates constants h a e
step-Simulates constants alignment context i_const_m1 offset s m f h a e =
    constant constants h a (int32 (2 ^ 32 - 1)) 4294967295 refl e
step-Simulates constants alignment context i_const0 offset s m f h a e =
    constant constants h a (int32 0) 0 refl e
step-Simulates constants alignment context i_const1 offset s m f h a e =
    constant constants h a (int32 1) 1 refl e
step-Simulates constants alignment context i_const2 offset s m f h a e =
    constant constants h a (int32 2) 2 refl e
step-Simulates constants alignment context i_const3 offset s m f h a e =
    constant constants h a (int32 3) 3 refl e
step-Simulates constants alignment context i_const4 offset s m f h a e =
    constant constants h a (int32 4) 4 refl e
step-Simulates constants alignment context i_const5 offset s m f h a e =
    constant constants h a (int32 5) 5 refl e
step-Simulates constants alignment context i_load offset s m f h a e =
    loads_indexed constants h a (int_type 32) e
step-Simulates constants alignment context i_load0 offset s m f h a e =
    loads constants h a (int_type 32) 0 e
step-Simulates constants alignment context i_load1 offset s m f h a e =
    loads constants h a (int_type 32) 1 e
step-Simulates constants alignment context i_load2 offset s m f h a e =
    loads constants h a (int_type 32) 2 e
step-Simulates constants alignment context i_load3 offset s m f h a e =
    loads constants h a (int_type 32) 3 e
step-Simulates constants alignment context i_inc offset s m f h a e =
    increments_local constants h a e
step-Simulates constants alignment context i_store offset s m f h a e =
    stores_indexed constants h a e
step-Simulates constants alignment context i_store0 offset s m f h a e = stores constants h a 0 e
step-Simulates constants alignment context i_store1 offset s m f h a e = stores constants h a 1 e
step-Simulates constants alignment context i_store2 offset s m f h a e = stores constants h a 2 e
step-Simulates constants alignment context i_store3 offset s m f h a e = stores constants h a 3 e
step-Simulates constants alignment context pop offset s m f h a e = pops constants h a e
step-Simulates constants alignment context _ offset s m f h a e = cc
