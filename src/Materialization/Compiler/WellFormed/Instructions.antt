-- ===== src/Materialization/Compiler/WellFormed/Instructions.antt =====
-- Each instruction runs, with its effect on the operand stack.
use jllvm.Base.{ℕ, ok, ◌>>=◌, arith}
use jllvm.Materialization.Types.{IrType, int_type, reference}
use jllvm.Materialization.Compiler.Function.{
  Operation, load, store, element_address, length_address, icmp_sge, ret, br, cond_br,
}
use jllvm.Materialization.Compiler.State.{Context, State, pop_value, create, get_local}
use jllvm.Materialization.Compiler.Steps.{
  perform, push_result, step_aa_load, step_aa_store, load_local, store_local, step_a_return,
  step_array_length, step_goto, step_if_i_cmp_ge, step_pop,
}
use jllvm.Materialization.Compiler.WellFormed.{IsClosed, IsWellFormed}
use jllvm.Materialization.Compiler.WellFormed.Emitting.{IsKnown-le}
use jllvm.Materialization.Compiler.WellFormed.Ending.{get_local-ne-out_of_fuel}
use jllvm.Materialization.Compiler.WellFormed.Running.{
  Runs, Steps, Known, Target, Runs-refl, Runs-trans, bind_Steps, read_Steps, create-Runs, push-Runs,
}
use jllvm.Materialization.Compiler.WellFormed.Parts.{
  Consumed, pop_value-Yields, operand-Yields, get_local-Known, add_basic_block-Yields,
}

module _ {context : Context} where
  pub ends :
      {pops pushes : ℕ} {s t : State}
      → Runs context pops pushes s t
      → Steps context pops pushes s (ok t)
  ends r = record { runs = r }

  pub perform-Runs :
      (op : Operation) (s : State)
      → IsWellFormed context s
      → IsClosed s.builder.value_count s.builder.block_count op
      → Runs context 0 0 s (perform op s)
  unfolding perform
  perform-Runs op s h closed = (create-Runs op s h closed).0

  pub push_result-Runs :
      (op : Operation) (s : State)
      → IsWellFormed context s
      → IsClosed s.builder.value_count s.builder.block_count op
      → Runs context 0 1 s (push_result op s)
  unfolding push_result
  push_result-Runs op s h closed =
      let made = create-Runs op s h closed in
      Runs-trans made.0 (push-Runs _ _ made.0.well_formed made.1)

  pub step_aa_load-Steps :
      (s : State) → IsWellFormed context s → Steps context 2 1 s (step_aa_load s)
  unfolding step_aa_load
  step_aa_load-Steps s h = bind_Steps Known 1 1 _ _ (pop_value-Yields s h) (λ index t r index_known.
      bind_Steps Known 0 1 _ _ (pop_value-Yields t r.well_formed) (λ array u q array_known.
        let gep =
          create-Runs (element_address reference array index) u q.well_formed
            (array_known, IsKnown-le q.values_le index index_known) in
        ends (Runs-trans gep.0 (push_result-Runs (load reference _) _ gep.0.well_formed gep.1))))

  pub step_aa_store-Steps :
      (s : State) → IsWellFormed context s → Steps context 3 0 s (step_aa_store s)
  unfolding step_aa_store
  step_aa_store-Steps s h =
      bind_Steps Known 2 0 _ _ (pop_value-Yields s h) (λ value t r value_known.
        bind_Steps Known 1 0 _ _ (pop_value-Yields t r.well_formed) (λ index u q index_known.
          bind_Steps Known 0 0 _ _ (pop_value-Yields u q.well_formed) (λ array v p array_known.
            let gep =
              create-Runs (element_address reference array index) v p.well_formed
                (array_known, IsKnown-le p.values_le index index_known) in
            let all = Runs-trans (Runs-trans q p) gep.0 in
            ends (
              Runs-trans gep.0 (
                perform-Runs (store value _) _ gep.0.well_formed
                  (IsKnown-le all.values_le value value_known, gep.1))))))

  pub load_local-Steps :
      (type : IrType) (index : ℕ) (s : State)
      → IsWellFormed context s
      → Steps context 0 1 s (load_local context type index s)
  unfolding load_local
  load_local-Steps type index s h =
      read_Steps 0 1 (get_local context index) _ (get_local-ne-out_of_fuel context index)
        (λ local e.
          ends (push_result-Runs (load type local) s h (get_local-Known context s index h e)))

  pub store_local-Steps :
      (index : ℕ) (s : State)
      → IsWellFormed context s
      → Steps context 1 0 s (store_local context index s)
  unfolding store_local
  store_local-Steps index s h =
      bind_Steps Known 0 0 _ _ (pop_value-Yields s h) (λ value t r value_known.
        read_Steps 0 0 (get_local context index) _ (get_local-ne-out_of_fuel context index)
          (λ local e. ends (
            perform-Runs (store value local) t r.well_formed
              (value_known, get_local-Known context t index r.well_formed e))))

  pub step_a_return-Steps :
      (s : State) → IsWellFormed context s → Steps context 1 0 s (step_a_return s)
  unfolding step_a_return
  step_a_return-Steps s h =
      bind_Steps Known 0 0 _ _ (pop_value-Yields s h)
        (λ value t r value_known. ends (perform-Runs (ret value) t r.well_formed value_known))

  pub step_array_length-Steps :
      (s : State) → IsWellFormed context s → Steps context 1 1 s (step_array_length s)
  unfolding step_array_length
  step_array_length-Steps s h =
      bind_Steps Known 0 1 _ _ (pop_value-Yields s h) (λ array t r array_known.
        let gep = create-Runs (length_address reference array) t r.well_formed array_known in
        ends (Runs-trans gep.0 (push_result-Runs (load (int_type 32) _) _ gep.0.well_formed gep.1)))

  pub step_pop-Steps : (s : State) → IsWellFormed context s → Steps context 1 0 s (step_pop s)
  unfolding step_pop
  step_pop-Steps s h =
      bind_Steps Known 0 0 _ _ (pop_value-Yields s h)
        (λ value t r known. ends (Runs-refl t r.well_formed))

  pub step_goto-Steps :
      (offset : ℕ) (s : State) → IsWellFormed context s → Steps context 0 0 s (step_goto offset s)
  unfolding step_goto
  step_goto-Steps offset s h =
      bind_Steps (Consumed 2 s) 0 0 _ _ (operand-Yields 2 s h) (λ target t r e.
        bind_Steps Target 0 0 _ _ (add_basic_block-Yields offset _ t r.well_formed)
          (λ block u q there. ends (perform-Runs (br block) u q.well_formed there)))

  pub step_if_i_cmp_ge-Steps :
      (offset : ℕ) (s : State)
      → IsWellFormed context s
      → Steps context 2 0 s (step_if_i_cmp_ge context offset s)
  unfolding step_if_i_cmp_ge
  step_if_i_cmp_ge-Steps offset s h =
      bind_Steps (Consumed 2 s) 2 0 _ _ (operand-Yields 2 s h) (λ target t r e.
        bind_Steps Target 2 0 _ _ (add_basic_block-Yields offset _ t r.well_formed)
          (λ block u q block_there.
            bind_Steps Target 2 0 _ _ (add_basic_block-Yields offset _ u q.well_formed)
              (λ next v p next_there.
                compare-Steps block next v p.well_formed (omega (arith, block_there, p.blocks_le))
                  next_there)))
    where
      compare-Steps :
          (block next : ℕ) (s : State)
          → IsWellFormed context s
          → Target s block
          → Target s next
          → Steps context 2 0 s (
              pop_value s >>= λ (rhs, s). pop_value s >>= λ (lhs, s).
              let (cond, s) = create (icmp_sge lhs rhs) s in
              ok (perform (cond_br cond block next) s))
      compare-Steps block next s h block_there next_there =
          bind_Steps Known 1 0 _ _ (pop_value-Yields s h) (λ rhs t r rhs_known.
            bind_Steps Known 0 0 _ _ (pop_value-Yields t r.well_formed) (λ lhs u q lhs_known.
              let cond =
                create-Runs (icmp_sge lhs rhs) u q.well_formed
                  (lhs_known, IsKnown-le q.values_le rhs rhs_known) in
              let all = Runs-trans (Runs-trans r q) cond.0 in
              ends (
                Runs-trans cond.0 (
                  perform-Runs (cond_br _ block next) _ cond.0.well_formed (
                    cond.1,
                    omega (arith, block_there, all.blocks_le),
                    omega (arith, next_there, all.blocks_le),
                  )))))
