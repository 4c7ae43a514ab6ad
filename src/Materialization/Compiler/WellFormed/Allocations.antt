-- ===== src/Materialization/Compiler/WellFormed/Allocations.antt =====
-- Each instruction runs, with its effect on the operand stack: those that make objects
-- and arrays.
use jllvm.Base.{ℕ, ◌≡◌, List, [], ◌∷◌, ok, ◌>>=◌, ok-eq}
use jllvm.Object.ClassObject.{ClassRef, ClassObject, pointer_size, Alignment}
use jllvm.Materialization.Types.{int_type, reference}
use jllvm.Materialization.Compiler.Function.{
  Value, function_symbol, Operation, load, store, length_address, call,
}
use jllvm.Materialization.Compiler.State.{Context, State, push}
use jllvm.Materialization.Compiler.Pool.{resolve_class_name}
use jllvm.Materialization.Compiler.Lazy.{get_class_object, class_object_of}
use jllvm.Materialization.Compiler.Steps.{
  perform, int32, gc_alloc, gc_alloc_type, build, allocate, step_a_new_array, step_new,
}
use jllvm.Materialization.Compiler.WellFormed.{IsClosed, IsWellFormed}
use jllvm.Materialization.Compiler.WellFormed.Emitting.{IsKnown-le}
use jllvm.Materialization.Compiler.WellFormed.Ending.{
  resolve_class_name-ne-out_of_fuel, class_object_of-ne-out_of_fuel,
}
use jllvm.Materialization.Compiler.WellFormed.Running.{
  Steps, Yields, Known, Runs-trans, then_Yields, bind_Steps, read_Steps, create-Runs, push-Runs,
}
use jllvm.Materialization.Compiler.WellFormed.Parts.{Consumed, pop_value-Yields, operand-Yields}
use jllvm.Materialization.Compiler.WellFormed.Instructions.{ends, perform-Runs}
use jllvm.Materialization.Compiler.WellFormed.Stubs.{
  get_or_insert_function-Runs, return_constant-Yields,
}
use jllvm.Materialization.Compiler.WellFormed.Objects.{int32-Known}

class_object_of-Known :
    (t : State) (ref : ClassRef) (object : ClassObject) (v : Value)
    → class_object_of ref object ≡ ok v
    → Known t v
unfolding class_object_of
class_object_of-Known t ref object v e = rw (← ok-eq e) tt

module _ {context : Context} where
  get_class_object-Yields :
      (descriptor : List ℕ) (s : State)
      → IsWellFormed context s
      → Yields context Known 0 0 s (get_class_object context descriptor s)
  unfolding get_class_object
  get_class_object-Yields descriptor s h =
      return_constant-Yields _ _ _ _ s class_object_of-ne-out_of_fuel (class_object_of-Known s) h

  build-Yields :
      (op : Operation) (s : State)
      → IsWellFormed context s
      → IsClosed s.builder.value_count s.builder.block_count op
      → Yields context Known 0 0 s (build op s)
  unfolding build
  build-Yields op s h closed = record { runs = create-Runs op s h closed }

  allocate-Yields :
      (size : Value) (s : State)
      → IsWellFormed context s
      → Known s size
      → Yields context Known 0 0 s (allocate size s)
  unfolding allocate
  allocate-Yields size s h known =
      let declared = get_or_insert_function-Runs gc_alloc gc_alloc_type s h in
      then_Yields Known _ declared (
        build-Yields (call gc_alloc_type (function_symbol gc_alloc) (size ∷ [])) _
          declared.well_formed (tt, (IsKnown-le declared.values_le size known, tt)))

  -- From the class object on.
  make_object :
      (class : Value) (s : State)
      → IsWellFormed context s
      → Known s class
      → Steps context 0 1 s (
          build (load (int_type 32) class) s >>= λ (size, s).
          build (Operation.add size (int32 pointer_size)) s >>= λ (size, s).
          allocate size s >>= λ (object, s). ok (push object (perform (store class object) s)))
  make_object class s h known =
      bind_Steps Known 0 1 _ _ (build-Yields (load (int_type 32) class) s h known)
        (λ size v p size_known.
          bind_Steps Known 0 1 _ _
            (build-Yields (Operation.add size (int32 pointer_size)) v p.well_formed
              (size_known, int32-Known v pointer_size))
            (λ sum w o sum_known.
              bind_Steps Known 0 1 _ _ (allocate-Yields sum w o.well_formed sum_known)
                (λ object x n object_known.
                  let all = Runs-trans (Runs-trans p o) n in
                  let stored =
                    perform-Runs (store class object) x n.well_formed
                      (IsKnown-le all.values_le class known, object_known) in
                  ends (
                    Runs-trans stored (
                      push-Runs object _ stored.well_formed
                        (IsKnown-le stored.values_le object object_known))))))

  pub step_new-Steps :
      (s : State) → IsWellFormed context s → Steps context 0 1 s (step_new context s)
  unfolding step_new
  step_new-Steps s h = bind_Steps (Consumed 2 s) 0 1 _ _ (operand-Yields 2 s h) (λ index t r e.
      read_Steps 0 1 (resolve_class_name context.pool index) _
        (resolve_class_name-ne-out_of_fuel context.pool index)
        (λ name e'.
          bind_Steps Known 0 1 _ _ (get_class_object-Yields _ t r.well_formed)
            (λ class u q known. make_object class u q.well_formed known)))

  fill_array :
      (count class bytes : Value) (s : State)
      → IsWellFormed context s
      → Known s count
      → Known s class
      → Known s bytes
      → Steps context 0 1 s (
          allocate bytes s >>= λ (object, s). build (store class object) s >>= λ (header, s).
          build (length_address reference object) s >>= λ (gep, s).
          ok (push object (perform (store count gep) s)))
  fill_array count class bytes s h count_known class_known bytes_known =
      bind_Steps Known 0 1 _ _ (allocate-Yields bytes s h bytes_known) (λ object t r object_known.
        bind_Steps Known 0 1 _ _
          (build-Yields (store class object) t r.well_formed
            (IsKnown-le r.values_le class class_known, object_known))
          (λ header u q header_known.
            let there = IsKnown-le q.values_le object object_known in
            bind_Steps Known 0 1 _ _
              (build-Yields (length_address reference object) u q.well_formed there)
              (λ gep v p gep_known.
                let all = Runs-trans (Runs-trans r q) p in
                let stored =
                  perform-Runs (store count gep) v p.well_formed
                    (IsKnown-le all.values_le count count_known, gep_known) in
                ends (
                  Runs-trans stored (
                    push-Runs object _ stored.well_formed
                      (IsKnown-le (Runs-trans p stored).values_le object there))))))

  -- From the class object on, for a number of bytes in front of the elements.
  make_array :
      (header : ℕ) (count class : Value) (s : State)
      → IsWellFormed context s
      → Known s count
      → Known s class
      → Steps context 0 1 s (
          build (Operation.mul count (int32 pointer_size)) s >>= λ (elements, s).
          build (Operation.add (int32 header) elements) s >>= λ (bytes, s).
          allocate bytes s >>= λ (object, s). build (store class object) s >>= λ (stored, s).
          build (length_address reference object) s >>= λ (gep, s).
          ok (push object (perform (store count gep) s)))
  make_array header count class s h count_known class_known =
      bind_Steps Known 0 1 _ _
        (build-Yields (Operation.mul count (int32 pointer_size)) s h
          (count_known, int32-Known s pointer_size))
        (λ elements w o elements_known.
          bind_Steps Known 0 1 _ _
            (build-Yields (Operation.add (int32 header) elements) w o.well_formed
              (int32-Known w header, elements_known))
            (λ bytes x n bytes_known.
              let all = Runs-trans o n in
              fill_array count class bytes x n.well_formed
                (IsKnown-le all.values_le count count_known)
                (IsKnown-le all.values_le class class_known) bytes_known))

  pub step_a_new_array-Steps :
      (alignment : Alignment) (s : State)
      → IsWellFormed context s
      → Steps context 1 1 s (step_a_new_array alignment context s)
  unfolding step_a_new_array
  step_a_new_array-Steps alignment s h =
      bind_Steps (Consumed 2 s) 1 1 _ _ (operand-Yields 2 s h) (λ index t r e.
        bind_Steps Known 0 1 _ _ (pop_value-Yields t r.well_formed) (λ count u q count_known.
          read_Steps 0 1 (resolve_class_name context.pool index) _
            (resolve_class_name-ne-out_of_fuel context.pool index)
            (λ name e'.
              bind_Steps Known 0 1 _ _ (get_class_object-Yields _ u q.well_formed)
                (λ class v p class_known.
                  make_array _ count class v p.well_formed
                    (IsKnown-le p.values_le count count_known) class_known))))
