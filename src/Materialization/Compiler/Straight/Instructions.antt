-- ===== src/Materialization/Compiler/Straight/Instructions.antt =====
-- The instructions of straight-line code are compiled to what they mean.
use jllvm.Base.{
  ℕ, ◌≡◌, refl, sym, ◌∙◌, ap, true, List, [], ◌∷◌, map, append-nil, none, some, ltb, ltb→lt, length,
  get_elem?, ok, fails, assertion, ◌>>=◌, arith,
}
use jllvm.Materialization.Types.{IrType}
use jllvm.Materialization.Compiler.Function.{Value, load, store, emit}
use jllvm.Materialization.Compiler.State.{
  Context, State, push, pop_of, pop_value, create, get_local,
}
use jllvm.Materialization.Compiler.Steps.{
  perform, push_result, load_local, store_local, step_dup, step_pop,
}
use jllvm.Materialization.Compiler.WellFormed.{IsWellFormed}
use jllvm.Materialization.Compiler.Straight.{Machine, Frame, set, cut, value_of, execute, run}
use jllvm.Materialization.Compiler.Straight.Appended.{emit-current_block}
use jllvm.Materialization.Compiler.Straight.Simulation.{
  Agrees, Simulates, get_elem?-lt, Agrees-result, Agrees-content,
}

pub set-same : (g : ℕ → ℕ) (key new : ℕ) → set g key new key ≡ new
set-same g key new = ground arith

pub get_local-ok :
    (context : Context) (i : ℕ) (local : Value)
    → get_elem? context.locals i ≡ some local
    → get_local context i ≡ ok local
unfolding get_local
get_local-ok context i local e = ap (λ o. elim o [ none ↦ fails assertion | some l ↦ ok l ]) e

module _ (constants : Value → ℕ) {context : Context} {s : State} {m : Machine} {f : Frame} where
  -- Pushing a value that is a constant of the frame.
  pub push-Simulates :
      (v : Value) (n : ℕ)
      → value_of constants m v ≡ n
      → Agrees constants context s m f
      → Simulates constants context s (ok (push v s)) m (record f { stack = n ∷ f.stack }) s.current
  unfolding push run
  push-Simulates v n e a = record {
    state = push v s;
    compiled = refl;
    read = refl;
    same_block = refl;
    same_targets = refl;
    emitted = [];
    appended = sym (append-nil _);
    machine = m;
    ran = refl;
    agrees = record {
      stack = let rest = a.stack in cc;
      addresses = a.addresses;
      contents = a.contents;
    };
  }

  pub load_local-Simulates :
      (type : IrType) (i : ℕ)
      → IsWellFormed context s
      → ltb i (length context.locals) ≡ true
      → Agrees constants context s m f
      → Simulates constants context s
          (load_local context type i s)
          m
          (record f { stack = cut type (f.locals i) ∷ f.stack })
          s.current
  unfolding load_local push_result create emit push run execute value_of
  load_local-Simulates type i h lt a =
      let (local, found) = get_elem?-lt context.locals i lt in
      let n = s.builder.value_count in
      let new = cut type (m.slots (value_of constants m local)) in
      let fresh = Agrees-result constants n new h (omega arith) a in
      let loaded : new ≡ cut type (f.locals i) =
        ap (λ at. cut type (m.slots at)) (a.addresses i local found)
        ∙ ap (cut type) (a.contents i (ltb→lt i _ lt)) in
      let top : set m.results n new n ≡ cut type (f.locals i) = set-same m.results n new ∙ loaded in
      record {
        state = push_result (load type local) s;
        compiled =
            ap (λ o. o >>= λ l. ok (push_result (load type l) s))
              (get_local-ok context i local found);
        read = refl;
        same_block = refl;
        same_targets = refl;
        emitted = record { number = n; operation = load type local } ∷ [];
        appended = emit-current_block (load type local) s.builder h.0;
        machine = record m { results = set m.results n new };
        ran = refl;
        agrees = record {
          stack = let rest = fresh.stack in cc;
          addresses = fresh.addresses;
          contents = fresh.contents;
        };
      }

  pub store_local-Simulates :
      (i : ℕ) (v : Value) (n : ℕ) (vs : List Value) (stack : List ℕ)
      → IsWellFormed context s
      → ltb i (length context.locals) ≡ true
      → s.operand_stack ≡ v ∷ vs
      → f.stack ≡ n ∷ stack
      → Agrees constants context s m f
      → Simulates constants context s
          (store_local context i s)
          m
          (record { locals = set f.locals i n; stack = stack })
          s.current
  unfolding store_local pop_value pop_of perform create emit run execute
  store_local-Simulates i v n vs stack h lt es ef a =
      let (local, found) = get_elem?-lt context.locals i lt in
      let number = s.builder.value_count in
      let popped : State = record s { operand_stack = vs } in
      let values : map (value_of constants m) (v ∷ vs) ≡ n ∷ stack =
        ap (map (value_of constants m)) (sym es) ∙ a.stack ∙ ef in
      let value : value_of constants m v ≡ n = cc in
      let below : map (value_of constants m) vs ≡ stack = cc in
      let rest : Agrees constants context popped m (record f { stack = stack }) = record {
        stack = below;
        addresses = a.addresses;
        contents = a.contents;
      } in
      let changed = Agrees-content constants {context = context} {s = popped} {m = m} i n rest in
      let operation = store v local in
      let slots : set m.slots (value_of constants m local) (value_of constants m v)
          ≡ set m.slots i n =
        ap (set m.slots (value_of constants m local)) value
        ∙ ap (λ key. set m.slots key n) (a.addresses i local found) in
      record {
        state = perform operation popped;
        compiled =
            ap
              (λ values. pop_of values s >>= λ (value, s).
                get_local context i >>= λ l. ok (perform (store value l) s))
              es
            ∙ ap (λ o. o >>= λ l. ok (perform (store v l) popped))
                (get_local-ok context i local found);
        read = refl;
        same_block = refl;
        same_targets = refl;
        emitted = record { number = number; operation = operation } ∷ [];
        appended = emit-current_block operation s.builder h.0;
        machine = record m { slots = set m.slots i n };
        ran = ap (λ g. some (record m { slots = g })) slots;
        agrees = record {
          stack = changed.stack;
          addresses = changed.addresses;
          contents = changed.contents;
        };
      }

  pub step_pop-Simulates :
      (v : Value) (n : ℕ) (vs : List Value) (stack : List ℕ)
      → s.operand_stack ≡ v ∷ vs
      → f.stack ≡ n ∷ stack
      → Agrees constants context s m f
      → Simulates constants context s (step_pop s) m (record f { stack = stack }) s.current
  unfolding step_pop pop_value pop_of run
  step_pop-Simulates v n vs stack es ef a =
      let values : map (value_of constants m) (v ∷ vs) ≡ n ∷ stack =
        ap (map (value_of constants m)) (sym es) ∙ a.stack ∙ ef in
      record {
        state = record s { operand_stack = vs };
        compiled = ap (λ values. pop_of values s >>= λ (value, s). ok s) es;
        read = refl;
        same_block = refl;
        same_targets = refl;
        emitted = [];
        appended = sym (append-nil _);
        machine = m;
        ran = refl;
        agrees = record { stack = cc; addresses = a.addresses; contents = a.contents };
      }

  pub step_dup-Simulates :
      (v : Value) (n : ℕ) (vs : List Value) (stack : List ℕ)
      → s.operand_stack ≡ v ∷ vs
      → f.stack ≡ n ∷ stack
      → Agrees constants context s m f
      → Simulates constants context s (step_dup s) m (record f { stack = n ∷ n ∷ stack }) s.current
  unfolding step_dup pop_value pop_of push run
  step_dup-Simulates v n vs stack es ef a =
      let values : map (value_of constants m) (v ∷ vs) ≡ n ∷ stack =
        ap (map (value_of constants m)) (sym es) ∙ a.stack ∙ ef in
      let value : value_of constants m v ≡ n = cc in
      record {
        state = push v s;
        compiled = ap (λ values. pop_of values s >>= λ (value, rest). ok (push value s)) es;
        read = refl;
        same_block = refl;
        same_targets = refl;
        emitted = [];
        appended = sym (append-nil _);
        machine = m;
        ran = refl;
        agrees = record {
          stack = let all = a.stack in cc;
          addresses = a.addresses;
          contents = a.contents;
        };
      }
