-- ===== src/Materialization/Compiler/Steps/CallOrder.antt =====
-- The order of the arguments of a call.
use jllvm.Base.{ℕ, suc, ◌+◌, ◌≡◌, ◌∙◌, ap, List, [], ◌∷◌, ◌++◌, append-nil, length, ok, arith}
use jllvm.Materialization.Compiler.Function.{Value}
use jllvm.Materialization.Compiler.State.{State, push, pop_of, pop_value}
use jllvm.Materialization.Compiler.Steps.{pop_arguments}

-- The first one is pushed first.
abbrev pub push_all : List Value → State → State
push_all [] s = s
push_all (v ∷ vs) s = push_all vs (push v s)

pop_arguments-behind :
    (vs : List Value) (n : ℕ) (args : List Value) (s : State)
    → pop_arguments (length vs + n) args (push_all vs s) ≡ pop_arguments n (vs ++ args) s
unfolding pop_arguments pop_value pop_of push
pop_arguments-behind [] n args s =
    let same : 0 + n ≡ n = omega arith in ap (λ k. pop_arguments k args s) same
pop_arguments-behind (v ∷ vs) n args s =
    let same : suc (length vs) + n ≡ length vs + suc n = omega arith in
    ap (λ k. pop_arguments k args (push_all vs (push v s))) same
    ∙ pop_arguments-behind vs (suc n) args (push v s)

-- The arguments of a call are the values in the order in which they have been pushed, and the
-- operand stack is again what it was before them.
pub pop_arguments-push_all :
    (vs : List Value) (s : State) → pop_arguments (length vs) [] (push_all vs s) ≡ ok (vs, s)
unfolding pop_arguments
pop_arguments-push_all vs s =
    let same : length vs ≡ length vs + 0 = omega arith in
    ap (λ k. pop_arguments k [] (push_all vs s)) same
    ∙ pop_arguments-behind vs 0 [] s
    ∙ ap (λ args. ok (args, s)) (append-nil vs)
