-- ===== src/Materialization/Compiler/Straight/Appended.antt =====
-- What is emitted stands behind what was there, and is run behind it.
use mathlib.Core.Logic.{inl, inr}
use jllvm.Base.{
  ℕ, ◌≡◌, refl, ap, List, [], ◌∷◌, ◌++◌, none, some, ◌==◌, Bool-cases, Option-cases, arith,
}
use jllvm.Materialization.Compiler.Function.{
  Value, Operation, Instruction, Block, Builder, append_instruction, instructions_of, emit,
}
use jllvm.Materialization.Compiler.WellFormed.{IsNamed, IsClosedBuilder}
use jllvm.Materialization.Compiler.Straight.{Machine, run, execute}

-- The instructions of the block that the builder is at the end of.
abbrev pub current_block : Builder → List Instruction
current_block b = instructions_of b.insert_block b.blocks

append_instruction-instructions :
    (name : ℕ) (i : Instruction) (bs : List Block)
    → IsNamed name bs
    → instructions_of name (append_instruction name i bs) ≡ instructions_of name bs ++ i ∷ []
unfolding append_instruction instructions_of
append_instruction-instructions name i [] h = elim h [ ]
append_instruction-instructions name i (b ∷ bs) h = elim (Bool-cases (b.name == name)) [
  | inl e ↦ rw (e, append_instruction, instructions_of) (rw (e, instructions_of) refl)
  | inr e ↦
      let later : IsNamed name bs = elim h [
        | inl p ↦ absurd ((ground (arith, p, e)))
        | inr q ↦ q
      ] in
      rw (e, append_instruction, instructions_of)
        (rw (e, instructions_of) (append_instruction-instructions name i bs later))
]

pub emit-current_block :
    (op : Operation) (b : Builder)
    → IsClosedBuilder b
    → current_block (emit op b).1
      ≡ current_block b ++ record { number = b.value_count; operation = op } ∷ []
unfolding emit
emit-current_block op b h =
    append_instruction-instructions b.insert_block _ b.blocks (h.1.1 b.insert_block h.2)

pub run-append :
    (constants : Value → ℕ) (is js : List Instruction) (m : Machine) {m' : Machine}
    → run constants is m ≡ some m'
    → run constants (is ++ js) m ≡ run constants js m'
unfolding run
run-append constants [] js m e =
    ap (λ o. elim o [ none ↦ run constants js m | some k ↦ run constants js k ]) e
run-append constants (i ∷ is) js m e =
    elim (Option-cases (execute constants i.number i.operation m)) [
      | inl absent ↦ (let no = rw (absent, run) at e in cc)
      | inr (k, found) ↦ rw (found, run) (run-append constants is js k (rw (found, run) at e))
    ]
