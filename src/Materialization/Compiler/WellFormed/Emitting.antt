-- ===== src/Materialization/Compiler/WellFormed/Emitting.antt =====
-- The builder's operations keep a function closed.
use mathlib.Core.Logic.{◌⊎◌, inl, inr}
use jllvm.Base.{
  ℕ, suc, ◌≤◌, ◌≡◌, refl, ◌∙◌, ap, List, [], ◌∷◌, ◌==◌, ◌||◌, ◌++◌, ◌<◌, true, subst, All,
  All-append, length, Bool-cases, arith,
}
use jllvm.Materialization.Compiler.Function.{
  Value, result, Operation, alloca, load, store, element_address, length_address, byte_address, add,
  mul, icmp_sge, call, ret, ret_void, br, cond_br, Instruction, Block, Builder, append_instruction,
  emit,
}
use jllvm.Materialization.Compiler.WellFormed.{
  IsKnown, IsClosed, IsClosedInstruction, IsClosedBlock, IsNamed, IsClosedBuilder, is_held_in,
  is_held,
}

pub All-weaken {ℓ κ μ} :
    {A : Type ℓ} (P : A → Type κ) (Q : A → Type μ) (xs : List A)
    → ((a : A) → P a → Q a)
    → All P xs
    → All Q xs
All-weaken P Q [] f h = tt
All-weaken P Q (x ∷ xs) f h = (f x h.0, All-weaken P Q xs f h.1)

module _ {n m : ℕ} (le : n ≤ m) where
  pub IsKnown-le : (v : Value) → IsKnown n v → IsKnown m v
  IsKnown-le (result number) h = omega (arith, h, le)
  IsKnown-le (Value.argument i) h = tt
  IsKnown-le (Value.int_constant w b) h = tt
  IsKnown-le Value.null_reference h = tt
  IsKnown-le (Value.class_constant c) h = tt
  IsKnown-le (Value.static_constant c i) h = tt
  IsKnown-le (Value.function_symbol s) h = tt

  module _ {blocks more : ℕ} (le' : blocks ≤ more) where
    IsClosed-le : (op : Operation) → IsClosed n blocks op → IsClosed m more op
    IsClosed-le alloca h = tt
    IsClosed-le (load type pointer) h = IsKnown-le pointer h
    IsClosed-le (store value pointer) h = (IsKnown-le value h.0, IsKnown-le pointer h.1)
    IsClosed-le (element_address type base index) h = (IsKnown-le base h.0, IsKnown-le index h.1)
    IsClosed-le (length_address type base) h = IsKnown-le base h
    IsClosed-le (byte_address base index) h = (IsKnown-le base h.0, IsKnown-le index h.1)
    IsClosed-le (add a b) h = (IsKnown-le a h.0, IsKnown-le b h.1)
    IsClosed-le (mul a b) h = (IsKnown-le a h.0, IsKnown-le b h.1)
    IsClosed-le (icmp_sge a b) h = (IsKnown-le a h.0, IsKnown-le b h.1)
    IsClosed-le (call type callee args) h =
        (IsKnown-le callee h.0, All-weaken (IsKnown n) (IsKnown m) args IsKnown-le h.1)
    IsClosed-le (ret value) h = IsKnown-le value h
    IsClosed-le ret_void h = tt
    IsClosed-le (br target) h = omega (arith, h, le')
    IsClosed-le (cond_br value a b) h =
        (IsKnown-le value h.0, omega (arith, h.1, le'), omega (arith, h.2, le'))

    pub IsClosedInstructions-le :
        (is : List Instruction)
        → All (IsClosedInstruction n blocks) is
        → All (IsClosedInstruction m more) is
    IsClosedInstructions-le is =
        All-weaken (IsClosedInstruction n blocks) (IsClosedInstruction m more) is
          (λ i h. (omega (arith, h.0, le), IsClosed-le i.operation h.1))

    pub IsClosedBlock-le : (b : Block) → IsClosedBlock n blocks b → IsClosedBlock m more b
    IsClosedBlock-le b h = (omega (arith, h.0, le'), IsClosedInstructions-le b.instructions h.1)

    pub IsClosedBlocks-le :
        (bs : List Block) → All (IsClosedBlock n blocks) bs → All (IsClosedBlock m more) bs
    IsClosedBlocks-le bs =
        All-weaken (IsClosedBlock n blocks) (IsClosedBlock m more) bs IsClosedBlock-le

append-closed :
    (n count target : ℕ) (i : Instruction) (bs : List Block)
    → IsClosedInstruction n count i
    → All (IsClosedBlock n count) bs
    → All (IsClosedBlock n count) (append_instruction target i bs)
unfolding append_instruction
append-closed n count target i [] hi h = tt
append-closed n count target i (b ∷ bs) hi h = elim (Bool-cases (b.name == target)) [
  | inl e ↦ rw e (
    (h.0.0, All-append (IsClosedInstruction n count) b.instructions (i ∷ []) h.0.1 (hi, tt)),
    h.1,
  )
  | inr e ↦ rw e (h.0, append-closed n count target i bs hi h.1)
]

append-length :
    (target : ℕ) (i : Instruction) (bs : List Block)
    → length (append_instruction target i bs) ≡ length bs
unfolding append_instruction
append-length target i [] = refl
append-length target i (b ∷ bs) = elim (Bool-cases (b.name == target)) [
  | inl e ↦ rw e refl
  | inr e ↦ rw e (ap suc (append-length target i bs))
]

append-IsNamed :
    (target : ℕ) (i : Instruction) (name : ℕ) (bs : List Block)
    → IsNamed name bs
    → IsNamed name (append_instruction target i bs)
unfolding append_instruction
append-IsNamed target i name [] h = elim h [ ]
append-IsNamed target i name (b ∷ bs) h = elim (Bool-cases (b.name == target)) [
  | inl e ↦ rw e h
  | inr e ↦ rw e elim h [ inl p ↦ inl p | inr q ↦ inr (append-IsNamed target i name bs q) ]
]

pub is_held_in-append :
    (number : ℕ) (is js : List Instruction)
    → is_held_in number (is ++ js) ≡ (is_held_in number is || is_held_in number js)
is_held_in-append number [] js = refl
is_held_in-append number (i ∷ is) js = ground (arith, is_held_in-append number is js)

append-is_held :
    (target : ℕ) (i : Instruction) (number : ℕ) (bs : List Block)
    → is_held number bs ≡ true
    → is_held number (append_instruction target i bs) ≡ true
unfolding append_instruction
append-is_held target i number [] h = cc
append-is_held target i number (b ∷ bs) h = elim (Bool-cases (b.name == target)) [
  | inl e ↦ rw e (ground (arith, is_held_in-append number b.instructions (i ∷ [])))
  | inr e ↦ rw e (ground (arith, append-is_held target i number bs))
]

append-is_held_new :
    (target : ℕ) (i : Instruction) (bs : List Block)
    → IsNamed target bs
    → is_held i.number (append_instruction target i bs) ≡ true
unfolding append_instruction
append-is_held_new target i [] h = elim h [ ]
append-is_held_new target i (b ∷ bs) h = elim (Bool-cases (b.name == target)) [
  | inl e ↦ rw e (ground (arith, is_held_in-append i.number b.instructions (i ∷ [])))
  | inr e ↦ rw e elim h [
    | inl p ↦ absurd (ground (arith, e, p))
    | inr q ↦ (let later = append-is_held_new target i bs q in ground (arith, later))
  ]
]

pub below_suc : (name count : ℕ) → name < suc count → (name < count) ⊎ (count ≡ name)
below_suc name count h = ground arith

-- The number of the new instruction is one that no operand had.
pub emit-IsClosedBuilder :
    (op : Operation) (b : Builder)
    → IsClosedBuilder b
    → IsClosed b.value_count b.block_count op
    → IsClosedBuilder (emit op b).1
unfolding emit
emit-IsClosedBuilder op b h closed =
    let n = b.value_count in
    let count = b.block_count in
    let le : n ≤ suc n = omega arith in
    let same : count ≤ count = omega arith in
    let i : Instruction = record { number = n; operation = op } in
    (
      append-closed (suc n) count b.insert_block i b.blocks
          (omega arith, IsClosed-le le same op closed) (IsClosedBlocks-le le same b.blocks h.0),
      (
        append-length b.insert_block i b.blocks ∙ h.1.0,
        λ name lt. append-IsNamed b.insert_block i name b.blocks (h.1.1 name lt),
      ),
      h.2,
      λ number lt. elim (below_suc number n lt) [
        | inl old ↦ append-is_held b.insert_block i number b.blocks (h.3 number old)
        | inr new ↦
            subst (λ k. is_held k (append_instruction b.insert_block i b.blocks) ≡ true) new
              (append-is_held_new b.insert_block i b.blocks (h.1.1 b.insert_block h.2))
      ],
    )
