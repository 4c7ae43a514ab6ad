-- ===== src/Materialization/Compiler/State.antt =====
-- src/jllvm/materialization/ByteCodeCompileLayer.cpp: what `codeGenBody` keeps while it goes through
-- the code, and what it reads. `current` is what is left of the code. A search of a `DenseMap` takes
-- the offset as a `uint16_t`; the two keys that such a map reserves are like all others here.
use jllvm.Base.{
  ℕ, ◌-◌, Bool, ◌&&◌, List, [], ◌∷◌, Option, none, some, if◌then◌else◌, ◌==◌, ltb, length,
  get_elem?, Outcome, ok, fails, assertion, ◌>>=◌,
}
use jllvm.Support.Bytes.{consume}
use jllvm.Class.ClassFile.Constants.{ConstantPoolInfo}
use jllvm.Object.ClassObject.{ClassRef, ClassObject}
use jllvm.Materialization.Types.{FunctionType}
use jllvm.Materialization.Compiler.Function.{
  Value, Operation, Instruction, Builder, emit, create_block, split,
}

-- `handlerPc` and `catchType`
abbrev pub Handler : Type 0
Handler = ℕ × ℕ

-- The callers of `returnConstantForClassObject`, each with the instantiation of it that it has.
pub data Query : Type 0 where
  instance_field_offset static_field_address class_object : Query

-- What a stub does when it is first called: load a class, and give what the query or the lookup finds.
pub data Callback : Type 0 where
  find_instance_offset find_static_address : List ℕ → List ℕ → List ℕ → Callback
  find_class_object : List ℕ → Callback
  find_method : List ℕ → List ℕ → Callback

-- `perFUniqueAddress` of each query is a number that the linker chooses, as text.
pub record Context : Type 0 where
  pub pool : List ConstantPoolInfo
  pub objects : List ClassObject
  pub mapping : List (List ℕ × ClassRef)
  pub unique_address : Query → List ℕ
  pub code_size : ℕ
  pub start_handlers : List (ℕ × Handler)
  pub end_handlers : List (ℕ × Handler)
  pub locals : List Value

pub record State : Type 0 where
  pub builder : Builder
  pub current : List ℕ
  pub operand_stack : List Value
  pub basic_blocks : List (ℕ × ℕ)
  pub insert_points : List (ℕ × ℕ)
  pub active_handlers : List Handler
  pub functions : List (List ℕ × FunctionType)
  pub stubs : List (List ℕ × Callback)

unfoldable pub lookup {ℓ} : {A : Type ℓ} → ℕ → List (ℕ × A) → Option A
lookup key [] = none
lookup key ((k, a) ∷ rest) = if k == key then some a else lookup key rest

unfoldable pub push : Value → State → State
push value s = record s { operand_stack = value ∷ s.operand_stack }

-- `back` and `pop_back` of a vector that has an element.
unfoldable pub pop_of : List Value → State → Outcome (Value × State)
pop_of [] s = fails assertion
pop_of (value ∷ rest) s = ok (value, record s { operand_stack = rest })

unfoldable pub pop_value : State → Outcome (Value × State)
unfolding pop_of
pop_value s = pop_of s.operand_stack s

unfoldable pub create : Operation → State → Value × State
unfolding emit
create operation s =
    let (value, builder) = emit operation s.builder in (value, record s { builder = builder })

-- `consume` of an operand.
unfoldable pub operand : ℕ → State → Outcome (ℕ × State)
unfolding consume
operand size s = do (value, rest) ← consume size s.current; ok (value, record s { current = rest })

unfoldable pub current_offset : Context → State → ℕ
current_offset context s = context.code_size - length s.current

unfoldable pub get_local : Context → ℕ → Outcome Value
get_local context index = elim (get_elem? context.locals index) [
  | none ↦ fails assertion
  | some local ↦ ok local
]

-- `addBasicBlock` for the instruction at `offset`. An insertion point that was never set refers to
-- no instruction, and is not the end of the entry block either.
unfoldable pub add_basic_block : ℕ → ℕ → State → Outcome (ℕ × State)
unfolding lookup create_block split
add_basic_block offset target s = elim (lookup target s.basic_blocks) [
  | some block ↦ ok (block, s)
  | none ↦
      let (last, forward) = create_block s.builder in
      if ltb offset target
      then ok (last, record s { builder = forward; basic_blocks = (target, last) ∷ s.basic_blocks })
      else elim (lookup target s.insert_points) [
        | none ↦ fails assertion
        | some after ↦ (do
          (original, builder) ← split after s.builder
          ok (
            original,
            record s { builder = builder; basic_blocks = (target, original) ∷ s.basic_blocks },
          ))
      ]
]

unfoldable pub last_number : List Instruction → Option ℕ
last_number [] = none
last_number (i ∷ []) = some i.number
last_number (i ∷ j ∷ rest) = last_number (j ∷ rest)

unfoldable pub handler_eq : Handler → Handler → Bool
handler_eq (pc, type) (pc', type') = pc == pc' && type == type'

-- The active handlers, the last one first; the last one that is equal is erased.
unfoldable pub erase_handler : Handler → List Handler → Outcome (List Handler)
unfolding handler_eq
erase_handler handler [] = fails assertion
erase_handler handler (h ∷ rest) =
    let later = erase_handler handler rest in
    if handler_eq h handler then ok rest else (do handlers ← later; ok (h ∷ handlers))

unfoldable pub start_handler : Option Handler → List Handler → List Handler
start_handler none active = active
start_handler (some handler) active = handler ∷ active

unfoldable pub end_handler : Option Handler → List Handler → Outcome (List Handler)
unfolding erase_handler
end_handler none active = ok active
end_handler (some handler) active = erase_handler handler active

unfoldable pub note_insert_point : ℕ → List Instruction → State → State
unfolding last_number
note_insert_point offset instructions s = elim (last_number instructions) [
  | none ↦ s
  | some number ↦ record s { insert_points = (offset, number) ∷ s.insert_points }
]

unfoldable pub set_insert_point : Option ℕ → State → State
set_insert_point none s = s
set_insert_point (some block) s = record s { builder = record s.builder { insert_block = block } }
