-- ===== src/Materialization/Compiler/Body.antt =====
-- src/jllvm/materialization/ByteCodeCompileLayer.cpp: `codeGenBody` and `emit`, whose module is what
-- the next layer gets.
use jllvm.Base.{ℕ, List, [], ◌∷◌, none, some, map, length, Outcome, ok, fails, assertion, ◌>>=◌}
use jllvm.Class.Descriptors.{parse_method_type}
use jllvm.Class.ClassFile.{ClassFile}
use jllvm.Class.ClassFile.Constants.{ConstantPoolInfo}
use jllvm.Class.ClassFile.Members.{
  MemberInfo, ExceptionTable, Code, is_static, get_descriptor, find, parse_code,
}
use jllvm.Object.ClassObject.{ClassRef, ClassObject, Alignment}
use jllvm.Materialization.Types.{IrType, FunctionType, method_to_type}
use jllvm.Materialization.Mangling.{mangle_method_info}
use jllvm.Materialization.Compiler.Function.{Value, Builder, new_function}
use jllvm.Materialization.Compiler.State.{Handler, Query, Callback, Context, State}
use jllvm.Materialization.Compiler.Arguments.{create_locals, store_arguments}
use jllvm.Materialization.Compiler.Switch.{generate}

unfoldable pub start_handlers_of : List ExceptionTable → List (ℕ × Handler)
start_handlers_of = map (λ e. (e.start_pc, (e.handler_pc, e.catch_type)))

unfoldable pub end_handlers_of : List ExceptionTable → List (ℕ × Handler)
end_handlers_of = map (λ e. (e.end_pc, (e.handler_pc, e.catch_type)))

-- What the compiler reads of the class loader and of the process.
pub record Environment : Type 0 where
  pub alignment : Alignment
  pub objects : List ClassObject
  pub mapping : List (List ℕ × ClassRef)
  pub unique_address : Query → List ℕ

unfoldable pub context_of : Environment → List ConstantPoolInfo → Code → List Value → Context
unfolding start_handlers_of end_handlers_of
context_of environment pool code locals = record {
  pool = pool;
  objects = environment.objects;
  mapping = environment.mapping;
  unique_address = environment.unique_address;
  code_size = length code.code;
  start_handlers = start_handlers_of code.exception_table;
  end_handlers = end_handlers_of code.exception_table;
  locals = locals;
}

-- The state before the loop. The stubs are those that earlier calls have created.
unfoldable pub start_state : Builder → Code → List (List ℕ × Callback) → State
start_state builder code stubs = record {
  builder = builder;
  current = code.code;
  operand_stack = [];
  basic_blocks = [];
  insert_points = [];
  active_handlers = [];
  functions = [];
  stubs = stubs;
}

unfoldable pub code_gen_body :
    Environment
    → List ConstantPoolInfo
    → List IrType
    → Code
    → List (List ℕ × Callback)
    → Outcome State
unfolding new_function create_locals store_arguments context_of start_state generate
code_gen_body environment pool parameters code stubs = do
  let created = create_locals code.max_locals new_function
  builder ← store_arguments 0 parameters created.0 created.1
  generate environment.alignment (context_of environment pool code created.0) (length code.code)
      (start_state builder code stubs)

pub record Module : Type 0 where
  pub symbol : List ℕ
  pub type : FunctionType
  pub state : State

-- "Code"
abbrev code_name : List ℕ
code_name = b'C' ∷ b'o' ∷ b'd' ∷ b'e' ∷ []

-- `emit`
unfoldable pub emit_method :
    Environment → ClassFile → MemberInfo → List (List ℕ × Callback) → Outcome Module
unfolding mangle_method_info get_descriptor parse_method_type method_to_type is_static find
    parse_code code_gen_body
emit_method environment file info stubs = do
  symbol ← mangle_method_info file info
  text ← get_descriptor file.constant_pool info
  descriptor ← parse_method_type text
  let type = method_to_type descriptor (is_static info)
  elim (find code_name info.attributes) [
    | none ↦ fails assertion
    | some bytes ↦ (do
      code ← parse_code bytes
      state ← code_gen_body environment file.constant_pool type.parameters code stubs
      ok (record { symbol = symbol; type = type; state = state }))
  ]
