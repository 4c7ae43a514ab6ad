-- ===== src/Vm/VirtualMachine.antt =====
-- src/jllvm/vm/VirtualMachine.cpp and `JIT::add` of src/jllvm/vm/JIT.cpp: what is done with a class
-- object that was created, and the run of `main`. The JIT belongs to LLVM: `lookup` is the address
-- of a method, by class, name and descriptor, and `call` is what running compiled code does to the
-- rest of the process.
pub mod Filled
mod Tests
use jllvm.Base.{
  ℕ, zero, suc, Bool, true, false, not, ◌&&◌, List, [], ◌∷◌, ◌++◌, Option, none, some,
  if◌then◌else◌, ◌==◌, get_elem?, Outcome, ok, fails, assertion, fatal, ◌>>=◌,
}
use jllvm.Class.ClassFile.{ClassFile}
use jllvm.Class.ClassFile.Members.{MemberInfo, is_native, is_abstract}
use jllvm.Object.ClassObject.{Method, get_v_table_slot, ClassObject}
use jllvm.Materialization.Mangling.{mangle_method_info}

-- The layer that a method is given to.
pub data Layer : Type 0 where
  byte_code_on_demand jni : Layer

-- `JIT::add`, as the list of the symbols that are defined.
unfoldable pub add_methods : ClassFile → List MemberInfo → Outcome (List (Layer × List ℕ))
unfolding is_abstract is_native mangle_method_info
add_methods file [] = ok []
add_methods file (info ∷ rest) =
    let later = add_methods file rest in
    if is_abstract info then later else (do
      symbol ← mangle_method_info file info
      symbols ← later
      ok ((if is_native info then jni else byte_code_on_demand, symbol) ∷ symbols))

unfoldable pub set_elem : ℕ → ℕ → List ℕ → List ℕ
set_elem i value [] = []
set_elem zero value (x ∷ xs) = value ∷ xs
set_elem (suc i) value (x ∷ xs) = x ∷ set_elem i value xs

-- "<clinit>", "()V"; "main", "([Ljava/lang/String;)V"
abbrev clinit : List ℕ
clinit = b'<' ∷ b'c' ∷ b'l' ∷ b'i' ∷ b'n' ∷ b'i' ∷ b't' ∷ b'>' ∷ []

abbrev no_arguments : List ℕ
no_arguments = b'(' ∷ b')' ∷ b'V' ∷ []

abbrev main_name : List ℕ
main_name = b'm' ∷ b'a' ∷ b'i' ∷ b'n' ∷ []

abbrev main_descriptor : List ℕ
main_descriptor =
    b'(' ∷ b'[' ∷ b'L' ∷ b'j' ∷ b'a' ∷ b'v' ∷ b'a' ∷ b'/' ∷ b'l' ∷ b'a' ∷ b'n' ∷ b'g' ∷ b'/' ∷ b'S'
    ∷ b't' ∷ b'r' ∷ b'i' ∷ b'n' ∷ b'g' ∷ b';' ∷ b')' ∷ b'V' ∷ []

module _ (lookup : List ℕ → List ℕ → List ℕ → Option ℕ) where
  -- A slot that is still zero; `cantFail` ends the process where there is no such symbol.
  fill_slot : List ℕ → Method → ℕ → ℕ → List ℕ → Outcome (List ℕ)
  unfolding set_elem
  fill_slot class_name m slot old v_table =
      if old == 0
      then elim (lookup class_name m.name m.descriptor) [
        | none ↦ fails fatal
        | some address ↦ ok (set_elem slot address v_table)
      ]
      else ok v_table

  -- The body of the inner loop.
  unfoldable pub fill_method : List ℕ → Method → List ℕ → Outcome (List ℕ)
  unfolding get_v_table_slot fill_slot
  fill_method class_name m v_table =
      if m.is_abstract then ok v_table else elim (get_v_table_slot m) [
        | none ↦ ok v_table
        | some slot ↦ elim (get_elem? v_table slot) [
          | none ↦ fails assertion
          | some old ↦ fill_slot class_name m slot old v_table
        ]
      ]

  unfoldable pub fill_methods : List ℕ → List Method → List ℕ → Outcome (List ℕ)
  unfolding fill_method
  fill_methods class_name [] v_table = ok v_table
  fill_methods class_name (m ∷ rest) v_table = do
    v_table ← fill_method class_name m v_table
    fill_methods class_name rest v_table

  -- The outer loop, over the class and its super classes.
  unfoldable pub fill_chain : List ClassObject → List ℕ → Outcome (List ℕ)
  unfolding fill_methods
  fill_chain [] v_table = ok v_table
  fill_chain (c ∷ rest) v_table = do
    v_table ← fill_methods c.class_name c.methods v_table
    fill_chain rest v_table

  module _ {W : Type 0} (call : ℕ → W → W) where
    -- The callback for a class object that was created: its methods are defined, its initializer is
    -- run if it has one, and its v-table is filled.
    unfoldable pub class_object_created :
        ClassFile
        → List ℕ
        → ClassObject
        → List ClassObject
        → W
        → Outcome ((List (Layer × List ℕ) × List ℕ) × W)
    unfolding add_methods fill_chain
    class_object_created file class_name object supers world = do
      symbols ← add_methods file file.methods
      let world : W = elim (lookup class_name clinit no_arguments) [
        | none ↦ world
        | some address ↦ call address world
      ]
      v_table ← fill_chain (object ∷ supers) object.v_table
      ok ((symbols, v_table), world)

    -- `executeMain`, from the class that its file was loaded as.
    unfoldable pub execute_main : Option ClassObject → W → Outcome (ℕ × W)
    execute_main none world = fails fatal
    execute_main (some object) world = elim (lookup object.class_name main_name main_descriptor) [
      | none ↦ fails fatal
      | some address ↦ ok (0, call address world)
    ]
