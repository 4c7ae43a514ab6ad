-- ===== src/Materialization/Mangling.antt =====
-- src/jllvm/materialization/ByteCodeLayer.cpp: the symbol under which a method is defined.
pub mod Unique
mod Tests
use jllvm.Base.{ℕ, List, ◌∷◌, ◌++◌, Outcome, ok, ◌>>=◌}
use jllvm.Class.ClassFile.{ClassFile, get_this_class}
use jllvm.Class.ClassFile.Members.{MemberInfo, get_name, get_descriptor}

unfoldable pub mangle_method : List ℕ → List ℕ → List ℕ → List ℕ
mangle_method class_name method_name descriptor =
    class_name ++ b'.' ∷ (method_name ++ b':' ∷ descriptor)

-- `mangleMethod` of a method of a class file, which is also the symbol that `getSymbolsProvided`
-- promises.
unfoldable pub mangle_method_info : ClassFile → MemberInfo → Outcome (List ℕ)
unfolding get_this_class get_name get_descriptor mangle_method
mangle_method_info file info = do
  class_name ← get_this_class file
  method_name ← get_name file.constant_pool info
  descriptor ← get_descriptor file.constant_pool info
  ok (mangle_method class_name method_name descriptor)
