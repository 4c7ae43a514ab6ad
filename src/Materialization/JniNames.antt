-- ===== src/Materialization/JniNames.antt =====
-- src/jllvm/materialization/JNIImplementationLayer.cpp: `escape`, and the names under which `emit`
-- looks for the implementation of a native method.
pub mod Unescaped
mod Tests
use jllvm.Base.{ℕ, ◌≡◌, List, [], ◌∷◌, ◌++◌, if◌then◌else◌, ◌==◌, Outcome, ok, ◌>>=◌}
use jllvm.Class.Descriptors.{drop_front, take_until}
use jllvm.Class.ClassFile.{ClassFile, get_this_class}
use jllvm.Class.ClassFile.Members.{MemberInfo, get_name, get_descriptor}

escape_character : ℕ → List ℕ
escape_character c =
    if c == b'/'
    then b'_' ∷ []
    else (if c == b'_'
        then b'_' ∷ b'1' ∷ []
        else (if c == b';'
            then b'_' ∷ b'2' ∷ []
            else (if c == b'[' then b'_' ∷ b'3' ∷ [] else c ∷ [])))

pub escape : List ℕ → List ℕ
unfolding escape_character
escape [] = []
escape (c ∷ s) = escape_character c ++ escape s

-- "Java_"
abbrev java_prefix : List ℕ
java_prefix = b'J' ∷ b'a' ∷ b'v' ∷ b'a' ∷ b'_' ∷ []

-- The short name.
unfoldable pub jni_name : ClassFile → MemberInfo → Outcome (List ℕ)
unfolding escape get_this_class get_name
jni_name file info = do
  class ← get_this_class file
  name ← get_name file.constant_pool info
  ok (java_prefix ++ escape class ++ b'_' ∷ escape name)

-- The name with the parameters, which the source appends as they are.
unfoldable pub overloaded_name : ClassFile → MemberInfo → Outcome (List ℕ)
unfolding jni_name get_descriptor drop_front take_until
overloaded_name file info = do
  name ← jni_name file info
  descriptor ← get_descriptor file.constant_pool info
  behind ← drop_front 1 descriptor
  ok (name ++ b'_' ∷ b'_' ∷ take_until b')' behind)
