-- ===== src/Materialization/Mangling/Tests.antt =====
-- Symbols of methods.
use jllvm.Base.{ℕ, ◌≡◌, refl, List, [], ◌∷◌, arith}
use jllvm.Materialization.Mangling.{mangle_method}
use jllvm.Materialization.Mangling.Unique.{mangle_method_unique}

-- "A/b", "f", "(I)V"
abbrev class : List ℕ
class = b'A' ∷ b'/' ∷ b'b' ∷ []

abbrev name : List ℕ
name = b'f' ∷ []

abbrev descriptor : List ℕ
descriptor = b'(' ∷ b'I' ∷ b')' ∷ b'V' ∷ []

symbol :
    mangle_method class name descriptor
    ≡ b'A' ∷ b'/' ∷ b'b' ∷ b'.' ∷ b'f' ∷ b':' ∷ b'(' ∷ b'I' ∷ b')' ∷ b'V' ∷ []
unfolding mangle_method
symbol = refl

mangle_method_unique_example : (class ≡ class) × (name ≡ name) × (descriptor ≡ descriptor)
mangle_method_unique_example =
    mangle_method_unique class class name name descriptor descriptor
      ((λ e. omega (arith, e)), ((λ e. omega (arith, e)), ((λ e. omega (arith, e)), tt)))
      ((λ e. omega (arith, e)), ((λ e. omega (arith, e)), ((λ e. omega (arith, e)), tt)))
      ((λ e. omega (arith, e)), tt) ((λ e. omega (arith, e)), tt) refl
