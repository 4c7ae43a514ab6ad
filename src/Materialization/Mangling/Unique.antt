-- ===== src/Materialization/Mangling/Unique.antt =====
-- `mangleMethod`: whom a symbol belongs to.
use jllvm.Base.{ℕ, ◌≡◌, ◌≢◌, refl, sym, List, [], ◌∷◌, ◌++◌, All}
use jllvm.Materialization.Mangling.{mangle_method}

-- The byte does not occur.
abbrev pub IsFree : ℕ → List ℕ → Type 0
IsFree c s = All (λ x. x ≢ c) s

cons-eq : {x y : ℕ} {s t : List ℕ} → x ∷ s ≡ y ∷ t → (x ≡ y) × (s ≡ t)
cons-eq h = (cc, cc)

-- What stands before and behind the first separator.
split_unique :
    (c : ℕ) (s t : List ℕ) {s' t' : List ℕ}
    → IsFree c s
    → IsFree c t
    → s ++ c ∷ s' ≡ t ++ c ∷ t'
    → (s ≡ t) × (s' ≡ t')
split_unique c [] [] hs ht h = (refl, (cons-eq h).1)
split_unique c [] (y ∷ t) hs ht h = absurd (ht.0 (sym (cons-eq h).0))
split_unique c (x ∷ s) [] hs ht h = absurd (hs.0 (cons-eq h).0)
split_unique c (x ∷ s) (y ∷ t) hs ht h =
    let rest = split_unique c s t hs.1 ht.1 (cons-eq h).1 in
    let first = (cons-eq h).0 in (cc, rest.1)

-- Two methods with the same symbol agree in class, name and descriptor, when no class name has a
-- dot (the class file format separates by slashes) and no method name a colon.
pub mangle_method_unique :
    (class₁ class₂ name₁ name₂ descriptor₁ descriptor₂ : List ℕ)
    → IsFree b'.' class₁
    → IsFree b'.' class₂
    → IsFree b':' name₁
    → IsFree b':' name₂
    → mangle_method class₁ name₁ descriptor₁ ≡ mangle_method class₂ name₂ descriptor₂
    → (class₁ ≡ class₂) × (name₁ ≡ name₂) × (descriptor₁ ≡ descriptor₂)
unfolding mangle_method
mangle_method_unique class₁ class₂ name₁ name₂ descriptor₁ descriptor₂ hc₁ hc₂ hn₁ hn₂ h =
    let classes = split_unique b'.' class₁ class₂ hc₁ hc₂ h in
    let names = split_unique b':' name₁ name₂ hn₁ hn₂ classes.1 in (classes.0, names.0, names.1)
