-- ===== src/Materialization/JniNames/Unescaped.antt =====
-- src/jllvm/materialization/JNIImplementationLayer.cpp: what `escape` keeps of a name.
use jllvm.Base.{
  ℕ, ◌≡◌, ◌≢◌, ◌⊎◌, refl, subst, ap, sym, ◌∙◌, inl, inr, false, List, [], ◌∷◌, ◌++◌, arith,
  if◌then◌else◌, ◌==◌, ==_iff, Bool-cases,
}
use jllvm.Materialization.JniNames.{escape_character, escape}

-- No digit from 1 to 3 directly behind a slash, as in the names of Java.
abbrev pub IsEscapable : List ℕ → Type 0
IsEscapable [] = Unit
IsEscapable (c ∷ []) = Unit
IsEscapable (c ∷ d ∷ s) = (c ≡ b'/' → (d ≢ b'1') × (d ≢ b'2') × (d ≢ b'3')) × IsEscapable (d ∷ s)

unescape : List ℕ → List ℕ
unescape [] = []
unescape (c ∷ []) = (if c == b'_' then b'/' else c) ∷ []
unescape (c ∷ d ∷ s) =
    let two = unescape s in
    let one = unescape (d ∷ s) in
    if c == b'_'
    then (if d == b'1'
        then b'_' ∷ two
        else (if d == b'2' then b';' ∷ two else (if d == b'3' then b'[' ∷ two else b'/' ∷ one)))
    else c ∷ one

-- A character that is not followed by a digit which would be read with it.
plain : (c : ℕ) (s : List ℕ) → (c == b'_') ≡ false → unescape (c ∷ s) ≡ c ∷ unescape s
unfolding unescape
plain c [] h = rw h refl
plain c (d ∷ s) h = rw h refl

slash :
    (d : ℕ) (s : List ℕ)
    → (d == b'1') ≡ false
    → (d == b'2') ≡ false
    → (d == b'3') ≡ false
    → unescape (b'_' ∷ d ∷ s) ≡ b'/' ∷ unescape (d ∷ s)
unfolding unescape
slash d s h₁ h₂ h₃ = rw (h₁, h₂, h₃) refl

-- An escaped character starts with itself or with an underscore.
escaped_first :
    (d : ℕ) (s : List ℕ)
    → (e : ℕ) × (t : List ℕ) × (escape_character d ++ s ≡ e ∷ t) × ((e ≡ d) ⊎ (e ≡ b'_'))
unfolding escape_character
escaped_first d s = elim (Bool-cases (d == b'/')) [
  | inl a ↦ rw a (b'_', s, refl, inr refl)
  | inr a ↦ elim (Bool-cases (d == b'_')) [
    | inl b ↦ rw (a, b) (b'_', _, refl, inr refl)
    | inr b ↦ elim (Bool-cases (d == b';')) [
      | inl c ↦ rw (a, b, c) (b'_', _, refl, inr refl)
      | inr c ↦ elim (Bool-cases (d == b'[')) [
        | inl e ↦ rw (a, b, c, e) (b'_', _, refl, inr refl)
        | inr e ↦ rw (a, b, c, e) (d, s, refl, inl refl)
      ]
    ]
  ]
]

-- A slash before an escaped text.
unescape-slash :
    (s : List ℕ) → IsEscapable (b'/' ∷ s) → unescape (b'_' ∷ escape s) ≡ b'/' ∷ unescape (escape s)
unfolding escape
unescape-slash [] h = unfold unescape in refl
unescape-slash (d ∷ s) (h, hs) =
    let (n₁, n₂, n₃) = h refl in
    let (e, t, split, first) = escaped_first d (escape s) in
    rw split (
      slash e t (ground (arith, first, n₁)) (ground (arith, first, n₂)) (ground (arith, first, n₃)))

behind : (c : ℕ) (s : List ℕ) → IsEscapable (c ∷ s) → IsEscapable s
behind c [] h = tt
behind c (d ∷ s) h = h.1

unescape-escape : (s : List ℕ) → IsEscapable s → unescape (escape s) ≡ s
unfolding escape escape_character unescape
unescape-escape [] h = refl
unescape-escape (c ∷ s) h =
    let ih = unescape-escape s (behind c s h) in
    elim (Bool-cases (c == b'/')) [
      | inl a ↦
          let e = (==_iff c b'/').0 a in
          let h' = subst (λ (x : ℕ). IsEscapable (x ∷ s)) e h in
          rw (a, e) (unescape-slash s h' ∙ ap (λ (r : List ℕ). b'/' ∷ r) ih)
      | inr a ↦ elim (Bool-cases (c == b'_')) [
        | inl b ↦ rw (a, b, (==_iff c b'_').0 b) (ap (λ (r : List ℕ). b'_' ∷ r) ih)
        | inr b ↦ elim (Bool-cases (c == b';')) [
          | inl d ↦ rw (a, b, d, (==_iff c b';').0 d) (ap (λ (r : List ℕ). b';' ∷ r) ih)
          | inr d ↦ elim (Bool-cases (c == b'[')) [
            | inl e ↦ rw (a, b, d, e, (==_iff c b'[').0 e) (ap (λ (r : List ℕ). b'[' ∷ r) ih)
            | inr e ↦ rw (a, b, d, e) (plain c (escape s) b ∙ ap (λ (r : List ℕ). c ∷ r) ih)
          ]
        ]
      ]
    ]

-- Different names have different escaped forms, if in neither a slash is directly followed by one
-- of the digits 1, 2 and 3.
pub escape-injective : (s t : List ℕ) → IsEscapable s → IsEscapable t → s ≢ t → escape s ≢ escape t
escape-injective s t hs ht distinct e =
    distinct (sym (unescape-escape s hs) ∙ ap unescape e ∙ unescape-escape t ht)
