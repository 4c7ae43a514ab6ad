-- ===== src/Class/ClassFile/Text/Encoded.antt =====
-- `toUTF8` on the modified UTF-8 of a text.
use jllvm.Base.{
  ℕ, zero, suc, ◌+◌, ◌-◌, ◌*◌, ◌/◌, ◌%◌, ◌≤◌, ◌<◌, ◌≡◌, ◌≢◌, ◌⊎◌, refl, ap, ◌∙◌, inl, inr, Bool,
  true, false, not, ◌&&◌, ◌||◌, List, [], ◌∷◌, ◌++◌, arith, if◌then◌else◌, leb, ltb, ◌==◌, length,
  length-append, Outcome, ok, ◌>>=◌,
}
use jllvm.Class.ClassFile.Text.{
  deduce_byte_count, two_bytes, four_bytes, joined, three_bytes, character, to_utf8_on, to_utf8,
}

-- A code point in modified UTF-8: zero takes two bytes, and a code point outside the basic plane is
-- the pair of its surrogates.
abbrev pub modified : ℕ → List ℕ
modified cp =
    if cp == 0
    then 192 ∷ 128 ∷ []
    else (if ltb cp 128
        then cp ∷ []
        else (if ltb cp 2048
            then (192 + cp / 64) ∷ (128 + cp % 64) ∷ []
            else (if ltb cp 65536
                then (224 + cp / 4096) ∷ (128 + cp / 64 % 64) ∷ (128 + cp % 64) ∷ []
                else 237
                  ∷ (160 + (cp - 65536) / 65536)
                  ∷ (128 + cp / 1024 % 64)
                  ∷ 237
                  ∷ (176 + cp / 64 % 16)
                  ∷ (128 + cp % 64)
                  ∷ [])))

abbrev pub utf8 : ℕ → List ℕ
utf8 cp =
    if ltb cp 128
    then cp ∷ []
    else (if ltb cp 2048
        then (192 + cp / 64) ∷ (128 + cp % 64) ∷ []
        else (if ltb cp 65536
            then (224 + cp / 4096) ∷ (128 + cp / 64 % 64) ∷ (128 + cp % 64) ∷ []
            else (240 + cp / 262144)
              ∷ (128 + cp / 4096 % 64)
              ∷ (128 + cp / 64 % 64)
              ∷ (128 + cp % 64)
              ∷ []))

abbrev pub modified_text : List ℕ → List ℕ
modified_text [] = []
modified_text (cp ∷ cps) = modified cp ++ modified_text cps

abbrev pub utf8_text : List ℕ → List ℕ
utf8_text [] = []
utf8_text (cp ∷ cps) = utf8 cp ++ utf8_text cps

abbrev pub is_three : ℕ → Bool
is_three cp = leb 2048 cp && ltb cp 65536

-- No code point from U+D000 to U+DFFF, and no three-byte character directly before a pair.
abbrev pub IsSeparated : List ℕ → Type 0
IsSeparated [] = Unit
IsSeparated (cp ∷ []) = (cp < 1114112) × (cp / 4096 ≢ 13)
IsSeparated (cp ∷ next ∷ cps) =
    (cp < 1114112)
    × (cp / 4096 ≢ 13)
    × (is_three cp ≡ true → next < 65536)
    × IsSeparated (next ∷ cps)

-- What may stand behind three bytes that are no half of a pair.
abbrev MayFollow : List ℕ → Type 0
MayFollow [] = Unit
MayFollow (next ∷ rest) =
    (count : ℕ) × (deduce_byte_count next ≡ ok count)
    × ((not (count == 3) || not (next == 237)) ≡ true)

one : (cp : ℕ) (rest : List ℕ) → cp < 128 → character cp rest ≡ ok (cp ∷ [], rest)
unfolding character deduce_byte_count
one cp rest h = ground arith

two :
    (cp : ℕ) (rest : List ℕ)
    → 128 ≤ cp
    → cp < 2048
    → character (192 + cp / 64) ((128 + cp % 64) ∷ rest)
      ≡ ok ((192 + cp / 64) ∷ (128 + cp % 64) ∷ [], rest)
unfolding character deduce_byte_count two_bytes
two cp rest lo hi =
    let first : leb (192 + cp / 64) 127 ≡ false = ground arith in
    let class : ((192 + cp / 64) / 32 == 6) ≡ true = ground arith in
    let value : ((192 + cp / 64) % 32 * 64 + (128 + cp % 64) % 64 == 0) ≡ false = ground arith in
    rw (first, class, value) refl

three :
    (cp : ℕ) (rest : List ℕ)
    → 2048 ≤ cp
    → cp < 65536
    → cp / 4096 ≢ 13
    → MayFollow rest
    → character (224 + cp / 4096) ((128 + cp / 64 % 64) ∷ (128 + cp % 64) ∷ rest)
      ≡ ok ((224 + cp / 4096) ∷ (128 + cp / 64 % 64) ∷ (128 + cp % 64) ∷ [], rest)
unfolding character deduce_byte_count three_bytes
three cp [] lo hi plane f =
    let first : leb (224 + cp / 4096) 127 ≡ false = ground arith in
    let class : ((224 + cp / 4096) / 32 == 6) ≡ false = ground arith in
    let class' : ((224 + cp / 4096) / 16 == 14) ≡ true = ground arith in
    rw (first, class, class') refl
three cp (next ∷ rest) lo hi plane (count, d, f) =
    let first : leb (224 + cp / 4096) 127 ≡ false = ground arith in
    let class : ((224 + cp / 4096) / 32 == 6) ≡ false = ground arith in
    let class' : ((224 + cp / 4096) / 16 == 14) ≡ true = ground arith in
    let apart : (224 + cp / 4096 == 237) ≡ false = ground arith in
    let test : (not (count == 3) || (not (224 + cp / 4096 == 237) && not (next == 237))) ≡ true =
      rw apart f in
    rw (first, class, class', d, test) refl

pair :
    (cp : ℕ) (rest : List ℕ)
    → 65536 ≤ cp
    → cp < 1114112
    → character 237 (
        (160 + (cp - 65536) / 65536)
        ∷ (128 + cp / 1024 % 64)
        ∷ 237
        ∷ (176 + cp / 64 % 16)
        ∷ (128 + cp % 64)
        ∷ rest)
      ≡ ok (
        (240 + cp / 262144) ∷ (128 + cp / 4096 % 64) ∷ (128 + cp / 64 % 64) ∷ (128 + cp % 64) ∷ [],
        rest,
      )
unfolding character deduce_byte_count three_bytes four_bytes joined
pair cp rest lo hi =
    let value : 65536
          + (160 + (cp - 65536) / 65536) % 16 * 65536
          + (128 + cp / 1024 % 64) % 64 * 1024
          + (176 + cp / 64 % 16) % 16 * 64
          + (128 + cp % 64) % 64
        ≡ cp =
      omega arith in
    let top : cp / 262144 % 8 ≡ cp / 262144 = omega arith in rw (value, top) refl

-- The four sizes of a character.
size-cases :
    (cp : ℕ)
    → (cp ≡ 0)
      ⊎ ((0 < cp) × (cp < 128))
      ⊎ ((128 ≤ cp) × (cp < 2048))
      ⊎ ((2048 ≤ cp) × (cp < 65536))
      ⊎ (65536 ≤ cp)
size-cases cp = omega arith

may_follow :
    (next : ℕ) (rest : List ℕ) → next < 65536 → next / 4096 ≢ 13 → MayFollow (modified next ++ rest)
unfolding deduce_byte_count
may_follow next rest hi plane = elim (size-cases next) [
  | inl e ↦ rw e (2, refl, refl)
  | inr (inl (lo, up)) ↦
      let a : (next == 0) ≡ false = ground arith in
      let b : ltb next 128 ≡ true = ground arith in
      let c : leb next 127 ≡ true = ground arith in rw (a, b) (1, rw c refl, refl)
  | inr (inr (inl (lo, up))) ↦
      let a : (next == 0) ≡ false = ground arith in
      let b : ltb next 128 ≡ false = ground arith in
      let c : ltb next 2048 ≡ true = ground arith in
      let d : leb (192 + next / 64) 127 ≡ false = ground arith in
      let e : ((192 + next / 64) / 32 == 6) ≡ true = ground arith in
      rw (a, b, c) (2, rw (d, e) refl, refl)
  | inr (inr (inr (inl (lo, up)))) ↦
      let a : (next == 0) ≡ false = ground arith in
      let b : ltb next 128 ≡ false = ground arith in
      let c : ltb next 2048 ≡ false = ground arith in
      let c' : ltb next 65536 ≡ true = ground arith in
      let d : leb (224 + next / 4096) 127 ≡ false = ground arith in
      let e : ((224 + next / 4096) / 32 == 6) ≡ false = ground arith in
      let f : ((224 + next / 4096) / 16 == 14) ≡ true = ground arith in
      let g : (224 + next / 4096 == 237) ≡ false = ground arith in
      rw (a, b, c, c') (3, rw (d, e, f) refl, rw g refl)
  | inr (inr (inr (inr lo))) ↦ absurd (omega arith)
]

-- A round of the loop turns one encoded character.
step :
    (cp : ℕ) (rest : List ℕ) (fuel : ℕ)
    → cp < 1114112
    → cp / 4096 ≢ 13
    → (is_three cp ≡ true → MayFollow rest)
    → to_utf8_on (suc fuel) (modified cp ++ rest)
      ≡ (to_utf8_on fuel rest >>= λ result. ok (utf8 cp ++ result))
unfolding to_utf8_on
step cp rest fuel bound plane follow = elim (size-cases cp) [
  | inl e ↦ rw (e) (unfold character deduce_byte_count two_bytes in refl)
  | inr (inl (lo, up)) ↦
      let a : (cp == 0) ≡ false = ground arith in
      let b : ltb cp 128 ≡ true = ground arith in rw (a, b, one cp rest up) refl
  | inr (inr (inl (lo, up))) ↦
      let a : (cp == 0) ≡ false = ground arith in
      let b : ltb cp 128 ≡ false = ground arith in
      let c : ltb cp 2048 ≡ true = ground arith in rw (a, b, c, two cp rest lo up) refl
  | inr (inr (inr (inl (lo, up)))) ↦
      let a : (cp == 0) ≡ false = ground arith in
      let b : ltb cp 128 ≡ false = ground arith in
      let c : ltb cp 2048 ≡ false = ground arith in
      let d : ltb cp 65536 ≡ true = ground arith in
      rw (a, b, c, d, three cp rest lo up plane (follow (ground arith))) refl
  | inr (inr (inr (inr lo))) ↦
      let a : (cp == 0) ≡ false = ground arith in
      let b : ltb cp 128 ≡ false = ground arith in
      let c : ltb cp 2048 ≡ false = ground arith in
      let d : ltb cp 65536 ≡ false = ground arith in
      rw (a, b, c, d)
        (ap
          (λ (o : Outcome (List ℕ × List ℕ)).
            o >>= λ p. to_utf8_on fuel p.1 >>= λ result. ok (p.0 ++ result))
          (pair cp rest lo bound))
]

next_plane : (next : ℕ) (cps : List ℕ) → IsSeparated (next ∷ cps) → next / 4096 ≢ 13
next_plane next [] s = s.1
next_plane next (cp ∷ cps) s = s.1

length-modified : (cp : ℕ) → 1 ≤ length (modified cp)
length-modified cp = ground arith

length-modified_text : (cps : List ℕ) → length cps ≤ length (modified_text cps)
length-modified_text [] = omega arith
length-modified_text (cp ∷ cps) = omega (
  arith,
  length-modified cp,
  length-modified_text cps,
  length-append (modified cp) (modified_text cps),
)

encoded_on :
    (cps : List ℕ) (fuel : ℕ)
    → IsSeparated cps
    → length cps ≤ fuel
    → to_utf8_on fuel (modified_text cps) ≡ ok (utf8_text cps)
unfolding to_utf8_on
encoded_on [] fuel s h = refl
encoded_on (cp ∷ cps) zero s h = absurd (omega arith)
encoded_on (cp ∷ []) (suc fuel) (bound, plane) h = step cp [] fuel bound plane (λ t. tt) ∙ refl
encoded_on (cp ∷ next ∷ cps) (suc fuel) (bound, plane, apart, s) h =
    step cp (modified_text (next ∷ cps)) fuel bound plane
      (λ t. may_follow next (modified_text cps) (apart t) (next_plane next cps s))
    ∙ rw (encoded_on (next ∷ cps) fuel s (omega arith)) refl

-- toUTF8 turns a text in modified UTF-8 into the same text in UTF-8, if no code point is one of
-- U+D000 to U+DFFF and no character of three bytes stands directly before one outside the basic
-- plane.
pub to_utf8-modified_text :
    (cps : List ℕ) → IsSeparated cps → to_utf8 (modified_text cps) ≡ ok (utf8_text cps)
unfolding to_utf8
to_utf8-modified_text cps s =
    encoded_on cps (length (modified_text cps)) s (length-modified_text cps)
