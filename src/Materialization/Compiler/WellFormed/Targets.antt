-- ===== src/Materialization/Compiler/WellFormed/Targets.antt =====
-- New blocks, and blocks that are split, keep a function closed.
use mathlib.Core.Logic.{◌⊎◌, inl, inr}
use jllvm.Base.{
  ℕ, suc, ◌≤◌, ◌<◌, ◌≡◌, refl, sym, ◌∙◌, ap, List, [], ◌∷◌, ◌++◌, Option, none, some, ◌==◌, ◌||◌,
  true, All, All-append, length, length-append, Outcome, ok, fails, ◌>>=◌, Bool-cases, Option-cases,
  >>=-eq-ok, ok-pair, arith,
}
use jllvm.Materialization.Compiler.Function.{
  br, Instruction, Block, Builder, create_block, cut_behind, split_blocks, split,
}
use jllvm.Materialization.Compiler.WellFormed.{
  IsClosedInstruction, IsClosedBlock, IsNamed, IsClosedBuilder, is_held_in, is_held,
}
use jllvm.Materialization.Compiler.WellFormed.Emitting.{
  IsClosedBlock-le, IsClosedBlocks-le, IsClosedInstructions-le, is_held_in-append, below_suc,
}

IsNamed-append_left : (name : ℕ) (bs cs : List Block) → IsNamed name bs → IsNamed name (bs ++ cs)
IsNamed-append_left name [] cs h = elim h [ ]
IsNamed-append_left name (b ∷ bs) cs h = elim h [
  | inl p ↦ inl p
  | inr q ↦ inr (IsNamed-append_left name bs cs q)
]

IsNamed-append_right : (name : ℕ) (bs cs : List Block) → IsNamed name cs → IsNamed name (bs ++ cs)
IsNamed-append_right name [] cs h = h
IsNamed-append_right name (b ∷ bs) cs h = inr (IsNamed-append_right name bs cs h)

is_held-append :
    (number : ℕ) (bs cs : List Block)
    → is_held number (bs ++ cs) ≡ (is_held number bs || is_held number cs)
is_held-append number [] cs = refl
is_held-append number (b ∷ bs) cs = ground (arith, is_held-append number bs cs)

pub create_block-IsClosedBuilder :
    (b : Builder) → IsClosedBuilder b → IsClosedBuilder (create_block b).1
unfolding create_block
create_block-IsClosedBuilder b h =
    let n = b.value_count in
    let count = b.block_count in
    let same : n ≤ n = omega arith in
    let le : count ≤ suc count = omega arith in
    let last : Block = record { name = count; instructions = [] } in
    (
      All-append (IsClosedBlock n (suc count)) b.blocks (last ∷ [])
          (IsClosedBlocks-le same le b.blocks h.0) ((omega arith, tt), tt),
      (
        omega (arith, length-append b.blocks (last ∷ []), h.1.0),
        λ name lt. elim (below_suc name count lt) [
          | inl old ↦ IsNamed-append_left name b.blocks (last ∷ []) (h.1.1 name old)
          | inr new ↦ IsNamed-append_right name b.blocks (last ∷ []) (inl new)
        ],
      ),
      omega (arith, h.2),
      λ number lt. ground (arith, h.3 number lt, is_held-append number b.blocks (last ∷ [])),
    )

joined : Option (List Instruction × List Instruction) → List Instruction
joined none = []
joined (some (head, tail)) = head ++ tail

cut_behind-append :
    (after : ℕ) (is : List Instruction) {head tail : List Instruction}
    → cut_behind after is ≡ some (head, tail)
    → head ++ tail ≡ is
unfolding cut_behind joined
cut_behind-append after [] h = cc
cut_behind-append after (i ∷ is) h = elim (Bool-cases (i.number == after)) [
  | inl e ↦ (let found = rw e at h in cc)
  | inr e ↦ elim (Option-cases (cut_behind after is)) [
    | inl none_found ↦ (let absent = rw (e, none_found) at h in cc)
    | inr ((head, tail), found) ↦
        sym (ap joined (rw (e, found) at h))
        ∙ ap (λ rest. i ∷ rest) (cut_behind-append after is found)
  ]
]

-- All of both parts, from all of the whole.
All-parts {ℓ κ} :
    {A : Type ℓ} (P : A → Type κ) (xs ys : List A) → All P (xs ++ ys) → All P xs × All P ys
All-parts P [] ys h = (tt, h)
All-parts P (x ∷ xs) ys h = let rest = All-parts P xs ys h.1 in ((h.0, rest.0), rest.1)

-- What splitting makes of the blocks: one more, with the new name, and all closed.
abbrev IsSplit : ℕ → ℕ → List Block → Outcome (ℕ × List Block) → Type 0
IsSplit n count bs (fails f) = Unit
IsSplit n count bs (ok (original, bs')) =
    All (IsClosedBlock (suc n) (suc count)) bs'
    × (original < suc count)
    × (length bs' ≡ suc (length bs))
    × ((name : ℕ) → IsNamed name bs ⊎ (count ≡ name) → IsNamed name bs')
    × ((number : ℕ) → (is_held number bs ≡ true) ⊎ (n ≡ number) → is_held number bs' ≡ true)

split_blocks-IsSplit :
    (after n count : ℕ) (bs : List Block)
    → All (IsClosedBlock n count) bs
    → IsSplit n count bs (split_blocks after count n bs)
unfolding split_blocks
split_blocks-IsSplit after n count [] h = tt
split_blocks-IsSplit after n count (b ∷ bs) h =
    elim (Option-cases (cut_behind after b.instructions)) [
      | inl absent ↦
          rw (absent, IsSplit)
            (let later = split_blocks-IsSplit after n count bs h.1 in
              later-split after n count b bs h.0 (split_blocks after count n bs) later)
      | inr ((head, []), found) ↦ rw (found, IsSplit) tt
      | inr ((head, i ∷ tail), found) ↦
          rw (found, IsSplit)
            (let le : n ≤ suc n = omega arith in
              let le' : count ≤ suc count = omega arith in
              let whole = cut_behind-append after b.instructions found in
              let closed = IsClosedInstructions-le le le' b.instructions h.0.1 in
              let P = IsClosedInstruction (suc n) (suc count) in
              let parts = All-parts P head (i ∷ tail) (rw (← whole) at closed) in
              let own = h.0.0 in
              let branch : Instruction = record { number = n; operation = br b.name } in
              (
                (
                  (
                    omega arith,
                    All-append P head (branch ∷ []) parts.0 ((omega arith, omega (arith, own)), tt),
                  ),
                  ((omega (arith, own), parts.1), IsClosedBlocks-le le le' bs h.1),
                ),
                omega (arith, own),
                refl,
                λ name k. elim k [
                  | inl (inl p) ↦ inr (inl p)
                  | inl (inr q) ↦ inr (inr q)
                  | inr e ↦ inl e
                ],
                λ number k.
                    let moved = is_held_in-append number head (i ∷ tail) in
                    let before = is_held_in-append number head (branch ∷ []) in
                    let all : is_held_in number b.instructions
                        ≡ (is_held_in number head || is_held_in number (i ∷ tail)) =
                      ap (is_held_in number) (sym whole) ∙ moved in
                    elim k [
                      | inl old ↦ ground (arith, old, all, before)
                      | inr new ↦ ground (arith, new, before)
                    ],
              ))
    ]
  where
    later-split :
        (after n count : ℕ) (b : Block) (bs : List Block)
        → IsClosedBlock n count b
        → (o : Outcome (ℕ × List Block)) → IsSplit n count bs o
        → IsSplit n count (b ∷ bs) (o >>= λ (original, blocks). ok (original, b ∷ blocks))
    later-split after n count b bs hb (fails f) h = tt
    later-split after n count b bs hb (ok (original, bs')) h =
        let le : n ≤ suc n = omega arith in
        let le' : count ≤ suc count = omega arith in
        (
          (IsClosedBlock-le le le' b hb, h.0),
          h.1,
          ap suc h.2,
          λ name k. elim k [
            | inl (inl p) ↦ inl p
            | inl (inr q) ↦ inr (h.3 name (inl q))
            | inr e ↦ inr (h.3 name (inr e))
          ],
          λ number k. elim k [
            | inr e ↦ (let new = h.4 number (inr e) in ground (arith, new))
            | inl held ↦ elim (Bool-cases (is_held number bs)) [
              | inl later ↦ (let kept = h.4 number (inl later) in ground (arith, kept))
              | inr absent ↦ ground (arith, held, absent)
            ]
          ],
        )

pub split-IsClosedBuilder :
    (after : ℕ) (b : Builder) {original : ℕ} {b' : Builder}
    → IsClosedBuilder b
    → split after b ≡ ok (original, b')
    → IsClosedBuilder b'
      × (original < b'.block_count)
      × (b'.value_count ≡ suc b.value_count)
      × (b'.block_count ≡ suc b.block_count)
unfolding split
split-IsClosedBuilder after b {original} {b'} h e =
    let n = b.value_count in
    let count = b.block_count in
    let parts = split_blocks-IsSplit after n count b.blocks h.0 in
    let run = >>=-eq-ok (split_blocks after count n b.blocks) _ e in
    let facts = rw run.1 at parts in
    let built = ok-pair run.2 in
    rw (← built.1, ← built.0)
      (
        (
          facts.0,
          (
            omega (arith, facts.2, h.1.0),
            λ name lt. elim (below_suc name count lt) [
              | inl old ↦ facts.3 name (inl (h.1.1 name old))
              | inr new ↦ facts.3 name (inr new)
            ],
          ),
          omega (arith, h.2),
          λ number lt. elim (below_suc number n lt) [
            | inl old ↦ facts.4 number (inl (h.3 number old))
            | inr new ↦ facts.4 number (inr new)
          ],
        ),
        facts.1,
        refl,
        refl,
      )
