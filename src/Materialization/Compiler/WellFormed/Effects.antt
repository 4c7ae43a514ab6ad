-- ===== src/Materialization/Compiler/WellFormed/Effects.antt =====
-- What becomes of the operand stack: the values on top that are taken and put there, above a rest
-- that stays.
use jllvm.Base.{
  ℕ, zero, suc, ◌+◌, ◌-◌, ◌≤◌, ◌≡◌, refl, sym, ◌∙◌, ap, List, [], ◌∷◌, length, drop, length-drop,
  arith,
}

pub record Effect {ℓ} {A : Type ℓ} (pops pushes : ℕ) (before after : List A) : Type ℓ where
  pub enough : pops ≤ length before
  pub pushed : pushes ≤ length after
  pub rest_stays : drop pushes after ≡ drop pops before

module _ {ℓ} {A : Type ℓ} where
  drop-nil : (n : ℕ) → ◌≡◌ {A = List A} (drop n []) []
  drop-nil zero = refl
  drop-nil (suc n) = refl

  drop-drop : (m n : ℕ) (xs : List A) → drop n (drop m xs) ≡ drop (m + n) xs
  drop-drop zero n xs = ap (λ k. drop k xs) (omega arith)
  drop-drop (suc m) n [] = drop-nil n ∙ sym (drop-nil (suc m + n))
  drop-drop (suc m) n (x ∷ xs) =
      let sum : suc (m + n) ≡ suc m + n = omega arith in
      drop-drop m n xs ∙ ap (λ k. drop k (x ∷ xs)) sum

  pub Effect-trans :
      {pops pushes pops' pushes' : ℕ} {before between after : List A}
      → Effect pops pushes before between
      → Effect pops' pushes' between after
      → Effect (pops + (pops' - pushes)) (pushes' + (pushes - pops')) before after
  Effect-trans {pops} {pushes} {pops'} {pushes'} {before} {between} {after} h k =
      let a = length-drop pushes between in
      let b = length-drop pops before in
      let c = length-drop pushes' after in
      let d = length-drop pops' between in
      let first = ap length h.rest_stays in
      let second = ap length k.rest_stays in
      let middle : drop (pops' + (pushes - pops')) between
          ≡ drop (pushes + (pops' - pushes)) between =
        ap (λ n. drop n between) (omega arith) in
      record {
        enough = omega (arith, h.enough, h.pushed, k.enough, k.pushed);
        pushed = omega (arith, h.enough, h.pushed, k.enough, k.pushed);
        rest_stays =
            sym (drop-drop pushes' (pushes - pops') after)
            ∙ ap (drop (pushes - pops')) k.rest_stays
            ∙ drop-drop pops' (pushes - pops') between
            ∙ middle
            ∙ sym (drop-drop pushes (pops' - pushes) between)
            ∙ ap (drop (pops' - pushes)) h.rest_stays
            ∙ drop-drop pops (pops' - pushes) before;
      }

  pub Effect-refl : (xs : List A) → Effect 0 0 xs xs
  Effect-refl xs = record { enough = omega arith; pushed = omega arith; rest_stays = refl }

  pub Effect-eq :
      {pops pushes : ℕ} {before after : List A} (pops' pushes' : ℕ)
      → pops ≡ pops'
      → pushes ≡ pushes'
      → Effect pops pushes before after
      → Effect pops' pushes' before after
  Effect-eq pops' pushes' p q h = rw (← p, ← q) h
