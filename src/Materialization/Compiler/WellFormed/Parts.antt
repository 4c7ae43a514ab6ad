-- ===== src/Materialization/Compiler/WellFormed/Parts.antt =====
-- The parts that the instructions share run.
use jllvm.Base.{
  ℕ, zero, suc, ◌≤◌, ◌<◌, ◌≡◌, refl, ◌∙◌, ap, ltb, leb, ◌==◌, inl, inr, List, [], ◌∷◌, some, All,
  length, length-drop, get_elem?, ok, fails, ok-eq, ok-pair, subst, Bool-cases, Option-cases,
  Outcome-cases, arith,
}
use jllvm.Support.Bytes.{consume}
use jllvm.Materialization.Compiler.Function.{Value, Builder, split}
use jllvm.Materialization.Compiler.State.{
  Context, State, lookup, pop_of, pop_value, operand, get_local, add_basic_block,
}
use jllvm.Materialization.Compiler.WellFormed.{IsKnown, HasTarget, IsWellFormed, IsClosedBuilder}
use jllvm.Materialization.Compiler.WellFormed.Effects.{Effect-refl}
use jllvm.Materialization.Compiler.WellFormed.Emitting.{All-weaken, IsKnown-le}
use jllvm.Materialization.Compiler.WellFormed.Targets.{
  create_block-IsClosedBuilder, split-IsClosedBuilder,
}
use jllvm.Materialization.Compiler.WellFormed.Ending.{consume-ne-out_of_fuel, split-ne-out_of_fuel}
use jllvm.Materialization.Compiler.WellFormed.Running.{Runs, Yields, Known, Target, Runs-refl}

-- An operand is what `consume` reads.
abbrev pub Consumed : ℕ → State → State → ℕ → Type 0
Consumed size s t n = consume size s.current ≡ ok (n, t.current)

pub consume-le :
    (size : ℕ) (bytes : List ℕ) {n : ℕ} {rest : List ℕ}
    → consume size bytes ≡ ok (n, rest)
    → length rest ≤ length bytes
unfolding consume
consume-le size bytes {rest = rest} e = elim (Bool-cases (leb size (length bytes))) [
  | inl enough ↦
      let same = ok-pair (rw enough at e) in rw (← same.1) (omega (arith, length-drop size bytes))
  | inr short ↦ (let no = rw short at e in cc)
]

All-get {ℓ κ} :
    {A : Type ℓ} (P : A → Type κ) (xs : List A) (i : ℕ) {a : A}
    → All P xs
    → get_elem? xs i ≡ some a
    → P a
All-get P [] i h e = cc
All-get P (x ∷ xs) zero h e = let same : x ≡ _ = cc in subst P same h.0
All-get P (x ∷ xs) (suc i) h e = All-get P xs i h.1 e

pub get_local-Known :
    (context : Context) (s : State) (index : ℕ) {local : Value}
    → IsWellFormed context s
    → get_local context index ≡ ok local
    → Known s local
unfolding get_local
get_local-Known context s index h e = elim (Option-cases (get_elem? context.locals index)) [
  | inl absent ↦ (let no = rw (absent, get_local) at e in cc)
  | inr (local, found) ↦
      let same = rw (found, get_local) at e in
      All-get (IsKnown s.builder.value_count) context.locals index h.3
        (found ∙ ap some (ok-eq same))
]

pub lookup-target :
    (target : ℕ) (entries : List (ℕ × ℕ)) {blocks block : ℕ}
    → All (HasTarget blocks) entries
    → lookup target entries ≡ some block
    → block < blocks
unfolding lookup
lookup-target target [] h e = cc
lookup-target target ((k, b) ∷ rest) {block = block} h e = elim (Bool-cases (k == target)) [
  | inl found ↦ let same = rw found at e in let equal : b ≡ block = cc in rw (← equal) h.0
  | inr other ↦ lookup-target target rest h.1 (rw other at e)
]

module _ {context : Context} where
  -- A function that has grown, with a target that was recorded.
  grown :
      (s : State) (builder : Builder) (entry : ℕ × ℕ)
      → IsClosedBuilder builder
      → s.builder.value_count ≤ builder.value_count
      → s.builder.block_count ≤ builder.block_count
      → entry.1 < builder.block_count
      → IsWellFormed context s
      → Runs context 0 0 s (record s { builder = builder; basic_blocks = entry ∷ s.basic_blocks })
  grown s builder entry closed values_le blocks_le there h =
      let n = s.builder.value_count in
      let m = builder.value_count in
      record {
        effect = Effect-refl s.operand_stack;
        current_le = omega arith;
        values_le = values_le;
        blocks_le = blocks_le;
        well_formed = (
          closed,
          All-weaken (IsKnown n) (IsKnown m) s.operand_stack (IsKnown-le values_le) h.1,
          (
            there,
            All-weaken (HasTarget s.builder.block_count) (HasTarget builder.block_count)
                s.basic_blocks (λ entry lt. omega (arith, lt, blocks_le)) h.2,
          ),
          All-weaken (IsKnown n) (IsKnown m) context.locals (IsKnown-le values_le) h.3,
        );
      }

  pop_of-Yields :
      (values : List Value) (s : State)
      → s.operand_stack ≡ values
      → IsWellFormed context s
      → Yields context Known 1 0 s (pop_of values s)
  unfolding pop_of
  pop_of-Yields [] s e h = record { runs = λ e. cc }
  pop_of-Yields (v ∷ rest) s e h =
      let known = rw e at h.1 in
      record {
        runs = (
          record {
            effect = record {
              enough = rw e omega arith;
              pushed = omega arith;
              rest_stays = rw e refl;
            };
            current_le = omega arith;
            values_le = omega arith;
            blocks_le = omega arith;
            well_formed = (h.0, known.1, h.2, h.3);
          },
          known.0,
        );
      }

  pub pop_value-Yields :
      (s : State) → IsWellFormed context s → Yields context Known 1 0 s (pop_value s)
  unfolding pop_value
  pop_value-Yields s h = pop_of-Yields s.operand_stack s refl h

  pub operand-Yields :
      (size : ℕ) (s : State)
      → IsWellFormed context s
      → Yields context (Consumed size s) 0 0 s (operand size s)
  unfolding operand
  operand-Yields size s h = elim (Outcome-cases (consume size s.current)) [
    | inl ((n, rest), e) ↦
        rw (e, operand)
          record {
            runs = (
              record {
                effect = Effect-refl s.operand_stack;
                current_le = consume-le size s.current e;
                values_le = omega arith;
                blocks_le = omega arith;
                well_formed = h;
              },
              e,
            );
          }
    | inr (f, e) ↦
        rw (e, operand)
          record { runs = λ p. consume-ne-out_of_fuel size s.current (e ∙ ap fails p) }
  ]

  -- Only the parts of the state that are looked at have to be the same.
  pub Runs-same :
      (s t : State)
      → t.builder ≡ s.builder
      → t.current ≡ s.current
      → t.operand_stack ≡ s.operand_stack
      → t.basic_blocks ≡ s.basic_blocks
      → IsWellFormed context s
      → Runs context 0 0 s t
  Runs-same s t b c o k h = record {
    effect = rw o (Effect-refl s.operand_stack);
    current_le = rw c omega arith;
    values_le = rw b omega arith;
    blocks_le = rw b omega arith;
    well_formed = rw (b, o, k) h;
  }

  -- Where a branch goes is a block of the function: one that was there, a new one, or one of two
  -- that a block is split into.
  pub add_basic_block-Yields :
      (offset target : ℕ) (s : State)
      → IsWellFormed context s
      → Yields context Target 0 0 s (add_basic_block offset target s)
  unfolding add_basic_block
  add_basic_block-Yields offset target s h = elim (Option-cases (lookup target s.basic_blocks)) [
    | inr (block, found) ↦
        rw (found, add_basic_block)
          record { runs = (Runs-refl s h, lookup-target target s.basic_blocks h.2 found) }
    | inl absent ↦
        rw (absent, add_basic_block)
          elim (Bool-cases (ltb offset target)) [
            | inl forward ↦ rw forward record {
              runs = (
                grown s _ (target, s.builder.block_count)
                    (create_block-IsClosedBuilder s.builder h.0) (omega arith) (omega arith)
                    (omega arith) h,
                omega arith,
              );
            }
            | inr backward ↦ rw backward elim (Option-cases (lookup target s.insert_points)) [
              | inl never ↦ rw never record { runs = λ e. cc }
              | inr (after, point) ↦ rw point elim (Outcome-cases (split after s.builder)) [
                | inr (f, failed) ↦ rw failed record {
                  runs = λ e. split-ne-out_of_fuel after s.builder (failed ∙ ap fails e);
                }
                | inl ((original, builder), made) ↦ rw made (
                    let facts = split-IsClosedBuilder after s.builder h.0 made in
                    record {
                      runs = (
                        grown s builder (target, original) facts.0 (omega (arith, facts.2))
                            (omega (arith, facts.3)) facts.1 h,
                        facts.1,
                      );
                    })
              ]
            ]
          ]
  ]
