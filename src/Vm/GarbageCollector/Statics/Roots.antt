-- ===== src/Vm/GarbageCollector/Statics/Roots.antt =====
-- src/jllvm/vm/GarbageCollector.cpp: the static references as roots.
use jllvm.Base.{
  ℕ, zero, suc, ◌+◌, ◌-◌, ◌≤◌, ◌≡◌, refl, ap, sym, ◌∙◌, ◌≢◌, ◌||◌, inl, inr, true, false, List, [],
  ◌∷◌, ◌++◌, arith, ◌==◌, Bool-cases, ==_iff, length, take, drop, replicate, map, map-append,
  append_assoc,
}
use native.Mathlib.Numerals.{add-one}
use mathlib.Core.Path.{ap₂}
use jllvm.Vm.GarbageCollector.Heap.{Address}
use jllvm.Vm.GarbageCollector.Marking.{WorkState, push, push_all}
use jllvm.Vm.GarbageCollector.StackRoots.Collected.{push_all-append}
use jllvm.Vm.GarbageCollector.Sweeping.{Mapping}
use jllvm.Vm.GarbageCollector.Sweeping.Replacing.{translate}
use jllvm.Vm.GarbageCollector.Statics.{
  slab_size, StaticRefs, is_empty, allocate_static, static_roots, collect_slab,
  collect_static_roots, replace_slab, replace_static_roots,
}

-- All slabs have their full size, and what lies beyond the bump pointer is zero.
abbrev pub SlabsValid : List (List ℕ) → ℕ → Type 0
SlabsValid [] bump = bump ≡ 0
SlabsValid (slab ∷ []) bump =
    (length slab ≡ slab_size)
    × (bump ≤ slab_size)
    × (drop bump slab ≡ replicate (slab_size - bump) 0)
SlabsValid (slab ∷ next ∷ slabs) bump = (length slab ≡ slab_size) × SlabsValid (next ∷ slabs) bump

take_all : {A : Type 0} (n : ℕ) (xs : List A) → length xs ≡ n → take n xs ≡ xs
take_all zero [] h = refl
take_all zero (x ∷ xs) h = absurd (omega arith)
take_all (suc n) [] h = absurd (omega arith)
take_all (suc n) (x ∷ xs) h = ap (λ r. x ∷ r) (take_all n xs (omega arith))

-- A full slab before others.
join :
    (slab : List ℕ) (r : List (List ℕ)) (y : List ℕ) (ys : List (List ℕ)) (bump : ℕ)
    → r ≡ y ∷ ys
    → length slab ≡ slab_size
    → SlabsValid r bump
    → SlabsValid (slab ∷ r) bump × (static_roots (slab ∷ r) bump ≡ slab ++ static_roots r bump)
unfolding static_roots
join slab r y ys bump e len v = rw e ((len, rw e at v), refl)

module _ (from to : Address) where
  collect_slab_lem :
      (ps : List ℕ) (s : WorkState) → collect_slab from to ps s ≡ push_all from to ps s
  unfolding collect_slab push_all
  collect_slab_lem [] s = refl
  collect_slab_lem (p ∷ ps) s = collect_slab_lem ps (push from to p s)

  pub collect_static_roots_lem :
      (slabs : List (List ℕ)) (bump : ℕ) (s : WorkState)
      → collect_static_roots from to slabs bump s ≡ push_all from to (static_roots slabs bump) s
  unfolding collect_static_roots static_roots push_all
  collect_static_roots_lem [] bump s = refl
  collect_static_roots_lem (slab ∷ []) bump s = collect_slab_lem (take bump slab) s
  collect_static_roots_lem (slab ∷ next ∷ slabs) bump s =
      rw
        (
          push_all-append from to slab (static_roots (next ∷ slabs) bump) s,
          ← collect_slab_lem slab s,
        )
        (collect_static_roots_lem (next ∷ slabs) bump (collect_slab from to slab s))

module _ (mapping : Mapping) where
  replace_slab_lem :
      (size : ℕ) (slab : List ℕ)
      → (take size (replace_slab mapping size slab) ≡ map (translate mapping) (take size slab))
        × (drop size (replace_slab mapping size slab) ≡ drop size slab)
        × (length (replace_slab mapping size slab) ≡ length slab)
  unfolding replace_slab
  replace_slab_lem zero slab = (refl, refl, refl)
  replace_slab_lem (suc size) [] = (refl, refl, refl)
  replace_slab_lem (suc size) (p ∷ ps) =
      let (t, d, l) = replace_slab_lem size ps in
      (ap (λ (r : List ℕ). translate mapping p ∷ r) t, d, ap suc l)

  replaced_cons :
      (slab : List ℕ) (slabs : List (List ℕ)) (bump : ℕ)
      → (y : List ℕ) × (ys : List (List ℕ)) × (replace_static_roots mapping (slab ∷ slabs) bump
          ≡ y ∷ ys)
  unfolding replace_static_roots
  replaced_cons slab [] bump = (_, _, refl)
  replaced_cons slab (next ∷ slabs) bump = (_, _, refl)

  -- On slabs of full size that are zero beyond the bump pointer, replacing the static references
  -- leaves such slabs, and their roots are the translations of the roots before.
  pub replace_static_roots_lem :
      (slabs : List (List ℕ)) (bump : ℕ)
      → SlabsValid slabs bump
      → SlabsValid (replace_static_roots mapping slabs bump) bump
        × (static_roots (replace_static_roots mapping slabs bump) bump
            ≡ map (translate mapping) (static_roots slabs bump))
  unfolding replace_static_roots static_roots
  replace_static_roots_lem [] bump v = (v, refl)
  replace_static_roots_lem (slab ∷ []) bump (len, fits, zeros) =
      let (t, d, l) = replace_slab_lem bump slab in ((l ∙ len, fits, d ∙ zeros), t)
  replace_static_roots_lem (slab ∷ next ∷ slabs) bump (len, v) =
      let (valid, same) = replace_static_roots_lem (next ∷ slabs) bump v in
      let (t, d, l) = replace_slab_lem slab_size slab in
      let (y, ys, e) = replaced_cons next slabs bump in
      let (valid', roots) =
        join (replace_slab mapping slab_size slab)
          (replace_static_roots mapping (next ∷ slabs) bump) y ys bump e (l ∙ len) valid in
      let whole : replace_slab mapping slab_size slab ≡ map (translate mapping) slab =
        sym (take_all slab_size _ (l ∙ len))
        ∙ t
        ∙ ap (map (translate mapping)) (take_all slab_size slab len) in
      (
        valid',
        roots
            ∙ ap₂ ◌++◌ whole same
            ∙ sym (map-append (translate mapping) slab (static_roots (next ∷ slabs) bump)),
      )

take-suc :
    (n : ℕ) (xs : List ℕ) {y : ℕ} {ys : List ℕ}
    → drop n xs ≡ y ∷ ys
    → (take (suc n) xs ≡ take n xs ++ y ∷ []) × (drop (suc n) xs ≡ ys)
take-suc zero [] h = cc
take-suc zero (x ∷ xs) h = (cc, cc)
take-suc (suc n) [] h = cc
take-suc (suc n) (x ∷ xs) h = let (t, d) = take-suc n xs h in (ap (λ (r : List ℕ). x ∷ r) t, d)

-- The last slab has room for one more.
advance :
    (slabs : List (List ℕ)) (bump : ℕ)
    → SlabsValid slabs bump
    → is_empty slabs ≡ false
    → bump ≢ slab_size
    → SlabsValid slabs (bump + 1)
      × (static_roots slabs (bump + 1) ≡ static_roots slabs bump ++ 0 ∷ [])
unfolding is_empty static_roots
advance [] bump v some_slab room = cc
advance (slab ∷ []) bump (len, fits, zeros) some_slab room =
    let left : slab_size - bump ≡ suc (slab_size - (bump + 1)) = omega arith in
    let (t, d) = take-suc bump slab (rw left at zeros) in
    rw add-one ((len, omega arith, rw add-one at d), t)
advance (slab ∷ next ∷ slabs) bump (len, v) some_slab room =
    let (valid, roots) = advance (next ∷ slabs) bump v refl room in
    (
      (len, valid),
      ap (λ (r : List ℕ). slab ++ r) roots
          ∙ sym (append_assoc slab (static_roots (next ∷ slabs) bump) (0 ∷ [])),
    )

-- All slabs are full.
grow :
    (slabs : List (List ℕ)) (bump : ℕ)
    → SlabsValid slabs bump
    → (is_empty slabs || bump == slab_size) ≡ true
    → SlabsValid (slabs ++ replicate slab_size 0 ∷ []) 1
      × (static_roots (slabs ++ replicate slab_size 0 ∷ []) 1 ≡ static_roots slabs bump ++ 0 ∷ [])
unfolding is_empty static_roots
grow [] bump v full = ((refl, omega arith, refl), refl)
grow (slab ∷ []) bump (len, fits, zeros) full =
    let e : bump ≡ slab_size = (==_iff bump slab_size).0 full in
    (
      (len, (refl, omega arith, refl)),
      ap (λ (r : List ℕ). r ++ 0 ∷ []) (sym (take_all bump slab (len ∙ sym e))),
    )
grow (slab ∷ next ∷ slabs) bump (len, v) full =
    let (valid, roots) = grow (next ∷ slabs) bump v full in
    (
      (len, valid),
      ap (λ (r : List ℕ). slab ++ r) roots
          ∙ sym (append_assoc slab (static_roots (next ∷ slabs) bump) (0 ∷ [])),
    )

-- On slabs of full size that are zero beyond the bump pointer, allocateStatic leaves such slabs,
-- and adds one null reference behind the static roots that were there.
pub allocate_static-roots :
    (s : StaticRefs)
    → SlabsValid s.slabs s.bump
    → SlabsValid (allocate_static s).0.slabs (allocate_static s).0.bump
      × (static_roots (allocate_static s).0.slabs (allocate_static s).0.bump
          ≡ static_roots s.slabs s.bump ++ 0 ∷ [])
unfolding allocate_static
allocate_static-roots s v = elim (Bool-cases (is_empty s.slabs || s.bump == slab_size)) [
  | inl full ↦ simp full (grow s.slabs s.bump v full)
  | inr room ↦ simp room (advance s.slabs s.bump v (ground arith) (ground arith))
]
