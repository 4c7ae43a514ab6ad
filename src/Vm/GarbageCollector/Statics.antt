-- ===== src/Vm/GarbageCollector/Statics.antt =====
-- src/jllvm/vm/GarbageCollector.cpp: `allocateStatic`, and the loops of `garbageCollect` over the
-- static references. `m_staticRefsSlabs` is the list of the slabs; `m_staticRefsBumpPtr` points
-- into the last of them, and is modelled by its distance from that slab's start.
pub mod Roots
use jllvm.Base.{
  ℕ, zero, suc, ◌+◌, ◌-◌, ◌*◌, ◌/◌, ◌≤◌, ◌≡◌, Bool, true, false, ◌||◌, List, [], ◌∷◌, ◌++◌, Option,
  none, some, ◌==◌, if◌then◌else◌, length, take, drop, replicate, map, All,
}
use jllvm.Object.ClassObject.{pointer_size}
use jllvm.Vm.GarbageCollector.Heap.{Address}
use jllvm.Vm.GarbageCollector.Marking.{WorkState, push}
use jllvm.Vm.GarbageCollector.Sweeping.{Mapping, lookup, replacement}

-- `SLAB_SIZE`
abbrev pub slab_size : ℕ
slab_size = 4096 / pointer_size

pub record StaticRefs : Type 0 where
  pub slabs : List (List ℕ)
  pub bump : ℕ

-- No slabs and a null pointer.
abbrev pub no_statics : StaticRefs
no_statics = record { slabs = []; bump = 0 }

is_empty : List (List ℕ) → Bool
is_empty [] = true
is_empty (slab ∷ slabs) = false

-- The storage that is returned: the slab's number, and the slot in it.
unfoldable pub allocate_static : StaticRefs → StaticRefs × (ℕ × ℕ)
unfolding is_empty
allocate_static s =
    let grown =
      if is_empty s.slabs || s.bump == slab_size
      then record { slabs = s.slabs ++ replicate slab_size 0 ∷ []; bump = 0 }
      else s in
    (record grown { bump = grown.bump + 1 }, (length grown.slabs - 1, grown.bump))

-- The slots that the loops run over: whole slabs, and of the last one those below the bump pointer.
unfoldable pub static_roots : List (List ℕ) → ℕ → List Address
static_roots [] bump = []
static_roots (slab ∷ []) bump = take bump slab
static_roots (slab ∷ next ∷ slabs) bump = slab ++ static_roots (next ∷ slabs) bump

module _ (from to : Address) where
  -- `std::for_each` over one slab
  collect_slab : List ℕ → WorkState → WorkState
  collect_slab [] s = s
  collect_slab (p ∷ ps) s = collect_slab ps (push from to p s)

  unfoldable pub collect_static_roots : List (List ℕ) → ℕ → WorkState → WorkState
  unfolding collect_slab
  collect_static_roots [] bump s = s
  collect_static_roots (slab ∷ []) bump s = collect_slab (take bump slab) s
  collect_static_roots (slab ∷ next ∷ slabs) bump s =
      collect_static_roots (next ∷ slabs) bump (collect_slab slab s)

module _ (mapping : Mapping) where
  -- The first `size` slots of a slab.
  replace_slab : ℕ → List ℕ → List ℕ
  unfolding lookup
  replace_slab zero slab = slab
  replace_slab (suc size) [] = []
  replace_slab (suc size) (p ∷ ps) =
      (elim (replacement mapping p) [ none ↦ p | some q ↦ q ]) ∷ replace_slab size ps

  unfoldable pub replace_static_roots : List (List ℕ) → ℕ → List (List ℕ)
  unfolding replace_slab
  replace_static_roots [] bump = []
  replace_static_roots (slab ∷ []) bump = replace_slab bump slab ∷ []
  replace_static_roots (slab ∷ next ∷ slabs) bump =
      replace_slab slab_size slab ∷ replace_static_roots (next ∷ slabs) bump
