-- ===== src/Vm/StackMaps/Sorted.antt =====
-- The entries of a record are those of its locations, each once and in order.
use mathlib.Core.Logic.{◌⊎◌, inl, inr}
use jllvm.Base.{◌≡◌, ◌↔◌, refl, ◌∙◌, true, false, List, [], ◌∷◌, drop, All, Bool-cases, arith}
use jllvm.Vm.GarbageCollector.StackRoots.{EntryType, register, direct, indirect, StackMapEntry}
use jllvm.Vm.StackMaps.{
  type_value, entry_lt, entry_eq, insert_entry, sort, unique_behind, unique, entries_of, Record,
  record_entries,
}

-- No entry is smaller than `x`.
abbrev IsAtMost : StackMapEntry → StackMapEntry → Type 0
IsAtMost x y = entry_lt y x ≡ false

module _ (x y z : StackMapEntry) where
  entry_lt_trans : entry_lt x y ≡ true → entry_lt y z ≡ true → entry_lt x z ≡ true
  unfolding entry_lt
  entry_lt_trans h k = ground (arith, h, k)

  IsAtMost-trans : IsAtMost x y → IsAtMost y z → IsAtMost x z
  unfolding entry_lt
  IsAtMost-trans h k = ground (arith, h, k)

type_value-eq : (t u : EntryType) → type_value t ≡ type_value u → t ≡ u
unfolding type_value
type_value-eq register register h = refl
type_value-eq register direct h = absurd (omega (arith, h))
type_value-eq register indirect h = absurd (omega (arith, h))
type_value-eq direct register h = absurd (omega (arith, h))
type_value-eq direct direct h = refl
type_value-eq direct indirect h = absurd (omega (arith, h))
type_value-eq indirect register h = absurd (omega (arith, h))
type_value-eq indirect direct h = absurd (omega (arith, h))
type_value-eq indirect indirect h = refl

module _ (x y : StackMapEntry) where
  entry_lt-IsAtMost : entry_lt x y ≡ true → IsAtMost x y
  unfolding entry_lt
  entry_lt-IsAtMost h = ground (arith, h)

  entry_lt-of : entry_eq x y ≡ false → IsAtMost x y → entry_lt x y ≡ true
  unfolding entry_lt entry_eq
  entry_lt-of h k = ground (arith, h, k)

  entry_eq-eq : entry_eq x y ≡ true → x ≡ y
  unfolding entry_eq
  entry_eq-eq h =
      let types : type_value x.type ≡ type_value y.type = ground (arith, h) in
      let type = type_value-eq x.type y.type types in
      let count : x.count ≡ y.count = ground (arith, h) in
      let number : x.register_number ≡ y.register_number = ground (arith, h) in
      let offset : x.offset ≡ y.offset = ground (arith, h) in cc

-- One of the entries.
abbrev pub IsIn : StackMapEntry → List StackMapEntry → Type 0
IsIn e [] = ⊥
IsIn e (x ∷ xs) = (x ≡ e) ⊎ IsIn e xs

-- Each is below all behind it, so none is there twice.
abbrev pub IsStrict : List StackMapEntry → Type 0
IsStrict [] = Unit
IsStrict (x ∷ xs) = All (λ y. entry_lt x y ≡ true) xs × IsStrict xs

abbrev IsSorted : List StackMapEntry → Type 0
IsSorted [] = Unit
IsSorted (x ∷ xs) = All (IsAtMost x) xs × IsSorted xs

All-weaken {ℓ κ μ} :
    {A : Type ℓ} (P : A → Type κ) (Q : A → Type μ) (xs : List A)
    → ((a : A) → P a → Q a)
    → All P xs
    → All Q xs
All-weaken P Q [] f h = tt
All-weaken P Q (x ∷ xs) f h = (f x h.0, All-weaken P Q xs f h.1)

insert_entry-All {ℓ} :
    (P : StackMapEntry → Type ℓ) (e : StackMapEntry) (xs : List StackMapEntry)
    → P e
    → All P xs
    → All P (insert_entry e xs)
unfolding insert_entry
insert_entry-All P e [] h hs = (h, tt)
insert_entry-All P e (x ∷ xs) h hs = elim (Bool-cases (entry_lt x e)) [
  | inl lt ↦ rw (lt, insert_entry) (hs.0, insert_entry-All P e xs h hs.1)
  | inr ge ↦ rw (ge, insert_entry) (h, hs)
]

insert_entry-IsSorted :
    (e : StackMapEntry) (xs : List StackMapEntry) → IsSorted xs → IsSorted (insert_entry e xs)
unfolding insert_entry
insert_entry-IsSorted e [] h = (tt, tt)
insert_entry-IsSorted e (x ∷ xs) h = elim (Bool-cases (entry_lt x e)) [
  | inl lt ↦
      rw (lt, insert_entry)
        (
          insert_entry-All (IsAtMost x) e xs (entry_lt-IsAtMost x e lt) h.0,
          insert_entry-IsSorted e xs h.1,
        )
  | inr ge ↦
      rw (ge, insert_entry)
        ((ge, All-weaken (IsAtMost x) (IsAtMost e) xs (λ y k. IsAtMost-trans e x y ge k) h.0), h)
]

sort-IsSorted : (xs : List StackMapEntry) → IsSorted (sort xs)
unfolding sort
sort-IsSorted [] = tt
sort-IsSorted (x ∷ xs) = insert_entry-IsSorted x (sort xs) (sort-IsSorted xs)

unique_behind-All {ℓ} :
    (P : StackMapEntry → Type ℓ) (x : StackMapEntry) (xs : List StackMapEntry)
    → All P xs
    → All P (unique_behind x xs)
unfolding unique_behind
unique_behind-All P x [] h = tt
unique_behind-All P x (y ∷ ys) h = elim (Bool-cases (entry_eq x y)) [
  | inl same ↦ rw (same, unique_behind) (unique_behind-All P x ys h.1)
  | inr other ↦ rw (other, unique_behind) (h.0, unique_behind-All P y ys h.1)
]

unique_behind-IsStrict :
    (x : StackMapEntry) (xs : List StackMapEntry)
    → IsSorted (x ∷ xs)
    → IsStrict (x ∷ unique_behind x xs)
unfolding unique_behind
unique_behind-IsStrict x [] h = (tt, tt)
unique_behind-IsStrict x (y ∷ ys) h = elim (Bool-cases (entry_eq x y)) [
  | inl same ↦ rw (same, unique_behind) (unique_behind-IsStrict x ys (h.0.1, h.1.1))
  | inr other ↦
      rw (other, unique_behind)
        (let first = entry_lt-of x y other h.0.0 in
          let rest = unique_behind-IsStrict y ys h.1 in
          (
            (
              first,
              All-weaken (λ z. entry_lt y z ≡ true) (λ z. entry_lt x z ≡ true) (unique_behind y ys)
                  (λ z k. entry_lt_trans x y z first k) rest.0,
            ),
            rest,
          ))
]

unique-IsStrict : (xs : List StackMapEntry) → IsSorted xs → IsStrict (unique xs)
unfolding unique
unique-IsStrict [] h = tt
unique-IsStrict (x ∷ xs) h = unique_behind-IsStrict x xs h

-- Nothing is lost or added.
module _ (e : StackMapEntry) where
  insert_entry-IsIn :
      (x : StackMapEntry) (xs : List StackMapEntry)
      → IsIn e (insert_entry x xs) ↔ ((x ≡ e) ⊎ IsIn e xs)
  unfolding insert_entry
  insert_entry-IsIn x [] = (λ h. h, λ h. h)
  insert_entry-IsIn x (y ∷ ys) = elim (Bool-cases (entry_lt y x)) [
    | inl lt ↦
        let later = insert_entry-IsIn x ys in
        rw (lt, insert_entry)
          (
            λ h. elim h [
              | inl p ↦ inr (inl p)
              | inr q ↦ elim (later.0 q) [ inl p ↦ inl p | inr r ↦ inr (inr r) ]
            ],
            λ h. elim h [
              | inl p ↦ inr (later.1 (inl p))
              | inr (inl p) ↦ inl p
              | inr (inr r) ↦ inr (later.1 (inr r))
            ],
          )
    | inr ge ↦ rw (ge, insert_entry) (λ h. h, λ h. h)
  ]

  sort-IsIn : (xs : List StackMapEntry) → IsIn e (sort xs) ↔ IsIn e xs
  unfolding sort
  sort-IsIn [] = (λ h. h, λ h. h)
  sort-IsIn (x ∷ xs) =
      let one = insert_entry-IsIn x (sort xs) in
      let rest = sort-IsIn xs in
      (
        λ h. elim (one.0 h) [ inl p ↦ inl p | inr q ↦ inr (rest.0 q) ],
        λ h. one.1 (elim h [ inl p ↦ inl p | inr q ↦ inr (rest.1 q) ]),
      )

  unique_behind-IsIn :
      (x : StackMapEntry) (xs : List StackMapEntry)
      → IsIn e (x ∷ unique_behind x xs) ↔ IsIn e (x ∷ xs)
  unfolding unique_behind
  unique_behind-IsIn x [] = (λ h. h, λ h. h)
  unique_behind-IsIn x (y ∷ ys) = elim (Bool-cases (entry_eq x y)) [
    | inl same ↦
        let later = unique_behind-IsIn x ys in
        let equal = entry_eq-eq x y same in
        rw (same, unique_behind)
          (
            λ h. elim (later.0 h) [ inl p ↦ inl p | inr q ↦ inr (inr q) ],
            λ h. elim h [
              | inl p ↦ inl p
              | inr (inl p) ↦ inl (equal ∙ p)
              | inr (inr q) ↦ later.1 (inr q)
            ],
          )
    | inr other ↦
        let later = unique_behind-IsIn y ys in
        rw (other, unique_behind)
          (
            λ h. elim h [ inl p ↦ inl p | inr q ↦ inr (later.0 q) ],
            λ h. elim h [ inl p ↦ inl p | inr q ↦ inr (later.1 q) ],
          )
  ]

  unique-IsIn : (xs : List StackMapEntry) → IsIn e (unique xs) ↔ IsIn e xs
  unfolding unique
  unique-IsIn [] = (λ h. h, λ h. h)
  unique-IsIn (x ∷ xs) = unique_behind-IsIn x xs

-- The entries of a record stand in order with no entry twice, and are exactly those of the
-- locations behind the first three.
pub record_entries-IsStrict :
    (r : Record)
    → IsStrict (record_entries r)
      × ((e : StackMapEntry) → IsIn e (record_entries r) ↔ IsIn e (entries_of (drop 3 r.locations)))
unfolding record_entries
record_entries-IsStrict r =
    let raw = entries_of (drop 3 r.locations) in
    (
      unique-IsStrict (sort raw) (sort-IsSorted raw),
      λ e.
          let first = unique-IsIn e (sort raw) in
          let second = sort-IsIn e raw in (λ h. second.0 (first.0 h), λ h. first.1 (second.1 h)),
    )
