-- ===== src/Class/ClassFile/Constants/Rounding.antt =====
-- src/jllvm/support/Bytes.hpp: the number that the conversion of an integer to a floating point type
-- gives.
use native.Mathlib.Nat.{
  div-add-mod, mod-lt, mul_comm, one-le-pow, pow-le-pow_right, mul-le-mul_right,
}
use jllvm.Base.{
  ℕ, zero, suc, ◌+◌, ◌-◌, ◌*◌, ◌/◌, ◌%◌, ◌^◌, ◌≤◌, ◌<◌, ◌≡◌, refl, ap, ◌∙◌, ◌⊎◌, inl, inr, true,
  false, ◌&&◌, ◌||◌, ◌==◌, ltb, Bool-cases, arith,
}
use jllvm.Class.ClassFile.Constants.{bit_width, to_floating}

-- `v` is the multiple of the last place that is nearest to `n`, and the even one of two that are
-- equally near. The last place is `2 ^ place`, the least one with which the precision is enough.
pub record IsNearest (precision n v place multiple : ℕ) : Type 0 where
  pub value : v ≡ multiple * 2 ^ place
  pub enough : n < 2 ^ (place + precision)
  pub least : (place ≡ 0) ⊎ ((below : ℕ) × (place ≡ suc below) × (2 ^ (below + precision) ≤ n))
  pub not_above : 2 * v ≤ 2 * n + 2 ^ place
  pub not_below : 2 * n ≤ 2 * v + 2 ^ place
  pub above_even : 2 * v ≡ 2 * n + 2 ^ place → multiple % 2 ≡ 0
  pub below_even : 2 * n ≡ 2 * v + 2 ^ place → multiple % 2 ≡ 0

abbrev pub IsRounded : ℕ → ℕ → ℕ → Type 0
IsRounded precision n v = (place multiple : ℕ) × IsNearest precision n v place multiple

bit_width-lt : (fuel n : ℕ) → n < 2 ^ fuel → n < 2 ^ bit_width fuel n
unfolding bit_width
bit_width-lt zero n h = h
bit_width-lt (suc fuel) n h = elim (Bool-cases (n == 0)) [
  | inl nothing ↦ rw nothing (ground (arith, nothing))
  | inr some_bits ↦
      let half = bit_width-lt fuel (n / 2) (omega (arith, h)) in
      let next : bit_width fuel (n / 2) + 1 ≡ suc (bit_width fuel (n / 2)) = omega arith in
      rw (some_bits, next) (omega (arith, half))
]

bit_width-le : (fuel n b : ℕ) → bit_width fuel n ≡ suc b → 2 ^ b ≤ n
unfolding bit_width
bit_width-le zero n b e = cc
bit_width-le (suc fuel) n zero e = elim (Bool-cases (n == 0)) [
  | inl nothing ↦ absurd (let no = rw nothing at e in cc)
  | inr some_bits ↦ ground (arith, some_bits)
]
bit_width-le (suc fuel) n (suc b) e = elim (Bool-cases (n == 0)) [
  | inl nothing ↦ absurd (let no = rw nothing at e in cc)
  | inr some_bits ↦
      let rest : bit_width fuel (n / 2) + 1 ≡ suc (suc b) = rw some_bits at e in
      let half = bit_width-le fuel (n / 2) b (omega (arith, rest)) in omega (arith, half)
]

least_place :
    (precision n : ℕ)
    → (bit_width 64 n - precision ≡ 0)
      ⊎ ((below : ℕ) × (bit_width 64 n - precision ≡ suc below) × (2 ^ (below + precision) ≤ n))
least_place precision n = elim (Bool-cases (ltb precision (bit_width 64 n))) [
  | inr fits ↦ inl (ground (arith, fits))
  | inl wide ↦
      let below = bit_width 64 n - precision - 1 in
      let lt : precision < bit_width 64 n = ground (arith, wide) in
      inr (below, omega (arith, lt), bit_width-le 64 n (below + precision) (omega (arith, lt)))
]

rounds_up :
    (unit remainder quotient : ℕ)
    → (ltb unit (2 * remainder) || (unit == 2 * remainder && quotient % 2 == 1)) ≡ true
    → (unit ≤ 2 * remainder) × (unit ≡ 2 * remainder → (quotient + 1) % 2 ≡ 0)
rounds_up unit remainder quotient h = (ground (arith, h), λ e. ground (arith, h, e))

rounds_down :
    (unit remainder quotient : ℕ)
    → (ltb unit (2 * remainder) || (unit == 2 * remainder && quotient % 2 == 1)) ≡ false
    → (2 * remainder ≤ unit) × (unit ≡ 2 * remainder → quotient % 2 ≡ 0)
rounds_down unit remainder quotient h = (ground (arith, h), λ e. ground (arith, h, e))

-- What the code computes is nearest.
to_floating-IsRounded :
    (precision n : ℕ) → n < 2 ^ 64 → IsRounded precision n (to_floating precision n)
unfolding to_floating
to_floating-IsRounded precision n small =
    let place = bit_width 64 n - precision in
    let unit = 2 ^ place in
    let quotient = n / unit in
    let remainder = n % unit in
    let positive : 1 ≤ unit = one-le-pow place 2 (omega arith) in
    let split : quotient * unit + remainder ≡ n =
      ap (λ m. m + remainder) (mul_comm quotient unit) ∙ div-add-mod n unit in
    let below : remainder < unit = mod-lt n positive in
    let next : (quotient + 1) * unit ≡ quotient * unit + unit = omega arith in
    let bits = bit_width-lt 64 n small in
    let room : 2 ^ bit_width 64 n ≤ 2 ^ (place + precision) =
      pow-le-pow_right (omega arith) (omega arith) in
    let least = least_place precision n in
    let up = ltb unit (2 * remainder) || (unit == 2 * remainder && quotient % 2 == 1) in
    elim (Bool-cases up) [
      | inl high ↦
          let (reach, tie) = rounds_up unit remainder quotient high in
          rw high (
            place,
            quotient + 1,
            record {
              value = refl;
              enough = omega (arith, bits, room);
              least = least;
              not_above = omega (arith, next, split, reach);
              not_below = omega (arith, next, split, below);
              above_even = λ e. tie (omega (arith, e, next, split));
              below_even = λ e. absurd (omega (arith, e, next, split, below, positive));
            },
          )
      | inr low ↦
          let (reach, tie) = rounds_down unit remainder quotient low in
          rw low (
            place,
            quotient,
            record {
              value = refl;
              enough = omega (arith, bits, room);
              least = least;
              not_above = omega (arith, split, below);
              not_below = omega (arith, split, reach);
              above_even = λ e. absurd (omega (arith, e, split, positive));
              below_even = λ e. tie (omega (arith, e, split));
            },
          )
    ]

-- And there is only one.
place-le :
    (precision n v v' place place' multiple multiple' : ℕ)
    → IsNearest precision n v place multiple
    → IsNearest precision n v' place' multiple'
    → place' ≤ place
place-le precision n v v' place place' multiple multiple' a b = elim b.least [
  | inl none_below ↦ omega (arith, none_below)
  | inr (below, e, low) ↦ elim (Bool-cases (ltb place place')) [
    | inr fine ↦ ground (arith, fine)
    | inl over ↦
        let le : 2 ^ (place + precision) ≤ 2 ^ (below + precision) =
          pow-le-pow_right (omega arith) (ground (arith, over, e)) in
        absurd (omega (arith, le, low, a.enough))
  ]
]

value-le :
    (precision n v v' place multiple multiple' : ℕ)
    → IsNearest precision n v place multiple
    → IsNearest precision n v' place multiple'
    → v' ≤ v
value-le precision n v v' place multiple multiple' a b =
    elim (Bool-cases (ltb multiple multiple')) [
      | inr fine ↦
          let le : multiple' * 2 ^ place ≤ multiple * 2 ^ place =
            mul-le-mul_right (2 ^ place) (ground (arith, fine)) in
          omega (arith, le, a.value, b.value)
      | inl over ↦
          let positive : 1 ≤ 2 ^ place = one-le-pow place 2 (omega arith) in
          let next : (multiple + 1) * 2 ^ place ≡ multiple * 2 ^ place + 2 ^ place = omega arith in
          let after : (multiple + 2) * 2 ^ place ≡ multiple * 2 ^ place + 2 * 2 ^ place =
            omega arith in
          let le : (multiple + 1) * 2 ^ place ≤ multiple' * 2 ^ place =
            mul-le-mul_right (2 ^ place) (ground (arith, over)) in
          let even = a.below_even (
            omega (
              arith, le, next, a.value, b.value, a.not_below, b.not_above, a.not_above, b.not_below,
            )) in
          let even' = b.above_even (
            omega (
              arith, le, next, a.value, b.value, a.not_below, b.not_above, a.not_above, b.not_below,
            )) in
          let le' : (multiple + 2) * 2 ^ place ≤ multiple' * 2 ^ place =
            mul-le-mul_right (2 ^ place) (ground (arith, over, even, even')) in
          absurd (omega (arith, le', after, a.value, b.value, a.not_below, b.not_above, positive))
    ]

pub IsRounded-to_floating :
    (precision n v : ℕ) → n < 2 ^ 64 → IsRounded precision n v → to_floating precision n ≡ v
IsRounded-to_floating precision n v small (place, multiple, a) =
    let (place', multiple', b) = to_floating-IsRounded precision n small in
    let same : place' ≡ place = omega (
      arith,
      place-le precision n v (to_floating precision n) place place' multiple multiple' a b,
      place-le precision n (to_floating precision n) v place' place multiple' multiple b a,
    ) in
    let b' : IsNearest precision n (to_floating precision n) place multiple' = rw same at b in
    omega (
      arith,
      value-le precision n v (to_floating precision n) place multiple multiple' a b',
      value-le precision n (to_floating precision n) v place multiple' multiple b' a,
    )
