-- ===== src/Object/ClassObject/Rounding.antt =====
-- A function that does what the model asks of `llvm::alignTo`.
use jllvm.Base.{ℕ, ◌+◌, ◌-◌, ◌*◌, ◌/◌, ◌≤◌, ◌<◌, arith}
use native.Mathlib.Nat.{div-add-mod, mod-lt, mul_comm, mul-mod_left}
use jllvm.Object.ClassObject.{Alignment}

pub rounded :
    (value align : ℕ)
    → 0 < align
    → (value ≤ (value + align - 1) / align * align)
      × ((value + align - 1) / align * align < value + align)
rounded value align h =
    let q = (value + align - 1) / align in
    omega
      (arith, div-add-mod (value + align - 1) align, mod-lt (value + align - 1) h, mul_comm align q)

abbrev pub alignment : Alignment
alignment = record {
  align_to = λ value align. (value + align - 1) / align * align;
  align_to_ge = λ value align h. (rounded value align h).0;
  align_to_lt = λ value align h. (rounded value align h).1;
  align_to_multiple = λ value align h. mul-mod_left ((value + align - 1) / align) align;
}
