-- ===== src/Object/ClassObject/Sizes.antt =====
-- src/jllvm/object/ClassObject.cpp: the sizes of primitive and of array classes.
use jllvm.Base.{ℕ, ◌+◌, ◌%◌, ◌^◌, ◌≤◌, ◌<◌, ◌≡◌, inl, inr, Bool-cases, List, arith, if◌then◌else◌}
use jllvm.Object.ClassObject.{
  pointer_size, ClassRef, ClassObject, create, create_primitive, get_instance_size, Alignment,
  create_array,
}

-- The instance size of a primitive class comes back from its class object if it is below 2 ^ 32,
-- although the header that it lacks is taken off in 32 bits.
pub get_instance_size-create_primitive :
    (size : ℕ) (name : List ℕ)
    → size < 2 ^ 32
    → get_instance_size (create_primitive size name) ≡ size
unfolding get_instance_size create_primitive
get_instance_size-create_primitive size name h = omega arith

-- The size of a primitive type: a power of two up to that of a pointer.
pub data IsPrimitiveSize (size : ℕ) : Type 0 where
  one_byte : size ≡ 1 → IsPrimitiveSize size
  two_bytes : size ≡ 2 → IsPrimitiveSize size
  four_bytes : size ≡ 4 → IsPrimitiveSize size
  eight_bytes : size ≡ 8 → IsPrimitiveSize size

abbrev pub element_size : ClassObject → ℕ
element_size c = if c.is_primitive then get_instance_size c else pointer_size

module _ (alignment : Alignment) where
  open alignment use {align_to, align_to_ge, align_to_lt, align_to_multiple}

  padded :
      (size : ℕ)
      → IsPrimitiveSize size
      → (4 ≤ align_to 4 size) × (align_to 4 size ≤ 8) × (align_to 4 size % size ≡ 0) × (size ≤ 8)
  padded size (one_byte e) = rw e (omega (arith, align_to_ge 4 1, align_to_lt 4 1))
  padded size (two_bytes e) =
      rw e (omega (arith, align_to_ge 4 2, align_to_lt 4 2, align_to_multiple 4 2))
  padded size (four_bytes e) =
      rw e (omega (arith, align_to_ge 4 4, align_to_lt 4 4, align_to_multiple 4 4))
  padded size (eight_bytes e) =
      let multiple = align_to_multiple 4 8 (omega arith) in
      rw e (omega (arith, align_to_ge 4 8, align_to_lt 4 8))

  -- Eight more bytes for the header keep the alignment.
  header_aligned :
      (size start : ℕ) → IsPrimitiveSize size → start % size ≡ 0 → (start + 8) % size ≡ 0
  header_aligned size start (one_byte e) h = rw e (omega arith)
  header_aligned size start (two_bytes e) h =
      rw e (let g : start % 2 ≡ 0 = rw e at h in omega arith)
  header_aligned size start (four_bytes e) h =
      rw e (let g : start % 4 ≡ 0 = rw e at h in omega arith)
  header_aligned size start (eight_bytes e) h =
      rw e (let g : start % 8 ≡ 0 = rw e at h in omega arith)

  -- For a component whose elements have a size of 1, 2, 4 or 8 bytes, the elements of an array
  -- class start between 12 and 16 bytes behind the start of the object, at a multiple of their
  -- size.
  pub create_array_elements :
      (ref : ClassRef) (component : ClassObject)
      → IsPrimitiveSize (element_size component)
      → (12 ≤ get_instance_size (create_array alignment ref component))
        × (get_instance_size (create_array alignment ref component) ≤ 16)
        × (get_instance_size (create_array alignment ref component) % element_size component ≡ 0)
  unfolding create_array create get_instance_size
  create_array_elements ref component sized = elim (Bool-cases component.is_primitive) [
    | inl primitive ↦ rw primitive (bounds _ (rw primitive at sized))
    | inr object ↦ rw object (bounds _ (rw object at sized))
  ]
    where
      bounds :
          (size : ℕ)
          → IsPrimitiveSize size
          → (12 ≤ (align_to 4 size % 2 ^ 32 + 8) % 2 ^ 32)
            × ((align_to 4 size % 2 ^ 32 + 8) % 2 ^ 32 ≤ 16)
            × ((align_to 4 size % 2 ^ 32 + 8) % 2 ^ 32 % size ≡ 0)
      bounds size sized =
          let (low, high, multiple, _) = padded size sized in
          let e : (align_to 4 size % 2 ^ 32 + 8) % 2 ^ 32 ≡ align_to 4 size + 8 = omega arith in
          rw e (omega arith, omega arith, header_aligned size (align_to 4 size) sized multiple)
