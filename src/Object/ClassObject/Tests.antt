-- ===== src/Object/ClassObject/Tests.antt =====
-- Class objects at concrete values.
use jllvm.Base.{◌%◌, ◌≤◌, ◌≡◌, refl, [], ◌∷◌, arith}
use jllvm.Object.ClassObject.Rounding.{alignment}
use jllvm.Object.ClassObject.{create_primitive, create_array, get_instance_size}
use jllvm.Object.ClassObject.Sizes.{
  two_bytes, element_size, get_instance_size-create_primitive, create_array_elements,
}

get_instance_size-create_primitive_example : get_instance_size (create_primitive 2 (b'C' ∷ [])) ≡ 2
get_instance_size-create_primitive_example =
    get_instance_size-create_primitive 2 (b'C' ∷ []) (omega arith)

char_size : element_size (create_primitive 2 (b'C' ∷ [])) ≡ 2
unfolding create_primitive get_instance_size
char_size = refl

create_array_elements_example :
    (12 ≤ get_instance_size (create_array alignment 1 (create_primitive 2 (b'C' ∷ []))))
    × (get_instance_size (create_array alignment 1 (create_primitive 2 (b'C' ∷ []))) ≤ 16)
    × (get_instance_size (create_array alignment 1 (create_primitive 2 (b'C' ∷ [])))
          % element_size (create_primitive 2 (b'C' ∷ []))
        ≡ 0)
create_array_elements_example =
    create_array_elements alignment 1 (create_primitive 2 (b'C' ∷ [])) (two_bytes char_size)
