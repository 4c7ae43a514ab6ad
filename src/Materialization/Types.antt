-- ===== src/Materialization/Types.antt =====
-- src/jllvm/materialization/ByteCodeCompileUtils.cpp: the LLVM types of descriptors. A reference is
-- a pointer of address space 1, which the collector knows; `pointer` is one of address space 0.
use jllvm.Base.{ℕ, Bool, List, ◌∷◌, map, if◌then◌else◌}
use jllvm.Class.Descriptors.{
  byte, char, double, float, int, long, short, boolean, void, FieldType, base, object, array,
  MethodType,
}

pub data IrType : Type 0 where
  void_type double_type float_type reference pointer : IrType
  int_type : ℕ → IrType

pub record FunctionType : Type 0 where
  pub return_type : IrType
  pub parameters : List IrType

unfoldable pub descriptor_to_type : FieldType → IrType
descriptor_to_type (base void) = void_type
descriptor_to_type (base boolean) = int_type 8
descriptor_to_type (base byte) = int_type 8
descriptor_to_type (base short) = int_type 16
descriptor_to_type (base char) = int_type 16
descriptor_to_type (base double) = double_type
descriptor_to_type (base float) = float_type
descriptor_to_type (base int) = int_type 32
descriptor_to_type (base long) = int_type 64
descriptor_to_type (array t) = reference
descriptor_to_type (object name) = reference

unfoldable pub method_to_type : MethodType → Bool → FunctionType
unfolding descriptor_to_type
method_to_type type is_static =
    let args = map descriptor_to_type type.parameters in
    record {
      return_type = descriptor_to_type type.return_type;
      parameters = if is_static then args else reference ∷ args;
    }
