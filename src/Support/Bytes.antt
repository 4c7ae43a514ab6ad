-- ===== src/Support/Bytes.antt =====
-- src/jllvm/support/Bytes.hpp: reading big-endian values off the front of an `ArrayRef<char>`.
-- A byte is a number below 256. `consume<T>` reads `sizeof(T)` bytes; the conversion `T(result)`
-- to a signed type keeps the bit pattern, which is what the model returns.
pub mod RoundTrip
mod Tests
use jllvm.Base.{
  ℕ, zero, suc, ◌+◌, ◌*◌, ◌/◌, ◌%◌, ◌^◌, ◌<◌, List, [], ◌∷◌, ◌++◌, leb, length, take, drop, Outcome,
  ok, ◌>>=◌, ◌>>◌, assert,
}

abbrev pub IsByte : ℕ → Type 0
IsByte b = b < 256

-- What `byte_swap` makes of the bytes that `memcpy` has copied: the first is the most significant.
unfoldable pub byte_swap : ℕ → List ℕ → ℕ
byte_swap acc [] = acc
byte_swap acc (b ∷ bs) = byte_swap (acc * 256 + b) bs

unfoldable pub consume : ℕ → List ℕ → Outcome (ℕ × List ℕ)
unfolding byte_swap
consume size bytes = do
  assert (leb size (length bytes))
  ok (byte_swap 0 (take size bytes), drop size bytes)

unfoldable pub consume_raw_string : ℕ → List ℕ → Outcome (List ℕ × List ℕ)
consume_raw_string size bytes = do
  assert (leb size (length bytes))
  ok (take size bytes, drop size bytes)

-- The big-endian form of `v` in `size` bytes: the format that `consume` is the inverse of.
pub encode : ℕ → ℕ → List ℕ
encode zero v = []
encode (suc size) v = (v / 256 ^ size) ∷ encode size (v % 256 ^ size)

-- Bytes before those of the rest, where `++` associates to the left.
infixr 40 ◌+>◌
abbrev pub ◌+>◌ : List ℕ → List ℕ → List ℕ
bytes +> rest = bytes ++ rest
