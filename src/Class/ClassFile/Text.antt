-- ===== src/Class/ClassFile/Text.antt =====
-- src/jllvm/class/ClassFile.cpp: `deduceByteCount` and `toUTF8`, from the JVM's modified UTF-8. A
-- byte is a number below 256, so `& 0x1f` is `% 32`, and the like. A read past the end, which the
-- source does not test for, is a failed assertion of the model.
pub mod Encoded
use jllvm.Base.{
  ℕ, zero, suc, ◌+◌, ◌-◌, ◌*◌, ◌/◌, ◌%◌, ◌^◌, ◌≤◌, ◌<◌, ◌≡◌, Bool, true, false, not, ◌&&◌, ◌||◌,
  List, [], ◌∷◌, ◌++◌, if◌then◌else◌, leb, ltb, ◌==◌, length, Outcome, ok, fails, assertion, fatal,
  out_of_fuel, ◌>>=◌,
}

unfoldable pub deduce_byte_count : ℕ → Outcome ℕ
deduce_byte_count c =
    if leb c 127
    then ok 1
    else (if c / 32 == 6 then ok 2 else (if c / 16 == 14 then ok 3 else fails fatal))

-- Case 2: the bytes that are appended, and what is left to read.
two_bytes : ℕ → List ℕ → Outcome (List ℕ × List ℕ)
two_bytes first [] = fails assertion
two_bytes first (second ∷ rest) =
    ok (if first % 32 * 64 + second % 64 == 0 then 0 ∷ [] else first ∷ second ∷ [], rest)

-- The four bytes of a code point outside the basic plane.
four_bytes : ℕ → List ℕ
four_bytes codepoint =
    (240 + codepoint / 2 ^ 18 % 8)
    ∷ (128 + codepoint / 2 ^ 12 % 64)
    ∷ (128 + codepoint / 2 ^ 6 % 64)
    ∷ (128 + codepoint % 64)
    ∷ []

-- The code point that the two halves of six bytes make.
joined : ℕ → ℕ → ℕ → ℕ → ℕ
joined v w y z = 65536 + v % 16 * 2 ^ 16 + w % 64 * 2 ^ 10 + y % 16 * 2 ^ 6 + z % 64

-- Case 3: three bytes, and three more if the test takes both for the halves of one character.
three_bytes : ℕ → List ℕ → Outcome (List ℕ × List ℕ)
unfolding deduce_byte_count four_bytes joined
three_bytes u (v ∷ w ∷ []) = ok (u ∷ v ∷ w ∷ [], [])
three_bytes u (v ∷ w ∷ next ∷ rest) = do
  count ← deduce_byte_count next
  if not (count == 3) || (not (u == 237) && not (next == 237))
      then ok (u ∷ v ∷ w ∷ [], next ∷ rest)
      else elim rest [
        | [] ↦ fails assertion
        | y ∷ rest' ↦ elim rest' [
          | [] ↦ fails assertion
          | z ∷ rest'' ↦ ok (four_bytes (joined v w y z), rest'')
        ]
      ]
three_bytes u _ = fails assertion

-- One round of the loop.
character : ℕ → List ℕ → Outcome (List ℕ × List ℕ)
unfolding deduce_byte_count two_bytes three_bytes
character first rest = do
  count ← deduce_byte_count first
  if count == 1
      then ok (first ∷ [], rest)
      else (if count == 2 then two_bytes first rest else three_bytes first rest)

to_utf8_on : ℕ → List ℕ → Outcome (List ℕ)
unfolding character
to_utf8_on fuel [] = ok []
to_utf8_on zero (b ∷ bs) = fails out_of_fuel
to_utf8_on (suc fuel) (b ∷ bs) = do
  (appended, rest) ← character b bs
  result ← to_utf8_on fuel rest
  ok (appended ++ result)

-- Each round reads at least a byte.
unfoldable pub to_utf8 : List ℕ → Outcome (List ℕ)
unfolding to_utf8_on
to_utf8 raw = to_utf8_on (length raw) raw
