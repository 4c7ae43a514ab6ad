-- ===== src/Support/Bytes/RoundTrip.antt =====
-- src/jllvm/support/Bytes.hpp: reading and the big-endian encoding.
use jllvm.Base.{
  ℕ, zero, suc, ◌+◌, ◌*◌, ◌/◌, ◌%◌, ◌^◌, ◌<◌, ◌≤◌, ◌≡◌, refl, ap, ◌∙◌, List, [], ◌∷◌, ◌++◌, arith,
  length, length-append, take-append_of_length, drop-append_of_length, All, All-take, ok, le→leb,
  leb→le, ok-pair, leb, Bool-cases, inl, inr, sym, take, drop, take-append-drop, length-take,
}
use native.Mathlib.Nat.{pow-suc, div-add-mod, mod-lt}
use jllvm.Support.Bytes.{IsByte, byte_swap, consume, encode}

length-encode : (size v : ℕ) → length (encode size v) ≡ size
unfolding encode
length-encode zero v = refl
length-encode (suc size) v = omega (arith, length-encode size (v % 256 ^ size))

pow-pos : (size : ℕ) → 0 < 256 ^ size
pow-pos zero = omega arith
pow-pos (suc size) = omega (arith, pow-suc 256 size, pow-pos size)

-- `acc * 256 + q` before a rest `r` of weight `p`.
shift_digit : (acc q p r : ℕ) → (acc * 256 + q) * p + r ≡ acc * (p * 256) + (p * q + r)
shift_digit acc q p r = grind arith

byte_swap-encode :
    (size acc v : ℕ) → v < 256 ^ size → byte_swap acc (encode size v) ≡ acc * 256 ^ size + v
unfolding byte_swap encode
byte_swap-encode zero acc v h = omega arith
byte_swap-encode (suc size) acc v h =
    byte_swap-encode size (acc * 256 + v / 256 ^ size) (v % 256 ^ size) (mod-lt v (pow-pos size))
    ∙ shift_digit acc (v / 256 ^ size) (256 ^ size) (v % 256 ^ size)
    ∙ rw (pow-suc, div-add-mod v (256 ^ size))

-- Reading the big-endian encoding of a number that fits gives the number back and leaves what
-- follows it.
pub consume-encode :
    (size v : ℕ) (rest : List ℕ)
    → v < 256 ^ size
    → consume size (encode size v ++ rest) ≡ ok (v, rest)
unfolding consume
consume-encode size v rest h =
    let long : size ≤ length (encode size v ++ rest) =
      omega (arith, length-append (encode size v) rest, length-encode size v) in
    rw
      (
        le→leb _ _ long,
        take-append_of_length size _ rest (length-encode size v),
        drop-append_of_length size _ rest (length-encode size v),
      )
      (ap (λ n. ok (n, rest)) (byte_swap-encode size 0 v h ∙ omega arith))

-- Digits accumulate linearly.
byte_swap-acc : (acc : ℕ) (bs : List ℕ) → byte_swap acc bs ≡ acc * 256 ^ length bs + byte_swap 0 bs
unfolding byte_swap
byte_swap-acc acc [] = omega arith
byte_swap-acc acc (b ∷ bs) =
    let p = 256 ^ length bs in
    byte_swap-acc (acc * 256 + b) bs
    ∙ shift_digit acc b p (byte_swap 0 bs)
    ∙ rw (pow-suc, byte_swap-acc (0 * 256 + b) bs)
        (omega (arith, shift_digit 0 b p (byte_swap 0 bs)))

byte_swap-lt : (bs : List ℕ) → All IsByte bs → byte_swap 0 bs < 256 ^ length bs
unfolding byte_swap
byte_swap-lt [] h = omega arith
byte_swap-lt (b ∷ bs) h =
    grind (arith, byte_swap-acc (0 * 256 + b) bs, byte_swap-lt bs h.1, pow-suc 256 (length bs))

leading_digit : (b p r : ℕ) → r < p → ((b * p + r) / p ≡ b) × ((b * p + r) % p ≡ r)
leading_digit b p r h = grind arith

encode-byte_swap : (bs : List ℕ) → All IsByte bs → encode (length bs) (byte_swap 0 bs) ≡ bs
unfolding byte_swap encode
encode-byte_swap [] h = refl
encode-byte_swap (b ∷ bs) h =
    let e = byte_swap-acc (0 * 256 + b) bs in
    let d = leading_digit b (256 ^ length bs) (byte_swap 0 bs) (byte_swap-lt bs h.1) in
    let z : 0 * 256 + b ≡ b = omega arith in
    rw (e, z, d.0, d.1) (ap (λ t. b ∷ t) (encode-byte_swap bs h.1))

-- Whatever is read from bytes is a number that fits, and the bytes are its big-endian encoding
-- followed by what is left.
pub consume-exact :
    (size : ℕ) (bytes : List ℕ) {v : ℕ} {rest : List ℕ}
    → All IsByte bytes
    → consume size bytes ≡ ok (v, rest)
    → (bytes ≡ encode size v ++ rest) × (v < 256 ^ size)
unfolding consume
consume-exact size bytes {v} {rest} valid h = elim (Bool-cases (leb size (length bytes))) [
  | inl long ↦
      let e : ok (byte_swap 0 (take size bytes), drop size bytes) ≡ ok (v, rest) = rw long at h in
      let front = All-take IsByte size bytes valid in
      let n = length-take size bytes (leb→le _ _ long) in
      let (value, left) = ok-pair e in
      let front_eq : encode size v ≡ take size bytes =
        rw (n, value) at (encode-byte_swap (take size bytes) front) in
      (
        rw (front_eq, ← left) (sym (take-append-drop size bytes)),
        rw (n, value) at (byte_swap-lt (take size bytes) front),
      )
  | inr short ↦ cc (rw short at h)
]
