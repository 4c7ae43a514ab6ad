-- ===== src/Support/Bytes/Tests.antt =====
-- Reading numbers at concrete bytes.
use jllvm.Base.{◌^◌, ◌<◌, ◌≡◌, refl, [], ◌∷◌, ◌++◌, arith, ok}
use jllvm.Support.Bytes.{consume, encode}
use jllvm.Support.Bytes.RoundTrip.{consume-encode, consume-exact}

consume-encode_example : consume 4 (encode 4 3405691582 ++ 7 ∷ []) ≡ ok (3405691582, 7 ∷ [])
consume-encode_example = consume-encode 4 3405691582 (7 ∷ []) (omega arith)

consume_two : consume 2 (1 ∷ 2 ∷ 3 ∷ []) ≡ ok (258, 3 ∷ [])
unfolding consume
consume_two = refl

consume-exact_example : (1 ∷ 2 ∷ 3 ∷ [] ≡ encode 2 258 ++ 3 ∷ []) × (258 < 256 ^ 2)
consume-exact_example =
    consume-exact 2 (1 ∷ 2 ∷ 3 ∷ []) (omega arith, (omega arith, (omega arith, tt))) consume_two
